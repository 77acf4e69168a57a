-- ===== src/Logging/Escape.antt =====
-- The escape of a line against the formatting that follows it.
use Prim.Native.String.{[] as nil, ◌∷◌ as ◌∷ᶜ◌}
use Prim.Native.String.{char_at}
use text.Mathlib.TextEquality.{Char-path}
use git_hub_repository_resea.Base.{String, ◌≡◌, refl, subst, Bool-cases, inl, inr, arith}
use git_hub_repository_resea.Exec.{Result, ok}
use git_hub_repository_resea.Json.{Json, Dict}
use git_hub_repository_resea.Text.{◌<>◌, Char, is_char, replace_char}
use git_hub_repository_resea.Format.{format, format_from, scan, finish, plain}
use git_hub_repository_resea.Logging.{
  escape_loguru_braces, LogRecord, rendered, human_format, payload, json_format,
}

abbrev opening_brace : Char
opening_brace = char_at "{" 0

abbrev closing_brace : Char
closing_brace = char_at "}" 0

module _ (fields : String → Result String) where
  format_from-escape : (s : String) → format_from fields plain (escape_loguru_braces s) ≡ ok s
  unfolding format_from scan finish escape_loguru_braces replace_char ◌<>◌
  format_from-escape nil = refl
  format_from-escape (c ∷ᶜ s) = elim (Bool-cases (is_char b'{' c)) [
    | inl opening ↦
        let same : opening_brace ≡ c = Char-path opening_brace c (ground arith) in
        subst (λ d. format_from fields plain (escape_loguru_braces (d ∷ᶜ s)) ≡ ok (d ∷ᶜ s)) same
          (rw (format_from-escape s) refl)
    | inr not_opening ↦ elim (Bool-cases (is_char b'}' c)) [
      | inl closing ↦
          let same : closing_brace ≡ c = Char-path closing_brace c (ground arith) in
          subst (λ d. format_from fields plain (escape_loguru_braces (d ∷ᶜ s)) ≡ ok (d ∷ᶜ s)) same
            (rw (format_from-escape s) refl)
      | inr not_closing ↦
          rw (not_opening, not_closing, not_opening, not_closing, format_from-escape s) refl
    ]
  ]

  -- loguru takes the text that the formatter returns as a template of `str.format`. Whatever the record
  -- and the fields hold, that step gives back the line as it was rendered; so also for the JSON line.
  -- The colour markup that loguru reads in the same template is not escaped, and not modelled.
  pub format-human_format :
      (str_of : Json → String) (dumps : Dict → String) (request_id : String) (r : LogRecord)
      → (format fields (human_format str_of request_id r) ≡ ok (rendered str_of request_id r))
        × (format fields (json_format dumps request_id r)
            ≡ ok (dumps (payload request_id r) <> "\n"))
  unfolding format human_format json_format
  format-human_format str_of dumps request_id r = (format_from-escape _, format_from-escape _)
