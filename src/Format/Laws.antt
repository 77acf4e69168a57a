-- ===== src/Format/Laws.antt =====
-- Templates with braces only in the fields.
use Prim.Native.String.{[] as nil, ◌∷◌ as ◌∷ᶜ◌}
use git_hub_repository_resea.Base.{String, ◌≡◌, refl, ap, ◌∙◌, true, false, arith}
use git_hub_repository_resea.Exec.{Result, ok, raise}
use git_hub_repository_resea.Text.{Char, ◌<>◌, any_char}
use git_hub_repository_resea.Format.{
  plain, format_from, scan, prepend, brace_free, open_brace, close_brace, one,
}

module _ (fields : String → Result String) where
  prepend-one :
      (c : Char) (s : String) (r : Result String)
      → prepend fields (ok (one c)) (prepend fields (ok s) r) ≡ prepend fields (ok (c ∷ᶜ s)) r
  unfolding ◌<>◌
  prepend-one c s (ok t) = refl
  prepend-one c s (raise e) = refl

  prepend_nothing : (r : Result String) → prepend fields (ok nil) r ≡ r
  unfolding ◌<>◌
  prepend_nothing (ok t) = refl
  prepend_nothing (raise e) = refl

  -- A text without braces stands for itself.
  pub format_from-<> :
      (s t : String)
      → brace_free s ≡ true
      → format_from fields plain (s <> t) ≡ prepend fields (ok s) (format_from fields plain t)
  unfolding format_from scan any_char ◌<>◌
  format_from-<> nil t h = ground (arith, prepend_nothing (format_from fields plain t))
  format_from-<> (c ∷ᶜ s) t h =
      let not_open : open_brace c ≡ false = ground arith in
      let not_close : close_brace c ≡ false = ground arith in
      let rest : brace_free s ≡ true = ground arith in
      rw not_open (
        rw not_close (
          ap (prepend fields (ok (one c))) (format_from-<> s t rest)
          ∙ prepend-one c s (format_from fields plain t)))
