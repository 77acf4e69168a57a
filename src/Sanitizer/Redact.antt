-- ===== src/Sanitizer/Redact.antt =====
-- `_UNSAFE_INSTRUCTION_RE` and `_sanitize_text` of app/research/service/context_sanitizer.py.
-- The pattern's alternatives are deterministic: a run of white space is always followed by another
-- kind of character, so a match needs no backtracking.
use Prim.Native.String.{[] as nil, ◌∷◌ as ◌∷ᶜ◌}
use git_hub_repository_resea.Base.{
  ℕ, zero, suc, ◌+◌, ◌-◌, String, Option, none, some, nat_eq, if◌then◌else◌,
}
use git_hub_repository_resea.Text.{Char, code, ◌<>◌, size, between, is_char, is_space, lstrip}

-- The number that characters have in common which `(?i)` takes for one another.
fold_case : Char → ℕ
fold_case c =
    if between b'A' b'Z' c
    then code c + 32
    else if is_char 0x130 c
    then b'i'
    else if is_char 0x131 c
    then b'i'
    else if is_char 0x17f c
    then b's'
    else if is_char 0x212a c
    then b'k'
    else code c

-- What stands behind a word of the pattern.
eat : String → String → Option String
unfolding fold_case
eat nil s = some s
eat (d ∷ᶜ word) nil = none
eat (d ∷ᶜ word) (c ∷ᶜ s) =
    let rest = eat word s in if nat_eq (fold_case c) (code d) then rest else none

-- \s+
eat_spaces : String → Option String
eat_spaces nil = none
eat_spaces (c ∷ᶜ s) = if is_space c then some (lstrip is_space s) else none

abbrev then_eat : Option String → (String → Option String) → Option String
then_eat none f = none
then_eat (some s) f = f s

abbrev or_else : Option String → Option String → Option String
or_else none o = o
or_else (some s) o = some s

-- a word, white space and a word or a colon
label : String → String → String → Option String
unfolding eat
label word mark s = then_eat (eat word s) (λ r. eat mark (lstrip is_space r))

-- The text behind a match that begins here.
match_unsafe : String → Option String
unfolding label eat_spaces
match_unsafe s =
    or_else
      (then_eat (eat "ignore" s) (λ a.
        then_eat (eat_spaces a)
          (λ b. then_eat (eat "previous" b) (λ c. then_eat (eat_spaces c) (eat "instructions")))))
      (or_else (label "system" "prompt" s) (
        or_else (label "assistant" ":" s) (or_else (label "developer" ":" s) (label "user" ":" s))))

-- How much of a text the match takes, less its first character.
abbrev matched : String → Option String → Option ℕ
matched s none = none
matched s (some rest) = some (size s - size rest)

-- `re.sub` from left to right; `skip` counts the characters of a match that are still to be dropped.
redact_from : ℕ → String → String
unfolding match_unsafe ◌<>◌
redact_from skip nil = nil
redact_from (suc skip) (c ∷ᶜ s) = redact_from skip s
redact_from zero (c ∷ᶜ s) = elim (matched s (match_unsafe (c ∷ᶜ s))) [
  | none ↦ c ∷ᶜ redact_from zero s
  | some n ↦ "[redacted]" <> redact_from n s
]

unfoldable pub sanitize_text : String → String
unfolding redact_from
sanitize_text value = redact_from zero value
