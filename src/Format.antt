-- ===== src/Format.antt =====
-- `str.format` with named fields: doubled braces stand for one, `{name}` for the value of the field,
-- and a brace that is neither raises. The values come from a function, which may raise as well.
pub mod Laws
use Prim.Native.String.{[] as nil, ◌∷◌ as ◌∷ᶜ◌}
use git_hub_repository_resea.Base.{ℕ, zero, suc, String, Bool, not, ◌||◌, if◌then◌else◌}
use git_hub_repository_resea.Errors.{other}
use git_hub_repository_resea.Exec.{Result, ok, raise, and_then}
use git_hub_repository_resea.Text.{Char, ◌<>◌, is_char, any_char}

-- What the scanner has read: plain text, one brace, or a part of a field with its open braces.
pub data Mode : Type 0 where
  plain opened closed : Mode
  in_field : ℕ → String → Mode

abbrev pub open_brace : Char → Bool
open_brace = is_char b'{'

abbrev pub close_brace : Char → Bool
close_brace = is_char b'}'

abbrev pub one : Char → String
one c = c ∷ᶜ nil

module _ (fields : String → Result String) where
  -- One character: the text that it gives, and the mode behind it.
  unfoldable pub scan : Mode → Char → Result String × Mode
  unfolding ◌<>◌
  scan plain c =
      if open_brace c
      then (ok nil, opened)
      else if close_brace c
      then (ok nil, closed)
      else (ok (one c), plain)
  scan opened c =
      if open_brace c
      then (ok (one c), plain)
      else if close_brace c
      then (fields nil, plain)
      else (ok nil, in_field zero (one c))
  scan closed c =
      if close_brace c
      then (ok (one c), plain)
      else (raise (other "Single '}' encountered in format string"), plain)
  scan (in_field zero name) c =
      if open_brace c
      then (ok nil, in_field 1 (name <> one c))
      else if close_brace c
      then (fields name, plain)
      else (ok nil, in_field zero (name <> one c))
  scan (in_field (suc d) name) c =
      if open_brace c
      then (ok nil, in_field (suc (suc d)) (name <> one c))
      else if close_brace c
      then (ok nil, in_field d (name <> one c))
      else (ok nil, in_field (suc d) (name <> one c))

  -- the end of the template
  unfoldable pub finish : Mode → Result String
  finish plain = ok nil
  finish opened = raise (other "Single '{' encountered in format string")
  finish closed = raise (other "Single '}' encountered in format string")
  finish (in_field d name) = raise (other "expected '}' before end of string")

  abbrev pub prepend : Result String → Result String → Result String
  prepend emitted rest = and_then emitted (λ s. and_then rest (λ t. ok (s <> t)))

  unfoldable pub format_from : Mode → String → Result String
  unfolding scan finish
  format_from m nil = finish m
  format_from m (c ∷ᶜ s) = let st = scan m c in prepend st.0 (format_from st.1 s)

  unfoldable pub format : String → Result String
  unfolding format_from
  format template = format_from plain template

abbrev pub brace_free : String → Bool
brace_free s = not (any_char (λ c. open_brace c || close_brace c) s)
