-- ===== src/Text/Numbers.antt =====
-- Python's `int` of a text, for the digits of ASCII, and the numbers that `str` writes.
use Prim.Native.String.{[] as nil, ◌∷◌ as ◌∷ᶜ◌}
use git_hub_repository_resea.Base.{
  ℕ, zero, suc, ◌+◌, ◌-◌, ◌*◌, ◌/◌, ◌%◌, ◌<◌, String, ◌≡◌, ◌≢◌, refl, ◌∙◌, Bool, true, false,
  Option, none, some, ap, not, Bool-cases, inl, inr, leb, arith, if◌then◌else◌,
}
use git_hub_repository_resea.Text.{
  Char, code, ◌<>◌, is_char, is_digit, is_space, all_chars, strip, lstrip, rstrip, digit, show,
  show_from,
}
use git_hub_repository_resea.Text.Preserve.{none_of, all_chars_mono, lstrip_none, rstrip_none}

-- a whole number: itself, or the number below minus one
pub data ℤ : Type 0 where
  pos : ℕ → ℤ
  negsuc : ℕ → ℤ

abbrev pub negate : ℕ → ℤ
negate zero = pos 0
negate (suc n) = negsuc n

-- One underscore may stand between two digits; the flag says whether a digit stands before.
unfoldable pub digits : Bool → ℕ → String → Option ℕ
digits true acc nil = some acc
digits false acc nil = none
digits before_digit acc (c ∷ᶜ s) =
    let longer = digits true (acc * 10 + (code c - b'0')) s in
    let behind = digits false acc s in
    if is_digit c
    then longer
    else if is_char b'_' c
    then if before_digit then behind else none
    else none

abbrev option_pos : Option ℕ → Option ℤ
option_pos none = none
option_pos (some n) = some (pos n)

abbrev option_negate : Option ℕ → Option ℤ
option_negate none = none
option_negate (some n) = some (negate n)

unfoldable pub signed : String → Option ℤ
signed nil = none
signed (c ∷ᶜ s) =
    if is_char b'-' c
    then option_negate (digits false 0 s)
    else if is_char b'+' c
    then option_pos (digits false 0 s)
    else option_pos (digits false 0 (c ∷ᶜ s))

-- int(s)
unfoldable pub int : String → Option ℤ
int s = signed (strip is_space s)

-- str(n)
unfoldable pub show_int : ℤ → String
show_int (pos n) = show n
show_int (negsuc n) = "-" <> show (suc n)

digits-digit :
    (b : Bool) (acc k : ℕ) (s : String)
    → k < 10
    → digits b acc (digit k ∷ᶜ s) ≡ digits true (acc * 10 + k) s
unfolding digits digit is_digit
digits-digit b acc zero s h = refl
digits-digit b acc (suc zero) s h = refl
digits-digit b acc (suc (suc zero)) s h = refl
digits-digit b acc (suc (suc (suc zero))) s h = refl
digits-digit b acc (suc (suc (suc (suc zero)))) s h = refl
digits-digit b acc (suc (suc (suc (suc (suc zero))))) s h = refl
digits-digit b acc (suc (suc (suc (suc (suc (suc zero)))))) s h = refl
digits-digit b acc (suc (suc (suc (suc (suc (suc (suc zero))))))) s h = refl
digits-digit b acc (suc (suc (suc (suc (suc (suc (suc (suc zero)))))))) s h = refl
digits-digit b acc (suc (suc (suc (suc (suc (suc (suc (suc (suc zero))))))))) s h = refl
digits-digit b acc (suc (suc (suc (suc (suc (suc (suc (suc (suc (suc k)))))))))) s h =
    absurd (omega (arith, h))

is_digit-digit : (k : ℕ) → k < 10 → is_digit (digit k) ≡ true
unfolding digit is_digit
is_digit-digit zero h = refl
is_digit-digit (suc zero) h = refl
is_digit-digit (suc (suc zero)) h = refl
is_digit-digit (suc (suc (suc zero))) h = refl
is_digit-digit (suc (suc (suc (suc zero)))) h = refl
is_digit-digit (suc (suc (suc (suc (suc zero))))) h = refl
is_digit-digit (suc (suc (suc (suc (suc (suc zero)))))) h = refl
is_digit-digit (suc (suc (suc (suc (suc (suc (suc zero))))))) h = refl
is_digit-digit (suc (suc (suc (suc (suc (suc (suc (suc zero)))))))) h = refl
is_digit-digit (suc (suc (suc (suc (suc (suc (suc (suc (suc zero))))))))) h = refl
is_digit-digit (suc (suc (suc (suc (suc (suc (suc (suc (suc (suc k)))))))))) h =
    absurd (omega (arith, h))

digits-show_from :
    (fuel n : ℕ) (b : Bool) (s : String)
    → n < fuel
    → digits b 0 (show_from fuel n s) ≡ digits true n s
unfolding show_from
digits-show_from zero n b s h = absurd (omega (arith, h))
digits-show_from (suc fuel) n b s h = elim (Bool-cases (leb n 9)) [
  | inl small ↦
      rw small
        (digits-digit b 0 (n % 10) s (omega arith) ∙ ap (λ m. digits true m s) (ground arith))
  | inr large ↦ rw large (
      digits-show_from fuel (n / 10) b (digit (n % 10) ∷ᶜ s) (ground arith)
      ∙ digits-digit true (n / 10) (n % 10) s (omega arith)
      ∙ ap (λ m. digits true m s) (omega arith))
]

all_digits-show_from :
    (fuel n : ℕ) (s : String)
    → all_chars is_digit s ≡ true
    → all_chars is_digit (show_from fuel n s) ≡ true
unfolding show_from all_chars
all_digits-show_from zero n s h = h
all_digits-show_from (suc fuel) n s h =
    let d = is_digit-digit (n % 10) (omega arith) in
    ground (arith, d, all_digits-show_from fuel (n / 10) (digit (n % 10) ∷ᶜ s))

is_digit-show : (n : ℕ) → all_chars is_digit (show n) ≡ true
unfolding show all_chars
is_digit-show n = all_digits-show_from (suc n) n nil refl

signed-digits :
    (s : String) (n : ℕ)
    → all_chars is_digit s ≡ true
    → digits false 0 s ≡ some n
    → signed s ≡ some (pos n)
unfolding signed all_chars is_digit digits
signed-digits nil n h e = cc
signed-digits (c ∷ᶜ s) n h e = ground arith

digit-not-space : (c : Char) → is_digit c ≡ true → not (is_space c) ≡ true
unfolding is_digit is_space
digit-not-space c h = ground arith

no_space-show : (n : ℕ) → none_of is_space (show n) ≡ true
no_space-show n =
    all_chars_mono is_digit (λ c. not (is_space c)) (show n) digit-not-space (is_digit-show n)

strip_no_space : (s : String) → none_of is_space s ≡ true → strip is_space s ≡ s
unfolding strip
strip_no_space s h = rw (lstrip_none is_space s h) (rstrip_none is_space s h)

digits-show : (n : ℕ) → digits false 0 (show n) ≡ some n
unfolding show digits
digits-show n = digits-show_from (suc n) n false nil (omega arith)

negative-no-space : (n : ℕ) → none_of is_space ("-" <> show (suc n)) ≡ true
unfolding all_chars is_space ◌<>◌
negative-no-space n = no_space-show (suc n)

signed-negative : (n : ℕ) → signed ("-" <> show (suc n)) ≡ some (negsuc n)
unfolding signed ◌<>◌
signed-negative n = rw (digits-show (suc n)) refl

-- `int` reads back every whole number that `str` has written, whatever its sign.
pub int-show_int : (z : ℤ) → int (show_int z) ≡ some z
unfolding int show_int
int-show_int (pos n) =
    rw (strip_no_space (show n) (no_space-show n))
      (signed-digits (show n) n (is_digit-show n) (digits-show n))
int-show_int (negsuc n) =
    rw (strip_no_space ("-" <> show (suc n)) (negative-no-space n)) (signed-negative n)

int-empty : int "" ≡ none
unfolding int signed strip lstrip rstrip
int-empty = refl

pub show_int-ne-empty : (z : ℤ) → show_int z ≢ ""
show_int-ne-empty z e = cc (int-show_int z, int-empty, ap int e)
