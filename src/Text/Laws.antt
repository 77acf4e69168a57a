-- ===== src/Text/Laws.antt =====
-- Lemmas about texts.
use Prim.Native.String.{[] as nil, ◌∷◌ as ◌∷ᶜ◌}
use text.Mathlib.TextLemmas.{tail-eq_of_cons-eq}
use git_hub_repository_resea.Base.{
  ℕ, zero, suc, ◌+◌, ◌-◌, min, String, ◌≡◌, refl, ap, Bool, false, ◌&&◌, ◌||◌, arith,
}
use git_hub_repository_resea.Text.{
  Char, ◌<>◌, size, left, drop, starts_with, contains, replace, replace_from, all_chars, any_char,
}

pub <>_nil : (s : String) → s <> nil ≡ s
unfolding ◌<>◌
<>_nil nil = refl
<>_nil (c ∷ᶜ s) = ap (λ t. c ∷ᶜ t) (<>_nil s)

pub <>_assoc : (s t u : String) → (s <> t) <> u ≡ s <> t <> u
unfolding ◌<>◌
<>_assoc nil t u = refl
<>_assoc (c ∷ᶜ s) t u = ap (λ v. c ∷ᶜ v) (<>_assoc s t u)

pub <>_cancel_left : (s t u : String) → s <> t ≡ s <> u → t ≡ u
unfolding ◌<>◌
<>_cancel_left nil t u e = e
<>_cancel_left (c ∷ᶜ s) t u e = <>_cancel_left s t u (tail-eq_of_cons-eq e)

pub size-<> : (s t : String) → size (s <> t) ≡ size s + size t
unfolding ◌<>◌ size
size-<> nil t = omega arith
size-<> (c ∷ᶜ s) t = omega (arith, size-<> s t)

pub size-left : (n : ℕ) (s : String) → size (left n s) ≡ min n (size s)
unfolding left size
size-left zero s = omega arith
size-left (suc n) nil = omega arith
size-left (suc n) (c ∷ᶜ s) = omega (arith, size-left n s)

pub left-drop : (n : ℕ) (s : String) → left n s <> drop n s ≡ s
unfolding left drop ◌<>◌
left-drop zero s = refl
left-drop (suc n) nil = refl
left-drop (suc n) (c ∷ᶜ s) = ap (λ t. c ∷ᶜ t) (left-drop n s)

pub size-drop : (n : ℕ) (s : String) → size (drop n s) ≡ size s - n
unfolding drop size
size-drop zero s = omega arith
size-drop (suc n) nil = omega arith
size-drop (suc n) (c ∷ᶜ s) = omega (arith, size-drop n s)

-- A text that does not occur is replaced nowhere.
pub replace_absent : (t u s : String) → contains s t ≡ false → replace t u s ≡ s
unfolding replace replace_from contains
replace_absent t u nil h = refl
replace_absent t u (c ∷ᶜ s) h =
    let here : starts_with (c ∷ᶜ s) t ≡ false = ground arith in
    let later : contains s t ≡ false = ground arith in
    rw here (ap (λ r. c ∷ᶜ r) (replace_absent t u s later))

pub all_chars-<> :
    (p : Char → Bool) (s t : String) → all_chars p (s <> t) ≡ (all_chars p s && all_chars p t)
unfolding all_chars ◌<>◌
all_chars-<> p nil t = refl
all_chars-<> p (c ∷ᶜ s) t = ground (arith, all_chars-<> p s t)

pub any_char-<> :
    (p : Char → Bool) (s t : String) → any_char p (s <> t) ≡ (any_char p s || any_char p t)
unfolding any_char ◌<>◌
any_char-<> p nil t = refl
any_char-<> p (c ∷ᶜ s) t = ground (arith, any_char-<> p s t)
