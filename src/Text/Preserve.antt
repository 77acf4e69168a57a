-- ===== src/Text/Preserve.antt =====
-- Parts of a text have the characters of the text, and a text without the characters that a
-- function looks for is left as it is.
use Prim.Native.String.{[] as nil, ◌∷◌ as ◌∷ᶜ◌}
use git_hub_repository_resea.Base.{
  String, ◌≡◌, ◌≢◌, refl, Bool, true, false, not, List, [], ◌∷◌, All, arith, Bool-cases, inl, inr,
  ◌==◌,
}
use git_hub_repository_resea.Text.{
  Char, ◌<>◌, all_chars, lstrip, rstrip, unless_blank, strip, keep, before, after, split, cons_head,
  remove_suffix,
}

module _ (p q : Char → Bool) where
  pub all_chars_mono :
      (s : String)
      → ((c : Char) → p c ≡ true → q c ≡ true)
      → all_chars p s ≡ true
      → all_chars q s ≡ true
  unfolding all_chars
  all_chars_mono nil weaker h = refl
  all_chars_mono (c ∷ᶜ s) weaker h = ground (arith, weaker c, all_chars_mono s weaker)

  pub all_chars-lstrip : (s : String) → all_chars q s ≡ true → all_chars q (lstrip p s) ≡ true
  unfolding all_chars lstrip
  all_chars-lstrip nil h = refl
  all_chars-lstrip (c ∷ᶜ s) h = ground (arith, all_chars-lstrip s)

  all_chars-unless_blank :
      (b : Bool) (c : Char) (s : String)
      → q c ≡ true
      → all_chars q s ≡ true
      → all_chars q (unless_blank b c s) ≡ true
  unfolding all_chars unless_blank
  all_chars-unless_blank true c nil h k = refl
  all_chars-unless_blank true c (d ∷ᶜ s) h k = ground arith
  all_chars-unless_blank false c s h k = ground arith

  pub all_chars-rstrip : (s : String) → all_chars q s ≡ true → all_chars q (rstrip p s) ≡ true
  unfolding all_chars rstrip
  all_chars-rstrip nil h = refl
  all_chars-rstrip (c ∷ᶜ s) h =
      all_chars-unless_blank (p c) c (rstrip p s) (ground arith) (all_chars-rstrip s (ground arith))

  pub all_chars-before : (s : String) → all_chars q s ≡ true → all_chars q (before p s) ≡ true
  unfolding all_chars before
  all_chars-before nil h = refl
  all_chars-before (c ∷ᶜ s) h = elim (Bool-cases (p c)) [
    | inl sep ↦ rw sep refl
    | inr other ↦ rw other (ground (arith, all_chars-before s))
  ]

  pub all_chars-after : (s : String) → all_chars q s ≡ true → all_chars q (after p s) ≡ true
  unfolding all_chars after
  all_chars-after nil h = refl
  all_chars-after (c ∷ᶜ s) h = ground (arith, all_chars-after s)

  pub all_chars-strip : (s : String) → all_chars q s ≡ true → all_chars q (strip p s) ≡ true
  unfolding strip
  all_chars-strip s h = all_chars-rstrip (lstrip p s) (all_chars-lstrip s h)

  abbrev pub AllText : List String → Type 0
  AllText = All (λ s. all_chars q s ≡ true)

  AllText-cons_head :
      (c : Char) (l : List String) → q c ≡ true → AllText l → AllText (cons_head c l)
  unfolding all_chars
  AllText-cons_head c [] h k = (ground arith, tt)
  AllText-cons_head c (x ∷ l) h k = (ground arith, k.1)

  pub all_chars-split : (s : String) → all_chars q s ≡ true → AllText (split p s)
  unfolding all_chars split
  all_chars-split nil h = (refl, tt)
  all_chars-split (c ∷ᶜ s) h = elim (Bool-cases (p c)) [
    | inl sep ↦ rw sep (refl, all_chars-split s (ground arith))
    | inr other ↦
        rw other (AllText-cons_head c (split p s) (ground arith) (all_chars-split s (ground arith)))
  ]

  pub all_chars-remove_suffix :
      (t s : String) → all_chars q s ≡ true → all_chars q (remove_suffix t s) ≡ true
  unfolding all_chars remove_suffix
  all_chars-remove_suffix t nil h = refl
  all_chars-remove_suffix t (c ∷ᶜ s) h = elim (Bool-cases ((c ∷ᶜ s) == t)) [
    | inl same ↦ rw same refl
    | inr other ↦ rw other (ground (arith, all_chars-remove_suffix t s))
  ]

-- Only the characters that pass are kept.
pub all_chars-keep : (p : Char → Bool) (s : String) → all_chars p (keep p s) ≡ true
unfolding all_chars keep
all_chars-keep p nil = refl
all_chars-keep p (c ∷ᶜ s) = ground (arith, all_chars-keep p s)

-- A text without a character that passes.
abbrev pub none_of : (Char → Bool) → String → Bool
none_of p = all_chars (λ c. not (p c))

module _ (p : Char → Bool) where
  pub keep_all : (s : String) → all_chars p s ≡ true → keep p s ≡ s
  unfolding keep all_chars
  keep_all nil h = refl
  keep_all (c ∷ᶜ s) h = ground (arith, keep_all s)

  pub before_none : (s : String) → none_of p s ≡ true → before p s ≡ s
  unfolding before all_chars
  before_none nil h = refl
  before_none (c ∷ᶜ s) h = ground (arith, before_none s)

  pub lstrip_none : (s : String) → none_of p s ≡ true → lstrip p s ≡ s
  unfolding lstrip all_chars
  lstrip_none nil h = refl
  lstrip_none (c ∷ᶜ s) h = ground arith

  pub rstrip_none : (s : String) → none_of p s ≡ true → rstrip p s ≡ s
  unfolding rstrip all_chars unless_blank
  rstrip_none nil h = refl
  rstrip_none (c ∷ᶜ s) h = ground (arith, rstrip_none s)

  -- A text that ends in other characters keeps them.
  pub rstrip-<> : (s t : String) → t ≢ "" → none_of p t ≡ true → rstrip p (s <> t) ≡ s <> t
  unfolding rstrip ◌<>◌
  rstrip-<> nil t ne h = rstrip_none t h
  rstrip-<> (c ∷ᶜ s) t ne h = rw (rstrip-<> s t ne h) (kept (p c) c (s <> t) (not_empty s t ne))
    where
      kept : (b : Bool) (c : Char) (s : String) → s ≢ "" → unless_blank b c s ≡ c ∷ᶜ s
      kept true c nil ne = absurd (ne refl)
      kept true c (d ∷ᶜ s) ne = refl
      kept false c s ne = refl

      not_empty : (s t : String) → t ≢ "" → s <> t ≢ ""
      not_empty nil t ne e = ne e
      not_empty (c ∷ᶜ s) t ne e = cc e

  pub split_none : (s : String) → none_of p s ≡ true → split p s ≡ s ∷ []
  unfolding split all_chars
  split_none nil h = refl
  split_none (c ∷ᶜ s) h = ground (arith, split_none s)

  -- The first part ends at the first separator.
  pub split-<> :
      (s : String) (c : Char) (t : String)
      → none_of p s ≡ true
      → p c ≡ true
      → split p (s <> c ∷ᶜ t) ≡ s ∷ split p t
  unfolding split all_chars ◌<>◌
  split-<> nil c t h sep = ground arith
  split-<> (d ∷ᶜ s) c t h sep = ground (arith, split-<> s c t)
