-- ===== src/Text.antt =====
-- What the program uses of Python's `str`: a text is a `String`, read by its characters.
-- Positions and lengths count characters, as in Python.
mod Chars
pub mod Laws
pub mod Numbers
pub mod Preserve
unfoldable pub use Chars.*
use Prim.Native.String.{[] as nil, ◌∷◌ as ◌∷ᶜ◌}
use git_hub_repository_resea.Base.{
  ℕ, zero, suc, ◌+◌, ◌-◌, ◌*◌, ◌/◌, ◌%◌, String, Bool, true, false, ◌&&◌, ◌||◌, List, [], ◌∷◌,
  nat_eq, leb, if◌then◌else◌, ◌==◌,
}

infixr 66 ◌<>◌
-- s + t
unfoldable pub ◌<>◌ : String → String → String
nil <> t = t
(c ∷ᶜ s) <> t = c ∷ᶜ (s <> t)

-- len(s)
unfoldable pub size : String → ℕ
size nil = 0
size (c ∷ᶜ s) = suc (size s)

-- s[:n]
unfoldable pub left : ℕ → String → String
left zero s = nil
left (suc n) nil = nil
left (suc n) (c ∷ᶜ s) = c ∷ᶜ left n s

-- s[n:]
unfoldable pub drop : ℕ → String → String
drop zero s = s
drop (suc n) nil = nil
drop (suc n) (c ∷ᶜ s) = drop n s

unfoldable pub all_chars : (Char → Bool) → String → Bool
all_chars p nil = true
all_chars p (c ∷ᶜ s) = p c && all_chars p s

-- s.lstrip(chars), the characters given by a test
unfoldable pub lstrip : (Char → Bool) → String → String
lstrip p nil = nil
lstrip p (c ∷ᶜ s) = if p c then lstrip p s else c ∷ᶜ s

unless_blank : Bool → Char → String → String
unless_blank true c nil = nil
unless_blank _ c s = c ∷ᶜ s

-- s.rstrip(chars)
unfoldable pub rstrip : (Char → Bool) → String → String
unfolding unless_blank
rstrip p nil = nil
rstrip p (c ∷ᶜ s) = unless_blank (p c) c (rstrip p s)

-- s.strip(chars)
unfoldable pub strip : (Char → Bool) → String → String
unfolding lstrip rstrip
strip p s = rstrip p (lstrip p s)

-- the characters that pass, in order
unfoldable pub keep : (Char → Bool) → String → String
keep p nil = nil
keep p (c ∷ᶜ s) = let rest = keep p s in if p c then c ∷ᶜ rest else rest

-- s.replace(c, t), for one character c, given by a test
unfoldable pub replace_char : (Char → Bool) → String → String → String
unfolding ◌<>◌
replace_char p t nil = nil
replace_char p t (c ∷ᶜ s) = let rest = replace_char p t s in if p c then t <> rest else c ∷ᶜ rest

-- the text before the first character that passes, or all of it
unfoldable pub before : (Char → Bool) → String → String
before p nil = nil
before p (c ∷ᶜ s) = if p c then nil else c ∷ᶜ before p s

-- the text behind the first character that passes, or nothing
unfoldable pub after : (Char → Bool) → String → String
after p nil = nil
after p (c ∷ᶜ s) = if p c then s else after p s

unfoldable pub any_char : (Char → Bool) → String → Bool
any_char p nil = false
any_char p (c ∷ᶜ s) = p c || any_char p s

abbrev pub cons_head : Char → List String → List String
cons_head c [] = (c ∷ᶜ nil) ∷ []
cons_head c (x ∷ xs) = (c ∷ᶜ x) ∷ xs

-- s.split(sep), for a separator of one character
unfoldable pub split : (Char → Bool) → String → List String
split p nil = nil ∷ []
split p (c ∷ᶜ s) = let rest = split p s in if p c then nil ∷ rest else cons_head c rest

-- sep.join(parts)
unfoldable pub join : String → List String → String
unfolding ◌<>◌
join sep [] = nil
join sep (x ∷ []) = x
join sep (x ∷ y ∷ rest) = x <> sep <> join sep (y ∷ rest)

-- s.startswith(t)
unfoldable pub starts_with : String → String → Bool
starts_with s nil = true
starts_with nil (d ∷ᶜ t) = false
starts_with (c ∷ᶜ s) (d ∷ᶜ t) = nat_eq (code c) (code d) && starts_with s t

-- s.endswith(t)
unfoldable pub ends_with : String → String → Bool
ends_with nil t = nil == t
ends_with (c ∷ᶜ s) t = (c ∷ᶜ s) == t || ends_with s t

-- t in s
unfoldable pub contains : String → String → Bool
unfolding starts_with
contains nil t = nil == t
contains (c ∷ᶜ s) t = starts_with (c ∷ᶜ s) t || contains s t

-- s.replace(t, u), for a text t that is not empty; the number says how much of an occurrence is
-- still to be passed over.
unfoldable pub replace_from : ℕ → String → String → String → String
unfolding starts_with ◌<>◌
replace_from skip t u nil = nil
replace_from (suc skip) t u (c ∷ᶜ s) = replace_from skip t u s
replace_from zero t u (c ∷ᶜ s) =
    let found = replace_from (size t - 1) t u s in
    let rest = replace_from zero t u s in if starts_with (c ∷ᶜ s) t then u <> found else c ∷ᶜ rest

unfoldable pub replace : String → String → String → String
unfolding replace_from
replace t u s = replace_from zero t u s

-- s.removesuffix(t), for a text t that is not empty
unfoldable pub remove_suffix : String → String → String
remove_suffix t nil = nil
remove_suffix t (c ∷ᶜ s) = if (c ∷ᶜ s) == t then nil else c ∷ᶜ remove_suffix t s

-- s.lower(), from the characters' own
unfoldable pub lower : String → String
unfolding lower_char ◌<>◌
lower nil = nil
lower (c ∷ᶜ s) = lower_char c <> lower s

-- str(n): the digits of a number, the last one first found; a number has at most as many digits
-- as its value and one.
show_from : ℕ → ℕ → String → String
show_from zero n acc = acc
show_from (suc fuel) n acc =
    let acc' = digit (n % 10) ∷ᶜ acc in
    let rest = show_from fuel (n / 10) acc' in if leb n 9 then acc' else rest

unfoldable pub show : ℕ → String
unfolding show_from digit
show n = show_from (suc n) n nil
