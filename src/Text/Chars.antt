-- ===== src/Text/Chars.antt =====
-- Classes of characters, by their numbers.
pub use Prim.Native.Char.{Char, code}
use Prim.Native.String.{char_at}
use git_hub_repository_resea.Base.{ℕ, ◌-◌, String, Bool, ◌&&◌, ◌||◌, nat_eq, leb, if◌then◌else◌}

abbrev pub is_char : ℕ → Char → Bool
is_char n c = nat_eq (code c) n

abbrev pub between : ℕ → ℕ → Char → Bool
between lo hi c = leb lo (code c) && leb (code c) hi

unfoldable pub is_alpha : Char → Bool
is_alpha c = between b'a' b'z' c || between b'A' b'Z' c

unfoldable pub is_digit : Char → Bool
is_digit c = between b'0' b'9' c

unfoldable pub is_ascii : Char → Bool
is_ascii c = leb (code c) 127

-- str.isspace
unfoldable pub is_space : Char → Bool
is_space c =
    between 9 13 c
    || between 28 32 c
    || is_char 0x85 c
    || is_char 0xa0 c
    || is_char 0x1680 c
    || between 0x2000 0x200a c
    || between 0x2028 0x2029 c
    || is_char 0x202f c
    || is_char 0x205f c
    || is_char 0x3000 c

-- The lower case of one character. Two characters outside ASCII have an ASCII letter in their lower
-- case; the others keep out of ASCII, and stand here for their own lower case.
unfoldable pub lower_char : Char → String
lower_char c =
    if between b'A' b'Z' c
    then String.◌∷◌ (char_at "abcdefghijklmnopqrstuvwxyz" (code c - b'A')) ""
    else if is_char 0x212a c
    then "k"
    else if is_char 0x130 c
    then "i̇"
    else String.◌∷◌ c ""

unfoldable pub digit : ℕ → Char
digit d = char_at "0123456789" d
