-- ===== src/Tests/Tokens.antt =====
-- A token library and a Redis server in memory that keep what the sessions rely on.
use Prim.Native.String.{[] as nil, ◌∷◌ as ◌∷ᶜ◌}
use git_hub_repository_resea.Base.{
  ℕ, zero, suc, String, ◌≡◌, ◌≢◌, refl, sym, ap, ◌<◌, ◌∙◌, true, Option, none, some, List, [], ◌∷◌,
  one_of, ◌==◌, leb, truthy, eq_iff, arith, if◌then◌else◌,
}
use git_hub_repository_resea.Exec.{ok, pure}
use git_hub_repository_resea.Text.{◌<>◌, size, left, drop, is_char}
use git_hub_repository_resea.Text.Laws.{<>_assoc, <>_nil}
use git_hub_repository_resea.Redis.{Server, IsRedis}
use git_hub_repository_resea.Security.Tokens.{Claims, Decoded, claims, expired, Jwt}
use git_hub_repository_resea.Security.Sessions.{IsJwt}
use git_hub_repository_resea.Security.SingleLogin.{IsScan}

pub record Slot : Type 0 where
  pub key : String
  pub content : Option String

abbrev slot_value : String → List Slot → Option String
slot_value k [] = none
slot_value k (e ∷ slots) = if e.key == k then e.content else slot_value k slots

abbrev keys_of : List Slot → List String
keys_of [] = []
keys_of (e ∷ slots) = e.key ∷ keys_of slots

-- Its scan gives every key, whatever the pattern.
abbrev pub cache : Server (List Slot) String
cache = record {
  attempt = pure tt;
  value = λ r k. slot_value k r;
  put = λ k v ttl r. record { key = k; content = some v } ∷ r;
  remove = λ k r. record { key = k; content = none } ∷ r;
  scan = λ pattern r. (ok (keys_of r), r);
}

pub cache-IsRedis : IsRedis cache
cache-IsRedis = record {
  value-attempt = λ r k. refl;
  value-put = λ k v ttl r j. refl;
  value-remove = λ k r j. refl;
  value-scan = λ pattern r k. refl;
}

one_of-keys_of :
    (k : String) (slots : List Slot) → slot_value k slots ≢ none → one_of k (keys_of slots) ≡ true
one_of-keys_of k [] present = absurd (present refl)
one_of-keys_of k (e ∷ slots) present =
    ground (arith, eq_iff k e.key, eq_iff e.key k, one_of-keys_of k slots)

pub cache-IsScan : IsScan cache
cache-IsScan = record {
  scan-complete = λ prefix rest r {found} plain_prefix scanned present.
      rw (← found_eq (keys_of r) found scanned) (one_of-keys_of (prefix <> rest) r present);
}
  where
    found_eq : (l m : List String) → ok l ≡ ok m → l ≡ m
    found_eq l m e = cc e

-- The text of claims: numbers in unary, texts behind their lengths.
pub unary : ℕ → String
unfolding ◌<>◌
unary zero = "."
unary (suc n) = "i" <> unary n

pub read_unary : String → ℕ × String
read_unary nil = (0, nil)
read_unary (c ∷ᶜ s) =
    let rest = read_unary s in if is_char b'i' c then (suc rest.0, rest.1) else (0, s)

read_unary-unary : (n : ℕ) (t : String) → read_unary (unary n <> t) ≡ (n, t)
unfolding read_unary unary ◌<>◌
read_unary-unary zero t = refl
read_unary-unary (suc n) t = rw (read_unary-unary n t) refl

left-size : (s t : String) → left (size s) (s <> t) ≡ s
unfolding left size ◌<>◌
left-size nil t = refl
left-size (c ∷ᶜ s) t = ap (λ u. c ∷ᶜ u) (left-size s t)

drop-size : (s t : String) → drop (size s) (s <> t) ≡ t
unfolding drop size ◌<>◌
drop-size nil t = refl
drop-size (c ∷ᶜ s) t = drop-size s t

written : Option String → String
written none = unary 0
written (some s) = unary 1 <> unary (size s) <> s

read_some : ℕ × String → Option String × String
read_some (n, s) = (some (left n s), drop n s)

read_flag : ℕ × String → Option String × String
read_flag (zero, s) = (none, s)
read_flag (suc n, s) = read_some (read_unary s)

read_option : String → Option String × String
read_option s = read_flag (read_unary s)

read_option-written : (o : Option String) (t : String) → read_option (written o <> t) ≡ (o, t)
unfolding read_option written read_flag read_some
read_option-written none t = rw (read_unary-unary 0 t) refl
read_option-written (some s) t =
    rw
      (
        <>_assoc (unary 1) (unary (size s) <> s) t,
        read_unary-unary 1 ((unary (size s) <> s) <> t),
        <>_assoc (unary (size s)) s t,
        read_unary-unary (size s) (s <> t),
        left-size s t,
        drop-size s t,
      )
      refl

pub encode : Claims → String
encode c = unary c.exp <> written c.session_uuid <> written c.sub

decoded : ℕ → ℕ → Option String → Option String → Decoded
decoded now exp session_uuid sub =
    if leb now exp
    then claims (record { session_uuid = session_uuid; sub = sub; exp = exp })
    else expired

decode_sub : ℕ → ℕ → Option String → Option String × String → Decoded
decode_sub now exp session_uuid (sub, rest) = decoded now exp session_uuid sub

decode_session : ℕ → ℕ → Option String × String → Decoded
decode_session now exp (session_uuid, rest) = decode_sub now exp session_uuid (read_option rest)

pub decode_exp : ℕ → ℕ × String → Decoded
decode_exp now (exp, rest) = decode_session now exp (read_option rest)

abbrev pub unary_jwt : Jwt
unary_jwt = record { encode = encode; decode = λ now token. decode_exp now (read_unary token) }

read_last : (o : Option String) → read_option (written o) ≡ (o, "")
read_last o = ap read_option (sym (<>_nil (written o))) ∙ read_option-written o ""

decode-encode :
    (c : Claims) (now : ℕ)
    → decode_exp now (read_unary (encode c)) ≡ (if leb now c.exp then claims c else expired)
unfolding encode decode_exp decode_session decode_sub decoded
decode-encode c now =
    rw
      (
        read_unary-unary c.exp (written c.session_uuid <> written c.sub),
        read_option-written c.session_uuid (written c.sub),
        read_last c.sub,
      )
      refl

size_blank : size "" ≡ 0
unfolding size
size_blank = refl

truthy-positive : (s : String) → 0 < size s → truthy s ≡ true
truthy-positive s h = ground (arith, eq_iff s "", blank_size s, size_blank)
  where
    blank_size : (s : String) → s ≡ "" → size s ≡ size ""
    blank_size s e = ap size e

size-unary : (n : ℕ) (t : String) → 0 < size (unary n <> t)
unfolding unary size ◌<>◌
size-unary zero t = omega arith
size-unary (suc n) t = omega arith

pub unary_jwt-IsJwt : IsJwt unary_jwt
unfolding encode
unary_jwt-IsJwt = record {
  decode-encode = decode-encode;
  truthy-encode = λ c. truthy-positive _ (size-unary c.exp _);
}
