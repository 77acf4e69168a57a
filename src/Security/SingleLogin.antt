-- ===== src/Security/SingleLogin.antt =====
-- What a login without `multi_login` removes, and what an authenticated request has passed.
use git_hub_repository_resea.Base.{
  ℕ, String, ◌≡◌, ◌≢◌, Bool, true, false, ◌||◌, Option, List, none, one_of, Option-cases, inl, inr,
  eq_iff, arith,
}
use git_hub_repository_resea.Exec.{ok}
use git_hub_repository_resea.Redis.{Server, IsRedis, nothing}
use git_hub_repository_resea.Redis.Prefix.{value-delete_prefix}
use git_hub_repository_resea.Text.{◌<>◌, Char, is_char}
use git_hub_repository_resea.Text.Preserve.{none_of}
use git_hub_repository_resea.Security.Tokens.{
  Jwt, AccessToken, TokenSettings, key_of, session_key, create_access_token,
}
use git_hub_repository_resea.Security.Sessions.{create_access_token_ok}

-- the characters that mean something in the pattern of a scan
abbrev pub is_glob : Char → Bool
is_glob c = is_char b'*' c || is_char b'?' c || is_char b'[' c || is_char b'\\' c

-- A scan for a prefix finds every key that starts with it.
pub record IsScan {R : Type 0} (redis : Server R String) : Type 0 where
  pub scan-complete :
      (prefix rest : String) (r : R) {found : List String}
      → none_of is_glob prefix ≡ true
      → (redis.scan (prefix <> "*") r).0 ≡ ok found
      → redis.value r (prefix <> rest) ≢ none
      → one_of (prefix <> rest) found ≡ true

module _ {R : Type 0} {redis : Server R String} (L : IsRedis redis) (S : IsScan redis) (jwt : Jwt)
    (settings : TokenSettings) where
  -- After a login without `multi_login` that returned, where no character of the token prefix and of
  -- the user's id means something in the pattern of a scan, no key that starts with that prefix, a
  -- colon and the user's id has a value, but for the entries that the login itself has written. That
  -- holds of every such key, also of the sessions of another user whose id starts with the same
  -- digits.
  pub create_access_token-single_login :
      (now : ℕ) (uuid user_id rest : String) (extra : Option String) (r : R) {a : AccessToken}
      → (create_access_token redis jwt settings now uuid user_id false extra r).0 ≡ ok a
      → none_of is_glob (key_of settings.redis_prefix user_id) ≡ true
      → session_key settings.redis_prefix user_id uuid
        ≢ key_of settings.redis_prefix user_id <> rest
      → key_of settings.extra_info_prefix uuid ≢ key_of settings.redis_prefix user_id <> rest
      → redis.value
          (create_access_token redis jwt settings now uuid user_id false extra r).1
          (key_of settings.redis_prefix user_id <> rest)
        ≡ none
  create_access_token-single_login now uuid user_id rest extra r returned plain_prefix other apart =
      let prefix = key_of settings.redis_prefix user_id in
      let k = prefix <> rest in
      let (_, deleted, stored) =
        create_access_token_ok L jwt settings now uuid user_id false extra r returned in
      let (found, scanned, removed) = value-delete_prefix L prefix nothing r deleted in
      elim (Option-cases (redis.value r k)) [
        | inl absent ↦ ground (
          arith,
          stored k apart,
          removed k,
          eq_iff (session_key settings.redis_prefix user_id uuid) k,
        )
        | inr (v, present) ↦
            let listed = S.scan-complete prefix rest r plain_prefix scanned (λ e. cc e) in
            ground (
              arith,
              stored k apart,
              removed k,
              eq_iff (session_key settings.redis_prefix user_id uuid) k,
            )
      ]
