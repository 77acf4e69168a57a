-- ===== src/Security/Renewal.antt =====
-- A new access token for a refresh token.
use git_hub_repository_resea.Base.{
  ℕ, String, ◌≡◌, ◌≢◌, sym, ◌∙◌, Bool, Option, none, some, eq_iff, eq_refl, arith,
}
use git_hub_repository_resea.Exec.{ok, lift}
use git_hub_repository_resea.Exec.Hoare.{bind_ok}
use git_hub_repository_resea.Redis.{Server, IsRedis, get}
use git_hub_repository_resea.Redis.Commands.{get_ok}
use git_hub_repository_resea.Security.Tokens.{
  Jwt, NewToken, TokenSettings, key_of, session_key, check_refresh, create_access_token,
  create_new_token,
}
use git_hub_repository_resea.Security.Sessions.{create_access_token_ok}

module _ {R : Type 0} {redis : Server R String} (L : IsRedis redis) (jwt : Jwt)
    (settings : TokenSettings) where
  check_refresh_ok :
      (token : String) (stored : Option String)
      → check_refresh token stored ≡ ok tt
      → stored ≡ some token
  check_refresh_ok token none h = cc h
  check_refresh_ok token (some s) h = ground (arith, eq_iff s token)

  -- A renewal that returns has found the refresh token stored for the user, and the access token that
  -- it gives out is stored for the new session, unless the entry of the extra information is the
  -- session's own.
  pub create_new_token_ok :
      (now : ℕ) (uuid user_id refresh_token : String) (multi_login : Bool) (extra : Option String)
      (r : R) {t : NewToken}
      → (create_new_token redis jwt settings now uuid user_id refresh_token multi_login extra r).0
        ≡ ok t
      → key_of settings.extra_info_prefix uuid ≢ session_key settings.redis_prefix user_id uuid
      → (redis.value r (session_key settings.refresh_prefix user_id refresh_token)
          ≡ some refresh_token)
        × (redis.value
              (create_new_token redis jwt settings now uuid user_id refresh_token multi_login extra
                r).1
              (session_key settings.redis_prefix user_id uuid)
            ≡ some t.new_access_token)
        × (t.session_uuid ≡ uuid)
  unfolding create_new_token
  create_new_token_ok now uuid user_id refresh_token multi_login extra r returned apart =
      let key = session_key settings.refresh_prefix user_id refresh_token in
      let (stored, read, returned1, s1) = bind_ok (get redis key) _ r returned in
      let r1 = (get redis key r).1 in
      let (u, checked, returned2, s2) =
        bind_ok (lift (check_refresh refresh_token stored)) _ r1 returned1 in
      let (a, created, returned3, s3) =
        bind_ok (create_access_token redis jwt settings now uuid user_id multi_login extra) _ r1
          returned2 in
      let (e, _, kept) =
        create_access_token_ok L jwt settings now uuid user_id multi_login extra r1 created in
      let session = session_key settings.redis_prefix user_id uuid in
      (
        sym (get_ok L key r read) ∙ check_refresh_ok refresh_token stored checked,
        rw (s1, s2, s3) (kept session apart ∙ rw (eq_refl session) cc),
        cc,
      )
