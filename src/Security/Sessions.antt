-- ===== src/Security/Sessions.antt =====
-- The life of a session: creation, authentication, renewal and the end.
use git_hub_repository_resea.Base.{
  ℕ, ◌+◌, ◌≤◌, String, ◌≡◌, ◌≢◌, refl, ◌∙◌, Bool, true, not, Option, [], none, some, ◌==◌, truthy,
  or_text, leb, eq_iff, eq_refl, arith, if◌then◌else◌,
}
use git_hub_repository_resea.Errors.{token_error}
use git_hub_repository_resea.Exec.{Exec, Result, ok, raise, and_then, when, lift, ◌>>=◌, continue}
use git_hub_repository_resea.Exec.Hoare.{bind_ok}
use git_hub_repository_resea.Redis.{Server, IsRedis, get, delete_prefix, nothing}
use git_hub_repository_resea.Redis.Commands.{value-set, value-delete_key}
use git_hub_repository_resea.Text.Numbers.{ℤ, show_int, int-show_int, show_int-ne-empty}
use git_hub_repository_resea.Security.Tokens.{
  Claims, claims, expired, Jwt, TokenPayload, AccessToken, TokenSettings, key_of, session_key,
  token_payload, jwt_decode, check_stored, store_extra, create_access_token, open_session,
  revoke_token, setex,
}

-- The token library gives back the claims of its own tokens until they expire, and no token is empty.
pub record IsJwt (jwt : Jwt) : Type 0 where
  pub decode-encode :
      (c : Claims) (now : ℕ)
      → jwt.decode now (jwt.encode c) ≡ (if leb now c.exp then claims c else expired)
  pub truthy-encode : (c : Claims) → truthy (jwt.encode c) ≡ true

check_stored-same : (token : String) → truthy token ≡ true → check_stored token (some token) ≡ ok tt
check_stored-same token h = ground (arith, eq_refl token)

or_text-truthy : (s : String) → truthy s ≡ true → or_text (some s) "debug" ≡ s
or_text-truthy s h = ground arith

leb-le : (a b : ℕ) → a ≤ b → leb a b ≡ true
leb-le a b h = ground arith

truthy-show_int : (id : ℤ) → truthy (show_int id) ≡ true
truthy-show_int id = ground (arith, eq_iff (show_int id) "", show_int-ne-empty id)

module _ (settings : TokenSettings) where
  abbrev pub access_key : ℤ → String → String
  access_key id uuid = session_key settings.redis_prefix (show_int id) uuid

  abbrev pub payload_key : TokenPayload → String
  payload_key p = access_key p.id p.session_uuid

module _ {R : Type 0} {redis : Server R String} (L : IsRedis redis) (jwt : Jwt)
    (settings : TokenSettings) where
  value-store_extra :
      (uuid k : String) (extra : Option String) (r : R)
      → (store_extra redis jwt settings uuid extra r).0 ≡ ok tt
      → key_of settings.extra_info_prefix uuid ≢ k
      → redis.value (store_extra redis jwt settings uuid extra r).1 k ≡ redis.value r k
  unfolding store_extra
  value-store_extra uuid k none r returned other = refl
  value-store_extra uuid k (some info) r returned other =
      let key = key_of settings.extra_info_prefix uuid in
      ground (arith, eq_iff key k, value-set L key info (some settings.expire_seconds) r k returned)

  abbrev pub login_token : ℕ → String → String → AccessToken
  login_token now uuid user_id = record {
    access_token = jwt.encode (record {
      session_uuid = some uuid;
      sub = some user_id;
      exp = now + settings.expire_seconds;
    });
    access_token_expire_time = now + settings.expire_seconds;
    session_uuid = uuid;
  }

  -- the first statement of a login
  abbrev pub log_out_others : String → Bool → Exec R Unit
  log_out_others user_id multi_login =
      when (not multi_login) (delete_prefix redis (key_of settings.redis_prefix user_id) nothing)

  -- A login that returns has made the token of its arguments and stored it last but for the extra
  -- information.
  pub create_access_token_ok :
      (now : ℕ) (uuid user_id : String) (multi_login : Bool) (extra : Option String) (r : R)
      {a : AccessToken}
      → (create_access_token redis jwt settings now uuid user_id multi_login extra r).0 ≡ ok a
      → (a ≡ login_token now uuid user_id)
        × ((log_out_others user_id multi_login r).0 ≡ ok tt)
        × ((k : String)
            → key_of settings.extra_info_prefix uuid ≢ k
            → redis.value
                (create_access_token redis jwt settings now uuid user_id multi_login extra r).1
                k
              ≡ (if session_key settings.redis_prefix user_id uuid == k
                  then some a.access_token
                  else redis.value (log_out_others user_id multi_login r).1 k))
  unfolding create_access_token
  create_access_token_ok now uuid user_id multi_login extra r returned =
      let token = (login_token now uuid user_id).access_token in
      let key = session_key settings.redis_prefix user_id uuid in
      let (u1, e1, returned1, s1) = bind_ok (log_out_others user_id multi_login) _ r returned in
      let r1 = (log_out_others user_id multi_login r).1 in
      let (u2, e2, returned2, s2) =
        bind_ok (setex redis jwt settings key settings.expire_seconds token) _ r1 returned1 in
      let r2 = (setex redis jwt settings key settings.expire_seconds token r1).1 in
      let (u3, e3, returned3, s3) =
        bind_ok (store_extra redis jwt settings uuid extra) _ r2 returned2 in
      (
        cc,
        e1,
        λ k other.
            rw (s1, s2, s3)
              (value-store_extra uuid k extra r2 e3 other
                ∙ value-set L key token (some settings.expire_seconds) r1 k e2
                ∙ cc),
      )

  pub open_session_lem :
      (now : ℕ) (token : String) (r : R)
      → (open_session redis jwt settings now token r).0
        ≡ and_then (jwt_decode jwt now token) (λ p.
          and_then (redis.attempt r).0 (λ u.
            and_then (check_stored token (redis.value r (payload_key settings p))) (λ v. ok p)))
  unfolding open_session ◌>>=◌ get
  open_session_lem now token r = step (jwt_decode jwt now token)
    where
      step :
          (d : Result TokenPayload)
          → (continue d
              (λ p. get redis (payload_key settings p) >>= λ stored.
                lift (check_stored token stored) >>= λ v s. (ok p, s))
              r).0
            ≡ and_then d (λ p. and_then (redis.attempt r).0 (λ u.
              and_then (check_stored token (redis.value r (payload_key settings p))) (λ v. ok p)))
      step (raise e) = refl
      step (ok p) = ground (arith, L.value-attempt r (payload_key settings p))

  -- Once a session is revoked, and as long as nothing writes its entry again, no token opens it: a
  -- token that decodes to the user and the session raises "Token has expired", or what the round trip
  -- to Redis raises.
  pub open_session-revoke_token :
      (now : ℕ) (token : String) (p : TokenPayload) (r after : R)
      → (revoke_token redis jwt settings (show_int p.id) p.session_uuid r).0 ≡ ok tt
      → redis.value after (payload_key settings p)
        ≡ redis.value
            (revoke_token redis jwt settings (show_int p.id) p.session_uuid r).1
            (payload_key settings p)
      → jwt_decode jwt now token ≡ ok p
      → (open_session redis jwt settings now token after).0
        ≡ and_then (redis.attempt after).0 (λ u. raise (token_error "Token has expired" []))
  unfolding revoke_token
  open_session-revoke_token now token p r after returned kept decoded =
      let gone : redis.value after (payload_key settings p) ≡ none =
        kept
        ∙ value-delete_key L (payload_key settings p) r (payload_key settings p) returned
        ∙ rw (eq_refl (payload_key settings p)) refl in
      rw (open_session_lem now token after, decoded, gone) refl

  module _ (J : IsJwt jwt) where
    pub jwt_decode-login_token :
        (now later : ℕ) (uuid : String) (id : ℤ)
        → truthy uuid ≡ true
        → later ≤ now + settings.expire_seconds
        → jwt_decode jwt later (login_token now uuid (show_int id)).access_token
          ≡ ok
              (record { id = id; session_uuid = uuid; expire_time = now + settings.expire_seconds })
    unfolding jwt_decode token_payload
    jwt_decode-login_token now later uuid id named in_time =
        let c : Claims = record {
          session_uuid = some uuid;
          sub = some (show_int id);
          exp = now + settings.expire_seconds;
        } in
        rw
          (J.decode-encode c later, leb-le later c.exp in_time, truthy-show_int id, int-show_int id)
          (rw (or_text-truthy uuid named) refl)

    -- After a login that returned, as long as its entry in Redis is what the login has written and the
    -- moment is not past the expiry, the login's token opens its session, with the user's id and the
    -- session's uuid; only the round trip to Redis may raise. The uuid is not empty, and the entry of
    -- the extra information is another one than the session's.
    pub open_session-create_access_token :
        (now later : ℕ) (uuid : String) (id : ℤ) (multi_login : Bool) (extra : Option String)
        (r after : R) {a : AccessToken}
        → (create_access_token redis jwt settings now uuid (show_int id) multi_login extra r).0
          ≡ ok a
        → truthy uuid ≡ true
        → key_of settings.extra_info_prefix uuid ≢ access_key settings id uuid
        → redis.value after (access_key settings id uuid)
          ≡ redis.value
              (create_access_token redis jwt settings now uuid (show_int id) multi_login extra r).1
              (access_key settings id uuid)
        → later ≤ now + settings.expire_seconds
        → (open_session redis jwt settings later a.access_token after).0
          ≡ and_then (redis.attempt after).0 (λ u.
            ok (record {
              id = id;
              session_uuid = uuid;
              expire_time = now + settings.expire_seconds;
            }))
    open_session-create_access_token now later uuid id multi_login extra r after returned named
          apart kept in_time =
        let (e, _, stored) =
          create_access_token_ok now uuid (show_int id) multi_login extra r returned in
        let token = (login_token now uuid (show_int id)).access_token in
        let found : redis.value after (access_key settings id uuid) ≡ some token =
          kept
          ∙ stored (access_key settings id uuid) apart
          ∙ rw (e, eq_refl (access_key settings id uuid)) refl in
        rw
          (
            e,
            open_session_lem later token after,
            jwt_decode-login_token now later uuid id named in_time,
            found,
            check_stored-same token (J.truthy-encode _),
          )
          refl
