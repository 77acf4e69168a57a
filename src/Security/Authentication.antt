-- ===== src/Security/Authentication.antt =====
-- What a request has passed when it has a user.
use git_hub_repository_resea.Base.{
  ℕ, String, ◌≡◌, ◌⊎◌, inl, inr, refl, sym, subst, ◌∙◌, true, false, Option, none, some, List, ◌==◌,
  one_of, truthy, Bool-cases, arith, eq_iff,
}
use git_hub_repository_resea.Exec.{Result, ok, raise, lift, ◌>>=◌}
use git_hub_repository_resea.Exec.Hoare.{bind_ok, Result-cases, and_then_ok}
use git_hub_repository_resea.Text.{lower}
use git_hub_repository_resea.Redis.{Server, IsRedis, get}
use git_hub_repository_resea.Redis.Commands.{get_ok}
use git_hub_repository_resea.Text.Numbers.{ℤ, show_int}
use git_hub_repository_resea.Security.Users.{User, current_user}
use git_hub_repository_resea.Security.Tokens.{
  Jwt, TokenPayload, TokenSettings, Accounts, key_of, jwt_decode, check_stored, open_session,
  load_user, cached_user, jwt_authentication, setex,
}
use git_hub_repository_resea.Security.Sessions.{payload_key, open_session_lem}
use git_hub_repository_resea.Security.Middleware.{
  authenticated, authenticate, authenticate_token, authentication_of,
}

module _ {R : Type 0} {redis : Server R String} (L : IsRedis redis) (jwt : Jwt)
    (settings : TokenSettings) (accounts : Accounts R) where
  -- The tables are asked for the id, while Redis holds what it held.
  abbrev IsLoaded : ℤ → R → User → Type 0
  IsLoaded id r user =
      (s : R) × (found : Option User) × (current : User) × ((k : String)
        → redis.value s k ≡ redis.value r k)
      × ((accounts.get_with_relation id s).0 ≡ ok found)
      × (current_user found ≡ ok current)
      × (accounts.detail current ≡ ok user)

  -- The user comes from the cache, or is the detail of the one that the tables have for the id, not locked.
  abbrev IsUserOf : ℤ → R → User → Type 0
  IsUserOf id r user =
      ((text : String) × (redis.value r (key_of settings.user_prefix (show_int id)) ≡ some text)
        × (accounts.validate text ≡ ok user))
      ⊎ IsLoaded id r user

  load_user_ok :
      (id : ℤ) (r : R) {user : User}
      → (load_user redis jwt settings accounts id r).0 ≡ ok user
      → IsLoaded id r user
  unfolding load_user
  load_user_ok id r returned =
      let (found, queried, returned1, s1) = bind_ok (accounts.get_with_relation id) _ r returned in
      let r1 = (accounts.get_with_relation id r).1 in
      let (current, checked, returned2, s2) = bind_ok (lift (current_user found)) _ r1 returned1 in
      let (user', valid, returned3, s3) = bind_ok (lift (accounts.detail current)) _ r1 returned2 in
      let key = key_of settings.user_prefix (show_int id) in
      let (u, stored, returned4, s4) =
        bind_ok (setex redis jwt settings key settings.user_expire_seconds (accounts.dump user')) _
          r1 returned3 in
      (r, found, current, λ k. refl, queried, checked, cc)

  IsLoaded-before :
      (id : ℤ) (before r : R)
      → ((k : String) → redis.value r k ≡ redis.value before k)
      → {user : User} → IsLoaded id r user
      → IsLoaded id before user
  IsLoaded-before id before r same (s, found, current, kept, queried, checked, valid) =
      (s, found, current, λ k. kept k ∙ same k, queried, checked, valid)

  value-get :
      (key : String) (r : R) (k : String) → redis.value (get redis key r).1 k ≡ redis.value r k
  unfolding get ◌>>=◌
  value-get key r k = ground (arith, L.value-attempt r k)

  cached_user_ok :
      (id : ℤ) (cached : Option String) (before r : R) {user : User}
      → (cached_user redis jwt settings accounts id cached r).0 ≡ ok user
      → ((k : String) → redis.value r k ≡ redis.value before k)
      → redis.value before (key_of settings.user_prefix (show_int id)) ≡ cached
      → IsUserOf id before user
  unfolding cached_user
  cached_user_ok id none before r returned same e =
      inr (IsLoaded-before id before r same (load_user_ok id r returned))
  cached_user_ok id (some text) before r returned same e = elim (Bool-cases (truthy text)) [
    | inl full ↦ inl (text, e, cc (full, returned))
    | inr blank ↦ inr (IsLoaded-before id before r same (load_user_ok id r (cc (blank, returned))))
  ]

  check_stored_ok :
      (token : String) (stored : Option String)
      → check_stored token stored ≡ ok tt
      → stored ≡ some token
  check_stored_ok token none h = cc h
  check_stored_ok token (some s) h = ground (arith, eq_iff token s)

  value-open_session :
      (now : ℕ) (token : String) (r : R) (k : String)
      → redis.value (open_session redis jwt settings now token r).1 k ≡ redis.value r k
  unfolding open_session ◌>>=◌ get
  value-open_session now token r k = elim (Result-cases (jwt_decode jwt now token)) [
    | inl (p, e) ↦ rw e (ground (arith, L.value-attempt r k))
    | inr (x, e) ↦ rw e refl
  ]

  open_session_ok :
      (now : ℕ) (token : String) (r : R) {q : TokenPayload}
      → (open_session redis jwt settings now token r).0 ≡ ok q
      → (jwt_decode jwt now token ≡ ok q) × (redis.value r (payload_key settings q) ≡ some token)
  open_session_ok now token r {q} returned =
      let e = sym (open_session_lem L jwt settings now token r) ∙ returned in
      let (p, decoded, e1) = and_then_ok (jwt_decode jwt now token) _ e in
      let (u, answered, e2) = and_then_ok (redis.attempt r).0 _ e1 in
      let (v, checked, e3) =
        and_then_ok (check_stored token (redis.value r (payload_key settings p))) _ e2 in
      let stored = check_stored_ok token (redis.value r (payload_key settings p)) checked in
      let same : p ≡ q = cc e3 in
      subst
        (λ q.
          (jwt_decode jwt now token ≡ ok q) × (redis.value r (payload_key settings q) ≡ some token))
        same (decoded, stored)

  -- An authentication that returns a user has decoded the token, has found the token itself stored
  -- for the session that it names, and has the user from the cache, or as the detail of one from
  -- the tables that is not locked.
  jwt_authentication_ok :
      (now : ℕ) (token : String) (r : R) {user : User}
      → (jwt_authentication redis jwt settings accounts now token r).0 ≡ ok user
      → (p : TokenPayload) × (jwt_decode jwt now token ≡ ok p)
        × (redis.value r (payload_key settings p) ≡ some token)
        × IsUserOf p.id r user
  unfolding jwt_authentication
  jwt_authentication_ok now token r returned =
      let (p, opened, returned1, s1) =
        bind_ok (open_session redis jwt settings now token) _ r returned in
      let r1 = (open_session redis jwt settings now token r).1 in
      let key = key_of settings.user_prefix (show_int p.id) in
      let (cached, read, returned2, s2) = bind_ok (get redis key) _ r1 returned1 in
      let (decoded, stored) = open_session_ok now token r opened in
      (
        p,
        decoded,
        stored,
        cached_user_ok p.id cached r _ returned2
            (λ k. value-get key r1 k ∙ value-open_session now token r k)
            (sym (value-open_session now token r key) ∙ sym (get_ok L key r1 read)),
      )

  -- What makes a user the one behind a bearer token.
  abbrev pub IsAuthenticated : ℕ → String → R → User → Type 0
  IsAuthenticated now token r user =
      (p : TokenPayload) × (jwt_decode jwt now token ≡ ok p)
      × (redis.value r (payload_key settings p) ≡ some token)
      × IsUserOf p.id r user

  module _ (path_exclude : List String) (scheme_param : String → String × String) where
    authenticate_token_ok :
        (now : ℕ) (parts : String × String) (r : R) {user : User}
        → (authenticate_token redis jwt settings accounts path_exclude scheme_param now parts r).0
          ≡ authenticated user
        → ((lower parts.0 == "bearer") ≡ true) × IsAuthenticated now parts.1 r user
    unfolding authenticate_token
    authenticate_token_ok now (scheme, token) r returned =
        elim (Bool-cases (lower scheme == "bearer")) [
          | inl bearer ↦ (
            bearer,
            jwt_authentication_ok now token r (authenticated_ok _ (cc (bearer, returned))),
          )
          | inr other ↦ absurd (cc (other, returned))
        ]
      where
        authenticated_ok :
            (result : Result User) {user : User}
            → authentication_of result ≡ authenticated user
            → result ≡ ok user
        authenticated_ok (ok u) h = cc h
        authenticated_ok (raise e) h = cc h

    -- When the middleware finds a user for a request, the path is not on the white list, and the
    -- `Authorization` header is a bearer token that decodes at that moment and is itself stored for
    -- the session that it names; the user comes from the cache entry of the token's id, or is the
    -- detail of the user, not locked, that the query of the tables for that id has answered.
    pub authenticate-IsAuthenticated :
        (now : ℕ) (path : String) (header : Option String) (r : R) {user : User}
        → (authenticate redis jwt settings accounts path_exclude scheme_param now path header r).0
          ≡ authenticated user
        → (authorization : String) × (header ≡ some authorization)
          × (one_of path path_exclude ≡ false)
          × ((lower (scheme_param authorization).0 == "bearer") ≡ true)
          × IsAuthenticated now (scheme_param authorization).1 r user
    unfolding authenticate
    authenticate-IsAuthenticated now path none r returned = cc returned
    authenticate-IsAuthenticated now path (some authorization) r returned =
        elim (Bool-cases (truthy authorization)) [
          | inr blank ↦ absurd (cc (blank, returned))
          | inl full ↦ elim (Bool-cases (one_of path path_exclude)) [
            | inl listed ↦ absurd (cc (full, listed, returned))
            | inr unlisted ↦
                let (bearer, holds) =
                  authenticate_token_ok now (scheme_param authorization) r
                    (cc (full, unlisted, returned)) in
                (authorization, refl, unlisted, bearer, holds)
          ]
        ]
