-- ===== src/Security/Tokens.antt =====
-- common/security/jwt.py and the token classes of common/dataclasses.py. The moment and the uuid that
-- a call reads are arguments; the claims are the ones that the program reads back.
use git_hub_repository_resea.Base.{
  ℕ, ◌+◌, String, Bool, not, ◌||◌, Option, none, some, [], ◌==◌, truthy, or_text, if◌then◌else◌,
}
use git_hub_repository_resea.Errors.{other, token_error}
use git_hub_repository_resea.Exec.{Exec, Result, ok, raise, pure, lift, when, ◌>>=◌, ◌>>◌}
use git_hub_repository_resea.Text.{◌<>◌, lower}
use git_hub_repository_resea.Text.Numbers.{ℤ, int, show_int}
use git_hub_repository_resea.Redis.{Server, nothing, set, get, delete_key, delete_prefix}
use git_hub_repository_resea.Security.Users.{User, current_user}

pub record Claims : Type 0 where
  pub session_uuid : Option String
  pub sub : Option String
  pub exp : ℕ

-- what `jwt.decode` does with a token
pub data Decoded : Type 0 where
  claims : Claims → Decoded
  expired : Decoded
  refused : Decoded

-- The library signs claims, and decodes a token at a moment.
pub record Jwt : Type 0 where
  pub encode : Claims → String
  pub decode : ℕ → String → Decoded

pub record TokenPayload : Type 0 where
  pub id : ℤ
  pub session_uuid : String
  pub expire_time : ℕ

pub record AccessToken : Type 0 where
  pub access_token : String
  pub access_token_expire_time : ℕ
  pub session_uuid : String

pub record RefreshToken : Type 0 where
  pub refresh_token : String
  pub refresh_token_expire_time : ℕ

pub record NewToken : Type 0 where
  pub new_access_token : String
  pub new_access_token_expire_time : ℕ
  pub session_uuid : String

-- the settings that common/security/jwt.py reads
pub record TokenSettings : Type 0 where
  pub expire_seconds : ℕ
  pub refresh_expire_seconds : ℕ
  pub user_expire_seconds : ℕ
  pub redis_prefix : String
  pub extra_info_prefix : String
  pub refresh_prefix : String
  pub user_prefix : String

-- `int(user_id)`, which is outside the `try`
abbrev payload_of : String → String → ℕ → Option ℤ → Result TokenPayload
payload_of sub session_uuid exp none =
    raise (other ("invalid literal for int() with base 10: '" <> sub <> "'"))
payload_of sub session_uuid exp (some id) =
    ok (record { id = id; session_uuid = session_uuid; expire_time = exp })

abbrev payload_for : Option String → ℕ → Option String → Result TokenPayload
payload_for session_uuid exp none = raise (token_error "Invalid token" [])
payload_for session_uuid exp (some sub) =
    if truthy sub
    then payload_of sub (or_text session_uuid "debug") exp (int sub)
    else raise (token_error "Invalid token" [])

unfoldable pub token_payload : Decoded → Result TokenPayload
token_payload (claims c) = payload_for c.session_uuid c.exp c.sub
token_payload expired = raise (token_error "Token has expired" [])
token_payload refused = raise (token_error "Invalid token" [])

unfoldable pub jwt_decode : Jwt → ℕ → String → Result TokenPayload
jwt_decode jwt now token = token_payload (jwt.decode now token)

-- `prefix:a` and `prefix:a:b`
abbrev pub key_of : String → String → String
key_of prefix a = prefix <> ":" <> a

abbrev pub session_key : String → String → String → String
session_key prefix a b = prefix <> ":" <> a <> ":" <> b

-- fastapi.security.utils.get_authorization_scheme_param is a parameter: the scheme and the rest.
unfoldable pub get_token : (String → String × String) → Option String → Result String
get_token scheme_param none = raise (token_error "Invalid token" [])
get_token scheme_param (some authorization) =
    let (scheme, token) = scheme_param authorization in
    if not (truthy authorization) || not (lower scheme == "bearer")
    then raise (token_error "Invalid token" [])
    else ok token

-- `if not redis_token: …` and `if token != redis_token: …`
abbrev pub check_stored : String → Option String → Result (Unit {0})
check_stored token none = raise (token_error "Token has expired" [])
check_stored token (some stored) =
    if not (truthy stored)
    then raise (token_error "Token has expired" [])
    else if token == stored
    then ok tt
    else raise (token_error "Token is invalid" [])

abbrev pub check_refresh : String → Option String → Result (Unit {0})
check_refresh refresh_token none =
    raise (token_error "Refresh Token has expired, please login again" [])
check_refresh refresh_token (some stored) =
    if not (truthy stored) || not (stored == refresh_token)
    then raise (token_error "Refresh Token has expired, please login again" [])
    else ok tt

-- What the program needs to know of users: the query of `user_dao`, the detail that the schema makes
-- of a user or refuses, and its JSON text, which the library writes and reads.
pub record Accounts (R : Type 0) : Type 0 where
  pub get_with_relation : ℤ → Exec R (Option User)
  pub detail : User → Result User
  pub dump : User → String
  pub validate : String → Result User

module _ {R : Type 0} (redis : Server R String) (jwt : Jwt) (settings : TokenSettings) where
  abbrev pub setex : String → ℕ → String → Exec R Unit
  setex key seconds v = set redis key v (some seconds)

  -- The extra information is the JSON text of `kwargs`, when there are any.
  unfoldable pub store_extra : String → Option String → Exec R Unit
  store_extra session_uuid none = pure tt
  store_extra session_uuid (some info) =
      setex (key_of settings.extra_info_prefix session_uuid) settings.expire_seconds info

  unfoldable pub create_access_token :
      ℕ → String → String → Bool → Option String → Exec R AccessToken
  create_access_token now session_uuid user_id multi_login extra = do
    let expire = now + settings.expire_seconds
    let access_token =
        jwt.encode (record { session_uuid = some session_uuid; sub = some user_id; exp = expire })
    when (not multi_login) (delete_prefix redis (key_of settings.redis_prefix user_id) nothing)
    setex (session_key settings.redis_prefix user_id session_uuid) settings.expire_seconds
        access_token
    store_extra session_uuid extra
    pure (record {
      access_token = access_token;
      access_token_expire_time = expire;
      session_uuid = session_uuid;
    })

  unfoldable pub create_refresh_token : ℕ → String → Bool → Exec R RefreshToken
  create_refresh_token now user_id multi_login = do
    let expire = now + settings.refresh_expire_seconds
    let refresh_token =
        jwt.encode (record { session_uuid = none; sub = some user_id; exp = expire })
    when (not multi_login) (delete_prefix redis (key_of settings.refresh_prefix user_id) nothing)
    setex (session_key settings.refresh_prefix user_id refresh_token)
        settings.refresh_expire_seconds refresh_token
    pure (record { refresh_token = refresh_token; refresh_token_expire_time = expire })

  unfoldable pub create_new_token :
      ℕ → String → String → String → Bool → Option String → Exec R NewToken
  create_new_token now session_uuid user_id refresh_token multi_login extra = do
    redis_refresh_token ← get redis (session_key settings.refresh_prefix user_id refresh_token)
    lift (check_refresh refresh_token redis_refresh_token)
    new_access_token ← create_access_token now session_uuid user_id multi_login extra
    pure (record {
      new_access_token = new_access_token.access_token;
      new_access_token_expire_time = new_access_token.access_token_expire_time;
      session_uuid = new_access_token.session_uuid;
    })

  unfoldable pub revoke_token : String → String → Exec R Unit
  revoke_token user_id session_uuid =
      delete_key redis (session_key settings.redis_prefix user_id session_uuid)

  -- the first part of `jwt_authentication`: the session of a token, which must be the stored one
  unfoldable pub open_session : ℕ → String → Exec R TokenPayload
  open_session now token = do
    token_payload ← lift (jwt_decode jwt now token)
    let user_id = show_int token_payload.id
    redis_token ← get redis (session_key settings.redis_prefix user_id token_payload.session_uuid)
    lift (check_stored token redis_token)
    pure token_payload

  module _ (accounts : Accounts R) where
    unfoldable pub load_user : ℤ → Exec R User
    load_user id = do
      found ← accounts.get_with_relation id
      current ← lift (current_user found)
      user ← lift (accounts.detail current)
      setex (key_of settings.user_prefix (show_int id)) settings.user_expire_seconds
          (accounts.dump user)
      pure user

    -- `if not cache_user: …`
    unfoldable pub cached_user : ℤ → Option String → Exec R User
    cached_user id none = load_user id
    cached_user id (some cache_user) =
        if truthy cache_user then lift (accounts.validate cache_user) else load_user id

    unfoldable pub jwt_authentication : ℕ → String → Exec R User
    jwt_authentication now token = do
      token_payload ← open_session now token
      cache_user ← get redis (key_of settings.user_prefix (show_int token_payload.id))
      cached_user token_payload.id cache_user
