-- ===== src/Security/Middleware.antt =====
-- middleware/jwt_auth_middleware.py: the user of a request, or the refusal that is answered.
use git_hub_repository_resea.Base.{
  ℕ, String, not, Option, none, some, List, [], ◌∷◌, ◌==◌, one_of, truthy, if◌then◌else◌,
}
use git_hub_repository_resea.Errors.{Error, HttpError, http_error, coded_error}
use git_hub_repository_resea.Exec.{Result, ok, raise}
use git_hub_repository_resea.Json.{null, num, text, Dict}
use git_hub_repository_resea.Text.{lower}
use git_hub_repository_resea.Redis.{Server}
use git_hub_repository_resea.Security.Users.{User}
use git_hub_repository_resea.Security.Tokens.{Jwt, TokenSettings, Accounts, jwt_authentication}

-- _AuthenticationError
pub record AuthenticationError : Type 0 where
  pub code : ℕ
  pub msg : String
  pub headers : Option Dict

-- what `authenticate` returns or raises
pub data Authentication : Type 0 where
  anonymous : Authentication
  authenticated : User → Authentication
  failed : AuthenticationError → Authentication

-- `getattr(e, "code", 500)` and `getattr(e, "msg", "Internal Server Error")`
abbrev internal_error : AuthenticationError
internal_error = record { code = 500; msg = "Internal Server Error"; headers = none }

abbrev of_http_error : Option ℕ → HttpError → AuthenticationError
of_http_error none h = internal_error
of_http_error (some code) h = record { code = code; msg = h.detail; headers = some h.headers }

-- The two `except` clauses: an HTTP error with a `code` is a TokenError, and a coded error has both
-- attributes; the exceptions of other libraries are taken to have neither.
unfoldable pub authentication_error : Error → AuthenticationError
authentication_error (http_error h) = of_http_error h.code h
authentication_error (coded_error c) = record { code = c.code; msg = c.msg; headers = none }
authentication_error _ = internal_error

abbrev pub authentication_of : Result User → Authentication
authentication_of (ok user) = authenticated user
authentication_of (raise e) = failed (authentication_error e)

-- the JSON answer to a refusal: its status and its content
unfoldable pub auth_exception_handler : AuthenticationError → ℕ × Dict
auth_exception_handler exc =
    (exc.code, ("code", num exc.code) ∷ ("msg", text exc.msg) ∷ ("data", null) ∷ [])

module _ {R : Type 0} (redis : Server R String) (jwt : Jwt) (settings : TokenSettings)
    (accounts : Accounts R) (path_exclude : List String)
    (scheme_param : String → String × String) where
  unfoldable pub authenticate_token : ℕ → String × String → R → Authentication × R
  authenticate_token now (scheme, token) r =
      let (result, r') = jwt_authentication redis jwt settings accounts now token r in
      if lower scheme == "bearer" then (authentication_of result, r') else (anonymous, r)

  -- for the path and the `Authorization` header of a request
  unfoldable pub authenticate : ℕ → String → Option String → R → Authentication × R
  unfolding authenticate_token
  authenticate now path none r = (anonymous, r)
  authenticate now path (some authorization) r =
      if not (truthy authorization)
      then (anonymous, r)
      else if one_of path path_exclude
      then (anonymous, r)
      else authenticate_token now (scheme_param authorization) r
