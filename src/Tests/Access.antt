-- ===== src/Tests/Access.antt =====
-- Sessions, roles and data rules at concrete inputs.
use Prim.Native.String.{[] as nil, ◌∷◌ as ◌∷ᶜ◌}
use git_hub_repository_resea.Base.{
  ℕ, String, ◌≡◌, ◌≢◌, ◌↔◌, refl, ◌&&◌, Bool, true, false, Option, none, some, List, [], ◌∷◌, ◌==◌,
  one_of, ap, arith, ◌+◌,
}
use git_hub_repository_resea.Errors.{token_error}
use git_hub_repository_resea.Exec.{Result, ok, raise, and_then, pure, ◌>>=◌}
use git_hub_repository_resea.Text.{
  code, ◌<>◌, show, digit, all_chars, lower, lower_char, strip, lstrip, rstrip, is_space, is_digit,
}
use git_hub_repository_resea.Text.Numbers.{pos, show_int, int, signed, digits}
use git_hub_repository_resea.Text.Preserve.{none_of}
use git_hub_repository_resea.Redis.{
  set, get, delete_key, delete_prefix, delete_keys, keys_to_delete,
}
use git_hub_repository_resea.Security.Users.{User, DataRule, one}
use git_hub_repository_resea.Security.Tokens.{
  claims, Jwt, TokenPayload, AccessToken, NewToken, TokenSettings, Accounts, key_of, session_key,
  create_access_token, create_new_token, store_extra, open_session, revoke_token, jwt_decode,
  token_payload, jwt_authentication, cached_user,
}
use git_hub_repository_resea.Security.Sessions.{
  access_key, login_token, open_session-create_access_token, open_session-revoke_token,
  jwt_decode-login_token,
}
use git_hub_repository_resea.Security.SingleLogin.{is_glob, create_access_token-single_login}
use git_hub_repository_resea.Security.Renewal.{create_new_token_ok}
use git_hub_repository_resea.Security.Middleware.{authenticated, authenticate, authenticate_token}
use git_hub_repository_resea.Security.Authentication.{IsAuthenticated, authenticate-IsAuthenticated}
use git_hub_repository_resea.Security.Rbac.{Request, RbacSettings, rbac_verify}
use git_hub_repository_resea.Security.Rbac.Granted.{is_granted, rbac_verify-is_granted}
use git_hub_repository_resea.Security.Permission.{
  PermissionSettings, Filter, some_of, all_of, eq, filter_data_permission, add_rules, add_rule,
  add_condition, comparison_of, path_of, combine, distinct_from, is_known, rules_of,
}
use git_hub_repository_resea.Security.Permission.Columns.{
  IsPermittedFilter, filter_data_permission-IsPermittedFilter,
}
use git_hub_repository_resea.Tests.Tokens.{
  Slot, cache, cache-IsRedis, cache-IsScan, unary_jwt, unary_jwt-IsJwt,
}

abbrev settings : TokenSettings
settings = record {
  expire_seconds = 60;
  refresh_expire_seconds = 600;
  user_expire_seconds = 60;
  redis_prefix = "token";
  extra_info_prefix = "extra";
  refresh_prefix = "refresh";
  user_prefix = "user";
}

abbrev logged_in : Result AccessToken × List Slot
logged_in = create_access_token cache unary_jwt settings 100 "u1" (show_int (pos 7)) true none []

abbrev token_of_login : AccessToken
token_of_login = login_token cache-IsRedis unary_jwt settings 100 "u1" (show_int (pos 7))

login_returns : logged_in.0 ≡ ok token_of_login
unfolding create_access_token store_extra set ◌>>=◌
login_returns = refl

abbrev first_code : String → ℕ
first_code nil = 0
first_code (c ∷ᶜ s) = code c

other_entries : key_of "extra" "u1" ≢ access_key settings (pos 7) "u1"
unfolding ◌<>◌
other_entries e = absurd (omega (arith, ap first_code e))

open_session-create_access_token_example :
    (open_session cache unary_jwt settings 150 token_of_login.access_token logged_in.1).0
    ≡ and_then
        (cache.attempt logged_in.1).0
        (λ u. ok (record { id = pos 7; session_uuid = "u1"; expire_time = 100 + 60 }))
open_session-create_access_token_example =
    open_session-create_access_token cache-IsRedis unary_jwt settings unary_jwt-IsJwt 100 150 "u1"
      (pos 7) true none [] logged_in.1 login_returns refl other_entries refl (omega arith)

abbrev session : TokenPayload
session = record { id = pos 7; session_uuid = "u1"; expire_time = 100 + 60 }

abbrev logged_out : Result (Unit {0}) × List Slot
logged_out = revoke_token cache unary_jwt settings (show_int (pos 7)) "u1" logged_in.1

logout_returns : logged_out.0 ≡ ok tt
unfolding revoke_token delete_key ◌>>=◌
logout_returns = refl

open_session-revoke_token_example :
    (open_session cache unary_jwt settings 150 token_of_login.access_token logged_out.1).0
    ≡ and_then (cache.attempt logged_out.1).0 (λ u. raise (token_error "Token has expired" []))
open_session-revoke_token_example =
    open_session-revoke_token cache-IsRedis unary_jwt settings 150 token_of_login.access_token
      session logged_in.1 logged_out.1 logout_returns refl
      (jwt_decode-login_token cache-IsRedis unary_jwt settings unary_jwt-IsJwt 100 150 "u1" (pos 7)
        refl (omega arith))

-- the sessions of the users 1 and 10
abbrev two_sessions : List Slot
two_sessions =
    record { key = "token:1:u0"; content = some "a" }
    ∷ record { key = "token:10:u9"; content = some "b" }
    ∷ []

abbrev single : Result AccessToken × List Slot
single = create_access_token cache unary_jwt settings 100 "u1" "1" false none two_sessions

single_returns : single.0 ≡ ok (login_token cache-IsRedis unary_jwt settings 100 "u1" "1")
unfolding create_access_token store_extra set ◌>>=◌ delete_prefix delete_keys keys_to_delete ◌<>◌
single_returns = refl

plain_prefix : none_of is_glob (key_of "token" "1") ≡ true
unfolding all_chars ◌<>◌
plain_prefix = refl

other_user : session_key "token" "1" "u1" ≢ key_of "token" "1" <> "0:u9"
unfolding ◌<>◌
other_user e = cc e

other_prefix : key_of "extra" "u1" ≢ key_of "token" "1" <> "0:u9"
unfolding ◌<>◌
other_prefix e = cc e

create_access_token-single_login_example :
    cache.value single.1 (key_of "token" "1" <> "0:u9") ≡ none
create_access_token-single_login_example =
    create_access_token-single_login cache-IsRedis cache-IsScan unary_jwt settings 100 "u1" "1"
      "0:u9" none two_sessions single_returns plain_prefix other_user other_prefix

abbrev refreshed : List Slot
refreshed = record { key = "refresh:7:r"; content = some "r" } ∷ []

abbrev renewed : Result NewToken × List Slot
renewed = create_new_token cache unary_jwt settings 100 "u2" "7" "r" true none refreshed

abbrev new_token : NewToken
new_token =
    let a = login_token cache-IsRedis unary_jwt settings 100 "u2" "7" in
    record {
      new_access_token = a.access_token;
      new_access_token_expire_time = a.access_token_expire_time;
      session_uuid = "u2";
    }

renewal_returns : renewed.0 ≡ ok new_token
unfolding create_new_token create_access_token store_extra set get ◌>>=◌ ◌<>◌
renewal_returns = refl

other_entry : key_of "extra" "u2" ≢ session_key "token" "7" "u2"
unfolding ◌<>◌
other_entry e = absurd (omega (arith, ap first_code e))

create_new_token_ok_example :
    (cache.value refreshed (session_key "refresh" "7" "r") ≡ some "r")
    × (cache.value renewed.1 (session_key "token" "7" "u2") ≡ some new_token.new_access_token)
    × (new_token.session_uuid ≡ "u2")
create_new_token_ok_example =
    create_new_token_ok cache-IsRedis unary_jwt settings 100 "u2" "7" "r" true none refreshed
      renewal_returns other_entry

-- a library that knows one token
abbrev one_token : Jwt
one_token = record {
  encode = λ c. "t";
  decode = λ now token. claims (record { session_uuid = some "u1"; sub = some "7"; exp = 500 });
}

abbrev staff : User
staff = record {
  status = 1;
  is_superuser = false;
  is_staff = true;
  dept_id = none;
  dept = none;
  roles =
      record {
        status = 1;
        menus = record { perms = some "job:add,job:del"; status = 1 } ∷ [];
        rules =
            record {
              model = "job";
              column = "owner";
              operator = 0;
              expression = 0;
              value = one "psf";
            }
            ∷ [];
      }
      ∷ [];
}

abbrev accounts : Accounts (List Slot)
accounts = record {
  get_with_relation = λ id. pure none;
  detail = λ user. ok user;
  dump = λ user. "staff";
  validate = λ text. ok staff;
}

abbrev slots : List Slot
slots =
    record { key = "token:7:u1"; content = some "t" }
    ∷ record { key = "user:7"; content = some "staff" }
    ∷ []

abbrev parts_of : String → String × String
parts_of authorization = ("Bearer", "t")

is_authenticated :
    (authenticate cache one_token settings accounts
      ("/login" ∷ [])
      parts_of
      100
      "/jobs"
      (some "Bearer t")
      slots).0
    ≡ authenticated staff
unfolding authenticate authenticate_token jwt_authentication open_session jwt_decode token_payload
    int signed strip lstrip rstrip digits is_space is_digit show_int show digit ◌<>◌ get ◌>>=◌ lower
    lower_char cached_user
is_authenticated = refl

authenticate-IsAuthenticated_example :
    (authorization : String) × (◌≡◌ {A = Option String} (some "Bearer t") (some authorization))
    × (one_of "/jobs" ("/login" ∷ []) ≡ false)
    × ((lower (parts_of authorization).0 == "bearer") ≡ true)
    × IsAuthenticated cache-IsRedis one_token settings accounts 100
        (parts_of authorization).1
        slots
        staff
authenticate-IsAuthenticated_example =
    authenticate-IsAuthenticated cache-IsRedis one_token settings accounts ("/login" ∷ []) parts_of
      100 "/jobs" (some "Bearer t") slots is_authenticated

abbrev roles_mode : RbacSettings
roles_mode = record { path_exclude = []; role_menu_mode = true; role_menu_exclude = [] }

abbrev deletion : Request
deletion = record {
  path = "/jobs";
  method = "DELETE";
  scopes = "authenticated" ∷ [];
  user = staff;
  permission = some "job:del";
}

rbac_verify-is_granted_example :
    (rbac_verify roles_mode none deletion ≡ ok tt)
    ↔ ((true && is_granted "job:del" staff.roles) ≡ true)
rbac_verify-is_granted_example =
    rbac_verify-is_granted roles_mode none deletion "job:del" refl refl refl refl refl refl refl

abbrev models : PermissionSettings
models = record { models = ("job", "app.Job") ∷ []; column_exclude = "id" ∷ [] }

abbrev columns : String → Result (List String)
columns path = ok ("id" ∷ "owner" ∷ [])

abbrev never : DataRule → DataRule → Bool
never a b = false

abbrev owner_filter : Filter
owner_filter =
    some_of
      (all_of (record { model = "job"; column = "owner"; comparison = eq (one "psf") } ∷ []) ∷ [])

filtered : filter_data_permission models columns never staff ≡ ok owner_filter
unfolding filter_data_permission add_rules add_rule add_condition comparison_of path_of combine
    distinct_from is_known rules_of
filtered = refl

filter_data_permission-IsPermittedFilter_example :
    IsPermittedFilter models columns never owner_filter
filter_data_permission-IsPermittedFilter_example =
    filter_data_permission-IsPermittedFilter models columns never staff filtered
