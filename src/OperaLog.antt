-- ===== src/OperaLog.antt =====
-- middleware/opera_log_middleware.py: what is recorded of a request. The body and its JSON, the
-- ciphers, Python's `str` of a value, the client's details and the log's store are parameters; the
-- times are left out.
pub mod Masked
pub mod Recorded
use git_hub_repository_resea.Base.{
  ℕ, String, Bool, true, false, not, ◌&&◌, ◌||◌, Option, none, some, List, [], ◌∷◌, ◌==◌, one_of,
  truthy, nat_eq, if◌then◌else◌,
}
use git_hub_repository_resea.Errors.{Error, HttpError, CodedError, http_error, coded_error}
use git_hub_repository_resea.Exec.{
  Exec, Result, ok, raise, and_then, pure, throw, lift, modify, ◌>>=◌, ◌>>◌,
}
use git_hub_repository_resea.Json.{
  Json, null, num, text, obj, JsonFields, end, field, Dict, set_item, update,
}
use git_hub_repository_resea.Text.{◌<>◌, is_char, split, starts_with, show}
use git_hub_repository_resea.Handlers.{RequestState}

pub data Status : Type 0 where
  disable enable : Status

-- RequestCallNext: what came of a request
pub record CallNext (Reply : Type 0) : Type 0 where
  pub code : String
  pub msg : Json
  pub status : Status
  pub result : Result Reply

abbrev pub exception_states : List String
exception_states =
    "__request_http_exception__" ∷ "__request_validation_exception__"
    ∷ "__request_assertion_error__" ∷ "__request_custom_exception__"
    ∷ "__request_all_unknown_exception__" ∷ "__request_cors_500_exception__" ∷ []

-- getattr(request.state, state, None)
unfoldable pub content_in : String → RequestState → Dict
content_in name [] = []
content_in name ((n, content) ∷ rest) = if n == name then content else content_in name rest

-- content.get(key)
unfoldable pub entry : String → Dict → Json
entry k [] = null
entry k ((j, v) ∷ d) = if j == k then v else entry k d

abbrev pub is_left : Dict → Bool
is_left [] = false
is_left (e ∷ d) = true

-- the first content that a handler has left, or the code and the message that are given
unfoldable pub find_exception : List String → RequestState → Json × Json → Json × Json
unfolding content_in entry
find_exception [] state given = given
find_exception (name ∷ names) state given =
    let content = content_in name state in
    let later = find_exception names state given in
    if is_left content then (entry "code" content, entry "msg" content) else later

unfoldable pub request_exception_handler : RequestState → Json × Json → Json × Json
unfolding find_exception
request_exception_handler state given = find_exception exception_states state given

-- getattr(e, "code", code) and getattr(e, "msg", msg); the exceptions of other libraries are taken to
-- have neither, as in the authentication middleware
abbrev code_or : Option ℕ → Json → Json
code_or none code = code
code_or (some c) code = num c

abbrev pub error_attributes : Error → Json × Json → Json × Json
error_attributes (http_error h) (code, msg) = (code_or h.code code, msg)
error_attributes (coded_error c) given = (num c.code, text c.msg)
error_attributes _ given = given

abbrev pub successful : Json × Json
successful = (num 200, text "Success")

-- the arguments of a request
pub record Body : Type 0 where
  pub text : String
  pub form : Dict
  pub content_type : String
  pub json : Result Json

abbrev dict_of : JsonFields → Dict
dict_of end = []
dict_of (field k v rest) = (k, v) ∷ dict_of rest

abbrev add_json : String → Dict → Json → Dict
unfolding update
add_json raw args (obj fields) = update args (dict_of fields)
add_json raw args _ = update args (("body", text raw) ∷ [])

unfoldable pub get_request_args : Dict → Dict → Body → Result Dict
unfolding update split add_json
get_request_args query_params path_params body =
    let args = update query_params path_params in
    if is_left body.form
    then ok (update args body.form)
    else if truthy body.text
    then (if one_of "application/json" (split (is_char b';') body.content_type)
        then and_then body.json (λ v. ok (add_json body.text args v))
        else ok (update args (("body", text body.text) ∷ [])))
    else ok args

-- OperaLogCipherType, and any other number
pub data Cipher : Type 0 where
  aes md5 itsdangerous plan unknown : Cipher

pub record Ciphers : Type 0 where
  pub aes_hex : Json → Result Json
  pub md5_hex : Json → Result Json
  pub signed : Json → Result Json

unfoldable pub encrypted : Ciphers → Cipher → Json → Result Json
encrypted ciphers aes v = ciphers.aes_hex v
encrypted ciphers md5 v = ciphers.md5_hex v
encrypted ciphers itsdangerous v = ciphers.signed v
encrypted ciphers plan v = ok v
encrypted ciphers unknown v = ok (text "******")

-- the loop over the arguments
unfoldable pub desensitize : Ciphers → Cipher → List String → Dict → Result Dict
unfolding encrypted
desensitize ciphers cipher keys [] = ok []
desensitize ciphers cipher keys ((k, v) ∷ args) =
    and_then (if one_of k keys then encrypted ciphers cipher v else ok v)
      (λ w. and_then (desensitize ciphers cipher keys args) (λ rest. ok ((k, w) ∷ rest)))

abbrev some_args : Dict → Result Dict → Result (Option Dict)
some_args [] r = ok none
some_args (a ∷ args) r = and_then r (λ d. ok (some d))

unfoldable pub desensitization : Ciphers → Cipher → List String → Dict → Result (Option Dict)
unfolding desensitize
desensitization ciphers cipher keys args = some_args args (desensitize ciphers cipher keys args)

-- CreateOperaLogParam, but for the client's details and the times
pub record OperaLogEntry : Type 0 where
  pub username : Option String
  pub method : String
  pub title : String
  pub path : String
  pub args : Option Dict
  pub status : Status
  pub code : String
  pub msg : Json

pub record OperaRequest : Type 0 where
  pub path : String
  pub username : Option String
  pub method : String
  pub summary : String
  pub query_params : Dict
  pub path_params : Dict
  pub body : Body

-- The OPERA_LOG settings, which core/conf.py does not declare, so that the code as it stands raises an
-- AttributeError where it reads one, and the path of the API, which it does declare.
pub record OperaSettings : Type 0 where
  pub path_exclude : List String
  pub api_path : String
  pub cipher : Cipher
  pub encrypt_keys : List String

abbrev pub is_recorded : OperaSettings → OperaRequest → Bool
unfolding starts_with
is_recorded settings request =
    not (one_of request.path settings.path_exclude) && starts_with request.path settings.api_path

module _ {W Reply : Type 0} (state_of : W → RequestState) (str_of : Json → String) where
  abbrev pub call_result : Result Reply → RequestState → CallNext Reply
  unfolding request_exception_handler
  call_result (ok reply) state =
      let (code, msg) = request_exception_handler state successful in
      record { code = str_of code; msg = msg; status = enable; result = ok reply }
  call_result (raise e) state =
      let (code, msg) = error_attributes e successful in
      record { code = str_of code; msg = msg; status = disable; result = raise e }

  unfoldable pub execute_request : Exec W Reply → W → CallNext Reply × W
  unfolding call_result
  execute_request call_next w = let (r, w') = call_next w in (call_result r (state_of w'), w')

  module _ (settings : OperaSettings) (ciphers : Ciphers) (client : Exec W Unit)
      (create : OperaLogEntry → W → W) where
    -- `create_task` of the log's creation, and what the application returned or raised
    unfoldable pub finish_request : OperaRequest → Option Dict → CallNext Reply → Exec W Reply
    finish_request request args next = do
      client
      modify (
          create (record {
            username = request.username;
            method = request.method;
            title = request.summary;
            path = request.path;
            args = args;
            status = next.status;
            code = next.code;
            msg = next.msg;
          }))
      lift next.result

    unfoldable pub dispatch : OperaRequest → Exec W Reply → Exec W Reply
    unfolding execute_request finish_request get_request_args desensitization is_recorded
    dispatch request call_next =
        if is_recorded settings request
        then (do
          args ← lift (get_request_args request.query_params request.path_params request.body)
          hidden ← lift (desensitization ciphers settings.cipher settings.encrypt_keys args)
          next ← λ w. (let (n, w') = execute_request call_next w in (ok n, w'))
          finish_request request hidden next)
        else call_next
