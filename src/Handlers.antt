-- ===== src/Handlers.antt =====
-- common/exception/exception_handler.py and common/response/: the answers to exceptions that no
-- endpoint catches. The phrases of the status codes and Python's `str` of a value are parameters.
pub mod Validation
use git_hub_repository_resea.Base.{
  ℕ, String, Bool, true, false, not, ◌&&◌, Option, none, some, List, [], ◌∷◌, ◌++◌, map, ◌==◌,
  truthy, if◌then◌else◌,
}
use git_hub_repository_resea.Errors.{Error, HttpError, CodedError, other, str}
use git_hub_repository_resea.Exec.{
  Exec, Result, ok, raise, and_then, pure, lift, modify, ◌>>=◌, ◌>>◌,
}
use git_hub_repository_resea.Json.{Json, null, num, text, obj, end, field, Dict}
use git_hub_repository_resea.Text.{◌<>◌, is_char, replace_char}
use git_hub_repository_resea.Format.{format}
use git_hub_repository_resea.Github.Decode.{truth}
use git_hub_repository_resea.Messages.{validation_messages, usage_messages}

-- CustomResponseCode: an integer and its phrase
pub record CustomResponse : Type 0 where
  pub code : ℕ
  pub message : String

abbrev pub http_500 : CustomResponse
http_500 = record { code = 500; message = "Internal Server Error" }

-- ResponseModel
pub record ResponseModel : Type 0 where
  pub code : ℕ
  pub message : String
  pub data_value : Json

-- the code in a detail that is a sequence, and the detail of an HTTP exception; a sequence of any
-- other length than two cannot be unpacked
pub data DetailCode : Type 0 where
  custom : CustomResponse → DetailCode
  code_value : Json → DetailCode

pub data Detail : Type 0 where
  plain_detail : Json → Detail
  coded_detail : DetailCode → Json → Detail
  other_length : Detail

-- `code.value[0]` of a CustomResponseCode
abbrev pub integer_of : DetailCode → Json
integer_of (custom res) = num res.code
integer_of (code_value v) = v

-- `"".join(exc.args)`, which takes texts only
unfoldable pub join_args : List Json → Result String
unfolding ◌<>◌
join_args [] = ok ""
join_args (text s ∷ args) = and_then (join_args args) (λ rest. ok (s <> rest))
join_args (v ∷ args) = raise (other "expected str instance")

-- `"".join(exc.args) if exc.args else exc.__doc__`
unfoldable pub assertion_message : List Json → String → Result String
unfolding join_args
assertion_message [] doc = ok doc
assertion_message (v ∷ args) doc = join_args (v ∷ args)

-- `ResponseBase.success` and `fail` are coroutine functions: a call gives the model only when it is
-- awaited.
pub data Coroutine : Type 0 where
  coroutine : ResponseModel → Coroutine

unfoldable pub response : CustomResponse → Json → ResponseModel
response res value = record { code = res.code; message = res.message; data_value = value }

unfoldable pub fail : CustomResponse → Json → Coroutine
unfolding response
fail res value = coroutine (response res value)

unfoldable pub success : CustomResponse → Json → Coroutine
unfolding response
success res value = coroutine (response res value)

abbrev pub awaited : Coroutine → ResponseModel
awaited (coroutine m) = m

-- `content = res.model_dump()`, where `res` is what the call of `fail` gave
unfoldable pub model_dump : Coroutine → Result Dict
model_dump (coroutine m) = raise (other "'coroutine' object has no attribute 'model_dump'")

pub record Answer : Type 0 where
  pub status_code : ℕ
  pub content : Dict

abbrev unquote : String → String
unquote s = replace_char (is_char b'\'') "\"" s

-- the state of a request: the contents that the handlers leave there, by their names
abbrev pub RequestState : Type 0
RequestState = List (String × Dict)

abbrev pub remember : String → Dict → RequestState → RequestState
remember name content state = (name, content) ∷ state

abbrev pub content_of : ℕ → String → Json → Dict
content_of code msg value = ("code", num code) ∷ ("msg", text msg) ∷ ("data", value) ∷ []

-- an error of `e.errors()`: what its context holds is text, but for an `error` there, which may be an
-- exception
pub data ContextError : Type 0 where
  absent : ContextError
  exception : String → ContextError
  plain_value : Json → ContextError

pub record InputError : Type 0 where
  pub type : String
  pub loc : List Json
  pub msg : String
  pub input : Json
  pub ctx : List (String × String)
  pub ctx_error : ContextError

abbrev pub lookup_text : String → List (String × String) → Option String
lookup_text k [] = none
lookup_text k ((j, v) ∷ rest) = if j == k then some v else lookup_text k rest

unfoldable pub message_for : List (String × String) → String → Option String
message_for [] name = none
message_for ((j, v) ∷ rest) name = if j == name then some v else message_for rest name

unfoldable pub custom_message : String → Option String
unfolding message_for
custom_message type = message_for validation_messages type

abbrev pub has_context : List (String × String) → ContextError → Bool
has_context [] absent = false
has_context _ _ = true

module _ (is_status : ℕ → Bool) (str_of : Json → String) (development : Bool) where
  -- _get_exception_code
  unfoldable pub get_exception_code : ℕ → ℕ
  get_exception_code status_code = if is_status status_code then status_code else 400

  -- `code, message = exc.detail` for a sequence, and the status and `str` of any other detail
  abbrev http_content : ℕ → Detail → Result Dict
  http_content status_code (plain_detail v) =
      ok (("code", num status_code) ∷ ("msg", text (str_of v)) ∷ [])
  http_content status_code (coded_detail code message) =
      ok (("code", integer_of code) ∷ ("msg", message) ∷ [])
  http_content status_code other_length =
      raise (other "a sequence of two values is expected to unpack")

  -- for the status and the detail of the exception
  unfoldable pub http_exception_handler : ℕ → Detail → Exec RequestState Answer
  http_exception_handler status_code detail = do
    content ← lift (http_content status_code detail)
    pure (record { status_code = status_code; content = content })

  unfoldable pub custom_exception_handler : CodedError → Exec RequestState Answer
  unfolding truth get_exception_code
  custom_exception_handler exc =
      let content =
        content_of exc.code exc.msg (if truth exc.data_value then exc.data_value else null) in
      do
        modify (remember "__request_custom_exception__" content)
        pure (record { status_code = get_exception_code exc.code; content = content })

  -- what `except` of the environment says: the exception's own text, or the general answer
  unfoldable pub server_error_content : String → Result Dict
  unfolding fail model_dump
  server_error_content message =
      if development then ok (content_of 500 message null) else model_dump (fail http_500 null)

  -- the content of an assertion's answer; its message is read only in the development environment
  abbrev pub assertion_content : List Json → String → Result Dict
  unfolding fail model_dump assertion_message
  assertion_content args doc =
      let described = assertion_message args doc in
      if development
      then and_then described (λ message. ok (content_of 500 message null))
      else model_dump (fail http_500 null)

  -- for the arguments of the exception and the text of its class's documentation
  unfoldable pub assertion_error_handler : List Json → String → Exec RequestState Answer
  assertion_error_handler args doc = do
    content ← lift (assertion_content args doc)
    modify (remember "__request_assertion_error__" content)
    pure (record { status_code = 500; content = content })

  unfoldable pub all_unknown_exception_handler : Error → Exec RequestState Answer
  unfolding server_error_content str
  all_unknown_exception_handler exc = do
    content ← lift (server_error_content (str exc))
    modify (remember "__request_all_unknown_exception__" content)
    pure (record { status_code = 500; content = content })

  abbrev message_or_null : Option String → Json
  message_or_null none = null
  message_or_null (some m) = text m

  unfoldable pub pydantic_user_error_handler : String → Exec RequestState Answer
  unfolding message_for
  pydantic_user_error_handler code =
      let content : Dict =
        ("code", num 500)
        ∷ ("msg", message_or_null (message_for usage_messages code))
        ∷ ("data", null)
        ∷ [] in
      do
        modify (remember "__request_pydantic_user_error__" content)
        pure (record { status_code = 500; content = content })

  abbrev of_context : ContextError → Option String
  of_context absent = none
  of_context (exception m) = some m
  of_context (plain_value v) = some (str_of v)

  abbrev found_or : String → Option String → Option String → Result String
  found_or name (some v) other_value = ok v
  found_or name none (some v) = ok v
  found_or name none none = raise (other ("'" <> name <> "'"))

  -- the fields of a message, from the context of the error
  unfoldable pub context_fields : InputError → String → Result String
  context_fields error name =
      found_or name (lookup_text name error.ctx)
        (if name == "error" then of_context error.ctx_error else none)

  -- An exception becomes its text, with double quotes, and any other true value is dropped.
  unfoldable pub shown_error : ContextError → ContextError
  unfolding truth replace_char
  shown_error absent = absent
  shown_error (exception m) = plain_value (text (unquote m))
  shown_error (plain_value v) = if truth v then plain_value null else plain_value v

  -- one pass of the loop over the errors
  unfoldable pub with_message : InputError → Option String → Result InputError
  unfolding context_fields shown_error format
  with_message error none = ok error
  with_message error (some message) =
      if not (truthy message)
      then ok error
      else if not (has_context error.ctx error.ctx_error)
      then ok (record error { msg = message })
      else and_then (format (context_fields error) message)
          (λ msg. ok (record error { msg = msg; ctx_error = shown_error error.ctx_error }))

  unfoldable pub with_messages : List InputError → Result (List InputError)
  unfolding with_message custom_message
  with_messages [] = ok []
  with_messages (error ∷ errors) =
      and_then (with_message error (custom_message error.type))
        (λ e. and_then (with_messages errors) (λ es. ok (e ∷ es)))

  abbrev pub last_of : List Json → Result Json
  last_of [] = raise (other "list index out of range")
  last_of (v ∷ []) = ok v
  last_of (v ∷ w ∷ vs) = last_of (w ∷ vs)

  unfoldable pub first_message : List InputError → Result String
  first_message [] = raise (other "list index out of range")
  first_message (error ∷ errors) =
      let located = and_then (last_of error.loc) (λ field. ok (
        if development
        then str_of field <> " " <> error.msg <> "，enter：" <> str_of error.input
        else error.msg)) in
      if error.type == "json_invalid" then ok "json parsing failed" else located

  -- _validation_exception_handler; the errors stand in the content as JSON
  unfoldable pub validation_exception_handler :
      (List InputError → Json) → List InputError → Exec RequestState Answer
  unfolding with_messages first_message
  validation_exception_handler errors_json raw = do
    errors ← lift (with_messages raw)
    message ← lift (first_message errors)
    let content =
        content_of 422 ("Invalid request parameters: " <> message)
          (if development then obj (field "errors" (errors_json errors) end) else null)
    modify (remember "__request_validation_exception__" content)
    pure (record { status_code = 422; content = content })
