-- ===== src/Errors.antt =====
-- common/exception/errors.py: the problem that the API reports, the exceptions of the AI stage, the
-- exceptions that carry a code, and `other` for any other exception, by its text. The details of an
-- HTTP exception are a text everywhere in the program.
use git_hub_repository_resea.Base.{
  ℕ, String, Option, none, some, [], ◌∷◌, ◌++◌, ◌==◌, or_text, if◌then◌else◌,
}
use git_hub_repository_resea.Json.{Json, null, num, text, Dict, update}
use git_hub_repository_resea.Text.{◌<>◌, show}

pub record ResearchProblem : Type 0 where
  pub status_code : ℕ
  pub type : String
  pub title : String
  pub detail : Option String
  pub instance_path : Option String
  pub headers : Dict
  pub extra : Dict

-- HTTPError, and its subclass TokenError, which alone has a `code`
pub record HttpError : Type 0 where
  pub code : Option ℕ
  pub status_code : ℕ
  pub detail : String
  pub headers : Dict

-- BaseExceptionMixin, with what a DebugError adds
pub record CodedError : Type 0 where
  pub code : ℕ
  pub msg : String
  pub data_value : Json
  pub debug_info : Dict

pub data Error : Type 0 where
  problem : ResearchProblem → Error
  llm_unavailable : String → Error
  content_policy : String → Error
  http_error : HttpError → Error
  coded_error : CodedError → Error
  other : String → Error

-- str(exc); a coded exception hands nothing to `Exception`, so its text is empty
unfoldable pub str : Error → String
str (problem p) = or_text p.detail p.title
str (llm_unavailable m) = m
str (content_policy m) = m
str (http_error h) = show h.status_code <> ": " <> h.detail
str (coded_error c) = ""
str (other m) = m

-- An entry of the payload whose value is left out when it is missing or empty.
abbrev pub given : String → Option String → Dict
given k none = []
given k (some v) = if v == "" then [] else (k, text v) ∷ []

unfoldable pub to_dict : ResearchProblem → Dict
unfolding update
to_dict p =
    update
      ((("type", text p.type) ∷ ("title", text p.title) ∷ ("status", num p.status_code) ∷ [])
        ++ given "detail" p.detail
        ++ given "instance" p.instance_path)
      p.extra

abbrev pub simple_problem : ℕ → String → String → String → Error
simple_problem code type title detail = problem (record {
  status_code = code;
  type = type;
  title = title;
  detail = some detail;
  instance_path = none;
  headers = [];
  extra = [];
})

-- `headers or {"WWW-Authenticate": "Bearer"}`
abbrev headers_or_bearer : Dict → Dict
headers_or_bearer [] = ("WWW-Authenticate", text "Bearer") ∷ []
headers_or_bearer (h ∷ hs) = h ∷ hs

unfoldable pub token_error : String → Dict → Error
token_error msg headers = http_error (record {
  code = some 401;
  status_code = 401;
  detail = msg;
  headers = headers_or_bearer headers;
})

abbrev pub coded : ℕ → String → Error
coded code msg = coded_error (record { code = code; msg = msg; data_value = null; debug_info = [] })

unfoldable pub request_error : String → Error
request_error msg = coded 400 msg

unfoldable pub authorization_error : String → Error
authorization_error msg = coded 401 msg

unfoldable pub forbidden_error : String → Error
forbidden_error msg = coded 403 msg

unfoldable pub not_found_error : String → Error
not_found_error msg = coded 404 msg

unfoldable pub server_error : String → Error
server_error msg = coded 500 msg

unfoldable pub gateway_error : String → Error
gateway_error msg = coded 502 msg

unfoldable pub debug_error : String → Dict → Error
debug_error msg info =
    coded_error (record { code = 500; msg = msg; data_value = null; debug_info = info })

-- ProcessingError, for the name of the type of the exception that it reports
unfoldable pub processing_error : String → String → Error → Error
processing_error step error_type e =
    debug_error "Processing Error"
      (("step", text step) ∷ ("error_type", text error_type) ∷ ("error_details", text (str e)) ∷ [])

-- `if entity: error_msg += …`
abbrev entity_part : Option String → String
entity_part none = ""
entity_part (some entity) = if entity == "" then "" else ", Entity: " <> entity

unfoldable pub storage_error : String → Option String → String → Error
storage_error operation entity msg =
    server_error (msg <> " - Operation: " <> operation <> entity_part entity)

unfoldable pub entity_creation_error : String → String → Error
entity_creation_error entity msg = storage_error "create" (some entity) msg
