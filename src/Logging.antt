-- ===== src/Logging.antt =====
-- common/log.py: what stands in a log line, and the escape that keeps loguru from reading it as a
-- template. The text of a time, Python's `str` and `json.dumps` of a value are parameters.
pub mod Escape
use Prim.Native.String.{[] as nil, ◌∷◌ as ◌∷ᶜ◌}
use git_hub_repository_resea.Base.{
  ℕ, zero, suc, String, Bool, true, false, Option, none, some, List, [], ◌∷◌, ◌++◌, ◌==◌,
  if◌then◌else◌,
}
use git_hub_repository_resea.Json.{
  Json, null, num, text, obj, JsonFields, end, field, Dict, set_item, update,
}
use git_hub_repository_resea.Text.{◌<>◌, is_char, replace_char, join, show}

abbrev is_null : Json → Bool
is_null null = true
is_null _ = false

unfoldable pub given_fields : JsonFields → Dict
given_fields end = []
given_fields (field k v rest) =
    let others = given_fields rest in if is_null v then others else (k, v) ∷ others

abbrev pub nested_extra : Json → Dict
unfolding given_fields
nested_extra (obj fields) = given_fields fields
nested_extra _ = []

unfoldable pub value_of : String → Dict → Json
value_of k [] = null
value_of k ((j, v) ∷ d) = if j == k then v else value_of k d

-- the loop over the extras of a record
unfoldable pub add_extras : Dict → Dict → Dict
unfolding set_item
add_extras normalized [] = normalized
add_extras normalized ((k, v) ∷ rest) =
    let skipped = add_extras normalized rest in
    let added = add_extras (set_item k v normalized) rest in
    if k == "extra" then skipped else if is_null v then skipped else added

unfoldable pub normalize_extras : Dict → Dict
unfolding add_extras value_of update
normalize_extras raw = add_extras (update [] (nested_extra (value_of "extra" raw))) raw

unfoldable pub escape_loguru_braces : String → String
unfolding replace_char
escape_loguru_braces s = replace_char (is_char b'}') "}}" (replace_char (is_char b'{') "{{" s)

pub record LogRecord : Type 0 where
  pub time : String
  pub level : String
  pub name : String
  pub line : ℕ
  pub message : String
  pub extra : Dict

-- f"{s:<8}"
unfoldable pub padded : ℕ → String → String
unfolding ◌<>◌
padded zero s = s
padded (suc n) nil = " " <> padded n nil
padded (suc n) (c ∷ᶜ s) = c ∷ᶜ padded n s

unfoldable pub extra_part : (Json → String) → Dict → List String
extra_part str_of [] = []
extra_part str_of ((k, v) ∷ d) = (k <> "=" <> str_of v) ∷ extra_part str_of d

abbrev extra_text : (Json → String) → Dict → String
extra_text str_of [] = ""
extra_text str_of (e ∷ d) = " " <> join " " (extra_part str_of (e ∷ d))

-- the line before the escape
unfoldable pub rendered : (Json → String) → String → LogRecord → String
unfolding normalize_extras padded extra_part
rendered str_of request_id r =
    r.time
    <> " "
    <> padded 8 r.level
    <> " "
    <> r.name
    <> ":"
    <> show r.line
    <> " [req="
    <> request_id
    <> "] - "
    <> r.message
    <> extra_text str_of (normalize_extras r.extra)
    <> "\n"

unfoldable pub human_format : (Json → String) → String → LogRecord → String
unfolding rendered escape_loguru_braces
human_format str_of request_id r = escape_loguru_braces (rendered str_of request_id r)

unfoldable pub payload : String → LogRecord → Dict
unfolding normalize_extras update
payload request_id r =
    update
      (("t", text r.time)
        ∷ ("lvl", text r.level)
        ∷ ("loc", text (r.name <> ":" <> show r.line))
        ∷ ("req", text request_id)
        ∷ ("msg", text r.message)
        ∷ [])
      (normalize_extras r.extra)

unfoldable pub json_format : (Dict → String) → String → LogRecord → String
unfolding payload escape_loguru_braces
json_format dumps request_id r = escape_loguru_braces (dumps (payload request_id r) <> "\n")

-- a number of milliseconds: whole, or with the digits behind the point
pub data Latency : Type 0 where
  whole : ℕ → Latency
  fractional : ℕ → String → Latency

abbrev whole_part : Latency → ℕ
whole_part (whole n) = n
whole_part (fractional n digits) = n

abbrev text_or_null : Option String → Json
text_or_null none = null
text_or_null (some s) = text s

abbrev latency_or_null : Option Latency → Json
latency_or_null none = null
latency_or_null (some l) = num (whole_part l)

unfoldable pub build_log_context :
    String → Option String → Option String → Option String → Option Latency → Option String → Dict
build_log_context request_id job_id stage boundary latency_ms failure_reason =
    ("request_id", text request_id)
    ∷ ("job_id", text_or_null job_id)
    ∷ ("stage", text_or_null stage)
    ∷ ("boundary", text_or_null boundary)
    ∷ ("latency_ms", latency_or_null latency_ms)
    ∷ ("failure_reason", text_or_null failure_reason)
    ∷ []
