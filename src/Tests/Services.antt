-- ===== src/Tests/Services.antt =====
-- The services around the research tool at concrete inputs.
use git_hub_repository_resea.Base.{
  ℕ, zero, suc, ◌+◌, ◌/◌, ◌<◌, ◌≤◌, String, ◌≡◌, ◌≢◌, ◌↔◌, refl, Bool, true, Option, none, some,
  List, [], ◌∷◌, arith, or_text,
}
use git_hub_repository_resea.Errors.{CodedError, other}
use git_hub_repository_resea.Exec.{Exec, ok, raise, pure, ◌>>=◌}
use git_hub_repository_resea.Json.{Json, null, num, text}
use git_hub_repository_resea.Text.{◌<>◌, size, left, drop}
use git_hub_repository_resea.Handlers.{
  InputError, absent, Detail, plain_detail, validation_exception_handler, http_exception_handler,
  custom_exception_handler,
}
use git_hub_repository_resea.Handlers.Validation.{IsReport, validation_exception_handler-answers}
use git_hub_repository_resea.Connection.{status, check_database_connection}
use git_hub_repository_resea.Connection.Retries.{
  after_attempts, Fails, check_database_connection-succeeds,
}
use git_hub_repository_resea.Tree.{Node, Forest, recursive_to_tree}
use git_hub_repository_resea.Tree.Depth.{IsForestUnder, recursive_to_tree-IsForestUnder}
use git_hub_repository_resea.Files.{copy}
use git_hub_repository_resea.Files.Copy.{IsAppending, copy-contents}
use git_hub_repository_resea.OperaLog.{execute_request}
use git_hub_repository_resea.OperaLog.Recorded.{execute_request-handled}
use git_hub_repository_resea.Pagination.{to_raw_params, ceil_div}
use git_hub_repository_resea.Pagination.Cover.{to_raw_params-cover}
use git_hub_repository_resea.RequestIds.{Context, Reply, dispatch, header, dispatch-set_header}

abbrev any_text : Json → String
any_text v = "?"

abbrev bad_enum : InputError
bad_enum = record {
  type = "enum";
  loc = text "query" ∷ text "status" ∷ [];
  msg = "Input should be 'a' or 'b'";
  input = text "c";
  ctx = ("expected", "'a' or 'b'") ∷ [];
  ctx_error = absent;
}

abbrev some_status : ℕ → Bool
some_status n = true

bad_enum_located : bad_enum.loc ≢ []
bad_enum_located e = cc e

abbrev as_null : List InputError → Json
as_null l = null

abbrev missing_name : InputError
missing_name = record {
  type = "missing";
  loc = text "body" ∷ text "name" ∷ [];
  msg = "Field required";
  input = null;
  ctx = [];
  ctx_error = absent;
}

missing_name_located : missing_name.loc ≢ []
missing_name_located e = cc e

validation_exception_handler-answers_example :
    IsReport some_status any_text true missing_name
      (validation_exception_handler some_status any_text true as_null
        (missing_name ∷ bad_enum ∷ [])
        [])
      []
validation_exception_handler-answers_example =
    validation_exception_handler-answers some_status any_text true as_null missing_name
      (bad_enum ∷ []) []
      (
        (missing_name_located, λ enum context. cc enum),
        ((bad_enum_located, λ enum context. refl), tt),
      )

-- a database that answers after some attempts
abbrev slow_start : Exec ℕ Unit
slow_start zero = (ok tt, zero)
slow_start (suc n) = (raise (other "connection refused"), n)

first_two_fail : (i : ℕ) → i < 2 → Fails slow_start (after_attempts slow_start i 2)
unfolding after_attempts
first_two_fail zero h = (other "connection refused", refl)
first_two_fail (suc zero) h = (other "connection refused", refl)
first_two_fail (suc (suc i)) h = absurd (omega (arith, h))

third_passes : (slow_start (after_attempts slow_start 2 2)).0 ≡ ok tt
unfolding after_attempts
third_passes = refl

check_database_connection-succeeds_example :
    check_database_connection slow_start 3 true 2
    ≡ (status true "Database connection successful", after_attempts slow_start 3 2)
check_database_connection-succeeds_example =
    check_database_connection-succeeds slow_start 3 2 true 2 (omega arith) first_two_fail
      third_passes

abbrev node_of : ℕ → Option ℕ → Node
node_of id parent_id = record { id = id; parent_id = parent_id; sort = id; others = [] }

abbrev menu : List Node
menu = node_of 1 none ∷ node_of 2 (some 1) ∷ node_of 3 (some 1) ∷ []

abbrev same_rank : ℕ → ℕ
same_rank n = n

root_is_low : (p : ℕ) → ◌≡◌ {A = Option ℕ} none (some p) → p < 1
root_is_low p e = cc e

child_of_root : (p n : ℕ) → 1 < n → ◌≡◌ {A = Option ℕ} (some 1) (some p) → p < n
child_of_root p n h e = let same : 1 ≡ p = cc e in omega (arith, h, same)

recursive_to_tree-IsForestUnder_example :
    (f : Forest) × (recursive_to_tree 5 menu none ≡ some f) × IsForestUnder menu none f
recursive_to_tree-IsForestUnder_example =
    recursive_to_tree-IsForestUnder same_rank 3 menu
      (
        (omega arith, root_is_low),
        (
          (omega arith, λ p. child_of_root p 2 (omega arith)),
          ((omega arith, λ p. child_of_root p 3 (omega arith)), tt),
        ),
      )
      5 none tt (omega arith)

abbrev append_to : String → Exec String Unit
append_to s d = (ok tt, d <> s)

append_to-IsAppending : IsAppending append_to (λ d. d)
append_to-IsAppending = record { contents-write = λ s d written. refl }

copied : (copy append_to 8 3 "content" "").0 ≡ ok true
unfolding copy left drop ◌>>=◌
copied = refl

size_of_content : size "content" < 8
unfolding size
size_of_content = omega arith

copy-contents_example :
    ◌≡◌ {A = Bool} true true × ((copy append_to 8 3 "content" "").1 ≡ "" <> "content")
copy-contents_example =
    copy-contents append_to-IsAppending 8 3 "content" "" (omega arith) size_of_content copied

abbrev expired_detail : Detail
expired_detail = plain_detail (text "Token has expired")

abbrev missing : CodedError
missing = record { code = 404; msg = "Not Found"; data_value = null; debug_info = [] }

execute_request-handled_example :
    ((execute_request
        (λ s. s)
        any_text
        (custom_exception_handler some_status any_text true missing)
        []).0.code
      ≡ any_text (num 404))
    × ((execute_request
          (λ s. s)
          any_text
          (custom_exception_handler some_status any_text true missing)
          []).0.msg
        ≡ text "Not Found")
    × ((execute_request
          (λ s. s)
          any_text
          (http_exception_handler some_status any_text true 401 expired_detail)
          []).0.code
        ≡ any_text (num 200))
    × ((execute_request
          (λ s. s)
          any_text
          (http_exception_handler some_status any_text true 401 expired_detail)
          []).0.msg
        ≡ text "Success")
execute_request-handled_example =
    execute_request-handled some_status any_text true missing 401 expired_detail

to_raw_params-cover_example :
    (((to_raw_params (record { page = 3; size = 20 })).offset ≤ 45)
        × (45
            < (to_raw_params (record { page = 3; size = 20 })).offset
              + (to_raw_params (record { page = 3; size = 20 })).limit)
      ↔ (2 ≡ 45 / 20))
    × (45 / 20 < ceil_div 50 20)
to_raw_params-cover_example = to_raw_params-cover 2 20 (omega arith) 45 50 (omega arith)

abbrev greeting : Exec (Context ℕ) Reply
greeting = pure (record { body = "hello"; headers = ("Content-Type", "text/plain") ∷ [] })

abbrev idle : Context ℕ
idle = record { request_id = "-"; world = 0 }

dispatch-set_header_example :
    ((dispatch "X-Request-ID" "u" (some "client") greeting idle).1.request_id ≡ "-")
    × ((reply : Reply)
        → (dispatch "X-Request-ID" "u" (some "client") greeting idle).0 ≡ ok reply
        → header "X-Request-ID" reply.headers ≡ some (or_text (some "client") "u"))
dispatch-set_header_example = dispatch-set_header "X-Request-ID" "u" (some "client") greeting idle
