-- ===== src/OperaLog/Recorded.antt =====
-- The middleware around the application, and what it records of the exceptions that are answered.
use git_hub_repository_resea.Base.{ℕ, String, ◌≡◌, refl, Bool, Option, Bool-cases, inl, inr, []}
use git_hub_repository_resea.Errors.{CodedError}
use git_hub_repository_resea.Exec.{Exec, Result, ok, raise, ◌>>=◌}
use git_hub_repository_resea.Json.{Json, num, text, Dict}
use git_hub_repository_resea.Handlers.{
  RequestState, Detail, plain_detail, coded_detail, other_length, http_exception_handler,
  custom_exception_handler,
}
use git_hub_repository_resea.OperaLog.{
  content_in, entry, find_exception, request_exception_handler, execute_request, OperaRequest,
  OperaSettings, OperaLogEntry, Ciphers, get_request_args, desensitization, finish_request,
  is_recorded, dispatch, call_result,
}

result-call_result :
    {W Reply : Type 0} (state_of : W → RequestState) (str_of : Json → String) (r : Result Reply)
    (state : RequestState)
    → (call_result state_of str_of r state).result ≡ r
unfolding call_result
result-call_result state_of str_of (ok reply) state = refl
result-call_result state_of str_of (raise e) state = refl

-- For a request whose arguments can be read and made ready, and a client whose details are known, the
-- middleware returns what the application returns and raises what it raises.
pub dispatch-call_next :
    {W Reply : Type 0} (state_of : W → RequestState) (str_of : Json → String)
    (settings : OperaSettings) (ciphers : Ciphers) (client : Exec W Unit)
    (create : OperaLogEntry → W → W) (request : OperaRequest) (call_next : Exec W Reply) (w : W)
    {args : Dict} {hidden : Option Dict}
    → get_request_args request.query_params request.path_params request.body ≡ ok args
    → desensitization ciphers settings.cipher settings.encrypt_keys args ≡ ok hidden
    → ((v : W) → (client v).0 ≡ ok tt)
    → (dispatch state_of str_of settings ciphers client create request call_next w).0
      ≡ (call_next w).0
unfolding dispatch execute_request finish_request ◌>>=◌
dispatch-call_next state_of str_of settings ciphers client create request call_next w read ready
      known =
    elim (Bool-cases (is_recorded settings request)) [
      | inr passed ↦ rw passed refl
      | inl recorded ↦
          rw (recorded, read, ready, known (call_next w).1)
            (result-call_result state_of str_of (call_next w).0 (state_of (call_next w).1))
    ]

-- What is recorded of a request whose exception a handler has answered: the code and the message of a
-- coded exception, but the code 200 and "Success" of an HTTP exception, whatever its status and its
-- detail, since its handler leaves nothing in the state of the request.
pub execute_request-handled :
    (is_status : ℕ → Bool) (str_of : Json → String) (development : Bool) (c : CodedError)
    (status_code : ℕ) (detail : Detail)
    → ((execute_request
          (λ s. s)
          str_of
          (custom_exception_handler is_status str_of development c)
          []).0.code
        ≡ str_of (num c.code))
      × ((execute_request
            (λ s. s)
            str_of
            (custom_exception_handler is_status str_of development c)
            []).0.msg
          ≡ text c.msg)
      × ((execute_request
            (λ s. s)
            str_of
            (http_exception_handler is_status str_of development status_code detail)
            []).0.code
          ≡ str_of (num 200))
      × ((execute_request
            (λ s. s)
            str_of
            (http_exception_handler is_status str_of development status_code detail)
            []).0.msg
          ≡ text "Success")
unfolding execute_request call_result request_exception_handler find_exception content_in entry
    custom_exception_handler http_exception_handler ◌>>=◌
execute_request-handled is_status str_of development c status_code (plain_detail v) =
    (refl, refl, refl, refl)
execute_request-handled is_status str_of development c status_code (coded_detail code message) =
    (refl, refl, refl, refl)
execute_request-handled is_status str_of development c status_code other_length =
    (refl, refl, refl, refl)
