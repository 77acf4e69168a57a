-- ===== src/Connection.antt =====
-- database/db.py and the health endpoint of core/registrar.py: the connection check with its retries,
-- and a session for a request. One attempt opens a session and runs `SELECT 1`; the pause between two
-- attempts changes nothing that the model has.
pub mod Retries
use git_hub_repository_resea.Base.{
  ℕ, zero, suc, ◌+◌, ◌<◌, ◌≤◌, String, ◌≡◌, ◌≢◌, refl, ◌∙◌, ap, Bool, true, false, Option, none,
  some, [], ◌∷◌, nat_eq, arith, if◌then◌else◌,
}
use git_hub_repository_resea.Errors.{Error, other, str}
use git_hub_repository_resea.Exec.{
  Exec, Result, ok, raise, throw, ◌>>=◌, ◌>>◌, try_except, try_finally,
}
use git_hub_repository_resea.Json.{Json, text, obj, end, field}
use git_hub_repository_resea.Handlers.{
  CustomResponse, ResponseModel, Coroutine, fail, success, awaited,
}

-- what the check does: it returns a status with a message, or nothing, or leaves the process
pub data Check : Type 0 where
  status : Bool → String → Check
  returned : Check
  exited : Check

abbrev pub success_of : Bool → Check
success_of for_health_check =
    if for_health_check then status true "Database connection successful" else returned

abbrev pub failure_of : Bool → Error → Check
failure_of for_health_check e = if for_health_check then status false (str e) else exited

-- After an attempt: success, or what follows a failure.
abbrev pub after_attempt :
    {S : Type 0} → Bool → Result (Unit {0}) × S → (Error → Check × S) → Check × S
after_attempt for_health_check (ok u, s) on_failure = (success_of for_health_check, s)
after_attempt for_health_check (raise e, s) on_failure = on_failure e

module _ {S : Type 0} (attempt : Exec S Unit) where
  -- `max_retries` attempts at most; behind the last one there is no retry left
  unfoldable pub check_database_connection : ℕ → Bool → S → Check × S
  check_database_connection zero for_health_check s = (returned, s)
  check_database_connection (suc zero) for_health_check s =
      after_attempt for_health_check (attempt s)
        (λ e. (failure_of for_health_check e, (attempt s).1))
  check_database_connection (suc (suc n)) for_health_check s =
      after_attempt for_health_check (attempt s)
        (λ e. check_database_connection (suc n) for_health_check (attempt s).1)

  -- get_db: the session of a request, around what the request does with it
  unfoldable pub get_db :
      {A : Type 0} → Exec S Unit → Exec S Unit → Exec S Unit → Exec S A → Exec S A
  get_db commit rollback close body =
      try_finally
        (try_except (body >>= λ a. commit >>= λ u s. (ok a, s)) (λ e. rollback >> throw e)) close

  abbrev health_answer : Check → Result ResponseModel
  health_answer (status true message) = ok (
      awaited (
        success (record { code = 200; message = "OK" })
          (obj (field "database" (text "connected") (field "api" (text "healthy") end)))))
  health_answer (status false message) = ok (
      awaited (
        fail (record { code = 503; message = "Database connection failed" })
          (obj (field "error" (text message) end))))
  health_answer returned = raise (other "cannot unpack non-iterable NoneType object")
  health_answer exited = raise (other "1")

  unfoldable pub health : Exec S ResponseModel
  unfolding check_database_connection success fail
  health s = let (check, s') = check_database_connection 1 true s in (health_answer check, s')
