-- ===== src/Worker.antt =====
-- app/research/worker/sqs_worker.py. The request id that the worker sets for its log lines is not
-- modelled, as no log is.
pub mod Delivery
pub mod Redelivery
use git_hub_repository_resea.Base.{
  ℕ, zero, suc, String, Bool, Option, none, some, List, [], ◌∷◌, leb, if◌then◌else◌,
}
use git_hub_repository_resea.Errors.{Error, str}
use git_hub_repository_resea.Exec.{Exec, pure, when, try_else, ◌>>=◌, ◌>>◌}
use git_hub_repository_resea.Schema.{
  JobStatus, failed, ReceivedMessage, ResearchJobMessage, ResearchJobStateSnapshot, DateTime,
}
use git_hub_repository_resea.Crud.{JobUpdate, unset, update_job_status}
use git_hub_repository_resea.Pipeline.{execute_research_pipeline}
use git_hub_repository_resea.World.{World, Services, on_db, on_cache, on_queue, now}

abbrev pub retries_exhausted : String
retries_exhausted = "Research failed after maximum retry attempts"

abbrev pub failed_snapshot : String → String → DateTime → ResearchJobStateSnapshot
failed_snapshot job_id error t = record {
  job_id = job_id;
  status = failed;
  progress_msg = retries_exhausted;
  updated_at = t;
  instant_data = none;
  ai_fallback = none;
  ai_fallback_reason = none;
  error = some error;
}

module _ {D C Q N : Type 0} (sv : Services D C Q N) where
  -- the last attempt has failed
  unfoldable pub give_up : String → Error → Exec (World D C Q N) Unit
  give_up job_id exc = do
    on_db (
        update_job_status sv.db job_id (record unset {
          status = some failed;
          progress_msg = some retries_exhausted;
          error = some (some (str exc));
        }))
    t ← now sv
    on_cache (sv.cache.set_state (failed_snapshot job_id (str exc) t))

  -- `except Exception`
  unfoldable pub on_failure : ReceivedMessage → Error → Exec (World D C Q N) Unit
  on_failure received exc = do
    when (leb sv.settings.research_max_queue_attempts received.receive_count)
        (give_up received.body.job_id exc)
    on_queue (sv.queue.change_visibility received.receipt_handle 0)

  unfoldable pub handle_received : ReceivedMessage → Exec (World D C Q N) Unit
  handle_received received =
      try_else (execute_research_pipeline sv received.body) (on_failure received)
        (λ _. on_queue (sv.queue.delete received.receipt_handle))

  unfoldable pub handle_all : List ReceivedMessage → Exec (World D C Q N) Unit
  handle_all [] = pure tt
  handle_all (received ∷ rest) = handle_received received >> handle_all rest

  -- one round of the `while True` loop
  unfoldable pub poll_once : Exec (World D C Q N) Unit
  poll_once = do
    received_messages ←
        on_queue (sv.queue.receive 1 (some sv.settings.research_sqs_wait_time_seconds))
    handle_all received_messages

  -- The loop, by the rounds that it has made; an exception that leaves a round ends it.
  unfoldable pub poll_rounds : ℕ → Exec (World D C Q N) Unit
  poll_rounds zero = pure tt
  poll_rounds (suc n) = poll_once >> poll_rounds n

  unfoldable pub run_worker : ℕ → Exec (World D C Q N) Unit
  run_worker rounds = on_queue sv.queue.ensure_queues >> poll_rounds rounds
