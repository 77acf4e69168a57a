-- ===== src/Worker/Delivery.antt =====
-- What becomes of a delivered message.
use git_hub_repository_resea.Base.{
  ◌<◌, ◌≤◌, String, ◌≡◌, refl, ◌∙◌, sym, subst, true, inl, inr, Option, none, some, leb, eq_refl,
  arith,
}
use git_hub_repository_resea.Errors.{Error, str}
use git_hub_repository_resea.Exec.{Result, ok, raise, when, try_else, ◌>>=◌}
use git_hub_repository_resea.Exec.Hoare.{bind_ok, Result-cases}
use git_hub_repository_resea.Schema.{failed, ResearchJobStateSnapshot, ReceivedMessage}
use git_hub_repository_resea.Ports.{IsStateCache}
use git_hub_repository_resea.Database.{IsDatabase, ResearchJobRecord}
use git_hub_repository_resea.Crud.{JobUpdate, unset, apply_update, update_job_status}
use git_hub_repository_resea.Crud.Effects.{updated, jobs-update_job_status}
use git_hub_repository_resea.Pipeline.{execute_research_pipeline}
use git_hub_repository_resea.Pipeline.Outcome.{IsSettled, execute_research_pipeline-IsSettled}
use git_hub_repository_resea.Worker.{
  give_up, on_failure, handle_received, retries_exhausted, failed_snapshot,
}
use git_hub_repository_resea.World.{World, Services, on_db, on_cache, on_queue, on_net, now}

-- the row of a job, if there is one, has failed with this error
abbrev pub HasFailed : String → Option ResearchJobRecord → Type 0
HasFailed error none = Unit
HasFailed error (some r) = (r.status ≡ failed) × (r.error ≡ some error)

abbrev last_update : String → JobUpdate
last_update error = record unset {
  status = some failed;
  progress_msg = some retries_exhausted;
  error = some (some error);
}

updated-HasFailed :
    (error : String) (o : Option ResearchJobRecord)
    → HasFailed error (updated (last_update error) o)
unfolding apply_update
updated-HasFailed error none = tt
updated-HasFailed error (some r) = (refl, refl)

module _ {D C Q N : Type 0} (sv : Services D C Q N)
    (state : C → String → Option ResearchJobStateSnapshot) (L : IsStateCache sv.cache state)
    (B : IsDatabase sv.db) (received : ReceivedMessage) (w : World D C Q N) where
  -- the world that the pipeline leaves
  abbrev run : Result (Unit {0}) × World D C Q N
  run = execute_research_pipeline sv received.body w

  -- A message whose pipeline run returns is acknowledged: the queue is asked to delete it, and
  -- nothing else, and the job is settled.
  pub handle_received-IsSettled :
      run.0 ≡ ok tt
      → IsSettled sv state received.body.job_id (handle_received sv received w).1
        × ((handle_received sv received w).1.queue
            ≡ (sv.queue.delete received.receipt_handle run.1.queue).1)
  unfolding handle_received try_else on_queue
  handle_received-IsSettled returned =
      let settled = execute_research_pipeline-IsSettled sv state L B received.body w returned in
      ground arith

  -- A message whose pipeline run raises before the last attempt goes back to the queue at once: its
  -- visibility timeout is set to zero, and the tables and the cache stay as the run left them.
  pub handle_received-retried :
      {e : Error}
      → run.0 ≡ raise e
      → received.receive_count < sv.settings.research_max_queue_attempts
      → ((handle_received sv received w).1.queue
          ≡ (sv.queue.change_visibility received.receipt_handle 0 run.1.queue).1)
        × ((handle_received sv received w).1.db ≡ run.1.db)
        × ((handle_received sv received w).1.cache ≡ run.1.cache)
  unfolding handle_received try_else on_failure on_queue ◌>>=◌
  handle_received-retried raised early = ground arith

module _ {D C Q N : Type 0} (sv : Services D C Q N)
    (state : C → String → Option ResearchJobStateSnapshot) (L : IsStateCache sv.cache state)
    (B : IsDatabase sv.db) where
  -- a job that the worker has given up
  pub record IsGivenUp (job_id error : String) (w : World D C Q N) : Type 0 where
    pub snapshot : ResearchJobStateSnapshot
    pub seen : state w.cache job_id ≡ some snapshot
    pub status : snapshot.status ≡ failed
    pub error_text : snapshot.error ≡ some error
    pub job_row : HasFailed error (sv.db.jobs w.db job_id)

  give_up-IsGivenUp :
      (job_id : String) (exc : Error) (w : World D C Q N)
      → (give_up sv job_id exc w).0 ≡ ok tt
      → IsGivenUp job_id (str exc) (give_up sv job_id exc w).1
  unfolding give_up now on_db on_cache on_net ◌>>=◌
  give_up-IsGivenUp job_id exc w returned =
      let error = str exc in
      let u = last_update error in
      let (o, returned', rest, same) =
        bind_ok (on_db (update_job_status sv.db job_id u)) _ w returned in
      let s = failed_snapshot job_id error (sv.clock.time w.net).0 in
      let rows = jobs-update_job_status B job_id u w.db job_id returned' in
      let seen = L.set_state_ok s w.cache job_id rest in
      record {
        snapshot = s;
        seen = ground (arith, eq_refl job_id);
        status = refl;
        error_text = refl;
        job_row =
            subst (λ (v : World D C Q N). HasFailed error (sv.db.jobs v.db job_id)) (sym same)
              (subst (HasFailed error) (sym (rows.1 ∙ rw eq_refl rows.0))
                (updated-HasFailed error (sv.db.jobs w.db job_id)));
      }

  on_failure-IsGivenUp :
      (received : ReceivedMessage) (exc : Error) (w : World D C Q N)
      → sv.settings.research_max_queue_attempts ≤ received.receive_count
      → (on_failure sv received exc w).0 ≡ ok tt
      → IsGivenUp received.body.job_id (str exc) (on_failure sv received exc w).1
  unfolding on_failure on_queue
  on_failure-IsGivenUp received exc w last returned =
      let (u, gave_up, rest, same) =
        bind_ok
          (when (leb sv.settings.research_max_queue_attempts received.receive_count)
            (give_up sv received.body.job_id exc))
          _ w returned in
      let now_last : leb sv.settings.research_max_queue_attempts received.receive_count ≡ true =
        ground arith in
      let g = give_up-IsGivenUp received.body.job_id exc w (rw now_last at gave_up) in
      subst (IsGivenUp received.body.job_id (str exc)) (sym same) (
        rw now_last (record {
          snapshot = g.snapshot;
          seen = g.seen;
          status = g.status;
          error_text = g.error_text;
          job_row = g.job_row;
        }))

  queue-give_up :
      (job_id : String) (exc : Error) (w : World D C Q N)
      → (give_up sv job_id exc w).0 ≡ ok tt
      → (give_up sv job_id exc w).1.queue ≡ w.queue
  unfolding give_up now on_db on_cache on_net ◌>>=◌
  queue-give_up job_id exc w returned = ground arith

  -- Also a message that is given up is asked back at once; SQS moves it to the dead-letter queue.
  pub queue-handle_received :
      (received : ReceivedMessage) (w : World D C Q N) {e : Error}
      → (execute_research_pipeline sv received.body w).0 ≡ raise e
      → sv.settings.research_max_queue_attempts ≤ received.receive_count
      → (handle_received sv received w).0 ≡ ok tt
      → (handle_received sv received w).1.queue
        ≡ (sv.queue.change_visibility received.receipt_handle 0
            (execute_research_pipeline sv received.body w).1.queue).1
  unfolding handle_received try_else on_failure on_queue ◌>>=◌
  queue-handle_received received w {e} raised last returned =
      let w1 = (execute_research_pipeline sv received.body w).1 in
      let now_last : leb sv.settings.research_max_queue_attempts received.receive_count ≡ true =
        ground arith in
      elim (Result-cases (give_up sv received.body.job_id e w1).0) [
        | inl (u, gave_up) ↦
            let kept = queue-give_up received.body.job_id e w1 gave_up in ground arith
        | inr (x, failed_too) ↦ absurd (ground arith)
      ]

  -- When the pipeline run of a message raises on the last attempt and the handling returns, a poll
  -- sees the job failed with the text of the exception, and so says the job's row, if there is one.
  pub handle_received-IsGivenUp :
      (received : ReceivedMessage) (w : World D C Q N) {e : Error}
      → (execute_research_pipeline sv received.body w).0 ≡ raise e
      → sv.settings.research_max_queue_attempts ≤ received.receive_count
      → (handle_received sv received w).0 ≡ ok tt
      → IsGivenUp received.body.job_id (str e) (handle_received sv received w).1
  unfolding handle_received try_else
  handle_received-IsGivenUp received w {e} raised last returned =
      let w1 = (execute_research_pipeline sv received.body w).1 in
      rw raised (on_failure-IsGivenUp received e w1 last (rw raised at returned))
