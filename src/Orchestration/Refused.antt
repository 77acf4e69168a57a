-- ===== src/Orchestration/Refused.antt =====
-- What a queue that does not take the message leaves behind.
use git_hub_repository_resea.Base.{String, ◌≡◌, refl, ◌∙◌, Option, some, eq_refl}
use git_hub_repository_resea.Errors.{Error, str}
use git_hub_repository_resea.Exec.{ok, raise, try_except, ◌>>=◌}
use git_hub_repository_resea.Schema.{
  failed, DateTime, ParsedRepoTarget, ResearchJobStateSnapshot, ResearchRequest,
}
use git_hub_repository_resea.Ports.{IsStateCache}
use git_hub_repository_resea.Database.{IsDatabase, ResearchJobRecord}
use git_hub_repository_resea.Crud.{JobUpdate, unset, update_job_status}
use git_hub_repository_resea.Crud.Effects.{updated, jobs-update_job_status}
use git_hub_repository_resea.Orchestration.{enqueue, enqueue_failed}
use git_hub_repository_resea.Orchestration.Outcome.{message_for}
use git_hub_repository_resea.World.{World, Services, on_db, on_cache, on_queue, on_net, now}

-- the update of the job's row, and the snapshot
abbrev pub refused_update : String → JobUpdate
refused_update error = record unset {
  status = some failed;
  progress_msg = some "Queue enqueue failed";
  error = some (some error);
}

abbrev pub refused_snapshot :
    ResearchJobStateSnapshot → String → DateTime → ResearchJobStateSnapshot
refused_snapshot snapshot error t = record snapshot {
  status = failed;
  progress_msg = "Queue enqueue failed";
  updated_at = t;
  error = some error;
}

module _ {D C Q N : Type 0} (sv : Services D C Q N)
    (state : C → String → Option ResearchJobStateSnapshot) (L : IsStateCache sv.cache state)
    (B : IsDatabase sv.db) where
  -- a job that the queue did not take
  pub record IsRefused (before : World D C Q N) (snapshot : ResearchJobStateSnapshot)
      (error : String) (w : World D C Q N) : Type 0 where
    pub time : DateTime
    pub seen : state w.cache snapshot.job_id ≡ some (refused_snapshot snapshot error time)
    pub row :
        sv.db.jobs w.db snapshot.job_id
        ≡ updated (refused_update error) (sv.db.jobs before.db snapshot.job_id)

  module _ (request : ResearchRequest) (target : ParsedRepoTarget)
      (snapshot : ResearchJobStateSnapshot) (w : World D C Q N) where
    -- the two times that the clock gives
    abbrev pub first_time : DateTime
    first_time = (sv.clock.time w.net).0

    abbrev pub second_time : DateTime
    second_time = (sv.clock.time (sv.clock.time w.net).1).0

    -- When the queue raises and the row and the snapshot can be written, the request ends with the
    -- queue's exception, a poll sees the job failed with its text, and the job's row, if there is
    -- one, is updated to say the same.
    pub enqueue-IsRefused :
        {exc : Error} {o : Option ResearchJobRecord}
        → (sv.queue.send (message_for request target snapshot.job_id first_time) w.queue).0
          ≡ raise exc
        → (update_job_status sv.db snapshot.job_id (refused_update (str exc)) w.db).0 ≡ ok o
        → (sv.cache.set_state (refused_snapshot snapshot (str exc) second_time) w.cache).0 ≡ ok tt
        → ((enqueue sv request target snapshot w).0 ≡ raise exc)
          × IsRefused w snapshot (str exc) (enqueue sv request target snapshot w).1
    unfolding enqueue enqueue_failed try_except on_queue on_db on_cache now on_net ◌>>=◌
    enqueue-IsRefused {exc} {o} raised row_written snapshot_written =
        let id = snapshot.job_id in
        let rows = jobs-update_job_status B id (refused_update (str exc)) w.db id row_written in
        let seen =
          L.set_state_ok (refused_snapshot snapshot (str exc) second_time) w.cache id
            snapshot_written in
        rw raised (
          rw row_written (
            rw snapshot_written (
              refl,
              record {
                time = second_time;
                seen = seen ∙ rw (eq_refl id) refl;
                row = rows.1 ∙ rw (eq_refl id) rows.0;
              },
            )))
