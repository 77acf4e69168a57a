-- ===== src/Pipeline/Outcome.antt =====
-- What a pipeline run leaves behind when it returns: the cache, the job's row and the report agree.
use git_hub_repository_resea.Base.{
  String, ◌≡◌, refl, ◌∙◌, sym, subst, Option, none, some, eq_refl, arith,
}
use git_hub_repository_resea.Exec.{ok, ◌>>=◌}
use git_hub_repository_resea.Exec.Hoare.{Yields, Yields-bind, bind_ok}
use git_hub_repository_resea.Schema.{
  completed, ParsedRepoTarget, RepositoryRawContext, ResearchJobMessage, ResearchJobStateSnapshot,
}
use git_hub_repository_resea.Ports.{IsStateCache}
use git_hub_repository_resea.Database.{IsDatabase, ResearchJobRecord, FinalResearchReportRecord}
use git_hub_repository_resea.Crud.{
  JobUpdate, unset, apply_update, update_job_status, save_final_report,
}
use git_hub_repository_resea.Crud.Effects.{
  updated, jobs-update_job_status, reports-update_job_status, reports-save_final_report,
}
use git_hub_repository_resea.Report.{build_research_report}
use git_hub_repository_resea.Pipeline.{
  AiOutcome, completion_msg, completed_snapshot, is_fallback, settle_job, finish, analyze_context,
  execute_research_pipeline,
}
use git_hub_repository_resea.World.{World, Services, on_db, on_cache, on_net, now}

-- the row of a job, if there is one, is completed without an error
abbrev pub IsDone : Option ResearchJobRecord → Type 0
IsDone none = Unit
IsDone (some r) = (r.status ≡ completed) × (r.error ≡ none)

-- The snapshot, the report and the job's row of a job, as a finished run leaves them.
pub record IsSettled {D C Q N : Type 0} (sv : Services D C Q N)
    (state : C → String → Option ResearchJobStateSnapshot) (j : String) (w : World D C Q N)
    : Type 0 where
  pub snapshot : ResearchJobStateSnapshot
  pub row : FinalResearchReportRecord
  pub seen : state w.cache j ≡ some snapshot
  pub stored : sv.db.reports w.db j ≡ some row
  pub status : snapshot.status ≡ completed
  pub no_error : snapshot.error ≡ none
  pub metadata : snapshot.instant_data ≡ some row.deterministic_data
  pub reason : snapshot.ai_fallback_reason ≡ row.ai_fallback_reason
  pub flag : snapshot.ai_fallback ≡ some row.ai_fallback
  pub flag_of_reason : row.ai_fallback ≡ is_fallback row.ai_fallback_reason
  pub message : snapshot.progress_msg ≡ completion_msg row.ai_fallback_reason
  pub job_row : IsDone (sv.db.jobs w.db j)

module _ {D C Q N : Type 0} (sv : Services D C Q N)
    (state : C → String → Option ResearchJobStateSnapshot) (L : IsStateCache sv.cache state)
    (B : IsDatabase sv.db) where
  -- the row that a report of this context has
  abbrev Fits : RepositoryRawContext → Option String → FinalResearchReportRecord → Type 0
  Fits raw reason row =
      (row.deterministic_data ≡ raw.instant_data)
      × (row.ai_fallback_reason ≡ reason)
      × (row.ai_fallback ≡ is_fallback reason)

  -- the update that `settle_job` makes
  abbrev last_update : String → Option String → JobUpdate
  last_update key reason = record unset {
    status = some completed;
    progress_msg = some (completion_msg reason);
    error = some none;
    ai_cache_key = some (some key);
  }

  done :
      (job_id key : String) (reason : Option String) (w : World D C Q N)
      {o : Option ResearchJobRecord}
      → (update_job_status sv.db job_id (last_update key reason) w.db).0 ≡ ok o
      → IsDone (sv.db.jobs (update_job_status sv.db job_id (last_update key reason) w.db).1 job_id)
  unfolding apply_update
  done job_id key reason w {o} returned =
      let rows = jobs-update_job_status B job_id (last_update key reason) w.db job_id returned in
      subst IsDone (sym (rows.1 ∙ rw eq_refl rows.0)) (updated_is_done (sv.db.jobs w.db job_id))
    where
      updated_is_done : (o : Option ResearchJobRecord) → IsDone (updated (last_update key reason) o)
      updated_is_done none = tt
      updated_is_done (some r) = (refl, refl)

  settle_job-IsSettled :
      (job_id : String) (raw : RepositoryRawContext) (key : String) (reason : Option String)
      (row : FinalResearchReportRecord) (w : World D C Q N)
      → sv.db.reports w.db job_id ≡ some row
      → Fits raw reason row
      → (settle_job sv job_id raw key reason w).0 ≡ ok tt
      → IsSettled sv state job_id (settle_job sv job_id raw key reason w).1
  unfolding settle_job now on_db on_cache on_net ◌>>=◌ apply_update
  settle_job-IsSettled job_id raw key reason row w stored fits returned =
      let u = last_update key reason in
      let (o, returned', rest, same) =
        bind_ok (on_db (update_job_status sv.db job_id u)) _ w returned in
      let t = (sv.clock.time w.net).0 in
      let s = completed_snapshot job_id raw reason t in
      let reports = reports-update_job_status B job_id u w.db job_id in
      let seen = L.set_state_ok s w.cache job_id rest in
      record {
        snapshot = s;
        row = row;
        seen = ground (arith, eq_refl job_id);
        stored = ground arith;
        status = refl;
        no_error = refl;
        metadata = ground arith;
        reason = ground arith;
        flag = ground arith;
        flag_of_reason = ground arith;
        message = ground arith;
        job_row =
            subst (λ (v : World D C Q N). IsDone (sv.db.jobs v.db job_id)) (sym same)
              (done job_id key reason w returned');
      }

  finish-IsSettled :
      (job_id : String) (raw : RepositoryRawContext) (key : String) (outcome : AiOutcome)
      → Yields (λ _. IsSettled sv state job_id) (finish sv job_id raw key outcome)
  unfolding finish now on_db on_net build_research_report
  finish-IsSettled job_id raw key (ai, reason) = record {
    at = λ w _ returned.
        let (t, _, rest, same) = bind_ok (now sv) _ w returned in
        let w1 = (now sv w).1 in
        let (row, saved, rest', same') = bind_ok (on_db (save_final_report sv.db _)) _ w1 rest in
        let rows = reports-save_final_report B _ w.db job_id saved in
        let stored : sv.db.reports (on_db (save_final_report sv.db _) w1).1.db job_id ≡ some row =
          ground (arith, eq_refl job_id) in
        subst (IsSettled sv state job_id) (sym (same ∙ same'))
          (settle_job-IsSettled job_id raw key reason row _ stored (ground arith) rest');
  }

  analyze_context-IsSettled :
      (job_id : String) (target : ParsedRepoTarget) (raw : RepositoryRawContext)
      → Yields (λ _. IsSettled sv state job_id) (analyze_context sv job_id target raw)
  unfolding analyze_context
  analyze_context-IsSettled job_id target raw = search (Yields-bind, finish-IsSettled) depth 12

  -- Whenever a pipeline run returns, a poll sees the job completed without an error, its report is
  -- stored, snapshot and report agree on the metadata and on the AI fallback, whose flag says
  -- whether the reason is a text that is not empty, and the job's row, if there is one, is completed
  -- without an error.
  pub execute_research_pipeline-IsSettled :
      (message : ResearchJobMessage) (w : World D C Q N)
      → (execute_research_pipeline sv message w).0 ≡ ok tt
      → IsSettled sv state message.job_id (execute_research_pipeline sv message w).1
  unfolding execute_research_pipeline
  execute_research_pipeline-IsSettled message w returned =
      let all : Yields (λ _. IsSettled sv state message.job_id)
          (execute_research_pipeline sv message) =
        search (Yields-bind, analyze_context-IsSettled) depth 12 in
      all.at w tt returned
