-- ===== src/Consistency/Submit.antt =====
-- orchestration.py keeps the report behind every completed snapshot.
use git_hub_repository_resea.Base.{String, Option, none, some}
use git_hub_repository_resea.Errors.{Error}
use git_hub_repository_resea.Exec.{Exec}
use git_hub_repository_resea.Exec.Hoare.{Keeps, Keeps-bind, keeps_rules}
use git_hub_repository_resea.Schema.{
  ResearchRequest, ParsedRepoTarget, RepositoryRawContext, StructuredAiResponse,
  ResearchJobStateSnapshot,
}
use git_hub_repository_resea.Ports.{IsStateCache}
use git_hub_repository_resea.Database.{IsDatabase}
use git_hub_repository_resea.Crud.Laws.{
  create_job_record-KeepsReports, update_job_status-KeepsReports,
}
use git_hub_repository_resea.Report.{build_research_report}
use git_hub_repository_resea.Orchestration.{
  complete_from_cache, enqueue_failed, enqueue, reuse_or_enqueue, submit,
}
use git_hub_repository_resea.World.{World, Services}
use git_hub_repository_resea.Consistency.{Consistent}
use git_hub_repository_resea.Consistency.Pipeline.{save_then-Safe}
use git_hub_repository_resea.Consistency.Rules.{
  Consistent-on_net, Consistent-on_queue, Consistent-now, Consistent-uuid4, Consistent-on_db,
  Consistent-set_state, Consistent-get_cached, Ready-now, Ready-on_db, Ready-set_state,
}

module _ {D C Q N : Type 0} (sv : Services D C Q N)
    (state : C → String → Option ResearchJobStateSnapshot) (L : IsStateCache sv.cache state)
    (B : IsDatabase sv.db) where
  abbrev Safe : {A : Type 0} → Exec (World D C Q N) A → Type 0
  Safe m = Keeps (Consistent sv state) m

  complete_from_cache-Safe :
      (raw : RepositoryRawContext) (snapshot : ResearchJobStateSnapshot) (ai : StructuredAiResponse)
      → Safe (complete_from_cache sv raw snapshot ai)
  unfolding complete_from_cache build_research_report
  complete_from_cache-Safe raw snapshot ai = Keeps-bind _ _ Consistent-now (λ t.
      save_then-Safe sv state L B _ _ (λ row.
        search
          (
            keeps_rules,
            Ready-now sv state L,
            Ready-on_db sv state L,
            Ready-set_state sv state L,
            update_job_status-KeepsReports B,
          )
          depth 12))

  enqueue_failed-Safe :
      (snapshot : ResearchJobStateSnapshot) (exc : Error) → Safe (enqueue_failed sv snapshot exc)
  unfolding enqueue_failed
  enqueue_failed-Safe snapshot exc =
      search
        (
          keeps_rules,
          Consistent-now,
          Consistent-set_state sv state L,
          Consistent-on_db,
          update_job_status-KeepsReports B,
        )
        depth 12

  enqueue-Safe :
      (request : ResearchRequest) (target : ParsedRepoTarget) (snapshot : ResearchJobStateSnapshot)
      → Safe (enqueue sv request target snapshot)
  unfolding enqueue
  enqueue-Safe request target snapshot =
      search (keeps_rules, Consistent-now, Consistent-on_queue, enqueue_failed-Safe) depth 12

  reuse_or_enqueue-Safe :
      (request : ResearchRequest) (target : ParsedRepoTarget) (raw : RepositoryRawContext)
      (snapshot : ResearchJobStateSnapshot) (cached : Option StructuredAiResponse)
      → Safe (reuse_or_enqueue sv request target raw snapshot cached)
  unfolding reuse_or_enqueue
  reuse_or_enqueue-Safe request target raw snapshot none = enqueue-Safe request target snapshot
  reuse_or_enqueue-Safe request target raw snapshot (some ai) =
      complete_from_cache-Safe raw snapshot ai

  pub submit-Safe : (request : ResearchRequest) → Safe (submit sv request)
  unfolding submit
  submit-Safe request =
      search
        (
          keeps_rules,
          Consistent-now,
          Consistent-uuid4,
          Consistent-set_state sv state L,
          Consistent-on_db,
          Consistent-on_net,
          create_job_record-KeepsReports B,
          Consistent-get_cached sv state L,
          reuse_or_enqueue-Safe,
        )
        depth 20
