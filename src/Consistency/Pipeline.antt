-- ===== src/Consistency/Pipeline.antt =====
-- pipeline.py keeps the report behind every completed snapshot, statement by statement.
use git_hub_repository_resea.Base.{String, ◌≡◌, false, Option, none, some, eq_refl, arith}
use git_hub_repository_resea.Errors.{Error, llm_unavailable, content_policy}
use git_hub_repository_resea.Exec.{Exec, ◌>>=◌}
use git_hub_repository_resea.Exec.Hoare.{Keeps, Gains, Keeps-bind, Keeps-bind-Gains, keeps_rules}
use git_hub_repository_resea.Schema.{
  ParsedRepoTarget, RepositoryRawContext, StructuredAiResponse, ResearchJobMessage,
  ResearchJobStateSnapshot, LlmPromptPayload, is_completed,
}
use git_hub_repository_resea.Ports.{IsStateCache}
use git_hub_repository_resea.Database.{IsDatabase, FinalResearchReportRecord}
use git_hub_repository_resea.Crud.{save_final_report}
use git_hub_repository_resea.Crud.Laws.{
  HasReport, update_job_status-KeepsReports, save_final_report-KeepsReports,
}
use git_hub_repository_resea.Crud.Effects.{reports-save_final_report}
use git_hub_repository_resea.Report.{build_research_report}
use git_hub_repository_resea.Pipeline.{
  AiOutcome, fall_back, call_llm, cache_insights, analyze_and_cache, run_ai, settle_job, finish,
  analyze_context, execute_research_pipeline,
}
use git_hub_repository_resea.World.{World, Services, on_db}
use git_hub_repository_resea.Consistency.{Consistent}
use git_hub_repository_resea.Consistency.Rules.{
  Consistent-on_net, Consistent-now, Consistent-on_db, Consistent-set_state, Consistent-get_state,
  Consistent-get_cached, Consistent-set_cached, Ready, Ready-now, Ready-on_db, Ready-set_state,
}

module _ {D C Q N : Type 0} (sv : Services D C Q N)
    (state : C → String → Option ResearchJobStateSnapshot) (L : IsStateCache sv.cache state)
    (B : IsDatabase sv.db) where
  abbrev Safe : {A : Type 0} → Exec (World D C Q N) A → Type 0
  Safe m = Keeps (Consistent sv state) m

  fall_back-Safe : (ai : Option StructuredAiResponse) (e : Error) → Safe (fall_back sv ai e)
  unfolding fall_back
  fall_back-Safe ai (llm_unavailable m) = search keeps_rules
  fall_back-Safe ai (content_policy m) = search keeps_rules
  fall_back-Safe ai _ = search keeps_rules

  call_llm-Safe : (payload : LlmPromptPayload) → Safe (call_llm sv payload)
  unfolding call_llm
  call_llm-Safe payload = search (keeps_rules, Consistent-on_net)

  cache_insights-Safe : (key : String) (outcome : AiOutcome) → Safe (cache_insights sv key outcome)
  unfolding cache_insights
  cache_insights-Safe key (some ai, none) =
      search (keeps_rules, Consistent-set_cached sv state L, fall_back-Safe) depth 8
  cache_insights-Safe key (none, reason) = search keeps_rules
  cache_insights-Safe key (some ai, some reason) = search keeps_rules

  run_ai-Safe :
      (raw : RepositoryRawContext) (key : String) (base : ResearchJobStateSnapshot)
      (cached : Option StructuredAiResponse)
      → is_completed base.status ≡ false
      → Safe (run_ai sv raw key base cached)
  unfolding run_ai analyze_and_cache
  run_ai-Safe raw key base (some ai) open_job = search keeps_rules
  run_ai-Safe raw key base none open_job =
      search
        (
          keeps_rules,
          Consistent-now,
          Consistent-set_state sv state L,
          call_llm-Safe,
          fall_back-Safe,
          cache_insights-Safe,
        )
        depth 15

  save_final_report-Gains :
      (r : FinalResearchReportRecord)
      → Gains
          (Consistent sv state)
          (λ row w. HasReport sv.db r.job_id w.db)
          (on_db (save_final_report sv.db r))
  unfolding on_db
  save_final_report-Gains r = record {
    keeps = (Consistent-on_db (save_final_report sv.db r) (save_final_report-KeepsReports B r)).at;
    gains = λ w row h e.
        ground (arith, reports-save_final_report B r w.db r.job_id e, eq_refl r.job_id);
  }

  -- Behind a saved report the rest may show the job completed.
  pub save_then-Safe :
      {A : Type 0} (r : FinalResearchReportRecord)
      (rest : FinalResearchReportRecord → Exec (World D C Q N) A)
      → ((row : FinalResearchReportRecord) → Keeps (Ready sv state L r.job_id) (rest row))
      → Safe (on_db (save_final_report sv.db r) >>= rest)
  save_then-Safe r rest keeps =
      Keeps-bind-Gains _ rest (save_final_report-Gains r) (λ row w c stored.
        let kept = (keeps row).at w (record { consistent = c; stored = stored }) in kept.consistent)

  settle_job-Ready :
      (job_id : String) (raw : RepositoryRawContext) (key : String) (reason : Option String)
      → Keeps (Ready sv state L job_id) (settle_job sv job_id raw key reason)
  unfolding settle_job
  settle_job-Ready job_id raw key reason =
      search
        (
          keeps_rules,
          Ready-now sv state L,
          Ready-on_db sv state L,
          Ready-set_state sv state L,
          update_job_status-KeepsReports B,
        )
        depth 12

  finish-Safe :
      (job_id : String) (raw : RepositoryRawContext) (key : String) (outcome : AiOutcome)
      → Safe (finish sv job_id raw key outcome)
  unfolding finish build_research_report
  finish-Safe job_id raw key (ai, reason) =
      Keeps-bind _ _ Consistent-now
        (λ t. save_then-Safe _ _ (λ row. settle_job-Ready job_id raw key reason))

  analyze_context-Safe :
      (job_id : String) (target : ParsedRepoTarget) (raw : RepositoryRawContext)
      → Safe (analyze_context sv job_id target raw)
  unfolding analyze_context
  analyze_context-Safe job_id target raw =
      search
        (
          keeps_rules,
          Consistent-now,
          Consistent-set_state sv state L,
          Consistent-on_db,
          update_job_status-KeepsReports B,
          Consistent-get_cached sv state L,
          run_ai-Safe,
          finish-Safe,
        )
        depth 15

  pub execute_research_pipeline-Safe :
      (message : ResearchJobMessage) → Safe (execute_research_pipeline sv message)
  unfolding execute_research_pipeline
  execute_research_pipeline-Safe message =
      search
        (
          keeps_rules,
          Consistent-now,
          Consistent-set_state sv state L,
          Consistent-on_db,
          Consistent-on_net,
          update_job_status-KeepsReports B,
          Consistent-get_state sv state L,
          analyze_context-Safe,
        )
        depth 15
