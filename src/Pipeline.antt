-- ===== src/Pipeline.antt =====
-- app/research/service/pipeline.py
pub mod Outcome
pub mod Fallback
pub mod Limitations
use git_hub_repository_resea.Base.{
  ℕ, String, Bool, true, false, Option, none, some, List, [], ◌∷◌, ◌++◌, one_of, truthy,
  if◌then◌else◌,
}
use git_hub_repository_resea.Errors.{Error, problem, llm_unavailable, content_policy, other, str}
use git_hub_repository_resea.Exec.{Exec, pure, throw, lift, try_except, ◌>>=◌, ◌>>◌}
use git_hub_repository_resea.Schema.{
  JobStatus, processing, completed, ParsedRepoTarget, RepositoryRawContext, StructuredAiResponse,
  SecurityHealth, ResearchReport, ResearchJobMessage, ResearchJobStateSnapshot, DateTime,
  InstantMetadata, PartialAnalysisWarning, LlmPromptPayload,
}
use git_hub_repository_resea.UrlValidator.{parse_github_repository_url}
use git_hub_repository_resea.Database.{FinalResearchReportRecord}
use git_hub_repository_resea.Crud.{JobUpdate, unset, update_job_status, save_final_report}
use git_hub_repository_resea.Sanitizer.{build_prompt_payload}
use git_hub_repository_resea.Report.{build_research_report}
use git_hub_repository_resea.Orchestration.{build_ai_cache_key, report_row}
use git_hub_repository_resea.World.{World, Services, on_db, on_cache, on_net, now}

-- `ai_insights` and `ai_fallback_reason`
abbrev pub AiOutcome : Type 0
AiOutcome = Option StructuredAiResponse × Option String

-- `bool(ai_fallback_reason)`
unfoldable pub is_fallback : Option String → Bool
is_fallback none = false
is_fallback (some reason) = truthy reason

abbrev pub completion_msg : Option String → String
completion_msg reason =
    if is_fallback reason then "Completed with deterministic fallback" else "Research completed"

abbrev pub processing_snapshot :
    String → String → Option InstantMetadata → DateTime → ResearchJobStateSnapshot
processing_snapshot job_id progress_msg instant_data t = record {
  job_id = job_id;
  status = processing;
  progress_msg = progress_msg;
  updated_at = t;
  instant_data = instant_data;
  ai_fallback = none;
  ai_fallback_reason = none;
  error = none;
}

abbrev pub completed_snapshot :
    String → RepositoryRawContext → Option String → DateTime → ResearchJobStateSnapshot
completed_snapshot job_id raw reason t = record {
  job_id = job_id;
  status = completed;
  progress_msg = completion_msg reason;
  updated_at = t;
  instant_data = some raw.instant_data;
  ai_fallback = some (is_fallback reason);
  ai_fallback_reason = reason;
  error = none;
}

abbrev pub instant_data_of : Option ResearchJobStateSnapshot → Option InstantMetadata
instant_data_of none = none
instant_data_of (some s) = s.instant_data

-- The loop over the warnings: each message once.
unfoldable pub add_limitations : List String → List PartialAnalysisWarning → List String
add_limitations existing [] = existing
add_limitations existing (w ∷ warnings) =
    add_limitations (if one_of w.message existing then existing else existing ++ w.message ∷ [])
      warnings

unfoldable pub with_warnings :
    List PartialAnalysisWarning → StructuredAiResponse → StructuredAiResponse
unfolding add_limitations
with_warnings [] ai = ai
with_warnings (w ∷ warnings) ai = record ai {
  security_health = record ai.security_health {
    limitations = add_limitations ai.security_health.limitations (w ∷ warnings);
  };
}

module _ {D C Q N : Type 0} (sv : Services D C Q N) where
  -- `except (LLMUnavailableError, ContentPolicyError)`, with the insights assigned so far
  unfoldable pub fall_back : Option StructuredAiResponse → Error → Exec (World D C Q N) AiOutcome
  fall_back ai (llm_unavailable m) = pure (ai, some (str (llm_unavailable m)))
  fall_back ai (content_policy m) = pure (ai, some (str (content_policy m)))
  fall_back ai exc = throw exc

  -- the call of the model, inside the `try`
  unfoldable pub call_llm : LlmPromptPayload → Exec (World D C Q N) AiOutcome
  call_llm payload = do
    ai ← on_net (sv.llm.analyze payload)
    pure (some (with_warnings payload.warnings ai), none)

  -- the write to the cache, inside the same `try`
  unfoldable pub cache_insights : String → AiOutcome → Exec (World D C Q N) AiOutcome
  cache_insights cache_key (some ai, none) =
      try_except (on_cache (sv.cache.set_cached_ai_result cache_key ai) >> pure (some ai, none))
        (fall_back (some ai))
  cache_insights cache_key outcome = pure outcome

  -- the whole `try`
  unfoldable pub analyze_and_cache : String → LlmPromptPayload → Exec (World D C Q N) AiOutcome
  analyze_and_cache cache_key payload = do
    outcome ← try_except (call_llm payload) (fall_back none)
    cache_insights cache_key outcome

  unfoldable pub run_ai :
      RepositoryRawContext
      → String
      → ResearchJobStateSnapshot
      → Option StructuredAiResponse
      → Exec (World D C Q N) AiOutcome
  run_ai raw cache_key base (some cached_ai) = pure (some cached_ai, none)
  run_ai raw cache_key base none = do
    payload ← lift (build_prompt_payload sv.others sv.settings.research_ai_token_budget raw)
    t ← now sv
    on_cache
        (sv.cache.set_state (record base { progress_msg = "Running AI analysis"; updated_at = t }))
    analyze_and_cache cache_key payload

  -- what follows the stored report: the row of the job, and the last snapshot
  unfoldable pub settle_job :
      String → RepositoryRawContext → String → Option String → Exec (World D C Q N) Unit
  settle_job job_id raw cache_key reason = do
    on_db (
        update_job_status sv.db job_id (record unset {
          status = some completed;
          progress_msg = some (completion_msg reason);
          error = some none;
          ai_cache_key = some (some cache_key);
        }))
    t ← now sv
    on_cache (sv.cache.set_state (completed_snapshot job_id raw reason t))

  -- the report and its row, and what follows
  unfoldable pub finish :
      String → RepositoryRawContext → String → AiOutcome → Exec (World D C Q N) Unit
  finish job_id raw cache_key (ai, reason) = do
    t ← now sv
    let report = build_research_report sv.show_datetime t job_id raw ai reason
    on_db (save_final_report sv.db (report_row report raw.commit_sha (is_fallback reason)))
    settle_job job_id raw cache_key reason

  -- what follows the fetch
  unfoldable pub analyze_context :
      String → ParsedRepoTarget → RepositoryRawContext → Exec (World D C Q N) Unit
  analyze_context job_id target raw = do
    let cache_key = build_ai_cache_key target.owner target.repo raw.commit_sha
    t ← now sv
    let base = processing_snapshot job_id "Preparing AI analysis" (some raw.instant_data) t
    on_cache (sv.cache.set_state base)
    on_db (
        update_job_status sv.db job_id (record unset {
          commit_sha = some (some raw.commit_sha);
          instant_data = some (some raw.instant_data);
          progress_msg = some "Preparing AI analysis";
          ai_cache_key = some (some cache_key);
        }))
    cached_ai ← on_cache (sv.cache.get_cached_ai_result cache_key)
    outcome ← run_ai raw cache_key base cached_ai
    finish job_id raw cache_key outcome

  unfoldable pub execute_research_pipeline : ResearchJobMessage → Exec (World D C Q N) Unit
  execute_research_pipeline message = do
    target ← lift (parse_github_repository_url sv.hosts message.repo_url)
    existing ← on_cache (sv.cache.get_state message.job_id)
    t ← now sv
    on_cache (
        sv.cache.set_state
          (processing_snapshot message.job_id "Fetching GitHub data" (instant_data_of existing) t))
    on_db (
        update_job_status sv.db message.job_id (record unset {
          status = some processing;
          progress_msg = some "Fetching GitHub data";
          error = some none;
        }))
    raw ← on_net (sv.github.fetch_repository_context target)
    analyze_context message.job_id target raw
