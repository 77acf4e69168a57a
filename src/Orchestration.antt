-- ===== src/Orchestration.antt =====
-- app/research/service/orchestration.py
pub mod Outcome
pub mod Refused
use git_hub_repository_resea.Base.{String, Bool, false, Option, none, some}
use git_hub_repository_resea.Errors.{Error, str}
use git_hub_repository_resea.Exec.{Exec, pure, throw, lift, try_except, ◌>>=◌, ◌>>◌}
use git_hub_repository_resea.Schema.{
  pending, completed, failed, ResearchRequest, JobAcceptedResponse, ParsedRepoTarget,
  RepositoryRawContext, StructuredAiResponse, ResearchReport, ResearchJobStateSnapshot, DateTime,
}
use git_hub_repository_resea.Text.{◌<>◌}
use git_hub_repository_resea.UrlValidator.{parse_github_repository_url}
use git_hub_repository_resea.Database.{ResearchJobRecord, FinalResearchReportRecord}
use git_hub_repository_resea.Crud.{unset, create_job_record, update_job_status, save_final_report}
use git_hub_repository_resea.Report.{build_research_report}
use git_hub_repository_resea.World.{World, Services, on_db, on_cache, on_queue, on_net, now, uuid4}

unfoldable pub build_ai_cache_key : String → String → String → String
build_ai_cache_key owner repo commit_sha = owner <> "/" <> repo <> "@" <> commit_sha

-- the row that `submit` creates
abbrev pub new_job : String → ParsedRepoTarget → RepositoryRawContext → String → ResearchJobRecord
new_job job_id target raw cache_key = record {
  job_id = job_id;
  repository_url = raw.repository_url;
  owner = target.owner;
  repo = target.repo;
  status = pending;
  commit_sha = some raw.commit_sha;
  instant_data = some raw.instant_data;
  progress_msg = "Repository metadata fetched";
  error = none;
  ai_cache_key = some cache_key;
}

abbrev pub pending_snapshot : String → RepositoryRawContext → DateTime → ResearchJobStateSnapshot
pending_snapshot job_id raw t = record {
  job_id = job_id;
  status = pending;
  progress_msg = "Repository metadata fetched";
  updated_at = t;
  instant_data = some raw.instant_data;
  ai_fallback = none;
  ai_fallback_reason = none;
  error = none;
}

-- The row of a report; the creation time of an old row is kept when it is saved.
abbrev pub report_row : ResearchReport → String → Bool → FinalResearchReportRecord
report_row report commit_sha ai_fallback = record {
  job_id = report.job_id;
  repository_url = report.repository_url;
  deterministic_data = report.deterministic_data;
  markdown_report = report.markdown_report;
  commit_sha = some commit_sha;
  ai_insights = report.ai_insights;
  ai_fallback = ai_fallback;
  ai_fallback_reason = report.ai_fallback_reason;
  created_time = report.created_at;
}

abbrev pub accepted : String → JobAcceptedResponse
accepted job_id = record { job_id = job_id; status = pending }

module _ {D C Q N : Type 0} (sv : Services D C Q N) where
  -- the branch for a cached AI result
  unfoldable pub complete_from_cache :
      RepositoryRawContext
      → ResearchJobStateSnapshot
      → StructuredAiResponse
      → Exec (World D C Q N) JobAcceptedResponse
  complete_from_cache raw snapshot cached_ai = do
    t ← now sv
    let report = build_research_report sv.show_datetime t snapshot.job_id raw (some cached_ai) none
    on_db (save_final_report sv.db (report_row report raw.commit_sha false))
    on_db (
        update_job_status sv.db snapshot.job_id
          (record unset { status = some completed; progress_msg = some "Completed from cache" }))
    t' ← now sv
    on_cache (
        sv.cache.set_state (record snapshot {
          status = completed;
          progress_msg = "Completed from cache";
          updated_at = t';
        }))
    pure (accepted snapshot.job_id)

  -- `except Exception` of the enqueue
  unfoldable pub enqueue_failed : ResearchJobStateSnapshot → Error → Exec (World D C Q N) Unit
  enqueue_failed snapshot exc = do
    on_db (
        update_job_status sv.db snapshot.job_id (record unset {
          status = some failed;
          progress_msg = some "Queue enqueue failed";
          error = some (some (str exc));
        }))
    t ← now sv
    on_cache (
        sv.cache.set_state (record snapshot {
          status = failed;
          progress_msg = "Queue enqueue failed";
          updated_at = t;
          error = some (str exc);
        }))
    throw exc

  unfoldable pub enqueue :
      ResearchRequest
      → ParsedRepoTarget
      → ResearchJobStateSnapshot
      → Exec (World D C Q N) JobAcceptedResponse
  enqueue request target snapshot = do
    t ← now sv
    try_except
        (on_queue (
          sv.queue.send (record {
            job_id = snapshot.job_id;
            repo_url = target.canonical_url;
            enqueued_at = t;
            attempt = 1;
            options = request.options;
          })))
        (enqueue_failed snapshot)
    pure (accepted snapshot.job_id)

  unfoldable pub reuse_or_enqueue :
      ResearchRequest
      → ParsedRepoTarget
      → RepositoryRawContext
      → ResearchJobStateSnapshot
      → Option StructuredAiResponse
      → Exec (World D C Q N) JobAcceptedResponse
  reuse_or_enqueue request target raw snapshot none = enqueue request target snapshot
  reuse_or_enqueue request target raw snapshot (some cached_ai) =
      complete_from_cache raw snapshot cached_ai

  unfoldable pub submit : ResearchRequest → Exec (World D C Q N) JobAcceptedResponse
  submit request = do
    target ← lift (parse_github_repository_url sv.hosts request.url)
    raw ← on_net (sv.github.fetch_repository_context target)
    job_id ← uuid4 sv
    let cache_key = build_ai_cache_key target.owner target.repo raw.commit_sha
    on_db (create_job_record sv.db (new_job job_id target raw cache_key))
    t ← now sv
    let snapshot = pending_snapshot job_id raw t
    on_cache (sv.cache.set_state snapshot)
    cached_ai ← on_cache (sv.cache.get_cached_ai_result cache_key)
    reuse_or_enqueue request target raw snapshot cached_ai
