-- ===== src/Router.antt =====
-- app/research/api/v1/research_router.py: the two JSON endpoints. The HTML dashboard is left out.
pub mod Polling
pub mod Problems
use git_hub_repository_resea.Base.{
  ℕ, String, Bool, true, false, Option, none, some, List, [], ◌∷◌, ◌++◌, if◌then◌else◌,
}
use git_hub_repository_resea.Errors.{
  Error, problem, llm_unavailable, content_policy, other, ResearchProblem, simple_problem, str,
  to_dict,
}
use git_hub_repository_resea.Exec.{Exec, Result, ok, raise, pure, throw, gets, ◌>>=◌, ◌>>◌}
use git_hub_repository_resea.Json.{Json, text, Dict, has_key}
use git_hub_repository_resea.Schema.{
  completed, is_completed, ResearchRequest, JobAcceptedResponse, PollingStatusResponse,
  ResearchJobStateSnapshot, ResearchReport,
}
use git_hub_repository_resea.Text.{◌<>◌}
use git_hub_repository_resea.Database.{FinalResearchReportRecord}
use git_hub_repository_resea.Crud.{get_report_by_id}
use git_hub_repository_resea.Pipeline.{is_fallback}
use git_hub_repository_resea.Orchestration.{submit}
use git_hub_repository_resea.World.{World, Services, on_db, on_cache}

-- A response: the model's, or a problem document.
pub data Response (A : Type 0) : Type 0 where
  success : A → Response A
  problem_document : ℕ → Dict → Dict → Response A

module _ {A : Type 0} where
  -- `_problem_response`, with `payload.setdefault("instance", instance)`
  unfoldable pub problem_response : ResearchProblem → String → Response A
  problem_response p instance_path =
      let payload = to_dict p in
      problem_document p.status_code
        (if has_key "instance" payload
          then payload
          else payload ++ ("instance", text instance_path) ∷ [])
        p.headers

  -- `_unexpected_problem`
  unfoldable pub unexpected_problem : String → String → Error → Response A
  unexpected_problem request_id path exc =
      problem_response
        (record {
          status_code = 500;
          type = "/problems/internal-server-error";
          title = "Internal server error";
          detail = some (str exc);
          instance_path = none;
          headers = [];
          extra = ("request_id", text request_id) ∷ [];
        })
        path

  -- the two `except` clauses of an endpoint
  unfoldable pub respond : String → String → Result A → Response A
  respond request_id path (ok a) = success a
  respond request_id path (raise (problem p)) = problem_response p path
  respond request_id path (raise exc) = unexpected_problem request_id path exc

abbrev pub report_of : FinalResearchReportRecord → ResearchReport
report_of r = record {
  job_id = r.job_id;
  repository_url = r.repository_url;
  deterministic_data = r.deterministic_data;
  ai_insights = r.ai_insights;
  ai_fallback_reason = r.ai_fallback_reason;
  markdown_report = r.markdown_report;
  created_at = r.created_time;
}

abbrev pub report_in : Option FinalResearchReportRecord → Option ResearchReport
report_in none = none
report_in (some r) = some (report_of r)

abbrev pub polling_status : ResearchJobStateSnapshot → Option ResearchReport → PollingStatusResponse
polling_status s report = record {
  job_id = s.job_id;
  status = s.status;
  progress_msg = s.progress_msg;
  updated_at = s.updated_at;
  instant_data = s.instant_data;
  report = report;
  ai_fallback = s.ai_fallback;
  ai_fallback_reason = s.ai_fallback_reason;
  error = s.error;
}

-- the snapshot that is made up from a stored report
abbrev pub snapshot_of_report : String → ResearchReport → ResearchJobStateSnapshot
snapshot_of_report job_id report = record {
  job_id = job_id;
  status = completed;
  progress_msg = "Research completed";
  updated_at = report.created_at;
  instant_data = some report.deterministic_data;
  ai_fallback = some (is_fallback report.ai_fallback_reason);
  ai_fallback_reason = report.ai_fallback_reason;
  error = none;
}

abbrev pub job_not_found : String → Error
job_not_found job_id =
    simple_problem 404 "/problems/job-not-found" "Research job not found"
      ("No research job exists for " <> job_id <> ".")

module _ {D C Q N : Type 0} (sv : Services D C Q N) where
  unfoldable pub load_report : String → Exec (World D C Q N) (Option ResearchReport)
  load_report job_id = do row ← on_db (get_report_by_id sv.db job_id); pure (report_in row)

  unfoldable pub from_report :
      String → Option ResearchReport → Exec (World D C Q N) PollingStatusResponse
  from_report job_id none = throw (job_not_found job_id)
  from_report job_id (some report) =
      pure (polling_status (snapshot_of_report job_id report) (some report))

  -- the body of the `try` in `get_research_job_status`
  unfoldable pub status_from :
      String → Option ResearchJobStateSnapshot → Exec (World D C Q N) PollingStatusResponse
  status_from job_id none = do report ← load_report job_id; from_report job_id report
  status_from job_id (some s) =
      if is_completed s.status
      then (do report ← load_report job_id; pure (polling_status s report))
      else pure (polling_status s none)

  unfoldable pub poll_status : String → Exec (World D C Q N) PollingStatusResponse
  poll_status job_id = do s ← on_cache (sv.cache.get_state job_id); status_from job_id s

  -- GET /api/v1/research/jobs/{job_id}
  unfoldable pub get_research_job_status :
      String → String → String → World D C Q N → Response PollingStatusResponse × World D C Q N
  get_research_job_status request_id path job_id w =
      let (r, w') = poll_status job_id w in (respond request_id path r, w')

  -- POST /api/v1/research/jobs
  unfoldable pub submit_research_job :
      String
      → String
      → ResearchRequest
      → World D C Q N
      → Response JobAcceptedResponse × World D C Q N
  submit_research_job request_id path request w =
      let (r, w') = submit sv request w in (respond request_id path r, w')
