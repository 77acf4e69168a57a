-- ===== src/Tests/Runs.antt =====
-- Runs of the pipeline and the worker.
use git_hub_repository_resea.Base.{String, ◌≡◌, refl, []}
use git_hub_repository_resea.Exec.{ok, ◌>>=◌, try_except}
use git_hub_repository_resea.Text.{
  ends_with, strip, lstrip, rstrip, keep, before, after, all_chars, any_char, starts_with, lower,
  size, is_space, lower_char, is_alpha, is_digit, is_ascii, split, remove_suffix, ◌<>◌,
}
use git_hub_repository_resea.Urlparse.{urlparse}
use git_hub_repository_resea.UrlValidator.{
  parse_github_repository_url, canonical_url, check_names, check_parsed, check_segments,
  segments_of, name_matches, is_name_char,
}
use git_hub_repository_resea.Crud.{
  save_final_report, update_job_status, get_job_by_id, get_report_by_id, save_update, apply_update,
  create_job_record, insert_job,
}
use git_hub_repository_resea.Redis.{
  redis_state_cache, set_state, get_state, set_json, get_json, set, get, state_key, ai_key,
  get_cached_ai_result, set_cached_ai_result,
}
use git_hub_repository_resea.Sanitizer.{build_prompt_payload}
use git_hub_repository_resea.Report.{build_research_report}
use git_hub_repository_resea.Pipeline.{
  execute_research_pipeline, analyze_context, run_ai, analyze_and_cache, call_llm, fall_back,
  cache_insights, finish, settle_job,
}
use git_hub_repository_resea.Pipeline.Outcome.{IsSettled, execute_research_pipeline-IsSettled}
use git_hub_repository_resea.Orchestration.{
  build_ai_cache_key, accepted, enqueue, reuse_or_enqueue, submit,
}
use git_hub_repository_resea.World.{on_db, on_cache, on_queue, on_net, now, uuid4}
use git_hub_repository_resea.Tests.Fixtures.{
  system, start, view, view-IsStateCache, tables-IsDatabase, message_of,
}
use git_hub_repository_resea.Schema.{ResearchRequest}
use git_hub_repository_resea.Orchestration.Outcome.{IsAccepted, submit-IsAccepted}

abbrev black_url : String
black_url = "https://github.com/psf/black"

black_runs : (execute_research_pipeline system (message_of "job" black_url) start).0 ≡ ok tt
unfolding parse_github_repository_url urlparse strip lstrip rstrip keep before after all_chars
    any_char starts_with lower lower_char is_alpha is_digit is_ascii split remove_suffix ◌<>◌
    check_parsed check_segments segments_of check_names name_matches is_name_char canonical_url
    is_space execute_research_pipeline ◌>>=◌ try_except on_db on_cache on_queue on_net now
    analyze_context run_ai analyze_and_cache call_llm fall_back cache_insights finish settle_job
    save_final_report update_job_status get_job_by_id get_report_by_id save_update redis_state_cache
    set_state get_state set_json get_json set get get_cached_ai_result set_cached_ai_result
    build_prompt_payload ends_with state_key ai_key build_research_report apply_update
    build_ai_cache_key size
black_runs = refl

execute_research_pipeline-IsSettled_example :
    IsSettled system view "job"
      (execute_research_pipeline system (message_of "job" black_url) start).1
execute_research_pipeline-IsSettled_example =
    execute_research_pipeline-IsSettled system view view-IsStateCache tables-IsDatabase
      (message_of "job" black_url) start black_runs

abbrev black_request : ResearchRequest
black_request = record { url = " https://github.com/psf/black.git"; options = [] }

black_is_accepted : (submit system black_request start).0 ≡ ok (accepted "job")
unfolding parse_github_repository_url urlparse strip lstrip rstrip keep before after all_chars
    any_char starts_with lower lower_char is_alpha is_digit is_ascii split remove_suffix ◌<>◌
    check_parsed check_segments segments_of check_names name_matches is_name_char canonical_url
    is_space execute_research_pipeline ◌>>=◌ try_except on_db on_cache on_queue on_net now
    analyze_context run_ai analyze_and_cache call_llm fall_back cache_insights finish settle_job
    save_final_report update_job_status get_job_by_id get_report_by_id save_update redis_state_cache
    set_state get_state set_json get_json set get get_cached_ai_result set_cached_ai_result
    build_prompt_payload ends_with state_key ai_key build_research_report apply_update
    build_ai_cache_key size submit uuid4 create_job_record insert_job reuse_or_enqueue enqueue
black_is_accepted = refl

submit-IsAccepted_example :
    IsAccepted system view black_request
      (accepted "job")
      start
      (submit system black_request start).1
submit-IsAccepted_example =
    submit-IsAccepted system view view-IsStateCache tables-IsDatabase black_request start
      black_is_accepted
