-- ===== src/Tests/Deliveries.antt =====
-- What becomes of delivered messages.
use git_hub_repository_resea.Base.{ℕ, String, ◌≡◌, refl, List, arith}
use git_hub_repository_resea.Errors.{Error, str, simple_problem}
use git_hub_repository_resea.Exec.{ok, raise, ◌>>=◌, try_except, try_else}
use git_hub_repository_resea.Text.{
  ends_with, strip, lstrip, rstrip, keep, before, after, all_chars, any_char, starts_with, lower,
  size, is_space, lower_char, is_alpha, is_digit, is_ascii, split, remove_suffix, ◌<>◌,
}
use git_hub_repository_resea.Urlparse.{urlparse}
use git_hub_repository_resea.UrlValidator.{
  parse_github_repository_url, canonical_url, check_names, check_parsed, check_segments,
  segments_of, name_matches, is_name_char,
}
use git_hub_repository_resea.Crud.{
  save_final_report, update_job_status, get_job_by_id, get_report_by_id, save_update, apply_update,
}
use git_hub_repository_resea.Redis.{
  redis_state_cache, set_state, get_state, set_json, get_json, set, get, state_key, ai_key,
  get_cached_ai_result, set_cached_ai_result,
}
use git_hub_repository_resea.Sanitizer.{build_prompt_payload}
use git_hub_repository_resea.Report.{build_research_report}
use git_hub_repository_resea.Pipeline.{
  execute_research_pipeline, analyze_context, run_ai, analyze_and_cache, call_llm, fall_back,
  cache_insights, finish, settle_job,
}
use git_hub_repository_resea.Orchestration.{build_ai_cache_key}
use git_hub_repository_resea.World.{World, on_db, on_cache, on_queue, on_net, now}
use git_hub_repository_resea.Tests.Fixtures.{
  system, start, view, view-IsStateCache, tables-IsDatabase, message_of,
}
use git_hub_repository_resea.Worker.{handle_received, on_failure, give_up}
use git_hub_repository_resea.Worker.Delivery.{IsGivenUp, handle_received-IsGivenUp}
use git_hub_repository_resea.Tests.Fixtures.{delivery, Tables, Entry, Call}

-- a repository that GitHub does not know
abbrev gone_url : String
gone_url = "https://github.com/nobody/nothing"

abbrev gone : Error
gone = simple_problem 404 "/problems/repository-not-found" "Repository not found" "gone"

black_runs :
    (execute_research_pipeline system (message_of "job" "https://github.com/psf/black") start).0
    ≡ ok tt
unfolding parse_github_repository_url urlparse strip lstrip rstrip keep before after all_chars
    any_char starts_with lower lower_char is_alpha is_digit is_ascii split remove_suffix ◌<>◌
    check_parsed check_segments segments_of check_names name_matches is_name_char canonical_url
    is_space execute_research_pipeline ◌>>=◌ try_except on_db on_cache on_queue on_net now
    analyze_context run_ai analyze_and_cache call_llm fall_back cache_insights finish settle_job
    save_final_report update_job_status get_job_by_id get_report_by_id save_update redis_state_cache
    set_state get_state set_json get_json set get get_cached_ai_result set_cached_ai_result
    build_prompt_payload ends_with state_key ai_key build_research_report apply_update
    build_ai_cache_key size
black_runs = refl

gone_raises : (execute_research_pipeline system (message_of "job" gone_url) start).0 ≡ raise gone
unfolding parse_github_repository_url urlparse strip lstrip rstrip keep before after all_chars
    any_char starts_with lower lower_char is_alpha is_digit is_ascii split remove_suffix ◌<>◌
    check_parsed check_segments segments_of check_names name_matches is_name_char canonical_url
    is_space execute_research_pipeline ◌>>=◌ try_except on_db on_cache on_queue on_net now
    analyze_context run_ai analyze_and_cache call_llm fall_back cache_insights finish settle_job
    save_final_report update_job_status get_job_by_id get_report_by_id save_update redis_state_cache
    set_state get_state set_json get_json set get get_cached_ai_result set_cached_ai_result
    build_prompt_payload ends_with state_key ai_key build_research_report apply_update
    build_ai_cache_key size
gone_raises = refl

gone_handled : (handle_received system (delivery gone_url 3) start).0 ≡ ok tt
unfolding parse_github_repository_url urlparse strip lstrip rstrip keep before after all_chars
    any_char starts_with lower lower_char is_alpha is_digit is_ascii split remove_suffix ◌<>◌
    check_parsed check_segments segments_of check_names name_matches is_name_char canonical_url
    is_space execute_research_pipeline ◌>>=◌ try_except on_db on_cache on_queue on_net now
    analyze_context run_ai analyze_and_cache call_llm fall_back cache_insights finish settle_job
    save_final_report update_job_status get_job_by_id get_report_by_id save_update redis_state_cache
    set_state get_state set_json get_json set get get_cached_ai_result set_cached_ai_result
    build_prompt_payload ends_with state_key ai_key build_research_report apply_update
    build_ai_cache_key size handle_received on_failure give_up try_else str
gone_handled = refl

handle_received-IsGivenUp_example :
    IsGivenUp system view view-IsStateCache tables-IsDatabase "job"
      (str gone)
      (handle_received system (delivery gone_url 3) start).1
handle_received-IsGivenUp_example =
    handle_received-IsGivenUp system view view-IsStateCache tables-IsDatabase (delivery gone_url 3)
      start gone_raises (omega arith) gone_handled

-- Between two deliveries, the world is set back to the start.
abbrev set_back :
    ℕ → World Tables (List Entry) (List Call) ℕ → World Tables (List Entry) (List Call) ℕ
set_back n w = start
