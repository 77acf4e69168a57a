-- ===== src/Conf.antt =====
-- core/conf.py: the settings that the modelled parts read, with their defaults. The environment may
-- override each of them, so they are an argument of what uses them.
use git_hub_repository_resea.Base.{ℕ, String}

pub record Settings : Type 0 where
  pub research_status_ttl_seconds : ℕ
  pub research_cache_ttl_seconds : ℕ
  pub research_sqs_wait_time_seconds : ℕ
  pub research_sqs_visibility_timeout_seconds : ℕ
  pub research_max_queue_attempts : ℕ
  pub sqs_queue_url : String
  pub sqs_dlq_url : String
  pub openai_api_key : String
  pub github_token : String
  pub research_ai_token_budget : ℕ
  pub research_max_tree_entries : ℕ

abbrev pub default_settings : Settings
default_settings = record {
  research_status_ttl_seconds = 3600;
  research_cache_ttl_seconds = 86400;
  research_sqs_wait_time_seconds = 20;
  research_sqs_visibility_timeout_seconds = 120;
  research_max_queue_attempts = 3;
  sqs_queue_url = "http://127.0.0.1:9324/000000000000/research-jobs";
  sqs_dlq_url = "http://127.0.0.1:9324/000000000000/research-jobs-dlq";
  openai_api_key = "";
  github_token = "";
  research_ai_token_budget = 32000;
  research_max_tree_entries = 100;
}
