-- ===== src/Tests/Fixtures.antt =====
-- A system to run: tables and a cache in memory, a queue that logs its calls, a GitHub that knows
-- one repository, a model that answers or refuses, and a clock that ticks.
use git_hub_repository_resea.Base.{
  ℕ, ◌+◌, String, ◌≡◌, refl, false, Option, none, some, List, [], ◌∷◌, ◌++◌, ◌==◌, eq_iff, arith,
  if◌then◌else◌,
}
use git_hub_repository_resea.Errors.{other, llm_unavailable, simple_problem}
use git_hub_repository_resea.Exec.{ok, raise, pure, throw}
use git_hub_repository_resea.Schema.{
  low, high, InstantMetadata, ParsedRepoTarget, ReceivedMessage, RepositoryRawContext,
  ResearchJobMessage, ResearchJobStateSnapshot, StructuredAiResponse,
}
use git_hub_repository_resea.Conf.{default_settings}
use git_hub_repository_resea.Database.{
  Database, IsDatabase, ResearchJobRecord, FinalResearchReportRecord,
}
use git_hub_repository_resea.Ports.{MessageQueue, GitHubClient, LlmClient, Clock, IsStateCache}
use git_hub_repository_resea.Redis.{Redis, IsRedis, Payload, redis_state_cache, stored_state}
use git_hub_repository_resea.Redis.Contract.{redis_state_cache-IsStateCache}
use git_hub_repository_resea.Urlparse.{HostChecks}
use git_hub_repository_resea.World.{World, Services}

pub record Tables : Type 0 where
  pub job_rows : List ResearchJobRecord
  pub report_rows : List FinalResearchReportRecord

abbrev find_job : String → List ResearchJobRecord → Option ResearchJobRecord
find_job j [] = none
find_job j (r ∷ rows) = if r.job_id == j then some r else find_job j rows

abbrev find_report : String → List FinalResearchReportRecord → Option FinalResearchReportRecord
find_report j [] = none
find_report j (r ∷ rows) = if r.job_id == j then some r else find_report j rows

abbrev pub tables : Database Tables
tables = record {
  attempt = pure tt;
  jobs = λ d j. find_job j d.job_rows;
  reports = λ d j. find_report j d.report_rows;
  put_job = λ r d. record d { job_rows = r ∷ d.job_rows };
  put_report = λ r d. record d { report_rows = r ∷ d.report_rows };
  stamp = λ d. 7;
}

find_job_key :
    (j : String) (rows : List ResearchJobRecord) {r : ResearchJobRecord}
    → find_job j rows ≡ some r
    → r.job_id ≡ j
find_job_key j [] e = cc e
find_job_key j (row ∷ rows) {r} e = ground (arith, eq_iff row.job_id j, find_job_key j rows {r = r})

pub tables-IsDatabase : IsDatabase tables
tables-IsDatabase = record {
  job_key = λ d j. find_job_key j d.job_rows;
  jobs-attempt = λ d j. refl;
  reports-attempt = λ d j. refl;
  jobs-put_job = λ r d j. refl;
  reports-put_job = λ r d j. refl;
  jobs-put_report = λ r d j. refl;
  reports-put_report = λ r d j. refl;
}

pub record Entry : Type 0 where
  pub key : String
  pub content : Option Payload

abbrev find_value : String → List Entry → Option Payload
find_value k [] = none
find_value k (e ∷ entries) = if e.key == k then e.content else find_value k entries

abbrev keys_of : List Entry → List String
keys_of [] = []
keys_of (e ∷ entries) = e.key ∷ keys_of entries

-- Its scan gives every key, whatever the pattern.
abbrev pub memory : Redis (List Entry)
memory = record {
  attempt = pure tt;
  value = λ r k. find_value k r;
  put = λ k v ttl r. record { key = k; content = some v } ∷ r;
  remove = λ k r. record { key = k; content = none } ∷ r;
  scan = λ pattern r. (ok (keys_of r), r);
}

pub memory-IsRedis : IsRedis memory
memory-IsRedis = record {
  value-attempt = λ r k. refl;
  value-put = λ k v ttl r j. refl;
  value-remove = λ k r j. refl;
  value-scan = λ pattern r k. refl;
}

abbrev pub view : List Entry → String → Option ResearchJobStateSnapshot
view = stored_state memory

-- the calls that the queue has seen
pub data Call : Type 0 where
  sent : ResearchJobMessage → Call
  deleted : String → Call
  visible : String → ℕ → Call

abbrev pub message_of : String → String → ResearchJobMessage
message_of job_id url = record {
  job_id = job_id;
  repo_url = url;
  enqueued_at = 1;
  attempt = 1;
  options = [];
}

abbrev pub delivery : String → ℕ → ReceivedMessage
delivery url n = record {
  receipt_handle = "receipt";
  body = message_of "job" url;
  receive_count = n;
}

abbrev call_log : MessageQueue (List Call)
call_log = record {
  ensure_queues = pure tt;
  send = λ m q. (ok tt, q ++ sent m ∷ []);
  receive = λ n wait q. (ok (delivery "https://github.com/psf/black" 1 ∷ []), q);
  delete = λ h q. (ok tt, q ++ deleted h ∷ []);
  change_visibility = λ h t q. (ok tt, q ++ visible h t ∷ []);
}

abbrev pub black_metadata : InstantMetadata
black_metadata = record {
  name = "psf/black";
  description = none;
  stars = 5;
  forks = 2;
  primary_lang = some "Python";
  last_commit_at = some 3;
  owner = some "psf";
  watchers = none;
  open_issues = some 1;
  license_spdx = some "MIT";
  topics = [];
  languages = [];
  recent_commits = [];
  is_archived = false;
  is_fork = false;
}

abbrev pub black_context : ParsedRepoTarget → RepositoryRawContext
black_context target = record {
  target = target;
  repository_url = target.canonical_url;
  default_branch = "main";
  commit_sha = "c0ffee";
  instant_data = black_metadata;
  readme_text = some "Code.";
  readme_byte_size = some 5;
  tree_entries = record { name = "src"; type = "tree" } ∷ [];
  open_issue_count = some 1;
}

abbrev one_repository : GitHubClient ℕ
one_repository = record {
  fetch_repository_context = λ target n. (
    if target.owner == "psf"
        then ok (black_context target)
        else raise
            (simple_problem 404 "/problems/repository-not-found" "Repository not found" "gone"),
    n,
  );
}

abbrev pub insights_of : StructuredAiResponse
insights_of = record {
  overview = record { project_purpose = "formats"; tech_stack = []; architecture = "one package" };
  security_health = record {
    risk_level = low;
    ai_confidence = high;
    findings = [];
    limitations = [];
  };
  recommendations = record { items = [] };
}

abbrev no_model : LlmClient ℕ
no_model = record { analyze = λ payload. throw (llm_unavailable "no key") }

abbrev ticks : Clock ℕ
ticks = record { time = λ n. (n, n + 1); uuid = λ n. ("job", n + 1) }

abbrev pub any_host : HostChecks
any_host = record { unsafe_nfkc = λ s. none; bad_bracketed = λ s. none }

abbrev pub system : Services Tables (List Entry) (List Call) ℕ
system = record {
  db = tables;
  cache = redis_state_cache memory 3600 86400;
  queue = call_log;
  github = one_repository;
  llm = no_model;
  clock = ticks;
  hosts = any_host;
  others = λ name readme tree. raise (other name);
  show_datetime = λ t. "then";
  settings = default_settings;
}

abbrev pub start : World Tables (List Entry) (List Call) ℕ
start = record { db = record { job_rows = []; report_rows = [] }; cache = []; queue = []; net = 0 }

pub view-IsStateCache : IsStateCache system.cache view
view-IsStateCache = redis_state_cache-IsStateCache memory-IsRedis 3600 86400
