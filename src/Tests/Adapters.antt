-- ===== src/Tests/Adapters.antt =====
-- The adapters and the AI stage at concrete inputs.
use git_hub_repository_resea.Base.{
  arith, ℕ, String, ◌≡◌, refl, Bool, true, false, none, some, List, [], ◌∷◌, one_of, ◌==◌,
  if◌then◌else◌, ◌+◌, ◌*◌, ◌≤◌, max,
}
use git_hub_repository_resea.Errors.{Error, other, llm_unavailable}
use git_hub_repository_resea.Exec.{Result, ok, raise, pure, try_finally, ◌>>=◌}
use git_hub_repository_resea.Json.{
  Json, bool, num, text, arr, obj, nil, cons, end, field, items, lookup,
}
use git_hub_repository_resea.Schema.{
  LlmPromptPayload, StructuredAiResponse, PartialAnalysisWarning, ParsedRepoTarget,
  RepositoryRawContext, ReceivedMessage,
}
use git_hub_repository_resea.Text.{◌<>◌, left, any_char, show, size}
use git_hub_repository_resea.Ports.{IsLlmClient, is_ai_error}
use git_hub_repository_resea.Llm.{Provider, llm_adapter}
use git_hub_repository_resea.Llm.Contract.{IsProvider, llm_adapter-IsLlmClient}
use git_hub_repository_resea.Pipeline.{add_limitations, analyze_and_cache}
use git_hub_repository_resea.Pipeline.Fallback.{IsStage, analyze_and_cache-IsStage}
use git_hub_repository_resea.Pipeline.Limitations.{IsDistinct, HasMessages, add_limitations_lem}
use git_hub_repository_resea.Sqs.{
  Adapter, Config, Item, MessageFormat, Sqs, declare_queues, ensure_queues, on_service, read_items,
  received_of, send, receive, request, with_client,
}
use git_hub_repository_resea.Sqs.Contract.{
  HasUrls, ensure_queues_lem, IsReading, ready, send-IsSent, receive-IsReading,
}
use git_hub_repository_resea.Github.{
  answered, GraphQl, fetch_repository_context, context_in, body_of, repository_in, check_errors,
  check_repository,
}
use git_hub_repository_resea.Github.Decode.{
  Pydantic, commit_of, commits_of, collect, dated_commit, each, get_or, index, languages_in,
  languages_of, or_else, positive, short, topics_of, tree_entry_of, truth, ◌>>=◌ as ◌then◌,
}
use git_hub_repository_resea.Github.Context.{
  context_of, get_or_index, inner_of, metadata_of, raw_context_of,
}
use git_hub_repository_resea.Github.Bounds.{IsContext, fetch_repository_context-IsContext}
use git_hub_repository_resea.Tests.Fixtures.{system, start, delivery, black_context}
use git_hub_repository_resea.Format.{brace_free}
use git_hub_repository_resea.Sanitizer.{build_prompt_payload, header_of}
use git_hub_repository_resea.Sanitizer.Budget.{build_prompt_payload_lem}

abbrev silent : Provider ℕ
silent = record {
  connect = pure tt;
  parse = λ prompt_text n. (ok (record { refusal = none; parsed = none } ∷ []), n);
  close = pure tt;
}

silent-IsProvider : IsProvider silent
silent-IsProvider = record { connect_ok = λ n. refl; close_ok = λ n. refl }

llm_adapter-IsLlmClient_example : IsLlmClient (llm_adapter silent "key")
llm_adapter-IsLlmClient_example = llm_adapter-IsLlmClient silent-IsProvider "key"

abbrev target : ParsedRepoTarget
target = record { owner = "psf"; repo = "black"; canonical_url = "https://github.com/psf/black" }

abbrev cut : PartialAnalysisWarning
cut = record { stage = "context_sanitizer"; message = "cut" }

abbrev payload : LlmPromptPayload
payload = record {
  repository_url = "https://github.com/psf/black";
  cache_key = "psf/black@c0ffee";
  commit_sha = "c0ffee";
  deterministic_data = (black_context target).instant_data;
  prompt_text = "prompt";
  warnings = cut ∷ [];
}

is_ai_no_key :
    {e : Error} (r : Result StructuredAiResponse)
    → r ≡ raise (llm_unavailable "no key")
    → r ≡ raise e
    → is_ai_error e ≡ true
is_ai_no_key r known raised = ground arith

no_model-IsLlmClient : IsLlmClient system.llm
no_model-IsLlmClient = record { raises = λ p n e. is_ai_no_key _ refl e }

analyze_and_cache-IsStage_example :
    IsStage system "psf/black@c0ffee" payload start
      (system.llm.analyze payload start.net).0
      (analyze_and_cache system "psf/black@c0ffee" payload start)
analyze_and_cache-IsStage_example =
    analyze_and_cache-IsStage system no_model-IsLlmClient "psf/black@c0ffee" payload start

add_limitations_lem_example :
    HasMessages (cut ∷ []) (add_limitations ("small sample" ∷ []) (cut ∷ []))
    × ((y : String)
        → one_of y ("small sample" ∷ []) ≡ true
        → one_of y (add_limitations ("small sample" ∷ []) (cut ∷ [])) ≡ true)
    × (IsDistinct ("small sample" ∷ [])
        → IsDistinct (add_limitations ("small sample" ∷ []) (cut ∷ [])))
add_limitations_lem_example = add_limitations_lem ("small sample" ∷ []) (cut ∷ [])

abbrev black_delivery : ReceivedMessage
black_delivery = delivery "https://github.com/psf/black" 2

-- a format that knows one message
abbrev constant_format : MessageFormat
constant_format = record {
  dump = λ m. m.job_id;
  load = λ body. if body == "job" then ok black_delivery.body else raise (other "no JSON");
}

abbrev jobs_config : Config
jobs_config = record {
  visibility_timeout_seconds = 120;
  wait_time_seconds = 20;
  max_attempts = 3;
  queue_name = "jobs";
  dlq_name = "jobs-dlq";
}

abbrev black_item : Item
black_item = record {
  receipt_handle = black_delivery.receipt_handle;
  body = "job";
  approximate_receive_count = some 2;
}

-- a service with one message
abbrev idle : Sqs ℕ
idle = record {
  open_client = pure tt;
  close_client = pure tt;
  create_queue = λ name attributes n. (ok ("http://sqs/" <> name), n);
  queue_arn = λ url. pure "arn";
  send_message = λ url body. pure tt;
  receive_message = λ url n wait. pure (black_item ∷ []);
  delete_message = λ url receipt. pure tt;
  change_message_visibility = λ url receipt timeout. pure tt;
}

abbrev url_in : String → String
url_in name = "http://sqs/" <> name

idle-HasUrls : HasUrls idle constant_format jobs_config url_in
idle-HasUrls = record { created = λ name attributes q e. same e }
  where
    same : {s t : String} → ok s ≡ ok t → t ≡ s
    same e = ground arith

abbrev adapter : Adapter ℕ
adapter = record { queue_url = "old"; dlq_url = "old-dlq"; service = 0 }

queues_ensured : (ensure_queues idle constant_format jobs_config adapter).0 ≡ ok tt
unfolding ensure_queues declare_queues with_client on_service try_finally ◌>>=◌
queues_ensured = refl

ensure_queues_lem_example :
    ((ensure_queues idle constant_format jobs_config adapter).1.queue_url ≡ url_in "jobs")
    × ((ensure_queues idle constant_format jobs_config adapter).1.dlq_url ≡ url_in "jobs-dlq")
ensure_queues_lem_example =
    ensure_queues_lem idle constant_format jobs_config url_in idle-HasUrls adapter queues_ensured

black_sent : (send idle constant_format jobs_config black_delivery.body adapter).0 ≡ ok tt
unfolding send request ensure_queues declare_queues with_client on_service try_finally ◌>>=◌
black_sent = refl

send-IsSent_example :
    ((idle.send_message (url_in "jobs") "job" (ready idle constant_format jobs_config adapter)).0
      ≡ ok tt)
    × ((send idle constant_format jobs_config black_delivery.body adapter).1.service
        ≡ (idle.close_client
            (idle.send_message
              (url_in "jobs")
              "job"
              (ready idle constant_format jobs_config adapter)).1).1)
send-IsSent_example =
    send-IsSent idle constant_format jobs_config url_in idle-HasUrls black_delivery.body adapter
      black_sent

black_received :
    (receive idle constant_format jobs_config 1 (some 20) adapter).0 ≡ ok (black_delivery ∷ [])
unfolding receive read_items received_of request ensure_queues declare_queues with_client on_service
    try_finally ◌>>=◌
black_received = refl

receive-IsReading_example :
    (items : List Item) × ((idle.receive_message
        (url_in "jobs")
        1
        20
        (ready idle constant_format jobs_config adapter)).0
      ≡ ok items)
    × IsReading constant_format items (black_delivery ∷ [])
receive-IsReading_example =
    receive-IsReading idle constant_format jobs_config url_in idle-HasUrls 1 (some 20) adapter
      black_received

-- validators that take each type's own JSON
abbrev text_in : Json → Result String
text_in (text s) = ok s
text_in _ = raise (other "Input should be a valid string")

abbrev number_in : Json → Result ℕ
number_in (num n) = ok n
number_in _ = raise (other "Input should be a valid integer")

abbrev truth_in : Json → Result Bool
truth_in (bool b) = ok b
truth_in _ = raise (other "Input should be a valid boolean")

abbrev strict : Pydantic
strict = record {
  str = text_in;
  int = number_in;
  boolean = truth_in;
  datetime = λ v. ok 5;
  percentage = λ size total. ok 1000;
}

abbrev one_commit : Json
one_commit = obj (
    field "oid" (text "c0ffee0000") (
      field "committedDate" (text "2026-04-19T01:01:00Z") (
        field "history"
          (obj (
            field "nodes"
              (arr (
                cons
                  (obj (
                    field "oid" (text "c0ffee0000")
                      (field "committedDate" (text "2026-04-19T01:01:00Z") end)))
                  nil))
              end))
          (field "tree"
            (obj (
              field "entries"
                (arr (
                  cons (obj (field "name" (text "src") end))
                    (cons (obj (field "name" (text "docs") end)) nil)))
                end))
            end))))

abbrev black_body : Json
black_body = obj (
    field "data"
      (obj (
        field "repository"
          (obj (
            field "name" (text "black") (
              field "url" (text "https://github.com/psf/black") (
                field "defaultBranchRef"
                  (obj (field "name" (text "main") (field "target" one_commit end))) end))))
          end))
      end)

abbrev one_answer : GraphQl ℕ
one_answer = record { post = λ query_text token owner name. pure (answered black_body) }

abbrev found_black : RepositoryRawContext
found_black = record {
  target = target;
  repository_url = "https://github.com/psf/black";
  default_branch = "main";
  commit_sha = "c0ffee0000";
  instant_data = record {
    name = "black";
    description = none;
    stars = 0;
    forks = 0;
    primary_lang = none;
    last_commit_at = some 5;
    owner = some "psf";
    watchers = none;
    open_issues = none;
    license_spdx = none;
    topics = [];
    languages = [];
    recent_commits =
        record { sha = "c0ffee0"; message = ""; committed_at = 5; author_name = none } ∷ [];
    is_archived = false;
    is_fork = false;
  };
  readme_text = none;
  readme_byte_size = none;
  tree_entries = record { name = "src"; type = "blob" } ∷ [];
  open_issue_count = none;
}

black_is_found : (fetch_repository_context one_answer strict "token" 1 target 0).0 ≡ ok found_black
unfolding fetch_repository_context context_in body_of repository_in check_errors check_repository
    context_of metadata_of raw_context_of get_or_index inner_of commit_of commits_of collect
    dated_commit each get_or index languages_in languages_of or_else positive short topics_of
    tree_entry_of truth ◌then◌ ◌>>=◌ items lookup left
black_is_found = refl

fetch_repository_context-IsContext_example : IsContext target 1 found_black
fetch_repository_context-IsContext_example =
    fetch_repository_context-IsContext one_answer strict "token" 1 target 0 black_is_found

abbrev raw : RepositoryRawContext
raw = black_context target

no_brace : brace_free (header_of raw) ≡ true
unfolding header_of any_char ◌<>◌ show
no_brace = refl

-- with a budget of ten tokens
build_prompt_payload_lem_example :
    (p : LlmPromptPayload) × (build_prompt_payload system.others 10 raw ≡ ok p)
    × (size p.prompt_text ≤ max (10 * 4) (489 + size (header_of raw)))
build_prompt_payload_lem_example = build_prompt_payload_lem system.others 10 raw no_brace
