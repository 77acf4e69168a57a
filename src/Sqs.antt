-- ===== src/Sqs.antt =====
-- app/research/adapters/sqs_adapter.py. The SQS service and its client are a parameter: the requests
-- of one client, each of which may raise. A message body is JSON, whose writing and reading are
-- parameters as well.
pub mod Names
pub mod Contract
use git_hub_repository_resea.Base.{
  ℕ, String, Option, none, some, List, [], ◌∷◌, leb, truthy, if◌then◌else◌,
}
use git_hub_repository_resea.Errors.{other}
use git_hub_repository_resea.Exec.{
  Exec, Result, ok, raise, and_then, lift, gets, modify, try_finally, ◌>>=◌, ◌>>◌,
}
use git_hub_repository_resea.Schema.{ReceivedMessage, ResearchJobMessage}
use git_hub_repository_resea.Text.{is_char, rstrip, show, split}
use git_hub_repository_resea.Ports.{MessageQueue}

-- the `RedrivePolicy` attribute, whose JSON is the client's
pub record RedrivePolicy : Type 0 where
  pub dead_letter_target_arn : String
  pub max_receive_count : String

pub record QueueAttributes : Type 0 where
  pub visibility_timeout : String
  pub receive_message_wait_time_seconds : String
  pub redrive_policy : RedrivePolicy

-- An item of an answer to `receive_message`; the count is the number in its attribute, if any.
pub record Item : Type 0 where
  pub receipt_handle : String
  pub body : String
  pub approximate_receive_count : Option ℕ

pub record Sqs (Q : Type 0) : Type 0 where
  pub open_client : Exec Q Unit
  pub close_client : Exec Q Unit
  pub create_queue : String → Option QueueAttributes → Exec Q String
  pub queue_arn : String → Exec Q String
  pub send_message : String → String → Exec Q Unit
  pub receive_message : String → ℕ → ℕ → Exec Q (List Item)
  pub delete_message : String → String → Exec Q Unit
  pub change_message_visibility : String → String → ℕ → Exec Q Unit

-- `json.dumps(message.model_dump(mode="json"))` and `model_validate_json`
pub record MessageFormat : Type 0 where
  pub dump : ResearchJobMessage → String
  pub load : String → Result ResearchJobMessage

pub record Config : Type 0 where
  pub visibility_timeout_seconds : ℕ
  pub wait_time_seconds : ℕ
  pub max_attempts : ℕ
  pub queue_name : String
  pub dlq_name : String

-- The URLs that the adapter keeps, and the service.
pub record Adapter (Q : Type 0) : Type 0 where
  pub queue_url : String
  pub dlq_url : String
  pub service : Q

-- l[-1]
unfoldable pub last_of : String → List String → String
last_of s [] = s
last_of s (t ∷ l) = last_of t l

unfoldable pub queue_name_from_url : String → String → String
queue_name_from_url queue_url default_name =
    if truthy queue_url
    then last_of "" (split (is_char b'/') (rstrip (is_char b'/') queue_url))
    else default_name

unfoldable pub configure : ℕ → ℕ → ℕ → String → String → Config
configure visibility wait attempts queue_url dlq_url = record {
  visibility_timeout_seconds = visibility;
  wait_time_seconds = wait;
  max_attempts = attempts;
  queue_name = queue_name_from_url queue_url "research-jobs";
  dlq_name = queue_name_from_url dlq_url "research-jobs-dlq";
}

abbrev count_or_one : Option ℕ → ℕ
count_or_one none = 1
count_or_one (some n) = n

-- The model takes a count of at least 1.
unfoldable pub received_of : Item → ResearchJobMessage → Result ReceivedMessage
received_of item message =
    let count = count_or_one item.approximate_receive_count in
    if leb 1 count
    then ok (record { receipt_handle = item.receipt_handle; body = message; receive_count = count })
    else raise (other "Input should be greater than or equal to 1")

-- The loop over the messages of an answer.
unfoldable pub read_items : MessageFormat → List Item → Result (List ReceivedMessage)
unfolding received_of
read_items format [] = ok []
read_items format (item ∷ items) = and_then (format.load item.body) (λ message.
    and_then (received_of item message)
      (λ received. and_then (read_items format items) (λ rest. ok (received ∷ rest))))

abbrev wait_or : Option ℕ → ℕ → ℕ
wait_or none d = d
wait_or (some n) d = n

module _ {Q : Type 0} (sqs : Sqs Q) (format : MessageFormat) (config : Config) where
  unfoldable pub on_service : {A : Type 0} → Exec Q A → Exec (Adapter Q) A
  on_service m a = let (r, q) = m a.service in (r, record a { service = q })

  -- `async with self._session.create_client(…)`
  unfoldable pub with_client : {A : Type 0} → Exec (Adapter Q) A → Exec (Adapter Q) A
  with_client m = on_service sqs.open_client >> try_finally m (on_service sqs.close_client)

  abbrev pub attributes_for : String → QueueAttributes
  attributes_for dlq_arn = record {
    visibility_timeout = show config.visibility_timeout_seconds;
    receive_message_wait_time_seconds = show config.wait_time_seconds;
    redrive_policy = record {
      dead_letter_target_arn = dlq_arn;
      max_receive_count = show config.max_attempts;
    };
  }

  -- the body of the `with` block of `ensure_queues`
  unfoldable pub declare_queues : Exec (Adapter Q) Unit
  declare_queues = do
    dlq_url ← on_service (sqs.create_queue config.dlq_name none)
    modify (λ a. record a { dlq_url = dlq_url })
    dlq_arn ← on_service (sqs.queue_arn dlq_url)
    queue_url ← on_service (sqs.create_queue config.queue_name (some (attributes_for dlq_arn)))
    modify (λ a. record a { queue_url = queue_url })

  unfoldable pub ensure_queues : Exec (Adapter Q) Unit
  ensure_queues = with_client declare_queues

  -- A request to the queue, behind `ensure_queues`, with the URL that the adapter has then.
  unfoldable pub request : {A : Type 0} → (String → Exec Q A) → Exec (Adapter Q) A
  request call = do
    ensure_queues
    with_client (do queue_url ← gets (λ a. a.queue_url); on_service (call queue_url))

  unfoldable pub send : ResearchJobMessage → Exec (Adapter Q) Unit
  send message = request (λ url. sqs.send_message url (format.dump message))

  unfoldable pub receive : ℕ → Option ℕ → Exec (Adapter Q) (List ReceivedMessage)
  receive max_messages wait_time_seconds = do
    items ← request (λ url.
        sqs.receive_message url max_messages (wait_or wait_time_seconds config.wait_time_seconds))
    lift (read_items format items)

  unfoldable pub delete : String → Exec (Adapter Q) Unit
  delete receipt_handle = request (λ url. sqs.delete_message url receipt_handle)

  unfoldable pub change_visibility : String → ℕ → Exec (Adapter Q) Unit
  change_visibility receipt_handle timeout_seconds =
      request (λ url. sqs.change_message_visibility url receipt_handle timeout_seconds)

  unfoldable pub sqs_adapter : MessageQueue (Adapter Q)
  sqs_adapter = record {
    ensure_queues = ensure_queues;
    send = send;
    receive = receive;
    delete = delete;
    change_visibility = change_visibility;
  }
