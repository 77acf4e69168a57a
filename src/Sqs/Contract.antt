-- ===== src/Sqs/Contract.antt =====
-- The operations of the adapter over an SQS service.
use git_hub_repository_resea.Base.{
  ℕ, ◌≤◌, String, ◌≡◌, refl, ◌∙◌, sym, ap, subst, Option, none, some, List, [], ◌∷◌, arith,
}
use git_hub_repository_resea.Exec.{Exec, ok, gets, try_finally, ◌>>=◌}
use git_hub_repository_resea.Exec.Hoare.{bind_ok, and_then_ok}
use git_hub_repository_resea.Schema.{ReceivedMessage, ResearchJobMessage}
use git_hub_repository_resea.Sqs.{
  Adapter, Config, Item, MessageFormat, Sqs, on_service, read_items, received_of, send, receive,
  request, with_client, wait_or, ensure_queues, declare_queues, attributes_for, QueueAttributes,
}

-- a count of deliveries that may be missing
abbrev pub IsCount : Option ℕ → ℕ → Type 0
IsCount none n = n ≡ 1
IsCount (some c) n = (n ≡ c) × (1 ≤ c)

-- each message is read from its item, in the order of the items
abbrev pub IsReading : MessageFormat → List Item → List ReceivedMessage → Type 0
IsReading format [] [] = Unit
IsReading format (item ∷ items) (received ∷ l) =
    (format.load item.body ≡ ok received.body)
    × (received.receipt_handle ≡ item.receipt_handle)
    × IsCount item.approximate_receive_count received.receive_count
    × IsReading format items l
IsReading format _ _ = ⊥

received_of_ok :
    (item : Item) (message : ResearchJobMessage) {r : ReceivedMessage}
    → received_of item message ≡ ok r
    → (r.body ≡ message)
      × (r.receipt_handle ≡ item.receipt_handle)
      × IsCount item.approximate_receive_count r.receive_count
unfolding received_of
received_of_ok item message {r} h = by_count item.approximate_receive_count refl
  where
    by_count :
        (c : Option ℕ)
        → item.approximate_receive_count ≡ c
        → (r.body ≡ message) × (r.receipt_handle ≡ item.receipt_handle) × IsCount c r.receive_count
    by_count none e = ground arith
    by_count (some n) e = ground arith

read_items-IsReading :
    (format : MessageFormat) (items : List Item) {l : List ReceivedMessage}
    → read_items format items ≡ ok l
    → IsReading format items l
unfolding read_items
read_items-IsReading format [] {l} h = subst (IsReading format []) {x = []} {y = l} (cc h) tt
read_items-IsReading format (item ∷ items) {l} h =
    let (message, loaded, h1) = and_then_ok (format.load item.body) _ h in
    let (received, made, h2) = and_then_ok (received_of item message) _ h1 in
    let (rest, others, h3) = and_then_ok (read_items format items) _ h2 in
    let (body, handle, count) = received_of_ok item message made in
    subst (IsReading format (item ∷ items)) {x = received ∷ rest} {y = l} (cc h3)
      (loaded ∙ ap ok (sym body), handle, count, read_items-IsReading format items others)

module _ {Q : Type 0} (sqs : Sqs Q) (format : MessageFormat) (config : Config) where
  -- The service gives a queue's URL for its name.
  pub record HasUrls (url_of : String → String) : Type 0 where
    pub created :
        (name : String) (attributes : Option QueueAttributes) (q : Q) {url : String}
        → (sqs.create_queue name attributes q).0 ≡ ok url
        → url ≡ url_of name

  -- a `with` block that returns: its body has returned, and closing changes no URL
  with_client_ok :
      {A : Type 0} (m : Exec (Adapter Q) A) (a : Adapter Q) {v : A}
      → (with_client sqs format config m a).0 ≡ ok v
      → (b : Adapter Q) × ((m b).0 ≡ ok v)
        × ((with_client sqs format config m a).1.queue_url ≡ (m b).1.queue_url)
        × ((with_client sqs format config m a).1.dlq_url ≡ (m b).1.dlq_url)
  unfolding with_client try_finally on_service ◌>>=◌
  with_client_ok m a returned = (
    record a { service = (sqs.open_client a.service).1 },
    ground arith,
    ground arith,
    ground arith,
  )

  declare_queues_ok :
      (url_of : String → String)
      → HasUrls url_of
      → (a : Adapter Q) → (declare_queues sqs format config a).0 ≡ ok tt
      → ((declare_queues sqs format config a).1.queue_url ≡ url_of config.queue_name)
        × ((declare_queues sqs format config a).1.dlq_url ≡ url_of config.dlq_name)
  unfolding declare_queues on_service ◌>>=◌
  declare_queues_ok url_of H a returned =
      let (dlq_url, made, rest, same) =
        bind_ok (on_service sqs format config (sqs.create_queue config.dlq_name none)) _ a
          returned in
      let (dlq_arn, _, rest', same') =
        bind_ok (on_service sqs format config (sqs.queue_arn dlq_url)) _ _ rest in
      let (queue_url, made', _, same'') =
        bind_ok
          (on_service sqs format config
            (sqs.create_queue config.queue_name (some (attributes_for sqs format config dlq_arn))))
          _ _ rest' in
      let all = same ∙ same' ∙ same'' in
      (
        ap (λ (b : Adapter Q). b.queue_url) all ∙ H.created config.queue_name _ _ made',
        ap (λ (b : Adapter Q). b.dlq_url) all ∙ H.created config.dlq_name none a.service made,
      )

  -- When `ensure_queues` returns, the adapter holds the URL of its queue and that of its dead-letter
  -- queue, whichever URLs it was given.
  pub ensure_queues_lem :
      (url_of : String → String)
      → HasUrls url_of
      → (a : Adapter Q) → (ensure_queues sqs format config a).0 ≡ ok tt
      → ((ensure_queues sqs format config a).1.queue_url ≡ url_of config.queue_name)
        × ((ensure_queues sqs format config a).1.dlq_url ≡ url_of config.dlq_name)
  unfolding ensure_queues
  ensure_queues_lem url_of H a returned =
      let (b, done, queue, dlq) = with_client_ok _ a returned in
      let urls = declare_queues_ok url_of H b done in (queue ∙ urls.0, dlq ∙ urls.1)

  -- the service as a request finds it: the queues are ensured and a client is open
  abbrev pub ready : Adapter Q → Q
  ready a = (sqs.open_client (ensure_queues sqs format config a).1.service).1

  with_url_ok :
      {A : Type 0} (call : String → Exec Q A) (b : Adapter Q) {v : A}
      → (with_client sqs format config
          (gets (λ (c : Adapter Q). c.queue_url) >>= λ url. on_service sqs format config (call url))
          b).0
        ≡ ok v
      → (call b.queue_url (sqs.open_client b.service).1).0 ≡ ok v
  unfolding with_client try_finally on_service ◌>>=◌
  with_url_ok call b returned = ground arith

  service-with_url :
      {A : Type 0} (call : String → Exec Q A) (b : Adapter Q) {v : A}
      → (with_client sqs format config
          (gets (λ (c : Adapter Q). c.queue_url) >>= λ url. on_service sqs format config (call url))
          b).0
        ≡ ok v
      → (with_client sqs format config
          (gets (λ (c : Adapter Q). c.queue_url) >>= λ url. on_service sqs format config (call url))
          b).1.service
        ≡ (sqs.close_client (call b.queue_url (sqs.open_client b.service).1).1).1
  unfolding with_client try_finally on_service ◌>>=◌
  service-with_url call b returned = ground arith

  -- a request that returns has called the service with the URL of the queue, and nothing behind it
  request_ok :
      (url_of : String → String)
      → HasUrls url_of
      → {A : Type 0} (call : String → Exec Q A) (a : Adapter Q) {v : A}
      → (request sqs format config call a).0 ≡ ok v
      → ((call (url_of config.queue_name) (ready a)).0 ≡ ok v)
        × ((request sqs format config call a).1.service
            ≡ (sqs.close_client (call (url_of config.queue_name) (ready a)).1).1)
  unfolding request
  request_ok url_of H call a {v} returned =
      let (u, ensured, rest, same) = bind_ok (ensure_queues sqs format config) _ a returned in
      let b = (ensure_queues sqs format config a).1 in
      let (url, _) = ensure_queues_lem url_of H a ensured in
      (
        subst (λ s. (call s (ready a)).0 ≡ ok v) url (with_url_ok call b rest),
        ap (λ (c : Adapter Q). c.service) same
            ∙ service-with_url call b rest
            ∙ ap (λ s. (sqs.close_client (call s (ready a)).1).1) url,
      )

  -- When `send` returns, whichever URL the adapter was given, the service has taken the JSON of the
  -- message on the queue of the configured name, behind `ensure_queues` and with a new client, which
  -- is then closed.
  pub send-IsSent :
      (url_of : String → String)
      → HasUrls url_of
      → (message : ResearchJobMessage) (a : Adapter Q)
      → (send sqs format config message a).0 ≡ ok tt
      → ((sqs.send_message (url_of config.queue_name) (format.dump message) (ready a)).0 ≡ ok tt)
        × ((send sqs format config message a).1.service
            ≡ (sqs.close_client
                (sqs.send_message (url_of config.queue_name) (format.dump message) (ready a)).1).1)
  unfolding send
  send-IsSent url_of H message a returned =
      request_ok url_of H (λ url. sqs.send_message url (format.dump message)) a returned

  -- the time that a request waits: the given one, or the configured one
  abbrev pub waits : Option ℕ → ℕ
  waits none = config.wait_time_seconds
  waits (some n) = n

  -- When `receive` returns, the service has answered a request to the queue of the configured name,
  -- for the given number of messages and the given or configured wait, and the messages that are
  -- returned are its items in their order: each body read as JSON, each with its receipt and with its
  -- count of deliveries, which is at least 1, and is 1 where the item has none.
  pub receive-IsReading :
      (url_of : String → String)
      → HasUrls url_of
      → (max_messages : ℕ) (wait : Option ℕ) (a : Adapter Q) {l : List ReceivedMessage}
      → (receive sqs format config max_messages wait a).0 ≡ ok l
      → (items : List Item) × ((sqs.receive_message
            (url_of config.queue_name)
            max_messages
            (waits wait)
            (ready a)).0
          ≡ ok items)
        × IsReading format items l
  unfolding receive
  receive-IsReading url_of H max_messages wait a returned =
      let call : String → Exec Q (List Item) =
        λ url. sqs.receive_message url max_messages (wait_or wait config.wait_time_seconds) in
      let (items, answered, rest, _) = bind_ok (request sqs format config call) _ a returned in
      let (given, _) = request_ok url_of H call a answered in
      (items, at_wait wait given, read_items-IsReading format items rest)
    where
      at_wait :
          (o : Option ℕ) {items : List Item}
          → (sqs.receive_message
              (url_of config.queue_name)
              max_messages
              (wait_or o config.wait_time_seconds)
              (ready a)).0
            ≡ ok items
          → (sqs.receive_message (url_of config.queue_name) max_messages (waits o) (ready a)).0
            ≡ ok items
      at_wait none h = h
      at_wait (some n) h = h
