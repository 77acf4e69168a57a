-- ===== src/Worker/Redelivery.antt =====
-- What becomes of a message over its deliveries.
use git_hub_repository_resea.Base.{ℕ, zero, suc, ◌<◌, ◌≤◌, ◌≡◌, Option, String}
use git_hub_repository_resea.Errors.{Error, str}
use git_hub_repository_resea.Schema.{ResearchJobStateSnapshot, ReceivedMessage}
use git_hub_repository_resea.Ports.{IsStateCache}
use git_hub_repository_resea.Database.{IsDatabase}
use git_hub_repository_resea.Pipeline.{execute_research_pipeline}
use git_hub_repository_resea.Pipeline.Outcome.{IsSettled}
use git_hub_repository_resea.Worker.{handle_received}
use git_hub_repository_resea.Worker.Delivery.{IsGivenUp}
use git_hub_repository_resea.World.{World, Services}

module _ {D C Q N : Type 0} (sv : Services D C Q N) (received : ReceivedMessage)
    (between : ℕ → World D C Q N → World D C Q N) where
  -- the message as its delivery number `suc n` brings it
  abbrev pub delivery : ℕ → ReceivedMessage
  delivery n = record received { receive_count = suc n }

  -- The world before delivery number `suc n`: whatever happens between two deliveries is a function.
  abbrev pub before_delivery : ℕ → World D C Q N → World D C Q N
  before_delivery zero w = w
  before_delivery (suc n) w = between n (handle_received sv (delivery n) (before_delivery n w)).1

  abbrev pub after_delivery : ℕ → World D C Q N → World D C Q N
  after_delivery n w = (handle_received sv (delivery n) (before_delivery n w)).1

  module _ (state : C → String → Option ResearchJobStateSnapshot) (L : IsStateCache sv.cache state)
      (B : IsDatabase sv.db) where
    -- the world that the pipeline leaves of a delivery
    abbrev ran : ℕ → World D C Q N → World D C Q N
    ran n w = (execute_research_pipeline sv received.body (before_delivery n w)).1

    -- what the queue is asked for a message whose run has failed
    abbrev IsAskedBack : ℕ → World D C Q N → Type 0
    IsAskedBack n w =
        (after_delivery n w).queue
        ≡ (sv.queue.change_visibility received.receipt_handle 0 (ran n w).queue).1

    -- The job is settled and its message deleted; or the message is asked back at once, and before
    -- the last attempt the tables and the cache stay as the run left them, from then on the job is
    -- given up.
    pub data IsDelivered (n : ℕ) (w : World D C Q N) : Type 0 where
      settled :
          IsSettled sv state received.body.job_id (after_delivery n w)
          → (after_delivery n w).queue ≡ (sv.queue.delete received.receipt_handle (ran n w).queue).1
          → IsDelivered n w
      retried :
          suc n < sv.settings.research_max_queue_attempts
          → IsAskedBack n w
          → (after_delivery n w).db ≡ (ran n w).db
          → (after_delivery n w).cache ≡ (ran n w).cache
          → IsDelivered n w
      given_up :
          (e : Error)
          → sv.settings.research_max_queue_attempts ≤ suc n
          → IsAskedBack n w
          → IsGivenUp sv state L B received.body.job_id (str e) (after_delivery n w)
          → IsDelivered n w
