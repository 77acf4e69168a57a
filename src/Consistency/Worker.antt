-- ===== src/Consistency/Worker.antt =====
-- sqs_worker.py keeps the report behind every completed snapshot.
use git_hub_repository_resea.Base.{ℕ, zero, suc, String, Option, List, [], ◌∷◌}
use git_hub_repository_resea.Errors.{Error}
use git_hub_repository_resea.Exec.{Exec}
use git_hub_repository_resea.Exec.Hoare.{Keeps, keeps_rules}
use git_hub_repository_resea.Schema.{ResearchJobStateSnapshot, ReceivedMessage}
use git_hub_repository_resea.Ports.{IsStateCache}
use git_hub_repository_resea.Database.{IsDatabase}
use git_hub_repository_resea.Crud.Laws.{update_job_status-KeepsReports}
use git_hub_repository_resea.Worker.{
  give_up, on_failure, handle_received, handle_all, poll_once, poll_rounds, run_worker,
}
use git_hub_repository_resea.World.{World, Services}
use git_hub_repository_resea.Consistency.{Consistent}
use git_hub_repository_resea.Consistency.Pipeline.{execute_research_pipeline-Safe}
use git_hub_repository_resea.Consistency.Rules.{
  Consistent-on_queue, Consistent-now, Consistent-on_db, Consistent-set_state,
}

module _ {D C Q N : Type 0} (sv : Services D C Q N)
    (state : C → String → Option ResearchJobStateSnapshot) (L : IsStateCache sv.cache state)
    (B : IsDatabase sv.db) where
  abbrev Safe : {A : Type 0} → Exec (World D C Q N) A → Type 0
  Safe m = Keeps (Consistent sv state) m

  give_up-Safe : (job_id : String) (exc : Error) → Safe (give_up sv job_id exc)
  unfolding give_up
  give_up-Safe job_id exc =
      search
        (
          keeps_rules,
          Consistent-now,
          Consistent-set_state sv state L,
          Consistent-on_db,
          update_job_status-KeepsReports B,
        )
        depth 12

  on_failure-Safe : (received : ReceivedMessage) (exc : Error) → Safe (on_failure sv received exc)
  unfolding on_failure
  on_failure-Safe received exc = search (keeps_rules, Consistent-on_queue, give_up-Safe) depth 12

  handle_received-Safe : (received : ReceivedMessage) → Safe (handle_received sv received)
  unfolding handle_received
  handle_received-Safe received =
      search
        (
          keeps_rules,
          execute_research_pipeline-Safe sv state L B,
          on_failure-Safe,
          Consistent-on_queue,
        )
        depth 12

  handle_all-Safe : (messages : List ReceivedMessage) → Safe (handle_all sv messages)
  unfolding handle_all
  handle_all-Safe [] = search keeps_rules
  handle_all-Safe (received ∷ rest) =
      let tail = handle_all-Safe rest in search (keeps_rules, handle_received-Safe)

  pub poll_once-Safe : Safe (poll_once sv)
  unfolding poll_once
  poll_once-Safe = search (keeps_rules, Consistent-on_queue, handle_all-Safe)

  poll_rounds-Safe : (n : ℕ) → Safe (poll_rounds sv n)
  unfolding poll_rounds
  poll_rounds-Safe zero = search keeps_rules
  poll_rounds-Safe (suc n) = let rest = poll_rounds-Safe n in search (keeps_rules, poll_once-Safe)

  pub run_worker-Safe : (rounds : ℕ) → Safe (run_worker sv rounds)
  unfolding run_worker
  run_worker-Safe rounds = search (keeps_rules, Consistent-on_queue, poll_rounds-Safe)
