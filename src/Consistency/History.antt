-- ===== src/Consistency/History.antt =====
-- Histories of the whole system: requests, polls, rounds of the worker, and snapshots that expire.
use git_hub_repository_resea.Base.{String, ◌≡◌, ◌⊎◌, Option, none, some, arith}
use git_hub_repository_resea.Exec.Hoare.{Keeps, keeps_rules}
use git_hub_repository_resea.Schema.{ResearchRequest, ResearchJobStateSnapshot, ResearchReport}
use git_hub_repository_resea.Ports.{IsStateCache}
use git_hub_repository_resea.Database.{IsDatabase}
use git_hub_repository_resea.Crud.Laws.{get_report_by_id-KeepsReports}
use git_hub_repository_resea.Orchestration.{submit}
use git_hub_repository_resea.Worker.{poll_once}
use git_hub_repository_resea.Router.{load_report, from_report, status_from, poll_status}
use git_hub_repository_resea.World.{World, Services}
use git_hub_repository_resea.Consistency.{Consistent}
use git_hub_repository_resea.Consistency.Rules.{Consistent-get_state, Consistent-on_db}
use git_hub_repository_resea.Consistency.Submit.{submit-Safe}
use git_hub_repository_resea.Consistency.Worker.{poll_once-Safe}

module _ {D C Q N : Type 0} (sv : Services D C Q N)
    (state : C → String → Option ResearchJobStateSnapshot) where
  -- `expire` is the time to live of snapshots: some of them are gone, the others are as before.
  pub data Step (w : World D C Q N) : World D C Q N → Type 0 where
    request : (r : ResearchRequest) → Step w (submit sv r w).1
    poll : (job_id : String) → Step w (poll_status sv job_id w).1
    work : Step w (poll_once sv w).1
    expire :
        (c : C)
        → ((j : String) → (state c j ≡ state w.cache j) ⊎ (state c j ≡ none))
        → Step w (record w { cache = c })

  pub data Reach (w : World D C Q N) : World D C Q N → Type 0 where
    here : Reach w w
    next : {u v : World D C Q N} → Reach w u → Step u v → Reach w v

module _ {D C Q N : Type 0} (sv : Services D C Q N)
    (state : C → String → Option ResearchJobStateSnapshot) (L : IsStateCache sv.cache state)
    (B : IsDatabase sv.db) where
  load_report-Safe : (j : String) → Keeps (Consistent sv state) (load_report sv j)
  unfolding load_report
  load_report-Safe j = search (keeps_rules, Consistent-on_db, get_report_by_id-KeepsReports B)

  from_report-Safe :
      (j : String) (o : Option ResearchReport) → Keeps (Consistent sv state) (from_report sv j o)
  unfolding from_report
  from_report-Safe j none = search keeps_rules
  from_report-Safe j (some report) = search keeps_rules

  status_from-Safe :
      (j : String) (o : Option ResearchJobStateSnapshot)
      → Keeps (Consistent sv state) (status_from sv j o)
  unfolding status_from
  status_from-Safe j none = search (keeps_rules, load_report-Safe, from_report-Safe)
  status_from-Safe j (some s) = search (keeps_rules, load_report-Safe) depth 8

  poll_status-Safe : (j : String) → Keeps (Consistent sv state) (poll_status sv j)
  unfolding poll_status
  poll_status-Safe j = search (keeps_rules, Consistent-get_state sv state L, status_from-Safe)

  -- Nothing that the system does leaves a completed snapshot without its report.
  Step-Consistent :
      {u v : World D C Q N} → Step sv state u v → Consistent sv state u → Consistent sv state v
  Step-Consistent {u} (request r) h = (submit-Safe sv state L B r).at u h
  Step-Consistent {u} (poll j) h = (poll_status-Safe j).at u h
  Step-Consistent {u} work h = (poll_once-Safe sv state L B).at u h
  Step-Consistent {u} (expire c gone) h = record {
    at = λ j s e done. ground (arith, gone j, h.at j s);
  }

  -- From a world in which every completed snapshot has its report, every history of requests, polls,
  -- rounds of the worker and expiring snapshots, whichever calls raise on the way, leads to such a
  -- world again.
  pub Reach-Consistent :
      {u v : World D C Q N} → Reach sv state u v → Consistent sv state u → Consistent sv state v
  Reach-Consistent here h = h
  Reach-Consistent (next r st) h = Step-Consistent st (Reach-Consistent r h)
