-- ===== src/Consistency.antt =====
-- What the parts keep together: a job that a poll can see completed has its report stored.
-- The services keep it through every statement, whichever call raises.
pub mod Rules
pub mod Pipeline
pub mod Submit
pub mod Worker
pub mod History
use git_hub_repository_resea.Base.{String, ◌≡◌, Bool, true, Option, some}
use git_hub_repository_resea.Schema.{ResearchJobStateSnapshot, is_completed}
use git_hub_repository_resea.Crud.Laws.{HasReport}
use git_hub_repository_resea.World.{World, Services}

-- `state` is the view of the snapshots in the cache.
pub record Consistent {D C Q N : Type 0} (sv : Services D C Q N)
    (state : C → String → Option ResearchJobStateSnapshot) (w : World D C Q N) : Type 0 where
  pub at :
      (j : String) (s : ResearchJobStateSnapshot)
      → state w.cache j ≡ some s
      → is_completed s.status ≡ true
      → HasReport sv.db j w.db
