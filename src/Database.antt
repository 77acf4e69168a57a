-- ===== src/Database.antt =====
-- The two tables of app/research/model/research.py, and the database behind a session.
-- SQLAlchemy and PostgreSQL are a parameter: a type of states with what is committed in them, and
-- the round trips, each of which may raise. A JSON column holds the model whose dump it stores.
use git_hub_repository_resea.Base.{String, ◌≡◌, Bool, Option, some, ◌==◌, if◌then◌else◌}
use git_hub_repository_resea.Exec.{Exec}
use git_hub_repository_resea.Schema.{DateTime, JobStatus, InstantMetadata, StructuredAiResponse}

pub record ResearchJobRecord : Type 0 where
  pub job_id : String
  pub repository_url : String
  pub owner : String
  pub repo : String
  pub status : JobStatus
  pub commit_sha : Option String
  pub instant_data : Option InstantMetadata
  pub progress_msg : String
  pub error : Option String
  pub ai_cache_key : Option String

pub record FinalResearchReportRecord : Type 0 where
  pub job_id : String
  pub repository_url : String
  pub deterministic_data : InstantMetadata
  pub markdown_report : String
  pub commit_sha : Option String
  pub ai_insights : Option StructuredAiResponse
  pub ai_fallback : Bool
  pub ai_fallback_reason : Option String
  pub created_time : DateTime

-- `attempt` is a round trip: it raises or passes. `jobs` and `reports` give the committed row of a
-- key, `put_job` and `put_report` commit one, and `stamp` is the default of `created_time`.
pub record Database (D : Type 0) : Type 0 where
  pub attempt : Exec D Unit
  pub jobs : D → String → Option ResearchJobRecord
  pub reports : D → String → Option FinalResearchReportRecord
  pub put_job : ResearchJobRecord → D → D
  pub put_report : FinalResearchReportRecord → D → D
  pub stamp : D → DateTime

-- What the program relies on: a query by key gives the row with that key, a commit writes its own
-- row and nothing else, and a round trip by itself writes nothing, whether it raises or not.
pub record IsDatabase {D : Type 0} (db : Database D) : Type 0 where
  pub job_key : (d : D) (j : String) {r : ResearchJobRecord} → db.jobs d j ≡ some r → r.job_id ≡ j
  pub jobs-attempt : (d : D) (j : String) → db.jobs (db.attempt d).1 j ≡ db.jobs d j
  pub reports-attempt : (d : D) (j : String) → db.reports (db.attempt d).1 j ≡ db.reports d j
  pub jobs-put_job :
      (r : ResearchJobRecord) (d : D) (j : String)
      → db.jobs (db.put_job r d) j ≡ (if r.job_id == j then some r else db.jobs d j)
  pub reports-put_job :
      (r : ResearchJobRecord) (d : D) (j : String) → db.reports (db.put_job r d) j ≡ db.reports d j
  pub jobs-put_report :
      (r : FinalResearchReportRecord) (d : D) (j : String)
      → db.jobs (db.put_report r d) j ≡ db.jobs d j
  pub reports-put_report :
      (r : FinalResearchReportRecord) (d : D) (j : String)
      → db.reports (db.put_report r d) j ≡ (if r.job_id == j then some r else db.reports d j)
