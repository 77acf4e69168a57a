-- ===== src/Crud.antt =====
-- app/research/crud/crud_research.py, over any database.
pub mod Laws
pub mod Effects
use git_hub_repository_resea.Base.{String, Bool, Option, none, some}
use git_hub_repository_resea.Errors.{other}
use git_hub_repository_resea.Exec.{Exec, pure, throw, gets, modify, ◌>>=◌, ◌>>◌}
use git_hub_repository_resea.Schema.{JobStatus, InstantMetadata}
use git_hub_repository_resea.Database.{Database, ResearchJobRecord, FinalResearchReportRecord}

-- The keyword arguments of `update_job_status`; `none` is `_UNSET`.
pub record JobUpdate : Type 0 where
  pub status : Option JobStatus
  pub commit_sha : Option (Option String)
  pub instant_data : Option (Option InstantMetadata)
  pub progress_msg : Option String
  pub error : Option (Option String)
  pub ai_cache_key : Option (Option String)

abbrev pub unset : JobUpdate
unset = record {
  status = none;
  commit_sha = none;
  instant_data = none;
  progress_msg = none;
  error = none;
  ai_cache_key = none;
}

abbrev pub assigned {ℓ} : {A : Type ℓ} → Option A → A → A
assigned none old = old
assigned (some new) old = new

unfoldable pub apply_update : JobUpdate → ResearchJobRecord → ResearchJobRecord
apply_update u r = record r {
  status = assigned u.status r.status;
  commit_sha = assigned u.commit_sha r.commit_sha;
  instant_data = assigned u.instant_data r.instant_data;
  progress_msg = assigned u.progress_msg r.progress_msg;
  error = assigned u.error r.error;
  ai_cache_key = assigned u.ai_cache_key r.ai_cache_key;
}

module _ {D : Type 0} (db : Database D) where
  -- the unique key of the table
  unfoldable pub insert_job : Option ResearchJobRecord → ResearchJobRecord → Exec D Unit
  insert_job none r = modify (db.put_job r)
  insert_job (some old) r = throw (other "duplicate key value violates unique constraint")

  -- add, commit, refresh
  unfoldable pub create_job_record : ResearchJobRecord → Exec D ResearchJobRecord
  create_job_record r = do
    db.attempt
    old ← gets (λ d. db.jobs d r.job_id)
    insert_job old r
    db.attempt
    pure r

  unfoldable pub get_job_by_id : String → Exec D (Option ResearchJobRecord)
  get_job_by_id job_id = do db.attempt; gets (λ d. db.jobs d job_id)

  unfoldable pub get_report_by_id : String → Exec D (Option FinalResearchReportRecord)
  get_report_by_id job_id = do db.attempt; gets (λ d. db.reports d job_id)

  -- commit and refresh of a row that was found
  unfoldable pub save_update :
      JobUpdate → Option ResearchJobRecord → Exec D (Option ResearchJobRecord)
  save_update u none = pure none
  save_update u (some r) = do
    db.attempt
    modify (db.put_job (apply_update u r))
    db.attempt
    pure (some (apply_update u r))

  unfoldable pub update_job_status : String → JobUpdate → Exec D (Option ResearchJobRecord)
  update_job_status job_id u = do found ← get_job_by_id job_id; save_update u found

  -- A new row takes its creation time from the default, an old one keeps it.
  abbrev row_of :
      Option FinalResearchReportRecord → FinalResearchReportRecord → D → FinalResearchReportRecord
  row_of none r d = record r { created_time = db.stamp d }
  row_of (some old) r d = record r { created_time = old.created_time }

  unfoldable pub save_final_report : FinalResearchReportRecord → Exec D FinalResearchReportRecord
  save_final_report r = do
    old ← get_report_by_id r.job_id
    row ← gets (row_of old r)
    db.attempt
    modify (db.put_report row)
    db.attempt
    pure row
