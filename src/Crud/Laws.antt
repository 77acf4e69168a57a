-- ===== src/Crud/Laws.antt =====
-- The effect of each operation of crud_research.py on the two tables, on every branch.
use git_hub_repository_resea.Base.{String, ◌≡◌, true, Option, none, some, is_some, arith}
use git_hub_repository_resea.Exec.{Exec, modify}
use git_hub_repository_resea.Exec.Hoare.{Keeps, keeps_rules}
use git_hub_repository_resea.Database.{
  Database, IsDatabase, ResearchJobRecord, FinalResearchReportRecord,
}
use git_hub_repository_resea.Crud.{
  JobUpdate, insert_job, create_job_record, get_job_by_id, get_report_by_id, save_update,
  update_job_status, save_final_report,
}

abbrev pub HasReport : {D : Type 0} → Database D → String → D → Type 0
HasReport db j d = is_some (db.reports d j) ≡ true

-- an operation after which every report is still there
abbrev pub KeepsReports : {D A : Type 0} → Database D → Exec D A → Type 0
KeepsReports db m = (j : String) → Keeps (HasReport db j) m

module _ {D : Type 0} {db : Database D} (L : IsDatabase db) where
  attempt-KeepsReports : KeepsReports db db.attempt
  attempt-KeepsReports j = record { at = λ d h. rw (L.reports-attempt d j) h }

  put_job-KeepsReports : (r : ResearchJobRecord) → KeepsReports db (modify (db.put_job r))
  put_job-KeepsReports r j = record { at = λ d h. rw (L.reports-put_job r d j) h }

  put_report-KeepsReports :
      (r : FinalResearchReportRecord) → KeepsReports db (modify (db.put_report r))
  put_report-KeepsReports r j = record {
    at = λ d h. rw (L.reports-put_report r d j) (ground arith);
  }

  insert_job-KeepsReports :
      (o : Option ResearchJobRecord) (r : ResearchJobRecord) → KeepsReports db (insert_job db o r)
  unfolding insert_job
  insert_job-KeepsReports none r j = put_job-KeepsReports r j
  insert_job-KeepsReports (some old) r j = search keeps_rules

  save_update-KeepsReports :
      (u : JobUpdate) (o : Option ResearchJobRecord) → KeepsReports db (save_update db u o)
  unfolding save_update
  save_update-KeepsReports u none j = search keeps_rules
  save_update-KeepsReports u (some r) j =
      search (keeps_rules, attempt-KeepsReports, put_job-KeepsReports) depth 12

  pub create_job_record-KeepsReports :
      (r : ResearchJobRecord) → KeepsReports db (create_job_record db r)
  unfolding create_job_record
  create_job_record-KeepsReports r j =
      search (keeps_rules, attempt-KeepsReports, insert_job-KeepsReports) depth 12

  pub update_job_status-KeepsReports :
      (job_id : String) (u : JobUpdate) → KeepsReports db (update_job_status db job_id u)
  unfolding update_job_status get_job_by_id
  update_job_status-KeepsReports job_id u j =
      search (keeps_rules, attempt-KeepsReports, save_update-KeepsReports) depth 12

  pub save_final_report-KeepsReports :
      (r : FinalResearchReportRecord) → KeepsReports db (save_final_report db r)
  unfolding save_final_report get_report_by_id
  save_final_report-KeepsReports r j =
      search (keeps_rules, attempt-KeepsReports, put_report-KeepsReports) depth 12

  pub get_report_by_id-KeepsReports :
      (job_id : String) → KeepsReports db (get_report_by_id db job_id)
  unfolding get_report_by_id
  get_report_by_id-KeepsReports job_id j = search (keeps_rules, attempt-KeepsReports)
