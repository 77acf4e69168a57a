-- ===== src/Crud/Effects.antt =====
-- What the operations of crud_research.py do to the tables when they return, and what at most when
-- they raise.
use git_hub_repository_resea.Base.{
  String, ◌≡◌, refl, sym, subst, Option, none, some, ◌==◌, eq_iff, arith, if◌then◌else◌,
}
use git_hub_repository_resea.Exec.{ok, ◌>>=◌}
use git_hub_repository_resea.Database.{
  Database, IsDatabase, ResearchJobRecord, FinalResearchReportRecord,
}
use git_hub_repository_resea.Crud.{
  JobUpdate, assigned, apply_update, insert_job, create_job_record, get_job_by_id, get_report_by_id,
  save_update, update_job_status, row_of, save_final_report,
}

-- the row that an update leaves, if there is one
abbrev pub updated : JobUpdate → Option ResearchJobRecord → Option ResearchJobRecord
updated u none = none
updated u (some r) = some (apply_update u r)

-- An update assigns the given columns and keeps the key.
job_id-apply_update : (u : JobUpdate) (r : ResearchJobRecord) → (apply_update u r).job_id ≡ r.job_id
unfolding apply_update
job_id-apply_update u r = ground arith

-- a column behind an update: the given value, or the old one
abbrev pub column : {A : Type 0} → Option A → A → A
column none old = old
column (some given) old = given

-- the columns of a row behind an update
abbrev pub IsUpdate : JobUpdate → Option ResearchJobRecord → Option ResearchJobRecord → Type 0
IsUpdate u none o = o ≡ none
IsUpdate u (some r) o =
    o
    ≡ some (record {
      job_id = r.job_id;
      repository_url = r.repository_url;
      owner = r.owner;
      repo = r.repo;
      status = column u.status r.status;
      commit_sha = column u.commit_sha r.commit_sha;
      instant_data = column u.instant_data r.instant_data;
      progress_msg = column u.progress_msg r.progress_msg;
      error = column u.error r.error;
      ai_cache_key = column u.ai_cache_key r.ai_cache_key;
    })

column_lem : {A : Type 0} (o : Option A) (old : A) → assigned o old ≡ column o old
column_lem none old = refl
column_lem (some given) old = refl

updated-IsUpdate : (u : JobUpdate) (o : Option ResearchJobRecord) → IsUpdate u o (updated u o)
unfolding apply_update
updated-IsUpdate u none = refl
updated-IsUpdate u (some r) =
    rw
      (
        column_lem u.status r.status,
        column_lem u.commit_sha r.commit_sha,
        column_lem u.instant_data r.instant_data,
        column_lem u.progress_msg r.progress_msg,
        column_lem u.error r.error,
        column_lem u.ai_cache_key r.ai_cache_key,
      )
      refl

module _ {D : Type 0} {db : Database D} (L : IsDatabase db) where
  jobs-save_update :
      (u : JobUpdate) (o : Option ResearchJobRecord) (j : String) (d : D) (k : String)
      {o' : Option ResearchJobRecord}
      → db.jobs d j ≡ o
      → (save_update db u o d).0 ≡ ok o'
      → (o' ≡ updated u o)
        × (db.jobs (save_update db u o d).1 k ≡ (if j == k then o' else db.jobs d k))
  unfolding save_update ◌>>=◌
  jobs-save_update u none j d k found returned = ground (arith, eq_iff j k)
  jobs-save_update u (some r) j d k found returned =
      let d1 = (db.attempt d).1 in
      let d2 = db.put_job (apply_update u r) d1 in
      ground (
        arith,
        eq_iff j k,
        L.job_key d j found,
        L.jobs-attempt d k,
        L.jobs-put_job (apply_update u r) d1 k,
        L.jobs-attempt d2 k,
        job_id-apply_update u r,
      )

  -- When `update_job_status` returns, it returns the updated row, or `None` where there is no row;
  -- that row is stored, and every other row is as before.
  pub jobs-update_job_status :
      (job_id : String) (u : JobUpdate) (d : D) (k : String) {o : Option ResearchJobRecord}
      → (update_job_status db job_id u d).0 ≡ ok o
      → (o ≡ updated u (db.jobs d job_id))
        × (db.jobs (update_job_status db job_id u d).1 k ≡ (if job_id == k then o else db.jobs d k))
  unfolding update_job_status get_job_by_id ◌>>=◌
  jobs-update_job_status job_id u d k {o} returned =
      let d1 = (db.attempt d).1 in
      ground (
        arith,
        L.jobs-attempt d k,
        L.jobs-attempt d job_id,
        jobs-save_update u (db.jobs d1 job_id) job_id d1 k {o' = o} refl,
      )

  -- When `update_job_status` returns for a job without a row, it returns `None` and the tables have
  -- no row of it. For a job with a row, each column that was given has the given value, each other
  -- one its old value, and the row is returned and stored; the rows of other jobs are as before.
  pub update_job_status-IsUpdate :
      (job_id : String) (u : JobUpdate) (d : D) (k : String) {o : Option ResearchJobRecord}
      → (update_job_status db job_id u d).0 ≡ ok o
      → IsUpdate u (db.jobs d job_id) o
        × (db.jobs (update_job_status db job_id u d).1 k ≡ (if job_id == k then o else db.jobs d k))
  update_job_status-IsUpdate job_id u d k returned =
      let (same, stored) = jobs-update_job_status job_id u d k returned in
      (
        subst (IsUpdate u (db.jobs d job_id)) (sym same) (updated-IsUpdate u (db.jobs d job_id)),
        stored,
      )

  -- When `save_final_report` returns, the row that it returns is stored under its job and every
  -- other report is as before; the row has the given fields, and the creation time of the row that
  -- it replaces.
  pub reports-save_final_report :
      (r : FinalResearchReportRecord) (d : D) (k : String) {row : FinalResearchReportRecord}
      → (save_final_report db r d).0 ≡ ok row
      → (db.reports (save_final_report db r d).1 k
          ≡ (if r.job_id == k then some row else db.reports d k))
        × (row ≡ record r { created_time = row.created_time })
        × ((old : FinalResearchReportRecord)
            → db.reports d r.job_id ≡ some old
            → row.created_time ≡ old.created_time)
  unfolding save_final_report get_report_by_id ◌>>=◌
  reports-save_final_report r d k {row} returned =
      let d1 = (db.attempt d).1 in
      let d2 = (db.attempt d1).1 in
      let d3 = db.put_report row d2 in
      ground (
        arith,
        eq_iff r.job_id k,
        L.reports-attempt d k,
        L.reports-attempt d r.job_id,
        L.reports-attempt d1 k,
        L.reports-put_report row d2 k,
        L.reports-attempt d3 k,
      )

  -- `create_job_record` returns only for a new key; then the given row is stored, and every other
  -- row is as before.
  pub jobs-create_job_record :
      (r : ResearchJobRecord) (d : D) (k : String) {r' : ResearchJobRecord}
      → (create_job_record db r d).0 ≡ ok r'
      → (r' ≡ r)
        × (db.jobs d r.job_id ≡ none)
        × (db.jobs (create_job_record db r d).1 k ≡ (if r.job_id == k then some r else db.jobs d k))
  unfolding create_job_record insert_job ◌>>=◌
  jobs-create_job_record r d k returned =
      let d1 = (db.attempt d).1 in
      let d2 = db.put_job r d1 in
      ground (
        arith,
        eq_iff r.job_id k,
        L.jobs-attempt d k,
        L.jobs-attempt d r.job_id,
        L.jobs-put_job r d1 k,
        L.jobs-attempt d2 k,
      )

  reports-save_update :
      (u : JobUpdate) (o : Option ResearchJobRecord) (d : D) (k : String)
      → db.reports (save_update db u o d).1 k ≡ db.reports d k
  unfolding save_update ◌>>=◌
  reports-save_update u none d k = refl
  reports-save_update u (some r) d k =
      let d1 = (db.attempt d).1 in
      let d2 = db.put_job (apply_update u r) d1 in
      ground (
        arith,
        L.reports-attempt d k,
        L.reports-put_job (apply_update u r) d1 k,
        L.reports-attempt d2 k,
      )

  -- `update_job_status` writes no report, whether it returns or raises.
  pub reports-update_job_status :
      (job_id : String) (u : JobUpdate) (d : D) (k : String)
      → db.reports (update_job_status db job_id u d).1 k ≡ db.reports d k
  unfolding update_job_status get_job_by_id ◌>>=◌
  reports-update_job_status job_id u d k =
      let d1 = (db.attempt d).1 in
      ground (arith, L.reports-attempt d k, reports-save_update u (db.jobs d1 job_id) d1 k)

  pub jobs-save_final_report :
      (r : FinalResearchReportRecord) (d : D) (k : String)
      → db.jobs (save_final_report db r d).1 k ≡ db.jobs d k
  unfolding save_final_report get_report_by_id ◌>>=◌
  jobs-save_final_report r d k =
      let d1 = (db.attempt d).1 in
      let d2 = (db.attempt d1).1 in
      let row = row_of db (db.reports d1 r.job_id) r d1 in
      let d3 = db.put_report row d2 in
      ground (
        arith,
        L.jobs-attempt d k,
        L.jobs-attempt d1 k,
        L.jobs-put_report row d2 k,
        L.jobs-attempt d3 k,
      )
