-- ===== src/Router/Polling.antt =====
-- What a client sees of a job through GET /api/v1/research/jobs/{job_id}.
use git_hub_repository_resea.Base.{
  String, ◌≡◌, refl, ap, ◌∙◌, Bool, true, false, not, ◌==◌, Bool-cases, inl, inr, Option, none,
  some, is_some, arith, if◌then◌else◌,
}
use git_hub_repository_resea.Exec.{ok, ◌>>=◌}
use git_hub_repository_resea.Exec.Hoare.{bind_ok}
use git_hub_repository_resea.Schema.{
  ResearchJobStateSnapshot, PollingStatusResponse, ResearchReport, completed, is_completed,
}
use git_hub_repository_resea.Ports.{IsStateCache}
use git_hub_repository_resea.Database.{IsDatabase}
use git_hub_repository_resea.Crud.{get_report_by_id}
use git_hub_repository_resea.Pipeline.{is_fallback}
use git_hub_repository_resea.Router.{
  report_in, polling_status, load_report, from_report, status_from, poll_status,
}
use git_hub_repository_resea.World.{World, Services, on_db, on_cache}
use git_hub_repository_resea.Consistency.{Consistent}

module _ {D C Q N : Type 0} (sv : Services D C Q N)
    (state : C → String → Option ResearchJobStateSnapshot) (L : IsStateCache sv.cache state)
    (B : IsDatabase sv.db) where
  load_report_ok :
      (j : String) (w : World D C Q N) {o : Option ResearchReport}
      → (load_report sv j w).0 ≡ ok o
      → o ≡ report_in (sv.db.reports w.db j)
  unfolding load_report get_report_by_id on_db ◌>>=◌
  load_report_ok j w returned = ground (arith, B.reports-attempt w.db j)

  -- the fields of a snapshot, and a report
  abbrev pub shown : ResearchJobStateSnapshot → Option ResearchReport → PollingStatusResponse
  shown s report = record {
    job_id = s.job_id;
    status = s.status;
    progress_msg = s.progress_msg;
    updated_at = s.updated_at;
    instant_data = s.instant_data;
    report = report;
    ai_fallback = s.ai_fallback;
    ai_fallback_reason = s.ai_fallback_reason;
    error = s.error;
  }

  -- a fallback has a reason that is not empty
  abbrev pub has_reason : Option String → Bool
  has_reason none = false
  has_reason (some reason) = not (reason == "")

  -- a stored report without a snapshot
  abbrev pub shown_report : String → ResearchReport → PollingStatusResponse
  shown_report j report = record {
    job_id = j;
    status = completed;
    progress_msg = "Research completed";
    updated_at = report.created_at;
    instant_data = some report.deterministic_data;
    report = some report;
    ai_fallback = some (has_reason report.ai_fallback_reason);
    ai_fallback_reason = report.ai_fallback_reason;
    error = none;
  }

  has_reason_lem : (reason : Option String) → is_fallback reason ≡ has_reason reason
  unfolding is_fallback
  has_reason_lem none = refl
  has_reason_lem (some reason) = ground arith

  -- what a poll answers for each snapshot that it finds
  abbrev pub answer :
      String
      → Option ResearchJobStateSnapshot
      → Option ResearchReport
      → Option PollingStatusResponse
  answer j none none = none
  answer j none (some report) = some (shown_report j report)
  answer j (some s) report =
      if is_completed s.status then some (shown s report) else some (shown s none)

  from_report_ok :
      (j : String) (report : Option ResearchReport) (w : World D C Q N) {p : PollingStatusResponse}
      → (from_report sv j report w).0 ≡ ok p
      → some p ≡ answer j none report
  unfolding from_report
  from_report_ok j none w returned = cc returned
  from_report_ok j (some report) w returned =
      let e = has_reason_lem report.ai_fallback_reason in cc (returned, e)

  status_from_done :
      (j : String) (s : ResearchJobStateSnapshot) (w : World D C Q N) {p : PollingStatusResponse}
      → (status_from sv j (some s) w).0 ≡ ok p
      → is_completed s.status ≡ true
      → p ≡ polling_status s (report_in (sv.db.reports w.db j))
  unfolding status_from
  status_from_done j s w returned done =
      let (report, loaded, rest, _) = bind_ok (load_report sv j) _ w (rw done at returned) in
      let e = load_report_ok j w loaded in ground arith

  status_from_ok :
      (j : String) (o : Option ResearchJobStateSnapshot) (w : World D C Q N)
      {p : PollingStatusResponse}
      → (status_from sv j o w).0 ≡ ok p
      → some p ≡ answer j o (report_in (sv.db.reports w.db j))
  unfolding status_from
  status_from_ok j none w returned =
      let (report, loaded, rest, _) = bind_ok (load_report sv j) _ w returned in
      from_report_ok j report _ rest ∙ ap (answer j none) (load_report_ok j w loaded)
  status_from_ok j (some s) w returned = elim (Bool-cases (is_completed s.status)) [
    | inl done ↦ rw done (ap some (status_from_done j s w returned done))
    | inr open_job ↦ ground arith
  ]

  -- A poll that returns shows every field of the snapshot where there is one, with the stored report
  -- when the job is completed and none otherwise; where the snapshot is gone, there is a stored
  -- report, and it shows the job completed at the time of the report, with the report's metadata and
  -- its reason of a fallback, if any.
  pub poll_status_ok :
      (j : String) (w : World D C Q N) {p : PollingStatusResponse}
      → (poll_status sv j w).0 ≡ ok p
      → some p ≡ answer j (state w.cache j) (report_in (sv.db.reports w.db j))
  unfolding poll_status on_cache
  poll_status_ok j w returned =
      let (o, found, rest, _) = bind_ok (on_cache (sv.cache.get_state j)) _ w returned in
      let e = L.get_state_ok j w.cache found in let e' = status_from_ok j o _ rest in ground arith

  answer-completed :
      (j : String) (w : World D C Q N) (o : Option ResearchJobStateSnapshot)
      {p : PollingStatusResponse}
      → Consistent sv state w
      → state w.cache j ≡ o
      → some p ≡ answer j o (report_in (sv.db.reports w.db j))
      → is_completed p.status ≡ true
      → (is_some p.report ≡ true) × (p.report ≡ report_in (sv.db.reports w.db j))
  answer-completed j w none h e answered done = ground arith
  answer-completed j w (some s) h e answered done = ground (arith, h.at j s e)

  -- In a world where every completed snapshot has its report, a poll that shows the job completed
  -- shows its report too, and it is the stored one.
  pub poll_status-completed :
      (j : String) (w : World D C Q N) {p : PollingStatusResponse}
      → Consistent sv state w
      → (poll_status sv j w).0 ≡ ok p
      → is_completed p.status ≡ true
      → (is_some p.report ≡ true) × (p.report ≡ report_in (sv.db.reports w.db j))
  poll_status-completed j w h returned done =
      answer-completed j w (state w.cache j) h refl (poll_status_ok j w returned) done
