-- ===== src/Orchestration/Outcome.antt =====
-- What an accepted request leaves behind.
use git_hub_repository_resea.Base.{
  String, ◌≡◌, ◌⊎◌, inl, inr, refl, ◌∙◌, sym, ap, subst, false, Option, none, some, eq_refl, arith,
}
use git_hub_repository_resea.Errors.{Error}
use git_hub_repository_resea.Exec.{Exec, Result, ok, raise, handle, lift, try_except, ◌>>=◌}
use git_hub_repository_resea.Exec.Hoare.{bind_ok}
use git_hub_repository_resea.Schema.{
  completed, pending, DateTime, JobAcceptedResponse, ParsedRepoTarget, RepositoryRawContext,
  ResearchJobMessage, ResearchJobStateSnapshot, ResearchRequest, StructuredAiResponse,
}
use git_hub_repository_resea.Ports.{IsStateCache}
use git_hub_repository_resea.Database.{IsDatabase, FinalResearchReportRecord}
use git_hub_repository_resea.Crud.{unset, create_job_record, save_final_report, update_job_status}
use git_hub_repository_resea.Crud.Effects.{
  jobs-create_job_record, reports-save_final_report, reports-update_job_status,
}
use git_hub_repository_resea.Orchestration.{
  accepted, build_ai_cache_key, complete_from_cache, enqueue, enqueue_failed, new_job,
  pending_snapshot, reuse_or_enqueue, submit, report_row,
}
use git_hub_repository_resea.Text.{◌<>◌}
use git_hub_repository_resea.Report.{build_research_report}
use git_hub_repository_resea.UrlValidator.{parse_github_repository_url}
use git_hub_repository_resea.World.{World, Services, on_db, on_cache, on_queue, on_net, now, uuid4}

-- the message of a job
abbrev pub message_for : ResearchRequest → ParsedRepoTarget → String → DateTime → ResearchJobMessage
message_for request target job_id t = record {
  job_id = job_id;
  repo_url = target.canonical_url;
  enqueued_at = t;
  attempt = 1;
  options = request.options;
}

module _ {D C Q N : Type 0} (sv : Services D C Q N)
    (state : C → String → Option ResearchJobStateSnapshot) where
  -- a job whose snapshot and row are those that `submit` writes first
  pub record IsPending (job_id : String) (target : ParsedRepoTarget) (raw : RepositoryRawContext)
      (w : World D C Q N) : Type 0 where
    pub time : DateTime
    pub seen : state w.cache job_id ≡ some (pending_snapshot job_id raw time)
    pub row :
        sv.db.jobs w.db job_id
        ≡ some (
            new_job job_id target raw (target.owner <> "/" <> target.repo <> "@" <> raw.commit_sha))

  -- a job on the queue, which was `q` before
  pub record IsQueued (request : ResearchRequest) (job_id : String) (target : ParsedRepoTarget)
      (raw : RepositoryRawContext) (q : Q) (w : World D C Q N) : Type 0 where
    pub job : IsPending job_id target raw w
    pub sent_at : DateTime
    pub sent : (sv.queue.send (message_for request target job_id sent_at) q).0 ≡ ok tt
    pub queue : w.queue ≡ (sv.queue.send (message_for request target job_id sent_at) q).1

  -- a job that the AI result has completed that the cache, which was `c` before, has for the
  -- repository and the commit
  pub record IsReused (job_id : String) (target : ParsedRepoTarget) (raw : RepositoryRawContext)
      (c : C) (w : World D C Q N) : Type 0 where
    pub snapshot : ResearchJobStateSnapshot
    pub asked_at : DateTime
    pub insights : StructuredAiResponse
    pub found :
        (sv.cache.get_cached_ai_result
          (target.owner <> "/" <> target.repo <> "@" <> raw.commit_sha)
          (sv.cache.set_state (pending_snapshot job_id raw asked_at) c).1).0
        ≡ ok (some insights)
    pub report : FinalResearchReportRecord
    pub seen : state w.cache job_id ≡ some snapshot
    pub done : snapshot.status ≡ completed
    pub stored : sv.db.reports w.db job_id ≡ some report
    pub with_insights : report.ai_insights ≡ some insights
    pub metadata : report.deterministic_data ≡ raw.instant_data
    pub no_fallback : report.ai_fallback ≡ false

  -- what an answer to a request says of the world before and behind it
  pub record IsAccepted (request : ResearchRequest) (resp : JobAcceptedResponse)
      (w w' : World D C Q N) : Type 0 where
    pub target : ParsedRepoTarget
    pub raw : RepositoryRawContext
    pub parsed : parse_github_repository_url sv.hosts request.url ≡ ok target
    pub fetched : (sv.github.fetch_repository_context target w.net).0 ≡ ok raw
    pub unfinished : resp.status ≡ pending
    pub outcome :
        IsQueued request resp.job_id target raw w.queue w'
        ⊎ IsReused resp.job_id target raw w.cache w'

module _ {D C Q N : Type 0} (sv : Services D C Q N)
    (state : C → String → Option ResearchJobStateSnapshot) (L : IsStateCache sv.cache state)
    (B : IsDatabase sv.db) where
  -- the handler of a failed enqueue ends with the exception, or an earlier one
  enqueue_failed_raises :
      (snapshot : ResearchJobStateSnapshot) (exc : Error) (w : World D C Q N)
      → (enqueue_failed sv snapshot exc w).0 ≡ ok tt
      → ⊥
  unfolding enqueue_failed
  enqueue_failed_raises snapshot exc w returned =
      let (_, _, r1, _) = bind_ok _ _ w returned in
      let (_, _, r2, _) = bind_ok _ _ _ r1 in let (_, _, r3, _) = bind_ok _ _ _ r2 in cc r3

  -- A `try` whose handler never returns has returned from its body.
  try_except_ok :
      (m : Exec Q Unit) (f : Error → Exec (World D C Q N) Unit) (w : World D C Q N)
      → ((e : Error) (u : World D C Q N) → (f e u).0 ≡ ok tt → ⊥)
      → (try_except (on_queue m) f w).0 ≡ ok tt
      → ((m w.queue).0 ≡ ok tt)
        × ((try_except (on_queue m) f w).1 ≡ record w { queue = (m w.queue).1 })
  unfolding try_except on_queue
  try_except_ok m f w never returned = by_result (m w.queue).0 returned
    where
      by_result :
          (r : Result Unit)
          → (handle r f (record w { queue = (m w.queue).1 })).0 ≡ ok tt
          → (r ≡ ok tt)
            × ((handle r f (record w { queue = (m w.queue).1 })).1
                ≡ record w { queue = (m w.queue).1 })
      by_result (ok u) e = (refl, refl)
      by_result (raise x) e = absurd (never x _ e)

  enqueue-IsQueued :
      (request : ResearchRequest) (target : ParsedRepoTarget) (raw : RepositoryRawContext)
      (snapshot : ResearchJobStateSnapshot) (w : World D C Q N) {resp : JobAcceptedResponse}
      → IsPending sv state snapshot.job_id target raw w
      → (enqueue sv request target snapshot w).0 ≡ ok resp
      → (resp ≡ accepted snapshot.job_id)
        × IsQueued sv state request snapshot.job_id target raw w.queue
            (enqueue sv request target snapshot w).1
  unfolding enqueue now on_net ◌>>=◌
  enqueue-IsQueued request target raw snapshot w job returned =
      let t = (sv.clock.time w.net).0 in
      let w1 = (now sv w).1 in
      let send = sv.queue.send (message_for request target snapshot.job_id t) in
      let (u, tried, answered, same) =
        bind_ok (try_except (on_queue send) (enqueue_failed sv snapshot)) _ w1 returned in
      let (sent, left) =
        try_except_ok send (enqueue_failed sv snapshot) w1 (enqueue_failed_raises snapshot) tried in
      let all = same ∙ left in
      (
        ground arith,
        record {
          job =
              subst (IsPending sv state snapshot.job_id target raw) (sym all)
                (record { time = job.time; seen = job.seen; row = job.row });
          sent_at = t;
          sent = sent;
          queue = ap (λ (v : World D C Q N). v.queue) all;
        },
      )

  -- what the cache answers behind the first write
  abbrev IsFound :
      ParsedRepoTarget
      → RepositoryRawContext
      → String
      → C
      → DateTime
      → Option StructuredAiResponse
      → Type 0
  IsFound target raw job_id c t cached =
      (sv.cache.get_cached_ai_result (target.owner <> "/" <> target.repo <> "@" <> raw.commit_sha)
        (sv.cache.set_state (pending_snapshot job_id raw t) c).1).0
      ≡ ok cached

  complete_from_cache-IsReused :
      (target : ParsedRepoTarget) (raw : RepositoryRawContext) (snapshot : ResearchJobStateSnapshot)
      (ai : StructuredAiResponse) (c : C) (t : DateTime) (w : World D C Q N)
      {resp : JobAcceptedResponse}
      → IsFound target raw snapshot.job_id c t (some ai)
      → (complete_from_cache sv raw snapshot ai w).0 ≡ ok resp
      → (resp ≡ accepted snapshot.job_id)
        × IsReused sv state snapshot.job_id target raw c
            (complete_from_cache sv raw snapshot ai w).1
  unfolding complete_from_cache now on_net on_db on_cache ◌>>=◌ build_research_report
  complete_from_cache-IsReused target raw snapshot ai c t w found returned =
      let id = snapshot.job_id in
      let w1 = (now sv w).1 in
      let r =
        report_row
          (build_research_report sv.show_datetime (sv.clock.time w.net).0 id raw (some ai) none)
          raw.commit_sha false in
      let u = record unset {
        status = some completed;
        progress_msg = some "Completed from cache";
      } in
      let (row, saved, r2, same) = bind_ok (on_db (save_final_report sv.db r)) _ w1 returned in
      let rows = reports-save_final_report B r w.db id saved in
      let (o, updated, r3, same') = bind_ok (on_db (update_job_status sv.db id u)) _ _ r2 in
      let kept = reports-update_job_status B id u (save_final_report sv.db r w.db).1 id in
      let (_, set, _, _) = bind_ok (on_cache (sv.cache.set_state _)) _ _ r3 in
      let seen = L.set_state_ok _ w.cache snapshot.job_id set in
      (
        ground arith,
        record {
          snapshot = record snapshot {
            status = completed;
            progress_msg = "Completed from cache";
            updated_at = (sv.clock.time (sv.clock.time w.net).1).0;
          };
          asked_at = t;
          insights = ai;
          found = found;
          report = row;
          seen = ground (arith, eq_refl id);
          done = refl;
          stored = ground (arith, eq_refl id);
          with_insights = ground arith;
          metadata = ground arith;
          no_fallback = ground arith;
        },
      )

  reuse_or_enqueue-IsAccepted :
      (request : ResearchRequest) (target : ParsedRepoTarget) (raw : RepositoryRawContext)
      (snapshot : ResearchJobStateSnapshot) (cached : Option StructuredAiResponse) (c : C)
      (t : DateTime) (w : World D C Q N) {resp : JobAcceptedResponse}
      → IsFound target raw snapshot.job_id c t cached
      → IsPending sv state snapshot.job_id target raw w
      → (reuse_or_enqueue sv request target raw snapshot cached w).0 ≡ ok resp
      → (resp ≡ accepted snapshot.job_id)
        × (IsQueued sv state request snapshot.job_id target raw w.queue
              (reuse_or_enqueue sv request target raw snapshot cached w).1
            ⊎ IsReused sv state snapshot.job_id target raw c
                (reuse_or_enqueue sv request target raw snapshot cached w).1)
  unfolding reuse_or_enqueue
  reuse_or_enqueue-IsAccepted request target raw snapshot none c t w found job returned =
      let (same, queued) = enqueue-IsQueued request target raw snapshot w job returned in
      (same, inl queued)
  reuse_or_enqueue-IsAccepted request target raw snapshot (some ai) c t w found job returned =
      let (same, reused) =
        complete_from_cache-IsReused target raw snapshot ai c t w found returned in
      (same, inr reused)

  IsAccepted-at :
      {request : ResearchRequest} {resp resp' : JobAcceptedResponse} {w v v' : World D C Q N}
      → resp ≡ resp'
      → v ≡ v'
      → IsAccepted sv state request resp' w v'
      → IsAccepted sv state request resp w v
  IsAccepted-at {request} {resp} {w} {v'} same_answer same_world h =
      subst (IsAccepted sv state request resp w) (sym same_world)
        (subst (λ a. IsAccepted sv state request a w v') (sym same_answer) h)

  -- Whenever `submit` returns, the URL named a repository that GitHub knows, and the answered job is
  -- either pending, with its row and its snapshot stored, and the queue has taken exactly one
  -- message, with the job and the canonical URL; or it is completed, and a report is stored with the
  -- fetched metadata and with the AI result that the cache has, behind the write of the pending
  -- snapshot, under owner/repo@commit.
  pub submit-IsAccepted :
      (request : ResearchRequest) (w : World D C Q N) {resp : JobAcceptedResponse}
      → (submit sv request w).0 ≡ ok resp
      → IsAccepted sv state request resp w (submit sv request w).1
  unfolding submit now uuid4 on_net on_db on_cache ◌>>=◌ build_ai_cache_key
  submit-IsAccepted request w {resp} returned =
      let (target, parsed, r1, e1) =
        bind_ok (lift (parse_github_repository_url sv.hosts request.url)) _ w returned in
      let (raw, fetched, r2, e2) =
        bind_ok (on_net (sv.github.fetch_repository_context target)) _ w r1 in
      let n = (sv.github.fetch_repository_context target w.net).1 in
      let id = (sv.clock.uuid n).0 in
      let key = build_ai_cache_key target.owner target.repo raw.commit_sha in
      let row = new_job id target raw key in
      let (made, created, r3, e3) = bind_ok (on_db (create_job_record sv.db row)) _ _ r2 in
      let rows = jobs-create_job_record B row w.db id created in
      let t = (sv.clock.time (sv.clock.uuid n).1).0 in
      let snapshot = pending_snapshot id raw t in
      let (_, set, r4, e4) = bind_ok (on_cache (sv.cache.set_state snapshot)) _ _ r3 in
      let seen = L.set_state_ok snapshot w.cache id set in
      let (cached, got, r5, e5) = bind_ok (on_cache (sv.cache.get_cached_ai_result key)) _ _ r4 in
      let kept = L.get_cached_keeps key (sv.cache.set_state snapshot w.cache).1 id in
      let all = e1 ∙ e2 ∙ e3 ∙ e4 ∙ e5 in
      let (same, outcome) =
        reuse_or_enqueue-IsAccepted request target raw snapshot cached w.cache t _ got
          (record {
            time = t;
            seen = kept ∙ seen ∙ rw (eq_refl id) refl;
            row = rows.2 ∙ rw (eq_refl id) refl;
          })
          r5 in
      IsAccepted-at same all (record {
        target = target;
        raw = raw;
        parsed = parsed;
        fetched = fetched;
        unfinished = refl;
        outcome = outcome;
      })
