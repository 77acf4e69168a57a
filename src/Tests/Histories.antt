-- ===== src/Tests/Histories.antt =====
-- A history, and the stores at concrete inputs.
use git_hub_repository_resea.Base.{
  ℕ, ◌≡◌, refl, true, none, some, List, [], ◌∷◌, is_some, String, if◌then◌else◌, ◌&&◌, not, one_of,
  ◌==◌,
}
use git_hub_repository_resea.Exec.{ok, ◌>>=◌, raise}
use git_hub_repository_resea.Text.{◌<>◌}
use git_hub_repository_resea.Schema.{
  pending, failed, ResearchRequest, PollingStatusResponse, ParsedRepoTarget,
  ResearchJobStateSnapshot,
}
use git_hub_repository_resea.Database.{ResearchJobRecord, FinalResearchReportRecord}
use git_hub_repository_resea.Crud.{
  JobUpdate, unset, save_final_report, update_job_status, get_job_by_id, get_report_by_id,
  save_update, apply_update,
}
use git_hub_repository_resea.Crud.Effects.{
  IsUpdate, update_job_status-IsUpdate, reports-save_final_report,
}
use git_hub_repository_resea.Ports.{IsStateCache}
use git_hub_repository_resea.Redis.{
  redis_state_cache, stored_state, get_state, set_json, get_json, set, get, state_key, ai_key,
  get_cached_ai_result, set_cached_ai_result, set_state, delete_keys, delete_prefix, insights,
  keys_to_delete, one_key,
}
use git_hub_repository_resea.Redis.Contract.{redis_state_cache-IsStateCache, get_cached-set_cached}
use git_hub_repository_resea.Orchestration.{submit, enqueue, pending_snapshot}
use git_hub_repository_resea.Worker.{poll_once}
use git_hub_repository_resea.Router.{
  poll_status, status_from, load_report, from_report, polling_status, snapshot_of_report, report_of,
  job_not_found, respond,
}
use git_hub_repository_resea.Router.Polling.{answer, poll_status_ok, poll_status-completed}
use git_hub_repository_resea.Consistency.{Consistent}
use git_hub_repository_resea.Consistency.History.{here, next, request, poll, work, Reach-Consistent}
use git_hub_repository_resea.World.{World, on_db, on_cache, Services}
use git_hub_repository_resea.Tests.Fixtures.{
  system, start, tables, Tables, Entry, Call, memory, memory-IsRedis, view, view-IsStateCache,
  tables-IsDatabase, black_metadata, insights_of, black_context,
}
use git_hub_repository_resea.Router.Problems.{IsAnswer, respond-IsAnswer}
use git_hub_repository_resea.Errors.{other, str}
use git_hub_repository_resea.Orchestration.Refused.{
  IsRefused, enqueue-IsRefused, refused_snapshot, refused_update,
}
use git_hub_repository_resea.Redis.Prefix.{value-delete_prefix}

start-Consistent : Consistent system view start
start-Consistent = record { at = λ j s e done. cc e }

abbrev black_request : ResearchRequest
black_request = record { url = "https://github.com/psf/black"; options = [] }

Reach-Consistent_example :
    Consistent system view
      (poll_status system "job" (poll_once system (submit system black_request start).1).1).1
Reach-Consistent_example =
    Reach-Consistent system view view-IsStateCache tables-IsDatabase
      (next (next (next here (request black_request)) work) (poll "job")) start-Consistent

abbrev job_row : ResearchJobRecord
job_row = record {
  job_id = "job";
  repository_url = "https://github.com/psf/black";
  owner = "psf";
  repo = "black";
  status = pending;
  commit_sha = none;
  instant_data = none;
  progress_msg = "Repository metadata fetched";
  error = none;
  ai_cache_key = none;
}

abbrev report_row : ℕ → FinalResearchReportRecord
report_row t = record {
  job_id = "job";
  repository_url = "https://github.com/psf/black";
  deterministic_data = black_metadata;
  markdown_report = "# psf/black";
  commit_sha = some "c0ffee";
  ai_insights = none;
  ai_fallback = true;
  ai_fallback_reason = some "no key";
  created_time = t;
}

abbrev stored : Tables
stored = record { job_rows = job_row ∷ []; report_rows = report_row 4 ∷ [] }

abbrev fail : JobUpdate
fail = record unset { status = some failed }

job_updates :
    (update_job_status tables "job" fail stored).0 ≡ ok (some (record job_row { status = failed }))
unfolding update_job_status get_job_by_id save_update apply_update ◌>>=◌
job_updates = refl

update_job_status-IsUpdate_example :
    IsUpdate fail (some job_row) (some (record job_row { status = failed }))
    × (tables.jobs (update_job_status tables "job" fail stored).1 "job"
        ≡ some (record job_row { status = failed }))
update_job_status-IsUpdate_example =
    update_job_status-IsUpdate tables-IsDatabase "job" fail stored "job" job_updates

report_saves : (save_final_report tables (report_row 9) stored).0 ≡ ok (report_row 4)
unfolding save_final_report get_report_by_id ◌>>=◌
report_saves = refl

reports-save_final_report_example :
    (tables.reports (save_final_report tables (report_row 9) stored).1 "job" ≡ some (report_row 4))
    × (report_row 4 ≡ record (report_row 9) { created_time = 4 })
    × ((old : FinalResearchReportRecord)
        → tables.reports stored "job" ≡ some old
        → 4 ≡ old.created_time)
reports-save_final_report_example =
    reports-save_final_report tables-IsDatabase (report_row 9) stored "job" report_saves

redis_state_cache-IsStateCache_example :
    IsStateCache (redis_state_cache memory 3600 86400) (stored_state memory)
redis_state_cache-IsStateCache_example = redis_state_cache-IsStateCache memory-IsRedis 3600 86400

ai_set : (set_cached_ai_result memory 60 "psf/black@c0ffee" insights_of []).0 ≡ ok tt
unfolding set_cached_ai_result set_json set ai_key ◌>>=◌
ai_set = refl

ai_got :
    (get_cached_ai_result memory "psf/black@c0ffee"
      (set_cached_ai_result memory 60 "psf/black@c0ffee" insights_of []).1).0
    ≡ ok (some insights_of)
unfolding get_cached_ai_result get_json get set_cached_ai_result set_json set ai_key ◌>>=◌ ◌<>◌
ai_got = refl

get_cached-set_cached_example : some insights_of ≡ some insights_of
get_cached-set_cached_example =
    get_cached-set_cached memory-IsRedis 60 "psf/black@c0ffee" insights_of [] _ ai_set refl ai_got

-- The snapshot is gone, the report is stored.
abbrev expired : World Tables (List Entry) (List Call) ℕ
expired = record start { db = stored }

abbrev report_status : PollingStatusResponse
report_status =
    polling_status (snapshot_of_report "job" (report_of (report_row 4)))
      (some (report_of (report_row 4)))

poll_answers : (poll_status system "job" expired).0 ≡ ok report_status
unfolding poll_status status_from load_report from_report on_db on_cache get_report_by_id
    redis_state_cache get_state get_json state_key ◌>>=◌ ◌<>◌
poll_answers = refl

expired-Consistent : Consistent system view expired
expired-Consistent = record { at = λ j s e done. cc e }

poll_status_ok_example :
    some report_status
    ≡ answer system view view-IsStateCache tables-IsDatabase "job" none
        (some (report_of (report_row 4)))
poll_status_ok_example =
    poll_status_ok system view view-IsStateCache tables-IsDatabase "job" expired poll_answers

poll_status-completed_example :
    (is_some report_status.report ≡ true) × (report_status.report ≡ some (report_of (report_row 4)))
poll_status-completed_example =
    poll_status-completed system view view-IsStateCache tables-IsDatabase "job" expired
      expired-Consistent poll_answers refl

respond-IsAnswer_example :
    IsAnswer {A = PollingStatusResponse} "request" "/api/v1/research/jobs/job"
      (raise (job_not_found "job"))
      (respond "request" "/api/v1/research/jobs/job" (raise (job_not_found "job")))
respond-IsAnswer_example =
    respond-IsAnswer "request" "/api/v1/research/jobs/job" (raise (job_not_found "job"))

-- the system with a queue that takes no message
abbrev blocked : Services Tables (List Entry) (List Call) ℕ
blocked = record system {
  queue = record system.queue { send = λ message q. (raise (other "queue is down"), q) };
}

abbrev black_target : ParsedRepoTarget
black_target = record {
  owner = "psf";
  repo = "black";
  canonical_url = "https://github.com/psf/black";
}

abbrev black_snapshot : ResearchJobStateSnapshot
black_snapshot = pending_snapshot "job" (black_context black_target) 3

abbrev with_rows : World Tables (List Entry) (List Call) ℕ
with_rows = record start { db = stored }

refused_row_written :
    (update_job_status tables "job" (refused_update "queue is down") stored).0
    ≡ ok (some (apply_update (refused_update "queue is down") job_row))
unfolding update_job_status get_job_by_id save_update ◌>>=◌
refused_row_written = refl

refused_snapshot_written :
    (system.cache.set_state (refused_snapshot black_snapshot "queue is down" 1) []).0 ≡ ok tt
unfolding redis_state_cache set_state set_json set ◌>>=◌
refused_snapshot_written = refl

enqueue-IsRefused_example :
    ((enqueue blocked black_request black_target black_snapshot with_rows).0
      ≡ raise (other "queue is down"))
    × IsRefused blocked view view-IsStateCache tables-IsDatabase with_rows black_snapshot
        "queue is down"
        (enqueue blocked black_request black_target black_snapshot with_rows).1
unfolding str
enqueue-IsRefused_example =
    enqueue-IsRefused blocked view view-IsStateCache tables-IsDatabase black_request black_target
      black_snapshot with_rows {exc = other "queue is down"} refl refused_row_written
      refused_snapshot_written

abbrev two_entries : List Entry
two_entries =
    record { key = "research:ai:x"; content = some (insights insights_of) }
    ∷ record { key = "research:ai:y"; content = some (insights insights_of) }
    ∷ []

prefix_deleted :
    (delete_prefix memory "research:ai:" (one_key "research:ai:y") two_entries).0 ≡ ok tt
unfolding delete_prefix delete_keys keys_to_delete ◌>>=◌
prefix_deleted = refl

value-delete_prefix_example :
    (found : List String) × ((memory.scan ("research:ai:" <> "*") two_entries).0 ≡ ok found)
    × ((k : String)
        → memory.value
            (delete_prefix memory "research:ai:" (one_key "research:ai:y") two_entries).1
            k
          ≡ (if one_of k found && not (k == "research:ai:y")
              then none
              else memory.value two_entries k))
value-delete_prefix_example =
    value-delete_prefix memory-IsRedis "research:ai:" (one_key "research:ai:y") two_entries
      prefix_deleted
