-- ===== src/Worker.antt =====
-- db_collector_os/worker.py: how a run is put on record, and the recovery of stale jobs.
-- A collector's pass (`run_once`) is given by the state that it leaves and by what it returns.
pub mod RunIds
pub mod Recorded
pub mod Jobs
pub mod Loop
use db_collector_os.Prelude.{
  ℕ, zero, suc, ◌-◌, String, Option, none, some, Bool, true, false, not, ◌&&◌, ◌||◌, List, [], ◌∷◌,
  ltb, ◌=?◌, ◌==◌, if◌then◌else◌, select, length,
}
use db_collector_os.Clock.{now_iso, now_plus}
use db_collector_os.Models.Enums.{
  JobStatus, JobPhase, RunStatus, discovery, collect, validation, incremental, is_phase,
  is_job_status, is_run_status,
}
use db_collector_os.Models.Json.{Value, int, pos, str, dict, Fields, end, field, get_field}
use db_collector_os.JobRegistry.{
  Job, get, finish, due_jobs, mark_queued, claim_queued, reset_stale_running,
}
use db_collector_os.Fetching.Queue.{FetchQueue, is_empty}
use db_collector_os.RunHistory
use db_collector_os.RunHistory.{Run, Counts, is_running}
use db_collector_os.Checkpoints.{Checkpoint, load, save}

-- The tables that the end of a run reads and writes.
pub record System : Type 0 where
  pub jobs : List Job
  pub runs : List Run
  pub checkpoints : List Checkpoint
  pub queue : FetchQueue

-- state.pop(key, None)
abbrev pub pop : String → Fields → Fields
pop key end = end
pop key (field k v rest) = if k == key then pop key rest else field k v (pop key rest)

-- `current_run_id`, if it is a text that is not empty
abbrev pub text_id : Option Value → Option String
text_id (some (str s)) = if s == "" then none else some s
text_id _ = none

abbrev pub current_run_id : Fields → Option String
current_run_id state = text_id (get_field "current_run_id" state)

abbrev pub find_run : Option String → List Run → Option Run
find_run none runs = none
find_run (some id) runs = RunHistory.get id runs

-- error_count=1
abbrev pub one_error : Counts
one_error = record {
  discovered_count = none;
  fetched_count = none;
  inserted_count = none;
  updated_count = none;
  duplicate_count = none;
  review_count = none;
  error_count = some 1;
}

-- The row to be finished: the running one, or else a new one.
abbrev pub failing_run :
    ℕ → String → String → Option String → Option Run → List Run → List Run × String
unfolding RunHistory.start
failing_run now new_id job (some id) (some r) runs =
    if is_running r then (runs, id) else (RunHistory.start now new_id job runs, new_id)
failing_run now new_id job _ _ runs = (RunHistory.start now new_id job runs, new_id)

abbrev pub or_phase : Option JobPhase → JobPhase → Option JobPhase
or_phase none p = some p
or_phase (some q) p = some q

abbrev pub fail_run : ℕ → String × List Run → List Run
unfolding RunHistory.finish
fail_run now (id, runs) = (RunHistory.finish now id RunStatus.failed one_error runs).0

-- The `except` branch; `phase` is the job's phase when it was claimed.
unfoldable pub record_failure : ℕ → String → String → JobPhase → System → System
unfolding load save finish RunHistory.start RunHistory.finish RunHistory.get
record_failure now new_id job phase s =
    let checkpoint = load job s.checkpoints in
    let id = current_run_id checkpoint.state in
    let (runs, failing) = failing_run now new_id job id (find_run id s.runs) s.runs in
    record s {
      runs = fail_run now (failing, runs);
      checkpoints =
          save now job none (or_phase checkpoint.phase phase)
            (pop "current_run_id" checkpoint.state) s.checkpoints;
      jobs = finish now job JobStatus.failed none none s.jobs;
    }

-- A count that the JSON gives; one that is absent is 0.
abbrev pub count_of : Option Value → ℕ
count_of (some (int (pos n))) = n
count_of _ = 0

abbrev entry : String → Value → Option Value
entry key (dict d) = get_field key d
entry key _ = none

abbrev entry_of : String → Option Value → Option Value
entry_of key none = none
entry_of key (some v) = entry key v

-- config_json["phase1_conditions"]["consecutive_low_discovery_runs"]
abbrev pub required_streak : Job → ℕ
required_streak j =
    count_of (entry_of "consecutive_low_discovery_runs" (entry "phase1_conditions" j.config_json))

unfoldable pub needs_more_discovery_runs : Job → Fields → Bool
needs_more_discovery_runs j state =
    (is_phase j.phase discovery || is_phase j.phase collect || is_phase j.phase validation)
    && not (required_streak j =? 0)
    && ltb (count_of (get_field "low_discovery_streak" state)) (required_streak j)

unfoldable pub still_working : Job → Fields → FetchQueue → Bool
unfolding needs_more_discovery_runs is_empty
still_working j state queue =
    (not (is_phase j.phase incremental) && not (is_empty j.job_id queue))
    || needs_more_discovery_runs j state

abbrev pub complete_run : ℕ → Option String → Counts → List Run → List Run
unfolding RunHistory.finish
complete_run now none counts runs = runs
complete_run now (some id) counts runs =
    (RunHistory.finish now id RunStatus.completed counts runs).0

abbrev pub finish_job : ℕ → ℕ → String → Bool → List Job → List Job
unfolding finish
finish_job now poll job true jobs =
    finish now job JobStatus.continuing none (some (now_plus now poll)) jobs
finish_job now poll job false jobs = finish now job JobStatus.completed none none jobs

abbrev pub end_status : Bool → JobStatus
end_status true = JobStatus.continuing
end_status false = JobStatus.completed

-- After a pass that returned: `j` is the job's row then.
abbrev pub record_success_at : ℕ → ℕ → String → Counts → Job → System → System × JobStatus
unfolding load save finish RunHistory.finish still_working
record_success_at now poll job counts j s =
    let state = (load job s.checkpoints).state in
    let more = still_working j state s.queue in
    (
      record s {
        runs = complete_run now (current_run_id state) counts s.runs;
        checkpoints = save now job none (some j.phase) (pop "current_run_id" state) s.checkpoints;
        jobs = finish_job now poll job more s.jobs;
      },
      end_status more,
    )

abbrev record_success_by :
    ℕ → ℕ → String → Counts → Option Job → System → Option (System × JobStatus)
unfolding load save finish RunHistory.finish still_working
record_success_by now poll job counts none s = none
record_success_by now poll job counts (some j) s = some (record_success_at now poll job counts j s)

-- What `run_job_and_record` makes of the state that the pass has left, and the status that it
-- returns; the counts are the pass's, or none where it raised. It raises itself, and returns none
-- here, where the job's row is gone.
unfoldable pub run_job_and_record :
    ℕ
    → (new_id : String) (poll : ℕ) (job : String) → JobPhase
    → Option Counts
    → System
    → Option (System × JobStatus)
unfolding record_failure load save get finish RunHistory.finish still_working
run_job_and_record now new_id poll job phase none s =
    some (record_failure now new_id job phase s, JobStatus.failed)
run_job_and_record now new_id poll job phase (some counts) s =
    record_success_by now poll job counts (get job s.jobs) s

-- The WHERE clause of `recover_stale_jobs`.
abbrev started_before : ℕ → Option ℕ → Bool
started_before cutoff none = false
started_before cutoff (some t) = ltb t cutoff

abbrev pub is_stale : ℕ → Job → Bool
is_stale cutoff j =
    is_job_status j.status JobStatus.running && started_before cutoff j.last_started_at

abbrev pub reset_each : ℕ → List Job → List Job → List Job
unfolding reset_stale_running
reset_each now [] jobs = jobs
reset_each now (j ∷ js) jobs = reset_each now js (reset_stale_running now j.job_id jobs)

-- `stale` is worker_stale_seconds, in microseconds. The new table and the number of jobs.
unfoldable pub recover_stale_jobs : ℕ → (stale : ℕ) → List Job → List Job × ℕ
unfolding reset_stale_running
recover_stale_jobs now stale jobs =
    let rows = select (is_stale (now_iso (now - stale))) jobs in
    (reset_each now rows jobs, length rows)
