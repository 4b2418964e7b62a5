-- ===== src/JobRegistry.antt =====
-- db_collector_os/job_registry.py: the `jobs` table. A method takes the table and, where it reads
-- the clock, the instant of the call, and returns the new table. Every method that writes the status
-- does so by one statement, so a method is one step of the system; the SELECT with which `finish`
-- begins is taken with it.
pub mod Schedule
pub mod Due
pub mod Rows
pub mod Claims
pub mod Sync
pub mod Parked
pub mod Held
use db_collector_os.Prelude.{
  ℕ, suc, String, Option, none, some, Bool, true, false, not, ◌&&◌, ◌||◌, List, [], ◌∷◌, ◌++◌, ltb,
  leb, ◌=?◌, ◌==◌, if◌then◌else◌, select, first, count, update_where, order_by,
}
use db_collector_os.Clock.{now_iso}
use db_collector_os.Models.Enums.{
  JobStatus, JobPhase, idle, queued, running, completed, continuing, retry, paused, is_job_status,
}
use db_collector_os.Models.Json.{Value}
use Schedule.{compute_next_run}

pub record Job : Type 0 where
  pub job_id : String
  pub job_name : String
  pub category : String
  pub target_db : String
  pub target_table : String
  pub collector_type : String
  pub adapter : String
  pub priority : ℕ
  pub enabled : Bool
  pub phase : JobPhase
  pub schedule : String
  pub max_pages : ℕ
  pub max_depth : ℕ
  pub concurrency : ℕ
  pub rate_limit : ℕ  -- microseconds
  pub config_json : Value
  pub status : JobStatus
  pub created_at : ℕ
  pub updated_at : ℕ
  pub last_started_at : Option ℕ
  pub last_finished_at : Option ℕ
  pub next_run_at : Option ℕ

-- The arguments of `create`, the generated job_id filled in.
pub record JobSpec : Type 0 where
  pub job_id : String
  pub job_name : String
  pub category : String
  pub target_db : String
  pub target_table : String
  pub collector_type : String
  pub adapter : String
  pub priority : ℕ
  pub enabled : Bool
  pub schedule : String
  pub max_pages : ℕ
  pub max_depth : ℕ
  pub concurrency : ℕ
  pub rate_limit : ℕ
  pub config : Value
  pub phase : JobPhase

abbrev pub has_id : String → Job → Bool
has_id id j = j.job_id == id

-- The row that `create` inserts.
unfoldable pub new_row : ℕ → JobSpec → Job
new_row now spec = record {
  job_id = spec.job_id;
  job_name = spec.job_name;
  category = spec.category;
  target_db = spec.target_db;
  target_table = spec.target_table;
  collector_type = spec.collector_type;
  adapter = spec.adapter;
  priority = spec.priority;
  enabled = spec.enabled;
  phase = spec.phase;
  schedule = spec.schedule;
  max_pages = spec.max_pages;
  max_depth = spec.max_depth;
  concurrency = spec.concurrency;
  rate_limit = spec.rate_limit;
  config_json = spec.config;
  status = idle;
  created_at = now_iso now;
  updated_at = now_iso now;
  last_started_at = none;
  last_finished_at = none;
  next_run_at = some (now_iso now);
}

-- ON CONFLICT(job_id) DO UPDATE SET …
unfoldable pub resync : ℕ → JobSpec → Job → Job
resync now spec j = record j {
  job_name = spec.job_name;
  category = spec.category;
  target_db = spec.target_db;
  target_table = spec.target_table;
  collector_type = spec.collector_type;
  adapter = spec.adapter;
  priority = spec.priority;
  enabled = spec.enabled;
  schedule = spec.schedule;
  max_pages = spec.max_pages;
  max_depth = spec.max_depth;
  concurrency = spec.concurrency;
  rate_limit = spec.rate_limit;
  config_json = spec.config;
  updated_at = now_iso now;
}

-- INSERT … ON CONFLICT(job_id) DO UPDATE SET …, by the row that has the job_id
abbrev pub upsert : ℕ → JobSpec → Option Job → List Job → List Job
unfolding new_row resync
upsert now spec none jobs = jobs ++ new_row now spec ∷ []
upsert now spec (some j) jobs = update_where (has_id spec.job_id) (resync now spec) jobs

unfoldable pub create : ℕ → JobSpec → List Job → List Job
unfolding new_row resync
create now spec jobs = upsert now spec (first (has_id spec.job_id) jobs) jobs

-- `get` of the table
unfoldable pub get : String → List Job → Option Job
get id jobs = first (has_id id) jobs

abbrev status_matches : Option JobStatus → JobStatus → Bool
status_matches none t = true
status_matches (some s) t = is_job_status t s

-- `if category`
abbrev category_matches : Option String → String → Bool
category_matches none t = true
category_matches (some c) t = c == "" || t == c

-- ORDER BY priority DESC, job_id; `id_le` is the order of texts.
abbrev pub list_before : (String → String → Bool) → Job → Job → Bool
list_before id_le i j =
    ltb j.priority i.priority || ((i.priority =? j.priority) && id_le i.job_id j.job_id)

unfoldable pub list_jobs :
    (String → String → Bool)
    → (status : Option JobStatus) (enabled_only : Bool) (category : Option String) → List Job
    → List Job
list_jobs id_le status enabled_only category jobs = order_by (list_before id_le) (
    select
      (λ j.
        status_matches status j.status
        && (not enabled_only || j.enabled)
        && category_matches category j.category)
      jobs)

abbrev null_or_le : Option ℕ → ℕ → Bool
null_or_le none now = true
null_or_le (some t) now = leb t now

-- status IN ('idle', 'completed', 'continuing', 'retry')
abbrev pub schedulable : JobStatus → Bool
schedulable s =
    is_job_status s idle
    || is_job_status s completed
    || is_job_status s continuing
    || is_job_status s retry

abbrev pub is_due : ℕ → Job → Bool
is_due now j = j.enabled && schedulable j.status && null_or_le j.next_run_at now

-- ascending, NULL first
abbrev pub run_le : Option ℕ → Option ℕ → Bool
run_le none t = true
run_le (some s) none = false
run_le (some s) (some t) = leb s t

-- ORDER BY priority DESC, next_run_at
abbrev pub due_before : Job → Job → Bool
due_before i j =
    ltb j.priority i.priority || ((i.priority =? j.priority) && run_le i.next_run_at j.next_run_at)

unfoldable pub due_jobs : ℕ → List Job → List Job
due_jobs now jobs = order_by due_before (select (is_due (now_iso now)) jobs)

unfoldable pub set_status : ℕ → String → JobStatus → List Job → List Job
set_status now id s =
    update_where (has_id id) (λ j. record j { status = s; updated_at = now_iso now })

unfoldable pub set_phase : ℕ → String → JobPhase → List Job → List Job
set_phase now id p =
    update_where (has_id id) (λ j. record j { phase = p; updated_at = now_iso now })

unfoldable pub mark_queued : ℕ → String → List Job → List Job
mark_queued now id =
    update_where (λ j. has_id id j && schedulable j.status)
      (λ j. record j { status = queued; updated_at = now_iso now })

abbrev pub claimable : String → Job → Bool
claimable id j = has_id id j && is_job_status j.status queued && j.enabled

abbrev pub start : ℕ → Job → Job
start now j = record j {
  status = running;
  last_started_at = some (now_iso now);
  updated_at = now_iso now;
}

-- The new table, and whether a row was updated.
unfoldable pub claim_queued : ℕ → String → List Job → List Job × Bool
claim_queued now id jobs =
    (update_where (claimable id) (start now) jobs, ltb 0 (count (claimable id) jobs))

abbrev schedule_of : Option Job → String
schedule_of none = "@hourly"
schedule_of (some j) = j.schedule

-- The `next_run` of `finish`.
abbrev next_run : ℕ → Option Job → JobStatus → Option ℕ → Option ℕ
next_run now job status override =
    if is_job_status status paused
    then none
    else elim override [ some t ↦ some t | none ↦ some (compute_next_run (schedule_of job) now) ]

abbrev or_phase : Option JobPhase → JobPhase → JobPhase
or_phase none p = p
or_phase (some q) p = q

-- The row after `finish`; `old` is the row that the method has read.
unfoldable pub finished : ℕ → Option Job → JobStatus → Option JobPhase → Option ℕ → Job → Job
finished now old status next_phase next_run_override j = record j {
  status = status;
  last_finished_at = some (now_iso now);
  updated_at = now_iso now;
  next_run_at = next_run now old status next_run_override;
  phase = or_phase next_phase j.phase;
}

unfoldable pub finish : ℕ → String → JobStatus → Option JobPhase → Option ℕ → List Job → List Job
unfolding get finished
finish now id status next_phase next_run_override jobs =
    update_where (has_id id) (finished now (get id jobs) status next_phase next_run_override) jobs

unfoldable pub pause : ℕ → String → List Job → List Job
unfolding set_status
pause now id = set_status now id paused

unfoldable pub resume : ℕ → String → List Job → List Job
resume now id =
    update_where (has_id id)
      (λ j. record j { status = idle; updated_at = now_iso now; next_run_at = some (now_iso now) })

unfoldable pub set_enabled : ℕ → String → Bool → List Job → List Job
set_enabled now id enabled =
    update_where (has_id id) (λ j. record j { enabled = enabled; updated_at = now_iso now })

unfoldable pub reset_stale_running : ℕ → String → List Job → List Job
reset_stale_running now id =
    update_where (λ j. has_id id j && is_job_status j.status running)
      (λ j. record j { status = retry; updated_at = now_iso now })
