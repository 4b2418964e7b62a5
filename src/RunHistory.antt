-- ===== src/RunHistory.antt =====
-- db_collector_os/run_history.py: the `run_history` and `discovery_runs` tables. The run_id that
-- `new_id` makes is an argument.
pub mod Immutable
use mathlib.Core.List.{reverse}
use db_collector_os.Prelude.{
  ℕ, ◌-◌, String, Option, none, some, Bool, true, false, ◌&&◌, List, [], ◌∷◌, ◌++◌, leb, ◌==◌,
  if◌then◌else◌, first, select, update_where, order_by, limit,
}
use db_collector_os.Clock.{now_iso, from_iso}
use db_collector_os.Models.Enums.{RunStatus, running, is_run_status}

pub record Run : Type 0 where
  pub run_id : String
  pub job_id : String
  pub started_at : ℕ
  pub finished_at : Option ℕ
  pub status : RunStatus
  pub discovered_count : ℕ
  pub fetched_count : ℕ
  pub inserted_count : ℕ
  pub updated_count : ℕ
  pub duplicate_count : ℕ
  pub review_count : ℕ
  pub error_count : ℕ
  pub duration_seconds : Option ℕ  -- microseconds

-- The keyword arguments of `finish`: those that are given.
pub record Counts : Type 0 where
  pub discovered_count : Option ℕ
  pub fetched_count : Option ℕ
  pub inserted_count : Option ℕ
  pub updated_count : Option ℕ
  pub duplicate_count : Option ℕ
  pub review_count : Option ℕ
  pub error_count : Option ℕ

abbrev pub has_run_id : String → Run → Bool
has_run_id id r = r.run_id == id

abbrev pub new_run : ℕ → String → String → Run
new_run now run_id job_id = record {
  run_id = run_id;
  job_id = job_id;
  started_at = now_iso now;
  finished_at = none;
  status = running;
  discovered_count = 0;
  fetched_count = 0;
  inserted_count = 0;
  updated_count = 0;
  duplicate_count = 0;
  review_count = 0;
  error_count = 0;
  duration_seconds = none;
}

unfoldable pub start : ℕ → String → String → List Run → List Run
start now run_id job_id runs = runs ++ new_run now run_id job_id ∷ []

unfoldable pub get : String → List Run → Option Run
get run_id runs = first (has_run_id run_id) runs

abbrev or_old : Option ℕ → ℕ → ℕ
or_old none old = old
or_old (some n) old = n

-- The row that `finish` writes; `duration` is that of the row it has read.
abbrev pub finalized : ℕ → ℕ → RunStatus → Counts → Run → Run
finalized now duration status counts r = record r {
  status = status;
  finished_at = some (now_iso now);
  duration_seconds = some duration;
  discovered_count = or_old counts.discovered_count r.discovered_count;
  fetched_count = or_old counts.fetched_count r.fetched_count;
  inserted_count = or_old counts.inserted_count r.inserted_count;
  updated_count = or_old counts.updated_count r.updated_count;
  duplicate_count = or_old counts.duplicate_count r.duplicate_count;
  review_count = or_old counts.review_count r.review_count;
  error_count = or_old counts.error_count r.error_count;
}

abbrev pub is_running : Run → Bool
is_running r = is_run_status r.status running

abbrev pub finish_at : ℕ → String → RunStatus → Counts → Option Run → List Run → List Run × Bool
finish_at now run_id status counts none runs = (runs, false)
finish_at now run_id status counts (some r) runs =
    if is_running r
    then (
      update_where (λ s. has_run_id run_id s && is_running s)
          (finalized now (now - from_iso r.started_at) status counts) runs,
      true,
    )
    else (runs, false)

-- The new table, and whether this call has finalized the row.
unfoldable pub finish : ℕ → String → RunStatus → Counts → List Run → List Run × Bool
finish now run_id status counts runs =
    finish_at now run_id status counts (first (has_run_id run_id) runs) runs

-- ORDER BY started_at DESC, rowid DESC: rows that tie come back last row first
unfoldable pub for_job : String → ℕ → List Run → List Run
for_job job_id max runs = limit max (
    order_by (λ r s. leb s.started_at r.started_at)
      (reverse (select (λ r. r.job_id == job_id) runs)))

pub record DiscoveryRun : Type 0 where
  pub job_id : String
  pub run_id : String
  pub discovered_total : ℕ
  pub new_candidates : ℕ
  pub duplicate_candidates : ℕ
  pub accepted : ℕ
  pub rejected : ℕ
  pub created_at : ℕ

unfoldable pub record_discovery_stats :
    ℕ
    → String
    → String
    → (discovered_total new_candidates duplicate_candidates accepted rejected : ℕ)
    → List DiscoveryRun
    → List DiscoveryRun
record_discovery_stats now job_id run_id total new duplicate accepted rejected runs =
    runs
    ++ record {
      job_id = job_id;
      run_id = run_id;
      discovered_total = total;
      new_candidates = new;
      duplicate_candidates = duplicate;
      accepted = accepted;
      rejected = rejected;
      created_at = now_iso now;
    }
      ∷ []

-- ORDER BY created_at DESC. SQL leaves open how rows of one second come; the index on
-- (job_id, created_at), read backwards, gives the last row first.
unfoldable pub recent_discovery_runs : String → ℕ → List DiscoveryRun → List DiscoveryRun
recent_discovery_runs job_id n runs = limit n (
    order_by (λ r s. leb s.created_at r.created_at)
      (reverse (select (λ r. r.job_id == job_id) runs)))
