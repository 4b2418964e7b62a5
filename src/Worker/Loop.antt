-- ===== src/Worker/Loop.antt =====
-- The rows of `workers`, run_one_job and run_forever of db_collector_os/worker.py. A stop is requested
-- between two turns of the loop or during its sleep; the log is left out, and so are exceptions of
-- the database.
pub mod Leaves
use db_collector_os.Prelude.{
  ℕ, ◌+◌, ◌-◌, ◌*◌, String, Option, none, some, Bool, true, false, List, [], ◌∷◌, ◌++◌, ltb, ◌==◌,
  if◌then◌else◌, first, update_where,
}
use db_collector_os.Clock.{now_iso}
use db_collector_os.Models.Enums.{JobStatus}
use db_collector_os.JobRegistry.{Job, due_jobs}
use db_collector_os.Collectors.Context.{Context, World}
use db_collector_os.Worker.{recover_stale_jobs}
use db_collector_os.Worker.Jobs.{claim_any_queued, queue_each, run_claimed}

pub data WorkerStatus : Type 0 where
  idle busy stopped : WorkerStatus

-- The `workers` table.
pub record WorkerRow : Type 0 where
  pub worker_id : String
  pub hostname : String
  pub pid : ℕ
  pub status : WorkerStatus
  pub current_job_id : Option String
  pub started_at : ℕ
  pub last_heartbeat : ℕ

abbrev pub has_worker_id : String → WorkerRow → Bool
has_worker_id id r = r.worker_id == id

abbrev pub new_worker : ℕ → String → String → ℕ → WorkerRow
new_worker now id hostname pid = record {
  worker_id = id;
  hostname = hostname;
  pid = pid;
  status = idle;
  current_job_id = none;
  started_at = now_iso now;
  last_heartbeat = now_iso now;
}

-- ON CONFLICT(worker_id) DO UPDATE SET status='idle', last_heartbeat=…
abbrev pub register_at :
    ℕ → String → String → ℕ → Option WorkerRow → List WorkerRow → List WorkerRow
register_at now id hostname pid none rows = rows ++ new_worker now id hostname pid ∷ []
register_at now id hostname pid (some r) rows =
    update_where (has_worker_id id) (λ r. record r { status = idle; last_heartbeat = now_iso now })
      rows

unfoldable pub register :
    ℕ → (worker_id hostname : String) (pid : ℕ) → List WorkerRow → List WorkerRow
register now id hostname pid rows =
    register_at now id hostname pid (first (has_worker_id id) rows) rows

unfoldable pub heartbeat :
    ℕ → (worker_id : String) → WorkerStatus → Option String → List WorkerRow → List WorkerRow
heartbeat now id status job =
    update_where (has_worker_id id)
      (λ r. record r { status = status; current_job_id = job; last_heartbeat = now_iso now })

-- The UPDATE at the end of the loop.
unfoldable pub mark_stopped : ℕ → String → List WorkerRow → List WorkerRow
mark_stopped now id =
    update_where (has_worker_id id)
      (λ r. record r { status = stopped; last_heartbeat = now_iso now })

-- What a worker reads and writes.
pub record Site : Type 0 where
  pub ctx : Context
  pub workers : List WorkerRow

-- The two readings of time.monotonic() in one turn of the loop, and how long the sleep lasts at its
-- end, if there is one.
pub record Round : Type 0 where
  pub asked : ℕ
  pub answered : ℕ
  pub slept : ℕ

-- `id_le` is the order of job_id in the database.
module _ (w : World) (id_le : String → String → Bool) (worker_id : String) (poll stale : ℕ) where
  -- The worker stays busy where the run raises.
  abbrev pub run_found_at : Context × Option JobStatus → List WorkerRow → Site × Option Bool
  run_found_at (c, none) workers = (record { ctx = c; workers = workers }, none)
  run_found_at (c, some status) workers =
      (record { ctx = c; workers = heartbeat c.now worker_id idle none workers }, some true)

  abbrev pub run_if_found : Site → Option Job → Site × Option Bool
  run_if_found s none = (s, some false)
  run_if_found s (some j) =
      run_found_at (run_claimed w poll j s.ctx)
        (heartbeat s.ctx.now worker_id busy (some j.job_id) s.workers)

  -- The state, and whether a job was run, or none where an exception leaves the method.
  unfoldable pub run_one_job : Site → Site × Option Bool
  run_one_job s =
      let now = s.ctx.now in
      let claimed =
        claim_any_queued id_le now (queue_each now (due_jobs now s.ctx.jobs) s.ctx.jobs) in
      run_if_found (record s { ctx = record s.ctx { jobs = claimed.0 } }) claimed.1

  -- The recovery, at least half of worker_stale_seconds after the last one.
  abbrev pub recover_if_due : Round → (last : ℕ) → Site → ℕ × Site
  recover_if_due r last s =
      if ltb stale (2 * (r.asked - last))
      then (
        r.answered,
        record s {
          ctx = record s.ctx { jobs = (recover_stale_jobs s.ctx.now stale s.ctx.jobs).0 };
        },
      )
      else (last, s)

  abbrev pub sleep : ℕ → Site → Site
  sleep t s = record s { ctx = record s.ctx { now = s.ctx.now + t } }

  -- An exception is caught, and counts as no work.
  abbrev pub sleep_if_idle : Round → Site × Option Bool → Site
  sleep_if_idle r (s, some true) = s
  sleep_if_idle r (s, some false) = sleep r.slept s
  sleep_if_idle r (s, none) = sleep r.slept s

  -- The loop until a stop is requested: `last` is last_recovery.
  unfoldable pub run_forever : List Round → (last : ℕ) → Site → Site
  run_forever [] last s = record s { workers = mark_stopped s.ctx.now worker_id s.workers }
  run_forever (r ∷ rs) last s =
      let recovered = recover_if_due r last s in
      run_forever rs recovered.0 (sleep_if_idle r (run_one_job recovered.1))
