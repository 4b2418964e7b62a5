-- ===== src/Worker/Loop/Leaves.antt =====
-- What a worker leaves behind: db_collector_os/worker.py.
use db_collector_os.Prelude.{
  ℕ, ◌-◌, ◌*◌, ltb, ◌≡◌, refl, ap, String, Option, none, some, Bool, true, false, List, [], ◌∷◌,
  if-intro, first, first-update_same, select,
}
use db_collector_os.Clock.{now_iso}
use db_collector_os.JobRegistry.{Job, due_jobs}
use db_collector_os.JobRegistry.Held.{OnlyHeld}
use db_collector_os.Collectors.Context.{World}
use db_collector_os.Worker.{is_stale, recover_stale_jobs}
use db_collector_os.Worker.Jobs.{queued_jobs, claim_first, claim_any_queued, queue_each}
use db_collector_os.Worker.Jobs.Held.{
  Claimed, run_claimed-OnlyHeld, queue_each-OnlyHeld, reset_each-OnlyHeld, claim_first-Claimed,
}
use db_collector_os.Worker.Loop.{
  WorkerStatus, busy, idle, stopped, WorkerRow, has_worker_id, heartbeat, mark_stopped, Site, Round,
  run_found_at, run_if_found, run_one_job, recover_if_due, sleep_if_idle, run_forever,
}

-- The worker's row is there and names no job.
pub record Free (id : String) (workers : List WorkerRow) : Type 0 where
  pub row : WorkerRow
  pub found : first (has_worker_id id) workers ≡ some row
  pub no_job : row.current_job_id ≡ none

-- The worker's row says that it has stopped.
pub record Stopped (id : String) (workers : List WorkerRow) : Type 0 where
  pub row : WorkerRow
  pub found : first (has_worker_id id) workers ≡ some row
  pub status : row.status ≡ stopped
  pub no_job : row.current_job_id ≡ none

heartbeat_found :
    (now : ℕ) (id : String) (status : WorkerStatus) (job : Option String) (workers : List WorkerRow)
    (r : WorkerRow)
    → first (has_worker_id id) workers ≡ some r
    → (x : WorkerRow) × (first (has_worker_id id) (heartbeat now id status job workers) ≡ some x)
      × (x.current_job_id ≡ job)
unfolding heartbeat
heartbeat_found now id status job workers r e =
    (_, first-update_same (has_worker_id id) _ (λ _. refl) workers r e, refl)

Free-heartbeats :
    (now later : ℕ) (id : String) (job : Option String) (workers : List WorkerRow)
    → Free id workers
    → Free id (heartbeat later id idle none (heartbeat now id busy job workers))
Free-heartbeats now later id job workers f =
    let (r, e, _) = heartbeat_found now id busy job workers f.row f.found in
    let (x, d, n) = heartbeat_found later id idle none (heartbeat now id busy job workers) r e in
    record { row = x; found = d; no_job = n }

Stopped-mark_stopped :
    (now : ℕ) (id : String) (workers : List WorkerRow)
    → Free id workers
    → Stopped id (mark_stopped now id workers)
unfolding mark_stopped
Stopped-mark_stopped now id workers f = record {
  row = _;
  found = first-update_same (has_worker_id id) _ (λ _. refl) workers f.row f.found;
  status = refl;
  no_job = f.no_job;
}

module _ (w : World) (id_le : String → String → Bool) (id : String) (poll stale : ℕ)
    (holds : String → Bool) where
  -- The state between two turns.
  record Rests (s : Site) : Type 0 where
    held : OnlyHeld holds s.ctx.jobs
    free : Free id s.workers

  run_if_found-Rests :
      (s : Site) (claimed : List Job × Option Job)
      → Claimed holds claimed
      → Free id s.workers
      → (d : Site) × (b : Bool) × (run_if_found w id_le id poll stale
            (record s { ctx = record s.ctx { jobs = claimed.0 } })
            claimed.1
          ≡ (d, some b))
        × Rests d
  run_if_found-Rests s (jobs, none) h f = (_, false, refl, record { held = h; free = f })
  run_if_found-Rests s (jobs, some j) h f =
      let (d, status, run, held) =
        run_claimed-OnlyHeld holds w poll j (record s.ctx { jobs = jobs })
          (record { held = h.0; row = h.1 }) in
      (
        record {
          ctx = d;
          workers =
              heartbeat d.now id idle none (heartbeat s.ctx.now id busy (some j.job_id) s.workers);
        },
        true,
        ap
            (λ r.
              run_found_at w id_le id poll stale r
                (heartbeat s.ctx.now id busy (some j.job_id) s.workers))
            run,
        record {
          held = held;
          free = Free-heartbeats s.ctx.now d.now id (some j.job_id) s.workers f;
        },
      )

  run_one_job-Rests :
      (s : Site)
      → Rests s
      → (d : Site) × (b : Bool) × (run_one_job w id_le id poll stale s ≡ (d, some b)) × Rests d
  unfolding run_one_job claim_any_queued
  run_one_job-Rests s h =
      let now = s.ctx.now in
      let jobs = queue_each now (due_jobs now s.ctx.jobs) s.ctx.jobs in
      run_if_found-Rests s (claim_first now (queued_jobs id_le jobs) jobs)
        (claim_first-Claimed holds now (queued_jobs id_le jobs) jobs
          (queue_each-OnlyHeld holds now (due_jobs now s.ctx.jobs) s.ctx.jobs h.held))
        h.free

  recover_if_due-Rests :
      (r : Round) (last : ℕ) (s : Site)
      → Rests s
      → Rests (recover_if_due w id_le id poll stale r last s).1
  unfolding recover_stale_jobs
  recover_if_due-Rests r last s h =
      if-intro (λ (x : ℕ × Site). Rests x.1) (ltb stale (2 * (r.asked - last))) _ _
        (λ _. record {
          held =
              reset_each-OnlyHeld holds s.ctx.now
                (select (is_stale (now_iso (s.ctx.now - stale))) s.ctx.jobs) s.ctx.jobs h.held;
          free = h.free;
        })
        (λ _. h)

  sleep-Rests :
      (r : Round) (s : Site) (b : Bool)
      → Rests s
      → Rests (sleep_if_idle w id_le id poll stale r (s, some b))
  sleep-Rests r s true h = h
  sleep-Rests r s false h = record { held = h.held; free = h.free }

  -- Where `holds` names every job that is running, and the worker's row is there and names no job,
  -- the loop ends, whatever its rounds are, with the worker's row stopped and naming no job, and
  -- `holds` still names every job that is running: the worker leaves none of its own in that state.
  pub run_forever-Stopped :
      (rounds : List Round) (last : ℕ) (s : Site)
      → OnlyHeld holds s.ctx.jobs
      → Free id s.workers
      → Stopped id (run_forever w id_le id poll stale rounds last s).workers
        × OnlyHeld holds (run_forever w id_le id poll stale rounds last s).ctx.jobs
  unfolding run_forever
  run_forever-Stopped [] last s h f = (Stopped-mark_stopped s.ctx.now id s.workers f, h)
  run_forever-Stopped (r ∷ rounds) last s h f =
      let recovered = recover_if_due w id_le id poll stale r last s in
      let (t, b, run, rests) =
        run_one_job-Rests recovered.1
          (recover_if_due-Rests r last s (record { held = h; free = f })) in
      let after = sleep-Rests r t b rests in
      rw (run, run_forever)
        (run_forever-Stopped rounds recovered.0 (sleep_if_idle w id_le id poll stale r (t, some b))
          after.held after.free)
