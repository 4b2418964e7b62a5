-- ===== src/Collectors/Passes/Held.antt =====
-- The jobs that are running during a pass: db_collector_os/collectors/pipeline.py.
use db_collector_os.Prelude.{◌≡◌, String, Option, none, some, Bool, if-intro}
use db_collector_os.Models.Enums.{
  JobPhase, bootstrap, discovery, collect, validation, phase1_complete, incremental,
}
use db_collector_os.Models.Json.{Fields}
use db_collector_os.JobRegistry.{Job, get}
use db_collector_os.JobRegistry.Held.{OnlyHeld}
use db_collector_os.Checkpoints.{load}
use db_collector_os.Worker.{current_run_id, find_run}
use db_collector_os.Collectors.Context.{Context, RunOutcome, Pass, Adapter, World}
use db_collector_os.Collectors.Passes.{
  seed_first, open_run, bootstrap_at, gather_pages, advance_phase, stats_recorded, close_pass,
  recovered, run_after, run_with, run_once,
}
use db_collector_os.Collectors.Passes.OnRecord.{open_at_jobs}
use db_collector_os.Collectors.Passes.Stays.{
  Stays, Stays-set_phase, gather_pages-Stays, advance_phase-Stays, seed_first-Stays,
}

-- No job is running that is not held, and the job's row is there.
pub record Keeps (holds : String → Bool) (id : String) (c : Context) : Type 0 where
  pub held : OnlyHeld holds c.jobs
  pub row : (k : Job) × (get id c.jobs ≡ some k)

module _ (w : World) (holds : String → Bool) where
  Keeps-Stays :
      (j : Job) (c d : Context) → Stays w j c d → Keeps holds j.job_id c → Keeps holds j.job_id d
  Keeps-Stays j c d s h = record {
    held = s.held holds h.held;
    row = let (k, e) = h.row in s.job k e;
  }

  module _ (j : Job) where
    abbrev Kept : Context × Option RunOutcome → Type 0
    Kept r = Keeps holds j.job_id r.0

    close_pass-Keeps :
        (id : String) (state : Fields) (p : Pass)
        → Keeps holds j.job_id p.ctx
        → Kept (close_pass w j id state p)
    close_pass-Keeps id state p h =
        if-intro Kept p.raised _ _ (λ _. h)
          (λ _.
            let c = stats_recorded w j id p.outcome p.ctx in
            let k =
              Keeps-Stays j c (advance_phase w j state c).1.1 (advance_phase-Stays w j state c)
                (record { held = h.held; row = h.row }) in
            record { held = k.held; row = k.row })

  run_after-Keeps :
      (a : Adapter) (id : String) (j : Job) (state : Fields) (c : Context)
      → Keeps holds j.job_id c
      → Keeps holds j.job_id (run_after w a id (j, (state, c))).0
  run_after-Keeps a id j state c h =
      close_pass-Keeps j id state (gather_pages w j a c)
        (Keeps-Stays j c _ (gather_pages-Stays w j a c) h)

  bootstrapped-Keeps :
      (a : Adapter) (id : String) (j : Job) (phase : JobPhase) (state : Fields) (c : Context)
      → Keeps holds j.job_id c
      → Keeps holds j.job_id (run_after w a id (bootstrap_at w phase j state c)).0
  bootstrapped-Keeps a id j bootstrap state c h =
      let seeded = seed_first w j state c in
      run_after-Keeps a id (record j { phase = discovery }) seeded.1 _
        (let k =
            Keeps-Stays j seeded.0 _ (Stays-set_phase w j discovery seeded.0)
              (Keeps-Stays j c seeded.0 (seed_first-Stays w j state c) h) in
          record { held = k.held; row = k.row })
  bootstrapped-Keeps a id j discovery state c h = run_after-Keeps a id j state c h
  bootstrapped-Keeps a id j collect state c h = run_after-Keeps a id j state c h
  bootstrapped-Keeps a id j validation state c h = run_after-Keeps a id j state c h
  bootstrapped-Keeps a id j phase1_complete state c h = run_after-Keeps a id j state c h
  bootstrapped-Keeps a id j incremental state c h = run_after-Keeps a id j state c h

  run_with-Keeps :
      (j : Job) (a : Option Adapter) (c : Context)
      → Keeps holds j.job_id c
      → Keeps holds j.job_id (run_with w j a c).0
  unfolding open_run
  run_with-Keeps j none c h = h
  run_with-Keeps j (some a) c h =
      let d = recovered w j c in
      let state = (load j.job_id c.checkpoints).state in
      let same =
        open_at_jobs w j state (current_run_id state) (find_run (current_run_id state) c.runs) d in
      bootstrapped-Keeps a (open_run w j d).run_id j j.phase (open_run w j d).state _
        (record { held = rw same h.held; row = rw same h.row })

  pub run_once-Keeps :
      (j : Job) (c : Context) → Keeps holds j.job_id c → Keeps holds j.job_id (run_once w j c).0
  unfolding run_once
  run_once-Keeps j c h = run_with-Keeps j (w.get_adapter j.adapter) c h
