-- ===== src/Worker/Jobs/Held.antt =====
-- A claimed job, from the claim to the record of its pass: db_collector_os/worker.py.
use db_collector_os.Prelude.{
  ℕ, ◌≡◌, refl, sym, subst, String, Option, none, some, Bool, true, false, List, [], ◌∷◌, arith,
  eq_iff, if-intro, update_where-none,
}
use db_collector_os.Clock.{now_plus}
use db_collector_os.Models.Enums.{JobStatus, JobPhase}
use db_collector_os.JobRegistry.{Job, get, claim_queued}
use db_collector_os.JobRegistry.Held.{
  OnlyHeld, with_id, mark_queued-OnlyHeld, reset_stale_running-OnlyHeld, claim_queued-OnlyHeld,
  finish-OnlyHeld, claimed_row,
}
use db_collector_os.RunHistory.{Counts}
use db_collector_os.Collectors.Context.{Context, World}
use db_collector_os.Collectors.Passes.{run_once}
use db_collector_os.Collectors.Passes.Held.{Keeps, run_once-Keeps}
use db_collector_os.Worker.{
  System, record_failure, record_success_at, finish_job, run_job_and_record, reset_each,
}
use db_collector_os.Worker.Jobs.{
  counts_of, system_of, with_tables, claim_first, queue_each, run_claimed,
}

module _ (holds : String → Bool) where
  finish_job-OnlyHeld :
      (now poll : ℕ) (job : String) (more : Bool) (jobs : List Job)
      → OnlyHeld (with_id job holds) jobs
      → OnlyHeld holds (finish_job now poll job more jobs)
  unfolding finish_job
  finish_job-OnlyHeld now poll job true jobs =
      finish-OnlyHeld holds now job JobStatus.continuing none (some (now_plus now poll)) jobs refl
  finish_job-OnlyHeld now poll job false jobs =
      finish-OnlyHeld holds now job JobStatus.completed none none jobs refl

  -- run_job_and_record returns, and the job is no longer running.
  recorded-OnlyHeld :
      (now : ℕ) (new_id : String) (poll : ℕ) (job : String) (phase : JobPhase) (o : Option Counts)
      (s : System) (k : Job)
      → get job s.jobs ≡ some k
      → OnlyHeld (with_id job holds) s.jobs
      → (t : System) × (status : JobStatus) × (run_job_and_record now new_id poll job phase o s
          ≡ some (t, status))
        × OnlyHeld holds t.jobs
  unfolding run_job_and_record record_failure record_success_at
  recorded-OnlyHeld now new_id poll job phase none s k here h =
      (_, _, refl, finish-OnlyHeld holds now job JobStatus.failed none none s.jobs refl h)
  recorded-OnlyHeld now new_id poll job phase (some o) s k here h = (
    (record_success_at now poll job o k s).0,
    (record_success_at now poll job o k s).1,
    rw here refl,
    finish_job-OnlyHeld now poll job _ s.jobs h,
  )

  pub run_claimed-OnlyHeld :
      (w : World) (poll : ℕ) (j : Job) (c : Context)
      → Keeps (with_id j.job_id holds) j.job_id c
      → (d : Context) × (status : JobStatus) × (run_claimed w poll j c ≡ (d, some status))
        × OnlyHeld holds d.jobs
  unfolding run_claimed
  run_claimed-OnlyHeld w poll j c h =
      let d = (run_once w j c).0 in
      let kept = run_once-Keeps w (with_id j.job_id holds) j c h in
      let (k, here) = kept.row in
      let (s, status, run, held) =
        recorded-OnlyHeld d.now (w.new_id d.drawn) poll j.job_id j.phase
          (counts_of (run_once w j c).1) (system_of d) k here kept.held in
      (with_tables d s, status, rw run refl, held)

  pub queue_each-OnlyHeld :
      (now : ℕ) (js jobs : List Job) → OnlyHeld holds jobs → OnlyHeld holds (queue_each now js jobs)
  queue_each-OnlyHeld now [] jobs h = h
  queue_each-OnlyHeld now (j ∷ js) jobs h =
      queue_each-OnlyHeld now js _ (mark_queued-OnlyHeld holds now j.job_id jobs h)

  pub reset_each-OnlyHeld :
      (now : ℕ) (js jobs : List Job) → OnlyHeld holds jobs → OnlyHeld holds (reset_each now js jobs)
  unfolding reset_each
  reset_each-OnlyHeld now [] jobs h = h
  reset_each-OnlyHeld now (j ∷ js) jobs h =
      reset_each-OnlyHeld now js _ (reset_stale_running-OnlyHeld holds now j.job_id jobs h)

  -- After the claim: one more job may be running, and its row is there.
  abbrev pub Claimed : List Job × Option Job → Type 0
  Claimed (jobs, none) = OnlyHeld holds jobs
  Claimed (jobs, some k) =
      OnlyHeld (with_id k.job_id holds) jobs × ((x : Job) × (get k.job_id jobs ≡ some x))

  claim_queued-Claimed :
      (now : ℕ) (id : String) (jobs : List Job)
      → OnlyHeld holds jobs
      → (claim_queued now id jobs).1 ≡ true
      → Claimed ((claim_queued now id jobs).0, get id (claim_queued now id jobs).0)
  claim_queued-Claimed now id jobs h e =
      let (k, here, m) = claimed_row now id jobs e in
      let same : k.job_id ≡ id = ground (arith, eq_iff k.job_id id, m) in
      rw here (
        subst (λ (x : String). OnlyHeld (with_id x holds) (claim_queued now id jobs).0) (sym same)
            (claim_queued-OnlyHeld holds now id jobs h),
        (k, subst (λ (x : String). get x (claim_queued now id jobs).0 ≡ some k) (sym same) here),
      )

  pub claim_first-Claimed :
      (now : ℕ) (js jobs : List Job) → OnlyHeld holds jobs → Claimed (claim_first now js jobs)
  unfolding claim_queued
  claim_first-Claimed now [] jobs h = h
  claim_first-Claimed now (j ∷ js) jobs h =
      if-intro Claimed (claim_queued now j.job_id jobs).1 _ _
        (claim_queued-Claimed now j.job_id jobs h)
        (λ e.
          claim_first-Claimed now js _
            (subst (OnlyHeld holds) (sym (update_where-none _ _ jobs e)) h))
