-- ===== src/Worker/Jobs.antt =====
-- run_job_and_record of db_collector_os/worker.py with the pass that it makes, and
-- `_claim_any_queued` of Worker.
pub mod Completed
pub mod Held
use db_collector_os.Prelude.{
  ℕ, suc, String, Option, none, some, Bool, true, false, ◌&&◌, ◌||◌, List, [], ◌∷◌, ltb, ◌=?◌,
  if◌then◌else◌, select, order_by,
}
use db_collector_os.Models.Enums.{JobStatus, is_job_status}
use db_collector_os.JobRegistry.{Job, list_jobs, due_jobs, mark_queued, claim_queued, get}
use db_collector_os.RunHistory.{Counts}
use db_collector_os.Collectors.Context.{Context, RunOutcome, World}
use db_collector_os.Collectors.Passes.{as_kwargs, run_once}
use db_collector_os.Worker.{System, run_job_and_record}

abbrev pub counts_of : Option RunOutcome → Option Counts
counts_of none = none
counts_of (some o) = some (as_kwargs o)

abbrev pub system_of : Context → System
system_of c = record {
  jobs = c.jobs;
  runs = c.runs;
  checkpoints = c.checkpoints;
  queue = c.fetch_queue;
}

abbrev pub with_tables : Context → System → Context
with_tables c s = record c {
  drawn = suc c.drawn;
  jobs = s.jobs;
  runs = s.runs;
  checkpoints = s.checkpoints;
  fetch_queue = s.queue;
}

-- Where run_job_and_record raises, it has written nothing itself.
abbrev with_system : Context → Option (System × JobStatus) → Context × Option JobStatus
with_system c none = (c, none)
with_system c (some (s, status)) = (with_tables c s, some status)

-- jobs.list(status=JobStatus.QUEUED)
abbrev pub queued_jobs : (String → String → Bool) → List Job → List Job
queued_jobs id_le jobs = list_jobs id_le (some JobStatus.queued) false none jobs

-- The loop of `_claim_any_queued`: a claim that fails leads to the next job.
abbrev pub claim_first : ℕ → List Job → List Job → List Job × Option Job
claim_first now [] jobs = (jobs, none)
claim_first now (j ∷ js) jobs =
    let claimed = claim_queued now j.job_id jobs in
    let rest = claim_first now js claimed.0 in
    if claimed.1 then (claimed.0, get j.job_id claimed.0) else rest

unfoldable pub claim_any_queued : (String → String → Bool) → ℕ → List Job → List Job × Option Job
claim_any_queued id_le now jobs = claim_first now (queued_jobs id_le jobs) jobs

-- The loop over the due jobs.
abbrev pub queue_each : ℕ → List Job → List Job → List Job
queue_each now [] jobs = jobs
queue_each now (j ∷ js) jobs = queue_each now js (mark_queued now j.job_id jobs)

module _ (w : World) where
  -- A claimed job: the context after it, and the status that is returned, or none where it raises.
  unfoldable pub run_claimed : (poll : ℕ) → Job → Context → Context × Option JobStatus
  run_claimed poll j c =
      let (d, o) = run_once w j c in
      with_system d (
        run_job_and_record d.now (w.new_id d.drawn) poll j.job_id j.phase (counts_of o)
          (system_of d))
