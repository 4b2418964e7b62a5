-- ===== src/Worker/Jobs/Completed.antt =====
-- A pass that has returned, on the record: run_job_and_record of db_collector_os/worker.py.
use db_collector_os.Prelude.{ℕ, ◌-◌, ◌≡◌, refl, String, none, some, false, ◌==◌}
use db_collector_os.Clock.{from_iso}
use db_collector_os.Models.Enums.{JobStatus, JobPhase, RunStatus}
use db_collector_os.Models.Json.{Fields, str, get_field}
use db_collector_os.JobRegistry.{Job, get}
use db_collector_os.RunHistory
use db_collector_os.RunHistory.{Run, finalized}
use db_collector_os.RunHistory.Immutable.{finish_lem}
use db_collector_os.Checkpoints.{load}
use db_collector_os.Worker.{System, current_run_id, record_success_at, run_job_and_record}
use db_collector_os.Worker.Jobs.{run_claimed, system_of, with_tables}
use db_collector_os.Collectors.Context.{Context, RunOutcome, World}
use db_collector_os.Collectors.Passes.{as_kwargs, run_once}
use db_collector_os.Collectors.Passes.OnRecord.{OnRecord, run_once-OnRecord}

-- A completed run with the counts of the outcome.
pub record Completed (o : RunOutcome) (r : Run) : Type 0 where
  pub status : r.status ≡ RunStatus.completed
  pub fetched : r.fetched_count ≡ o.fetched
  pub inserted : r.inserted_count ≡ o.inserted
  pub updated : r.updated_count ≡ o.updated
  pub duplicates : r.duplicate_count ≡ o.duplicates
  pub reviewed : r.review_count ≡ o.reviewed
  pub errors : r.error_count ≡ o.errors
  pub discovered : r.discovered_count ≡ o.discovered

named_run :
    (id : String) (state : Fields)
    → get_field "current_run_id" state ≡ some (str id)
    → (id == "") ≡ false
    → current_run_id state ≡ some id
named_run id state names given = rw names (rw given refl)

-- After a pass that has left a run on the record, run_job_and_record completes that run.
run_job-Completed :
    (now poll : ℕ) (new_id job id : String) (phase : JobPhase) (o : RunOutcome) (d : Context)
    → OnRecord job id d
    → (s : System) × (status : JobStatus) × (run_job_and_record now new_id poll job phase
          (some (as_kwargs o))
          (system_of d)
        ≡ some (s, status))
      × (r : Run) × (RunHistory.get id s.runs ≡ some r)
      × Completed o r
unfolding run_job_and_record record_success_at
run_job-Completed now poll new_id job id phase o d rec =
    let (k, here) = rec.row in
    let (r, found, running) = rec.run in
    let out = record_success_at now poll job (as_kwargs o) k (system_of d) in
    (
      out.0,
      out.1,
      rw here refl,
      finalized now (now - from_iso r.started_at) RunStatus.completed (as_kwargs o) r,
      rw (named_run id (load job d.checkpoints).state rec.names rec.given)
          ((finish_lem now id RunStatus.completed (as_kwargs o) d.runs r found).0 running).0,
      record {
        status = refl;
        fetched = refl;
        inserted = refl;
        updated = refl;
        duplicates = refl;
        reviewed = refl;
        errors = refl;
        discovered = refl;
      },
    )

-- Where the run_id that would be drawn is new and not empty, the job is in the registry, and its pass
-- returns an outcome, run_job_and_record returns too, and leaves a run in run_history that is
-- completed and has the counts of the outcome.
pub run_claimed-Completed :
    (w : World) (poll : ℕ) (j k : Job) (c : Context) (o : RunOutcome)
    → RunHistory.get (w.new_id c.drawn) c.runs ≡ none
    → (w.new_id c.drawn == "") ≡ false
    → get j.job_id c.jobs ≡ some k
    → (run_once w j c).1 ≡ some o
    → (d : Context) × (status : JobStatus) × (run_claimed w poll j c ≡ (d, some status))
      × (id : String) × (r : Run) × (RunHistory.get id d.runs ≡ some r)
      × Completed o r
unfolding run_claimed
run_claimed-Completed w poll j k c o fresh given here e =
    let (id, rec) = run_once-OnRecord w j c o fresh given (k, here) e in
    let d = (run_once w j c).0 in
    let (s, status, run, r, found, completed) =
      run_job-Completed d.now poll (w.new_id d.drawn) j.job_id id j.phase o d rec in
    (with_tables d s, status, rw e (rw run refl), id, r, found, completed)
