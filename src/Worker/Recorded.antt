-- ===== src/Worker/Recorded.antt =====
-- What `run_job_and_record` of db_collector_os/worker.py leaves on record, whether the pass raised or not.
use mathlib.Core.Option.{some-injective}
use db_collector_os.Prelude.{
  ℕ, ◌≡◌, refl, ap, sym, ◌∙◌, subst, ◌-◌, String, Option, none, some, Bool, true, false, List, [],
  ◌∷◌, arith, inl, inr, Bool-cases, ◌==◌, eq_refl, first-append,
}
use db_collector_os.Models.Enums.{JobStatus, JobPhase, RunStatus}
use db_collector_os.Models.Json.{Fields, str, end, field, get_field}
use db_collector_os.Clock.{now_iso, from_iso, now_plus}
use db_collector_os.JobRegistry.{Job, get}
use db_collector_os.JobRegistry.Sync.{get-finish}
use db_collector_os.RunHistory
use db_collector_os.RunHistory.{Run, Counts, is_running, has_run_id, new_run, finalized}
use db_collector_os.RunHistory.Immutable.{finish_lem}
use db_collector_os.Checkpoints.{load}
use db_collector_os.Checkpoints.Resume.{load-save}
use db_collector_os.Worker.RunIds.{text_id-some}
use db_collector_os.Worker.{
  System, or_phase, pop, current_run_id, find_run, failing_run, fail_run, one_error, record_failure,
  finish_job, end_status, still_working, record_success_at, run_job_and_record,
}

get_field-pop : (key : String) (d : Fields) → get_field key (pop key d) ≡ none
get_field-pop key end = refl
get_field-pop key (field k v rest) = elim (Bool-cases (k == key)) [
  | inl q ↦ rw q (get_field-pop key rest)
  | inr q ↦ rw q (rw q (get_field-pop key rest))
]

-- The job's row has the status that was returned, and the checkpoint has no current run left.
pub record Recorded (job : String) (s : System) (status : JobStatus) : Type 0 where
  pub ended : (k : Job) × (get job s.jobs ≡ some k) × (k.status ≡ status)
  pub cleared : get_field "current_run_id" (load job s.checkpoints).state ≡ none
  pub detached : (load job s.checkpoints).run_id ≡ none

ended_more :
    (now poll : ℕ) (job : String) (more : Bool) (jobs : List Job) (j : Job)
    → get job jobs ≡ some j
    → (k : Job) × (get job (finish_job now poll job more jobs) ≡ some k)
      × (k.status ≡ end_status more)
unfolding finish_job
ended_more now poll job true jobs j h =
    let (k, e, f) =
      get-finish now job JobStatus.continuing none (some (now_plus now poll)) jobs j h in
    (k, e, f.status)
ended_more now poll job false jobs j h =
    let (k, e, f) = get-finish now job JobStatus.completed none none jobs j h in (k, e, f.status)

failure-Recorded :
    (now : ℕ) (new_id job : String) (phase : JobPhase) (s : System) (j : Job)
    → get job s.jobs ≡ some j
    → Recorded job (record_failure now new_id job phase s) JobStatus.failed
unfolding record_failure
failure-Recorded now new_id job phase s j h =
    let (k, e, f) = get-finish now job JobStatus.failed none none s.jobs j h in
    let stored =
      (load-save now job none (or_phase (load job s.checkpoints).phase phase)
        (pop "current_run_id" (load job s.checkpoints).state) s.checkpoints).0 in
    record {
      ended = (k, e, f.status);
      cleared = rw stored (get_field-pop "current_run_id" (load job s.checkpoints).state);
      detached = rw stored refl;
    }

success-Recorded :
    (now poll : ℕ) (job : String) (counts : Counts) (s : System) (j : Job)
    → get job s.jobs ≡ some j
    → Recorded job
        (record_success_at now poll job counts j s).0
        (record_success_at now poll job counts j s).1
unfolding record_success_at
success-Recorded now poll job counts s j h =
    let stored =
      (load-save now job none (some j.phase) (pop "current_run_id" (load job s.checkpoints).state)
        s.checkpoints).0 in
    record {
      ended =
          ended_more now poll job (still_working j (load job s.checkpoints).state s.queue) s.jobs j
            h;
      cleared = rw stored (get_field-pop "current_run_id" (load job s.checkpoints).state);
      detached = rw stored refl;
    }

-- `run_job_and_record` returns a status for a job that is in the registry, whether the pass raised
-- or not; then the job's row has this status, and its checkpoint neither a run nor a
-- `current_run_id`, so that the next pass starts a run of its own.
pub run_job_and_record-Recorded :
    (now : ℕ) (new_id : String) (poll : ℕ) (job : String) (phase : JobPhase)
    (counts : Option Counts) (s : System) (j : Job)
    → get job s.jobs ≡ some j
    → (s' : System) × ((status : JobStatus) × (run_job_and_record now new_id poll job phase counts s
          ≡ some (s', status))
        × Recorded job s' status)
unfolding run_job_and_record
run_job_and_record-Recorded now new_id poll job phase none s j h =
    (_, (_, refl, failure-Recorded now new_id job phase s j h))
run_job_and_record-Recorded now new_id poll job phase (some counts) s j h =
    (_, (_, rw h refl, success-Recorded now poll job counts s j h))

-- The run of the checkpoint, if it is in run_history and running.
pub record Ongoing (job id : String) (x : Run) (s : System) : Type 0 where
  pub named : get_field "current_run_id" (load job s.checkpoints).state ≡ some (str id)
  pub found : RunHistory.get id s.runs ≡ some x
  pub status : x.status ≡ RunStatus.running

-- The run `r` with the run_id `id` is the failed run that a pass of the job has left: the one that
-- was going on, or one of its own where none was.
pub data FailedRun (now : ℕ) (new_id job : String) (s : System) (id : String) (r : Run)
    : Type 0 where
  ongoing :
      (x : Run)
      → Ongoing job id x s
      → r.status ≡ RunStatus.failed
      → r.job_id ≡ x.job_id
      → r.started_at ≡ x.started_at
      → r.error_count ≡ 1
      → FailedRun now new_id job s id r
  own :
      ((k : String) (x : Run) → (k == "") ≡ false → ¬ Ongoing job k x s)
      → id ≡ new_id
      → r.status ≡ RunStatus.failed
      → r.job_id ≡ job
      → r.started_at ≡ now_iso now
      → r.error_count ≡ 1
      → FailedRun now new_id job s id r

-- The failed row, with what it keeps of the row `x` that was running.
failed_of :
    (now : ℕ) (id : String) (runs : List Run) (x : Run)
    → RunHistory.get id runs ≡ some x
    → x.status ≡ RunStatus.running
    → RunHistory.get id (fail_run now (id, runs))
      ≡ some (finalized now (now - from_iso x.started_at) RunStatus.failed one_error x)
unfolding fail_run
failed_of now id runs x h q = ((finish_lem now id RunStatus.failed one_error runs x h).0 q).0

failed_new :
    (now : ℕ) (id job : String) (runs : List Run)
    → RunHistory.get id runs ≡ none
    → RunHistory.get id (fail_run now (id, RunHistory.start now id job runs))
      ≡ some (
          finalized now
            (now - from_iso (now_iso now))
            RunStatus.failed
            one_error
            (new_run now id job))
unfolding RunHistory.get RunHistory.start
failed_new now id job runs h =
    failed_of now id _ (new_run now id job)
      (rw (first-append (has_run_id id) runs (new_run now id job ∷ []) h) (rw (eq_refl id) refl))
      refl

module _ (now : ℕ) (new_id job : String) (s : System) where
  abbrev Left : List Run × String → Type 0
  Left f =
      (id : String) × (r : Run) × (RunHistory.get id (fail_run now (f.1, f.0)) ≡ some r)
      × FailedRun now new_id job s id r

  own-Left :
      RunHistory.get new_id s.runs ≡ none
      → ((k : String) (x : Run) → (k == "") ≡ false → ¬ Ongoing job k x s)
      → Left (RunHistory.start now new_id job s.runs, new_id)
  own-Left h no_run =
      (new_id, _, failed_new now new_id job s.runs h, own no_run refl refl refl refl refl)

  named_test :
      (k : String)
      → get_field "current_run_id" (load job s.checkpoints).state ≡ some (str k)
      → (k == "") ≡ false
      → current_run_id (load job s.checkpoints).state ≡ some k
  named_test k e ne = rw e (rw ne refl)

  -- Only the run that the checkpoint names is found by its name.
  named_found :
      (id : String) (o : Option Run)
      → current_run_id (load job s.checkpoints).state ≡ some id
      → RunHistory.get id s.runs ≡ o
      → (k : String) (x : Run) → (k == "") ≡ false
      → Ongoing job k x s
      → o ≡ some x
  named_found id o c e k x ne g =
      let same : k ≡ id = some-injective k id (sym (named_test k g.named ne) ∙ c) in
      sym e ∙ subst (λ (y : String). RunHistory.get y s.runs ≡ some x) same g.found

  not_running :
      (y x : Run) → some y ≡ some x → x.status ≡ RunStatus.running → is_running y ≡ false → ⊥
  not_running y x q r t =
      let same : y.status ≡ x.status = ap (λ (z : Run). z.status) (some-injective y x q) in
      ground arith

  failing_run-Left :
      (id : Option String) (o : Option Run)
      → current_run_id (load job s.checkpoints).state ≡ id
      → find_run id s.runs ≡ o
      → RunHistory.get new_id s.runs ≡ none
      → Left (failing_run now new_id job id o s.runs)
  unfolding failing_run
  failing_run-Left none o c e h = own-Left h (λ k x ne g. absurd (cc (named_test k g.named ne, c)))
  failing_run-Left (some id) none c e h =
      own-Left h (λ k x ne g. cc (named_found id none c e k x ne g))
  failing_run-Left (some id) (some y) c e h = elim (Bool-cases (is_running y)) [
    | inl t ↦ rw t (
      id,
      _,
      failed_of now id s.runs y e (ground arith),
      ongoing y (record { named = (text_id-some _ id c).0; found = e; status = ground arith }) refl
          refl refl refl,
    )
    | inr t ↦
        rw t (
          own-Left h
            (λ k x ne g. not_running y x (named_found id (some y) c e k x ne g) g.status t))
  ]

-- A pass that raised leaves a failed row with one error in run_history: the row of the run that was
-- going on, which keeps its job and start, if the checkpoint names one that is running, and otherwise
-- a row of its own, under the run_id just drawn, for the job and from this instant. No other row has
-- that run_id.
pub failure_recorded :
    (now : ℕ) (new_id job : String) (phase : JobPhase) (s : System)
    → RunHistory.get new_id s.runs ≡ none
    → (id : String) × ((r : Run) × (RunHistory.get id (record_failure now new_id job phase s).runs
          ≡ some r)
        × FailedRun now new_id job s id r)
unfolding record_failure fail_run failing_run
failure_recorded now new_id job phase s h =
    let id = current_run_id (load job s.checkpoints).state in
    let (k, r, found, left) =
      failing_run-Left now new_id job s id (find_run id s.runs) refl refl h in
    (k, (r, found, left))
