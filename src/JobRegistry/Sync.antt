-- ===== src/JobRegistry/Sync.antt =====
-- `create` of db_collector_os/job_registry.py, which syncs a job definition into the registry, and
-- `finish`, which ends a run.
use db_collector_os.Prelude.{
  ℕ, ◌≡◌, ◌≢◌, ◌+◌, refl, ap, true, false, Option, none, some, List, String, arith, ◌==◌, eq_refl,
  first, first-update_where, first-append, first_matches, Bool-cases, inl, inr,
}
use db_collector_os.Clock.{now_iso}
use db_collector_os.Models.Enums.{JobStatus, JobPhase, idle, paused, is_job_status}
use db_collector_os.JobRegistry.{
  Job, JobSpec, has_id, new_row, resync, create, upsert, get, finish, finished,
}
use db_collector_os.JobRegistry.Due.{IsDue, idle_waits}
use db_collector_os.JobRegistry.Schedule.{compute_next_run, interval, strip}

-- What a second sync of a job leaves as it was.
pub record KeepsProgress (j k : Job) : Type 0 where
  pub job_id : k.job_id ≡ j.job_id
  pub phase : k.phase ≡ j.phase
  pub status : k.status ≡ j.status
  pub created_at : k.created_at ≡ j.created_at
  pub last_started_at : k.last_started_at ≡ j.last_started_at
  pub last_finished_at : k.last_finished_at ≡ j.last_finished_at
  pub next_run_at : k.next_run_at ≡ j.next_run_at

-- What a sync takes from the definition: all but the phase.
pub record FollowsSpec (spec : JobSpec) (k : Job) : Type 0 where
  pub job_name : k.job_name ≡ spec.job_name
  pub category : k.category ≡ spec.category
  pub target_db : k.target_db ≡ spec.target_db
  pub target_table : k.target_table ≡ spec.target_table
  pub collector_type : k.collector_type ≡ spec.collector_type
  pub max_depth : k.max_depth ≡ spec.max_depth
  pub concurrency : k.concurrency ≡ spec.concurrency
  pub enabled : k.enabled ≡ spec.enabled
  pub schedule : k.schedule ≡ spec.schedule
  pub priority : k.priority ≡ spec.priority
  pub adapter : k.adapter ≡ spec.adapter
  pub max_pages : k.max_pages ≡ spec.max_pages
  pub rate_limit : k.rate_limit ≡ spec.rate_limit
  pub config_json : k.config_json ≡ spec.config

get-create :
    (now : ℕ) (spec : JobSpec) (jobs : List Job)
    → get spec.job_id (create now spec jobs) ≡ elim (get spec.job_id jobs) [
      | none ↦ some (new_row now spec)
      | some j ↦ some (resync now spec j)
    ]
unfolding get create
get-create now spec jobs = go (first (has_id spec.job_id) jobs) refl
  where
    go :
        (o : Option Job)
        → first (has_id spec.job_id) jobs ≡ o
        → first (has_id spec.job_id) (upsert now spec o jobs)
          ≡ elim o [ none ↦ some (new_row now spec) | some j ↦ some (resync now spec j) ]
    go none e = rw (first-append (has_id spec.job_id) jobs _ e) (rw eq_refl)
    go (some j) e =
        rw
          (first-update_where (has_id spec.job_id) (has_id spec.job_id) (resync now spec)
            (λ k. refl) jobs)
          (rw e (rw (first_matches (has_id spec.job_id) jobs j e)))

-- Syncing a job that is in the registry takes over every column of its new definition but the phase,
-- and keeps its phase, status, run times and next_run_at.
pub create_existing :
    (now : ℕ) (spec : JobSpec) (jobs : List Job) (j : Job)
    → get spec.job_id jobs ≡ some j
    → (k : Job) × (get spec.job_id (create now spec jobs) ≡ some k)
      × KeepsProgress j k
      × FollowsSpec spec k
unfolding create
create_existing now spec jobs j h = (
  resync now spec j,
  rw (get-create now spec jobs, h),
  record {
    job_id = refl;
    phase = refl;
    status = refl;
    created_at = refl;
    last_started_at = refl;
    last_finished_at = refl;
    next_run_at = refl;
  },
  ground arith,
)

-- Syncing a job that is not in the registry adds it: idle, in the phase of the definition, and, if
-- it is enabled, due at once.
pub create_missing :
    (now : ℕ) (spec : JobSpec) (jobs : List Job)
    → get spec.job_id jobs ≡ none
    → (k : Job) × (get spec.job_id (create now spec jobs) ≡ some k)
      × (k.status ≡ idle)
      × (k.phase ≡ spec.phase)
      × FollowsSpec spec k
      × (spec.enabled ≡ true → IsDue (now_iso now) k)
unfolding create
create_missing now spec jobs h = (
  new_row now spec,
  rw (get-create now spec jobs, h),
  refl,
  refl,
  ground arith,
  λ on. record { on = on; waits = idle_waits; time = λ t e. ground arith },
)

-- `compute_next_run` counts whole seconds: the present second and the interval of the schedule.
pub compute_next_run_lem :
    (schedule : String) (now : ℕ)
    → (schedule ≡ "" → compute_next_run schedule now ≡ now_iso now + 3600)
      × ((schedule == "") ≡ false
          → compute_next_run schedule now ≡ now_iso now + interval (strip schedule))
unfolding compute_next_run
compute_next_run_lem schedule now = (λ e. rw e (omega arith), λ e. rw e (omega arith))

-- What `finish` makes of the row of its job.
pub record Finishes (now : ℕ) (s : JobStatus) (p : Option JobPhase) (override : Option ℕ)
    (j k : Job) : Type 0 where
  pub status : k.status ≡ s
  pub last_finished_at : k.last_finished_at ≡ some (now_iso now)
  pub stopped : s ≡ paused → k.next_run_at ≡ none
  pub scheduled :
      s ≢ paused → override ≡ none → k.next_run_at ≡ some (compute_next_run j.schedule now)
  pub overridden : s ≢ paused → (t : ℕ) → override ≡ some t → k.next_run_at ≡ some t
  pub phase_kept : p ≡ none → k.phase ≡ j.phase
  pub enabled : k.enabled ≡ j.enabled

paused_test : (s : JobStatus) → is_job_status s paused ≡ true → s ≡ paused
paused_test s h = ground arith

finished-Finishes :
    (now : ℕ) (s : JobStatus) (p : Option JobPhase) (override : Option ℕ) (j : Job)
    → Finishes now s p override j (finished now (some j) s p override j)
unfolding finished
finished-Finishes now s p override j = record {
  status = refl;
  last_finished_at = refl;
  stopped = λ e. rw e refl;
  scheduled = λ ne e. elim (Bool-cases (is_job_status s paused)) [
    | inl t ↦ absurd (ne (paused_test s t))
    | inr t ↦ ground arith
  ];
  overridden = λ ne t e. elim (Bool-cases (is_job_status s paused)) [
    | inl u ↦ absurd (ne (paused_test s u))
    | inr u ↦ ground arith
  ];
  phase_kept = λ e. rw e refl;
  enabled = refl;
}

-- `finish` gives the job the status of the run. Paused, it gets no next run; otherwise its next run
-- is the override, or, with none, comes after the whole interval of its schedule. With no next
-- phase the phase stays, and `enabled` stays.
pub get-finish :
    (now : ℕ) (id : String) (s : JobStatus) (p : Option JobPhase) (override : Option ℕ)
    (jobs : List Job) (j : Job)
    → get id jobs ≡ some j
    → (k : Job) × (get id (finish now id s p override jobs) ≡ some k)
      × Finishes now s p override j k
unfolding finish
get-finish now id s p override jobs j h = (
  finished now (some j) s p override j,
  rw
      (first-update_where (has_id id) (has_id id) (finished now (get id jobs) s p override)
        (λ k. refl) jobs)
      (rw h (
        rw (first_matches (has_id id) jobs j h)
          (ap (λ o. some (finished now o s p override j)) h))),
  finished-Finishes now s p override j,
)
