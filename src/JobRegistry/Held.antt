-- ===== src/JobRegistry/Held.antt =====
-- Which jobs are running: the statuses of the table of db_collector_os/job_registry.py.
use db_collector_os.Prelude.{
  ℕ, ◌≡◌, refl, String, Option, some, Bool, true, false, not, ◌&&◌, ◌||◌, ◌==◌, List, [], ◌∷◌,
  arith, Bool-cases, inl, inr, first, count, ltb, All, All-update_where, All-update_split,
  first-update_where, first_matches, if◌then◌else◌,
}
use db_collector_os.Clock.{now_iso}
use db_collector_os.Models.Enums.{JobStatus, JobPhase, queued, running, retry, is_job_status}
use db_collector_os.JobRegistry.{
  Job, has_id, get, schedulable, set_phase, mark_queued, claimable, start, claim_queued, finish,
  finished, reset_stale_running,
}

-- A job that is running is one of those that `holds` names.
abbrev pub is_held : (String → Bool) → Job → Bool
is_held holds k = not (is_job_status k.status running) || holds k.job_id

abbrev pub OnlyHeld : (String → Bool) → List Job → Type 0
OnlyHeld holds jobs = All (λ k. is_held holds k ≡ true) jobs

abbrev pub with_id : String → (String → Bool) → String → Bool
with_id id holds x = (x == id) || holds x

module _ (holds : String → Bool) where
  pub set_phase-OnlyHeld :
      (now : ℕ) (id : String) (phase : JobPhase) (jobs : List Job)
      → OnlyHeld holds jobs
      → OnlyHeld holds (set_phase now id phase jobs)
  unfolding set_phase
  set_phase-OnlyHeld now id phase jobs = All-update_where _ _ _ (λ k h. h) jobs

  pub mark_queued-OnlyHeld :
      (now : ℕ) (id : String) (jobs : List Job)
      → OnlyHeld holds jobs
      → OnlyHeld holds (mark_queued now id jobs)
  unfolding mark_queued
  mark_queued-OnlyHeld now id jobs =
      All-update_where _ (λ k. has_id id k && schedulable k.status)
        (λ k. record k { status = queued; updated_at = now_iso now }) (λ k h. refl) jobs

  pub reset_stale_running-OnlyHeld :
      (now : ℕ) (id : String) (jobs : List Job)
      → OnlyHeld holds jobs
      → OnlyHeld holds (reset_stale_running now id jobs)
  unfolding reset_stale_running
  reset_stale_running-OnlyHeld now id jobs =
      All-update_where _ (λ k. has_id id k && is_job_status k.status running)
        (λ k. record k { status = retry; updated_at = now_iso now }) (λ k h. refl) jobs

  -- A claim adds the job to those that may be running, and `finish` takes it away.
  pub claim_queued-OnlyHeld :
      (now : ℕ) (id : String) (jobs : List Job)
      → OnlyHeld holds jobs
      → OnlyHeld (with_id id holds) (claim_queued now id jobs).0
  unfolding claim_queued
  claim_queued-OnlyHeld now id jobs =
      All-update_split _ _ (claimable id) (start now) (λ k e h. ground (arith, e))
        (λ k e h. ground (arith, h)) jobs

  pub finish-OnlyHeld :
      (now : ℕ) (id : String) (status : JobStatus) (phase : Option JobPhase) (t : Option ℕ)
      (jobs : List Job)
      → is_job_status status running ≡ false
      → OnlyHeld (with_id id holds) jobs
      → OnlyHeld holds (finish now id status phase t jobs)
  unfolding finish finished
  finish-OnlyHeld now id status phase t jobs ended =
      All-update_split _ _ (has_id id) _ (λ k e h. rw ended refl) (λ k e h. ground (arith, e, h))
        jobs

claimable_row :
    (id : String) (jobs : List Job)
    → ltb 0 (count (claimable id) jobs) ≡ true
    → (k : Job) × (first (has_id id) jobs ≡ some k)
claimable_row id [] h = absurd (cc h)
claimable_row id (j ∷ jobs) h = elim (Bool-cases (has_id id j)) [
  | inl e ↦ (j, rw e refl)
  | inr e ↦ rw e (claimable_row id jobs (ground (arith, e, h)))
]

-- A claim that succeeds finds the job's row.
pub claimed_row :
    (now : ℕ) (id : String) (jobs : List Job)
    → (claim_queued now id jobs).1 ≡ true
    → (k : Job) × (get id (claim_queued now id jobs).0 ≡ some k) × (has_id id k ≡ true)
unfolding claim_queued get
claimed_row now id jobs h =
    let (k, e) = claimable_row id jobs h in
    let found = first-update_where (claimable id) (has_id id) (start now) (λ j. refl) jobs in
    let k' = if claimable id k then start now k else k in
    let here : first (has_id id) (claim_queued now id jobs).0 ≡ some k' = rw found (rw e refl) in
    (k', here, first_matches (has_id id) _ k' here)
