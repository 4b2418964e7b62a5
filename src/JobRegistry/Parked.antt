-- ===== src/JobRegistry/Parked.antt =====
-- Jobs that nothing schedules: those that are failed, paused or under review
-- (db_collector_os/job_registry.py).
use db_collector_os.Prelude.{
  ℕ, ◌≡◌, ◌≢◌, refl, false, Option, none, some, List, [], ◌∷◌, String, arith, first, All, ltb, hits,
}
use db_collector_os.Models.Enums.{JobStatus, queued, running, paused, failed}
use db_collector_os.JobRegistry.{
  Job, JobSpec, has_id, create, upsert, get, set_status, set_phase, mark_queued, claimable,
  claim_queued, finish, pause, resume, set_enabled, reset_stale_running, schedulable,
}
use db_collector_os.JobRegistry.Rows.{
  JobOp, do_create, do_set_status, do_set_phase, do_mark_queued, do_claim_queued, do_finish,
  do_pause, do_resume, do_set_enabled, do_reset_stale_running, apply, run_ops, IsKeyed,
  IsKeyed-run_ops, RowIs, RowIs-update_where, RowIs-append,
}
use db_collector_os.JobRegistry.Claims.{count-claimable, other_id}

pub data IsParked : JobStatus → Type 0 where
  failed_parked : IsParked failed
  paused_parked : IsParked paused
  review_parked : IsParked JobStatus.review

-- A call other than `set_status`, `finish`, `pause` and `resume` of the job.
abbrev pub LeavesParked : String → JobOp → Type 0
LeavesParked id (do_set_status k s) = k ≢ id
LeavesParked id (do_finish k s p t) = k ≢ id
LeavesParked id (do_pause k) = k ≢ id
LeavesParked id (do_resume k) = k ≢ id
LeavesParked id _ = Unit

abbrev pub HasStatus : JobStatus → Job → Type 0
HasStatus s j = j.status ≡ s

-- A parked status is none of those that the WHERE clauses ask for.
not_waiting : (s : JobStatus) → IsParked s → (schedulable s ≡ false) × (s ≢ queued) × (s ≢ running)
not_waiting s failed_parked = (refl, λ e. cc, λ e. cc)
not_waiting s paused_parked = (refl, λ e. cc, λ e. cc)
not_waiting s review_parked = (refl, λ e. cc, λ e. cc)

module _ (now : ℕ) (id : String) (s : JobStatus) (parked : IsParked s) where
  upsert-HasStatus :
      (spec : JobSpec) (o : Option Job) (jobs : List Job)
      → RowIs (HasStatus s) (first (has_id id) jobs)
      → RowIs (HasStatus s) (first (has_id id) (upsert now spec o jobs))
  unfolding create
  upsert-HasStatus spec none jobs h = RowIs-append (HasStatus s) id jobs _ h
  upsert-HasStatus spec (some j) jobs h =
      RowIs-update_where (HasStatus s) id _ _ (λ k. refl) (λ k _ _ r. r) jobs h

  apply-HasStatus :
      (op : JobOp) (jobs : List Job)
      → LeavesParked id op
      → RowIs (HasStatus s) (first (has_id id) jobs)
      → RowIs (HasStatus s) (first (has_id id) (apply now op jobs))
  unfolding apply create set_status set_phase mark_queued claim_queued finish pause resume
      set_enabled reset_stale_running
  apply-HasStatus (do_create spec) jobs a h =
      upsert-HasStatus spec (first (has_id spec.job_id) jobs) jobs h
  apply-HasStatus (do_mark_queued k) jobs a h =
      RowIs-update_where (HasStatus s) id _ _ (λ j. refl)
        (λ j _ m r. absurd (ground (arith, not_waiting s parked))) jobs h
  apply-HasStatus (do_claim_queued k) jobs a h =
      RowIs-update_where (HasStatus s) id _ _ (λ j. refl)
        (λ j _ m r. absurd (ground (arith, not_waiting s parked))) jobs h
  apply-HasStatus (do_reset_stale_running k) jobs a h =
      RowIs-update_where (HasStatus s) id _ _ (λ j. refl)
        (λ j _ m r. absurd (ground (arith, not_waiting s parked))) jobs h
  apply-HasStatus (do_set_phase k p) jobs a h =
      RowIs-update_where (HasStatus s) id _ _ (λ j. refl) (λ j _ m r. r) jobs h
  apply-HasStatus (do_set_enabled k b) jobs a h =
      RowIs-update_where (HasStatus s) id _ _ (λ j. refl) (λ j _ m r. r) jobs h
  apply-HasStatus (do_set_status k t) jobs a h =
      RowIs-update_where (HasStatus s) id _ _ (λ j. refl)
        (λ j i m r. absurd (other_id id k j a i m)) jobs h
  apply-HasStatus (do_finish k t p u) jobs a h =
      RowIs-update_where (HasStatus s) id _ _ (λ j. refl)
        (λ j i m r. absurd (other_id id k j a i m)) jobs h
  apply-HasStatus (do_pause k) jobs a h =
      RowIs-update_where (HasStatus s) id _ _ (λ j. refl)
        (λ j i m r. absurd (other_id id k j a i m)) jobs h
  apply-HasStatus (do_resume k) jobs a h =
      RowIs-update_where (HasStatus s) id _ _ (λ j. refl)
        (λ j i m r. absurd (other_id id k j a i m)) jobs h

run_ops-HasStatus :
    (id : String) (s : JobStatus)
    → IsParked s
    → (ops : List (ℕ × JobOp)) (jobs : List Job) → All (λ c. LeavesParked id c.1) ops
    → RowIs (HasStatus s) (first (has_id id) jobs)
    → RowIs (HasStatus s) (first (has_id id) (run_ops ops jobs))
unfolding run_ops
run_ops-HasStatus id s p [] jobs a h = h
run_ops-HasStatus id s p ((now, op) ∷ ops) jobs a h =
    run_ops-HasStatus id s p ops (apply now op jobs) a.1 (apply-HasStatus now id s p op jobs a.0 h)

parked_refuses :
    (later : ℕ) (id : String) (s : JobStatus) (jobs : List Job)
    → IsParked s
    → IsKeyed jobs
    → RowIs (HasStatus s) (first (has_id id) jobs)
    → (claim_queued later id jobs).1 ≡ false
unfolding claim_queued
parked_refuses later id s jobs p u h =
    rw (count-claimable id jobs u) (go (first (has_id id) jobs) h)
  where
    go : (o : Option Job) → RowIs (HasStatus s) o → ltb 0 (hits (claimable id) o) ≡ false
    go none r = absurd r
    go (some j) r = ground (arith, not_waiting s p)

-- A job that is failed, paused or under review keeps that status through every sequence of calls
-- in which nobody calls `set_status`, `finish`, `pause` or `resume` for it, and no claim of it
-- succeeds afterwards. Neither the scheduler, nor a worker's stale-job recovery, nor a re-sync of
-- the job definitions brings it back.
pub parked_stays :
    (later : ℕ) (id : String) (s : JobStatus) (jobs : List Job) (ops : List (ℕ × JobOp))
    → IsParked s
    → IsKeyed jobs
    → All (λ c. LeavesParked id c.1) ops
    → RowIs (HasStatus s) (get id jobs)
    → RowIs (HasStatus s) (get id (run_ops ops jobs))
      × ((claim_queued later id (run_ops ops jobs)).1 ≡ false)
unfolding get
parked_stays later id s jobs ops p u quiet h =
    let kept = run_ops-HasStatus id s p ops jobs quiet h in
    (kept, parked_refuses later id s (run_ops ops jobs) p (IsKeyed-run_ops ops jobs u) kept)
