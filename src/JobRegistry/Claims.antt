-- ===== src/JobRegistry/Claims.antt =====
-- Claiming a job: `claim_queued` of db_collector_os/job_registry.py against any interleaving of
-- the other operations, by whichever scheduler, worker or command runs them.
use db_collector_os.Prelude.{
  ℕ, ◌≡◌, ◌≢◌, refl, ◌↔◌, true, false, Option, none, some, List, [], ◌∷◌, String, arith, eq_iff,
  first, count, All, ltb, hits, count_key, first_matches,
}
use db_collector_os.Models.Enums.{queued, running}
use db_collector_os.JobRegistry.{
  Job, JobSpec, has_id, create, upsert, get, set_status, set_phase, mark_queued, claimable,
  claim_queued, start, finish, pause, resume, set_enabled, reset_stale_running,
}
use db_collector_os.JobRegistry.Rows.{
  JobOp, do_create, do_set_status, do_set_phase, do_mark_queued, do_claim_queued, do_finish,
  do_pause, do_resume, do_set_enabled, do_reset_stale_running, apply, run_ops, IsKeyed,
  IsKeyed-apply, IsKeyed-run_ops, RowIs, RowIs-update, RowIs-update_where, RowIs-append,
}

same_id : (id : String) (i j : Job) → has_id id i ≡ true → has_id id j ≡ true → j.job_id ≡ i.job_id
same_id id i j h k = ground (arith, eq_iff i.job_id id, eq_iff j.job_id id)

-- The rows that a claim updates are the one row of the job, if it can be claimed.
pub count-claimable :
    (id : String) (jobs : List Job)
    → IsKeyed jobs
    → count (claimable id) jobs ≡ hits (claimable id) (first (has_id id) jobs)
count-claimable id jobs u =
    count_key (λ (j : Job). j.job_id) (has_id id) (claimable id) (same_id id) (λ j h. rw h) jobs u

-- A claim succeeds exactly when the job's row is there, queued and enabled.
pub claim_queued-succeeds :
    (now : ℕ) (id : String) (jobs : List Job)
    → IsKeyed jobs
    → ((claim_queued now id jobs).1 ≡ true)
      ↔ RowIs (λ j. (j.status ≡ queued) × (j.enabled ≡ true)) (get id jobs)
unfolding claim_queued get
claim_queued-succeeds now id jobs u =
    rw (count-claimable id jobs u) (go (first (has_id id) jobs) refl)
  where
    go :
        (o : Option Job)
        → first (has_id id) jobs ≡ o
        → (ltb 0 (hits (claimable id) o) ≡ true)
          ↔ RowIs (λ j. (j.status ≡ queued) × (j.enabled ≡ true)) o
    go none e = (λ h. ground arith, λ h. absurd h)
    go (some j) e =
        let here = first_matches (has_id id) jobs j e in
        (λ h. ground (arith, here), λ h. ground (arith, here))

-- A call that does not take the job out of `running`: those that may are `finish`, `pause`,
-- `resume`, `set_status` and `reset_stale_running` on this job.
abbrev pub LeavesRunning : String → JobOp → Type 0
LeavesRunning id (do_set_status k s) = k ≢ id
LeavesRunning id (do_finish k s p t) = k ≢ id
LeavesRunning id (do_pause k) = k ≢ id
LeavesRunning id (do_resume k) = k ≢ id
LeavesRunning id (do_reset_stale_running k) = k ≢ id
LeavesRunning id _ = Unit

abbrev IsRunning : Job → Type 0
IsRunning j = j.status ≡ running

pub other_id : (id k : String) (j : Job) → k ≢ id → has_id id j ≡ true → has_id k j ≡ true → ⊥
other_id id k j ne h l = ne (ground (arith, eq_iff j.job_id id, eq_iff j.job_id k))

module _ (now : ℕ) (id : String) where
  upsert-IsRunning :
      (spec : JobSpec) (o : Option Job) (jobs : List Job)
      → RowIs IsRunning (first (has_id id) jobs)
      → RowIs IsRunning (first (has_id id) (upsert now spec o jobs))
  unfolding create
  upsert-IsRunning spec none jobs h = RowIs-append IsRunning id jobs _ h
  upsert-IsRunning spec (some j) jobs h =
      RowIs-update_where IsRunning id _ _ (λ k. refl) (λ k _ _ r. r) jobs h

  apply-IsRunning :
      (op : JobOp) (jobs : List Job)
      → LeavesRunning id op
      → RowIs IsRunning (first (has_id id) jobs)
      → RowIs IsRunning (first (has_id id) (apply now op jobs))
  unfolding apply create set_status set_phase mark_queued claim_queued finish pause resume
      set_enabled reset_stale_running
  apply-IsRunning (do_create spec) jobs a h =
      upsert-IsRunning spec (first (has_id spec.job_id) jobs) jobs h
  apply-IsRunning (do_mark_queued k) jobs a h =
      RowIs-update_where IsRunning id _ _ (λ j. refl) (λ j _ m r. ground arith) jobs h
  apply-IsRunning (do_claim_queued k) jobs a h =
      RowIs-update_where IsRunning id _ _ (λ j. refl) (λ j _ m r. refl) jobs h
  apply-IsRunning (do_set_phase k p) jobs a h =
      RowIs-update_where IsRunning id _ _ (λ j. refl) (λ j _ m r. r) jobs h
  apply-IsRunning (do_set_enabled k b) jobs a h =
      RowIs-update_where IsRunning id _ _ (λ j. refl) (λ j _ m r. r) jobs h
  apply-IsRunning (do_set_status k s) jobs a h =
      RowIs-update_where IsRunning id _ _ (λ j. refl) (λ j i m r. absurd (other_id id k j a i m))
        jobs h
  apply-IsRunning (do_finish k s p t) jobs a h =
      RowIs-update_where IsRunning id _ _ (λ j. refl) (λ j i m r. absurd (other_id id k j a i m))
        jobs h
  apply-IsRunning (do_pause k) jobs a h =
      RowIs-update_where IsRunning id _ _ (λ j. refl) (λ j i m r. absurd (other_id id k j a i m))
        jobs h
  apply-IsRunning (do_resume k) jobs a h =
      RowIs-update_where IsRunning id _ _ (λ j. refl) (λ j i m r. absurd (other_id id k j a i m))
        jobs h
  apply-IsRunning (do_reset_stale_running k) jobs a h =
      RowIs-update_where IsRunning id _ _ (λ j. refl)
        (λ j i m r. absurd (other_id id k j a i (ground arith))) jobs h

run_ops-IsRunning :
    (id : String) (ops : List (ℕ × JobOp)) (jobs : List Job)
    → All (λ c. LeavesRunning id c.1) ops
    → RowIs IsRunning (first (has_id id) jobs)
    → RowIs IsRunning (first (has_id id) (run_ops ops jobs))
unfolding run_ops
run_ops-IsRunning id [] jobs a h = h
run_ops-IsRunning id ((now, op) ∷ ops) jobs a h =
    run_ops-IsRunning id ops (apply now op jobs) a.1 (apply-IsRunning now id op jobs a.0 h)

abbrev IsClaimable : Job → Type 0
IsClaimable j = (j.status ≡ queued) × (j.enabled ≡ true)

claimed-IsRunning :
    (now : ℕ) (id : String) (jobs : List Job)
    → RowIs IsClaimable (first (has_id id) jobs)
    → RowIs IsRunning (first (has_id id) (claim_queued now id jobs).0)
unfolding claim_queued
claimed-IsRunning now id jobs h =
    RowIs-update IsClaimable IsRunning id (claimable id) (start now) (λ j. refl)
      (λ j i c. ground (arith, i, c.0, c.1)) jobs h

running_refuses :
    (now : ℕ) (id : String) (jobs : List Job)
    → IsKeyed jobs
    → RowIs IsRunning (first (has_id id) jobs)
    → (claim_queued now id jobs).1 ≡ false
unfolding claim_queued
running_refuses now id jobs u h = rw (count-claimable id jobs u) (go (first (has_id id) jobs) h)
  where
    go : (o : Option Job) → RowIs IsRunning o → ltb 0 (hits (claimable id) o) ≡ false
    go none r = absurd r
    go (some j) r = ground arith

-- Once a claim of a job has succeeded, no other claim of it succeeds until a call that ends the
-- run: whatever sequence of calls comes in between, with no `finish`, `pause`, `resume`,
-- `set_status` or `reset_stale_running` of this job, a second claim fails.
pub claim_excludes :
    (now later : ℕ) (id : String) (jobs : List Job) (ops : List (ℕ × JobOp))
    → IsKeyed jobs
    → (claim_queued now id jobs).1 ≡ true
    → All (λ c. LeavesRunning id c.1) ops
    → (claim_queued later id (run_ops ops (claim_queued now id jobs).0)).1 ≡ false
claim_excludes now later id jobs ops u won quiet =
    let claimed = (claim_queued now id jobs).0 in
    running_refuses later id (run_ops ops claimed)
      (IsKeyed-run_ops ops claimed (unfold apply in IsKeyed-apply now (do_claim_queued id) jobs u))
      (run_ops-IsRunning id ops claimed quiet
        (claimed-IsRunning now id jobs (unfold get in (claim_queued-succeeds now id jobs u).0 won)))
