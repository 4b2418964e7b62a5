-- ===== src/JobRegistry/Rows.antt =====
-- The operations of db_collector_os/job_registry.py as one type, the keys of the table, and what
-- each operation does to the row of one job.
use mathlib.Core.Option
use db_collector_os.Prelude.{
  ℕ, ◌≡◌, refl, inl, inr, Bool, true, false, Option, none, some, List, [], ◌∷◌, ◌++◌, String, arith,
  eq_iff, if◌then◌else◌, first, update_where, Unique, All-map, Unique-update_where, first-none,
  Unique-append_row, first-update_where, first-append_some, Bool-cases, first_matches,
}
use db_collector_os.Models.Enums.{JobStatus, JobPhase}
use db_collector_os.JobRegistry.{
  Job, JobSpec, has_id, new_row, create, upsert, set_status, set_phase, mark_queued, claim_queued,
  finish, pause, resume, set_enabled, reset_stale_running,
}

-- A call of a method of `JobRegistry` that writes.
pub data JobOp : Type 0 where
  do_create : JobSpec → JobOp
  do_set_status : String → JobStatus → JobOp
  do_set_phase : String → JobPhase → JobOp
  do_mark_queued : String → JobOp
  do_claim_queued : String → JobOp
  do_finish : String → JobStatus → Option JobPhase → Option ℕ → JobOp
  do_pause : String → JobOp
  do_resume : String → JobOp
  do_set_enabled : String → Bool → JobOp
  do_reset_stale_running : String → JobOp

unfoldable pub apply : ℕ → JobOp → List Job → List Job
apply now (do_create spec) jobs = create now spec jobs
apply now (do_set_status id s) jobs = set_status now id s jobs
apply now (do_set_phase id p) jobs = set_phase now id p jobs
apply now (do_mark_queued id) jobs = mark_queued now id jobs
apply now (do_claim_queued id) jobs = (claim_queued now id jobs).0
apply now (do_finish id s p t) jobs = finish now id s p t jobs
apply now (do_pause id) jobs = pause now id jobs
apply now (do_resume id) jobs = resume now id jobs
apply now (do_set_enabled id b) jobs = set_enabled now id b jobs
apply now (do_reset_stale_running id) jobs = reset_stale_running now id jobs

-- Calls of any processes, in the order in which SQLite runs their statements, each with its instant.
unfoldable pub run_ops : List (ℕ × JobOp) → List Job → List Job
unfolding apply
run_ops [] jobs = jobs
run_ops ((now, op) ∷ ops) jobs = run_ops ops (apply now op jobs)

-- The primary key.
abbrev pub IsKeyed : List Job → Type 0
IsKeyed jobs = Unique (λ (j : Job). j.job_id) jobs

fresh_key : (id : String) (j : Job) → has_id id j ≡ false → ¬ (j.job_id ≡ id)
fresh_key id j h e = ground (arith, eq_iff j.job_id id)

IsKeyed-create :
    (now : ℕ) (spec : JobSpec) (jobs : List Job) → IsKeyed jobs → IsKeyed (create now spec jobs)
unfolding create
IsKeyed-create now spec jobs u = go (first (has_id spec.job_id) jobs) refl
  where
    go : (o : Option Job) → first (has_id spec.job_id) jobs ≡ o → IsKeyed (upsert now spec o jobs)
    go none e =
        Unique-append_row (λ (j : Job). j.job_id) jobs (new_row now spec) u
          (All-map _ _ (fresh_key spec.job_id) jobs (first-none (has_id spec.job_id) jobs e))
    go (some j) e = Unique-update_where (λ (j : Job). j.job_id) _ _ (λ k. refl) jobs u

-- Every operation keeps the job_ids of the table distinct.
pub IsKeyed-apply :
    (now : ℕ) (op : JobOp) (jobs : List Job) → IsKeyed jobs → IsKeyed (apply now op jobs)
unfolding apply set_status set_phase mark_queued claim_queued finish pause resume set_enabled
    reset_stale_running
IsKeyed-apply now (do_create spec) jobs u = IsKeyed-create now spec jobs u
IsKeyed-apply now _ jobs u = Unique-update_where (λ (j : Job). j.job_id) _ _ (λ k. refl) jobs u

pub IsKeyed-run_ops :
    (ops : List (ℕ × JobOp)) (jobs : List Job) → IsKeyed jobs → IsKeyed (run_ops ops jobs)
unfolding run_ops
IsKeyed-run_ops [] jobs u = u
IsKeyed-run_ops ((now, op) ∷ ops) jobs u =
    IsKeyed-run_ops ops (apply now op jobs) (IsKeyed-apply now op jobs u)

-- The row is there and `P` holds of it.
abbrev pub RowIs : (Job → Type 0) → Option Job → Type 0
RowIs P none = ⊥
RowIs P (some j) = P j

-- What an UPDATE makes of the row of one job.
pub RowIs-update :
    (P Q : Job → Type 0) (id : String) (p : Job → Bool) (f : Job → Job)
    → ((j : Job) → has_id id (f j) ≡ has_id id j)
    → ((j : Job) → has_id id j ≡ true → P j → Q (if p j then f j else j))
    → (jobs : List Job) → RowIs P (first (has_id id) jobs)
    → RowIs Q (first (has_id id) (update_where p f jobs))
RowIs-update P Q id p f same keep jobs h =
    rw (first-update_where p (has_id id) f same jobs) (go (first (has_id id) jobs) refl h)
  where
    go :
        (o : Option Job)
        → first (has_id id) jobs ≡ o
        → RowIs P o
        → RowIs Q (Option.map (λ j. if p j then f j else j) o)
    go none e h = h
    go (some j) e h = keep j (first_matches (has_id id) jobs j e) h

module _ (P : Job → Type 0) (id : String) where
  -- An UPDATE keeps `P` of a row, if it does so for that row where it matches.
  pub RowIs-update_where :
      (p : Job → Bool) (f : Job → Job)
      → ((j : Job) → has_id id (f j) ≡ has_id id j)
      → ((j : Job) → has_id id j ≡ true → p j ≡ true → P j → P (f j))
      → (jobs : List Job) → RowIs P (first (has_id id) jobs)
      → RowIs P (first (has_id id) (update_where p f jobs))
  RowIs-update_where p f same keep jobs h =
      RowIs-update P P id p f same
        (λ j i r. elim (Bool-cases (p j)) [ inl t ↦ rw t (keep j i t r) | inr t ↦ rw t r ]) jobs h

  pub RowIs-append :
      (jobs more : List Job)
      → RowIs P (first (has_id id) jobs)
      → RowIs P (first (has_id id) (jobs ++ more))
  RowIs-append jobs more h = go (first (has_id id) jobs) refl h
    where
      go :
          (o : Option Job)
          → first (has_id id) jobs ≡ o
          → RowIs P o
          → RowIs P (first (has_id id) (jobs ++ more))
      go none e h = absurd h
      go (some j) e h = rw (first-append_some (has_id id) jobs more j e) h
