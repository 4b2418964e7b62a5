-- ===== src/Collectors/Phases/ErrorRate.antt =====
-- The error rate that `_advance_phase` of db_collector_os/collectors/pipeline.py reads, after the start
-- of a run.
use mathlib.Core.List.{reverse, reverse-append, reverse-cons}
use db_collector_os.Prelude.{
  ℕ, ◌≡◌, refl, String, Bool, true, List, [], ◌∷◌, ◌++◌, leb, ◌==◌, select, order_by, insert_by,
  All, All-append, All-select, eq_refl, Bool-cases, inl, inr,
}
use db_collector_os.Prelude.Sorted.{All-order_by}
use db_collector_os.Clock.{now_iso}
use db_collector_os.RunHistory.{Run, start, for_job, new_run}
use db_collector_os.Collectors.Phases.{error_rate, zero_rate}

abbrev newest_first : Run → Run → Bool
newest_first r s = leb s.started_at r.started_at

abbrev of_job : String → Run → Bool
of_job job r = r.job_id == job

module _ (P : Run → Type 0) where
  All-reverse : (a : List Run) → All P a → All P (reverse a)
  All-reverse [] h = tt
  All-reverse (r ∷ a) h =
      rw (reverse-cons r a) (All-append P (reverse a) (r ∷ []) (All-reverse a h.1) (h.0, tt))

select-append_one :
    (p : Run → Bool) (a : List Run) (r : Run)
    → p r ≡ true
    → select p (a ++ r ∷ []) ≡ select p a ++ r ∷ []
select-append_one p [] r h = rw h refl
select-append_one p (s ∷ a) r h = elim (Bool-cases (p s)) [
  | inl e ↦ rw (e, select-append_one p a r h) refl
  | inr e ↦ rw (e, select-append_one p a r h) refl
]

insert_by_front :
    (before : Run → Run → Bool) (r : Run) (rows : List Run)
    → All (λ s. before r s ≡ true) rows
    → insert_by before r rows ≡ r ∷ rows
insert_by_front before r [] h = refl
insert_by_front before r (s ∷ rows) h = rw h.0 refl

started_first :
    (r : Run) (job : String) (runs : List Run)
    → of_job job r ≡ true
    → All (λ s. newest_first r s ≡ true) runs
    → order_by newest_first (reverse (select (of_job job) (runs ++ r ∷ [])))
      ≡ r ∷ order_by newest_first (reverse (select (of_job job) runs))
started_first r job runs h k =
    rw (select-append_one (of_job job) runs r h, reverse-append (select (of_job job) runs) (r ∷ []))
      (insert_by_front newest_first r _
        (All-order_by _ newest_first _ (All-reverse _ _ (All-select _ (of_job job) runs k))))

-- Where `start` has just written a run of the job, the job's error rate is 0.0, whatever the runs before
-- it did. No run in the table has started after the instant of the call.
pub error_rate-start :
    (now : ℕ) (id job : String) (runs : List Run)
    → All (λ r. leb r.started_at (now_iso now) ≡ true) runs
    → error_rate job (start now id job runs) ≡ zero_rate
unfolding error_rate for_job start
error_rate-start now id job runs h =
    rw (started_first (new_run now id job) job runs (eq_refl job) h) refl
