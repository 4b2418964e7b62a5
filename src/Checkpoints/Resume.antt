-- ===== src/Checkpoints/Resume.antt =====
-- What a resumed job reads back (db_collector_os/checkpoint.py).
use db_collector_os.Prelude.{
  ℕ, String, ◌≡◌, ◌≢◌, refl, ap, Option, none, some, false, List, [], ◌∷◌, ◌++◌, ◌==◌, eq_iff,
  eq_refl, arith, inl, inr, Bool-cases, if◌then◌else◌, first, first_matches, update_where,
  first-append, first-update_same,
}
use db_collector_os.Models.Enums.{JobPhase}
use db_collector_os.Models.Json.{Fields}
use db_collector_os.Checkpoints.{
  Checkpoint, Loaded, of_job, new_row, replaced, save, save_at, load, load_at,
}

module _ (now : ℕ) (job : String) (run : Option String) (phase : Option JobPhase)
    (state : Fields) where
  abbrev saved : Loaded
  saved = record { job_id = job; run_id = run; phase = phase; state = state }

  load_at-save_at :
      (rows : List Checkpoint) (o : Option Checkpoint)
      → first (of_job job) rows ≡ o
      → load_at job (first (of_job job) (save_at now job run phase state o rows)) ≡ saved
  load_at-save_at rows none e =
      rw (first-append (of_job job) rows (new_row now job run phase state ∷ []) e) (rw eq_refl)
  load_at-save_at rows (some c) e =
      rw (first-update_same (of_job job) (replaced now run phase state) (λ d. refl) rows c e) (
        ap (λ j. record { job_id = j; run_id = run; phase = phase; state = state })
          ((eq_iff c.job_id job).0 (first_matches (of_job job) rows c e)))

  other_update :
      (k : String)
      → k ≢ job
      → (rows : List Checkpoint)
      → first (of_job k) (update_where (of_job job) (replaced now run phase state) rows)
        ≡ first (of_job k) rows
  other_update k ne [] = refl
  other_update k ne (c ∷ rows) = elim (Bool-cases (of_job job c)) [
    | inl t ↦
        let u : (c.job_id == k) ≡ false =
          ground (arith, eq_iff c.job_id job, eq_iff c.job_id k, eq_iff k job) in
        rw (t, u) (other_update k ne rows)
    | inr t ↦ rw t (ap (λ o. if c.job_id == k then some c else o) (other_update k ne rows))
  ]

  other_append :
      (k : String)
      → k ≢ job
      → (rows : List Checkpoint)
      → first (of_job k) (rows ++ new_row now job run phase state ∷ []) ≡ first (of_job k) rows
  other_append k ne [] = ground (arith, eq_iff job k)
  other_append k ne (c ∷ rows) =
      ap (λ o. if c.job_id == k then some c else o) (other_append k ne rows)

  other_save_at :
      (k : String)
      → k ≢ job
      → (rows : List Checkpoint) (o : Option Checkpoint)
      → first (of_job k) (save_at now job run phase state o rows) ≡ first (of_job k) rows
  other_save_at k ne rows none = other_append k ne rows
  other_save_at k ne rows (some c) = other_update k ne rows

  -- What `save` has stored for a job is what `load` returns for it; what `load` returns for every
  -- other job is as before.
  pub load-save :
      (rows : List Checkpoint)
      → (load job (save now job run phase state rows) ≡ saved)
        × ((k : String) → k ≢ job → load k (save now job run phase state rows) ≡ load k rows)
  unfolding load save
  load-save rows = (
    load_at-save_at rows (first (of_job job) rows) refl,
    λ k ne. ap (load_at k) (other_save_at k ne rows (first (of_job job) rows)),
  )
