-- ===== src/Fetching/Queue/Requeue.antt =====
-- `requeue_stale_fetching` of db_collector_os/fetching/queue.py: recovery after a worker died.
use db_collector_os.Prelude.{
  ◌+◌, ◌≡◌, ◌≢◌, refl, true, false, List, [], ◌∷◌, String, arith, ◌==◌, eq_iff, ◌&&◌, update_where,
  count, All, inl, inr, Bool-cases,
}
use db_collector_os.Models.Enums.{QueueStatus, queued, fetching, is_queue_status}
use db_collector_os.Fetching.Queue.{
  Item, FetchQueue, is_pending, is_stale, pending_count, requeue_stale_fetching, stats,
}

-- Row by row, in the order of the table.
abbrev pub AllPairs : (Item → Item → Type 0) → List Item → List Item → Type 0
AllPairs R [] [] = Unit
AllPairs R (i ∷ items) (j ∷ rows) = R i j × AllPairs R items rows
AllPairs R _ _ = ⊥

-- A row of the job that is in `fetching` is queued, and every other row is as it was.
pub data Recovers (job : String) (i j : Item) : Type 0 where
  recovered :
      i.job_id ≡ job → i.status ≡ fetching → j ≡ record i { status = queued } → Recovers job i j
  kept : ¬ ((i.job_id ≡ job) × (i.status ≡ fetching)) → j ≡ i → Recovers job i j

module _ (job : String) where
  stale_test : (i : Item) → is_stale job i ≡ false → ¬ ((i.job_id ≡ job) × (i.status ≡ fetching))
  stale_test i t h = ground (arith, eq_iff i.job_id job)

  abbrev recover : List Item → List Item
  recover items = update_where (is_stale job) (λ i. record i { status = queued }) items

  none_fetching :
      (items : List Item) → All (λ i. i.job_id ≡ job → i.status ≢ fetching) (recover items)
  none_fetching [] = tt
  none_fetching (i ∷ items) = elim (Bool-cases (is_stale job i)) [
    | inl t ↦ rw t (λ _ e. ground arith, none_fetching items)
    | inr t ↦ rw t (λ j e. ground (arith, eq_iff i.job_id job), none_fetching items)
  ]

  recovers : (items : List Item) → AllPairs (Recovers job) items (recover items)
  recovers [] = tt
  recovers (i ∷ items) = elim (Bool-cases (is_stale job i)) [
    | inl t ↦
        rw t (recovered (ground (arith, eq_iff i.job_id job)) (ground arith) refl, recovers items)
    | inr t ↦ rw t (kept (stale_test i t) refl, recovers items)
  ]

  pending_recover :
      (items : List Item)
      → count (is_pending job) (recover items)
        ≡ count (is_pending job) items + count (is_stale job) items
  pending_recover [] = omega arith
  pending_recover (i ∷ items) = ground (arith, pending_recover items)

  others_recover :
      (other : String) (s : QueueStatus)
      → other ≢ job
      → (items : List Item)
      → count (λ i. i.job_id == other && is_queue_status i.status s) (recover items)
        ≡ count (λ i. i.job_id == other && is_queue_status i.status s) items
  others_recover other s ne [] = refl
  others_recover other s ne (i ∷ items) = elim (Bool-cases (is_stale job i)) [
    | inl t ↦
        let mine : (i.job_id == job) ≡ true = ground arith in
        elim (Bool-cases (i.job_id == other)) [
          | inl o ↦ absurd (ne (ground (arith, eq_iff i.job_id job, eq_iff i.job_id other)))
          | inr o ↦ rw (t, o) (others_recover other s ne items)
        ]
    | inr t ↦ rw t (ground (arith, others_recover other s ne items))
  ]

-- The recovery queues exactly the rows of the job that are in `fetching`, and leaves every other row
-- as it is, so that no row of the job is in `fetching`; the job's pending rows have become more by the
-- number that is returned; and of every other job each status has as many rows as before.
pub requeue_stale_fetching_lem :
    (job : String) (q : FetchQueue)
    → AllPairs (Recovers job) q.items (requeue_stale_fetching job q).0.items
      × All (λ i. i.job_id ≡ job → i.status ≢ fetching) (requeue_stale_fetching job q).0.items
      × (pending_count job (requeue_stale_fetching job q).0
          ≡ pending_count job q + (requeue_stale_fetching job q).1)
      × ((other : String) (s : QueueStatus)
          → other ≢ job
          → stats other s (requeue_stale_fetching job q).0 ≡ stats other s q)
unfolding requeue_stale_fetching pending_count stats
requeue_stale_fetching_lem job q = (
  recovers job q.items,
  none_fetching job q.items,
  pending_recover job q.items,
  λ other s ne. others_recover job other s ne q.items,
)
