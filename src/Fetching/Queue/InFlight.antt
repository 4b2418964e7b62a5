-- ===== src/Fetching/Queue/InFlight.antt =====
-- A claimed row against any sequence of the operations of db_collector_os/fetching/queue.py.
use db_collector_os.Prelude.{
  ℕ, ◌+◌, ◌-◌, ◌<◌, ◌≡◌, ◌≢◌, refl, sym, ◌∙◌, Option, none, some, List, [], ◌∷◌, String, arith,
  eq_iff, first, update_where, select, limit, All, All-append, All-update_where, All-limit,
  Bool-cases, inl, inr, leb, =?→eq,
}
use db_collector_os.Clock.{now_iso}
use db_collector_os.Models.Enums.{queued, fetching}
use db_collector_os.Fetching.Queue.{
  Item, FetchQueue, is_row, enqueue, enqueue_at, claim_next, claim_at, mark_done, mark_skipped,
  mark_failed, fail_at, requeue_stale_fetching, requeue_for_revalidation, requeue_each, requeue,
  has_queue_id, is_outdated, is_stale,
}
use db_collector_os.Fetching.Queue.Ops.{
  QueueOp, do_enqueue, do_claim_next, do_mark_done, do_mark_skipped, do_mark_failed,
  do_requeue_stale_fetching, do_requeue_for_revalidation, apply,
}

-- A call that does not end the fetch of the row: not `mark_done`, `mark_skipped` or `mark_failed`
-- of the row, nor the recovery of the job's rows.
abbrev pub LeavesInFlight : ℕ → String → QueueOp → Type 0
LeavesInFlight id job (do_mark_done k http hash etag modified) = k ≢ id
LeavesInFlight id job (do_mark_skipped k reason) = k ≢ id
LeavesInFlight id job (do_mark_failed k message http retry_after) = k ≢ id
LeavesInFlight id job (do_requeue_stale_fetching k) = k ≢ job
LeavesInFlight id job _ = Unit

module _ (normalize_url extract_domain : String → String) (id : ℕ) (job : String) where
  -- The row with the queue_id is the job's and is being fetched.
  abbrev pub Kept : Item → Type 0
  Kept i = i.queue_id ≡ id → (i.job_id ≡ job) × (i.status ≡ fetching)

  pub record InFlight (q : FetchQueue) : Type 0 where
    pub kept : All Kept q.items
    pub below : id < q.next_id

  other_row :
      (f : Item → Item) (k : ℕ)
      → k ≢ id
      → (items : List Item) → ((i : Item) → (f i).queue_id ≡ i.queue_id)
      → All Kept items
      → All Kept (update_where (has_queue_id k) f items)
  other_row f k ne [] same h = tt
  other_row f k ne (i ∷ items) same h = elim (Bool-cases (has_queue_id k i)) [
    | inl t ↦ rw t (
      λ e. absurd (ne (sym (=?→eq i.queue_id k t) ∙ sym (same i) ∙ e)),
      other_row f k ne items same h.1,
    )
    | inr t ↦ rw t (h.0, other_row f k ne items same h.1)
  ]

  enqueue_at-InFlight :
      (now : ℕ) (job' url : String) (p m : ℕ) (o : Option Item) (q : FetchQueue)
      → InFlight q
      → InFlight (enqueue_at normalize_url extract_domain now job' url p m o q).0
  enqueue_at-InFlight now job' url p m (some i) q h = h
  enqueue_at-InFlight now job' url p m none q h = record {
    kept = All-append _ q.items _ h.kept (λ e. absurd (omega (arith, h.below)), tt);
    below = omega (arith, h.below);
  }

  pub claim_at-InFlight :
      (o : Option Item) (q : FetchQueue) → InFlight q → InFlight (claim_at o q).0
  claim_at-InFlight none q h = h
  claim_at-InFlight (some i) q h = record {
    kept = All-update_where _ _ _ (λ j k e. ((k e).0, refl)) q.items h.kept;
    below = h.below;
  }

  fail_at-InFlight :
      (now k : ℕ) (message : String) (http retry_after : Option ℕ)
      → k ≢ id
      → (o : Option Item) (items : List Item) → All Kept items
      → All Kept (fail_at now k message http retry_after o items)
  fail_at-InFlight now k message http retry_after ne none items h = h
  fail_at-InFlight now k message http retry_after ne (some i) items h =
      elim (Bool-cases (leb i.max_attempts (i.attempt_count + 1))) [
        | inl t ↦ rw t (other_row _ k ne items (λ i. refl) h)
        | inr t ↦ rw t (other_row _ k ne items (λ i. refl) h)
      ]

  requeue_each-InFlight :
      (rs items : List Item)
      → All (λ r. r.queue_id ≢ id) rs
      → All Kept items
      → All Kept (requeue_each rs items)
  unfolding requeue_each
  requeue_each-InFlight [] items ne h = h
  requeue_each-InFlight (r ∷ rs) items ne h =
      requeue_each-InFlight rs (update_where (has_queue_id r.queue_id) requeue items) ne.1
        (other_row requeue r.queue_id ne.0 items (λ i. refl) h)

  outdated_others :
      (cutoff : ℕ) (job' : String) (items : List Item)
      → All Kept items
      → All (λ r. r.queue_id ≢ id) (select (is_outdated cutoff job') items)
  outdated_others cutoff job' [] h = tt
  outdated_others cutoff job' (i ∷ items) h = elim (Bool-cases (is_outdated cutoff job' i)) [
    | inl t ↦ rw t (λ e. ground (arith, h.0 e), outdated_others cutoff job' items h.1)
    | inr t ↦ rw t (outdated_others cutoff job' items h.1)
  ]

  stale_others :
      (job' : String)
      → job' ≢ job
      → (items : List Item) → All Kept items
      → All Kept (update_where (is_stale job') (λ i. record i { status = queued }) items)
  stale_others job' ne [] h = tt
  stale_others job' ne (i ∷ items) h = elim (Bool-cases (is_stale job' i)) [
    | inl t ↦ rw t (
      λ e. absurd (ne (ground (arith, h.0 e, eq_iff i.job_id job'))),
      stale_others job' ne items h.1,
    )
    | inr t ↦ rw t (h.0, stale_others job' ne items h.1)
  ]

  pub apply-InFlight :
      (now : ℕ) (op : QueueOp) (q : FetchQueue)
      → LeavesInFlight id job op
      → InFlight q
      → InFlight (apply normalize_url extract_domain now op q)
  unfolding apply enqueue claim_next mark_done mark_skipped mark_failed requeue_stale_fetching
      requeue_for_revalidation
  apply-InFlight now (do_enqueue job' url p m) q a h =
      enqueue_at-InFlight now job' url p m (first (is_row job' (normalize_url url)) q.items) q h
  apply-InFlight now (do_claim_next job' domains) q a h = claim_at-InFlight _ q h
  apply-InFlight now (do_mark_done k http hash etag modified) q a h = record {
    kept = other_row _ k a q.items (λ i. refl) h.kept;
    below = h.below;
  }
  apply-InFlight now (do_mark_skipped k reason) q a h = record {
    kept = other_row _ k a q.items (λ i. refl) h.kept;
    below = h.below;
  }
  apply-InFlight now (do_mark_failed k message http retry_after) q a h = record {
    kept =
        fail_at-InFlight now k message http retry_after a (first (has_queue_id k) q.items) q.items
          h.kept;
    below = h.below;
  }
  apply-InFlight now (do_requeue_stale_fetching job') q a h = record {
    kept = stale_others job' a q.items h.kept;
    below = h.below;
  }
  apply-InFlight now (do_requeue_for_revalidation job' older max) q a h = record {
    kept =
        requeue_each-InFlight
          (limit max (select (is_outdated (now_iso (now - older)) job') q.items)) q.items
          (All-limit _ max _ (outdated_others (now_iso (now - older)) job' q.items h.kept)) h.kept;
    below = h.below;
  }
