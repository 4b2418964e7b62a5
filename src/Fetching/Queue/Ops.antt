-- ===== src/Fetching/Queue/Ops.antt =====
-- The operations of db_collector_os/fetching/queue.py as one type, and the invariant of the table.
use db_collector_os.Prelude.{
  ℕ, ◌+◌, ◌-◌, ◌<◌, ◌≡◌, ◌≢◌, refl, ap, Option, none, some, Bool, false, List, [], ◌∷◌, String,
  arith, eq_iff, first, update_where, All, Unique, All-map, All-append, All-update_where,
  Unique-update_where, Unique-append_row, first-none, leb, select, limit, Bool-cases, inl, inr,
}
use db_collector_os.Clock.{now_iso}
use db_collector_os.Fetching.Queue.{
  Item, FetchQueue, is_row, enqueue, enqueue_at, claim_next, claim_at, mark_done, mark_skipped,
  mark_failed, fail_at, requeue_stale_fetching, requeue_for_revalidation, requeue_each, requeue,
  has_queue_id, is_outdated,
}

-- The primary key, the UNIQUE(job_id, url) constraint and the AUTOINCREMENT counter.
pub record IsWellFormed (q : FetchQueue) : Type 0 where
  pub ids : Unique (λ (i : Item). i.queue_id) q.items
  pub urls : Unique {K = String × String} (λ (i : Item). (i.job_id, i.url)) q.items
  pub below : All (λ (i : Item). i.queue_id < q.next_id) q.items

pub data QueueOp : Type 0 where
  do_enqueue : (job url : String) (priority max_attempts : ℕ) → QueueOp
  do_claim_next : (job : String) → Option (List String) → QueueOp
  do_mark_done : (id http_status : ℕ) → (content_hash etag last_modified : Option String) → QueueOp
  do_mark_skipped : (id : ℕ) (reason : String) → QueueOp
  do_mark_failed : (id : ℕ) (message : String) → (http_status retry_after : Option ℕ) → QueueOp
  do_requeue_stale_fetching : (job : String) → QueueOp
  do_requeue_for_revalidation : (job : String) (older_than max : ℕ) → QueueOp

module _ (normalize_url extract_domain : String → String) where
  unfoldable pub apply : ℕ → QueueOp → FetchQueue → FetchQueue
  apply now (do_enqueue job url p m) q = (enqueue normalize_url extract_domain now job url p m q).0
  apply now (do_claim_next job domains) q = (claim_next now job domains q).0
  apply now (do_mark_done id http hash etag modified) q = mark_done now id http hash etag modified q
  apply now (do_mark_skipped id reason) q = mark_skipped now id reason q
  apply now (do_mark_failed id message http retry_after) q =
      mark_failed now id message http retry_after q
  apply now (do_requeue_stale_fetching job) q = (requeue_stale_fetching job q).0
  apply now (do_requeue_for_revalidation job older max) q =
      (requeue_for_revalidation now job older max q).0

  unfoldable pub run_ops : List (ℕ × QueueOp) → FetchQueue → FetchQueue
  unfolding apply
  run_ops [] q = q
  run_ops ((now, op) ∷ ops) q = run_ops ops (apply now op q)

-- An UPDATE that leaves the keys alone.
update-IsWellFormed :
    (p : Item → Bool) (f : Item → Item)
    → ((i : Item) → (f i).queue_id ≡ i.queue_id)
    → ((i : Item) → (f i).job_id ≡ i.job_id)
    → ((i : Item) → (f i).url ≡ i.url)
    → (q : FetchQueue) → IsWellFormed q
    → IsWellFormed (record q { items = update_where p f q.items })
update-IsWellFormed p f a b c q w = record {
  ids = Unique-update_where (λ (i : Item). i.queue_id) p f a q.items w.ids;
  urls =
      Unique-update_where {K = String × String} (λ (i : Item). (i.job_id, i.url)) p f
        (λ i k. (b i k, c i k)) q.items w.urls;
  below = All-update_where _ p f (λ i h. rw (a i) h) q.items w.below;
}

row_differs :
    (job url : String) (i : Item)
    → is_row job url i ≡ false
    → ◌≢◌ {A = String × String} (i.job_id, i.url) (job, url)
row_differs job url i h e = ground (
  arith,
  eq_iff i.job_id job,
  eq_iff i.url url,
  ap (λ (p : String × String). p.0) e,
  ap (λ (p : String × String). p.1) e,
)

module _ (normalize_url extract_domain : String → String) where
  enqueue-IsWellFormed :
      (now : ℕ) (job url : String) (p m : ℕ) (q : FetchQueue) (o : Option Item)
      → first (is_row job (normalize_url url)) q.items ≡ o
      → IsWellFormed q
      → IsWellFormed (enqueue_at normalize_url extract_domain now job url p m o q).0
  enqueue-IsWellFormed now job url p m q (some i) e w = w
  enqueue-IsWellFormed now job url p m q none e w = record {
    ids =
        Unique-append_row (λ (i : Item). i.queue_id) q.items _ w.ids
          (All-map _ _ (λ i h k. omega arith) q.items w.below);
    urls =
        Unique-append_row {K = String × String} (λ (i : Item). (i.job_id, i.url)) q.items _ w.urls
          (All-map _ _ (row_differs job (normalize_url url)) q.items (first-none _ q.items e));
    below =
        All-append _ q.items _ (All-map _ _ (λ i h. omega arith) q.items w.below) (omega arith, tt);
  }

pub claim-IsWellFormed :
    (o : Option Item) (q : FetchQueue) → IsWellFormed q → IsWellFormed (claim_at o q).0
claim-IsWellFormed none q w = w
claim-IsWellFormed (some i) q w = update-IsWellFormed _ _ (λ i. refl) (λ i. refl) (λ i. refl) q w

fail-IsWellFormed :
    (now id : ℕ) (message : String) (http retry_after : Option ℕ) (o : Option Item) (q : FetchQueue)
    → IsWellFormed q
    → IsWellFormed (record q { items = fail_at now id message http retry_after o q.items })
fail-IsWellFormed now id message http retry_after none q w = w
fail-IsWellFormed now id message http retry_after (some i) q w =
    elim (Bool-cases (leb i.max_attempts (i.attempt_count + 1))) [
      | inl t ↦ rw t (update-IsWellFormed _ _ (λ i. refl) (λ i. refl) (λ i. refl) q w)
      | inr t ↦ rw t (update-IsWellFormed _ _ (λ i. refl) (λ i. refl) (λ i. refl) q w)
    ]

requeue_each-IsWellFormed :
    (rs : List Item) (q : FetchQueue)
    → IsWellFormed q
    → IsWellFormed (record q { items = requeue_each rs q.items })
unfolding requeue_each
requeue_each-IsWellFormed [] q w = w
requeue_each-IsWellFormed (r ∷ rs) q w =
    requeue_each-IsWellFormed rs
      (record q { items = update_where (has_queue_id r.queue_id) requeue q.items })
      (update-IsWellFormed _ _ (λ i. refl) (λ i. refl) (λ i. refl) q w)

module _ (normalize_url extract_domain : String → String) where
  -- Every operation, in whatever state the queue is, keeps the queue_ids distinct and below the
  -- counter, and one row for each job and URL.
  pub apply-IsWellFormed :
      (now : ℕ) (op : QueueOp) (q : FetchQueue)
      → IsWellFormed q
      → IsWellFormed (apply normalize_url extract_domain now op q)
  unfolding apply enqueue claim_next mark_done mark_skipped mark_failed requeue_stale_fetching
      requeue_for_revalidation
  apply-IsWellFormed now (do_enqueue job url p m) q w =
      enqueue-IsWellFormed normalize_url extract_domain now job url p m q
        (first (is_row job (normalize_url url)) q.items) refl w
  apply-IsWellFormed now (do_claim_next job domains) q w = claim-IsWellFormed _ q w
  apply-IsWellFormed now (do_mark_failed id message http retry_after) q w =
      fail-IsWellFormed now id message http retry_after (first (has_queue_id id) q.items) q w
  apply-IsWellFormed now (do_requeue_for_revalidation job older max) q w =
      requeue_each-IsWellFormed
        (limit max (select (is_outdated (now_iso (now - older)) job) q.items)) q w
  apply-IsWellFormed now (do_mark_done id http hash etag modified) q w =
      update-IsWellFormed _ _ (λ i. refl) (λ i. refl) (λ i. refl) q w
  apply-IsWellFormed now (do_mark_skipped id reason) q w =
      update-IsWellFormed _ _ (λ i. refl) (λ i. refl) (λ i. refl) q w
  apply-IsWellFormed now (do_requeue_stale_fetching job) q w =
      update-IsWellFormed _ _ (λ i. refl) (λ i. refl) (λ i. refl) q w

  run_ops-IsWellFormed :
      (ops : List (ℕ × QueueOp)) (q : FetchQueue)
      → IsWellFormed q
      → IsWellFormed (run_ops normalize_url extract_domain ops q)
  unfolding run_ops
  run_ops-IsWellFormed [] q w = w
  run_ops-IsWellFormed ((now, op) ∷ ops) q w =
      run_ops-IsWellFormed ops (apply normalize_url extract_domain now op q)
        (apply-IsWellFormed now op q w)

  abbrev pub empty : FetchQueue
  empty = record { items = []; next_id = 1 }

  -- A queue that starts empty is well formed after any calls in any order, each call one step.
  pub reachable-IsWellFormed :
      (ops : List (ℕ × QueueOp)) → IsWellFormed (run_ops normalize_url extract_domain ops empty)
  reachable-IsWellFormed ops =
      run_ops-IsWellFormed ops empty (record { ids = tt; urls = tt; below = tt })
