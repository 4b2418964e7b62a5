-- ===== src/Fetching/Queue/Statements/Rows.antt =====
-- The row of a queue_id stays and keeps its job: db_collector_os/fetching/queue.py.
use db_collector_os.Prelude.{
  ℕ, ◌+◌, ◌-◌, ◌≡◌, refl, ◌∙◌, String, Option, none, some, Bool, List, [], ◌∷◌, if◌then◌else◌,
  first, first-append_some, first-update_where, update_where, select, limit, leb, if-intro,
}
use db_collector_os.Clock.{now_iso}
use db_collector_os.Fetching.Queue.{
  Item, FetchQueue, is_row, enqueue, enqueue_at, claim_next, claim_at, mark_done, mark_skipped,
  mark_failed, fail_at, requeue_stale_fetching, requeue_for_revalidation, requeue_each, requeue,
  has_queue_id, is_outdated,
}
use db_collector_os.Fetching.Queue.Ops.{
  QueueOp, do_enqueue, do_claim_next, do_mark_done, do_mark_skipped, do_mark_failed,
  do_requeue_stale_fetching, do_requeue_for_revalidation, apply,
}

module _ (id : ℕ) (job : String) where
  pub record IsOf (items : List Item) : Type 0 where
    pub row : Item
    pub found : first (has_queue_id id) items ≡ some row
    pub of_job : row.job_id ≡ job

  update-IsOf :
      (p : Item → Bool) (f : Item → Item)
      → ((i : Item) → (f i).queue_id ≡ i.queue_id)
      → ((i : Item) → (f i).job_id ≡ i.job_id)
      → (items : List Item) → IsOf items
      → IsOf (update_where p f items)
  update-IsOf p f same of items h = record {
    row = if p h.row then f h.row else h.row;
    found =
        rw (first-update_where p (has_queue_id id) f (λ i. rw (same i) refl) items)
          (rw h.found refl);
    of_job =
        if-intro (λ (r : Item). r.job_id ≡ job) (p h.row) _ _ (λ _. of h.row ∙ h.of_job)
          (λ _. h.of_job);
  }

  pub claim_at-IsOf :
      (o : Option Item) (q : FetchQueue) → IsOf q.items → IsOf (claim_at o q).0.items
  claim_at-IsOf none q h = h
  claim_at-IsOf (some i) q h = update-IsOf _ _ (λ i. refl) (λ i. refl) q.items h

  fail_at-IsOf :
      (now k : ℕ) (message : String) (http retry_after : Option ℕ) (o : Option Item)
      (items : List Item)
      → IsOf items
      → IsOf (fail_at now k message http retry_after o items)
  fail_at-IsOf now k message http retry_after none items h = h
  fail_at-IsOf now k message http retry_after (some i) items h =
      if-intro IsOf (leb i.max_attempts (i.attempt_count + 1)) _ _
        (λ _. update-IsOf _ _ (λ i. refl) (λ i. refl) items h)
        (λ _. update-IsOf _ _ (λ i. refl) (λ i. refl) items h)

  requeue_each-IsOf : (rs items : List Item) → IsOf items → IsOf (requeue_each rs items)
  unfolding requeue_each
  requeue_each-IsOf [] items h = h
  requeue_each-IsOf (r ∷ rs) items h =
      requeue_each-IsOf rs (update_where (has_queue_id r.queue_id) requeue items)
        (update-IsOf _ _ (λ i. refl) (λ i. refl) items h)

  module _ (normalize_url extract_domain : String → String) where
    enqueue_at-IsOf :
        (now : ℕ) (job' url : String) (p m : ℕ) (o : Option Item) (q : FetchQueue)
        → IsOf q.items
        → IsOf (enqueue_at normalize_url extract_domain now job' url p m o q).0.items
    enqueue_at-IsOf now job' url p m (some i) q h = h
    enqueue_at-IsOf now job' url p m none q h = record {
      row = h.row;
      found = first-append_some (has_queue_id id) q.items _ h.row h.found;
      of_job = h.of_job;
    }

    pub apply-IsOf :
        (now : ℕ) (op : QueueOp) (q : FetchQueue)
        → IsOf q.items
        → IsOf (apply normalize_url extract_domain now op q).items
    unfolding apply enqueue claim_next mark_done mark_skipped mark_failed requeue_stale_fetching
        requeue_for_revalidation
    apply-IsOf now (do_enqueue job' url p m) q h =
        enqueue_at-IsOf now job' url p m (first (is_row job' (normalize_url url)) q.items) q h
    apply-IsOf now (do_claim_next job' domains) q h = claim_at-IsOf _ q h
    apply-IsOf now (do_mark_done k http hash etag modified) q h =
        update-IsOf _ _ (λ i. refl) (λ i. refl) q.items h
    apply-IsOf now (do_mark_skipped k reason) q h =
        update-IsOf _ _ (λ i. refl) (λ i. refl) q.items h
    apply-IsOf now (do_mark_failed k message http retry_after) q h =
        fail_at-IsOf now k message http retry_after (first (has_queue_id k) q.items) q.items h
    apply-IsOf now (do_requeue_stale_fetching job') q h =
        update-IsOf _ _ (λ i. refl) (λ i. refl) q.items h
    apply-IsOf now (do_requeue_for_revalidation job' older max) q h =
        requeue_each-IsOf (limit max (select (is_outdated (now_iso (now - older)) job') q.items))
          q.items h
