-- ===== src/Fetching/Queue/Enqueue.antt =====
-- `enqueue` and `exists` of db_collector_os/fetching/queue.py.
use db_collector_os.Prelude.{
  ℕ, ◌≡◌, refl, ap, Option, none, some, true, String, eq_refl, first, first-append,
}
use db_collector_os.Fetching.Queue.{
  Item, FetchQueue, is_row, is_found, exists, enqueue, enqueue_at, new_item,
}

module _ (normalize_url extract_domain : String → String) (now : ℕ) (job url : String)
    (priority max_attempts : ℕ) where
  found-enqueue_at :
      (q : FetchQueue) (o : Option Item)
      → first (is_row job (normalize_url url)) q.items ≡ o
      → (i : Item) × (first
            (is_row job (normalize_url url))
            (enqueue_at normalize_url extract_domain now job url priority max_attempts o q).0.items
          ≡ some i)
        × (i.queue_id
            ≡ (enqueue_at normalize_url extract_domain now job url priority max_attempts o q).1)
  found-enqueue_at q (some i) e = (i, e, refl)
  found-enqueue_at q none e = (
    new_item normalize_url extract_domain now q.next_id job url priority max_attempts,
    rw (first-append (is_row job (normalize_url url)) q.items _ e)
        (rw (eq_refl job, eq_refl (normalize_url url))),
    refl,
  )

  found-enqueue :
      (q : FetchQueue)
      → (i : Item) × (first
            (is_row job (normalize_url url))
            (enqueue normalize_url extract_domain now job url priority max_attempts q).0.items
          ≡ some i)
        × (i.queue_id
            ≡ (enqueue normalize_url extract_domain now job url priority max_attempts q).1)
  unfolding enqueue
  found-enqueue q = found-enqueue_at q (first (is_row job (normalize_url url)) q.items) refl

  -- After `enqueue` the URL is tracked for the job.
  pub exists-enqueue :
      (q : FetchQueue)
      → exists normalize_url job url
          (enqueue normalize_url extract_domain now job url priority max_attempts q).0
        ≡ true
  unfolding exists
  exists-enqueue q = let (i, e, _) = found-enqueue q in ap is_found e

  -- A second `enqueue` for the job of a URL with the same normal form, at any time and with any
  -- priority and number of attempts, changes nothing and returns the queue_id of the first.
  pub enqueue-enqueue :
      (later : ℕ) (url' : String) (priority' max_attempts' : ℕ) (q : FetchQueue)
      → normalize_url url' ≡ normalize_url url
      → enqueue normalize_url extract_domain later job url' priority' max_attempts'
          (enqueue normalize_url extract_domain now job url priority max_attempts q).0
        ≡ enqueue normalize_url extract_domain now job url priority max_attempts q
  enqueue-enqueue later url' priority' max_attempts' q same =
      let (i, e, id) = found-enqueue q in
      unfold_again (enqueue normalize_url extract_domain now job url priority max_attempts q) i e id
    where
      unfold_again :
          (r : FetchQueue × ℕ) (i : Item)
          → first (is_row job (normalize_url url)) r.0.items ≡ some i
          → i.queue_id ≡ r.1
          → enqueue normalize_url extract_domain later job url' priority' max_attempts' r.0 ≡ r
      unfold_again r i e id = unfold enqueue in rw same (rw e (ap (λ (n : ℕ). (r.0, n)) id))
