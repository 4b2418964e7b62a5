-- ===== src/Fetching/Queue/Settled.antt =====
-- Rows left in `fetching` by the methods of db_collector_os/fetching/queue.py.
use db_collector_os.Prelude.{
  ℕ, ◌+◌, ◌-◌, ◌≡◌, ◌≢◌, refl, Option, none, some, false, List, [], ◌∷◌, String, arith,
  update_where, first, leb, All, All-append, All-update_where, first-none, =?→eq, if-intro, inl,
  inr, Bool-cases, limit, select,
}
use db_collector_os.Clock.{now_iso}
use db_collector_os.Models.Enums.{fetching}
use db_collector_os.Fetching.Queue.{
  Item, FetchQueue, has_queue_id, is_row, enqueue, enqueue_at, claim_next, claim_at, mark_done,
  mark_skipped, mark_failed, fail_at, requeue_stale_fetching, requeue_for_revalidation,
  requeue_each, requeue, is_outdated,
}
use db_collector_os.Fetching.Queue.Requeue.{requeue_stale_fetching_lem}

module _ (job : String) where
  -- The row is not one of the job's that is being fetched.
  abbrev pub IsIdle : Item → Type 0
  IsIdle i = i.job_id ≡ job → i.status ≢ fetching

  -- The same, but for the row with a queue_id that is excused.
  abbrev pub IsIdleBut : Option ℕ → Item → Type 0
  IsIdleBut none i = IsIdle i
  IsIdleBut (some id) i = i.queue_id ≢ id → IsIdle i

  abbrev pub Settled : Option ℕ → FetchQueue → Type 0
  Settled excused q = All (IsIdleBut excused) q.items

  IsIdle-but : (excused : Option ℕ) (i : Item) → IsIdle i → IsIdleBut excused i
  IsIdle-but none i h = h
  IsIdle-but (some id) i h = λ _. h

  enqueue_at-Settled :
      (normalize_url extract_domain : String → String) (excused : Option ℕ) (now : ℕ)
      (job' url : String) (priority max : ℕ) (o : Option Item) (q : FetchQueue)
      → Settled excused q
      → Settled excused (enqueue_at normalize_url extract_domain now job' url priority max o q).0
  enqueue_at-Settled f g excused now job' url priority max (some i) q h = h
  enqueue_at-Settled f g excused now job' url priority max none q h =
      All-append (IsIdleBut excused) q.items _ h (IsIdle-but excused _ (λ _ e. absurd (cc e)), tt)

  pub enqueue-Settled :
      (normalize_url extract_domain : String → String) (excused : Option ℕ) (now : ℕ)
      (job' url : String) (priority max : ℕ) (q : FetchQueue)
      → Settled excused q
      → Settled excused (enqueue normalize_url extract_domain now job' url priority max q).0
  unfolding enqueue
  enqueue-Settled f g excused now job' url priority max q h =
      enqueue_at-Settled f g excused now job' url priority max (first (is_row job' (f url)) q.items)
        q h

  -- The row that a claim has handed out is the one that is excused after it.
  abbrev pub excuse : Option Item → Option ℕ
  excuse none = none
  excuse (some i) = some i.queue_id

  claimed_rows :
      (id : ℕ) (f : Item → Item)
      → ((i : Item) → (f i).queue_id ≡ i.queue_id)
      → (items : List Item) → All IsIdle items
      → All (IsIdleBut (some id)) (update_where (has_queue_id id) f items)
  claimed_rows id f same [] h = tt
  claimed_rows id f same (i ∷ items) h = elim (Bool-cases (has_queue_id id i)) [
    | inl t ↦
        rw t (
          λ ne. absurd (ne (rw (same i) (=?→eq i.queue_id id t))),
          claimed_rows id f same items h.1,
        )
    | inr t ↦ rw t (λ _. h.0, claimed_rows id f same items h.1)
  ]

  claim_at-Settled :
      (o : Option Item) (q : FetchQueue)
      → Settled none q
      → Settled (excuse (claim_at o q).1) (claim_at o q).0
  claim_at-Settled none q h = h
  claim_at-Settled (some i) q h = claimed_rows i.queue_id _ (λ _. refl) q.items h

  pub claim_next-Settled :
      (now : ℕ) (domains : Option (List String)) (q : FetchQueue)
      → Settled none q
      → Settled (excuse (claim_next now job domains q).1) (claim_next now job domains q).0
  unfolding claim_next
  claim_next-Settled now domains q h = claim_at-Settled _ q h

  -- An UPDATE by the excused queue_id to a status other than `fetching`.
  ended_rows :
      (id : ℕ) (f : Item → Item)
      → ((i : Item) → IsIdle (f i))
      → (items : List Item) → All (IsIdleBut (some id)) items
      → All IsIdle (update_where (has_queue_id id) f items)
  ended_rows id f idle [] h = tt
  ended_rows id f idle (i ∷ items) h = elim (Bool-cases (has_queue_id id i)) [
    | inl t ↦ rw t (idle i, ended_rows id f idle items h.1)
    | inr t ↦ rw t (h.0 (λ e. absurd (ground (arith, e, t))), ended_rows id f idle items h.1)
  ]

  pub mark_done-Settled :
      (now id status : ℕ) (hash etag modified : Option String) (q : FetchQueue)
      → Settled (some id) q
      → Settled none (mark_done now id status hash etag modified q)
  unfolding mark_done
  mark_done-Settled now id status hash etag modified q h =
      ended_rows id _ (λ i _ e. absurd (cc e)) q.items h

  pub mark_skipped-Settled :
      (now id : ℕ) (reason : String) (q : FetchQueue)
      → Settled (some id) q
      → Settled none (mark_skipped now id reason q)
  unfolding mark_skipped
  mark_skipped-Settled now id reason q h = ended_rows id _ (λ i _ e. absurd (cc e)) q.items h

  absent_rows :
      (id : ℕ) (items : List Item)
      → All (λ i. has_queue_id id i ≡ false) items
      → All (IsIdleBut (some id)) items
      → All IsIdle items
  absent_rows id [] k h = tt
  absent_rows id (i ∷ items) k h =
      (h.0 (λ e. absurd (ground (arith, e, k.0))), absent_rows id items k.1 h.1)

  fail_at-Settled :
      (now id : ℕ) (message : String) (http retry_after : Option ℕ) (o : Option Item)
      (items : List Item)
      → first (has_queue_id id) items ≡ o
      → All (IsIdleBut (some id)) items
      → All IsIdle (fail_at now id message http retry_after o items)
  fail_at-Settled now id message http retry_after none items e h =
      absent_rows id items (first-none (has_queue_id id) items e) h
  fail_at-Settled now id message http retry_after (some r) items e h =
      if-intro (All IsIdle) (leb r.max_attempts (r.attempt_count + 1)) _ _
        (λ _. ended_rows id _ (λ i _ e. absurd (cc e)) items h)
        (λ _. ended_rows id _ (λ i _ e. absurd (cc e)) items h)

  pub mark_failed-Settled :
      (now id : ℕ) (message : String) (http retry_after : Option ℕ) (q : FetchQueue)
      → Settled (some id) q
      → Settled none (mark_failed now id message http retry_after q)
  unfolding mark_failed
  mark_failed-Settled now id message http retry_after q h =
      fail_at-Settled now id message http retry_after _ q.items refl h

  requeue_each-Settled :
      (rs items : List Item) → All IsIdle items → All IsIdle (requeue_each rs items)
  unfolding requeue_each
  requeue_each-Settled [] items h = h
  requeue_each-Settled (r ∷ rs) items h =
      requeue_each-Settled rs _ (
        All-update_where IsIdle (has_queue_id r.queue_id) requeue (λ i _ _ e. absurd (cc e)) items
          h)

  pub requeue_for_revalidation-Settled :
      (now : ℕ) (job' : String) (older_than max : ℕ) (q : FetchQueue)
      → Settled none q
      → Settled none (requeue_for_revalidation now job' older_than max q).0
  unfolding requeue_for_revalidation
  requeue_for_revalidation-Settled now job' older_than max q h =
      requeue_each-Settled
        (limit max (select (is_outdated (now_iso (now - older_than)) job') q.items)) q.items h

  pub requeue_stale_fetching-Settled :
      (q : FetchQueue) → Settled none (requeue_stale_fetching job q).0
  requeue_stale_fetching-Settled q = (requeue_stale_fetching_lem job q).1
