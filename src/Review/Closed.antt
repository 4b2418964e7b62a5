-- ===== src/Review/Closed.antt =====
-- A review item that has been closed: db_collector_os/review/queue.py never opens it again.
use db_collector_os.Prelude.{
  ℕ, ◌<◌, ◌≡◌, refl, String, Option, none, true, false, List, [], ◌∷◌, arith, ◌=?◌, inl, inr,
  Bool-cases, All, All-append, All-update_where, update_where,
}
use db_collector_os.Models.Enums.{
  ReviewReason, ReviewStatus, open_, resolved, dismissed, is_review_status,
}
use db_collector_os.Review.{ReviewItem, ReviewQueue, add, resolve, dismiss, is_open, close}

-- A call that writes the table, with its instant.
pub data ReviewOp : Type 0 where
  do_add :
      (now : ℕ) (job : String)
      → ReviewReason
      → (details entity_id candidate_id : Option String) → ReviewOp
  do_resolve : (now id : ℕ) → ReviewOp
  do_dismiss : (now id : ℕ) → ReviewOp

unfoldable pub apply : ReviewOp → ReviewQueue → ReviewQueue
apply (do_add now job reason details entity_id candidate_id) q =
    (add now job reason details entity_id candidate_id q).0
apply (do_resolve now id) q = resolve now id q
apply (do_dismiss now id) q = dismiss now id q

unfoldable pub run_ops : List ReviewOp → ReviewQueue → ReviewQueue
unfolding apply
run_ops [] q = q
run_ops (op ∷ ops) q = run_ops ops (apply op q)

-- No row with the review_id is open, and no later row gets it.
pub record IsClosed (id : ℕ) (q : ReviewQueue) : Type 0 where
  pub issued : id < q.next_id
  pub none_open : All (λ i. (i.review_id =? id) ≡ true → is_open none i ≡ false) q.items

closing :
    (now id : ℕ) (s : ReviewStatus)
    → is_review_status s open_ ≡ false
    → (items : List ReviewItem)
    → All
        (λ i. (i.review_id =? id) ≡ true → is_open none i ≡ false)
        (update_where (λ i. i.review_id =? id) (close now s) items)
closing now id s h [] = tt
closing now id s h (i ∷ items) = elim (Bool-cases (i.review_id =? id)) [
  | inl e ↦ rw e (λ _. rw h refl, closing now id s h items)
  | inr e ↦ rw e (λ t. absurd (ground arith), closing now id s h items)
]

close-IsClosed :
    (now k id : ℕ) (s : ReviewStatus)
    → is_review_status s open_ ≡ false
    → (items : List ReviewItem)
    → All (λ i. (i.review_id =? id) ≡ true → is_open none i ≡ false) items
    → All
        (λ i. (i.review_id =? id) ≡ true → is_open none i ≡ false)
        (update_where (λ i. i.review_id =? k) (close now s) items)
close-IsClosed now k id s h items a =
    All-update_where _ (λ i. i.review_id =? k) (close now s) (λ i _ _. rw h refl) items a

apply-IsClosed :
    (op : ReviewOp) (id : ℕ) (q : ReviewQueue) → IsClosed id q → IsClosed id (apply op q)
unfolding apply add resolve dismiss
apply-IsClosed (do_add now job reason details entity_id candidate_id) id q c =
    let below = c.issued in
    record {
      issued = ground arith;
      none_open = All-append _ q.items _ c.none_open (λ t. absurd (ground arith), tt);
    }
apply-IsClosed (do_resolve now k) id q c = record {
  issued = c.issued;
  none_open = close-IsClosed now k id resolved refl q.items c.none_open;
}
apply-IsClosed (do_dismiss now k) id q c = record {
  issued = c.issued;
  none_open = close-IsClosed now k id dismissed refl q.items c.none_open;
}

run_ops-IsClosed :
    (ops : List ReviewOp) (id : ℕ) (q : ReviewQueue) → IsClosed id q → IsClosed id (run_ops ops q)
unfolding run_ops
run_ops-IsClosed [] id q c = c
run_ops-IsClosed (op ∷ ops) id q c = run_ops-IsClosed ops id (apply op q) (apply-IsClosed op id q c)

-- An item whose review_id has been issued is not open once it has been resolved or dismissed, and
-- stays so through any later calls; no later item gets its review_id.
pub IsClosed-forever :
    (now id : ℕ) (ops : List ReviewOp) (q : ReviewQueue)
    → id < q.next_id
    → IsClosed id (run_ops ops (resolve now id q)) × IsClosed id (run_ops ops (dismiss now id q))
unfolding resolve dismiss
IsClosed-forever now id ops q h = (
  run_ops-IsClosed ops id _
      (record { issued = h; none_open = closing now id resolved refl q.items }),
  run_ops-IsClosed ops id _
      (record { issued = h; none_open = closing now id dismissed refl q.items }),
)
