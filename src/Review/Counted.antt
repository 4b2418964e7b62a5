-- ===== src/Review/Counted.antt =====
-- The number of a job's open items, in db_collector_os/review/queue.py.
use db_collector_os.Prelude.{
  ℕ, suc, ◌≡◌, refl, String, Option, some, true, [], ◌∷◌, arith, ◌==◌, eq_refl, count-append,
  if◌then◌else◌, Bool-cases, inl, inr,
}
use db_collector_os.Models.Enums.{ReviewReason}
use db_collector_os.Review.{ReviewQueue, add, new_item, is_open, count_open}

own_job : (job : String) → (if job == "" then true else job == job) ≡ true
own_job job =
    rw (eq_refl job) (elim (Bool-cases (job == "")) [ inl e ↦ rw e refl | inr e ↦ rw e refl ])

pub count_open-add :
    (now : ℕ) (job : String) (reason : ReviewReason)
    (details entity_id candidate_id : Option String) (q : ReviewQueue)
    → count_open (some job) (add now job reason details entity_id candidate_id q).0
      ≡ suc (count_open (some job) q)
unfolding add count_open
count_open-add now job reason details entity_id candidate_id q =
    rw
      (count-append (is_open (some job)) q.items
        (new_item now q.next_id job reason details entity_id candidate_id ∷ []))
      (rw (own_job job) (omega arith))
