-- ===== src/Review.antt =====
-- db_collector_os/review/queue.py: the `review_queue` table.
pub mod Closed
pub mod Counted
use db_collector_os.Prelude.{
  ℕ, suc, String, Option, none, some, Bool, true, ◌&&◌, List, [], ◌∷◌, ◌++◌, leb, ◌=?◌, ◌==◌,
  if◌then◌else◌, select, count, update_where, order_by, limit,
}
use mathlib.Core.List.{reverse}
use db_collector_os.Clock.{now_iso}
use db_collector_os.Models.Enums.{
  ReviewReason, ReviewStatus, open_, resolved, dismissed, is_review_status,
}

pub record ReviewItem : Type 0 where
  pub review_id : ℕ
  pub job_id : String
  pub entity_id : Option String
  pub candidate_id : Option String
  pub reason : ReviewReason
  pub details : Option String
  pub status : ReviewStatus
  pub created_at : ℕ
  pub resolved_at : Option ℕ

-- The table, and the next value of the AUTOINCREMENT column.
pub record ReviewQueue : Type 0 where
  pub items : List ReviewItem
  pub next_id : ℕ

-- The row that `add` inserts.
abbrev pub new_item :
    ℕ → ℕ → String → ReviewReason → (details entity_id candidate_id : Option String) → ReviewItem
new_item now id job_id reason details entity_id candidate_id = record {
  review_id = id;
  job_id = job_id;
  entity_id = entity_id;
  candidate_id = candidate_id;
  reason = reason;
  details = details;
  status = open_;
  created_at = now_iso now;
  resolved_at = none;
}

-- The new queue and the review_id that is returned.
unfoldable pub add :
    ℕ
    → String
    → ReviewReason
    → (details entity_id candidate_id : Option String) → ReviewQueue
    → ReviewQueue × ℕ
add now job_id reason details entity_id candidate_id q = (
  record {
    items = q.items ++ new_item now q.next_id job_id reason details entity_id candidate_id ∷ [];
    next_id = suc q.next_id;
  },
  q.next_id,
)

abbrev pub close : ℕ → ReviewStatus → ReviewItem → ReviewItem
close now s i = record i { status = s; resolved_at = some (now_iso now) }

unfoldable pub resolve : ℕ → ℕ → ReviewQueue → ReviewQueue
resolve now id q = record q {
  items = update_where (λ i. i.review_id =? id) (close now resolved) q.items;
}

unfoldable pub dismiss : ℕ → ℕ → ReviewQueue → ReviewQueue
dismiss now id q = record q {
  items = update_where (λ i. i.review_id =? id) (close now dismissed) q.items;
}

-- `if job_id`: a job_id that is given and not empty
abbrev for_job : Option String → String → Bool
for_job none job = true
for_job (some id) job = if id == "" then true else job == id

abbrev pub is_open : Option String → ReviewItem → Bool
is_open job_id i = is_review_status i.status open_ && for_job job_id i.job_id

-- ORDER BY created_at DESC
unfoldable pub list_open : Option String → ℕ → ReviewQueue → List ReviewItem
list_open job_id max q =
    limit max
      (order_by (λ i j. leb j.created_at i.created_at) (reverse (select (is_open job_id) q.items)))

unfoldable pub count_open : Option String → ReviewQueue → ℕ
count_open job_id q = count (is_open job_id) q.items
