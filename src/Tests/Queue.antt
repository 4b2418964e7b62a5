-- ===== src/Tests/Queue.antt =====
-- A small fetch queue (db_collector_os/fetching/queue.py). URLs are taken as normalized, and the
-- domain of each as its text.
use db_collector_os.Prelude.{
  List, ℕ, ◌+◌, ◌≡◌, ◌≢◌, refl, ap, String, none, some, false, [], ◌∷◌, arith, ◌==◌, eq_iff, All,
  length,
}
use db_collector_os.Models.Enums.{QueueStatus, queued, fetching}
use db_collector_os.Fetching.Queue.{
  Item, FetchQueue, enqueue, claim_next, requeue_stale_fetching, pending_count, stats,
}
use db_collector_os.Fetching.Queue.Ops.{
  IsWellFormed, run_ops, empty, reachable-IsWellFormed, do_enqueue, do_claim_next,
  do_requeue_stale_fetching, apply,
}
use db_collector_os.Fetching.Queue.Claim.{Claimed, claim_next-Claimed}
use db_collector_os.Fetching.Queue.Statements.{
  Shared, Statement, do_select, do_update, do_call, claimed_by, step, run_steps,
}
use db_collector_os.Fetching.Queue.Statements.Exclusive.{claim_excludes_claim}
use db_collector_os.Fetching.Queue.Retry.{
  Failure, Failed, Waits, fail, fail_all, found, fail_all-Failed, fail-Waits,
}
use db_collector_os.Fetching.Queue.Requeue.{AllPairs, Recovers, requeue_stale_fetching_lem}

abbrev same : String → String
same s = s

abbrev row : ℕ → String → ℕ → QueueStatus → Item
row id url priority status = record {
  queue_id = id;
  job_id = "j";
  url = url;
  domain = "x.jp";
  priority = priority;
  status = status;
  attempt_count = 0;
  max_attempts = 2;
  last_http_status = none;
  next_retry_at = none;
  fetched_at = none;
  content_hash = none;
  etag = none;
  last_modified = none;
  error_message = none;
  created_at = 1;
}

abbrev queue : FetchQueue
queue = record {
  items = row 1 "/a" 50 fetching ∷ row 2 "/b" 50 queued ∷ row 3 "/c" 70 queued ∷ [];
  next_id = 4;
}

url_ne : (s t : String) → (s == t) ≡ false → ◌≢◌ {A = String × String} ("j", s) ("j", t)
url_ne s t h e = ground (arith, eq_iff s t, ap (λ (p : String × String). p.1) e)

queue-IsWellFormed : IsWellFormed queue
queue-IsWellFormed = record {
  ids = omega arith;
  urls = (
    (url_ne "/b" "/a" refl, (url_ne "/c" "/a" refl, tt)),
    ((url_ne "/c" "/b" refl, tt), (tt, tt)),
  );
  below = omega arith;
}

claims_highest : claim_next 2000000 "j" (some ("x.jp" ∷ [])) queue ≡ (
  record {
    items = row 1 "/a" 50 fetching ∷ row 2 "/b" 50 queued ∷ row 3 "/c" 70 fetching ∷ [];
    next_id = 4;
  },
  some (row 3 "/c" 70 fetching),
)
unfolding claim_next
claims_highest = refl

claims_none : claim_next 2000000 "j" (some []) queue ≡ (queue, none)
unfolding claim_next
claims_none = refl

reachable-IsWellFormed_example : IsWellFormed (
    run_ops same same
      ((2000000, do_enqueue "j" "/a" 50 5) ∷ (3000000, do_claim_next "j" none) ∷ [])
      (empty same same))
reachable-IsWellFormed_example =
    reachable-IsWellFormed same same
      ((2000000, do_enqueue "j" "/a" 50 5) ∷ (3000000, do_claim_next "j" none) ∷ [])

claim_next-Claimed_example : Claimed 2000000 "j" none queue (claim_next 2000000 "j" none queue)
claim_next-Claimed_example = claim_next-Claimed 2000000 "j" none queue

-- A row of a higher priority comes in between the SELECT and the UPDATE of a claim.
abbrev before : List (ℕ × Statement)
before =
    (2000000, do_select "j" none)
    ∷ (2000000, do_select "k" none)
    ∷ (3000000, do_call (do_enqueue "j" "/d" 90 5))
    ∷ (3000000, do_update "k")
    ∷ []

abbrev after : List (ℕ × Statement)
after = (4000000, do_call (do_requeue_stale_fetching "k")) ∷ (4000000, do_select "j" none) ∷ []

abbrev shared : Shared
shared = record { queue = queue; picked = λ k. none }

first_claim : claimed_by "j" (run_steps same same before shared) ≡ some (row 3 "/c" 70 fetching)
unfolding run_steps step apply enqueue requeue_stale_fetching
first_claim = refl

second_claim :
    claimed_by "j" (
      run_steps same same after
        (step same same 3000000 (do_update "j") (run_steps same same before shared)))
    ≡ some (record (row 4 "/d" 90 fetching) { domain = "/d"; max_attempts = 5; created_at = 3 })
unfolding run_steps step apply enqueue requeue_stale_fetching
second_claim = refl

claim_excludes_claim_example : ◌≢◌ {A = ℕ} 4 3
claim_excludes_claim_example =
    claim_excludes_claim same same queue before after 3000000 "j" "j" (row 3 "/c" 70 fetching)
      (record (row 4 "/d" 90 fetching) { domain = "/d"; max_attempts = 5; created_at = 3 })
      queue-IsWellFormed first_claim ((λ e. cc ((eq_iff "k" "j").1 e)), (tt, tt)) second_claim

abbrev timeout : ℕ → Failure
timeout now = record { now = now; message = "timeout"; http_status = none; retry_after = none }

found_one : found 1 queue ≡ some (row 1 "/a" 50 fetching)
found_one = refl

fail_all-Failed_example :
    (j : Item) × (found 1 (fail_all 1 (timeout 2000000 ∷ timeout 9000000 ∷ []) queue) ≡ some j)
    × Failed (length (timeout 2000000 ∷ timeout 9000000 ∷ [])) (row 1 "/a" 50 fetching) j
fail_all-Failed_example =
    fail_all-Failed 1 (timeout 2000000) (timeout 9000000 ∷ []) queue (row 1 "/a" 50 fetching)
      found_one

fail-Waits_example :
    (j : Item) × (t : ℕ) × (found 1 (fail 1 (timeout 2000000) queue) ≡ some j)
    × Waits (timeout 2000000) j t
fail-Waits_example =
    fail-Waits 1 (timeout 2000000) queue (row 1 "/a" 50 fetching) found_one refl (omega arith)

requeue_stale_fetching_example :
    AllPairs (Recovers "j") queue.items (requeue_stale_fetching "j" queue).0.items
    × All (λ i. i.job_id ≡ "j" → i.status ≢ fetching) (requeue_stale_fetching "j" queue).0.items
    × (pending_count "j" (requeue_stale_fetching "j" queue).0
        ≡ pending_count "j" queue + (requeue_stale_fetching "j" queue).1)
    × ((other : String) (s : QueueStatus)
        → other ≢ "j"
        → stats other s (requeue_stale_fetching "j" queue).0 ≡ stats other s queue)
requeue_stale_fetching_example = requeue_stale_fetching_lem "j" queue
