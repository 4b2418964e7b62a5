-- ===== src/Fetching/Queue.antt =====
-- db_collector_os/fetching/queue.py: the `fetch_queue` table. Text columns that the queue only
-- stores (hashes, validators, messages) are strings. `normalize_url` and `extract_domain` of
-- fetching/urlnorm.py stand on the standard library's `urllib.parse`, and are parameters.
pub mod Enqueue
pub mod Ops
pub mod Claim
pub mod Retry
pub mod Requeue
pub mod InFlight
pub mod Statements
pub mod Settled
use db_collector_os.Prelude.{
  ℕ, zero, suc, ◌+◌, ◌*◌, ◌^◌, ◌-◌, min, String, Option, none, some, Bool, true, false, ◌&&◌, ◌||◌,
  List, [], ◌∷◌, ◌++◌, ltb, leb, ◌=?◌, ◌==◌, if◌then◌else◌, select, first, count, update_where,
  order_by, limit, not,
}
use db_collector_os.Prelude.Sorted.{head?}
use db_collector_os.Clock.{second, now_iso, now_plus}
use db_collector_os.Models.Enums.{
  QueueStatus, queued, fetching, done, failed, skipped, is_queue_status,
}

pub record Item : Type 0 where
  pub queue_id : ℕ
  pub job_id : String
  pub url : String
  pub domain : String
  pub priority : ℕ
  pub status : QueueStatus
  pub attempt_count : ℕ
  pub max_attempts : ℕ
  pub last_http_status : Option ℕ
  pub next_retry_at : Option ℕ
  pub fetched_at : Option ℕ
  pub content_hash : Option String
  pub etag : Option String
  pub last_modified : Option String
  pub error_message : Option String
  pub created_at : ℕ

-- The table, and the next value of the AUTOINCREMENT column.
pub record FetchQueue : Type 0 where
  pub items : List Item
  pub next_id : ℕ

abbrev pub is_row : String → String → Item → Bool
is_row job url i = i.job_id == job && i.url == url

abbrev pub has_queue_id : ℕ → Item → Bool
has_queue_id id i = i.queue_id =? id

-- `… is not None`
abbrev pub is_found : Option Item → Bool
is_found none = false
is_found (some i) = true

unfoldable pub exists : (String → String) → String → String → FetchQueue → Bool
exists normalize_url job url q = is_found (first (is_row job (normalize_url url)) q.items)

module _ (normalize_url extract_domain : String → String) where
  -- The row that `enqueue` inserts.
  abbrev pub new_item : ℕ → ℕ → String → String → ℕ → ℕ → Item
  new_item now id job url priority max_attempts = record {
    queue_id = id;
    job_id = job;
    url = normalize_url url;
    domain = extract_domain (normalize_url url);
    priority = priority;
    status = queued;
    attempt_count = 0;
    max_attempts = max_attempts;
    last_http_status = none;
    next_retry_at = none;
    fetched_at = none;
    content_hash = none;
    etag = none;
    last_modified = none;
    error_message = none;
    created_at = now_iso now;
  }

  -- `enqueue` by the row that is there
  abbrev pub enqueue_at : ℕ → String → String → ℕ → ℕ → Option Item → FetchQueue → FetchQueue × ℕ
  enqueue_at now job url priority max_attempts (some i) q = (q, i.queue_id)
  enqueue_at now job url priority max_attempts none q = (
    record q {
      items = q.items ++ new_item now q.next_id job url priority max_attempts ∷ [];
      next_id = suc q.next_id;
    },
    q.next_id,
  )

  -- The new queue and the queue_id that is returned.
  unfoldable pub enqueue : ℕ → String → String → ℕ → ℕ → FetchQueue → FetchQueue × ℕ
  enqueue now job url priority max_attempts q =
      enqueue_at now job url priority max_attempts (first (is_row job (normalize_url url)) q.items)
        q

abbrev null_or_le : Option ℕ → ℕ → Bool
null_or_le none now = true
null_or_le (some t) now = leb t now

abbrev pub is_member : String → List String → Bool
is_member s [] = false
is_member s (t ∷ ts) = s == t || is_member s ts

-- `ready_domains`: None for any domain
abbrev pub in_domains : Option (List String) → String → Bool
in_domains none d = true
in_domains (some ds) d = is_member d ds

-- The WHERE clause of `claim_next`; `now` is a timestamp.
abbrev pub is_ready : ℕ → String → Option (List String) → Item → Bool
is_ready now job domains i =
    i.job_id == job
    && is_queue_status i.status queued
    && null_or_le i.next_retry_at now
    && in_domains domains i.domain

-- ORDER BY priority DESC, queue_id
abbrev pub claim_before : Item → Item → Bool
claim_before i j =
    ltb j.priority i.priority || ((i.priority =? j.priority) && leb i.queue_id j.queue_id)

abbrev pub set_fetching : Item → Item
set_fetching i = record i { status = fetching }

-- The SELECT of `claim_next`. An empty set of domains returns None before the query, as the query
-- over it would.
abbrev pub select_next : ℕ → String → Option (List String) → FetchQueue → Option Item
select_next now job domains q =
    head? (order_by claim_before (select (is_ready (now_iso now) job domains) q.items))

-- The UPDATE of `claim_next`, by the row that the SELECT has found
abbrev pub claim_at : Option Item → FetchQueue → FetchQueue × Option Item
claim_at none q = (q, none)
claim_at (some i) q = (
  record q { items = update_where (has_queue_id i.queue_id) set_fetching q.items },
  some (set_fetching i),
)

unfoldable pub claim_next :
    ℕ → String → Option (List String) → FetchQueue → FetchQueue × Option Item
claim_next now job domains q = claim_at (select_next now job domains q) q

unfoldable pub mark_done :
    ℕ → ℕ → ℕ → Option String → Option String → Option String → FetchQueue → FetchQueue
mark_done now id http_status content_hash etag last_modified q = record q {
  items =
      update_where (has_queue_id id)
        (λ i. record i {
          status = done;
          last_http_status = some http_status;
          fetched_at = some (now_iso now);
          content_hash = content_hash;
          etag = etag;
          last_modified = last_modified;
          error_message = none;
        })
        q.items;
}

unfoldable pub mark_skipped : ℕ → ℕ → String → FetchQueue → FetchQueue
mark_skipped now id reason q = record q {
  items =
      update_where (has_queue_id id)
        (λ i. record i {
          status = skipped;
          error_message = some reason;
          fetched_at = some (now_iso now);
        })
        q.items;
}

-- `retry_after if retry_after is not None else min(2 ** attempts, 3600)`, in microseconds
abbrev pub backoff : ℕ → Option ℕ → ℕ
backoff attempts none = min (2 ^ attempts) 3600 * second
backoff attempts (some delay) = delay

-- The row after a failed attempt; `attempts` is the row's count that was read, and one more.
abbrev pub give_up : ℕ → Option ℕ → String → Item → Item
give_up attempts http_status message i = record i {
  status = failed;
  attempt_count = attempts;
  last_http_status = http_status;
  error_message = some message;
}

abbrev pub retry_later : ℕ → ℕ → Option ℕ → Option ℕ → String → Item → Item
retry_later now attempts http_status retry_after message i = record i {
  status = queued;
  attempt_count = attempts;
  last_http_status = http_status;
  error_message = some message;
  next_retry_at = some (now_plus now (backoff attempts retry_after));
}

-- `mark_failed` by the row that it has read
abbrev pub fail_at : ℕ → ℕ → String → Option ℕ → Option ℕ → Option Item → List Item → List Item
fail_at now id message http_status retry_after none items = items
fail_at now id message http_status retry_after (some r) items =
    if leb r.max_attempts (r.attempt_count + 1)
    then update_where (has_queue_id id) (give_up (r.attempt_count + 1) http_status message) items
    else update_where (has_queue_id id)
        (retry_later now (r.attempt_count + 1) http_status retry_after message) items

unfoldable pub mark_failed : ℕ → ℕ → String → Option ℕ → Option ℕ → FetchQueue → FetchQueue
mark_failed now id message http_status retry_after q = record q {
  items = fail_at now id message http_status retry_after (first (has_queue_id id) q.items) q.items;
}

abbrev pub is_pending : String → Item → Bool
is_pending job i = i.job_id == job && is_queue_status i.status queued

unfoldable pub pending_count : String → FetchQueue → ℕ
pending_count job q = count (is_pending job) q.items

-- The number of rows with a status, which `stats` lists for each status that occurs.
unfoldable pub stats : String → QueueStatus → FetchQueue → ℕ
stats job s q = count (λ i. i.job_id == job && is_queue_status i.status s) q.items

unfoldable pub is_empty : String → FetchQueue → Bool
unfolding pending_count
is_empty job q = pending_count job q =? 0

abbrev pub is_stale : String → Item → Bool
is_stale job i = i.job_id == job && is_queue_status i.status fetching

-- The new queue and the number of rows that were updated.
unfoldable pub requeue_stale_fetching : String → FetchQueue → FetchQueue × ℕ
requeue_stale_fetching job q = (
  record q { items = update_where (is_stale job) (λ i. record i { status = queued }) q.items },
  count (is_stale job) q.items,
)

-- `cutoff` is the timestamp of the instant `older_than_seconds` ago.
abbrev pub is_outdated : ℕ → String → Item → Bool
is_outdated cutoff job i =
    i.job_id == job && is_queue_status i.status done && null_or_le i.fetched_at cutoff

abbrev pub requeue : Item → Item
requeue i = record i { status = queued; attempt_count = 0 }

requeue_each : List Item → List Item → List Item
requeue_each [] items = items
requeue_each (r ∷ rs) items = requeue_each rs (update_where (has_queue_id r.queue_id) requeue items)

abbrev length : List Item → ℕ
length [] = 0
length (r ∷ rs) = suc (length rs)

unfoldable pub requeue_for_revalidation : ℕ → String → ℕ → ℕ → FetchQueue → FetchQueue × ℕ
unfolding requeue_each
requeue_for_revalidation now job older_than max q =
    let rows = limit max (select (is_outdated (now_iso (now - older_than)) job) q.items) in
    (record q { items = requeue_each rows q.items }, length rows)
