-- ===== src/Fetching/Queue/Retry.antt =====
-- `mark_failed` of db_collector_os/fetching/queue.py: retries with backoff up to max_attempts.
use Prim.Native.Nat.{zero}
use native.Mathlib.Nat.{pow-suc}
use native.Mathlib.Numerals.{add-one}
use db_collector_os.Prelude.{
  ℕ, suc, ◌+◌, ◌*◌, ◌^◌, ◌<◌, ◌≤◌, ◌≡◌, refl, Option, none, some, Bool, true, false, List, [], ◌∷◌,
  String, arith, if◌then◌else◌, first, update_where, first-update_where, first_matches, leb, length,
  min,
}
use db_collector_os.Clock.{now_iso, now_plus, second}
use db_collector_os.Models.Enums.{queued, failed}
use db_collector_os.Fetching.Queue.{
  Item, FetchQueue, mark_failed, fail_at, give_up, retry_later, has_queue_id, is_ready,
}

-- The arguments of a call of `mark_failed` for one row, with the instant of the call.
pub record Failure : Type 0 where
  pub now : ℕ
  pub message : String
  pub http_status : Option ℕ
  pub retry_after : Option ℕ

-- The row of a failed fetch after `mark_failed`.
unfoldable pub failed_row : Failure → Item → Item
failed_row c i =
    if leb i.max_attempts (i.attempt_count + 1)
    then give_up (i.attempt_count + 1) c.http_status c.message i
    else retry_later c.now (i.attempt_count + 1) c.http_status c.retry_after c.message i

module _ (id : ℕ) where
  pub fail : Failure → FetchQueue → FetchQueue
  fail c q = mark_failed c.now id c.message c.http_status c.retry_after q

  pub fail_all : List Failure → FetchQueue → FetchQueue
  unfolding fail
  fail_all [] q = q
  fail_all (c ∷ cs) q = fail_all cs (fail c q)

  abbrev pub found : FetchQueue → Option Item
  found q = first (has_queue_id id) q.items

  found-update :
      (f : Item → Item)
      → ((i : Item) → (f i).queue_id ≡ i.queue_id)
      → (items : List Item) (i : Item) → first (has_queue_id id) items ≡ some i
      → first (has_queue_id id) (update_where (has_queue_id id) f items) ≡ some (f i)
  found-update f same items i e =
      rw (first-update_where (has_queue_id id) (has_queue_id id) f (λ j. rw (same j) refl) items)
        (rw e (rw (first_matches (has_queue_id id) items i e)))

  found-fail :
      (c : Failure) (q : FetchQueue) (i : Item)
      → found q ≡ some i
      → found (fail c q) ≡ some (failed_row c i)
  unfolding fail mark_failed failed_row
  found-fail c q i e = rw e (go (leb i.max_attempts (i.attempt_count + 1)) refl)
    where
      go :
          (b : Bool)
          → leb i.max_attempts (i.attempt_count + 1) ≡ b
          → first
              (has_queue_id id)
              (fail_at c.now id c.message c.http_status c.retry_after (some i) q.items)
            ≡ some (failed_row c i)
      go true t = rw t (found-update _ (λ j. refl) q.items i e)
      go false t = rw t (found-update _ (λ j. refl) q.items i e)

-- What `n` failures, at least one, leave of a row.
pub record Failed (n : ℕ) (i j : Item) : Type 0 where
  pub attempts : j.attempt_count ≡ i.attempt_count + n
  pub max_attempts : j.max_attempts ≡ i.max_attempts
  pub retried : i.attempt_count + n < i.max_attempts → j.status ≡ queued
  pub given_up : i.max_attempts ≤ i.attempt_count + n → j.status ≡ failed

failed_row-Failed : (c : Failure) (i : Item) → Failed 1 i (failed_row c i)
unfolding failed_row
failed_row-Failed c i = ground arith

Failed-trans : (n : ℕ) (i j k : Item) → Failed 1 i j → Failed n j k → Failed (suc n) i k
Failed-trans n i j k f g = record {
  attempts = omega (arith, f.attempts, g.attempts);
  max_attempts = omega (arith, f.max_attempts, g.max_attempts);
  retried = λ h. g.retried (omega (arith, f.attempts, f.max_attempts));
  given_up = λ h. g.given_up (omega (arith, f.attempts, f.max_attempts));
}

-- After failures of one row, at least one and at any times, its attempt count has gone up by their
-- number; it is queued again while the count is below max_attempts, and failed for good from then
-- on.
pub fail_all-Failed :
    (id : ℕ) (c : Failure) (cs : List Failure) (q : FetchQueue) (i : Item)
    → found id q ≡ some i
    → (j : Item) × (found id (fail_all id (c ∷ cs) q) ≡ some j) × Failed (length (c ∷ cs)) i j
unfolding fail_all
fail_all-Failed id c [] q i e = (failed_row c i, found-fail id c q i e, failed_row-Failed c i)
fail_all-Failed id c (d ∷ cs) q i e =
    let (j, f, g) =
      fail_all-Failed id d cs (fail id c q) (failed_row c i) (found-fail id c q i e) in
    (j, f, Failed-trans (length (d ∷ cs)) i (failed_row c i) j (failed_row-Failed c i) g)

pow_pos : (n : ℕ) → 1 ≤ 2 ^ n
pow_pos zero = omega arith
pow_pos (suc n) = omega (arith, pow-suc 2 n, pow_pos n)

pow_two : (n : ℕ) → 2 ≤ 2 ^ (n + 1)
pow_two n = rw add-one (omega (arith, pow-suc 2 n, pow_pos n))

-- What a failure leaves of a row that is to be retried after the backoff.
pub record Waits (c : Failure) (j : Item) (t : ℕ) : Type 0 where
  pub until : j.next_retry_at ≡ some t
  pub at_least : now_iso c.now + 2 ≤ t
  pub at_most : t ≤ now_iso c.now + 3600
  pub unclaimed :
      (now : ℕ) (job : String) (domains : Option (List String))
      → now < t
      → is_ready now job domains j ≡ false

abbrev retry_time : Failure → Item → ℕ
retry_time c i = now_plus c.now (min (2 ^ (i.attempt_count + 1)) 3600 * second)

not_ready :
    (j : Item) (t now : ℕ) (job : String) (domains : Option (List String))
    → j.next_retry_at ≡ some t
    → now < t
    → is_ready now job domains j ≡ false
not_ready j t now job domains e h = ground arith

failed_row-Waits :
    (c : Failure) (i : Item)
    → c.retry_after ≡ none
    → i.attempt_count + 1 < i.max_attempts
    → Waits c (failed_row c i) (retry_time c i)
unfolding failed_row
failed_row-Waits c i plain left =
    let t : (failed_row c i).next_retry_at ≡ some (retry_time c i) = ground arith in
    record {
      until = t;
      at_least = omega (arith, pow_two i.attempt_count);
      at_most = omega arith;
      unclaimed =
          λ now job domains h. not_ready (failed_row c i) (retry_time c i) now job domains t h;
    }

-- Backoff, where the server has not asked for a delay and attempts are left: the row waits at
-- least two seconds and at most an hour, and no claim takes it before.
pub fail-Waits :
    (id : ℕ) (c : Failure) (q : FetchQueue) (i : Item)
    → found id q ≡ some i
    → c.retry_after ≡ none
    → i.attempt_count + 1 < i.max_attempts
    → (j : Item) × (t : ℕ) × (found id (fail id c q) ≡ some j) × Waits c j t
fail-Waits id c q i e plain left =
    (failed_row c i, retry_time c i, found-fail id c q i e, failed_row-Waits c i plain left)
