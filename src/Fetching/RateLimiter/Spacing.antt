-- ===== src/Fetching/RateLimiter/Spacing.antt =====
-- How far db_collector_os/fetching/rate_limiter.py keeps the requests to one domain apart.
use db_collector_os.Prelude.{
  ℕ, suc, ◌+◌, ◌<◌, ◌≤◌, ◌≡◌, ◌⊎◌, ◌↔◌, inl, inr, Bool-cases, refl, sym, ◌∙◌, ap, String, Option,
  none, some, Bool, true, false, List, arith, ◌=?◌, first, update_where, first-update_same,
}
use db_collector_os.Clock.{now_iso, now_plus, from_iso, second}
use db_collector_os.Fetching.RateLimiter.{
  Limit, of_domain, is_allowed, get_or_create_at, allowed_at, record_request, record_error,
  block_wait, requested, failed_once, blocked_for,
}

-- A request is allowed for a row: no block lasts, and the delay since the last request has passed.
pub record IsFree (now delay : ℕ) (l : Limit) : Type 0 where
  pub unblocked : (t : ℕ) → l.blocked_until ≡ some t → from_iso t ≤ now
  pub spaced : (t : ℕ) → l.last_request_at ≡ some t → from_iso t + delay ≤ now

module _ (now delay : ℕ) (l : Limit) (positive : 0 < l.delay_seconds) where
  free : (allowed_at now delay l).0 ≡ true → IsFree now l.delay_seconds l
  unfolding allowed_at
  free h = record { unblocked = λ t e. ground arith; spaced = λ t e. ground arith }

  passed :
      (u s : Option ℕ)
      → ((t : ℕ) → u ≡ some t → from_iso t ≤ now)
      → ((t : ℕ) → s ≡ some t → from_iso t + l.delay_seconds ≤ now)
      → (block_wait now l.delay_seconds u s).0 ≡ true
  passed none none f g = refl
  passed none (some s) f g = ground (arith, g s refl)
  passed (some u) none f g = ground (arith, f u refl)
  passed (some u) (some s) f g = ground (arith, f u refl, g s refl)

  allowed : IsFree now l.delay_seconds l → (allowed_at now delay l).0 ≡ true
  unfolding allowed_at
  allowed f = ground (arith, passed l.blocked_until l.last_request_at f.unblocked f.spaced)

wait_positive : (now delay : ℕ) (l : Limit) (w : ℕ) → allowed_at now delay l ≡ (false, w) → 0 < w
unfolding allowed_at
wait_positive now delay l w h = ground arith

second_wait :
    (now delay : ℕ) (l : Limit) (w v : ℕ)
    → allowed_at now delay l ≡ (false, w)
    → allowed_at (now + w) delay l ≡ (false, v)
    → (allowed_at (now + w + v) delay l).0 ≡ true
unfolding allowed_at
second_wait now delay l w v h k = ground arith

pair_eq : (r : Bool × ℕ) → r.0 ≡ false → r ≡ (false, r.1)
pair_eq r h = ap (λ b. (b, r.1)) h

-- What `is_allowed` answers for a domain that has a row.
is_allowed-found :
    (now : ℕ) (domain : String) (delay concurrency : ℕ) (limits : List Limit) (l : Limit)
    → first (of_domain domain) limits ≡ some l
    → is_allowed now domain delay concurrency limits ≡ (limits, allowed_at now delay l)
unfolding is_allowed
is_allowed-found now domain delay concurrency limits l e =
    ap
      (λ o. (
        (get_or_create_at domain delay concurrency o limits).0,
        allowed_at now delay (get_or_create_at domain delay concurrency o limits).1,
      ))
      e

-- A domain with a row of a positive delay is allowed a request exactly when its block, if it has
-- one, is over and the delay of the row has passed since the second of its last request. The delay
-- that the caller gives does not enter, so a later change of a job's rate limit has no effect.
pub is_allowed_iff :
    (now : ℕ) (domain : String) (delay concurrency : ℕ) (limits : List Limit) (l : Limit)
    → first (of_domain domain) limits ≡ some l
    → 0 < l.delay_seconds
    → ((is_allowed now domain delay concurrency limits).1.0 ≡ true) ↔ IsFree now l.delay_seconds l
is_allowed_iff now domain delay concurrency limits l e pos =
    rw (is_allowed-found now domain delay concurrency limits l e)
      (free now delay l pos, allowed now delay l pos)

-- A refusal names a positive wait. Asked again after it, with nothing recorded in between, the
-- domain is allowed, or refused once more, with a wait after which it is allowed.
pub refused_wait :
    (now : ℕ) (domain : String) (delay concurrency w : ℕ) (limits : List Limit) (l : Limit)
    → first (of_domain domain) limits ≡ some l
    → (is_allowed now domain delay concurrency limits).1 ≡ (false, w)
    → (0 < w)
      × (((is_allowed (now + w) domain delay concurrency limits).1.0 ≡ true)
          ⊎ ((v : ℕ) × ((is_allowed (now + w) domain delay concurrency limits).1 ≡ (false, v))
              × ((is_allowed (now + w + v) domain delay concurrency limits).1.0 ≡ true)))
refused_wait now domain delay concurrency w limits l e h =
    let asked : allowed_at now delay l ≡ (false, w) =
      sym (ap (λ r. r.1) (is_allowed-found now domain delay concurrency limits l e)) ∙ h in
    let v : ℕ = (allowed_at (now + w) delay l).1 in
    rw (is_allowed-found (now + w) domain delay concurrency limits l e) (
      wait_positive now delay l w asked,
      elim (Bool-cases (allowed_at (now + w) delay l).0) [
        | inl t ↦ inl t
        | inr t ↦ inr (
          v,
          pair_eq (allowed_at (now + w) delay l) t,
          rw (is_allowed-found (now + w + v) domain delay concurrency limits l e)
              (second_wait now delay l w v asked (pair_eq (allowed_at (now + w) delay l) t)),
        )
      ],
    )

module _ (domain : String) (limits : List Limit) (l : Limit)
    (e : first (of_domain domain) limits ≡ some l) where
  found-record_request :
      (now : ℕ)
      → first (of_domain domain) (record_request now domain limits)
        ≡ some (record l { last_request_at = some (now_iso now) })
  unfolding record_request
  found-record_request now =
      first-update_same (of_domain domain) (requested now) (λ k. refl) limits l e

  -- Requests to a domain with a positive delay come more than the delay less one second apart: if
  -- a request was recorded and `is_allowed` later answers yes, that much has passed.
  pub spacing :
      (now later delay concurrency : ℕ)
      → 0 < l.delay_seconds
      → (is_allowed later domain delay concurrency (record_request now domain limits)).1.0 ≡ true
      → now + l.delay_seconds < later + second
  spacing now later delay concurrency pos h =
      let m : Limit = record l { last_request_at = some (now_iso now) } in
      let f : IsFree later m.delay_seconds m =
        (is_allowed_iff later domain delay concurrency (record_request now domain limits) m
            (found-record_request now) pos).0
          h in
      omega (arith, f.spaced (now_iso now) refl)

  -- The second less is lost where the request falls at the end of a second, whose fraction is not
  -- stored: of a domain that is not blocked the next request is then allowed 999999 microseconds
  -- before the delay has passed.
  pub spacing_lost :
      (k delay concurrency : ℕ)
      → 0 < l.delay_seconds
      → l.blocked_until ≡ none
      → (is_allowed
          (from_iso k + l.delay_seconds)
          domain
          delay
          concurrency
          (record_request (from_iso k + 999999) domain limits)).1.0
        ≡ true
  spacing_lost k delay concurrency pos unblocked =
      let m : Limit = record l { last_request_at = some (now_iso (from_iso k + 999999)) } in
      (is_allowed_iff (from_iso k + l.delay_seconds) domain delay concurrency
          (record_request (from_iso k + 999999) domain limits) m
          (found-record_request (from_iso k + 999999)) pos).1
        (record { unblocked = λ t u. ground arith; spaced = λ t u. ground arith })

  found-record_error :
      (now b : ℕ)
      → 0 < b
      → first (of_domain domain) (record_error now domain (some b) limits)
        ≡ some (record l { error_count = suc l.error_count; blocked_until = some (now_plus now b) })
  unfolding record_error
  found-record_error now b pos =
      let t : (b =? 0) ≡ false = ground arith in
      rw t (
        first-update_same (of_domain domain) (blocked_for now b) (λ k. refl)
          (update_where (of_domain domain) failed_once limits) (failed_once l)
          (first-update_same (of_domain domain) failed_once (λ k. refl) limits l e))

  -- A server's request to wait is kept, to the second: after `record_error` with a positive block
  -- no request to the domain is allowed before the second in which the block ends.
  pub record_error_blocks :
      (now later b delay concurrency : ℕ)
      → 0 < b
      → 0 < l.delay_seconds
      → later < from_iso (now_plus now b)
      → (is_allowed later domain delay concurrency (record_error now domain (some b) limits)).1.0
        ≡ false
  record_error_blocks now later b delay concurrency pos d early =
      rw
        (is_allowed-found later domain delay concurrency (record_error now domain (some b) limits) _
          (found-record_error now b pos))
        (unfold allowed_at in ground arith)
