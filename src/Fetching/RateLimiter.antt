-- ===== src/Fetching/RateLimiter.antt =====
-- db_collector_os/fetching/rate_limiter.py: the `domain_rate_limits` table. Delays and waits are in
-- microseconds; the timestamps that are stored are whole seconds.
pub mod Spacing
use db_collector_os.Prelude.{
  ℕ, suc, ◌+◌, ◌-◌, String, Option, none, some, Bool, true, false, List, [], ◌∷◌, ◌++◌, ltb, ◌=?◌,
  ◌==◌, if◌then◌else◌, first, update_where,
}
use db_collector_os.Clock.{now_iso, now_plus, from_iso}

pub record Limit : Type 0 where
  pub domain : String
  pub delay_seconds : ℕ
  pub concurrency : ℕ
  pub last_request_at : Option ℕ
  pub blocked_until : Option ℕ
  pub error_count : ℕ

abbrev pub of_domain : String → Limit → Bool
of_domain domain l = l.domain == domain

abbrev pub new_limit : String → ℕ → ℕ → Limit
new_limit domain delay concurrency = record {
  domain = domain;
  delay_seconds = delay;
  concurrency = concurrency;
  last_request_at = none;
  blocked_until = none;
  error_count = 0;
}

-- `_get_or_create` by the row that is there
abbrev pub get_or_create_at : String → ℕ → ℕ → Option Limit → List Limit → List Limit × Limit
get_or_create_at domain delay concurrency (some l) limits = (limits, l)
get_or_create_at domain delay concurrency none limits =
    (limits ++ new_limit domain delay concurrency ∷ [], new_limit domain delay concurrency)

unfoldable pub get_or_create : String → ℕ → ℕ → List Limit → List Limit × Limit
get_or_create domain delay concurrency limits =
    get_or_create_at domain delay concurrency (first (of_domain domain) limits) limits

-- `row["delay_seconds"] or delay_seconds`
abbrev or_delay : ℕ → ℕ → ℕ
or_delay stored given = if stored =? 0 then given else stored

-- `elapsed < delay` is `now < last + delay`, and then `delay - elapsed` is `last + delay - now`,
-- also if the clock has gone back.
abbrev pub delay_wait : ℕ → ℕ → Option ℕ → Bool × ℕ
delay_wait now delay none = (true, 0)
delay_wait now delay (some last) =
    if ltb now (from_iso last + delay) then (false, from_iso last + delay - now) else (true, 0)

abbrev pub block_wait : ℕ → ℕ → Option ℕ → Option ℕ → Bool × ℕ
block_wait now delay none last = delay_wait now delay last
block_wait now delay (some until) last =
    if ltb now (from_iso until) then (false, from_iso until - now) else delay_wait now delay last

-- The answer of `is_allowed` for a row of the table.
unfoldable pub allowed_at : ℕ → ℕ → Limit → Bool × ℕ
allowed_at now delay l =
    block_wait now (or_delay l.delay_seconds delay) l.blocked_until l.last_request_at

-- The new table, and whether a request is allowed, with the time to wait if not.
unfoldable pub is_allowed : ℕ → String → ℕ → ℕ → List Limit → List Limit × (Bool × ℕ)
unfolding get_or_create allowed_at
is_allowed now domain delay concurrency limits =
    let (limits', l) = get_or_create domain delay concurrency limits in
    (limits', allowed_at now delay l)

abbrev pub requested : ℕ → Limit → Limit
requested now l = record l { last_request_at = some (now_iso now) }

abbrev pub failed_once : Limit → Limit
failed_once l = record l { error_count = suc l.error_count }

abbrev pub blocked_for : ℕ → ℕ → Limit → Limit
blocked_for now delay l = record l { blocked_until = some (now_plus now delay) }

unfoldable pub record_request : ℕ → String → List Limit → List Limit
record_request now domain = update_where (of_domain domain) (requested now)

abbrev block : ℕ → String → Option ℕ → List Limit → List Limit
block now domain none limits = limits
block now domain (some delay) limits =
    if delay =? 0 then limits else update_where (of_domain domain) (blocked_for now delay) limits

unfoldable pub record_error : ℕ → String → Option ℕ → List Limit → List Limit
record_error now domain block_seconds limits =
    block now domain block_seconds (update_where (of_domain domain) failed_once limits)

unfoldable pub record_success : String → List Limit → List Limit
record_success domain =
    update_where (of_domain domain) (λ l. record l { error_count = 0; blocked_until = none })
