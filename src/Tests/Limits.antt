-- ===== src/Tests/Limits.antt =====
-- A domain with a rate limit (db_collector_os/fetching/rate_limiter.py).
use db_collector_os.Prelude.{
  ℕ, ◌+◌, ◌<◌, ◌≡◌, refl, ◌⊎◌, none, some, true, false, List, [], ◌∷◌, arith, first,
}
use db_collector_os.Clock.{second, from_iso}
use db_collector_os.Fetching.RateLimiter.{Limit, of_domain, is_allowed, record_request}
use db_collector_os.Fetching.RateLimiter.Spacing.{refused_wait, spacing, spacing_lost}

abbrev limit : Limit
limit = record {
  domain = "x.jp";
  delay_seconds = 2000000;
  concurrency = 2;
  last_request_at = some 10;
  blocked_until = none;
  error_count = 0;
}

abbrev limits : List Limit
limits = limit ∷ []

found : first (of_domain "x.jp") limits ≡ some limit
found = refl

refused : (is_allowed 11500000 "x.jp" 1000000 2 limits).1 ≡ (false, 500000)
unfolding is_allowed
refused = refl

refused_wait_example :
    (0 < 500000)
    × (((is_allowed (11500000 + 500000) "x.jp" 1000000 2 limits).1.0 ≡ true)
        ⊎ ((v : ℕ) × ((is_allowed (11500000 + 500000) "x.jp" 1000000 2 limits).1 ≡ (false, v))
            × ((is_allowed (11500000 + 500000 + v) "x.jp" 1000000 2 limits).1.0 ≡ true)))
refused_wait_example = refused_wait 11500000 "x.jp" 1000000 2 500000 limits limit found refused

then_allowed :
    (is_allowed 14000000 "x.jp" 1000000 2 (record_request 12700000 "x.jp" limits)).1.0 ≡ true
unfolding is_allowed record_request
then_allowed = refl

spacing_example : 12700000 + 2000000 < 14000000 + second
spacing_example =
    spacing "x.jp" limits limit found 12700000 14000000 1000000 2 (omega arith) then_allowed

spacing_lost_example :
    (is_allowed
      (from_iso 12 + 2000000)
      "x.jp"
      1000000
      2
      (record_request (from_iso 12 + 999999) "x.jp" limits)).1.0
    ≡ true
spacing_lost_example = spacing_lost "x.jp" limits limit found 12 1000000 2 (omega arith) refl
