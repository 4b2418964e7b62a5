-- ===== src/Collectors/Drain/Polite.antt =====
-- Which rows the drain of the queue claims: _ready_domains of db_collector_os/collectors/pipeline.py.
use db_collector_os.Prelude.{ℕ, ◌≡◌, String, some, true, List, first}
use db_collector_os.Fetching.RateLimiter.{Limit, of_domain, allowed_at}
use db_collector_os.Collectors.Context.{Context}

module _ (now delay : ℕ) where
  -- The table has a row for the domain, and by this row a request is allowed at this instant.
  pub record Allowed (limits : List Limit) (domain : String) : Type 0 where
    pub limit : Limit
    pub found : first (of_domain domain) limits ≡ some limit
    pub allowed : (allowed_at now delay limit).0 ≡ true
