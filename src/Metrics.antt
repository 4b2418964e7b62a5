-- ===== src/Metrics.antt =====
-- db_collector_os/metrics.py: the `daily_metrics` table. The date of today is an argument; dates in ISO
-- format are ordered as texts, by the parameter `not_after`. The runtime is in microseconds.
pub mod Sums
use db_collector_os.Prelude.{
  ℕ, ◌+◌, String, Option, none, some, Bool, List, [], ◌∷◌, ◌++◌, ◌==◌, first, update_where,
  order_by, limit,
}

pub record DailyMetrics : Type 0 where
  pub date : String
  pub new_entities : ℕ
  pub updated_entities : ℕ
  pub fetch_success : ℕ
  pub fetch_errors : ℕ
  pub review_count : ℕ
  pub jobs_executed : ℕ
  pub runtime_seconds : ℕ
  pub pages_fetched : ℕ

-- The names that `bump` knows, and any other.
pub data MetricsField : Type 0 where
  new_entities updated_entities fetch_success fetch_errors : MetricsField
  review_count jobs_executed runtime_seconds pages_fetched unknown : MetricsField

abbrev pub of_date : String → DailyMetrics → Bool
of_date day m = m.date == day

abbrev pub zero_row : String → DailyMetrics
zero_row day = record {
  date = day;
  new_entities = 0;
  updated_entities = 0;
  fetch_success = 0;
  fetch_errors = 0;
  review_count = 0;
  jobs_executed = 0;
  runtime_seconds = 0;
  pages_fetched = 0;
}

-- UPDATE daily_metrics SET field = field + delta
abbrev pub raise_field : MetricsField → ℕ → DailyMetrics → DailyMetrics
raise_field new_entities n m = record m { new_entities = m.new_entities + n }
raise_field updated_entities n m = record m { updated_entities = m.updated_entities + n }
raise_field fetch_success n m = record m { fetch_success = m.fetch_success + n }
raise_field fetch_errors n m = record m { fetch_errors = m.fetch_errors + n }
raise_field review_count n m = record m { review_count = m.review_count + n }
raise_field jobs_executed n m = record m { jobs_executed = m.jobs_executed + n }
raise_field runtime_seconds n m = record m { runtime_seconds = m.runtime_seconds + n }
raise_field pages_fetched n m = record m { pages_fetched = m.pages_fetched + n }
raise_field unknown n m = m

-- INSERT … ON CONFLICT(date) DO NOTHING
abbrev pub insert_at : String → Option DailyMetrics → List DailyMetrics → List DailyMetrics
insert_at day none rows = rows ++ zero_row day ∷ []
insert_at day (some m) rows = rows

abbrev pub raise_each : String → List (MetricsField × ℕ) → List DailyMetrics → List DailyMetrics
raise_each day [] rows = rows
raise_each day ((f, n) ∷ fs) rows =
    raise_each day fs (update_where (of_date day) (raise_field f n) rows)

unfoldable pub bump : String → List (MetricsField × ℕ) → List DailyMetrics → List DailyMetrics
bump day fields rows = raise_each day fields (insert_at day (first (of_date day) rows) rows)

abbrev or_zero : String → Option DailyMetrics → DailyMetrics
or_zero day none = zero_row day
or_zero day (some m) = m

unfoldable pub today : String → List DailyMetrics → DailyMetrics
today day rows = or_zero day (first (of_date day) rows)

-- ORDER BY date DESC LIMIT days
unfoldable pub recent : (String → String → Bool) → ℕ → List DailyMetrics → List DailyMetrics
recent not_after days rows = limit days (order_by (λ m n. not_after n.date m.date) rows)
