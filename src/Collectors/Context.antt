-- ===== src/Collectors/Context.antt =====
-- What a pass of a collector works on: db_collector_os/collectors/context.py, `Adapter` of
-- adapters/base.py and `RunOutcome` of collectors/pipeline.py.
use db_collector_os.Prelude.{ℕ, String, Option, Bool, List}
use db_collector_os.Models.Json.{Value, Fields}
use db_collector_os.JobRegistry.{Job}
use db_collector_os.Records.{ExtractedRecord}
use db_collector_os.Candidates.{Candidate}
use db_collector_os.Fetching.Queue.{FetchQueue}
use db_collector_os.Fetching.RateLimiter.{Limit}
use db_collector_os.Fetching.Client.{FetchResult}
use db_collector_os.Persistence.{Services, Stores}
use db_collector_os.Review.{ReviewQueue}
use db_collector_os.RunHistory.{Run, DiscoveryRun}
use db_collector_os.Checkpoints.{Checkpoint}
use db_collector_os.Metrics.{DailyMetrics}
use db_collector_os.Discovery.Urls.{Search}
use db_collector_os.Discovery.Engine.{Sources}

-- The tables, the clock, and how many ids have been drawn and how many pages fetched so far.
pub record Context : Type 0 where
  pub now : ℕ
  pub drawn : ℕ
  pub requests : ℕ
  pub jobs : List Job
  pub candidates : List Candidate
  pub fetch_queue : FetchQueue
  pub limits : List Limit
  pub stores : Stores
  pub review : ReviewQueue
  pub runs : List Run
  pub discovery_runs : List DiscoveryRun
  pub checkpoints : List Checkpoint
  pub metrics : List DailyMetrics

-- The tables that the drain of the queue leaves alone.
abbrev pub books : Context → List Job × (List Run × List Checkpoint)
books c = (c.jobs, (c.runs, c.checkpoints))

pub record RunOutcome : Type 0 where
  pub fetched : ℕ
  pub inserted : ℕ
  pub updated : ℕ
  pub duplicates : ℕ
  pub reviewed : ℕ
  pub errors : ℕ
  pub discovered : ℕ

abbrev pub no_outcome : RunOutcome
no_outcome = record {
  fetched = 0;
  inserted = 0;
  updated = 0;
  duplicates = 0;
  reviewed = 0;
  errors = 0;
  discovered = 0;
}

-- Where a pass stands; `raised` says that an exception is on its way out.
pub record Pass : Type 0 where
  pub ctx : Context
  pub outcome : RunOutcome
  pub raised : Bool

-- What extract_common returns, as far as the pipeline reads it; `rest` is for the adapters.
pub record Common : Type 0 where
  pub links : List String
  pub json_ld : List Fields
  pub rest : Fields

-- What parse_api does: it returns records, raises NotImplementedError, or raises something else.
pub data Parsed : Type 0 where
  records : List ExtractedRecord → Parsed
  not_implemented : Parsed
  parse_raised : Parsed

-- `extract` is none where it raises.
pub record Adapter : Type 0 where
  pub seed_urls : Job → List String
  pub extract : Common → (url content : String) → Option ExtractedRecord
  pub parse_api : Value → (url : String) → Parsed

-- The functions of other modules and libraries. `new_id` draws the ids one after another, `fetch` and
-- `elapsed` are FetchEngine.fetch and the time it takes, for the fetches one after another, `sources`
-- is what discovery finds at an instant, and `discovery_time` the time that it takes.
pub record World : Type 0 where
  pub services : Services
  pub extract_domain : String → String
  pub new_id : ℕ → String
  pub fetch : ℕ → (url : String) (etag last_modified : Option String) → FetchResult
  pub elapsed : ℕ → ℕ
  pub sources : ℕ → Sources
  pub discovery_time : ℕ → ℕ
  pub compile : Value → Option (String → Search)
  pub get_adapter : String → Option Adapter
  pub extract_common : (content url : String) → Option Common
  pub json_loads : String → Option Value
  pub show_list : List String → String
  pub today : ℕ → String
