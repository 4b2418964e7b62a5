-- ===== src/Tests/Crawling.antt =====
-- Passes of a collector (db_collector_os/collectors, db_collector_os/worker.py, db_collector_os/metrics.py).
use db_collector_os.Prelude.{
  ℕ, ◌≡◌, ◌≢◌, refl, String, none, some, true, false, [], ◌∷◌, All, arith, if◌then◌else◌, ◌=?◌,
}
use db_collector_os.Models.Enums.{JobStatus, QueueStatus, discovery, new}
use db_collector_os.Models.Json.{null, str, float, pos, dict, end}
use db_collector_os.JobRegistry.{Job, get}
use db_collector_os.RunHistory
use db_collector_os.RunHistory.{Run}
use db_collector_os.Records.{ExtractedRecord}
use db_collector_os.Candidates
use db_collector_os.Candidates.{Candidate}
use db_collector_os.Fetching.Queue.{Item}
use db_collector_os.Fetching.Queue.Settled.{IsIdle}
use db_collector_os.Fetching.Client.{FetchResult}
use db_collector_os.Discovery.Urls.{DiscoveredUrl}
use db_collector_os.Discovery.Engine.{Sources}
use db_collector_os.Persistence.{Services}
use db_collector_os.Metrics.{new_entities, unknown, bump, today}
use db_collector_os.Metrics.Sums.{Summed, today-bump}
use db_collector_os.Collectors.Context.{
  Context, RunOutcome, no_outcome, Pass, Adapter, World, not_implemented,
}
use db_collector_os.Collectors.Handling.{persisted, handle_extracted}
use db_collector_os.Collectors.Handling.Judged.{verdict, handle_extracted-verdict}
use db_collector_os.Collectors.Drain.{ready_domains, drain_fetch_queue}
use db_collector_os.Collectors.Drain.Bounds.{Bounded, drain_fetch_queue-Bounded}
use db_collector_os.Collectors.Passes.{run_once}
use db_collector_os.Collectors.Passes.Truthful.{Truthful, run_once-Truthful}
use db_collector_os.Collectors.Passes.Settled.{run_once-Settled}
use db_collector_os.Worker.Jobs.{run_claimed}
use db_collector_os.Worker.Jobs.Completed.{Completed, run_claimed-Completed}

abbrev pub job : Job
job = record {
  job_id = "j";
  job_name = "Makers";
  category = "c";
  target_db = "d";
  target_table = "t";
  collector_type = "official_site";
  adapter = "a";
  priority = 50;
  enabled = true;
  phase = discovery;
  schedule = "@daily";
  max_pages = 2;
  max_depth = 2;
  concurrency = 1;
  rate_limit = 1000000;
  config_json = dict end;
  status = JobStatus.running;
  created_at = 1;
  updated_at = 2;
  last_started_at = some 2;
  last_finished_at = none;
  next_run_at = some 1;
}

abbrev services : Services
services = record {
  normalize_name = λ s. s;
  normalize_address = λ s. s;
  normalize_telephone = λ s. s;
  normalize_url = λ s. s;
  url_host = λ s. some s;
  url_parts = λ s. some ("https", s);
  sha256 = λ s. s;
}

abbrev acme : ExtractedRecord
acme = record {
  name = str "Acme";
  entity_type = str "maker";
  canonical_url = str "acme.example";
  domain = str "acme.example";
  address = null;
  telephone = null;
  external_id = null;
  confidence = float (pos 600);
  fields = dict end;
  missing_required = [];
  skip = false;
  skip_reason = none;
}

abbrev pub adapter : Adapter
adapter = record {
  seed_urls = λ j. "acme.example" ∷ [];
  extract = λ common url content. some acme;
  parse_api = λ v url. not_implemented;
}

abbrev page : FetchResult
page = record {
  url = "acme.example";
  ok = true;
  http_status = some 200;
  final_url = some "acme.example";
  content = some "Acme";
  content_type = some "text/html";
  content_hash = some "h";
  etag = none;
  last_modified = none;
  error = none;
  retry_after = none;
  blocked = false;
}

abbrev nothing_found : Sources
nothing_found = record {
  sitemap = λ u. none;
  robots = λ u. none;
  search = λ q. none;
  prefecture = λ v b. none;
  url_pattern = λ v. none;
}

abbrev pub world : World
world = record {
  services = services;
  extract_domain = λ s. s;
  new_id = λ n. if n =? 0 then "i0" else if n =? 1 then "i1" else "i";
  fetch = λ n url etag last_modified. page;
  elapsed = λ n. 3;
  sources = λ now. nothing_found;
  discovery_time = λ now. 5;
  compile = λ v. none;
  get_adapter = λ name. some adapter;
  extract_common =
      λ content url. some (record { links = "acme.example" ∷ []; json_ld = []; rest = end });
  json_loads = λ s. none;
  show_list = λ ss. "";
  today = λ now. "2026-01-01";
}

abbrev pub context : Context
context = record {
  now = 9000000;
  drawn = 0;
  requests = 0;
  jobs = job ∷ [];
  candidates = [];
  fetch_queue = record { items = []; next_id = 1 };
  limits = [];
  stores = record { entities = []; evidence = record { rows = []; next_id = 1 } };
  review = record { items = []; next_id = 1 };
  runs = [];
  discovery_runs = [];
  checkpoints = [];
  metrics = [];
}

abbrev outcome : RunOutcome
outcome = record no_outcome { fetched = 1; inserted = 1; discovered = 1 }

returned : (run_once world job context).1 ≡ some outcome
unfolding run_once db_collector_os.Collectors.Passes.gather_pages drain_fetch_queue
    db_collector_os.Collectors.Drain.drain ready_domains
    db_collector_os.Collectors.Drain.queued_domains
    db_collector_os.Collectors.Pages.promote_new_candidates db_collector_os.Candidates.list_new
    db_collector_os.Collectors.Passes.run_seed_discovery
    db_collector_os.Discovery.Engine.save_candidates db_collector_os.Discovery.Engine.seed_found
    db_collector_os.Collectors.Passes.open_run db_collector_os.Checkpoints.load
    db_collector_os.Collectors.Pages.ensure_seed_urls_queued db_collector_os.Fetching.Queue.enqueue
    db_collector_os.Fetching.Queue.requeue_stale_fetching
    db_collector_os.Fetching.RateLimiter.is_allowed db_collector_os.Candidates.get_by_url
    db_collector_os.Candidates.set_status db_collector_os.Checkpoints.save
    db_collector_os.Collectors.Handling.handle_each handle_extracted
    db_collector_os.Collectors.Pages.discover_page db_collector_os.Collectors.Pages.extract_records
    db_collector_os.Collectors.Pages.process_queue_item db_collector_os.Discovery.Engine.page_found
    db_collector_os.Candidates.add db_collector_os.Collectors.Passes.advance_phase
    db_collector_os.Discovery.Urls.discover_from_search
    db_collector_os.Discovery.Urls.discover_internal_links
    db_collector_os.Discovery.Urls.discover_related_entities
    db_collector_os.Fetching.Queue.claim_next db_collector_os.Fetching.Queue.exists
    db_collector_os.Fetching.Queue.mark_done db_collector_os.Fetching.RateLimiter.allowed_at
    db_collector_os.Fetching.RateLimiter.get_or_create
    db_collector_os.Fetching.RateLimiter.record_request
    db_collector_os.Fetching.RateLimiter.record_success db_collector_os.JobRegistry.Schedule.strip
    db_collector_os.Persistence.domain_from_url db_collector_os.Persistence.persist
    db_collector_os.Persistence.prepare db_collector_os.Deduplication.resolve
    db_collector_os.Validation.found_errors db_collector_os.Validation.get_value
    db_collector_os.Validation.is_missing db_collector_os.Validation.missing_errors
    db_collector_os.Validation.unique db_collector_os.Validation.validate_record
returned = refl

run_once-Truthful_example : Truthful job context (run_once world job context).0 outcome
run_once-Truthful_example = run_once-Truthful world job context outcome refl returned

run_once-Settled_example : All (IsIdle "j") (run_once world job context).0.fetch_queue.items
run_once-Settled_example = run_once-Settled world job context outcome returned

no_run : RunHistory.get "i0" [] ≡ none
unfolding RunHistory.get
no_run = refl

get_j : get "j" context.jobs ≡ some job
unfolding get
get_j = refl

run_claimed-Completed_example :
    (d : Context) × (status : JobStatus) × (run_claimed world 5000000 job context
      ≡ (d, some status))
    × (id : String) × (r : Run) × (RunHistory.get id d.runs ≡ some r)
    × Completed outcome r
run_claimed-Completed_example =
    run_claimed-Completed world 5000000 job job context outcome no_run refl get_j returned

-- A queue of two pages of one domain, the first of which can be fetched at once.
abbrev row : ℕ → String → Item
row id url = record {
  queue_id = id;
  job_id = "j";
  url = url;
  domain = "acme.example";
  priority = 50;
  status = QueueStatus.queued;
  attempt_count = 0;
  max_attempts = 5;
  last_http_status = none;
  next_retry_at = none;
  fetched_at = none;
  content_hash = none;
  etag = none;
  last_modified = none;
  error_message = none;
  created_at = 1;
}

abbrev queued : Context
queued = record context {
  fetch_queue = record { items = row 1 "p1" ∷ row 2 "p2" ∷ []; next_id = 3 };
}

abbrev pass : Pass
pass = record { ctx = queued; outcome = no_outcome; raised = false }

drain_fetch_queue-Bounded_example : Bounded job 3 pass (drain_fetch_queue world job adapter pass)
drain_fetch_queue-Bounded_example =
    drain_fetch_queue-Bounded world job adapter 3 pass (λ n. ground arith) (ground arith)

abbrev candidate : Candidate
candidate = record {
  candidate_id = "c";
  job_id = "j";
  entity_type = "maker";
  name = none;
  normalized_name = none;
  url = some "acme.example";
  source_url = none;
  discovery_method = "seed";
  fingerprint = some "acme.example";
  confidence = 500;
  status = new;
  discovered_at = 1;
  reviewed_at = none;
}

abbrev found : Pass
found = record pass { ctx = record context { candidates = candidate ∷ [] } }

get_c : Candidates.get "c" found.ctx.candidates ≡ some candidate
unfolding Candidates.get
get_c = refl

handle_extracted-verdict_example :
    (y : Candidate) × (Candidates.get "c"
        (handle_extracted world job acme "acme.example" "acme.example"
          (some candidate)
          found).ctx.candidates
      ≡ some y)
    × (y.status
        ≡ verdict (persisted world job acme "acme.example" "acme.example" found.ctx).1.action)
handle_extracted-verdict_example =
    handle_extracted-verdict world job acme "acme.example" "acme.example" candidate candidate found
      get_c

today-bump_example :
    Summed
      ((new_entities, 2) ∷ (unknown, 7) ∷ [])
      (today "2026-01-01" [])
      (today "2026-01-01" (bump "2026-01-01" ((new_entities, 2) ∷ (unknown, 7) ∷ []) []))
    × ((other : String)
        → other ≢ "2026-01-01"
        → today other (bump "2026-01-01" ((new_entities, 2) ∷ (unknown, 7) ∷ []) [])
          ≡ today other [])
today-bump_example = today-bump "2026-01-01" ((new_entities, 2) ∷ (unknown, 7) ∷ []) []
