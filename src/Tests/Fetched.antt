-- ===== src/Tests/Fetched.antt =====
-- Fetching and discovery (db_collector_os/fetching/client.py, db_collector_os/discovery).
use db_collector_os.Prelude.{
  ℕ, ◌+◌, ◌≤◌, ◌≡◌, String, Option, none, some, true, false, List, [], ◌∷◌, arith, ◌==◌,
  if◌then◌else◌, length,
}
use db_collector_os.Models.Enums.{JobStatus, discovery}
use db_collector_os.Models.Json.{dict, end}
use db_collector_os.JobRegistry.{Job}
use db_collector_os.Candidates.{total_count}
use db_collector_os.Fetching.Client.{Net, FetchEngine, Response, response, header, can_fetch, fetch}
use db_collector_os.Fetching.Client.Requests.{Sends, fetch-Sends}
use db_collector_os.Fetching.Client.Verdicts.{Verdict, fetch-Verdict}
use db_collector_os.Discovery.Urls.{DiscoveredUrl, discovered}
use db_collector_os.Discovery.Sitemap.{
  Document, sitemap_index, url_set, discover_from_sitemap, discover_from_robots,
}
use db_collector_os.Discovery.Sitemap.Bounds.{sitemaps_bounded}
use db_collector_os.Discovery.Engine.{Pool, save_candidates}
use db_collector_os.Discovery.Engine.Fresh.{save_candidates_lem}

abbrev answer : String → Response
answer url = record {
  status_code = 200;
  url = url;
  history = [];
  content_type = some "text/html; charset=utf-8";
  etag = some "e";
  last_modified = none;
  retry_after = none;
  text = "Acme";
  meta_charset = none;
  apparent_encoding = none;
  decode = λ charset. none;
  decode_utf8 = "Acme";
}

abbrev net : Net
net = record {
  scheme = λ url. "https";
  netloc = λ url. "acme.example";
  hostname = λ url. some "acme.example";
  lower = λ s. s;
  ip_address = λ host. none;
  get = λ url etag last_modified. response (answer url);
  get_robots = λ url. ([], some (200, "Disallow: /private" ∷ []));
  may_fetch = λ lines url. some true;
  to_float = λ s. none;
  parse_date = λ s. none;
  sha256 = λ s. s;
}

abbrev engine : FetchEngine
engine = record { respect_robots = true; allow_private_networks = false; max_redirects = 5 }

fetch-Sends_example :
    Sends net engine "https://acme.example/p" none none []
      (fetch net engine 9000000 "https://acme.example/p" none none []).1.1
fetch-Sends_example = fetch-Sends net engine "https://acme.example/p" none none [] 9000000

fetch-Verdict_example :
    Verdict net engine "https://acme.example/p"
      (can_fetch net "https://acme.example/p" []).0
      (net.get "https://acme.example/p" (header net none) (header net none))
      (fetch net engine 9000000 "https://acme.example/p" none none []).0
fetch-Verdict_example = fetch-Verdict net engine 9000000 "https://acme.example/p" none none []

-- An index that names itself and a sitemap of two pages.
abbrev documents : String → Option Document
documents url =
    if url == "index"
    then some (sitemap_index (some "index" ∷ some "pages" ∷ []))
    else some (url_set ((some "p1", none) ∷ (some "p2", none) ∷ []))

sitemaps_bounded_example :
    (length (discover_from_sitemap documents "index" 3) ≤ 3)
    × (length (discover_from_robots documents 3 ("index" ∷ [])) ≤ 3)
sitemaps_bounded_example = sitemaps_bounded documents "index" ("index" ∷ []) 3 (ground arith)

abbrev job : Job
job = record {
  job_id = "j";
  job_name = "Makers";
  category = "maker";
  target_db = "d";
  target_table = "t";
  collector_type = "official_site";
  adapter = "a";
  priority = 50;
  enabled = true;
  phase = discovery;
  schedule = "@daily";
  max_pages = 2;
  max_depth = 2;
  concurrency = 1;
  rate_limit = 1000000;
  config_json = dict end;
  status = JobStatus.running;
  created_at = 1;
  updated_at = 2;
  last_started_at = some 2;
  last_finished_at = none;
  next_run_at = some 1;
}

abbrev seen : List DiscoveredUrl
seen =
    discovered "sitemap" 500 "p1" ∷ discovered "sitemap" 500 "p1" ∷ discovered "sitemap" 500 "" ∷ []

abbrev pool : Pool
pool = record { candidates = []; drawn = 0 }

abbrev id_of : ℕ → String
id_of n = "c"

save_candidates_example :
    (total_count "j" (save_candidates (λ s. s) id_of 9000000 job seen pool).0.candidates
      ≡ total_count "j" [] + length (save_candidates (λ s. s) id_of 9000000 job seen pool).1)
    × (save_candidates
          (λ s. s)
          id_of
          9900000
          job
          seen
          (save_candidates (λ s. s) id_of 9000000 job seen pool).0
        ≡ ((save_candidates (λ s. s) id_of 9000000 job seen pool).0, []))
save_candidates_example = save_candidates_lem (λ s. s) id_of job 9000000 9900000 seen pool
