-- ===== src/Collectors/Pages.antt =====
-- db_collector_os/collectors/pipeline.py: seeds, the promotion of candidates, and what is done with one
-- claimed URL; ApiCollector of collectors/api.py and get_collector of collectors/__init__.py.
pub mod Tally
pub mod Settled
use Prim.Native.String.{◌++◌ as ◌⧺◌}
use db_collector_os.Prelude.{
  ℕ, suc, ◌+◌, ◌*◌, ◌/◌, String, Option, none, some, Bool, true, false, List, [], ◌∷◌, ◌++◌, ◌=?◌,
  ◌==◌, if◌then◌else◌, first, length,
}
use db_collector_os.Prelude.Text.{contains}
use db_collector_os.Models.Enums.{
  QueueStatus, ReviewReason, captcha, blocked, parse_failure, is_queue_status,
}
use db_collector_os.Models.Json.{Value, Fields, dict, end}
use db_collector_os.JobRegistry.{Job}
use db_collector_os.Candidates.{Candidate, list_new, get_by_url}
use db_collector_os.Records.{ExtractedRecord}
use db_collector_os.Fetching.Queue.{
  Item, FetchQueue, has_queue_id, exists, enqueue, mark_done, mark_skipped, mark_failed,
}
use db_collector_os.Fetching.RateLimiter.{record_request, record_error, record_success}
use db_collector_os.Fetching.Client.{FetchResult}
use db_collector_os.Discovery.Urls.{DiscoveredUrl}
use db_collector_os.Discovery.Engine.{Pool, page_found, save_candidates}
use db_collector_os.Collectors.Context.{
  Context, RunOutcome, Pass, Common, Parsed, records, not_implemented, parse_raised, Adapter, World,
}
use db_collector_os.Collectors.Handling.{id_of, ask, handle_each}

abbrev pub or_text : Option String → String → String
or_text none d = d
or_text (some s) d = if s == "" then d else s

-- A text as a format string shows it.
abbrev shown : Option String → String
shown none = "None"
shown (some s) = s

abbrev pub or_200 : Option ℕ → ℕ
or_200 none = 200
or_200 (some n) = if n =? 0 then 200 else n

abbrev pub is_304 : Option ℕ → Bool
is_304 none = false
is_304 (some n) = n =? 304

abbrev or_blank : Option String → String
or_blank none = ""
or_blank (some s) = s

-- int(50 + confidence * 50), for a confidence in thousandths
abbrev pub priority_of : ℕ → ℕ
priority_of confidence = 50 + confidence * 50 / 1000

abbrev pub keep_new : Bool → String → List String → List String
keep_new tracked url urls = if tracked then urls else url ∷ urls

module _ (w : World) where
  abbrev pub enqueue_in : ℕ → Job → String → ℕ → FetchQueue → FetchQueue
  enqueue_in now j url priority q =
      (enqueue w.services.normalize_url w.extract_domain now j.job_id url priority 5 q).0

  -- ensure_seed_urls_queued, for the URLs of the adapter: the new queue and the URLs that are new in it.
  unfoldable pub ensure_seed_urls_queued :
      ℕ → Job → List String → FetchQueue → FetchQueue × List String
  ensure_seed_urls_queued now j [] q = (q, [])
  ensure_seed_urls_queued now j (url ∷ urls) q =
      let normalized = w.services.normalize_url url in
      let skipped = ensure_seed_urls_queued now j urls q in
      let rest = ensure_seed_urls_queued now j urls (enqueue_in now j url j.priority q) in
      if normalized == "" then skipped else (
        rest.0,
        keep_new (exists w.services.normalize_url j.job_id normalized q) normalized rest.1,
      )

  abbrev pub promote_each : ℕ → Job → List Candidate → FetchQueue → FetchQueue
  promote_each now j [] q = q
  promote_each now j (c ∷ cs) q =
      promote_each now j cs (enqueue_in now j (or_blank c.url) (priority_of c.confidence) q)

  -- _promote_new_candidates
  unfoldable pub promote_new_candidates : Job → Context → Context
  promote_new_candidates j ctx = record ctx {
    fetch_queue = promote_each ctx.now j (list_new j.job_id 500 ctx.candidates) ctx.fetch_queue;
  }

  -- `_save_candidates` on the context: it, and the items that are new.
  abbrev pub save_found : Job → List DiscoveredUrl → Context → Context × List DiscoveredUrl
  save_found j found ctx =
      let saved =
        save_candidates w.services.normalize_url w.new_id ctx.now j found
          (record { candidates = ctx.candidates; drawn = ctx.drawn }) in
      (record ctx { candidates = saved.0.candidates; drawn = saved.0.drawn }, saved.1)

  abbrev discovered_at : Job → Context × List DiscoveredUrl → Pass → Pass
  discovered_at j (ctx, []) p = record p { ctx = ctx }
  discovered_at j (ctx, d ∷ ds) p = record p {
    ctx = promote_new_candidates j ctx;
    outcome = record p.outcome { discovered = p.outcome.discovered + length (d ∷ ds) };
  }

  -- discover_from_page, and the promotion if it has found something new.
  unfoldable pub discover_page : Job → Common → String → Pass → Pass
  discover_page j common url p =
      discovered_at j
        (save_found j
          (page_found w.extract_domain w.compile j common.links common.json_ld
            (w.extract_domain url))
          p.ctx)
        p

  abbrev pub raise : Pass → Pass
  raise p = record p { raised = true }

  abbrev pub extracted : Option ExtractedRecord → Pass → Pass × List ExtractedRecord
  extracted none p = (raise p, [])
  extracted (some r) p = (p, r ∷ [])

  abbrev extract_page :
      Job → Adapter → (url content : String) → Option Common → Pass → Pass × List ExtractedRecord
  extract_page j a url content none p = (raise p, [])
  extract_page j a url content (some common) p =
      extracted (a.extract common url content) (discover_page j common url p)

  abbrev pub parsed : Parsed → Pass → Pass × List ExtractedRecord
  parsed (records rs) p = (p, rs)
  parsed not_implemented p = (p, [])
  parsed parse_raised p = (raise p, [])

  abbrev parse_payload : Adapter → String → Option Value → Pass → Pass × List ExtractedRecord
  parse_payload a url none p = (p, [])
  parse_payload a url (some payload) p = parsed (a.parse_api payload url) p

  -- `json.loads(content) if content else {}`
  abbrev payload_of : String → Option Value
  payload_of content = if content == "" then some (dict end) else w.json_loads content

  -- _extract_records of the class that get_collector takes for the job's collector_type.
  unfoldable pub extract_records :
      Job → Adapter → (url content : String) → Pass → Pass × List ExtractedRecord
  extract_records j a url content p =
      if j.collector_type == "api"
      then parse_payload a url (payload_of content) p
      else extract_page j a url content (w.extract_common content url) p

  abbrev candidate_of : Job → Item → Pass → Option Candidate
  candidate_of j i p = get_by_url j.job_id i.url p.ctx.candidates

  abbrev pub count_error : Pass → Pass
  count_error p = record p { outcome = record p.outcome { errors = suc p.outcome.errors } }

  abbrev blocked_reason : Option String → ReviewReason
  blocked_reason error = if contains "captcha" (or_blank error) then captcha else blocked

  abbrev pub on_blocked : Job → Item → FetchResult → Pass → Pass
  on_blocked j i r p = count_error (
      ask j (blocked_reason r.error) r.error none (id_of (candidate_of j i p)) (record p {
        ctx = record p.ctx {
          limits = record_error p.ctx.now i.domain none p.ctx.limits;
          fetch_queue =
              mark_skipped p.ctx.now i.queue_id (or_text r.error "blocked") p.ctx.fetch_queue;
        };
      }))

  abbrev has_failed : Option Item → Bool
  has_failed none = false
  has_failed (some i) = is_queue_status i.status QueueStatus.failed

  abbrev ask_if_failed : Job → Item → FetchResult → Pass → Pass
  ask_if_failed j i r p =
      if has_failed (first (has_queue_id i.queue_id) p.ctx.fetch_queue.items)
      then ask j parse_failure (some ("fetch failed permanently: " ⧺ shown r.error)) none
          (id_of (candidate_of j i p)) p
      else p

  abbrev pub put_back : Item → FetchResult → Pass → Pass
  put_back i r p = count_error (record p {
    ctx = record p.ctx {
      limits = record_error p.ctx.now i.domain r.retry_after p.ctx.limits;
      fetch_queue =
          mark_failed p.ctx.now i.queue_id (or_text r.error "unknown error") r.http_status
            r.retry_after p.ctx.fetch_queue;
    };
  })

  abbrev pub on_failure : Job → Item → FetchResult → Pass → Pass
  on_failure j i r p = ask_if_failed j i r (put_back i r p)

  abbrev pub done_with : Item → ℕ → (content_hash etag last_modified : Option String) → Pass → Pass
  done_with i status content_hash etag last_modified p = record p {
    ctx = record p.ctx {
      fetch_queue =
          mark_done p.ctx.now i.queue_id status content_hash etag last_modified p.ctx.fetch_queue;
    };
  }

  -- An exception leaves the row as it is.
  abbrev pub store_records : Job → Item → FetchResult → Pass × List ExtractedRecord → Pass
  store_records j i r (p, rs) =
      if p.raised
      then p
      else let q = done_with i (or_200 r.http_status) r.content_hash r.etag r.last_modified p in
        handle_each w j rs i.url i.domain (candidate_of j i q) q

  abbrev pub on_success : Job → Adapter → Item → FetchResult → Pass → Pass
  on_success j a i r p =
      let q = record p { ctx = record p.ctx { limits = record_success i.domain p.ctx.limits } } in
      if is_304 r.http_status
      then done_with i 304 i.content_hash i.etag i.last_modified q
      else store_records j i r (extract_records j a i.url (or_blank r.content) q)

  -- By the result of the fetch.
  abbrev pub handle_fetch : Job → Adapter → Item → FetchResult → Pass → Pass
  handle_fetch j a i r p =
      if r.blocked
      then on_blocked j i r p
      else if r.ok
      then on_success j a i r p
      else on_failure j i r p

  -- The fetch: the request is recorded, then the time goes by that the fetch takes.
  abbrev pub fetched : Item → Pass → Pass
  fetched i p = record p {
    ctx = record p.ctx {
      limits = record_request p.ctx.now i.domain p.ctx.limits;
      now = p.ctx.now + w.elapsed p.ctx.requests;
      requests = suc p.ctx.requests;
    };
    outcome = record p.outcome { fetched = suc p.outcome.fetched };
  }

  -- _process_queue_item
  unfoldable pub process_queue_item : Job → Adapter → Item → Pass → Pass
  process_queue_item j a i p =
      handle_fetch j a i (w.fetch p.ctx.requests i.url i.etag i.last_modified) (fetched i p)
