-- ===== src/Collectors/Pages/Tally.antt =====
-- What `_process_queue_item` of db_collector_os/collectors/pipeline.py counts, against the tables.
use db_collector_os.Prelude.{
  ℕ, suc, ◌+◌, ◌≡◌, refl, String, Option, none, some, List, [], ◌∷◌, arith, length, first, ◌==◌,
  if-intro,
}
use db_collector_os.Models.Json.{Value}
use db_collector_os.JobRegistry.{Job}
use db_collector_os.Records.{ExtractedRecord}
use db_collector_os.Candidates.{total_count}
use db_collector_os.Fetching.Queue.{Item, FetchQueue, has_queue_id}
use db_collector_os.Fetching.RateLimiter.{Limit}
use db_collector_os.Fetching.Client.{FetchResult}
use db_collector_os.Discovery.Urls.{DiscoveredUrl}
use db_collector_os.Discovery.Engine.{page_found}
use db_collector_os.Discovery.Engine.Fresh.{save_candidates_lem}
use db_collector_os.Collectors.Context.{
  Context, Pass, Common, Parsed, records, not_implemented, parse_raised, Adapter, World, books,
}
use db_collector_os.Collectors.Handling.Tally.{
  Handled, Handled-trans, Handled-refl, Handled-ask, handle_each-Handled,
}
use db_collector_os.Collectors.Pages.{
  raise, extracted, parsed, extract_page, payload_of, parse_payload, discovered_at, save_found,
  discover_page, promote_new_candidates, extract_records, store_records, blocked_reason, on_blocked,
  put_back, on_failure, ask_if_failed, has_failed, on_success, fetched, is_304, process_queue_item,
}

module _ (w : World) (j : Job) where
  -- The queue, the limits and the number of errors do not matter.
  abbrev beside : List Limit → FetchQueue → ℕ → Pass → Pass
  beside limits queue errors p = record p {
    ctx = record p.ctx { limits = limits; fetch_queue = queue };
    outcome = record p.outcome { errors = errors };
  }

  Handled-beside :
      (limits : List Limit) (queue : FetchQueue) (errors : ℕ) (p : Pass)
      → Handled j p (beside limits queue errors p)
  Handled-beside limits queue errors p = record {
    entities = refl;
    reviews = refl;
    candidates = refl;
    clock = refl;
    requests = refl;
    pages = refl;
    kept = refl;
  }

  Handled-raise : (p : Pass) → Handled j p (raise w p)
  Handled-raise p = record {
    entities = refl;
    reviews = refl;
    candidates = refl;
    clock = refl;
    requests = refl;
    pages = refl;
    kept = refl;
  }

  pub save_found_lem :
      (found : List DiscoveredUrl) (ctx : Context)
      → total_count j.job_id (save_found w j found ctx).0.candidates
        ≡ total_count j.job_id ctx.candidates + length (save_found w j found ctx).1
  save_found_lem found ctx =
      (save_candidates_lem w.services.normalize_url w.new_id j ctx.now ctx.now found _).0

  discovered_at-Handled :
      (p : Pass) (saved : Context × List DiscoveredUrl)
      → total_count j.job_id saved.0.candidates
        ≡ total_count j.job_id p.ctx.candidates + length saved.1
      → saved.0.stores ≡ p.ctx.stores
      → saved.0.review ≡ p.ctx.review
      → saved.0.now ≡ p.ctx.now
      → saved.0.requests ≡ p.ctx.requests
      → books saved.0 ≡ books p.ctx
      → Handled j p (discovered_at w j saved p)
  unfolding promote_new_candidates
  discovered_at-Handled p (ctx, []) h e r n q b = record {
    entities = rw e refl;
    reviews = rw r refl;
    candidates = omega (arith, h);
    clock = n;
    requests = q;
    pages = refl;
    kept = b;
  }
  discovered_at-Handled p (ctx, d ∷ ds) h e r n q b = record {
    entities = rw e refl;
    reviews = rw r refl;
    candidates = omega (arith, h);
    clock = n;
    requests = q;
    pages = refl;
    kept = b;
  }

  discover_page-Handled :
      (common : Common) (url : String) (p : Pass) → Handled j p (discover_page w j common url p)
  unfolding discover_page promote_new_candidates
  discover_page-Handled common url p =
      let found =
        page_found w.extract_domain w.compile j common.links common.json_ld
          (w.extract_domain url) in
      discovered_at-Handled p (save_found w j found p.ctx) (save_found_lem found p.ctx) refl refl
        refl refl refl

  extract_page-Handled :
      (a : Adapter) (url content : String) (o : Option Common) (p : Pass)
      → Handled j p (extract_page w j a url content o p).0
  extract_page-Handled a url content none p = Handled-raise p
  extract_page-Handled a url content (some common) p = go (a.extract common url content)
    where
      go :
          (r : Option ExtractedRecord)
          → Handled j p (extracted w r (discover_page w j common url p)).0
      go none =
          Handled-trans j p _ _ (discover_page-Handled common url p)
            (Handled-raise (discover_page w j common url p))
      go (some r) = discover_page-Handled common url p

  parsed-Handled : (r : Parsed) (p : Pass) → Handled j p (parsed w r p).0
  parsed-Handled (records rs) p = Handled-refl j p
  parsed-Handled not_implemented p = Handled-refl j p
  parsed-Handled parse_raised p = Handled-raise p

  parse_payload-Handled :
      (a : Adapter) (url : String) (o : Option Value) (p : Pass)
      → Handled j p (parse_payload w a url o p).0
  parse_payload-Handled a url none p = Handled-refl j p
  parse_payload-Handled a url (some v) p = parsed-Handled (a.parse_api v url) p

  extract_records-Handled :
      (a : Adapter) (url content : String) (p : Pass)
      → Handled j p (extract_records w j a url content p).0
  unfolding extract_records
  extract_records-Handled a url content p =
      if-intro (λ (r : Pass × List ExtractedRecord). Handled j p r.0) (j.collector_type == "api") _
        _ (λ _. parse_payload-Handled a url (payload_of w content) p)
        (λ _. extract_page-Handled a url content (w.extract_common content url) p)

  store_records-Handled :
      (i : Item) (r : FetchResult) (p : Pass) (rs : List ExtractedRecord)
      → Handled j p (store_records w j i r (p, rs))
  store_records-Handled i r p rs =
      if-intro (Handled j p) p.raised _ _ (λ _. Handled-refl j p)
        (λ _.
          Handled-trans j p _ _ (Handled-beside p.ctx.limits _ p.outcome.errors p)
            (handle_each-Handled w j i.url i.domain _ rs _))

  on_blocked-Handled : (i : Item) (r : FetchResult) (p : Pass) → Handled j p (on_blocked w j i r p)
  on_blocked-Handled i r p =
      Handled-trans j p _ _ (Handled-beside _ _ (suc p.outcome.errors) p)
        (Handled-ask j (blocked_reason w r.error) r.error none _ _)

  put_back-Handled : (i : Item) (r : FetchResult) (p : Pass) → Handled j p (put_back w i r p)
  put_back-Handled i r p = Handled-beside _ _ (suc p.outcome.errors) p

  ask_if_failed-Handled :
      (i : Item) (r : FetchResult) (p : Pass) → Handled j p (ask_if_failed w j i r p)
  ask_if_failed-Handled i r p =
      if-intro (Handled j p)
        (has_failed w (first (has_queue_id i.queue_id) p.ctx.fetch_queue.items)) _ p
        (λ _. Handled-ask j _ _ none _ p) (λ _. Handled-refl j p)

  on_failure-Handled : (i : Item) (r : FetchResult) (p : Pass) → Handled j p (on_failure w j i r p)
  on_failure-Handled i r p =
      Handled-trans j p (put_back w i r p) _ (put_back-Handled i r p)
        (ask_if_failed-Handled i r (put_back w i r p))

  on_success-Handled :
      (a : Adapter) (i : Item) (r : FetchResult) (p : Pass) → Handled j p (on_success w j a i r p)
  on_success-Handled a i r p =
      if-intro (Handled j p) (is_304 r.http_status) _ _ (λ _. Handled-beside _ _ p.outcome.errors p)
        (λ _. Handled-trans j p _ _ (Handled-beside _ p.ctx.fetch_queue p.outcome.errors p) (
          Handled-trans j _ _ _ (extract_records-Handled a i.url _ _)
            (store_records-Handled i r _ _)))

  -- After its fetch has been counted, a claimed URL is handled with all counts in step with the tables.
  pub process_queue_item-Handled :
      (a : Adapter) (i : Item) (p : Pass) → Handled j (fetched w i p) (process_queue_item w j a i p)
  unfolding process_queue_item
  process_queue_item-Handled a i p =
      let r = w.fetch p.ctx.requests i.url i.etag i.last_modified in
      if-intro (Handled j _) r.blocked _ _ (λ _. on_blocked-Handled i r _)
        (λ _.
          if-intro (Handled j _) r.ok _ _ (λ _. on_success-Handled a i r _)
            (λ _. on_failure-Handled i r _))
