-- ===== src/Collectors/Pages/Settled.antt =====
-- The rows of the fetch queue after `_process_queue_item` of db_collector_os/collectors/pipeline.py.
use db_collector_os.Prelude.{
  ℕ, ◌≡◌, refl, String, Option, none, some, false, ◌==◌, List, [], ◌∷◌, first, if-intro,
}
use db_collector_os.Models.Enums.{CandidateStatus}
use db_collector_os.Models.Json.{Value}
use db_collector_os.JobRegistry.{Job}
use db_collector_os.Records.{ExtractedRecord}
use db_collector_os.Candidates.{Candidate, list_new}
use db_collector_os.Fetching.Queue.{Item, FetchQueue, has_queue_id}
use db_collector_os.Fetching.Queue.Settled.{
  Settled, enqueue-Settled, mark_done-Settled, mark_skipped-Settled, mark_failed-Settled,
}
use db_collector_os.Fetching.Client.{FetchResult}
use db_collector_os.Discovery.Urls.{DiscoveredUrl}
use db_collector_os.Persistence.{
  Outcome, PersistenceResult, skipped, invalid, reviewed, inserted, updated,
}
use db_collector_os.Collectors.Context.{
  Context, Pass, Common, Parsed, records, not_implemented, parse_raised, Adapter, World,
}
use db_collector_os.Collectors.Handling.{mark, handle_result, handle_extracted, handle_each}
use db_collector_os.Collectors.Pages.{
  promote_each, promote_new_candidates, save_found, discovered_at, discover_page, extracted,
  extract_page, parsed, parse_payload, payload_of, extract_records, store_records, on_failure,
  put_back, has_failed, on_success, is_304, fetched, process_queue_item,
}

-- The queue is the same, and so is whether an exception is on its way.
record Quiet (p q : Pass) : Type 0 where
  queue : q.ctx.fetch_queue ≡ p.ctx.fetch_queue
  raised : q.raised ≡ p.raised

Quiet-trans : (p q r : Pass) → Quiet p q → Quiet q r → Quiet p r
Quiet-trans p q r h k = record { queue = cc (h.queue, k.queue); raised = cc (h.raised, k.raised) }

Quiet-mark : (c : Option Candidate) (s : CandidateStatus) (p : Pass) → Quiet p (mark c s p)
Quiet-mark none s p = record { queue = refl; raised = refl }
Quiet-mark (some c) s p = record { queue = refl; raised = refl }

-- A pass that differs from `p` in neither, and then the mark.
marked :
    (c : Option Candidate) (s : CandidateStatus) (p q : Pass) → Quiet p q → Quiet p (mark c s q)
marked c s p q h = Quiet-trans p q (mark c s q) h (Quiet-mark c s q)

module _ (w : World) (j : Job) where
  handle_result-Quiet :
      (c : Option Candidate) (o : Outcome) (r : PersistenceResult) (p : Pass)
      → Quiet p (handle_result w j c o r p)
  handle_result-Quiet c skipped r p = Quiet-mark c _ p
  handle_result-Quiet c invalid r p = marked c _ p _ (record { queue = refl; raised = refl })
  handle_result-Quiet c reviewed r p = marked c _ p _ (record { queue = refl; raised = refl })
  handle_result-Quiet c inserted r p = marked c _ p _ (record { queue = refl; raised = refl })
  handle_result-Quiet c updated r p = marked c _ p _ (record { queue = refl; raised = refl })

  handle_extracted-Quiet :
      (r : ExtractedRecord) (url domain : String) (c : Option Candidate) (p : Pass)
      → Quiet p (handle_extracted w j r url domain c p)
  unfolding handle_extracted
  handle_extracted-Quiet r url domain c p =
      let h = handle_result-Quiet c _ _ _ in record { queue = h.queue; raised = h.raised }

  handle_each-Quiet :
      (rs : List ExtractedRecord) (url domain : String) (c : Option Candidate) (p : Pass)
      → Quiet p (handle_each w j rs url domain c p)
  unfolding handle_each
  handle_each-Quiet [] url domain c p = record { queue = refl; raised = refl }
  handle_each-Quiet (r ∷ rs) url domain c p =
      Quiet-trans p _ _ (handle_extracted-Quiet r url domain c p)
        (handle_each-Quiet rs url domain c _)

  promote_each-Settled :
      (excused : Option ℕ) (now : ℕ) (cs : List Candidate) (q : FetchQueue)
      → Settled j.job_id excused q
      → Settled j.job_id excused (promote_each w now j cs q)
  promote_each-Settled excused now [] q h = h
  promote_each-Settled excused now (c ∷ cs) q h = promote_each-Settled excused now cs _ (
      enqueue-Settled j.job_id w.services.normalize_url w.extract_domain excused now j.job_id _ _ 5
        q h)

  pub promote-Settled :
      (excused : Option ℕ) (c : Context)
      → Settled j.job_id excused c.fetch_queue
      → Settled j.job_id excused (promote_new_candidates w j c).fetch_queue
  unfolding promote_new_candidates
  promote-Settled excused c h =
      promote_each-Settled excused c.now (list_new j.job_id 500 c.candidates) c.fetch_queue h

  discovered_at-Settled :
      (excused : Option ℕ) (saved : Context × List DiscoveredUrl) (p : Pass)
      → Settled j.job_id excused saved.0.fetch_queue
      → Settled j.job_id excused (discovered_at w j saved p).ctx.fetch_queue
  discovered_at-Settled excused (c, []) p h = h
  discovered_at-Settled excused (c, d ∷ ds) p h = promote-Settled excused c h

  discover_page-Settled :
      (excused : Option ℕ) (common : Common) (url : String) (p : Pass)
      → Settled j.job_id excused p.ctx.fetch_queue
      → Settled j.job_id excused (discover_page w j common url p).ctx.fetch_queue
  unfolding discover_page
  discover_page-Settled excused common url p h =
      discovered_at-Settled excused (save_found w j _ p.ctx) p h

  extracted_queue :
      (r : Option ExtractedRecord) (p : Pass)
      → (extracted w r p).0.ctx.fetch_queue ≡ p.ctx.fetch_queue
  extracted_queue none p = refl
  extracted_queue (some r) p = refl

  parsed_queue : (r : Parsed) (p : Pass) → (parsed w r p).0.ctx.fetch_queue ≡ p.ctx.fetch_queue
  parsed_queue (records rs) p = refl
  parsed_queue not_implemented p = refl
  parsed_queue parse_raised p = refl

  extract_page-Settled :
      (excused : Option ℕ) (a : Adapter) (url content : String) (o : Option Common) (p : Pass)
      → Settled j.job_id excused p.ctx.fetch_queue
      → Settled j.job_id excused (extract_page w j a url content o p).0.ctx.fetch_queue
  extract_page-Settled excused a url content none p h = h
  extract_page-Settled excused a url content (some common) p h =
      rw (extracted_queue (a.extract common url content) (discover_page w j common url p))
        (discover_page-Settled excused common url p h)

  parse_payload-Settled :
      (excused : Option ℕ) (a : Adapter) (url : String) (o : Option Value) (p : Pass)
      → Settled j.job_id excused p.ctx.fetch_queue
      → Settled j.job_id excused (parse_payload w a url o p).0.ctx.fetch_queue
  parse_payload-Settled excused a url none p h = h
  parse_payload-Settled excused a url (some v) p h = rw (parsed_queue (a.parse_api v url) p) h

  extract_records-Settled :
      (excused : Option ℕ) (a : Adapter) (url content : String) (p : Pass)
      → Settled j.job_id excused p.ctx.fetch_queue
      → Settled j.job_id excused (extract_records w j a url content p).0.ctx.fetch_queue
  unfolding extract_records
  extract_records-Settled excused a url content p h =
      if-intro (λ (r : Pass × List ExtractedRecord). Settled j.job_id excused r.0.ctx.fetch_queue)
        (j.collector_type == "api") _ _
        (λ _. parse_payload-Settled excused a url (payload_of w content) p h)
        (λ _. extract_page-Settled excused a url content (w.extract_common content url) p h)

  -- Unless an exception is on its way, no row of the job is being fetched.
  abbrev pub IsCalm : Pass → Type 0
  IsCalm p = p.raised ≡ false → Settled j.job_id none p.ctx.fetch_queue

  store_records-IsCalm :
      (i : Item) (r : FetchResult) (p : Pass) (rs : List ExtractedRecord)
      → Settled j.job_id (some i.queue_id) p.ctx.fetch_queue
      → IsCalm (store_records w j i r (p, rs))
  store_records-IsCalm i r p rs h =
      if-intro IsCalm p.raised _ _ (λ t f. absurd (cc (t, f)))
        (λ _ _. rw (handle_each-Quiet rs i.url i.domain _ _).queue (
          mark_done-Settled j.job_id p.ctx.now i.queue_id _ r.content_hash r.etag r.last_modified
            p.ctx.fetch_queue h))

  on_success-IsCalm :
      (a : Adapter) (i : Item) (r : FetchResult) (p : Pass)
      → Settled j.job_id (some i.queue_id) p.ctx.fetch_queue
      → IsCalm (on_success w j a i r p)
  on_success-IsCalm a i r p h =
      if-intro IsCalm (is_304 r.http_status) _ _
        (λ _ _.
          mark_done-Settled j.job_id p.ctx.now i.queue_id 304 i.content_hash i.etag i.last_modified
            p.ctx.fetch_queue h)
        (λ _.
          store_records-IsCalm i r _ _ (extract_records-Settled (some i.queue_id) a i.url _ _ h))

  on_failure-IsCalm :
      (i : Item) (r : FetchResult) (p : Pass)
      → Settled j.job_id (some i.queue_id) p.ctx.fetch_queue
      → IsCalm (on_failure w j i r p)
  on_failure-IsCalm i r p h =
      let q = put_back w i r p in
      let settled =
        mark_failed-Settled j.job_id p.ctx.now i.queue_id _ r.http_status r.retry_after
          p.ctx.fetch_queue h in
      if-intro IsCalm (has_failed w (first (has_queue_id i.queue_id) q.ctx.fetch_queue.items)) _ q
        (λ _ _. settled) (λ _ _. settled)

  pub process_queue_item-IsCalm :
      (a : Adapter) (i : Item) (p : Pass)
      → Settled j.job_id (some i.queue_id) p.ctx.fetch_queue
      → IsCalm (process_queue_item w j a i p)
  unfolding process_queue_item
  process_queue_item-IsCalm a i p h =
      let r = w.fetch p.ctx.requests i.url i.etag i.last_modified in
      if-intro IsCalm r.blocked _ _
        (λ _ _. mark_skipped-Settled j.job_id _ i.queue_id _ p.ctx.fetch_queue h)
        (λ _.
          if-intro IsCalm r.ok _ _ (λ _. on_success-IsCalm a i r (fetched w i p) h)
            (λ _. on_failure-IsCalm i r (fetched w i p) h))
