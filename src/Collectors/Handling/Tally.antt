-- ===== src/Collectors/Handling/Tally.antt =====
-- What `_handle_extracted` of db_collector_os/collectors/pipeline.py counts, against the tables.
use db_collector_os.Prelude.{
  ℕ, suc, ◌+◌, ◌≡◌, refl, ◌∙◌, String, Option, none, some, List, [], ◌∷◌, ◌==◌, arith,
  count-update_where,
}
use db_collector_os.Clock.{now_iso}
use db_collector_os.Models.Enums.{CandidateStatus, ReviewReason}
use db_collector_os.JobRegistry.{Job}
use db_collector_os.Candidates.{Candidate, set_status, total_count}
use db_collector_os.Entities.{entity_count}
use db_collector_os.Entities.Counted.{entity_count-new_entity}
use db_collector_os.Persistence.Counted.{entity_count-merge_into}
use db_collector_os.Records.{ExtractedRecord, entries}
use db_collector_os.Review.{count_open}
use db_collector_os.Review.Counted.{count_open-add}
use db_collector_os.Deduplication.{query_fingerprint}
use db_collector_os.Persistence.{
  Stores, query, new_spec, Outcome, PersistenceResult, Prepared, prepare,
}
use db_collector_os.Persistence.Outcomes.{
  skips, rejects, asks, Written, nothing, added, merged_into, persist-Written,
}
use db_collector_os.Collectors.Context.{Pass, World, books}
use db_collector_os.Collectors.Handling.{
  id_of, mark, ask, handle_result, persisted, handle_extracted, handle_each,
}

-- From `p` to `q` the counts have grown by what has become more of the job's entities that are not
-- deleted, its open reviews and its candidates; no time has passed, no page was fetched, and the other tables are kept.
pub record Handled (j : Job) (p q : Pass) : Type 0 where
  pub entities :
      entity_count j.job_id q.ctx.stores.entities + p.outcome.inserted
      ≡ entity_count j.job_id p.ctx.stores.entities + q.outcome.inserted
  pub reviews :
      count_open (some j.job_id) q.ctx.review + p.outcome.reviewed
      ≡ count_open (some j.job_id) p.ctx.review + q.outcome.reviewed
  pub candidates :
      total_count j.job_id q.ctx.candidates + p.outcome.discovered
      ≡ total_count j.job_id p.ctx.candidates + q.outcome.discovered
  pub clock : q.ctx.now ≡ p.ctx.now
  pub requests : q.ctx.requests ≡ p.ctx.requests
  pub pages : q.outcome.fetched ≡ p.outcome.fetched
  pub kept : books q.ctx ≡ books p.ctx

pub Handled-trans : (j : Job) (p q r : Pass) → Handled j p q → Handled j q r → Handled j p r
Handled-trans j p q r h k = record {
  entities = omega (arith, h.entities, k.entities);
  reviews = omega (arith, h.reviews, k.reviews);
  candidates = omega (arith, h.candidates, k.candidates);
  clock = omega (arith, h.clock, k.clock);
  requests = omega (arith, h.requests, k.requests);
  pages = omega (arith, h.pages, k.pages);
  kept = k.kept ∙ h.kept;
}

pub Handled-refl : (j : Job) (p : Pass) → Handled j p p
Handled-refl j p = record {
  entities = refl;
  reviews = refl;
  candidates = refl;
  clock = refl;
  requests = refl;
  pages = refl;
  kept = refl;
}

pub Handled-mark :
    (j : Job) (c : Option Candidate) (s : CandidateStatus) (p : Pass) → Handled j p (mark c s p)
unfolding set_status total_count
Handled-mark j none s p = Handled-refl j p
Handled-mark j (some c) s p = record {
  entities = refl;
  reviews = refl;
  candidates = omega (
    arith,
    count-update_where (λ d. d.candidate_id == c.candidate_id) (λ d. d.job_id == j.job_id)
        (λ d. record d { status = s; reviewed_at = some (now_iso p.ctx.now) }) (λ d. refl)
        p.ctx.candidates,
  );
  clock = refl;
  requests = refl;
  pages = refl;
  kept = refl;
}

pub Handled-ask :
    (j : Job) (reason : ReviewReason) (details entity_id candidate_id : Option String) (p : Pass)
    → Handled j p (ask j reason details entity_id candidate_id p)
Handled-ask j reason details entity_id candidate_id p = record {
  entities = refl;
  reviews =
      omega (
        arith,
        count_open-add p.ctx.now j.job_id reason details entity_id candidate_id p.ctx.review,
      );
  candidates = refl;
  clock = refl;
  requests = refl;
  pages = refl;
  kept = refl;
}

module _ (w : World) (j : Job) (r : ExtractedRecord) (c : Option Candidate) (source_url : String)
    (pre : Prepared) (result : PersistenceResult) (p : Pass) where
  -- The pass after `persist` has left the tables `t`.
  abbrev stored : Stores → Pass
  stored t = record p { ctx = record p.ctx { stores = t; drawn = suc p.ctx.drawn } }

  same_tables : (n : ℕ) → Handled j p (record p { ctx = record p.ctx { drawn = n } })
  same_tables n = record {
    entities = refl;
    reviews = refl;
    candidates = refl;
    clock = refl;
    requests = refl;
    pages = refl;
    kept = refl;
  }

  handle_result-Handled :
      (o : Outcome) (t : Stores)
      → Written w.services p.ctx.now
          (w.new_id p.ctx.drawn)
          j.job_id
          source_url
          r
          pre
          p.ctx.stores
          o
          t
      → Handled j p (handle_result w j c o result (stored t))
  handle_result-Handled _ _ (nothing _ skips) =
      Handled-trans j p (stored p.ctx.stores) _ (same_tables (suc p.ctx.drawn))
        (Handled-mark j c CandidateStatus.rejected _)
  handle_result-Handled _ _ (nothing _ rejects) =
      Handled-trans j p (stored p.ctx.stores) _ (same_tables (suc p.ctx.drawn)) (
        Handled-trans j (stored p.ctx.stores) _ _
          (Handled-ask j _ _ none (id_of c) (stored p.ctx.stores))
          (Handled-mark j c CandidateStatus.review _))
  handle_result-Handled _ _ (nothing _ asks) =
      Handled-trans j p (stored p.ctx.stores) _ (same_tables (suc p.ctx.drawn)) (
        Handled-trans j (stored p.ctx.stores) _ _
          (Handled-ask j _ result.reason result.entity_id (id_of c) (stored p.ctx.stores))
          (Handled-mark j c CandidateStatus.review _))
  handle_result-Handled _ t (added k m) =
      Handled-trans j p
        (record (stored t) { outcome = record p.outcome { inserted = suc p.outcome.inserted } }) _
        (record {
          entities = omega (
            arith,
            entity_count-new_entity p.ctx.now (w.new_id p.ctx.drawn)
                (new_spec j.job_id pre (query_fingerprint w.services.sha256 (query j.job_id pre))
                  (entries r.fields))
                p.ctx.stores.entities,
          );
          reviews = refl;
          candidates = refl;
          clock = refl;
          requests = refl;
          pages = refl;
          kept = refl;
        })
        (Handled-mark j c CandidateStatus.accepted _)
  handle_result-Handled _ t (merged_into e h l s) =
      Handled-trans j p
        (record (stored t) {
          outcome = record p.outcome {
            updated = suc p.outcome.updated;
            duplicates = suc p.outcome.duplicates;
          };
        })
        _
        (record {
          entities = omega (
            arith,
            entity_count-merge_into j.job_id p.ctx.now e.entity_id r pre source_url p.ctx.stores,
          );
          reviews = refl;
          candidates = refl;
          clock = refl;
          requests = refl;
          pages = refl;
          kept = refl;
        })
        (Handled-mark j c CandidateStatus.duplicate _)

module _ (w : World) (j : Job) (source_url domain : String) (c : Option Candidate) where
  pub handle_extracted-Handled :
      (r : ExtractedRecord) (p : Pass) → Handled j p (handle_extracted w j r source_url domain c p)
  unfolding handle_extracted
  handle_extracted-Handled r p =
      handle_result-Handled w j r c source_url
        (prepare w.services source_url (some domain) j.collector_type r)
        (persisted w j r source_url domain p.ctx).1 p _ _
        (persist-Written w.services p.ctx.now (w.new_id p.ctx.drawn) j.job_id source_url
          (some domain) j.collector_type [] r p.ctx.stores).0

  pub handle_each-Handled :
      (rs : List ExtractedRecord) (p : Pass)
      → Handled j p (handle_each w j rs source_url domain c p)
  unfolding handle_each
  handle_each-Handled [] p = Handled-refl j p
  handle_each-Handled (r ∷ rs) p =
      Handled-trans j p _ _ (handle_extracted-Handled r p) (handle_each-Handled rs _)
