-- ===== src/Persistence/Outcomes.antt =====
-- When `persist` of db_collector_os/persistence.py inserts, when it merges, and when it writes nothing.
use db_collector_os.Prelude.{
  ◌⊎◌, inl, inr, refl, ℕ, ◌≡◌, refl, String, Option, none, some, Bool, true, false, List, [], ◌∷◌,
  ◌++◌, arith, Has,
}
use db_collector_os.Records.{ExtractedRecord, entries}
use db_collector_os.Validation.{ValidationResult, validate_record}
use db_collector_os.Entities.{Entity, new_entity, create}
use db_collector_os.Deduplication.{DedupDecision, decide_merge, query_fingerprint, truthy}
use db_collector_os.Deduplication.Decisions.{
  Live, SameText, Strong, Decided, merged, reviewed, unmatched, resolve-Decided,
}
use db_collector_os.Persistence.{
  Services, Stores, Prepared, PersistenceResult, Outcome, skipped, invalid, inserted, updated,
  persist, persist_by, persist_merge, persist_at, prepare, query, new_spec, merge_into,
  record_evidence,
}

-- The outcomes after which nothing has been written.
pub data WritesNothing : Outcome → Type 0 where
  skips : WritesNothing skipped
  rejects : WritesNothing invalid
  asks : WritesNothing Outcome.reviewed

module _ (f : Services) (now : ℕ) (new_id job source_url : String) (r : ExtractedRecord)
    (p : Prepared) (t : Stores) where
  abbrev digest : String
  digest = query_fingerprint f.sha256 (query job p)

  -- What may have become of the tables, by the outcome.
  pub data Written : Outcome → Stores → Type 0 where
    nothing : (o : Outcome) → WritesNothing o → Written o t
    added :
        ((d : Entity) → Has d t.entities → Live job d → ¬ Strong (query job p) digest d)
        → ((d : Entity)
            → Has d t.entities
            → Live job d
            → ¬ SameText p.normalized_name d.normalized_name)
        → Written inserted (record {
          entities =
              t.entities ++ new_entity now new_id (new_spec job p digest (entries r.fields)) ∷ [];
          evidence = record_evidence now new_id r source_url t.evidence;
        })
    merged_into :
        (e : Entity)
        → Has e t.entities
        → Live job e
        → Strong (query job p) digest e
        → Written updated (merge_into now e.entity_id r p source_url t)

  Written-merge :
      (e : Entity) (d : DedupDecision) (warnings : List String) (o : Option String)
      → truthy (some e.entity_id) ≡ o
      → Has e t.entities
      → Live job e
      → Strong (query job p) digest e
      → Written
          (persist_merge now r p source_url d warnings o t).1.action
          (persist_merge now r p source_url d warnings o t).0
  unfolding persist_merge
  Written-merge e d warnings none q h l s = nothing invalid rejects
  Written-merge e d warnings (some id) q h l s =
      let same : id ≡ e.entity_id = ground arith in rw same (merged_into e h l s)

  Written-by :
      (d : DedupDecision) (warnings : List String)
      → Decided (query job p) digest t.entities d
      → Written
          (persist_by d.action now new_id job r p source_url d warnings t).1.action
          (persist_by d.action now new_id job r p source_url d warnings t).0
  unfolding create persist_by
  Written-by _ warnings (merged e reason h l s) =
      Written-merge e (decide_merge digest reason e) warnings _ refl h l s
  Written-by _ warnings (reviewed e reason h l s k) = nothing Outcome.reviewed asks
  Written-by _ warnings (unmatched k m) = added k m

  Written-at :
      (skip valid : Bool) (v : ValidationResult) (done : Stores × PersistenceResult)
      → Written done.1.action done.0
      → Written
          (persist_at skip valid r.skip_reason v done t).1.action
          (persist_at skip valid r.skip_reason v done t).0
        × ((valid ≡ true) ⊎ WritesNothing (persist_at skip valid r.skip_reason v done t).1.action)
  Written-at true valid v done w = (nothing skipped skips, inr skips)
  Written-at false true v done w = (w, inl refl)
  Written-at false false v done w = (nothing invalid rejects, inr rejects)

-- What `persist` has done, by its outcome: it has added one row for a record that no entity of the
-- job, unless deleted, matches by fingerprint, canonical URL or normalized name; or it has merged
-- the record into an entity of the job that is not deleted and has the fingerprint or the canonical
-- URL; or it has written nothing. The record was valid, or nothing has been written.
pub persist-Written :
    (f : Services) (now : ℕ) (new_id job source_url : String) (domain : Option String)
    (default_type : String) (required : List String) (r : ExtractedRecord) (t : Stores)
    → Written f now new_id job source_url r
        (prepare f source_url domain default_type r)
        t
        (persist f now new_id job source_url domain default_type required r t).1.action
        (persist f now new_id job source_url domain default_type required r t).0
      × (((validate_record f.url_parts required r).valid ≡ true)
          ⊎ WritesNothing
              (persist f now new_id job source_url domain default_type required r t).1.action)
unfolding persist
persist-Written f now new_id job source_url domain default_type required r t =
    Written-at f now new_id job source_url r _ t r.skip _ (validate_record f.url_parts required r) _
      (Written-by f now new_id job source_url r _ t _ _ (resolve-Decided f.sha256 _ t.entities))
