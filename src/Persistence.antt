-- ===== src/Persistence.antt =====
-- db_collector_os/persistence.py: what happens to an extracted record. The normalizing functions and
-- the host of a URL (`urlsplit(url).netloc.lower()`, or none where it raises) are parameters.
pub mod Outcomes
pub mod Kept
pub mod Counted
use db_collector_os.Prelude.{
  ℕ, ◌*◌, String, Option, none, some, Bool, true, false, not, List, [], ◌∷◌, ◌==◌, if◌then◌else◌,
}
use db_collector_os.JobRegistry.Schedule.{strip, behind}
use db_collector_os.Models.Json.{Value, Fields, str, int, float, pos, set_field}
use db_collector_os.Entities.{
  Entity, EntitySpec, Changes, Evidence, create, get, update, merge_data, record_many,
}
use db_collector_os.Deduplication.{
  Action, new, merge, review, DedupDecision, Query, truthy, resolve,
}
use db_collector_os.Records.{ExtractedRecord, text, entries}
use db_collector_os.Validation.{ValidationResult, validate_record}

pub data Outcome : Type 0 where
  skipped invalid reviewed inserted updated : Outcome

pub record PersistenceResult : Type 0 where
  pub action : Outcome
  pub entity_id : Option String
  pub fingerprint : Option String
  pub reason : Option String
  pub errors : List String
  pub warnings : List String

-- The two tables that are written.
pub record Stores : Type 0 where
  pub entities : List Entity
  pub evidence : Evidence

-- The functions of other modules, and of the standard library.
pub record Services : Type 0 where
  pub normalize_name : String → String
  pub normalize_address : String → String
  pub normalize_telephone : String → String
  pub normalize_url : String → String
  pub url_host : String → Option String
  pub url_parts : String → Option (String × String)
  pub sha256 : String → String

abbrev pub or_text : Option String → Option String → Option String
or_text none b = b
or_text (some s) b = some s

-- `f(text) if text else None`
abbrev pub normalized : (String → String) → Option String → Option String
normalized f none = none
normalized f (some s) = if s == "" then none else some (f s)

abbrev without_www : String → Option String → Option String
without_www host none = truthy (some host)
without_www host (some rest) = truthy (some rest)

abbrev host_domain : Option String → Option String
unfolding strip behind
host_domain none = none
host_domain (some host) = without_www (strip host) (behind "www." (strip host))

abbrev pub domain_at : (String → Option String) → Option String → Option String
unfolding strip behind
domain_at url_host none = none
domain_at url_host (some url) = host_domain (url_host url)

-- _domain_from_url
unfoldable pub domain_from_url : (String → Option String) → Option String → Option String
unfolding strip behind
domain_from_url url_host url = domain_at url_host (truthy url)

-- What `persist` has computed of the record before it asks for a decision.
pub record Prepared : Type 0 where
  pub entity_type : String
  pub name : Option String
  pub normalized_name : Option String
  pub canonical_url : Option String
  pub domain : Option String
  pub address : Option String
  pub telephone : Option String
  pub external_id : Option String

abbrev or_type : Option String → String → String
or_type none d = d
or_type (some t) d = t

unfoldable pub prepare :
    Services
    → (source_url : String) (domain : Option String) (default_type : String) → ExtractedRecord
    → Prepared
unfolding domain_from_url
prepare f source_url domain default_type r =
    let url =
      normalized f.normalize_url (or_text (truthy (text r.canonical_url)) (some source_url)) in
    record {
      entity_type = or_type (truthy (text r.entity_type)) default_type;
      name = text r.name;
      normalized_name = normalized f.normalize_name (text r.name);
      canonical_url = url;
      domain = or_text (truthy domain) (
          or_text (truthy (text r.domain)) (
            or_text (domain_from_url f.url_host url)
              (domain_from_url f.url_host (some source_url))));
      address = normalized f.normalize_address (text r.address);
      telephone = normalized f.normalize_telephone (text r.telephone);
      external_id = text r.external_id;
    }

abbrev pub query : String → Prepared → Query
query job p = record {
  job_id = job;
  entity_type = p.entity_type;
  normalized_name = p.normalized_name;
  canonical_url = p.canonical_url;
  domain = p.domain;
  address = p.address;
  telephone = p.telephone;
  external_id = p.external_id;
}

abbrev pub new_spec : String → Prepared → String → Fields → EntitySpec
new_spec job p fp fields = record {
  job_id = job;
  entity_type = p.entity_type;
  name = p.name;
  normalized_name = p.normalized_name;
  canonical_url = p.canonical_url;
  domain = p.domain;
  address = p.address;
  telephone = p.telephone;
  external_id = p.external_id;
  fingerprint = fp;
  data_json = fields;
}

abbrev pub is_text : Option String → String → Bool
is_text none s = false
is_text (some t) s = t == s

-- The value that goes into `updates`: neither None nor blank, and not the current one.
abbrev pub refresh : Option String → Option String → Option String
unfolding strip
refresh none current = none
refresh (some s) current =
    if strip s == "" then none else if is_text current s then none else some s

abbrev pub updates : Prepared → Entity → Changes
unfolding strip
updates p e = record {
  name = refresh p.name e.name;
  normalized_name = refresh p.normalized_name e.normalized_name;
  canonical_url = refresh p.canonical_url e.canonical_url;
  domain = refresh p.domain e.domain;
  address = refresh p.address e.address;
  telephone = refresh p.telephone e.telephone;
  external_id = refresh p.external_id e.external_id;
  data_json = none;
}

abbrev pub update_at : ℕ → String → Prepared → Option Entity → List Entity → List Entity
unfolding strip update
update_at now id p none entities = entities
update_at now id p (some e) entities = update now id (updates p e) entities

unfoldable pub update_common_fields : ℕ → String → Prepared → List Entity → List Entity
unfolding strip update get
update_common_fields now id p entities = update_at now id p (get id entities) entities

abbrev with_text : String → Option String → Fields → Fields
with_text key none d = d
with_text key (some s) d = set_field key (str s) d

-- The confidence of a valid record, in thousandths.
abbrev thousandths : Value → ℕ
thousandths (int (pos n)) = n * 1000
thousandths (float (pos n)) = n
thousandths _ = 0

unfoldable pub record_evidence : ℕ → String → ExtractedRecord → String → Evidence → Evidence
unfolding record_many
record_evidence now entity_id r source_url evidence =
    record_many now entity_id
      (with_text "external_id" (text r.external_id) (
        with_text "telephone" (text r.telephone) (
          with_text "address" (text r.address) (
            with_text "canonical_url" (text r.canonical_url)
              (with_text "name" (text r.name) (entries r.fields))))))
      source_url (thousandths r.confidence) evidence

abbrev pub result : Outcome → Option String → DedupDecision → List String → PersistenceResult
result action id d warnings = record {
  action = action;
  entity_id = id;
  fingerprint = some d.fingerprint;
  reason = some d.reason;
  errors = [];
  warnings = warnings;
}

-- What `persist` writes for a decision to merge.
abbrev pub merge_into : ℕ → String → ExtractedRecord → Prepared → String → Stores → Stores
unfolding merge_data update_common_fields record_evidence get update record_many strip
merge_into now id r p source_url t = record {
  entities = update_common_fields now id p (merge_data now id (entries r.fields) t.entities);
  evidence = record_evidence now id r source_url t.evidence;
}

abbrev pub persist_merge :
    ℕ
    → ExtractedRecord
    → Prepared
    → String
    → DedupDecision
    → List String
    → Option String
    → Stores
    → Stores × PersistenceResult
unfolding merge_data update_common_fields record_evidence get update record_many strip
persist_merge now r p source_url d warnings none t = (
  t,
  record {
    action = invalid;
    entity_id = none;
    fingerprint = some d.fingerprint;
    reason = some "merge_without_entity_id";
    errors = "merge_without_entity_id" ∷ [];
    warnings = warnings;
  },
)
persist_merge now r p source_url d warnings (some id) t =
    (merge_into now id r p source_url t, result updated (some id) d warnings)

-- `persist` by the action of the decision; `new_id` is the entity_id that an insert draws.
abbrev pub persist_by :
    Action
    → ℕ
    → String
    → String
    → ExtractedRecord
    → Prepared
    → String
    → DedupDecision
    → List String
    → Stores
    → Stores × PersistenceResult
unfolding create merge_data update_common_fields record_evidence get update record_many strip
persist_by review now new_id job r p source_url d warnings t =
    (t, result reviewed d.entity_id d warnings)
persist_by new now new_id job r p source_url d warnings t = (
  record {
    entities = create now new_id (new_spec job p d.fingerprint (entries r.fields)) t.entities;
    evidence = record_evidence now new_id r source_url t.evidence;
  },
  result inserted (some new_id) d warnings,
)
persist_by merge now new_id job r p source_url d warnings t =
    persist_merge now r p source_url d warnings (truthy d.entity_id) t

abbrev or_reason : Option String → String
or_reason none = "record_marked_skip"
or_reason (some s) = s

abbrev pub rejected : Outcome → String → List String → List String → PersistenceResult
rejected action reason errors warnings = record {
  action = action;
  entity_id = none;
  fingerprint = none;
  reason = some reason;
  errors = errors;
  warnings = warnings;
}

-- The early returns, and then `done`, what is done for a valid record.
abbrev pub persist_at :
    (skip valid : Bool)
    → Option String
    → ValidationResult
    → Stores × PersistenceResult
    → Stores
    → Stores × PersistenceResult
persist_at true valid reason v done t = (t, rejected skipped (or_reason (truthy reason)) [] [])
persist_at false false reason v done t =
    (t, rejected invalid "validation_failed" v.errors v.warnings)
persist_at false true reason v done t = done

unfoldable pub persist :
    Services
    → ℕ
    → (new_id job_id source_url : String) (domain : Option String)
    → (default_type : String) (required : List String) → ExtractedRecord
    → Stores
    → Stores × PersistenceResult
unfolding prepare validate_record create merge_data update_common_fields record_evidence get update
    record_many strip resolve
persist f now new_id job_id source_url domain default_type required r t =
    let v = validate_record f.url_parts required r in
    let p = prepare f source_url domain default_type r in
    let d = resolve f.sha256 (query job_id p) t.entities in
    persist_at r.skip v.valid r.skip_reason v
      (persist_by d.action now new_id job_id r p source_url d v.warnings t) t
