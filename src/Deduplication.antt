-- ===== src/Deduplication.antt =====
-- db_collector_os/deduplication: fingerprint.py and matcher.py. SHA-256 is of the standard library,
-- and is the parameter `sha256`, from a text to the hexadecimal digest.
pub mod Decisions
use Prim.Native.String.{◌++◌ as ◌⧺◌}
use db_collector_os.Prelude.{
  String, Option, none, some, Bool, true, false, not, ◌&&◌, ◌||◌, List, [], ◌∷◌, ◌==◌,
  if◌then◌else◌, first, select,
}
use db_collector_os.Entities.{Entity, is_text, is_null, find_by_fingerprint, find_by_canonical_url}

pub data Action : Type 0 where
  new merge review : Action

pub record DedupDecision : Type 0 where
  pub action : Action
  pub entity_id : Option String
  pub reason : String
  pub fingerprint : String

-- `"|".join(p for p in parts if p)`
abbrev pub join_parts : List String → String
join_parts [] = ""
join_parts (p ∷ ps) =
    if p == ""
    then join_parts ps
    else if join_parts ps == ""
    then p
    else (p ⧺ ("|" ⧺ join_parts ps))

-- `if text`, with the text
abbrev pub truthy : Option String → Option String
truthy none = none
truthy (some s) = if s == "" then none else some s

abbrev name_fingerprint : (String → String) → String → Option String → Option String → String
name_fingerprint sha256 entity_type none domain = ""
name_fingerprint sha256 entity_type (some name) (some domain) =
    sha256 (join_parts ("name_domain" ∷ entity_type ∷ name ∷ domain ∷ []))
name_fingerprint sha256 entity_type (some name) none =
    sha256 (join_parts ("name" ∷ entity_type ∷ name ∷ []))

abbrev url_fingerprint :
    (String → String) → String → Option String → Option String → Option String → String
url_fingerprint sha256 entity_type name (some url) domain =
    sha256 (join_parts ("url" ∷ entity_type ∷ url ∷ []))
url_fingerprint sha256 entity_type name none domain =
    name_fingerprint sha256 entity_type name domain

abbrev id_fingerprint :
    (String → String) → String → (name url domain external_id : Option String) → String
id_fingerprint sha256 entity_type name url domain (some id) =
    sha256 (join_parts ("external_id" ∷ entity_type ∷ id ∷ []))
id_fingerprint sha256 entity_type name url domain none =
    url_fingerprint sha256 entity_type name url domain

module _ (sha256 : String → String) where
  unfoldable pub compute_fingerprint :
      (entity_type : String) (normalized_name canonical_url domain external_id : Option String)
      → String
  compute_fingerprint entity_type normalized_name canonical_url domain external_id =
      id_fingerprint sha256 entity_type (truthy normalized_name) (truthy canonical_url)
        (truthy domain) (truthy external_id)

-- Both texts are there, not empty, and differ.
abbrev differ : Option String → Option String → Bool
differ (some s) (some t) = not (s == t)
differ _ _ = false

unfoldable pub conflicts : Entity → (domain address telephone : Option String) → Bool
conflicts e domain address telephone =
    differ (truthy domain) (truthy e.domain)
    || differ (truthy address) (truthy e.address)
    || differ (truthy telephone) (truthy e.telephone)

abbrev pub has_normalized_name : String → String → Entity → Bool
has_normalized_name job name e =
    e.job_id == job && is_text e.normalized_name name && is_null e.deleted_at

unfoldable pub find_by_normalized_name : String → String → List Entity → List Entity
find_by_normalized_name job name entities = select (has_normalized_name job name) entities

-- The arguments of `resolve`.
pub record Query : Type 0 where
  pub job_id : String
  pub entity_type : String
  pub normalized_name : Option String
  pub canonical_url : Option String
  pub domain : Option String
  pub address : Option String
  pub telephone : Option String
  pub external_id : Option String

abbrev pub decide_new : String → DedupDecision
decide_new fp = record { action = new; entity_id = none; reason = "no match"; fingerprint = fp }

abbrev pub decide_merge : String → String → Entity → DedupDecision
decide_merge fp reason e = record {
  action = merge;
  entity_id = some e.entity_id;
  reason = reason;
  fingerprint = fp;
}

abbrev pub decide_review : String → String → Entity → DedupDecision
decide_review fp reason e = record {
  action = review;
  entity_id = some e.entity_id;
  reason = reason;
  fingerprint = fp;
}

-- The fuzzy pass: the first candidate that conflicts, or else the first candidate.
abbrev pub decide_first : String → List Entity → DedupDecision
decide_first fp [] = decide_new fp
decide_first fp (e ∷ es) = decide_review fp "name matches but no strong corroborating signal" e

abbrev pub decide_conflict : String → Option Entity → List Entity → DedupDecision
decide_conflict fp (some e) candidates =
    decide_review fp "same name but conflicting domain/address/telephone" e
decide_conflict fp none candidates = decide_first fp candidates

abbrev pub decide_name : Query → String → Option String → List Entity → DedupDecision
unfolding conflicts find_by_normalized_name
decide_name q fp none entities = decide_new fp
decide_name q fp (some name) entities =
    let candidates = find_by_normalized_name q.job_id name entities in
    decide_conflict fp (first (λ e. conflicts e q.domain q.address q.telephone) candidates)
      candidates

-- By what the look-up of the canonical URL finds.
abbrev pub decide_url : Query → String → Option Entity → List Entity → DedupDecision
unfolding conflicts find_by_normalized_name
decide_url q fp (some e) entities = decide_merge fp "canonical_url match" e
decide_url q fp none entities = decide_name q fp (truthy q.normalized_name) entities

abbrev pub find_url : String → Option String → List Entity → Option Entity
unfolding find_by_canonical_url
find_url job none entities = none
find_url job (some url) entities = find_by_canonical_url job url entities

abbrev pub find_fp : String → String → List Entity → Option Entity
unfolding find_by_fingerprint
find_fp job fp entities = if fp == "" then none else find_by_fingerprint job fp entities

-- By what the look-up of the fingerprint finds.
abbrev pub decide_fp : Query → String → Option Entity → List Entity → DedupDecision
unfolding find_by_canonical_url conflicts find_by_normalized_name
decide_fp q fp (some e) entities = decide_merge fp "fingerprint match" e
decide_fp q fp none entities =
    decide_url q fp (find_url q.job_id (truthy q.canonical_url) entities) entities

module _ (sha256 : String → String) where
  abbrev pub query_fingerprint : Query → String
  unfolding compute_fingerprint
  query_fingerprint q =
      compute_fingerprint sha256 q.entity_type q.normalized_name q.canonical_url q.domain
        q.external_id

  unfoldable pub resolve : Query → List Entity → DedupDecision
  unfolding compute_fingerprint find_by_fingerprint find_by_canonical_url conflicts
      find_by_normalized_name
  resolve q entities =
      let fp = query_fingerprint q in decide_fp q fp (find_fp q.job_id fp entities) entities
