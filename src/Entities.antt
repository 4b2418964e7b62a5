-- ===== src/Entities.antt =====
-- db_collector_os/entities.py: the `entities` and `evidence` tables. The data of an entity is a
-- JSON object; writing it as text and reading it back is taken as the identity, also in the
-- `value` column of the evidence. The entity_id that `new_id` makes is an argument.
pub mod Counted
use db_collector_os.Prelude.{
  ℕ, suc, String, Option, none, some, Bool, true, false, not, ◌&&◌, List, [], ◌∷◌, ◌++◌, leb, ◌==◌,
  if◌then◌else◌, first, select, count, update_where, order_by, limit, offset,
}
use db_collector_os.Clock.{now_iso}
use db_collector_os.Models.Json.{Value, Fields, end, field, set_field}

pub record Entity : Type 0 where
  pub entity_id : String
  pub job_id : String
  pub entity_type : String
  pub name : Option String
  pub normalized_name : Option String
  pub canonical_url : Option String
  pub domain : Option String
  pub address : Option String
  pub telephone : Option String
  pub external_id : Option String
  pub fingerprint : String
  pub data_json : Fields
  pub created_at : ℕ
  pub updated_at : ℕ
  pub deleted_at : Option ℕ

abbrev pub is_text : Option String → String → Bool
is_text none s = false
is_text (some t) s = t == s

abbrev pub is_null : Option ℕ → Bool
is_null none = true
is_null (some t) = false

abbrev pub has_fingerprint : String → String → Entity → Bool
has_fingerprint job fp e = e.job_id == job && e.fingerprint == fp && is_null e.deleted_at

unfoldable pub find_by_fingerprint : String → String → List Entity → Option Entity
find_by_fingerprint job fp entities = first (has_fingerprint job fp) entities

abbrev pub has_canonical_url : String → String → Entity → Bool
has_canonical_url job url e = e.job_id == job && is_text e.canonical_url url && is_null e.deleted_at

unfoldable pub find_by_canonical_url : String → String → List Entity → Option Entity
find_by_canonical_url job url entities = first (has_canonical_url job url) entities

abbrev pub has_id : String → Entity → Bool
has_id id e = e.entity_id == id

unfoldable pub get : String → List Entity → Option Entity
get id entities = first (has_id id) entities

-- The arguments of `create`.
pub record EntitySpec : Type 0 where
  pub job_id : String
  pub entity_type : String
  pub name : Option String
  pub normalized_name : Option String
  pub canonical_url : Option String
  pub domain : Option String
  pub address : Option String
  pub telephone : Option String
  pub external_id : Option String
  pub fingerprint : String
  pub data_json : Fields

abbrev pub new_entity : ℕ → String → EntitySpec → Entity
new_entity now id spec = record {
  entity_id = id;
  job_id = spec.job_id;
  entity_type = spec.entity_type;
  name = spec.name;
  normalized_name = spec.normalized_name;
  canonical_url = spec.canonical_url;
  domain = spec.domain;
  address = spec.address;
  telephone = spec.telephone;
  external_id = spec.external_id;
  fingerprint = spec.fingerprint;
  data_json = spec.data_json;
  created_at = now_iso now;
  updated_at = now_iso now;
  deleted_at = none;
}

unfoldable pub create : ℕ → String → EntitySpec → List Entity → List Entity
create now id spec entities = entities ++ new_entity now id spec ∷ []

-- The keyword arguments of `update`: those that are given.
pub record Changes : Type 0 where
  pub name : Option String
  pub normalized_name : Option String
  pub canonical_url : Option String
  pub domain : Option String
  pub address : Option String
  pub telephone : Option String
  pub external_id : Option String
  pub data_json : Option Fields

abbrev pub given : Option String → Bool
given none = false
given (some s) = true

abbrev has_data : Option Fields → Bool
has_data none = false
has_data (some d) = true

-- `if not fields`
abbrev pub is_nothing : Changes → Bool
is_nothing c =
    not (given c.name)
    && not (given c.normalized_name)
    && not (given c.canonical_url)
    && not (given c.domain)
    && not (given c.address)
    && not (given c.telephone)
    && not (given c.external_id)
    && not (has_data c.data_json)

abbrev pub set_or : Option String → Option String → Option String
set_or none old = old
set_or (some s) old = some s

abbrev set_data : Option Fields → Fields → Fields
set_data none old = old
set_data (some d) old = d

abbrev pub changed : ℕ → Changes → Entity → Entity
changed now c e = record e {
  name = set_or c.name e.name;
  normalized_name = set_or c.normalized_name e.normalized_name;
  canonical_url = set_or c.canonical_url e.canonical_url;
  domain = set_or c.domain e.domain;
  address = set_or c.address e.address;
  telephone = set_or c.telephone e.telephone;
  external_id = set_or c.external_id e.external_id;
  data_json = set_data c.data_json e.data_json;
  updated_at = now_iso now;
}

unfoldable pub update : ℕ → String → Changes → List Entity → List Entity
update now id c entities =
    if is_nothing c then entities else update_where (has_id id) (changed now c) entities

-- dict.update
abbrev pub merge : Fields → Fields → Fields
merge old end = old
merge old (field k v rest) = merge (set_field k v old) rest

abbrev pub only_data : Fields → Changes
only_data d = record {
  name = none;
  normalized_name = none;
  canonical_url = none;
  domain = none;
  address = none;
  telephone = none;
  external_id = none;
  data_json = some d;
}

-- `merge_data` by the row that it has read
unfoldable pub merge_at : ℕ → String → Fields → Option Entity → List Entity → List Entity
unfolding update
merge_at now id new_data none entities = entities
merge_at now id new_data (some e) entities =
    update now id (only_data (merge e.data_json new_data)) entities

unfoldable pub merge_data : ℕ → String → Fields → List Entity → List Entity
unfolding get update merge_at
merge_data now id new_data entities = merge_at now id new_data (get id entities) entities

unfoldable pub entity_count : String → List Entity → ℕ
entity_count job entities = count (λ e. e.job_id == job && is_null e.deleted_at) entities

-- ORDER BY updated_at DESC LIMIT page_size OFFSET skipped
unfoldable pub list_live : String → (page_size skipped : ℕ) → List Entity → List Entity
list_live job page_size skipped entities = limit page_size (
    offset skipped (
      order_by (λ d e. leb e.updated_at d.updated_at)
        (select (λ e. e.job_id == job && is_null e.deleted_at) entities)))

pub record EvidenceRow : Type 0 where
  pub evidence_id : ℕ
  pub entity_id : String
  pub field_name : String
  pub value : Value
  pub source_url : String
  pub fetched_at : ℕ
  pub confidence : ℕ

pub record Evidence : Type 0 where
  pub rows : List EvidenceRow
  pub next_id : ℕ

abbrev pub new_evidence : ℕ → String → String → Value → String → ℕ → ℕ → EvidenceRow
new_evidence id entity_id name value source_url confidence fetched_at = record {
  evidence_id = id;
  entity_id = entity_id;
  field_name = name;
  value = value;
  source_url = source_url;
  fetched_at = fetched_at;
  confidence = confidence;
}

-- `record`, with `fetched_at` given
abbrev pub record_one : String → String → Value → String → ℕ → ℕ → Evidence → Evidence
record_one entity_id name value source_url confidence fetched_at ev = record {
  rows =
      ev.rows ++ new_evidence ev.next_id entity_id name value source_url confidence fetched_at ∷ [];
  next_id = suc ev.next_id;
}

abbrev pub record_at : ℕ → String → Fields → String → ℕ → Evidence → Evidence
record_at ts entity_id end source_url confidence ev = ev
record_at ts entity_id (field k v rest) source_url confidence ev =
    record_at ts entity_id rest source_url confidence
      (record_one entity_id k v source_url confidence ts ev)

unfoldable pub record_many : ℕ → String → Fields → String → ℕ → Evidence → Evidence
record_many now entity_id fields source_url confidence ev =
    record_at (now_iso now) entity_id fields source_url confidence ev

-- ORDER BY fetched_at DESC
unfoldable pub for_entity : String → Evidence → List EvidenceRow
for_entity entity_id ev =
    order_by (λ r s. leb s.fetched_at r.fetched_at) (select (λ r. r.entity_id == entity_id) ev.rows)

unfoldable pub for_field : String → String → Evidence → List EvidenceRow
for_field entity_id name ev =
    order_by (λ r s. leb s.fetched_at r.fetched_at)
      (select (λ r. r.entity_id == entity_id && r.field_name == name) ev.rows)
