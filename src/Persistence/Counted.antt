-- ===== src/Persistence/Counted.antt =====
-- Merging a record, in db_collector_os/persistence.py, keeps the number of a job's entities.
use db_collector_os.Prelude.{ℕ, ◌≡◌, refl, ◌∙◌, String, Option, none, some, List}
use db_collector_os.Entities.{Entity, get, merge_data, entity_count}
use db_collector_os.Entities.Counted.{entity_count-update, entity_count-merge_data}
use db_collector_os.Records.{ExtractedRecord, entries}
use db_collector_os.Persistence.{
  Stores, Prepared, updates, update_at, update_common_fields, merge_into,
}

entity_count-update_common_fields :
    (job : String) (now : ℕ) (id : String) (p : Prepared) (entities : List Entity)
    → entity_count job (update_common_fields now id p entities) ≡ entity_count job entities
unfolding update_common_fields update_at updates
entity_count-update_common_fields job now id p entities = go (get id entities)
  where
    go :
        (o : Option Entity)
        → entity_count job (update_at now id p o entities) ≡ entity_count job entities
    go none = refl
    go (some e) = entity_count-update job now id (updates p e) entities

pub entity_count-merge_into :
    (job : String) (now : ℕ) (id : String) (r : ExtractedRecord) (p : Prepared) (url : String)
    (t : Stores)
    → entity_count job (merge_into now id r p url t).entities ≡ entity_count job t.entities
unfolding merge_into
entity_count-merge_into job now id r p url t =
    entity_count-update_common_fields job now id p (merge_data now id (entries r.fields) t.entities)
    ∙ entity_count-merge_data job now id (entries r.fields) t.entities
