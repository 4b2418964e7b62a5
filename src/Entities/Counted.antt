-- ===== src/Entities/Counted.antt =====
-- The number of a job's entities that are not deleted, in db_collector_os/entities.py.
use db_collector_os.Prelude.{
  ℕ, suc, ◌≡◌, refl, String, Option, none, some, List, [], ◌∷◌, ◌++◌, ◌==◌, ◌&&◌, arith, eq_refl,
  count-update_where, count-append, if-intro,
}
use db_collector_os.Models.Json.{Fields}
use db_collector_os.Entities.{
  Entity, EntitySpec, Changes, has_id, is_null, is_nothing, changed, new_entity, get, update, merge,
  only_data, merge_data, merge_at, entity_count,
}

pub entity_count-new_entity :
    (now : ℕ) (id : String) (spec : EntitySpec) (entities : List Entity)
    → entity_count spec.job_id (entities ++ new_entity now id spec ∷ [])
      ≡ suc (entity_count spec.job_id entities)
unfolding entity_count
entity_count-new_entity now id spec entities =
    rw
      (count-append (λ e. e.job_id == spec.job_id && is_null e.deleted_at) entities
        (new_entity now id spec ∷ []))
      (rw (eq_refl spec.job_id) (omega arith))

module _ (job : String) where
  pub entity_count-update :
      (now : ℕ) (id : String) (c : Changes) (entities : List Entity)
      → entity_count job (update now id c entities) ≡ entity_count job entities
  unfolding update entity_count
  entity_count-update now id c entities =
      if-intro (λ rows. entity_count job rows ≡ entity_count job entities) (is_nothing c) _ _
        (λ _. refl)
        (λ _.
          count-update_where (has_id id) (λ e. e.job_id == job && is_null e.deleted_at)
            (changed now c) (λ e. refl) entities)

  pub entity_count-merge_data :
      (now : ℕ) (id : String) (d : Fields) (entities : List Entity)
      → entity_count job (merge_data now id d entities) ≡ entity_count job entities
  unfolding merge_data merge_at
  entity_count-merge_data now id d entities = go (get id entities)
    where
      go :
          (o : Option Entity)
          → entity_count job (merge_at now id d o entities) ≡ entity_count job entities
      go none = refl
      go (some e) = entity_count-update now id (only_data (merge e.data_json d)) entities
