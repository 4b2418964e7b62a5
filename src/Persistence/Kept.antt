-- ===== src/Persistence/Kept.antt =====
-- What `persist` of db_collector_os/persistence.py leaves of a stored entity.
use mathlib.Core.Option.{some-injective}
use db_collector_os.Prelude.{
  ℕ, ◌≡◌, ◌⊎◌, refl, sym, subst, ◌∙◌, String, Option, none, some, true, false, List, inl, inr,
  Bool-cases, ◌==◌, eq_iff, first, first_matches, first-update_where, first-append_some,
}
use db_collector_os.JobRegistry.Schedule.{strip}
use db_collector_os.Models.Json.{Value, Fields, end, field, get_field, set_field}
use db_collector_os.Records.{ExtractedRecord, entries}
use db_collector_os.Entities.{
  Entity, Changes, has_id, get, update, changed, is_nothing, only_data, merge, merge_at, merge_data,
  set_or,
}
use db_collector_os.Persistence.Outcomes.{Written, nothing, added, merged_into, persist-Written}
use db_collector_os.Persistence.{
  Services, Outcome, persist, merge_into, Prepared, Stores, is_text, refresh, updates, update_at,
  update_common_fields,
}

-- A column is as it was, or has a text that is not blank.
pub data Fresh (old new : Option String) : Type 0 where
  same : new ≡ old → Fresh old new
  fresh : (s : String) → (strip s == "") ≡ false → new ≡ some s → Fresh old new

-- The dict has an entry of this key and this value.
abbrev pub HasEntry : String → Value → Fields → Type 0
HasEntry k w end = ⊥
HasEntry k w (field i v rest) = ((i ≡ k) × (v ≡ w)) ⊎ HasEntry k w rest

-- Under the key stands the value, or one that `given` has for the key.
abbrev pub Stays : Fields → String → Value → Fields → Type 0
Stays given k v d = (w : Value) × (get_field k d ≡ some w) × ((w ≡ v) ⊎ HasEntry k w given)

-- What `new` keeps of `old`: what identifies it, each column that has not been given a new text,
-- and each key of its data, with the value that it had or with one that `given` has for it.
pub record Kept (given : Fields) (old new : Entity) : Type 0 where
  pub entity_id : new.entity_id ≡ old.entity_id
  pub job_id : new.job_id ≡ old.job_id
  pub entity_type : new.entity_type ≡ old.entity_type
  pub fingerprint : new.fingerprint ≡ old.fingerprint
  pub created_at : new.created_at ≡ old.created_at
  pub deleted_at : new.deleted_at ≡ old.deleted_at
  pub name : Fresh old.name new.name
  pub normalized_name : Fresh old.normalized_name new.normalized_name
  pub canonical_url : Fresh old.canonical_url new.canonical_url
  pub domain : Fresh old.domain new.domain
  pub address : Fresh old.address new.address
  pub telephone : Fresh old.telephone new.telephone
  pub external_id : Fresh old.external_id new.external_id
  pub keys :
      (k : String) (v : Value) → get_field k old.data_json ≡ some v → Stays given k v new.data_json

Kept-refl : (given : Fields) (e : Entity) → Kept given e e
Kept-refl given e = record {
  entity_id = refl;
  job_id = refl;
  entity_type = refl;
  fingerprint = refl;
  created_at = refl;
  deleted_at = refl;
  name = same refl;
  normalized_name = same refl;
  canonical_url = same refl;
  domain = same refl;
  address = same refl;
  telephone = same refl;
  external_id = same refl;
  keys = λ k v h. (v, h, inl refl);
}

Fresh-trans : {a b c : Option String} → Fresh a b → Fresh b c → Fresh a c
Fresh-trans f (fresh s ne e) = fresh s ne e
Fresh-trans (same q) (same e) = same (e ∙ q)
Fresh-trans (fresh s ne q) (same e) = fresh s ne (e ∙ q)

Stays-trans :
    (given : Fields) (k : String) (v w : Value) (d : Fields)
    → (w ≡ v) ⊎ HasEntry k w given
    → Stays given k w d
    → Stays given k v d
Stays-trans given k v w d (inl e) (u, h, inl q) = (u, h, inl (q ∙ e))
Stays-trans given k v w d (inr g) (u, h, inl q) =
    (u, h, inr (subst (λ z. HasEntry k z given) (sym q) g))
Stays-trans given k v w d o (u, h, inr g) = (u, h, inr g)

same_key : (i k j : String) → (i == k) ≡ true → (i == j) ≡ true → k ≡ j
same_key i k j q u = sym ((eq_iff i k).0 q) ∙ (eq_iff i j).0 u

pub Kept-trans :
    (given : Fields) (a b c : Entity) → Kept given a b → Kept given b c → Kept given a c
Kept-trans given a b c h k = record {
  entity_id = k.entity_id ∙ h.entity_id;
  job_id = k.job_id ∙ h.job_id;
  entity_type = k.entity_type ∙ h.entity_type;
  fingerprint = k.fingerprint ∙ h.fingerprint;
  created_at = k.created_at ∙ h.created_at;
  deleted_at = k.deleted_at ∙ h.deleted_at;
  name = Fresh-trans h.name k.name;
  normalized_name = Fresh-trans h.normalized_name k.normalized_name;
  canonical_url = Fresh-trans h.canonical_url k.canonical_url;
  domain = Fresh-trans h.domain k.domain;
  address = Fresh-trans h.address k.address;
  telephone = Fresh-trans h.telephone k.telephone;
  external_id = Fresh-trans h.external_id k.external_id;
  keys = λ key v e.
      let (w, q, o) = h.keys key v e in Stays-trans given key v w c.data_json o (k.keys key w q);
}

Stays-set_field :
    (given : Fields) (k : String) (v : Value) (j : String) (d : Fields) (x : Value)
    → HasEntry k v given
    → get_field j d ≡ some x
    → Stays given j x (set_field k v d)
Stays-set_field given k v j end x g h = absurd (cc)
Stays-set_field given k v j (field i y rest) x g h = elim (Bool-cases (i == k)) [
  | inl q ↦ elim (Bool-cases (i == j)) [
    | inl u ↦ (v, rw q (rw u refl), inr (subst (λ z. HasEntry z v given) (same_key i k j q u) g))
    | inr u ↦ (x, rw q (rw u (rw u at h)), inl refl)
  ]
  | inr q ↦ elim (Bool-cases (i == j)) [
    | inl u ↦ (y, rw q (rw u refl), inl (some-injective y x (rw u at h)))
    | inr u ↦
        let (w, e, o) = Stays-set_field given k v j rest x g (rw u at h) in (w, rw q (rw u e), o)
  ]
]

-- `more` is the part of `given` that is still to be merged.
Stays-merge :
    (given old more : Fields) (j : String) (x : Value)
    → ((k : String) (v : Value) → HasEntry k v more → HasEntry k v given)
    → get_field j old ≡ some x
    → Stays given j x (merge old more)
Stays-merge given old end j x sub h = (x, h, inl refl)
Stays-merge given old (field k v rest) j x sub h =
    let (w, e, o) = Stays-set_field given k v j old x (sub k v (inl (refl, refl))) h in
    Stays-trans given j x w (merge (set_field k v old) rest) o
      (Stays-merge given (set_field k v old) rest j w (λ i y m. sub i y (inr m)) e)

refresh-Fresh :
    (given current : Option String) → Fresh current (set_or (refresh given current) current)
unfolding refresh
refresh-Fresh none current = same refl
refresh-Fresh (some s) current = elim (Bool-cases (strip s == "")) [
  | inl q ↦ rw q (same refl)
  | inr q ↦ elim (Bool-cases (is_text current s)) [
    | inl u ↦ rw (q, u) (same refl)
    | inr u ↦ rw (q, u) (fresh s q refl)
  ]
]

-- What an UPDATE of the row `id` leaves of the row `k`, if it is one that keeps the row.
update-Kept :
    (given : Fields) (now : ℕ) (id k : String) (c : Changes) (entities : List Entity) (e : Entity)
    → get k entities ≡ some e
    → (has_id id e ≡ true → Kept given e (changed now c e))
    → (e' : Entity) × (get k (update now id c entities) ≡ some e') × Kept given e e'
unfolding get update
update-Kept given now id k c entities e h keep = elim (Bool-cases (is_nothing c)) [
  | inl n ↦ (e, rw n h, Kept-refl given e)
  | inr n ↦ elim (Bool-cases (has_id id e)) [
    | inl t ↦ (
      changed now c e,
      rw n (
          rw (first-update_where (has_id id) (has_id k) (changed now c) (λ r. refl) entities)
            (rw h (rw t refl))),
      keep t,
    )
    | inr t ↦ (
      e,
      rw n (
          rw (first-update_where (has_id id) (has_id k) (changed now c) (λ r. refl) entities)
            (rw h (rw t refl))),
      Kept-refl given e,
    )
  ]
]

-- The row that is read by `id` is the row `e`, if `e` has that entity_id.
same_row :
    (id k : String) (entities : List Entity) (e d : Entity)
    → get k entities ≡ some e
    → get id entities ≡ some d
    → has_id id e ≡ true
    → d ≡ e
unfolding get
same_row id k entities e d h g t =
    let m : e.entity_id ≡ k = (eq_iff e.entity_id k).0 (first_matches (has_id k) entities e h) in
    let i : e.entity_id ≡ id = (eq_iff e.entity_id id).0 t in
    let j : id ≡ k = cc in let g' : first (has_id k) entities ≡ some d = rw j at g in cc

merged-Kept :
    (now : ℕ) (e : Entity) (fields : Fields)
    → Kept fields e (changed now (only_data (merge e.data_json fields)) e)
merged-Kept now e fields = record {
  entity_id = refl;
  job_id = refl;
  entity_type = refl;
  fingerprint = refl;
  created_at = refl;
  deleted_at = refl;
  name = same refl;
  normalized_name = same refl;
  canonical_url = same refl;
  domain = same refl;
  address = same refl;
  telephone = same refl;
  external_id = same refl;
  keys = λ k v. Stays-merge fields e.data_json fields k v (λ i y m. m);
}

merge_at-Kept :
    (now : ℕ) (id k : String) (fields : Fields) (o : Option Entity) (entities : List Entity)
    (e : Entity)
    → get id entities ≡ o
    → get k entities ≡ some e
    → (e' : Entity) × (get k (merge_at now id fields o entities) ≡ some e') × Kept fields e e'
unfolding merge_at
merge_at-Kept now id k fields none entities e g h = (e, h, Kept-refl fields e)
merge_at-Kept now id k fields (some d) entities e g h =
    update-Kept fields now id k (only_data (merge d.data_json fields)) entities e h
      (λ t. rw (same_row id k entities e d h g t) (merged-Kept now e fields))

update_at-Kept :
    (given : Fields) (now : ℕ) (id k : String) (p : Prepared) (o : Option Entity)
    (entities : List Entity) (e : Entity)
    → get id entities ≡ o
    → get k entities ≡ some e
    → (e' : Entity) × (get k (update_at now id p o entities) ≡ some e') × Kept given e e'
unfolding update_at updates
update_at-Kept given now id k p none entities e g h = (e, h, Kept-refl given e)
update_at-Kept given now id k p (some d) entities e g h =
    update-Kept given now id k (updates p d) entities e h (λ t.
      let q = same_row id k entities e d h g t in
      rw q (record {
        entity_id = refl;
        job_id = refl;
        entity_type = refl;
        fingerprint = refl;
        created_at = refl;
        deleted_at = refl;
        name = refresh-Fresh p.name e.name;
        normalized_name = refresh-Fresh p.normalized_name e.normalized_name;
        canonical_url = refresh-Fresh p.canonical_url e.canonical_url;
        domain = refresh-Fresh p.domain e.domain;
        address = refresh-Fresh p.address e.address;
        telephone = refresh-Fresh p.telephone e.telephone;
        external_id = refresh-Fresh p.external_id e.external_id;
        keys = λ j v q. (v, q, inl refl);
      }))

Written-Kept :
    (f : Services) (now : ℕ) (new_id job source_url : String) (r : ExtractedRecord) (p : Prepared)
    (t : Stores) (o : Outcome) (t' : Stores) (k : String) (e : Entity)
    → Written f now new_id job source_url r p t o t'
    → get k t.entities ≡ some e
    → (e' : Entity) × (get k t'.entities ≡ some e') × Kept (entries r.fields) e e'
unfolding merge_data update_common_fields get merge_into
Written-Kept f now new_id job source_url r p t _ _ k e (nothing o w) h =
    (e, h, Kept-refl (entries r.fields) e)
Written-Kept f now new_id job source_url r p t _ _ k e (added _ _) h =
    (e, first-append_some (has_id k) t.entities _ e h, Kept-refl (entries r.fields) e)
Written-Kept f now new_id job source_url r p t _ _ k e (merged_into d _ _ _) h =
    let (a, g, m) = merge_at-Kept now d.entity_id k (entries r.fields) _ t.entities e refl h in
    let (b, g', n) =
      update_at-Kept (entries r.fields) now d.entity_id k p _
        (merge_data now d.entity_id (entries r.fields) t.entities) a refl g in
    (b, g', Kept-trans (entries r.fields) e a b m n)

-- Whatever record is persisted, an entity that is in the table stays there with its entity_id, job,
-- type, fingerprint, created_at and deleted_at; each of its text columns is as it was or has a new
-- text that is not blank; and each key of its data is there with the value that it had, or with one
-- that the fields of the record give for this key.
pub persist-Kept :
    (f : Services) (now : ℕ) (new_id job source_url : String) (domain : Option String)
    (default_type : String) (required : List String) (r : ExtractedRecord) (t : Stores) (k : String)
    (e : Entity)
    → get k t.entities ≡ some e
    → (e' : Entity) × (get k
          (persist f now new_id job source_url domain default_type required r t).0.entities
        ≡ some e')
      × Kept (entries r.fields) e e'
persist-Kept f now new_id job source_url domain default_type required r t k e h =
    Written-Kept f now new_id job source_url r _ t _ _ k e
      (persist-Written f now new_id job source_url domain default_type required r t).0 h
