-- ===== src/Models/Json/Lookup.antt =====
-- Looking up a key of a dict after another key, or the same, has been set.
use db_collector_os.Prelude.{
  ◌≡◌, refl, sym, subst, String, some, false, ◌==◌, Bool-cases, inl, inr, eq_refl, eq_iff,
}
use db_collector_os.Models.Json.{Value, Fields, end, field, get_field, set_field}

pub get_field-set_field :
    (key : String) (v : Value) (d : Fields) → get_field key (set_field key v d) ≡ some v
get_field-set_field key v end = rw (eq_refl key) refl
get_field-set_field key v (field k x rest) = elim (Bool-cases (k == key)) [
  | inl q ↦ rw q (rw q refl)
  | inr q ↦ rw q (rw q (get_field-set_field key v rest))
]

pub get_field-set_other :
    (key other : String) (v : Value) (d : Fields)
    → (other == key) ≡ false
    → get_field key (set_field other v d) ≡ get_field key d
get_field-set_other key other v end ne = rw ne refl
get_field-set_other key other v (field k x rest) ne = elim (Bool-cases (k == other)) [
  | inl q ↦
      let same : k ≡ other = (eq_iff k other).0 q in
      let no : (k == key) ≡ false = subst (λ (s : String). (s == key) ≡ false) (sym same) ne in
      rw q (rw no refl)
  | inr q ↦ rw q (elim (Bool-cases (k == key)) [
    | inl t ↦ rw t refl
    | inr t ↦ rw t (get_field-set_other key other v rest ne)
  ])
]
