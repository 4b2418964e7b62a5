-- ===== src/Validation/Values.antt =====
-- The value of a record under a name, and whether it is absent: db_collector_os/validation.py.
use mathlib.Core.Option.{some-injective}
use db_collector_os.Prelude.{
  ◌≡◌, ◌≢◌, ◌∙◌, refl, sym, none, some, All, if◌then◌else◌, String, Option, true, false, List, [],
  ◌∷◌, ◌==◌, eq_iff, inl, inr, Has, Bool-cases,
}
use db_collector_os.Models.Json.{Value, null, bool, str, list, dict, Fields, get_field}
use db_collector_os.JobRegistry.Schedule.{strip}
use db_collector_os.Records.{ExtractedRecord}
use db_collector_os.Validation.{
  texts, text_value, attribute, or_null, get_entry, value_at, is_missing, get_value,
}

-- None, or a text of spaces.
pub data IsAbsent : Value → Type 0 where
  no_value : IsAbsent null
  blank : (s : String) → strip s ≡ "" → IsAbsent (str s)

-- The attributes of the dataclass, by name.
abbrev pub columns : ExtractedRecord → List (String × Value)
columns r =
    ("name", r.name)
    ∷ ("entity_type", r.entity_type)
    ∷ ("canonical_url", r.canonical_url)
    ∷ ("domain", r.domain)
    ∷ ("address", r.address)
    ∷ ("telephone", r.telephone)
    ∷ ("external_id", r.external_id)
    ∷ ("confidence", r.confidence)
    ∷ ("fields", r.fields)
    ∷ ("missing_required", list (texts r.missing_required))
    ∷ ("skip", bool r.skip)
    ∷ ("skip_reason", text_value r.skip_reason)
    ∷ []

-- `v` is the value of the record under a name: of the attribute, or, where there is none, of `fields`.
pub data Named (r : ExtractedRecord) (n : String) (v : Value) : Type 0 where
  attribute_value : Has (n, v) (columns r) → Named r n v
  entry :
      (d : Fields)
      → All (λ c. c.0 ≢ n) (columns r)
      → r.fields ≡ dict d
      → get_field n d ≡ some v
      → Named r n v

pub IsAbsent-is_missing : (v : Value) → is_missing v ≡ true → IsAbsent v
unfolding is_missing
IsAbsent-is_missing null h = no_value
IsAbsent-is_missing (str s) h = blank s ((eq_iff (strip s) "").0 h)
IsAbsent-is_missing v h = absurd (cc h)

pub is_missing-IsAbsent : (v : Value) → is_missing v ≡ false → ¬ IsAbsent v
unfolding is_missing
is_missing-IsAbsent _ h no_value = cc h
is_missing-IsAbsent _ h (blank s e) = cc (h, (eq_iff (strip s) "").1 e)

lookup : String → List (String × Value) → Option Value
lookup n [] = none
lookup n (c ∷ cs) = if n == c.0 then some c.1 else lookup n cs

lookup-Has :
    (n : String) (cs : List (String × Value)) (v : Value) → lookup n cs ≡ some v → Has (n, v) cs
unfolding lookup
lookup-Has n [] v h = absurd (cc h)
lookup-Has n ((k, u) ∷ cs) v h = elim (Bool-cases (n == k)) [
  | inl e ↦
      let same : n ≡ k = (eq_iff n k).0 e in
      let value : u ≡ v = some-injective u v (rw e at h) in inl (cc (same, value))
  | inr e ↦ inr (lookup-Has n cs v (rw e at h))
]

lookup-none : (n : String) (cs : List (String × Value)) → lookup n cs ≡ none → All (λ c. c.0 ≢ n) cs
unfolding lookup
lookup-none n [] h = tt
lookup-none n ((k, u) ∷ cs) h = elim (Bool-cases (n == k)) [
  | inl e ↦ absurd (cc (rw e at h))
  | inr e ↦ (λ q. cc (e, (eq_iff n k).1 (sym q)), lookup-none n cs (rw e at h))
]

attribute-lookup : (n : String) (r : ExtractedRecord) → attribute n r ≡ lookup n (columns r)
unfolding lookup
attribute-lookup n r = refl

entry-Named :
    (r : ExtractedRecord) (n : String) (fs : Value)
    → All (λ c. c.0 ≢ n) (columns r)
    → r.fields ≡ fs
    → is_missing (get_entry n fs) ≡ false
    → Named r n (get_entry n fs)
unfolding is_missing
entry-Named r n (dict d) a e h = go (get_field n d) refl h
  where
    go :
        (o : Option Value)
        → get_field n d ≡ o
        → is_missing (or_null o) ≡ false
        → Named r n (or_null o)
    go none q k = absurd (cc k)
    go (some v) q k = entry d a e q
entry-Named r n v a e h = absurd (cc h)

pub get_value-Named :
    (r : ExtractedRecord) (n : String)
    → is_missing (get_value r n) ≡ false
    → Named r n (get_value r n)
unfolding get_value
get_value-Named r n h = go (attribute n r) refl h
  where
    go :
        (o : Option Value)
        → attribute n r ≡ o
        → is_missing (value_at n r.fields o) ≡ false
        → Named r n (value_at n r.fields o)
    go none q k =
        entry-Named r n r.fields (lookup-none n (columns r) (sym (attribute-lookup n r) ∙ q)) refl k
    go (some v) q k = attribute_value (lookup-Has n (columns r) v (sym (attribute-lookup n r) ∙ q))
