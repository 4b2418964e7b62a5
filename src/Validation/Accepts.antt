-- ===== src/Validation/Accepts.antt =====
-- Which records db_collector_os/validation.py accepts.
use db_collector_os.Prelude.{
  ℕ, ◌≤◌, ◌≡◌, ◌≢◌, ◌⊎◌, refl, sym, none, some, String, Option, Bool, true, false, List, [], ◌∷◌,
  ◌++◌, arith, ◌==◌, eq_iff, inl, inr, Has, Bool-cases,
}
use db_collector_os.Models.Json.{
  pos, Value, null, bool, int, float, str, list, dict, object, Fields,
}
use db_collector_os.JobRegistry.Schedule.{strip}
use db_collector_os.Records.{ExtractedRecord}
use db_collector_os.Validation.Values.{
  IsAbsent, no_value, Named, IsAbsent-is_missing, is_missing-IsAbsent, get_value-Named,
}
use db_collector_os.Validation.{
  is_http, is_missing, get_value, unique, drop, missing_errors, confidence_errors, url_errors,
  type_error, fields_error, valid_http_url, found_errors, is_no_errors, judged, domain_warning,
  validate_record,
}

-- A confidence from 0 to 1, as an int or as a float in thousandths.
pub data IsConfidence : Value → Type 0 where
  whole : (n : ℕ) → n ≤ 1 → IsConfidence (int (pos n))
  fraction : (n : ℕ) → n ≤ 1000 → IsConfidence (float (pos n))

abbrev Optional : Value → Type 0
Optional v = IsAbsent v ⊎ ((s : String) × (v ≡ str s))

-- An http or https URL with a host, spaces around it left out.
pub record IsHttpUrl (url_parts : String → Option (String × String)) (s : String) : Type 0 where
  pub scheme : String
  pub netloc : String
  pub parts : url_parts (strip s) ≡ some (scheme, netloc)
  pub web : (scheme ≡ "http") ⊎ (scheme ≡ "https")
  pub host : netloc ≢ ""

-- What holds of an accepted record.
pub record Accepted (url_parts : String → Option (String × String)) (required : List String)
    (r : ExtractedRecord) : Type 0 where
  pub kept : r.skip ≡ false
  pub present :
      (n : String)
      → Has n (required ++ r.missing_required)
      → (v : Value) × Named r n v × ¬ IsAbsent v
  pub name : Optional r.name
  pub entity_type : Optional r.entity_type
  pub domain : Optional r.domain
  pub address : Optional r.address
  pub telephone : Optional r.telephone
  pub external_id : Optional r.external_id
  pub has_fields : (d : Fields) × (r.fields ≡ dict d)
  pub sure : IsConfidence r.confidence
  pub url :
      IsAbsent r.canonical_url ⊎ ((s : String) × (r.canonical_url ≡ str s) × IsHttpUrl url_parts s)

nothing : (a : List String) → is_no_errors a ≡ true → a ≡ []
nothing [] h = refl
nothing (e ∷ a) h = absurd (ground arith)

none_of : (a b : List String) → is_no_errors (a ++ b) ≡ true → (is_no_errors a ≡ true) × (b ≡ [])
none_of [] b h = (refl, nothing b h)
none_of (e ∷ a) b h = absurd (ground arith)

Has-drop : (s t : String) (ts : List String) → (s == t) ≡ false → Has t ts → Has t (drop s ts)
Has-drop s t [] ne h = h
Has-drop s t (u ∷ ts) ne (inl e) = let q : (s == u) ≡ false = rw (← e) ne in rw q (inl e)
Has-drop s t (u ∷ ts) ne (inr h) = elim (Bool-cases (s == u)) [
  | inl q ↦ rw q (Has-drop s t ts ne h)
  | inr q ↦ rw q (inr (Has-drop s t ts ne h))
]

Has-unique : (t : String) (ts : List String) → Has t ts → Has t (unique ts)
unfolding unique
Has-unique t [] h = h
Has-unique t (s ∷ ts) (inl e) = inl e
Has-unique t (s ∷ ts) (inr h) = elim (Bool-cases (s == t)) [
  | inl q ↦ inl (sym ((eq_iff s t).0 q))
  | inr q ↦ inr (Has-drop s t (unique ts) q (Has-unique t ts h))
]

present_all :
    (r : ExtractedRecord) (ns : List String)
    → missing_errors r ns ≡ []
    → (n : String) → Has n ns
    → is_missing (get_value r n) ≡ false
unfolding missing_errors
present_all r [] h n k = absurd k
present_all r (m ∷ ns) h n (inl e) = elim (Bool-cases (is_missing (get_value r m))) [
  | inl q ↦ absurd (cc (rw q at h))
  | inr q ↦ rw e q
]
present_all r (m ∷ ns) h n (inr k) = elim (Bool-cases (is_missing (get_value r m))) [
  | inl q ↦ absurd (cc (rw q at h))
  | inr q ↦ present_all r ns (rw q at h) n k
]

sure_of : (v : Value) → confidence_errors v ≡ [] → IsConfidence v
sure_of (int (pos n)) h = whole n (ground arith)
sure_of (float (pos n)) h = fraction n (ground arith)
sure_of v h = absurd (ground arith)

not_nil : (e : String) (es : List String) → ¬ (e ∷ es) ≡ []
not_nil e es h = ground arith

Optional-type_error : (n : String) (v : Value) → type_error n v ≡ [] → Optional v
unfolding is_missing
Optional-type_error n null h = inl no_value
Optional-type_error n (str s) h = inr (s, refl)
Optional-type_error n v h = absurd (cc)

http_url :
    (url_parts : String → Option (String × String)) (s : String)
    → valid_http_url url_parts s ≡ true
    → IsHttpUrl url_parts s
unfolding valid_http_url
http_url url_parts s h = go (url_parts (strip s)) refl h
  where
    go :
        (o : Option (String × String))
        → url_parts (strip s) ≡ o
        → is_http url_parts o ≡ true
        → IsHttpUrl url_parts s
    go none e k = absurd (cc k)
    go (some (scheme, netloc)) e k = record {
      scheme = scheme;
      netloc = netloc;
      parts = e;
      web = elim (Bool-cases (scheme == "http")) [
        | inl q ↦ inl ((eq_iff scheme "http").0 q)
        | inr q ↦ inr ((eq_iff scheme "https").0 (ground (arith, q, k)))
      ];
      host = λ q. ground (arith, k, (eq_iff netloc "").1 q);
    }

url_of :
    (url_parts : String → Option (String × String)) (v : Value)
    → url_errors url_parts v ≡ []
    → IsAbsent v ⊎ ((s : String) × (v ≡ str s) × IsHttpUrl url_parts s)
unfolding url_errors is_missing
url_of url_parts null h = inl no_value
url_of url_parts (str s) h = elim (Bool-cases (is_missing (str s))) [
  | inl q ↦ inl (IsAbsent-is_missing (str s) q)
  | inr q ↦ inr (
    s,
    refl,
    elim (Bool-cases (valid_http_url url_parts s)) [
      | inl u ↦ http_url url_parts s u
      | inr u ↦ absurd (cc (rw (q, u) at h))
    ],
  )
]
url_of url_parts (bool b) h = absurd (not_nil _ _ h)
url_of url_parts (int n) h = absurd (not_nil _ _ h)
url_of url_parts (float x) h = absurd (not_nil _ _ h)
url_of url_parts (list vs) h = absurd (not_nil _ _ h)
url_of url_parts (dict d) h = absurd (not_nil _ _ h)
url_of url_parts object h = absurd (not_nil _ _ h)

dict_of : (v : Value) → fields_error v ≡ [] → (d : Fields) × (v ≡ dict d)
dict_of (dict d) h = (d, refl)
dict_of v h = absurd (cc)

found-Accepted :
    (url_parts : String → Option (String × String)) (required : List String) (r : ExtractedRecord)
    → r.skip ≡ false
    → is_no_errors (found_errors url_parts required r) ≡ true
    → Accepted url_parts required r
unfolding found_errors
found-Accepted url_parts required r kept h =
    let (h1, entries) = none_of _ _ h in
    let (h2, external_id) = none_of _ _ h1 in
    let (h3, telephone) = none_of _ _ h2 in
    let (h4, address) = none_of _ _ h3 in
    let (h5, domain) = none_of _ _ h4 in
    let (h6, url) = none_of _ _ h5 in
    let (h7, sure) = none_of _ _ h6 in
    let (h8, fields) = none_of _ _ h7 in
    let (h9, kind) = none_of _ _ h8 in
    let (h10, name) = none_of _ _ h9 in
    let missing = nothing _ h10 in
    record {
      kept = kept;
      present = λ n k.
          let given = present_all r _ missing n (Has-unique n (required ++ r.missing_required) k) in
          (get_value r n, get_value-Named r n given, is_missing-IsAbsent (get_value r n) given);
      name = Optional-type_error "name" r.name name;
      entity_type = Optional-type_error "entity_type" r.entity_type kind;
      domain = Optional-type_error "domain" r.domain domain;
      address = Optional-type_error "address" r.address address;
      telephone = Optional-type_error "telephone" r.telephone telephone;
      external_id = Optional-type_error "external_id" r.external_id external_id;
      has_fields = dict_of r.fields fields;
      sure = sure_of r.confidence sure;
      url = url_of url_parts r.canonical_url url;
    }

-- Where validation says that a record is valid, the record is not marked to be skipped; each
-- required name, of the caller's and of the record's own, has a value that is not None and not blank,
-- under the attribute of that name or, where there is none, in `fields`; name, entity_type, domain,
-- address, telephone and external_id are texts or absent, `fields` is a dict, the confidence is a
-- number from 0 to 1, and the canonical URL is absent or a text that is an http or https URL with a
-- host.
pub validate_record-Accepted :
    (url_parts : String → Option (String × String)) (required : List String) (r : ExtractedRecord)
    → (validate_record url_parts required r).valid ≡ true
    → Accepted url_parts required r
unfolding validate_record
validate_record-Accepted url_parts required r h = go r.skip refl h
  where
    go :
        (b : Bool)
        → r.skip ≡ b
        → (judged b (found_errors url_parts required r) (domain_warning r)).valid ≡ true
        → Accepted url_parts required r
    go true q h = absurd (ground arith)
    go false q h = found-Accepted url_parts required r q h
