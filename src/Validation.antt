-- ===== src/Validation.antt =====
-- db_collector_os/validation.py. The keys of a dict are texts here; `url_parts` is the scheme and the
-- netloc of urllib's urlsplit, or none where it raises.
pub mod Values
pub mod Accepts
use Prim.Native.String.{◌++◌ as ◌⧺◌}
use db_collector_os.Prelude.{
  ℕ, zero, suc, ◌/◌, ◌%◌, String, Option, none, some, Bool, true, false, not, ◌&&◌, ◌||◌, List, [],
  ◌∷◌, ◌++◌, leb, ltb, ◌=?◌, ◌==◌, if◌then◌else◌,
}
use db_collector_os.Prelude.Text.{decimal}
use db_collector_os.JobRegistry.Schedule.{strip}
use db_collector_os.Models.Json.{
  ℤ, pos, negsuc, Value, null, bool, int, float, str, list, dict, object, Items, nil, cons, Fields,
  end, field, get_field,
}
use db_collector_os.Records.{ExtractedRecord}

pub record ValidationResult : Type 0 where
  pub valid : Bool
  pub errors : List String
  pub warnings : List String

abbrev is_blank : String → Bool
unfolding strip
is_blank s = strip s == ""

unfoldable pub is_missing : Value → Bool
unfolding strip
is_missing null = true
is_missing (str s) = is_blank s
is_missing _ = false

abbrev pub is_text : Value → Bool
is_text (str s) = true
is_text _ = false

-- bool(value)
abbrev pub truth : Value → Bool
truth null = false
truth (bool b) = b
truth (int (pos n)) = not (n =? 0)
truth (int (negsuc n)) = true
truth (float (pos n)) = not (n =? 0)
truth (float (negsuc n)) = true
truth (str s) = not (s == "")
truth (list nil) = false
truth (list (cons v vs)) = true
truth (dict end) = false
truth (dict (field k v rest)) = true
truth object = true

abbrev texts : List String → Items
texts [] = nil
texts (s ∷ ss) = cons (str s) (texts ss)

abbrev text_value : Option String → Value
text_value none = null
text_value (some s) = str s

-- The attribute of the dataclass with this name.
abbrev attribute : String → ExtractedRecord → Option Value
attribute n r =
    if n == "name"
    then some r.name
    else if n == "entity_type"
    then some r.entity_type
    else if n == "canonical_url"
    then some r.canonical_url
    else if n == "domain"
    then some r.domain
    else if n == "address"
    then some r.address
    else if n == "telephone"
    then some r.telephone
    else if n == "external_id"
    then some r.external_id
    else if n == "confidence"
    then some r.confidence
    else if n == "fields"
    then some r.fields
    else if n == "missing_required"
    then some (list (texts r.missing_required))
    else if n == "skip"
    then some (bool r.skip)
    else if n == "skip_reason"
    then some (text_value r.skip_reason)
    else none

abbrev or_null : Option Value → Value
or_null none = null
or_null (some v) = v

abbrev get_entry : String → Value → Value
get_entry n (dict d) = or_null (get_field n d)
get_entry n _ = null

abbrev value_at : String → Value → Option Value → Value
value_at n fields none = get_entry n fields
value_at n fields (some v) = v

unfoldable pub get_value : ExtractedRecord → String → Value
get_value r n = value_at n r.fields (attribute n r)

abbrev pub drop : String → List String → List String
drop s [] = []
drop s (t ∷ ts) = if s == t then drop s ts else t ∷ drop s ts

-- list(dict.fromkeys(values)): the first of each
unfoldable pub unique : List String → List String
unique [] = []
unique (s ∷ ss) = s ∷ drop s (unique ss)

unfoldable pub missing_errors : ExtractedRecord → List String → List String
unfolding get_value is_missing
missing_errors r [] = []
missing_errors r (n ∷ ns) =
    if is_missing (get_value r n)
    then ("missing_required:" ⧺ n) ∷ missing_errors r ns
    else missing_errors r ns

-- A text that is given has to be a text. The code's `elif not value.strip()` is never reached: a
-- blank text is missing.
abbrev pub type_error : String → Value → List String
unfolding is_missing
type_error n v = if is_missing v then [] else if is_text v then [] else ("invalid_type:" ⧺ n) ∷ []

abbrev pub is_dict : Value → Bool
is_dict (dict d) = true
is_dict _ = false

abbrev pub fields_error : Value → List String
fields_error v = if is_dict v then [] else "invalid_type:fields" ∷ []

abbrev in_range : Bool → List String
in_range true = []
in_range false = "invalid_range:confidence" ∷ []

abbrev pub confidence_errors : Value → List String
confidence_errors (int (pos n)) = in_range (leb n 1)
confidence_errors (int (negsuc n)) = in_range false
confidence_errors (float (pos n)) = in_range (leb n 1000)
confidence_errors (float (negsuc n)) = in_range false
confidence_errors _ = "invalid_type:confidence" ∷ []

mutual
  pub value_errors : String → Value → List String
  value_errors path null = []
  value_errors path (bool b) = []
  value_errors path (int n) = []
  value_errors path (float x) = []
  value_errors path (str s) = []
  value_errors path (list vs) = item_errors path 0 vs
  value_errors path (dict d) = entry_errors path d
  value_errors path object = ("non_json_value:" ⧺ path) ∷ []

  pub item_errors : String → ℕ → Items → List String
  item_errors path i nil = []
  item_errors path i (cons v vs) =
      value_errors (path ⧺ ("[" ⧺ (decimal i ⧺ "]"))) v ++ item_errors path (suc i) vs

  pub entry_errors : String → Fields → List String
  entry_errors path end = []
  entry_errors path (field k v rest) = value_errors (path ⧺ ("." ⧺ k)) v ++ entry_errors path rest

abbrev key_errors : Fields → List String
unfolding strip
key_errors end = []
key_errors (field k v rest) = if is_blank k then "invalid_fields_key" ∷ [] else key_errors rest

abbrev dict_errors : Value → List String
unfolding value_errors item_errors entry_errors strip
dict_errors (dict d) = key_errors d ++ entry_errors "fields" d
dict_errors _ = []

abbrev pub is_no_errors : List String → Bool
is_no_errors [] = true
is_no_errors (e ∷ es) = false

abbrev pub domain_warning : ExtractedRecord → List String
domain_warning r =
    if truth r.canonical_url && not (truth r.domain)
    then "domain_missing_but_derivable" ∷ []
    else []

-- The result for a record that is to be skipped, or else by the errors that were found.
abbrev pub judged : Bool → List String → List String → ValidationResult
unfolding unique
judged true errors warnings = record {
  valid = false;
  errors = "record_marked_skip" ∷ [];
  warnings = [];
}
judged false errors warnings = record {
  valid = is_no_errors errors;
  errors = unique errors;
  warnings = warnings;
}

module _ (url_parts : String → Option (String × String)) where
  abbrev is_http : Option (String × String) → Bool
  is_http none = false
  is_http (some (scheme, netloc)) = (scheme == "http" || scheme == "https") && not (netloc == "")

  unfoldable pub valid_http_url : String → Bool
  unfolding strip
  valid_http_url s = is_http (url_parts (strip s))

  abbrev pub url_errors : Value → List String
  unfolding is_missing valid_http_url
  url_errors (str s) =
      if is_missing (str s)
      then []
      else if valid_http_url s
      then []
      else "invalid_url:canonical_url" ∷ []
  url_errors v = type_error "canonical_url" v

  -- The errors in the order in which they are found.
  unfoldable pub found_errors : List String → ExtractedRecord → List String
  unfolding missing_errors unique is_missing get_value value_errors item_errors entry_errors
      valid_http_url strip
  found_errors required r =
      missing_errors r (unique (required ++ r.missing_required))
      ++ type_error "name" r.name
      ++ type_error "entity_type" r.entity_type
      ++ fields_error r.fields
      ++ confidence_errors r.confidence
      ++ url_errors r.canonical_url
      ++ type_error "domain" r.domain
      ++ type_error "address" r.address
      ++ type_error "telephone" r.telephone
      ++ type_error "external_id" r.external_id
      ++ dict_errors r.fields

  unfoldable pub validate_record : List String → ExtractedRecord → ValidationResult
  unfolding found_errors unique
  validate_record required r = judged r.skip (found_errors required r) (domain_warning r)
