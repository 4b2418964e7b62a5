-- ===== src/Tests/Persisting.antt =====
-- Persisting a record (db_collector_os/persistence.py, db_collector_os/validation.py).
use db_collector_os.Prelude.{◌⊎◌, ◌≡◌, refl, String, Option, none, some, true, false, [], ◌∷◌}
use db_collector_os.Models.Json.{null, str, float, pos, dict, field, end}
use db_collector_os.Records.{ExtractedRecord, entries}
use db_collector_os.Validation.{validate_record}
use db_collector_os.Validation.Accepts.{Accepted, validate_record-Accepted}
use db_collector_os.Entities.{Entity, Evidence, new_entity, get}
use db_collector_os.Persistence.{Services, Stores, prepare, persist}
use db_collector_os.Persistence.Outcomes.{Written, WritesNothing, persist-Written}
use db_collector_os.Persistence.Kept.{Kept, persist-Kept}

abbrev parts : String → Option (String × String)
parts s = some ("https", s)

abbrev services : Services
services = record {
  normalize_name = λ s. s;
  normalize_address = λ s. s;
  normalize_telephone = λ s. s;
  normalize_url = λ s. s;
  url_host = λ s. some s;
  url_parts = parts;
  sha256 = λ s. s;
}

abbrev extracted : ExtractedRecord
extracted = record {
  name = str "Acme";
  entity_type = str "maker";
  canonical_url = str "acme.example";
  domain = str "acme.example";
  address = null;
  telephone = str "  ";
  external_id = null;
  confidence = float (pos 600);
  fields = dict (field "title" (str "Acme") end);
  missing_required = [];
  skip = false;
  skip_reason = none;
}

extracted_valid : (validate_record parts ("name" ∷ []) extracted).valid ≡ true
unfolding validate_record
extracted_valid = refl

validate_record-Accepted_example : Accepted parts ("name" ∷ []) extracted
validate_record-Accepted_example =
    validate_record-Accepted parts ("name" ∷ []) extracted extracted_valid

abbrev stored : Entity
stored = new_entity 1000000 "e0" (record {
  job_id = "j";
  entity_type = "maker";
  name = some "Acme";
  normalized_name = some "acme";
  canonical_url = some "acme.example";
  domain = some "acme.example";
  address = some "1 Road";
  telephone = some "555";
  external_id = none;
  fingerprint = "x";
  data_json = field "founded" (str "1999") end;
})

abbrev evidence : Evidence
evidence = record { rows = []; next_id = 1 }

abbrev stores : Stores
stores = record { entities = stored ∷ []; evidence = evidence }

get_e0 : get "e0" stores.entities ≡ some stored
unfolding get
get_e0 = refl

persist-Written_example :
    Written services 2000000 "e1" "j" "https://acme.example/" extracted
      (prepare services "https://acme.example/" none "entity" extracted)
      stores
      (persist services 2000000 "e1" "j" "https://acme.example/" none "entity"
        ("name" ∷ [])
        extracted
        stores).1.action
      (persist services 2000000 "e1" "j" "https://acme.example/" none "entity"
        ("name" ∷ [])
        extracted
        stores).0
    × (((validate_record parts ("name" ∷ []) extracted).valid ≡ true)
        ⊎ WritesNothing
            (persist services 2000000 "e1" "j" "https://acme.example/" none "entity"
              ("name" ∷ [])
              extracted
              stores).1.action)
persist-Written_example =
    persist-Written services 2000000 "e1" "j" "https://acme.example/" none "entity" ("name" ∷ [])
      extracted stores

persist-Kept_example :
    (e' : Entity) × (get "e0"
        (persist services 2000000 "e1" "j" "https://acme.example/" none "entity"
          ("name" ∷ [])
          extracted
          stores).0.entities
      ≡ some e')
    × Kept (entries extracted.fields) stored e'
persist-Kept_example =
    persist-Kept services 2000000 "e1" "j" "https://acme.example/" none "entity" ("name" ∷ [])
      extracted stores "e0" stored get_e0
