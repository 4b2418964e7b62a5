-- ===== src/Tests/Stores.antt =====
-- Candidates and entities (db_collector_os/candidates.py, db_collector_os/deduplication/matcher.py).
use db_collector_os.Prelude.{◌+◌, ◌≡◌, String, none, some, List, [], ◌∷◌, if◌then◌else◌}
use db_collector_os.Models.Json.{end}
use db_collector_os.Candidates.{Candidate, CandidateSpec, new_candidate, add, total_count}
use db_collector_os.Candidates.Distinct.{total_count-add}
use db_collector_os.Entities.{Entity, EntitySpec, new_entity}
use db_collector_os.Deduplication.{Query, resolve, query_fingerprint}
use db_collector_os.Deduplication.Decisions.{Decided, resolve-Decided}

abbrev spec : CandidateSpec
spec = record {
  job_id = "j";
  entity_type = "maker";
  name = some "Acme";
  normalized_name = some "acme";
  url = some "https://acme.example/";
  source_url = none;
  discovery_method = "seed";
  fingerprint = some "f1";
  confidence = 900;
}

abbrev other_spec : CandidateSpec
other_spec = record spec { name = none; confidence = 300 }

abbrev candidates : List Candidate
candidates = new_candidate 1000000 "c0" (record spec { fingerprint = some "f0" }) ∷ []

total_count-add_example :
    total_count "j" (add 2000000 "c1" spec candidates).0
    ≡ total_count "j" candidates + (if (add 2000000 "c1" spec candidates).1.1 then 1 else 0)
total_count-add_example = total_count-add 2000000 "c1" spec candidates

abbrev entity_spec : EntitySpec
entity_spec = record {
  job_id = "j";
  entity_type = "maker";
  name = some "Acme";
  normalized_name = some "acme";
  canonical_url = some "https://acme.example/";
  domain = some "acme.example";
  address = none;
  telephone = none;
  external_id = none;
  fingerprint = "x";
  data_json = end;
}

abbrev entities : List Entity
entities = new_entity 1000000 "e0" entity_spec ∷ []

abbrev query : Query
query = record {
  job_id = "j";
  entity_type = "maker";
  normalized_name = some "acme";
  canonical_url = none;
  domain = some "acme.test";
  address = none;
  telephone = none;
  external_id = none;
}

abbrev no_digest : String → String
no_digest s = s

resolve-Decided_example :
    Decided query (query_fingerprint no_digest query) entities (resolve no_digest query entities)
resolve-Decided_example = resolve-Decided no_digest query entities
