-- ===== src/Candidates.antt =====
-- db_collector_os/candidates.py: the `entity_candidates` table. Confidences are in thousandths. The
-- candidate_id that `new_id` makes is an argument.
pub mod Distinct
use mathlib.Core.List.{reverse}
use db_collector_os.Prelude.{
  ℕ, String, Option, none, some, Bool, true, false, ◌&&◌, List, [], ◌∷◌, ◌++◌, leb, ◌==◌,
  if◌then◌else◌, first, select, count, update_where, order_by, limit,
}
use db_collector_os.Prelude.Sorted.{head?}
use db_collector_os.Clock.{now_iso}
use db_collector_os.Models.Enums.{CandidateStatus, new, is_candidate_status}

pub record Candidate : Type 0 where
  pub candidate_id : String
  pub job_id : String
  pub entity_type : String
  pub name : Option String
  pub normalized_name : Option String
  pub url : Option String
  pub source_url : Option String
  pub discovery_method : String
  pub fingerprint : Option String
  pub confidence : ℕ
  pub status : CandidateStatus
  pub discovered_at : ℕ
  pub reviewed_at : Option ℕ

-- The arguments of `add`.
pub record CandidateSpec : Type 0 where
  pub job_id : String
  pub entity_type : String
  pub name : Option String
  pub normalized_name : Option String
  pub url : Option String
  pub source_url : Option String
  pub discovery_method : String
  pub fingerprint : Option String
  pub confidence : ℕ

-- An optional text that is there and is this one.
abbrev pub is_text : Option String → String → Bool
is_text none s = false
is_text (some t) s = t == s

abbrev pub has_fingerprint : String → String → Candidate → Bool
has_fingerprint job fp c = c.job_id == job && is_text c.fingerprint fp

abbrev pub new_candidate : ℕ → String → CandidateSpec → Candidate
new_candidate now id spec = record {
  candidate_id = id;
  job_id = spec.job_id;
  entity_type = spec.entity_type;
  name = spec.name;
  normalized_name = spec.normalized_name;
  url = spec.url;
  source_url = spec.source_url;
  discovery_method = spec.discovery_method;
  fingerprint = spec.fingerprint;
  confidence = spec.confidence;
  status = new;
  discovered_at = now_iso now;
  reviewed_at = none;
}

-- The row with the fingerprint, which is looked for if a fingerprint is given and not empty.
abbrev pub known : String → Option String → List Candidate → Option Candidate
known job none rows = none
known job (some fp) rows = if fp == "" then none else first (has_fingerprint job fp) rows

abbrev pub add_at :
    ℕ
    → String
    → CandidateSpec
    → Option Candidate
    → List Candidate
    → List Candidate × (String × Bool)
add_at now id spec (some c) rows = (rows, (c.candidate_id, false))
add_at now id spec none rows = (rows ++ new_candidate now id spec ∷ [], (id, true))

-- The new table, and the candidate_id with whether the row was created.
unfoldable pub add : ℕ → String → CandidateSpec → List Candidate → List Candidate × (String × Bool)
add now id spec rows = add_at now id spec (known spec.job_id spec.fingerprint rows) rows

unfoldable pub set_status : ℕ → String → CandidateStatus → List Candidate → List Candidate
set_status now id s =
    update_where (λ c. c.candidate_id == id)
      (λ c. record c { status = s; reviewed_at = some (now_iso now) })

-- ORDER BY confidence DESC
unfoldable pub list_new : String → ℕ → List Candidate → List Candidate
list_new job max rows = limit max (
    order_by (λ c d. leb d.confidence c.confidence)
      (select (λ c. c.job_id == job && is_candidate_status c.status new) rows))

-- `counts_by_status(job).get(status, 0)`
unfoldable pub counts_by_status : String → CandidateStatus → List Candidate → ℕ
counts_by_status job s rows = count (λ c. c.job_id == job && is_candidate_status c.status s) rows

unfoldable pub get : String → List Candidate → Option Candidate
get id rows = first (λ c. c.candidate_id == id) rows

-- ORDER BY discovered_at DESC LIMIT 1; of the rows of one second the one added last is taken
unfoldable pub get_by_url : String → String → List Candidate → Option Candidate
get_by_url job url rows = head? (
    order_by (λ c d. leb d.discovered_at c.discovered_at)
      (reverse (select (λ c. c.job_id == job && is_text c.url url) rows)))

unfoldable pub total_count : String → List Candidate → ℕ
total_count job rows = count (λ c. c.job_id == job) rows
