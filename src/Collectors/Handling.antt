-- ===== src/Collectors/Handling.antt =====
-- BaseCollector._handle_extracted of db_collector_os/collectors/pipeline.py: one extracted record is
-- persisted, its candidate gets the status that follows, and the outcome counts it.
pub mod Tally
pub mod Judged
use Prim.Native.String.{◌++◌ as ◌⧺◌}
use db_collector_os.Prelude.{
  ℕ, suc, String, Option, none, some, Bool, true, false, List, [], ◌∷◌, if◌then◌else◌,
}
use db_collector_os.Prelude.Text.{starts_with, after_colon}
use db_collector_os.Models.Enums.{
  CandidateStatus, ReviewReason, duplicate_ambiguity, parse_failure, missing_required_field,
}
use db_collector_os.JobRegistry.{Job}
use db_collector_os.Candidates
use db_collector_os.Candidates.{Candidate}
use db_collector_os.Records.{ExtractedRecord}
use db_collector_os.Review
use db_collector_os.Persistence.{
  Stores, Outcome, PersistenceResult, skipped, invalid, reviewed, inserted, updated, persist,
}
use db_collector_os.Collectors.Context.{Context, RunOutcome, Pass, World}

abbrev pub id_of : Option Candidate → Option String
id_of none = none
id_of (some c) = some c.candidate_id

-- `if candidate: ctx.candidates.set_status(…)`
abbrev pub mark : Option Candidate → CandidateStatus → Pass → Pass
mark none s p = p
mark (some c) s p = record p {
  ctx = record p.ctx {
    candidates = Candidates.set_status p.ctx.now c.candidate_id s p.ctx.candidates;
  };
}

-- ctx.review.add(…), with `outcome.reviewed += 1`
abbrev pub ask : Job → ReviewReason → (details entity_id candidate_id : Option String) → Pass → Pass
ask j reason details entity_id candidate_id p = record p {
  ctx = record p.ctx {
    review = (Review.add p.ctx.now j.job_id reason details entity_id candidate_id p.ctx.review).0;
  };
  outcome = record p.outcome { reviewed = suc p.outcome.reviewed };
}

-- The fields that the errors name as missing.
abbrev pub missing_of : List String → List String
missing_of [] = []
missing_of (e ∷ es) =
    if starts_with "missing_required:" e then after_colon e ∷ missing_of es else missing_of es

-- "; ".join(errors)
abbrev join : List String → String
join [] = ""
join (e ∷ []) = e
join (e ∷ f ∷ es) = e ⧺ ("; " ⧺ join (f ∷ es))

abbrev invalid_reason : List String → ReviewReason
invalid_reason [] = parse_failure
invalid_reason (m ∷ ms) = missing_required_field

module _ (w : World) where
  abbrev invalid_details : List String → List String → String
  invalid_details [] errors = "record validation failed: " ⧺ join errors
  invalid_details (m ∷ ms) errors = "missing: " ⧺ w.show_list (m ∷ ms)

  -- By the action of the result.
  abbrev pub handle_result : Job → Option Candidate → Outcome → PersistenceResult → Pass → Pass
  handle_result j c skipped r p = mark c CandidateStatus.rejected p
  handle_result j c invalid r p = mark c CandidateStatus.review (
      ask j (invalid_reason (missing_of r.errors))
        (some (invalid_details (missing_of r.errors) r.errors)) none (id_of c) p)
  handle_result j c inserted r p =
      mark c CandidateStatus.accepted
        (record p { outcome = record p.outcome { inserted = suc p.outcome.inserted } })
  handle_result j c updated r p = mark c CandidateStatus.duplicate (record p {
    outcome = record p.outcome {
      updated = suc p.outcome.updated;
      duplicates = suc p.outcome.duplicates;
    };
  })
  handle_result j c reviewed r p =
      mark c CandidateStatus.review (ask j duplicate_ambiguity r.reason r.entity_id (id_of c) p)

  -- `persist` with the arguments of the call; an entity_id is drawn in any case.
  abbrev pub persisted :
      Job → ExtractedRecord → String → String → Context → Stores × PersistenceResult
  persisted j r source_url domain ctx =
      persist w.services ctx.now (w.new_id ctx.drawn) j.job_id source_url (some domain)
        j.collector_type [] r ctx.stores

  unfoldable pub handle_extracted :
      Job → ExtractedRecord → (source_url domain : String) → Option Candidate → Pass → Pass
  handle_extracted j r source_url domain c p =
      let done = persisted j r source_url domain p.ctx in
      handle_result j c done.1.action done.1
        (record p { ctx = record p.ctx { stores = done.0; drawn = suc p.ctx.drawn } })

  -- The loop over the records.
  unfoldable pub handle_each :
      Job → List ExtractedRecord → (source_url domain : String) → Option Candidate → Pass → Pass
  handle_each j [] source_url domain c p = p
  handle_each j (r ∷ rs) source_url domain c p =
      handle_each j rs source_url domain c (handle_extracted j r source_url domain c p)
