-- ===== src/Collectors/Handling/Judged.antt =====
-- What becomes of the candidate of an extracted record: `_handle_extracted` of
-- db_collector_os/collectors/pipeline.py.
use db_collector_os.Prelude.{ℕ, suc, ◌≡◌, refl, List, String, some, ◌==◌, first-update_same}
use db_collector_os.Clock.{now_iso}
use db_collector_os.Models.Enums.{CandidateStatus}
use db_collector_os.JobRegistry.{Job}
use db_collector_os.Candidates
use db_collector_os.Candidates.{Candidate, set_status}
use db_collector_os.Records.{ExtractedRecord}
use db_collector_os.Persistence.{
  Outcome, PersistenceResult, skipped, invalid, reviewed, inserted, updated,
}
use db_collector_os.Collectors.Context.{Pass, World}
use db_collector_os.Collectors.Handling.{persisted, handle_result, handle_extracted}

-- The status that follows from the outcome of `persist`.
abbrev pub verdict : Outcome → CandidateStatus
verdict skipped = CandidateStatus.rejected
verdict invalid = CandidateStatus.review
verdict reviewed = CandidateStatus.review
verdict inserted = CandidateStatus.accepted
verdict updated = CandidateStatus.duplicate

marked :
    (c x : Candidate) (s : CandidateStatus) (now : ℕ) (rows : List Candidate)
    → Candidates.get c.candidate_id rows ≡ some x
    → (y : Candidate) × (Candidates.get c.candidate_id (set_status now c.candidate_id s rows)
        ≡ some y)
      × (y.status ≡ s)
unfolding set_status Candidates.get
marked c x s now rows e = (
  record x { status = s; reviewed_at = some (now_iso now) },
  first-update_same (λ d. d.candidate_id == c.candidate_id)
      (λ d. record d { status = s; reviewed_at = some (now_iso now) }) (λ _. refl) rows x e,
  refl,
)

judged :
    (w : World) (j : Job) (c x : Candidate) (o : Outcome) (r : PersistenceResult) (p : Pass)
    → Candidates.get c.candidate_id p.ctx.candidates ≡ some x
    → (y : Candidate) × (Candidates.get c.candidate_id
          (handle_result w j (some c) o r p).ctx.candidates
        ≡ some y)
      × (y.status ≡ verdict o)
judged w j c x skipped r p e = marked c x (verdict skipped) p.ctx.now p.ctx.candidates e
judged w j c x invalid r p e = marked c x (verdict invalid) p.ctx.now p.ctx.candidates e
judged w j c x reviewed r p e = marked c x (verdict reviewed) p.ctx.now p.ctx.candidates e
judged w j c x inserted r p e = marked c x (verdict inserted) p.ctx.now p.ctx.candidates e
judged w j c x updated r p e = marked c x (verdict updated) p.ctx.now p.ctx.candidates e

-- A candidate whose record has been handled, and whose row is in the table, has the status that follows
-- from the outcome of `persist`: rejected for a skipped record, in review for an invalid or ambiguous one,
-- accepted for an insert and duplicate for a merge.
pub handle_extracted-verdict :
    (w : World) (j : Job) (r : ExtractedRecord) (url domain : String) (c x : Candidate) (p : Pass)
    → Candidates.get c.candidate_id p.ctx.candidates ≡ some x
    → (y : Candidate) × (Candidates.get c.candidate_id
          (handle_extracted w j r url domain (some c) p).ctx.candidates
        ≡ some y)
      × (y.status ≡ verdict (persisted w j r url domain p.ctx).1.action)
unfolding handle_extracted
handle_extracted-verdict w j r url domain c x p e =
    let done = persisted w j r url domain p.ctx in
    judged w j c x done.1.action done.1
      (record p { ctx = record p.ctx { stores = done.0; drawn = suc p.ctx.drawn } }) e
