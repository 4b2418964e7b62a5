-- ===== src/Models/Enums.antt =====
-- db_collector_os/models/enums.py. The classes hold text constants; here each is a data type, and
-- the test that the code and the SQL make on the texts is the test on the constants' positions.
use db_collector_os.Prelude.{ℕ, Bool, ◌=?◌}

pub data JobStatus : Type 0 where
  idle queued running completed review continuing retry failed paused : JobStatus

pub data JobPhase : Type 0 where
  bootstrap discovery collect validation phase1_complete incremental : JobPhase

pub data CandidateStatus : Type 0 where
  new accepted duplicate rejected review : CandidateStatus

pub data QueueStatus : Type 0 where
  queued fetching done failed skipped : QueueStatus

pub data ReviewStatus : Type 0 where
  open_ resolved dismissed : ReviewStatus

pub data ReviewReason : Type 0 where
  duplicate_ambiguity captcha blocked parse_failure conflicting_source : ReviewReason
  uncertain_entity missing_required_field low_confidence unexpected_schema : ReviewReason
  adapter_error : ReviewReason

pub data RunStatus : Type 0 where
  running completed failed aborted : RunStatus

abbrev job_status_index : JobStatus → ℕ
job_status_index JobStatus.idle = 0
job_status_index JobStatus.queued = 1
job_status_index JobStatus.running = 2
job_status_index JobStatus.completed = 3
job_status_index JobStatus.review = 4
job_status_index JobStatus.continuing = 5
job_status_index JobStatus.retry = 6
job_status_index JobStatus.failed = 7
job_status_index JobStatus.paused = 8

abbrev pub is_job_status : JobStatus → JobStatus → Bool
is_job_status s t = job_status_index s =? job_status_index t

-- The position in JobPhase.ORDER.
abbrev pub phase_index : JobPhase → ℕ
phase_index bootstrap = 0
phase_index discovery = 1
phase_index collect = 2
phase_index validation = 3
phase_index phase1_complete = 4
phase_index incremental = 5

abbrev pub is_phase : JobPhase → JobPhase → Bool
is_phase p q = phase_index p =? phase_index q

abbrev queue_status_index : QueueStatus → ℕ
queue_status_index QueueStatus.queued = 0
queue_status_index QueueStatus.fetching = 1
queue_status_index QueueStatus.done = 2
queue_status_index QueueStatus.failed = 3
queue_status_index QueueStatus.skipped = 4

abbrev pub is_queue_status : QueueStatus → QueueStatus → Bool
is_queue_status s t = queue_status_index s =? queue_status_index t

abbrev candidate_status_index : CandidateStatus → ℕ
candidate_status_index CandidateStatus.new = 0
candidate_status_index CandidateStatus.accepted = 1
candidate_status_index CandidateStatus.duplicate = 2
candidate_status_index CandidateStatus.rejected = 3
candidate_status_index CandidateStatus.review = 4

abbrev pub is_candidate_status : CandidateStatus → CandidateStatus → Bool
is_candidate_status s t = candidate_status_index s =? candidate_status_index t

abbrev review_status_index : ReviewStatus → ℕ
review_status_index open_ = 0
review_status_index resolved = 1
review_status_index dismissed = 2

abbrev pub is_review_status : ReviewStatus → ReviewStatus → Bool
is_review_status s t = review_status_index s =? review_status_index t

abbrev run_status_index : RunStatus → ℕ
run_status_index RunStatus.running = 0
run_status_index RunStatus.completed = 1
run_status_index RunStatus.failed = 2
run_status_index RunStatus.aborted = 3

abbrev pub is_run_status : RunStatus → RunStatus → Bool
is_run_status s t = run_status_index s =? run_status_index t
