-- ===== src/Fetching/Queue/Statements.antt =====
-- `claim_next` of db_collector_os/fetching/queue.py as the two statements that it is, with statements
-- of other processes in between. The SELECT does not lock the table, and the UPDATE does not look at
-- the status again. One worker touches a job's queue at a time, as the comment of
-- `requeue_stale_fetching` demands and the claim of the job brings about, so a process is named by
-- its job.
pub mod Rows
pub mod Exclusive
use db_collector_os.Prelude.{ℕ, String, Option, none, some, List, [], ◌∷◌, ◌==◌, if◌then◌else◌}
use db_collector_os.Fetching.Queue.{Item, FetchQueue, select_next, claim_at}
use db_collector_os.Fetching.Queue.Ops.{QueueOp, apply}

-- The table, and the row that the process of a job has selected and not yet updated.
pub record Shared : Type 0 where
  pub queue : FetchQueue
  pub picked : String → Option Item

abbrev pub set_picked : String → Option Item → (String → Option Item) → String → Option Item
set_picked job o picked k = if k == job then o else picked k

pub data Statement : Type 0 where
  do_select : (job : String) → Option (List String) → Statement
  do_update : (job : String) → Statement
  do_call : QueueOp → Statement

-- What the UPDATE of a job's process claims.
abbrev pub claimed_by : String → Shared → Option Item
claimed_by job s = (claim_at (s.picked job) s.queue).1

module _ (normalize_url extract_domain : String → String) where
  unfoldable pub step : ℕ → Statement → Shared → Shared
  step now (do_select job domains) s = record s {
    picked = set_picked job (select_next now job domains s.queue) s.picked;
  }
  step now (do_update job) s = record {
    queue = (claim_at (s.picked job) s.queue).0;
    picked = set_picked job none s.picked;
  }
  step now (do_call op) s = record s { queue = apply normalize_url extract_domain now op s.queue }

  unfoldable pub run_steps : List (ℕ × Statement) → Shared → Shared
  unfolding step
  run_steps [] s = s
  run_steps ((now, t) ∷ ts) s = run_steps ts (step now t s)
