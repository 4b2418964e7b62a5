-- ===== src/Checkpoints.antt =====
-- db_collector_os/checkpoint.py: the `checkpoints` table, one row for each job. The state is a JSON
-- object; writing it as text and reading it back is taken as the identity.
pub mod Resume
use db_collector_os.Prelude.{
  ℕ, String, Option, none, some, Bool, not, List, [], ◌∷◌, ◌++◌, ◌==◌, first, select, update_where,
}
use db_collector_os.Clock.{now_iso}
use db_collector_os.Models.Enums.{JobPhase}
use db_collector_os.Models.Json.{Value, Fields, end, field, set_field}

pub record Checkpoint : Type 0 where
  pub job_id : String
  pub run_id : Option String
  pub phase : Option JobPhase
  pub state : Fields
  pub updated_at : ℕ

-- What `load` returns.
pub record Loaded : Type 0 where
  pub job_id : String
  pub run_id : Option String
  pub phase : Option JobPhase
  pub state : Fields

abbrev pub of_job : String → Checkpoint → Bool
of_job job c = c.job_id == job

abbrev pub new_row : ℕ → String → Option String → Option JobPhase → Fields → Checkpoint
new_row now job run phase state = record {
  job_id = job;
  run_id = run;
  phase = phase;
  state = state;
  updated_at = now_iso now;
}

abbrev pub replaced : ℕ → Option String → Option JobPhase → Fields → Checkpoint → Checkpoint
replaced now run phase state c = record c {
  run_id = run;
  phase = phase;
  state = state;
  updated_at = now_iso now;
}

-- INSERT … ON CONFLICT(job_id) DO UPDATE SET …
abbrev pub save_at :
    ℕ
    → String
    → Option String
    → Option JobPhase
    → Fields
    → Option Checkpoint
    → List Checkpoint
    → List Checkpoint
save_at now job run phase state none rows = rows ++ new_row now job run phase state ∷ []
save_at now job run phase state (some c) rows =
    update_where (of_job job) (replaced now run phase state) rows

unfoldable pub save :
    ℕ → String → Option String → Option JobPhase → Fields → List Checkpoint → List Checkpoint
save now job run phase state rows = save_at now job run phase state (first (of_job job) rows) rows

abbrev pub load_at : String → Option Checkpoint → Loaded
load_at job none = record { job_id = job; run_id = none; phase = none; state = end }
load_at job (some c) = record {
  job_id = c.job_id;
  run_id = c.run_id;
  phase = c.phase;
  state = c.state;
}

unfoldable pub load : String → List Checkpoint → Loaded
load job rows = load_at job (first (of_job job) rows)

-- DELETE … WHERE job_id = ?
unfoldable pub clear : String → List Checkpoint → List Checkpoint
clear job rows = select (λ c. not (of_job job c)) rows

-- dict.update
abbrev pub update : Fields → Fields → Fields
update old end = old
update old (field k v rest) = update (set_field k v old) rest

unfoldable pub update_state :
    ℕ
    → String
    → Option String
    → Option JobPhase
    → Fields
    → List Checkpoint
    → List Checkpoint × Fields
unfolding load save
update_state now job run phase kv rows =
    let current = update (load job rows).state kv in (save now job run phase current rows, current)
