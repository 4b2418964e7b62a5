-- ===== src/Collectors/Phases.antt =====
-- The phases of a job: db_collector_os/collectors/phase_manager.py, and `_advance_phase` of
-- db_collector_os/collectors/pipeline.py. A rate is a fraction; a threshold of the configuration is
-- in thousandths.
pub mod Progress
pub mod ErrorRate
use db_collector_os.Prelude.{
  ℕ, suc, ◌+◌, ◌*◌, String, Option, none, some, Bool, true, false, not, ◌&&◌, ◌||◌, List, [], ◌∷◌,
  ◌++◌, leb, ltb, ◌=?◌, if◌then◌else◌,
}
use db_collector_os.Models.Enums.{
  JobPhase, bootstrap, discovery, collect, validation, phase1_complete, incremental,
}
use db_collector_os.RunHistory.{Run, DiscoveryRun, recent_discovery_runs, for_job}
use db_collector_os.Discovery.Saturation.{default, is_saturated}

-- numerator / denominator, or 0.0 where the denominator is 0
pub record Rate : Type 0 where
  pub numerator : ℕ
  pub denominator : ℕ

abbrev pub zero_rate : Rate
zero_rate = record { numerator = 0; denominator = 1 }

-- `a / b if b else 0.0`
abbrev pub rate : ℕ → ℕ → Rate
rate a b = if b =? 0 then zero_rate else record { numerator = a; denominator = b }

-- rate > threshold
abbrev pub exceeds : Rate → ℕ → Bool
exceeds r threshold = ltb (threshold * r.denominator) (r.numerator * 1000)

-- config_json.phase1_conditions: the keys that are given.
pub record Conditions : Type 0 where
  pub queue_empty : Option Bool
  pub min_entity_count : Option ℕ
  pub max_error_rate : Option ℕ
  pub max_unresolved_review : Option ℕ
  pub require_discovery_saturation : Option Bool
  pub consecutive_low_discovery_runs : Option ℕ

pub record PhaseSignals : Type 0 where
  pub queue_empty : Bool
  pub entity_count : ℕ
  pub error_rate : Rate
  pub unresolved_review_count : ℕ
  pub discovery_saturated : Bool
  pub consecutive_low_discovery_runs : ℕ

abbrev pub or_default {ℓ} : {A : Type ℓ} → Option A → A → A
or_default none d = d
or_default (some a) d = a

-- The reasons, with the text left out.
pub data Unmet : Type 0 where
  queue_not_empty entity_count_low error_rate_high : Unmet
  review_count_high not_saturated low_runs_short : Unmet

abbrev pub when : Bool → Unmet → List Unmet
when true u = u ∷ []
when false u = []

-- The configured conditions that the signals do not meet. DEFAULT_CONDITIONS are the defaults.
unfoldable pub unmet : PhaseSignals → Conditions → List Unmet
unmet s c =
    when (or_default c.queue_empty true && not s.queue_empty) queue_not_empty
    ++ when (ltb s.entity_count (or_default c.min_entity_count 0)) entity_count_low
    ++ when (exceeds s.error_rate (or_default c.max_error_rate 500)) error_rate_high
    ++ when (ltb (or_default c.max_unresolved_review 10000) s.unresolved_review_count)
        review_count_high
    ++ when (or_default c.require_discovery_saturation true && not s.discovery_saturated)
        not_saturated
    ++ when
        (not (or_default c.consecutive_low_discovery_runs 3 =? 0)
          && ltb s.consecutive_low_discovery_runs (or_default c.consecutive_low_discovery_runs 3))
        low_runs_short

abbrev pub is_nil : List Unmet → Bool
is_nil [] = true
is_nil (u ∷ us) = false

-- Whether all are met, and those that are not.
unfoldable pub phase1_conditions_met : PhaseSignals → Conditions → Bool × List Unmet
unfolding unmet
phase1_conditions_met s c = (is_nil (unmet s c), unmet s c)

-- The successor in JobPhase.ORDER; the last phase has none. A text that is no phase, for which the
-- code answers bootstrap, is not a `JobPhase`.
unfoldable pub next_phase : JobPhase → JobPhase
next_phase bootstrap = discovery
next_phase discovery = collect
next_phase collect = validation
next_phase validation = phase1_complete
next_phase phase1_complete = incremental
next_phase incremental = incremental

-- `rate <= 0.05` of the last discovery run
abbrev low_run : DiscoveryRun → Bool
low_run r = not (exceeds (rate r.new_candidates r.discovered_total) 50)

abbrev streak : ℕ → List DiscoveryRun → ℕ
streak old [] = old
streak old (r ∷ rs) = if low_run r then old + 1 else 0

-- state["low_discovery_streak"] after the run
unfoldable pub low_run_streak : String → ℕ → List DiscoveryRun → ℕ
low_run_streak job old runs = streak old (recent_discovery_runs job 1 runs)

abbrev pub head_rate : List Run → Rate
head_rate [] = zero_rate
head_rate (r ∷ rs) = rate r.error_count r.fetched_count

-- The error rate of the job's latest row in run_history.
unfoldable pub error_rate : String → List Run → Rate
error_rate job runs = head_rate (for_job job 1 runs)

-- The signals that `_advance_phase` gathers; the counts of the other tables are given.
unfoldable pub gather :
    String
    → (queue_empty : Bool) (entity_count open_reviews old_streak : ℕ) → List DiscoveryRun
    → List Run
    → PhaseSignals
unfolding error_rate low_run_streak
gather job queue_empty entity_count open_reviews old_streak discovery_runs runs = record {
  queue_empty = queue_empty;
  entity_count = entity_count;
  error_rate = error_rate job runs;
  unresolved_review_count = open_reviews;
  discovery_saturated = is_saturated job default discovery_runs;
  consecutive_low_discovery_runs = low_run_streak job old_streak discovery_runs;
}

-- The new phase by the signals.
unfoldable pub advance : PhaseSignals → Conditions → JobPhase → JobPhase
unfolding phase1_conditions_met
advance s c incremental = incremental
advance s c discovery =
    if s.queue_empty && s.discovery_saturated
    then collect
    else if not s.queue_empty
    then collect
    else discovery
advance s c collect = if s.queue_empty && s.discovery_saturated then validation else collect
advance s c validation = if (phase1_conditions_met s c).0 then phase1_complete else validation
advance s c phase1_complete = incremental
advance s c bootstrap = bootstrap
