-- ===== src/Tests/Phases.antt =====
-- Discovery's saturation and the phases (db_collector_os/discovery/saturation.py,
-- db_collector_os/collectors/phase_manager.py).
use db_collector_os.Prelude.{
  ℕ, ◌≡◌, ◌≤◌, ◌↔◌, refl, String, none, some, true, false, List, [], ◌∷◌, All, length,
}
use db_collector_os.Models.Enums.{validation}
use db_collector_os.RunHistory.{DiscoveryRun, recent_discovery_runs}
use db_collector_os.Discovery.Saturation.{default, is_saturated, IsLow, is_saturated_iff}
use db_collector_os.Collectors.Phases.{Conditions, PhaseSignals, phase1_conditions_met, advance}
use db_collector_os.Collectors.Phases.Progress.{Met, Step, phase1_conditions_met_iff, advance-Step}

abbrev low_run : String → ℕ → DiscoveryRun
low_run id new = record {
  job_id = "j";
  run_id = id;
  discovered_total = 100;
  new_candidates = new;
  duplicate_candidates = 100;
  accepted = 0;
  rejected = 0;
  created_at = 5;
}

abbrev dry_runs : List DiscoveryRun
dry_runs = low_run "r1" 5 ∷ low_run "r2" 0 ∷ low_run "r3" 1 ∷ []

is_saturated_iff_example : (is_saturated "j" default dry_runs ≡ true) ↔ (
    (3 ≤ length (recent_discovery_runs "j" 5 dry_runs))
    × All (IsLow 50) (recent_discovery_runs "j" 5 dry_runs))
is_saturated_iff_example = is_saturated_iff "j" default dry_runs

dry_runs_saturated : is_saturated "j" default dry_runs ≡ true
unfolding is_saturated recent_discovery_runs
dry_runs_saturated = refl

abbrev conditions : Conditions
conditions = record {
  queue_empty = none;
  min_entity_count = some 10;
  max_error_rate = some 100;
  max_unresolved_review = none;
  require_discovery_saturation = some false;
  consecutive_low_discovery_runs = none;
}

abbrev signals : PhaseSignals
signals = record {
  queue_empty = true;
  entity_count = 12;
  error_rate = record { numerator = 1; denominator = 20 };
  unresolved_review_count = 4;
  discovery_saturated = false;
  consecutive_low_discovery_runs = 3;
}

conditions_met : (phase1_conditions_met signals conditions).0 ≡ true
unfolding phase1_conditions_met
conditions_met = refl

phase1_conditions_met_iff_example :
    ((phase1_conditions_met signals conditions).0 ≡ true) ↔ Met signals conditions
phase1_conditions_met_iff_example = phase1_conditions_met_iff signals conditions

advance-Step_example : Step signals conditions validation (advance signals conditions validation)
advance-Step_example = advance-Step signals conditions validation
