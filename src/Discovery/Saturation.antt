-- ===== src/Discovery/Saturation.antt =====
-- db_collector_os/discovery/saturation.py: whether discovery still finds new candidates. A rate is
-- compared with the threshold as a fraction, and the threshold is in thousandths.
use db_collector_os.Prelude.{
  ℕ, ◌*◌, ◌≤◌, ◌<◌, ◌≡◌, refl, ◌↔◌, String, Bool, true, false, ◌&&◌, List, [], ◌∷◌, arith, leb, ltb,
  ◌=?◌, if◌then◌else◌, length, All,
}
use db_collector_os.RunHistory.{DiscoveryRun, recent_discovery_runs}

pub record SaturationConfig : Type 0 where
  pub window_runs : ℕ
  pub new_rate_threshold : ℕ
  pub min_runs_before_check : ℕ

-- SaturationConfig()
abbrev pub default : SaturationConfig
default = record { window_runs = 5; new_rate_threshold = 50; min_runs_before_check = 3 }

-- new_candidates / discovered_total ≤ threshold, for a total that is not 0
abbrev pub is_low : ℕ → DiscoveryRun → Bool
is_low threshold r = leb (r.new_candidates * 1000) (threshold * r.discovered_total)

-- The loop over the runs with the test after it: a total of 0 returns False.
abbrev pub all_low : ℕ → List DiscoveryRun → Bool
all_low threshold [] = true
all_low threshold (r ∷ rs) =
    if r.discovered_total =? 0 then false else is_low threshold r && all_low threshold rs

-- The first component of the result; the second is a text for the log.
unfoldable pub is_saturated : String → SaturationConfig → List DiscoveryRun → Bool
is_saturated job config runs =
    let recent = recent_discovery_runs job config.window_runs runs in
    if ltb (length recent) config.min_runs_before_check
    then false
    else all_low config.new_rate_threshold recent

-- A run that has seen a candidate, and found new ones at a rate of at most the threshold.
pub record IsLow (threshold : ℕ) (r : DiscoveryRun) : Type 0 where
  pub seen : 0 < r.discovered_total
  pub low : r.new_candidates * 1000 ≤ threshold * r.discovered_total

all_low-All :
    (threshold : ℕ) (rs : List DiscoveryRun)
    → all_low threshold rs ≡ true
    → All (IsLow threshold) rs
all_low-All threshold [] h = tt
all_low-All threshold (r ∷ rs) h =
    (record { seen = ground arith; low = ground arith }, all_low-All threshold rs (ground arith))

All-all_low :
    (threshold : ℕ) (rs : List DiscoveryRun)
    → All (IsLow threshold) rs
    → all_low threshold rs ≡ true
All-all_low threshold [] h = refl
All-all_low threshold (r ∷ rs) h = ground (arith, h.0.seen, h.0.low, All-all_low threshold rs h.1)

-- Discovery counts as saturated exactly when the window holds the least number of runs and every
-- run in it has seen at least one candidate and found new ones at a rate of at most the threshold.
pub is_saturated_iff :
    (job : String) (config : SaturationConfig) (runs : List DiscoveryRun)
    → (is_saturated job config runs ≡ true) ↔ (
        (config.min_runs_before_check ≤ length (recent_discovery_runs job config.window_runs runs))
        × All (IsLow config.new_rate_threshold) (recent_discovery_runs job config.window_runs runs))
unfolding is_saturated
is_saturated_iff job config runs =
    let recent = recent_discovery_runs job config.window_runs runs in
    (
      λ h. (ground arith, all_low-All config.new_rate_threshold recent (ground arith)),
      λ h. ground (arith, h.0, All-all_low config.new_rate_threshold recent h.1),
    )
