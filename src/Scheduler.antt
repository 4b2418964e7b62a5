-- ===== src/Scheduler.antt =====
-- db_collector_os/scheduler.py and db_collector_os/resource_controller.py. What psutil measures is a
-- parameter, the snapshot of each check in turn; percentages and loads are in hundredths.
pub mod Admission
use db_collector_os.Prelude.{
  ℕ, suc, Bool, true, false, not, ◌&&◌, List, [], ◌∷◌, ltb, if◌then◌else◌,
}
use db_collector_os.JobRegistry.{Job, due_jobs, mark_queued}

pub record ResourceSnapshot : Type 0 where
  pub cpu_percent : ℕ
  pub ram_percent : ℕ
  pub swap_percent : ℕ
  pub disk_percent : ℕ
  pub load_average : ℕ

pub record ResourceThresholds : Type 0 where
  pub cpu_percent_max : ℕ
  pub ram_percent_max : ℕ
  pub swap_percent_max : ℕ
  pub disk_percent_max : ℕ
  pub load_average_max : ℕ
  pub check_interval_seconds : ℕ

-- The first component of the result; the second is a text for the log.
unfoldable pub can_admit_new_job : ResourceThresholds → ResourceSnapshot → Bool
can_admit_new_job t snap =
    if ltb t.cpu_percent_max snap.cpu_percent
    then false
    else if ltb t.ram_percent_max snap.ram_percent
    then false
    else if ltb t.swap_percent_max snap.swap_percent
    then false
    else if ltb t.disk_percent_max snap.disk_percent
    then false
    else if ltb t.load_average_max snap.load_average
    then false
    else true

module _ (t : ResourceThresholds) (snapshot : ℕ → ResourceSnapshot) where
  -- The loop over the due jobs from the check number `k` on: the new table and the number admitted.
  unfoldable pub admit : ℕ → ℕ → List Job → List Job → List Job × ℕ
  unfolding can_admit_new_job mark_queued
  admit now k [] jobs = (jobs, 0)
  admit now k (j ∷ due) jobs =
      let rest = admit now (suc k) due (mark_queued now j.job_id jobs) in
      if can_admit_new_job t (snapshot k) then (rest.0, suc rest.1) else (jobs, 0)

  unfoldable pub tick : ℕ → List Job → List Job × ℕ
  unfolding admit due_jobs
  tick now jobs = admit now 0 (due_jobs now jobs) jobs
