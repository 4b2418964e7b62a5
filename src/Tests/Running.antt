-- ===== src/Tests/Running.antt =====
-- The scheduler and the end of a run (db_collector_os/scheduler.py, db_collector_os/worker.py).
use db_collector_os.Prelude.{ℕ, ◌≡◌, refl, String, none, some, true, List, [], ◌∷◌}
use db_collector_os.Models.Enums.{JobStatus, collect}
use db_collector_os.Models.Json.{dict, str, field, end}
use db_collector_os.JobRegistry.{Job, get, due_jobs}
use db_collector_os.RunHistory
use db_collector_os.RunHistory.{Run, Counts, new_run}
use db_collector_os.Checkpoints.{new_row}
use db_collector_os.Worker.{System, one_error, run_job_and_record, record_failure}
use db_collector_os.Worker.Recorded.{
  Recorded, FailedRun, run_job_and_record-Recorded, failure_recorded,
}
use db_collector_os.Scheduler.{ResourceThresholds, ResourceSnapshot, tick}
use db_collector_os.Scheduler.Admission.{Admitted, tick-Admitted}

abbrev job : Job
job = record {
  job_id = "j";
  job_name = "Makers";
  category = "c";
  target_db = "d";
  target_table = "t";
  collector_type = "official_site";
  adapter = "a";
  priority = 50;
  enabled = true;
  phase = collect;
  schedule = "@daily";
  max_pages = 10;
  max_depth = 2;
  concurrency = 1;
  rate_limit = 1000000;
  config_json = dict end;
  status = JobStatus.running;
  created_at = 1;
  updated_at = 2;
  last_started_at = some 2;
  last_finished_at = none;
  next_run_at = some 1;
}

abbrev system : System
system = record {
  jobs = job ∷ [];
  runs = new_run 2000000 "r1" "j" ∷ [];
  checkpoints =
      new_row 2000000 "j" (some "r1") (some collect) (field "current_run_id" (str "r1") end) ∷ [];
  queue = record { items = []; next_id = 1 };
}

get_j : get "j" system.jobs ≡ some job
unfolding get
get_j = refl

run_job_and_record-Recorded_example :
    (s' : System) × ((status : JobStatus) × (run_job_and_record 5000000 "r2" 5000000 "j" collect
          (some one_error)
          system
        ≡ some (s', status))
      × Recorded "j" s' status)
run_job_and_record-Recorded_example =
    run_job_and_record-Recorded 5000000 "r2" 5000000 "j" collect (some one_error) system job get_j

fresh_id : RunHistory.get "r2" system.runs ≡ none
unfolding RunHistory.get
fresh_id = refl

failure_recorded_example :
    (id : String) × ((r : Run) × (RunHistory.get id
          (record_failure 5000000 "r2" "j" collect system).runs
        ≡ some r)
      × FailedRun 5000000 "r2" "j" system id r)
failure_recorded_example = failure_recorded 5000000 "r2" "j" collect system fresh_id

abbrev thresholds : ResourceThresholds
thresholds = record {
  cpu_percent_max = 8000;
  ram_percent_max = 8500;
  swap_percent_max = 5000;
  disk_percent_max = 9000;
  load_average_max = 400;
  check_interval_seconds = 15;
}

abbrev measured : ℕ → ResourceSnapshot
measured k = record {
  cpu_percent = 7900;
  ram_percent = 1000;
  swap_percent = 0;
  disk_percent = 9001;
  load_average = 120;
}

abbrev waiting : List Job
waiting = record job { status = JobStatus.idle } ∷ []

tick-Admitted_example :
    Admitted thresholds measured 9000000 0
      (due_jobs 9000000 waiting)
      waiting
      (tick thresholds measured 9000000 waiting).0
      (tick thresholds measured 9000000 waiting).1
tick-Admitted_example = tick-Admitted thresholds measured 9000000 waiting
