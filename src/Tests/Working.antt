-- ===== src/Tests/Working.antt =====
-- The loop of a worker (db_collector_os/worker.py).
use db_collector_os.Prelude.{refl, ◌==◌, none, false, [], ◌∷◌}
use db_collector_os.Models.Enums.{idle, completed}
use db_collector_os.JobRegistry.Held.{OnlyHeld}
use db_collector_os.Worker.Loop.{WorkerStatus, WorkerRow, Site, Round, run_forever}
use db_collector_os.Worker.Loop.Leaves.{Stopped, run_forever-Stopped}
use db_collector_os.RunHistory.{Run, new_run}
use db_collector_os.Collectors.Context.{Context}
use db_collector_os.Tests.Crawling.{job, context, world}

abbrev worker : WorkerRow
worker = record {
  worker_id = "w";
  hostname = "h";
  pid = 1;
  status = WorkerStatus.idle;
  current_job_id = none;
  started_at = 1;
  last_heartbeat = 1;
}

-- A job that is due, and a worker that is idle.
abbrev site : Site
site = record {
  ctx = record context { jobs = record job { status = idle } ∷ [] };
  workers = worker ∷ [];
}

abbrev round : Round
round = record { asked = 700; answered = 701; slept = 5000000 }

abbrev stopped_site : Site
stopped_site = run_forever world (λ a b. a == b) "w" 5000000 900 (round ∷ round ∷ []) 0 site

run_forever-Stopped_example :
    Stopped "w" stopped_site.workers × OnlyHeld (λ k. false) stopped_site.ctx.jobs
run_forever-Stopped_example =
    run_forever-Stopped world (λ a b. a == b) "w" 5000000 900 (λ k. false) (round ∷ round ∷ []) 0
      site (refl, tt) (record { row = worker; found = refl; no_job = refl })

abbrev bad_run : Run
bad_run = record (new_run 1000000 "r0" "j") {
  status = completed;
  fetched_count = 10;
  error_count = 9;
}

abbrev after_bad_run : Context
after_bad_run = record context { runs = bad_run ∷ [] }
