-- ===== src/Tests/Runs.antt =====
-- Runs and checkpoints (db_collector_os/run_history.py, db_collector_os/checkpoint.py).
use db_collector_os.Prelude.{
  ◌≡◌, ◌≢◌, refl, inl, String, none, some, true, List, [], ◌∷◌, arith, Has,
}
use db_collector_os.Models.Enums.{RunStatus, running, completed, failed, collect}
use db_collector_os.Models.Json.{field, end, bool}
use db_collector_os.RunHistory.{Run, Counts, get, new_run}
use db_collector_os.RunHistory.Immutable.{do_start, do_finish, run_ops, finished_forever}
use db_collector_os.Checkpoints.{load, save}
use db_collector_os.Checkpoints.Resume.{load-save}

abbrev no_counts : Counts
no_counts = record {
  discovered_count = none;
  fetched_count = none;
  inserted_count = none;
  updated_count = none;
  duplicate_count = none;
  review_count = none;
  error_count = some 1;
}

abbrev over : Run
over = record (new_run 1000000 "r0" "j") { status = completed; fetched_count = 7 }

abbrev runs : List Run
runs = over ∷ new_run 5000000 "r1" "j" ∷ []

completed_ne : ◌≢◌ {A = RunStatus} completed running
completed_ne e = ground arith

failed_ne : ◌≢◌ {A = RunStatus} failed running
failed_ne e = ground arith

get_r1 : get "r1" runs ≡ some (new_run 5000000 "r1" "j")
unfolding get
get_r1 = refl

finished_forever_example :
    Has over
      (run_ops (do_finish 6000000 "r0" failed no_counts ∷ do_start 7000000 "r2" "j" ∷ []) runs)
finished_forever_example =
    finished_forever (do_finish 6000000 "r0" failed no_counts ∷ do_start 7000000 "r2" "j" ∷ []) over
      runs completed_ne (inl refl)

load-save_example :
    (load "j" (save 5000000 "j" (some "r1") (some collect) (field "seeded" (bool true) end) [])
      ≡ record {
        job_id = "j";
        run_id = some "r1";
        phase = some collect;
        state = field "seeded" (bool true) end;
      })
    × ((k : String)
        → k ≢ "j"
        → load k (save 5000000 "j" (some "r1") (some collect) (field "seeded" (bool true) end) [])
          ≡ load k [])
load-save_example =
    load-save 5000000 "j" (some "r1") (some collect) (field "seeded" (bool true) end) []
