-- ===== src/Tests/Registry.antt =====
-- Jobs of a small registry (db_collector_os/job_registry.py).
use db_collector_os.Prelude.{
  ℕ, ◌≡◌, ◌≢◌, refl, ◌↔◌, String, Option, none, some, true, false, List, [], ◌∷◌, arith, ◌==◌,
  eq_iff, Has,
}
use db_collector_os.Clock.{now_iso}
use db_collector_os.Models.Enums.{JobStatus, idle, queued, failed, completed, bootstrap, collect}
use db_collector_os.Models.Json.{dict, end}
use db_collector_os.JobRegistry.{Job, JobSpec, create, get, due_jobs, claim_queued}
use db_collector_os.JobRegistry.Schedule.{compute_next_run}
use db_collector_os.JobRegistry.Due.{IsDue, Has-due_jobs}
use db_collector_os.JobRegistry.Rows.{IsKeyed, run_ops, do_mark_queued, do_set_enabled, RowIs}
use db_collector_os.JobRegistry.Claims.{claim_queued-succeeds, claim_excludes}
use db_collector_os.JobRegistry.Parked.{parked_stays, failed_parked, HasStatus}
use db_collector_os.JobRegistry.Sync.{create_existing, KeepsProgress, FollowsSpec}

abbrev job : String → ℕ → JobStatus → Option ℕ → Job
job id priority status next = record {
  job_id = id;
  job_name = "figures";
  category = "figure";
  target_db = "figures";
  target_table = "items";
  collector_type = "official_site";
  adapter = "figure_official_site";
  priority = priority;
  enabled = true;
  phase = collect;
  schedule = "@every 15m";
  max_pages = 200;
  max_depth = 3;
  concurrency = 2;
  rate_limit = 1000000;
  config_json = dict end;
  status = status;
  created_at = 1;
  updated_at = 1;
  last_started_at = none;
  last_finished_at = none;
  next_run_at = next;
}

abbrev spec : String → JobSpec
spec id = record {
  job_id = id;
  job_name = "figures";
  category = "figure";
  target_db = "figures";
  target_table = "items";
  collector_type = "official_site";
  adapter = "figure_official_site";
  priority = 70;
  enabled = true;
  schedule = "@daily";
  max_pages = 20;
  max_depth = 3;
  concurrency = 2;
  rate_limit = 2000000;
  config = dict end;
  phase = bootstrap;
}

abbrev registry : List Job
registry =
    job "a" 50 queued none
    ∷ job "b" 60 completed (some 5)
    ∷ job "c" 90 failed (some 5)
    ∷ job "d" 60 idle none
    ∷ []

every_fifteen_minutes : compute_next_run "  @every 15m " 2000000 ≡ 902
unfolding compute_next_run
every_fifteen_minutes = refl

unknown_schedule : compute_next_run "@every 15w" 2000000 ≡ 3602
unfolding compute_next_run
unknown_schedule = refl

due : due_jobs 7000000 registry ≡ job "d" 60 idle none ∷ job "b" 60 completed (some 5) ∷ []
unfolding due_jobs
due = refl

ne : (s t : String) → (s == t) ≡ false → s ≢ t
ne s t h e = ground (arith, eq_iff s t)

keyed : IsKeyed registry
keyed = (
  (ne "b" "a" refl, (ne "c" "a" refl, (ne "d" "a" refl, tt))),
  ((ne "c" "b" refl, (ne "d" "b" refl, tt)), ((ne "d" "c" refl, tt), (tt, tt))),
)

a_queued : RowIs (λ j. (j.status ≡ queued) × (j.enabled ≡ true)) (get "a" registry)
unfolding get
a_queued = (refl, refl)

a_claimed : (claim_queued 7000000 "a" registry).1 ≡ true
a_claimed = (claim_queued-succeeds 7000000 "a" registry keyed).1 a_queued

Has-due_jobs_example : Has (job "b" 60 completed (some 5)) (due_jobs 7000000 registry) ↔ (
    Has (job "b" 60 completed (some 5)) registry
    × IsDue (now_iso 7000000) (job "b" 60 completed (some 5)))
Has-due_jobs_example = Has-due_jobs 7000000 registry (job "b" 60 completed (some 5))

claim_excludes_example :
    (claim_queued 9000000 "a" (
      run_ops
        ((8000000, do_mark_queued "a") ∷ (8000000, do_set_enabled "a" true) ∷ [])
        (claim_queued 7000000 "a" registry).0)).1
    ≡ false
claim_excludes_example =
    claim_excludes 7000000 9000000 "a" registry
      ((8000000, do_mark_queued "a") ∷ (8000000, do_set_enabled "a" true) ∷ []) keyed a_claimed
      (tt, (tt, tt))

parked_stays_example :
    RowIs (HasStatus failed) (get "c" (run_ops ((8000000, do_mark_queued "c") ∷ []) registry))
    × ((claim_queued 9000000 "c" (run_ops ((8000000, do_mark_queued "c") ∷ []) registry)).1 ≡ false)
parked_stays_example =
    parked_stays 9000000 "c" failed registry ((8000000, do_mark_queued "c") ∷ []) failed_parked
      keyed (tt, tt) (unfold get in refl)

get_b : get "b" registry ≡ some (job "b" 60 completed (some 5))
unfolding get
get_b = refl

create_existing_example :
    (k : Job) × (get "b" (create 8000000 (spec "b") registry) ≡ some k)
    × KeepsProgress (job "b" 60 completed (some 5)) k
    × FollowsSpec (spec "b") k
create_existing_example =
    create_existing 8000000 (spec "b") registry (job "b" 60 completed (some 5)) get_b

get_e : get "e" registry ≡ none
unfolding get
get_e = refl
