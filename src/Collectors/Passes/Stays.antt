-- ===== src/Collectors/Passes/Stays.antt =====
-- What the steps of a pass leave alone: db_collector_os/collectors/pipeline.py.
use db_collector_os.Prelude.{
  ◌≡◌, refl, ap, ◌∙◌, some, String, Bool, false, List, if-intro, first-update_same,
}
use db_collector_os.Models.Enums.{
  JobPhase, bootstrap, discovery, collect, validation, phase1_complete, incremental, is_phase,
}
use db_collector_os.Models.Json.{Fields, get_field}
use db_collector_os.JobRegistry.{Job, has_id, get, set_phase}
use db_collector_os.JobRegistry.Held.{OnlyHeld, set_phase-OnlyHeld}
use db_collector_os.RunHistory.{Run}
use db_collector_os.Checkpoints.{Checkpoint}
use db_collector_os.Collectors.Context.{Context, Pass, Adapter, World, no_outcome, books}
use db_collector_os.Collectors.Pages.{promote_new_candidates}
use db_collector_os.Collectors.Drain.Bounds.{drain_fetch_queue-Accounted}
use db_collector_os.Collectors.Passes.{
  seed_first, is_given, run_seed_discovery, discover_in, gather_pages, advance_phase, phase_set,
}
use db_collector_os.Models.Json.Lookup.{get_field-set_other}

module _ (w : World) (j : Job) where
  -- From `c` to `d` the run stays, the job's row too, and no further job is running.
  pub record Stays (c d : Context) : Type 0 where
    pub runs : d.runs ≡ c.runs
    pub job : (k : Job) → get j.job_id c.jobs ≡ some k → (x : Job) × (get j.job_id d.jobs ≡ some x)
    pub held : (holds : String → Bool) → OnlyHeld holds c.jobs → OnlyHeld holds d.jobs

  Stays-books : (c d : Context) → books d ≡ books c → Stays c d
  Stays-books c d h = record {
    runs = ap (λ (b : List Job × (List Run × List Checkpoint)). b.1.0) h;
    job = λ k e. (k, rw (ap (λ (b : List Job × (List Run × List Checkpoint)). b.0) h) e);
    held = λ holds o. rw (ap (λ (b : List Job × (List Run × List Checkpoint)). b.0) h) o;
  }

  pub Stays-set_phase :
      (phase : JobPhase) (c : Context)
      → Stays c (record c { jobs = set_phase c.now j.job_id phase c.jobs })
  unfolding set_phase get
  Stays-set_phase phase c = record {
    runs = refl;
    job = λ k e. (_, first-update_same (has_id j.job_id) _ (λ _. refl) c.jobs k e);
    held = λ holds. set_phase-OnlyHeld holds c.now j.job_id phase c.jobs;
  }

  Stays-trans : (c d e : Context) → Stays c d → Stays d e → Stays c e
  Stays-trans c d e h k = record {
    runs = k.runs ∙ h.runs;
    job = λ x q. let (y, r) = h.job x q in k.job y r;
    held = λ holds o. k.held holds (h.held holds o);
  }

  discover_in-Stays : (phase : JobPhase) (c : Context) → Stays c (discover_in w phase j c).0
  unfolding run_seed_discovery
  discover_in-Stays bootstrap c = Stays-books c _ refl
  discover_in-Stays discovery c = Stays-books c _ refl
  discover_in-Stays collect c = Stays-books c _ refl
  discover_in-Stays validation c = Stays-books c _ refl
  discover_in-Stays phase1_complete c = Stays-books c _ refl
  discover_in-Stays incremental c = Stays-books c _ refl

  pub gather_pages-Stays : (a : Adapter) (c : Context) → Stays c (gather_pages w j a c).ctx
  unfolding gather_pages promote_new_candidates
  gather_pages-Stays a c =
      let found = discover_in w j.phase j c in
      let p : Pass = record {
        ctx = promote_new_candidates w j found.0;
        outcome = record no_outcome { discovered = found.1 };
        raised = false;
      } in
      let s = discover_in-Stays j.phase c in
      Stays-trans c p.ctx _ (record { runs = s.runs; job = s.job; held = s.held })
        (Stays-books p.ctx _ (drain_fetch_queue-Accounted w j a p).kept)

  phase_set-Stays : (phase : JobPhase) (c : Context) → Stays c (phase_set w j phase c)
  phase_set-Stays phase c =
      if-intro (Stays c) (is_phase phase j.phase) _ _ (λ _. Stays-books c c refl)
        (λ _. Stays-set_phase phase c)

  pub advance_phase-Stays : (state : Fields) (c : Context) → Stays c (advance_phase w j state c).1.1
  unfolding advance_phase
  advance_phase-Stays state c =
      if-intro (λ (r : JobPhase × (Fields × Context)). Stays c r.1.1) (is_phase j.phase incremental)
        _ _ (λ _. Stays-books c c refl) (λ _. phase_set-Stays _ c)

  pub advance_phase_names :
      (state : Fields) (c : Context)
      → get_field "current_run_id" (advance_phase w j state c).1.0
        ≡ get_field "current_run_id" state
  unfolding advance_phase
  advance_phase_names state c =
      if-intro
        (λ (r : JobPhase × (Fields × Context)).
          get_field "current_run_id" r.1.0 ≡ get_field "current_run_id" state)
        (is_phase j.phase incremental) _ _ (λ _. refl)
        (λ _. get_field-set_other "current_run_id" "low_discovery_streak" _ state refl)

  pub seed_first-Stays : (state : Fields) (c : Context) → Stays c (seed_first w j state c).0
  unfolding run_seed_discovery
  seed_first-Stays state c =
      if-intro (λ (r : Context × Fields). Stays c r.0) (is_given (get_field "seeded" state)) _ _
        (λ _. Stays-books c c refl) (λ _. Stays-books c _ refl)

  pub seed_first_names :
      (state : Fields) (c : Context)
      → get_field "current_run_id" (seed_first w j state c).1 ≡ get_field "current_run_id" state
  seed_first_names state c =
      if-intro
        (λ (r : Context × Fields).
          get_field "current_run_id" r.1 ≡ get_field "current_run_id" state)
        (is_given (get_field "seeded" state)) _ _ (λ _. refl)
        (λ _. get_field-set_other "current_run_id" "seeded" _ state refl)
