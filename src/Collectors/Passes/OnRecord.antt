-- ===== src/Collectors/Passes/OnRecord.antt =====
-- The run that `run_once` of db_collector_os/collectors/pipeline.py writes into, up to its end.
use db_collector_os.Prelude.{◌≡◌, refl, ap, ◌∙◌, String, Option, none, some, false, ◌==◌, if-intro}
use db_collector_os.Models.Enums.{
  JobPhase, RunStatus, bootstrap, discovery, collect, validation, phase1_complete, incremental,
}
use db_collector_os.Models.Json.{Fields, str, get_field}
use db_collector_os.JobRegistry.{Job, get}
use db_collector_os.RunHistory
use db_collector_os.RunHistory.{Run, has_run_id, is_running, new_run}
use db_collector_os.Checkpoints.{load}
use db_collector_os.Checkpoints.Resume.{load-save}
use db_collector_os.Worker.{current_run_id, find_run}
use db_collector_os.Collectors.Context.{Context, RunOutcome, Pass, Adapter, World}
use db_collector_os.Collectors.Passes.{
  Opened, seed_first, open_run, open_at, bootstrap_at, gather_pages, advance_phase, stats_recorded,
  close_pass, recovered, run_after, run_with, run_once,
}
use db_collector_os.Collectors.Passes.Opening.{Named, open_at-Named}
use db_collector_os.Collectors.Passes.Stays.{
  Stays-set_phase, gather_pages-Stays, advance_phase-Stays, advance_phase_names, seed_first-Stays,
  seed_first_names,
}

-- The run is in the table and running, the job's checkpoint names it, and the job's row is there.
pub record OnRecord (job id : String) (c : Context) : Type 0 where
  pub run : (r : Run) × (RunHistory.get id c.runs ≡ some r) × (r.status ≡ RunStatus.running)
  pub names : get_field "current_run_id" (load job c.checkpoints).state ≡ some (str id)
  pub given : (id == "") ≡ false
  pub row : (k : Job) × (get job c.jobs ≡ some k)

abbrev Ended : String → Context × Option RunOutcome → Type 0
Ended job (c, none) = Unit
Ended job (c, some o) = (id : String) × OnRecord job id c

module _ (w : World) (j : Job) where
  close_pass-Ended :
      (id : String) (state : Fields) (p : Pass)
      → Named id p.ctx.runs state
      → ((k : Job) × (get j.job_id p.ctx.jobs ≡ some k))
      → Ended j.job_id (close_pass w j id state p)
  close_pass-Ended id state p named job =
      if-intro (Ended j.job_id) p.raised _ _ (λ _. tt)
        (λ _.
          let c = stats_recorded w j id p.outcome p.ctx in
          let stays = advance_phase-Stays w j state c in
          let d = (advance_phase w j state c).1.1 in
          (
            id,
            record {
              run = rw stays.runs named.run;
              names =
                  ap (λ l. get_field "current_run_id" l.state)
                    (load-save d.now j.job_id (some id) (some (advance_phase w j state c).0)
                      (advance_phase w j state c).1.0 d.checkpoints).0
                  ∙ (advance_phase_names w j state c ∙ named.names);
              given = named.given;
              row = let (k, e) = job in stays.job k e;
            },
          ))

module _ (w : World) (a : Adapter) (id : String) where
  run_after-Ended :
      (j : Job) (state : Fields) (c : Context)
      → Named id c.runs state
      → ((k : Job) × (get j.job_id c.jobs ≡ some k))
      → Ended j.job_id (run_after w a id (j, (state, c)))
  run_after-Ended j state c named job =
      let stays = gather_pages-Stays w j a c in
      close_pass-Ended w j id state (gather_pages w j a c)
        (record { run = rw stays.runs named.run; names = named.names; given = named.given })
        (let (k, e) = job in stays.job k e)

  bootstrapped-Ended :
      (j : Job) (phase : JobPhase) (state : Fields) (c : Context)
      → Named id c.runs state
      → ((k : Job) × (get j.job_id c.jobs ≡ some k))
      → Ended j.job_id (run_after w a id (bootstrap_at w phase j state c))
  bootstrapped-Ended j bootstrap state c named job =
      let seeded = seed_first w j state c in
      let s = seed_first-Stays w j state c in
      let t = Stays-set_phase w j discovery seeded.0 in
      run_after-Ended (record j { phase = discovery }) seeded.1 _
        (record {
          run = rw s.runs named.run;
          names = seed_first_names w j state c ∙ named.names;
          given = named.given;
        })
        (let (k, e) = job in let (l, f) = s.job k e in t.job l f)
  bootstrapped-Ended j discovery state c named job = run_after-Ended j state c named job
  bootstrapped-Ended j collect state c named job = run_after-Ended j state c named job
  bootstrapped-Ended j validation state c named job = run_after-Ended j state c named job
  bootstrapped-Ended j phase1_complete state c named job = run_after-Ended j state c named job
  bootstrapped-Ended j incremental state c named job = run_after-Ended j state c named job

module _ (w : World) (j : Job) where
  pub open_at_jobs :
      (state : Fields) (id : Option String) (r : Option Run) (c : Context)
      → (open_at w j state id r c).ctx.jobs ≡ c.jobs
  open_at_jobs state none r c = refl
  open_at_jobs state (some id) none c = refl
  open_at_jobs state (some id) (some r) c =
      if-intro (λ (o : Opened). o.ctx.jobs ≡ c.jobs) (is_running r) _ _ (λ _. refl) (λ _. refl)

  run_with-Ended :
      (a : Option Adapter) (c : Context)
      → RunHistory.get (w.new_id c.drawn) c.runs ≡ none
      → (w.new_id c.drawn == "") ≡ false
      → ((k : Job) × (get j.job_id c.jobs ≡ some k))
      → Ended j.job_id (run_with w j a c)
  unfolding open_run
  run_with-Ended none c fresh given job = tt
  run_with-Ended (some a) c fresh given job =
      let d = recovered w j c in
      let state = (load j.job_id c.checkpoints).state in
      let named = open_at-Named w j state _ _ d fresh given refl refl in
      bootstrapped-Ended w a (open_run w j d).run_id j j.phase (open_run w j d).state _
        (record { run = named.run; names = named.names; given = named.given })
        (rw (open_at_jobs state (current_run_id state) (find_run (current_run_id state) c.runs) d)
          job)

  Ended-some :
      (r : Context × Option RunOutcome) (o : RunOutcome)
      → Ended j.job_id r
      → r.1 ≡ some o
      → (id : String) × OnRecord j.job_id id r.0
  Ended-some (c, none) o h e = absurd (cc e)
  Ended-some (c, some x) o h e = h

  pub run_once-OnRecord :
      (c : Context) (o : RunOutcome)
      → RunHistory.get (w.new_id c.drawn) c.runs ≡ none
      → (w.new_id c.drawn == "") ≡ false
      → ((k : Job) × (get j.job_id c.jobs ≡ some k))
      → (run_once w j c).1 ≡ some o
      → (id : String) × OnRecord j.job_id id (run_once w j c).0
  unfolding run_once
  run_once-OnRecord c o fresh given job e =
      let a = w.get_adapter j.adapter in
      Ended-some (run_with w j a c) o (run_with-Ended a c fresh given job) e
