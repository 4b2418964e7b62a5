-- ===== src/Collectors/Passes/Settled.antt =====
-- The rows of the fetch queue after `run_once` of db_collector_os/collectors/pipeline.py.
use db_collector_os.Prelude.{
  ℕ, zero, suc, ◌+◌, ◌*◌, ◌≡◌, refl, String, Option, none, some, ◌&&◌, ◌||◌, ◌==◌, List, [], ◌∷◌,
  arith, leb, ltb, if-intro, All,
}
use db_collector_os.Models.Enums.{
  JobPhase, bootstrap, discovery, collect, validation, phase1_complete, incremental, is_phase,
}
use db_collector_os.Models.Json.{Fields, get_field}
use db_collector_os.JobRegistry.{Job}
use db_collector_os.Fetching.Queue.{Item, FetchQueue}
use db_collector_os.Fetching.Queue.Settled.{
  IsIdle, Settled, enqueue-Settled, excuse, claim_next-Settled, requeue_for_revalidation-Settled,
  requeue_stale_fetching-Settled,
}
use db_collector_os.RunHistory.{Run, is_running}
use db_collector_os.Checkpoints.{load}
use db_collector_os.Worker.{current_run_id, find_run}
use db_collector_os.Collectors.Context.{Context, RunOutcome, Pass, Adapter, World}
use db_collector_os.Collectors.Pages.{ensure_seed_urls_queued}
use db_collector_os.Collectors.Drain.{
  Turn, go_on, stop, max_drain_wait, revalidate_after, ready_domains, claim_ready, sleep_or_stop,
  work, round, turn, drain, drain_fetch_queue,
}
use db_collector_os.Collectors.Passes.{
  Opened, seed_first, is_given, open_run, open_at, run_seed_discovery, discover_in, bootstrap_at,
  gather_pages, advance_phase, phase_set, stats_recorded, close_pass, recovered, run_after,
  run_with, run_once,
}
use db_collector_os.Collectors.Pages.Settled.{IsCalm, promote-Settled, process_queue_item-IsCalm}

module _ (w : World) (j : Job) where
  abbrev Calm : Pass → Type 0
  Calm p = IsCalm w j p

  abbrev CalmTurn : Turn → Type 0
  CalmTurn (stop q) = Calm q
  CalmTurn (go_on waited q) = Calm q

  sleep_or_stop-CalmTurn :
      (min_wait : Option ℕ) (waited : ℕ) (p : Pass)
      → Calm p
      → CalmTurn (sleep_or_stop (max_drain_wait j) min_wait waited p)
  sleep_or_stop-CalmTurn none waited p h = h
  sleep_or_stop-CalmTurn (some wait) waited p h =
      if-intro CalmTurn (ltb 0 (max_drain_wait j) && leb (waited + wait) (max_drain_wait j)) _ _
        (λ _. h) (λ _. h)

  work-CalmTurn :
      (a : Adapter) (min_wait : Option ℕ) (waited : ℕ) (p : Pass) (o : Option Item)
      → Settled j.job_id (excuse j.job_id o) p.ctx.fetch_queue
      → CalmTurn (work w j a min_wait waited p o)
  work-CalmTurn a min_wait waited p none h = sleep_or_stop-CalmTurn min_wait waited p (λ _. h)
  work-CalmTurn a min_wait waited p (some i) h = process_queue_item-IsCalm w j a i p h

  claim_ready-Settled :
      (domains : List String) (c : Context)
      → Settled j.job_id none c.fetch_queue
      → Settled j.job_id
          (excuse j.job_id (claim_ready j domains c).1)
          (claim_ready j domains c).0.fetch_queue
  claim_ready-Settled [] c h = h
  claim_ready-Settled (d ∷ ds) c h =
      claim_next-Settled j.job_id c.now (some (d ∷ ds)) c.fetch_queue h

  round-CalmTurn :
      (a : Adapter) (waited : ℕ) (p : Pass)
      → Settled j.job_id none p.ctx.fetch_queue
      → CalmTurn (round w j a waited p)
  unfolding ready_domains
  round-CalmTurn a waited p h =
      let ready = ready_domains j p.ctx in
      work-CalmTurn a ready.1.min_wait waited
        (record p { ctx = (claim_ready j ready.1.domains ready.0).0 }) _
        (claim_ready-Settled ready.1.domains ready.0 h)

  turn-CalmTurn : (a : Adapter) (waited : ℕ) (p : Pass) → Calm p → CalmTurn (turn w j a waited p)
  turn-CalmTurn a waited p h =
      if-intro CalmTurn (p.raised || leb j.max_pages p.outcome.fetched) _ _ (λ _. h)
        (λ f. round-CalmTurn a waited p (h (ground (arith, f))))

  after_turn :
      (a : Adapter) (attempts : ℕ) (t : Turn)
      → CalmTurn t
      → ((v : ℕ) (q : Pass) → Calm q → Calm (drain w j a attempts v q))
      → Calm (elim t [ stop q ↦ q | go_on v q ↦ drain w j a attempts v q ])
  after_turn a attempts (stop q) h k = h
  after_turn a attempts (go_on v q) h k = k v q h

  drain-IsCalm :
      (a : Adapter) (attempts waited : ℕ) (p : Pass) → Calm p → Calm (drain w j a attempts waited p)
  unfolding drain
  drain-IsCalm a zero waited p h = h
  drain-IsCalm a (suc attempts) waited p h =
      after_turn a attempts (turn w j a waited p) (turn-CalmTurn a waited p h)
        (λ v q k. drain-IsCalm a attempts v q k)

  discover_in-Settled :
      (phase : JobPhase) (c : Context)
      → Settled j.job_id none c.fetch_queue
      → Settled j.job_id none (discover_in w phase j c).0.fetch_queue
  unfolding run_seed_discovery
  discover_in-Settled discovery c h = h
  discover_in-Settled collect c h = h
  discover_in-Settled incremental c h =
      requeue_for_revalidation-Settled j.job_id c.now j.job_id (revalidate_after j) 500
        c.fetch_queue h
  discover_in-Settled bootstrap c h = h
  discover_in-Settled validation c h = h
  discover_in-Settled phase1_complete c h = h

  gather_pages-IsCalm :
      (a : Adapter) (c : Context)
      → Settled j.job_id none c.fetch_queue
      → Calm (gather_pages w j a c)
  unfolding gather_pages drain_fetch_queue
  gather_pages-IsCalm a c h =
      let found = discover_in w j.phase j c in
      drain-IsCalm a (j.max_pages * 3) 0 _
        (λ _. promote-Settled w j none found.0 (discover_in-Settled j.phase c h))

  phase_set_queue :
      (phase : JobPhase) (c : Context) → (phase_set w j phase c).fetch_queue ≡ c.fetch_queue
  phase_set_queue phase c =
      if-intro (λ (d : Context). d.fetch_queue ≡ c.fetch_queue) (is_phase phase j.phase) _ _
        (λ _. refl) (λ _. refl)

  advance_phase_queue :
      (state : Fields) (c : Context) → (advance_phase w j state c).1.1.fetch_queue ≡ c.fetch_queue
  unfolding advance_phase
  advance_phase_queue state c =
      if-intro (λ (r : JobPhase × (Fields × Context)). r.1.1.fetch_queue ≡ c.fetch_queue)
        (is_phase j.phase incremental) _ _ (λ _. refl) (λ _. phase_set_queue _ c)

  -- A pass that has returned an outcome leaves no row of the job being fetched.
  abbrev Returned : Context × Option RunOutcome → Type 0
  Returned (c, none) = Unit
  Returned (c, some o) = Settled j.job_id none c.fetch_queue

  close_pass-Returned :
      (id : String) (state : Fields) (p : Pass) → Calm p → Returned (close_pass w j id state p)
  close_pass-Returned id state p h =
      if-intro Returned p.raised _ _ (λ _. tt)
        (λ f. rw (advance_phase_queue state (stats_recorded w j id p.outcome p.ctx)) (h f))

  seeds-Settled :
      (now : ℕ) (urls : List String) (q : FetchQueue)
      → Settled j.job_id none q
      → Settled j.job_id none (ensure_seed_urls_queued w now j urls q).0
  unfolding ensure_seed_urls_queued
  seeds-Settled now [] q h = h
  seeds-Settled now (url ∷ urls) q h =
      if-intro (λ (r : FetchQueue × List String). Settled j.job_id none r.0)
        (w.services.normalize_url url == "") _ _ (λ _. seeds-Settled now urls q h)
        (λ _. seeds-Settled now urls _ (
          enqueue-Settled j.job_id w.services.normalize_url w.extract_domain none now j.job_id url
            j.priority 5 q h))

  open_at_queue :
      (state : Fields) (id : Option String) (r : Option Run) (c : Context)
      → (open_at w j state id r c).ctx.fetch_queue ≡ c.fetch_queue
  open_at_queue state none r c = refl
  open_at_queue state (some id) none c = refl
  open_at_queue state (some id) (some r) c =
      if-intro (λ (o : Opened). o.ctx.fetch_queue ≡ c.fetch_queue) (is_running r) _ _ (λ _. refl)
        (λ _. refl)

  open_run_queue : (c : Context) → (open_run w j c).ctx.fetch_queue ≡ c.fetch_queue
  unfolding open_run
  open_run_queue c =
      let state = (load j.job_id c.checkpoints).state in
      open_at_queue state (current_run_id state) (find_run (current_run_id state) c.runs) c

seed_first_queue :
    (w : World) (j : Job) (state : Fields) (c : Context)
    → (seed_first w j state c).0.fetch_queue ≡ c.fetch_queue
unfolding run_seed_discovery
seed_first_queue w j state c =
    if-intro (λ (r : Context × Fields). r.0.fetch_queue ≡ c.fetch_queue)
      (is_given (get_field "seeded" state)) _ _ (λ _. refl) (λ _. refl)

module _ (w : World) (j : Job) (a : Adapter) (id : String) where
  run_after-Returned :
      (k : Job) (state : Fields) (c : Context)
      → Settled k.job_id none c.fetch_queue
      → Returned w k (run_after w a id (k, (state, c)))
  run_after-Returned k state c h =
      close_pass-Returned w k id state (gather_pages w k a c) (gather_pages-IsCalm w k a c h)

  bootstrapped-Returned :
      (phase : JobPhase) (state : Fields) (c : Context)
      → Settled j.job_id none c.fetch_queue
      → Returned w j (run_after w a id (bootstrap_at w phase j state c))
  bootstrapped-Returned bootstrap state c h =
      run_after-Returned (record j { phase = discovery }) _ _ (rw (seed_first_queue w j state c) h)
  bootstrapped-Returned discovery state c h = run_after-Returned j state c h
  bootstrapped-Returned collect state c h = run_after-Returned j state c h
  bootstrapped-Returned validation state c h = run_after-Returned j state c h
  bootstrapped-Returned phase1_complete state c h = run_after-Returned j state c h
  bootstrapped-Returned incremental state c h = run_after-Returned j state c h

module _ (w : World) (j : Job) where
  run_with-Returned : (o : Option Adapter) (c : Context) → Returned w j (run_with w j o c)
  run_with-Returned none c = tt
  run_with-Returned (some a) c =
      let o = open_run w j (recovered w j c) in
      bootstrapped-Returned w j a o.run_id j.phase o.state _ (
        seeds-Settled w j o.ctx.now (a.seed_urls j) o.ctx.fetch_queue (
          rw (open_run_queue w j (recovered w j c))
            (requeue_stale_fetching-Settled j.job_id c.fetch_queue)))

  Returned-some :
      (r : Context × Option RunOutcome) (o : RunOutcome)
      → Returned w j r
      → r.1 ≡ some o
      → Settled j.job_id none r.0.fetch_queue
  Returned-some (c, none) o h e = absurd (cc e)
  Returned-some (c, some x) o h e = h

-- A pass that returns an outcome leaves no row of the job in `fetching`, whatever has become of its
-- fetches, and whatever rows were left in `fetching` before it.
pub run_once-Settled :
    (w : World) (j : Job) (c : Context) (o : RunOutcome)
    → (run_once w j c).1 ≡ some o
    → All (IsIdle j.job_id) (run_once w j c).0.fetch_queue.items
unfolding run_once
run_once-Settled w j c o h =
    Returned-some w j (run_with w j (w.get_adapter j.adapter) c) o
      (run_with-Returned w j (w.get_adapter j.adapter) c) h
