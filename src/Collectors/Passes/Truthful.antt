-- ===== src/Collectors/Passes/Truthful.antt =====
-- What `run_once` of db_collector_os/collectors/pipeline.py returns, against the tables.
use db_collector_os.Prelude.{
  ℕ, ◌+◌, ◌≡◌, refl, ap, sym, subst, String, Option, none, some, false, arith, if-intro,
}
use db_collector_os.Models.Enums.{
  JobPhase, bootstrap, discovery, collect, validation, phase1_complete, incremental, is_phase,
}
use db_collector_os.Models.Json.{Fields}
use db_collector_os.JobRegistry.{Job}
use db_collector_os.Candidates.{total_count}
use db_collector_os.Entities.{entity_count}
use db_collector_os.Review.{ReviewQueue, count_open}
use db_collector_os.Persistence.{Stores}
use db_collector_os.Fetching.Queue.{requeue_for_revalidation}
use db_collector_os.Discovery.Engine.{seed_found}
use db_collector_os.Collectors.Drain.{revalidate_after}
use db_collector_os.RunHistory.{Run, is_running}
use db_collector_os.Checkpoints.{load}
use db_collector_os.Worker.{current_run_id, find_run}
use db_collector_os.Collectors.Context.{Context, RunOutcome, Pass, Adapter, World, no_outcome}
use db_collector_os.Collectors.Pages.{promote_new_candidates, ensure_seed_urls_queued}
use db_collector_os.Collectors.Pages.Tally.{save_found_lem}
use db_collector_os.Collectors.Drain.Bounds.{drain_fetch_queue-Accounted}
use db_collector_os.Collectors.Passes.{
  Opened, open_run, open_at, run_seed_discovery, discover_in, bootstrap_at, gather_pages,
  advance_phase, phase_set, stats_recorded, close_pass, recovered, run_after, run_from, run_with,
  run_once,
}

-- The tables and the number that the counts are about are the same.
record Untouched (c d : Context) : Type 0 where
  stores : d.stores ≡ c.stores
  review : d.review ≡ c.review
  candidates : d.candidates ≡ c.candidates
  requests : d.requests ≡ c.requests

Untouched-refl : (c : Context) → Untouched c c
Untouched-refl c = record { stores = refl; review = refl; candidates = refl; requests = refl }

-- From `c` to `d` the job's entities that are not deleted, its open reviews, its candidates and the
-- requests have become more by what `o` counts.
pub record Truthful (j : Job) (c d : Context) (o : RunOutcome) : Type 0 where
  pub entities :
      entity_count j.job_id d.stores.entities ≡ entity_count j.job_id c.stores.entities + o.inserted
  pub reviews :
      count_open (some j.job_id) d.review ≡ count_open (some j.job_id) c.review + o.reviewed
  pub candidates :
      total_count j.job_id d.candidates ≡ total_count j.job_id c.candidates + o.discovered
  pub requests : d.requests ≡ c.requests + o.fetched

module _ (w : World) (j : Job) where
  open_at-Untouched :
      (state : Fields) (id : Option String) (r : Option Run) (c : Context)
      → Untouched c (open_at w j state id r c).ctx
  open_at-Untouched state none r c = record {
    stores = refl;
    review = refl;
    candidates = refl;
    requests = refl;
  }
  open_at-Untouched state (some id) none c = record {
    stores = refl;
    review = refl;
    candidates = refl;
    requests = refl;
  }
  open_at-Untouched state (some id) (some r) c =
      if-intro (λ (o : Opened). Untouched c o.ctx) (is_running r) _ _ (λ _. Untouched-refl c)
        (λ _. record { stores = refl; review = refl; candidates = refl; requests = refl })

  phase_set-Untouched : (phase : JobPhase) (c : Context) → Untouched c (phase_set w j phase c)
  phase_set-Untouched phase c =
      if-intro (Untouched c) (is_phase phase j.phase) _ _ (λ _. Untouched-refl c)
        (λ _. record { stores = refl; review = refl; candidates = refl; requests = refl })

  advance_phase-Untouched :
      (state : Fields) (c : Context) → Untouched c (advance_phase w j state c).1.1
  unfolding advance_phase
  advance_phase-Untouched state c =
      if-intro (λ (r : JobPhase × (Fields × Context)). Untouched c r.1.1)
        (is_phase j.phase incremental) _ _ (λ _. Untouched-refl c) (λ _. phase_set-Untouched _ c)

  -- The tables after a discovery that has found `n` new candidates.
  record Found (c d : Context) (n : ℕ) : Type 0 where
    stores : d.stores ≡ c.stores
    review : d.review ≡ c.review
    candidates : total_count j.job_id d.candidates ≡ total_count j.job_id c.candidates + n
    requests : d.requests ≡ c.requests

  run_seed_discovery-Found :
      (c : Context) → Found c (run_seed_discovery w j c).0 (run_seed_discovery w j c).1
  unfolding run_seed_discovery
  run_seed_discovery-Found c = record {
    stores = refl;
    review = refl;
    candidates =
        save_found_lem w j (seed_found (w.sources c.now) j)
          (record c { now = c.now + w.discovery_time c.now });
    requests = refl;
  }

  discover_in-Found :
      (phase : JobPhase) (c : Context)
      → Found c (discover_in w phase j c).0 (discover_in w phase j c).1
  discover_in-Found discovery c = run_seed_discovery-Found c
  discover_in-Found collect c = run_seed_discovery-Found c
  discover_in-Found incremental c =
      let h = run_seed_discovery-Found (record c {
        fetch_queue =
            (requeue_for_revalidation c.now j.job_id (revalidate_after j) 500 c.fetch_queue).0;
      }) in
      record {
        stores = h.stores;
        review = h.review;
        candidates = h.candidates;
        requests = h.requests;
      }
  discover_in-Found bootstrap c = record {
    stores = refl;
    review = refl;
    candidates = omega arith;
    requests = refl;
  }
  discover_in-Found validation c = record {
    stores = refl;
    review = refl;
    candidates = omega arith;
    requests = refl;
  }
  discover_in-Found phase1_complete c = record {
    stores = refl;
    review = refl;
    candidates = omega arith;
    requests = refl;
  }

  gather_pages-Truthful :
      (a : Adapter) (c : Context)
      → Truthful j c (gather_pages w j a c).ctx (gather_pages w j a c).outcome
  unfolding gather_pages promote_new_candidates
  gather_pages-Truthful a c =
      let f = discover_in-Found j.phase c in
      let found = discover_in w j.phase j c in
      let h = drain_fetch_queue-Accounted w j a (record {
        ctx = promote_new_candidates w j found.0;
        outcome = record no_outcome { discovered = found.1 };
        raised = false;
      }) in
      record {
        entities =
            omega
              (arith, h.entities, ap (λ (t : Stores). entity_count j.job_id t.entities) f.stores);
        reviews =
            omega
              (arith, h.reviews, ap (λ (q : ReviewQueue). count_open (some j.job_id) q) f.review);
        candidates = omega (arith, h.candidates, f.candidates);
        requests = omega (arith, h.requests, f.requests);
      }

  abbrev Ended : Context → Context → Option RunOutcome → Type 0
  Ended c d none = Unit
  Ended c d (some o) = Truthful j c d o

  Ended-some :
      (c d : Context) (r : Option RunOutcome) (o : RunOutcome)
      → Ended c d r
      → r ≡ some o
      → Truthful j c d o
  Ended-some c d none o t h = absurd (cc h)
  Ended-some c d (some x) o t h = let same : x ≡ o = cc h in subst (Truthful j c d) same t

  moved : (c d e : Context) (o : RunOutcome) → Untouched d e → Truthful j c d o → Truthful j c e o
  moved c d e o u t = record {
    entities = rw u.stores t.entities;
    reviews = rw u.review t.reviews;
    candidates = rw u.candidates t.candidates;
    requests = rw u.requests t.requests;
  }

  started : (c d e : Context) (o : RunOutcome) → Untouched c d → Truthful j d e o → Truthful j c e o
  started c d e o u t = record {
    entities = rw (← u.stores) t.entities;
    reviews = rw (← u.review) t.reviews;
    candidates = rw (← u.candidates) t.candidates;
    requests = rw (← u.requests) t.requests;
  }

  close_pass-Ended :
      (id : String) (state : Fields) (c : Context) (p : Pass)
      → Truthful j c p.ctx p.outcome
      → Ended c (close_pass w j id state p).0 (close_pass w j id state p).1
  close_pass-Ended id state c p t =
      if-intro (λ (r : Context × Option RunOutcome). Ended c r.0 r.1) p.raised _ _ (λ _. tt)
        (λ _.
          let u = advance_phase-Untouched state (stats_recorded w j id p.outcome p.ctx) in
          moved c p.ctx _ p.outcome
            (record {
              stores = u.stores;
              review = u.review;
              candidates = u.candidates;
              requests = u.requests;
            })
            t)

  bootstrap_at-other :
      (phase : JobPhase) (state : Fields) (c : Context)
      → is_phase phase bootstrap ≡ false
      → bootstrap_at w phase j state c ≡ (j, (state, c))
  bootstrap_at-other bootstrap state c h = absurd (cc h)
  bootstrap_at-other discovery state c h = refl
  bootstrap_at-other collect state c h = refl
  bootstrap_at-other validation state c h = refl
  bootstrap_at-other phase1_complete state c h = refl
  bootstrap_at-other incremental state c h = refl

  run_after-Ended :
      (a : Adapter) (id : String) (state : Fields) (c d : Context)
      → Untouched c d
      → Ended c (run_after w a id (j, (state, d))).0 (run_after w a id (j, (state, d))).1
  run_after-Ended a id state c d u = close_pass-Ended id state c (gather_pages w j a d) (
      started c d (gather_pages w j a d).ctx (gather_pages w j a d).outcome u
        (gather_pages-Truthful a d))

  open_run-Untouched : (c : Context) → Untouched c (open_run w j c).ctx
  unfolding open_run
  open_run-Untouched c =
      let state = (load j.job_id c.checkpoints).state in
      open_at-Untouched state (current_run_id state) (find_run (current_run_id state) c.runs) c

  run_from-Ended :
      (a : Adapter) (o : Opened) (c : Context)
      → Untouched c o.ctx
      → is_phase j.phase bootstrap ≡ false
      → Ended c (run_from w j a o).0 (run_from w j a o).1
  run_from-Ended a o c u h =
      let d = record o.ctx {
        fetch_queue = (ensure_seed_urls_queued w o.ctx.now j (a.seed_urls j) o.ctx.fetch_queue).0;
      } in
      subst
        (λ (x : Job × (Fields × Context)).
          Ended c (run_after w a o.run_id x).0 (run_after w a o.run_id x).1)
        (sym (bootstrap_at-other j.phase o.state d h))
        (run_after-Ended a o.run_id o.state c d (record {
          stores = u.stores;
          review = u.review;
          candidates = u.candidates;
          requests = u.requests;
        }))

  run_with-Ended :
      (o : Option Adapter) (c : Context)
      → is_phase j.phase bootstrap ≡ false
      → Ended c (run_with w j o c).0 (run_with w j o c).1
  run_with-Ended none c h = tt
  run_with-Ended (some a) c h =
      let u = open_run-Untouched (recovered w j c) in
      run_from-Ended a (open_run w j (recovered w j c)) c
        (record {
          stores = u.stores;
          review = u.review;
          candidates = u.candidates;
          requests = u.requests;
        })
        h

-- Where the job is not in its bootstrap, and the pass returns an outcome, the counts of the outcome
-- are what has happened: the entities of the job that are not deleted have become more by
-- `inserted`, its open review items by `reviewed`, its candidates by `discovered`, and `fetched`
-- requests have been sent.
pub run_once-Truthful :
    (w : World) (j : Job) (c : Context) (o : RunOutcome)
    → is_phase j.phase bootstrap ≡ false
    → (run_once w j c).1 ≡ some o
    → Truthful j c (run_once w j c).0 o
unfolding run_once
run_once-Truthful w j c o phase h =
    Ended-some w j c _ _ o (run_with-Ended w j (w.get_adapter j.adapter) c phase) h
