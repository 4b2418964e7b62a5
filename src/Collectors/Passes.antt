-- ===== src/Collectors/Passes.antt =====
-- BaseCollector.run_once of db_collector_os/collectors/pipeline.py.
pub mod Truthful
pub mod Settled
pub mod Opening
pub mod Stays
pub mod OnRecord
pub mod Held
pub mod NoErrors
use db_collector_os.Prelude.{
  ℕ, suc, ◌+◌, ◌*◌, ◌-◌, String, Option, none, some, Bool, true, false, not, List, [], ◌∷◌, leb,
  if◌then◌else◌, length,
}
use db_collector_os.Models.Enums.{
  JobPhase, CandidateStatus, bootstrap, discovery, collect, validation, phase1_complete,
  incremental, is_phase,
}
use db_collector_os.Models.Json.{
  Value, Fields, bool, int, float, str, pos, dict, end, get_field, set_field,
}
use db_collector_os.JobRegistry.{Job, set_phase}
use db_collector_os.Fetching.Queue.{requeue_stale_fetching, requeue_for_revalidation, is_empty}
use db_collector_os.RunHistory
use db_collector_os.RunHistory.{Run, Counts, is_running, record_discovery_stats}
use db_collector_os.Checkpoints.{load, save}
use db_collector_os.Candidates.{total_count, counts_by_status}
use db_collector_os.Entities.{entity_count}
use db_collector_os.Review
use db_collector_os.Metrics
use db_collector_os.Metrics.{MetricsField}
use db_collector_os.Validation.{truth}
use db_collector_os.Discovery.Engine.{seed_found}
use db_collector_os.Collectors.Phases.{Conditions, PhaseSignals, gather, advance}
use db_collector_os.Collectors.Context.{Context, RunOutcome, Pass, Adapter, World, no_outcome}
use db_collector_os.Collectors.Pages.{ensure_seed_urls_queued, promote_new_candidates, save_found}
use db_collector_os.Collectors.Drain.{config_of, revalidate_after, drain_fetch_queue}
use db_collector_os.Worker.{current_run_id, find_run, count_of}

-- RunOutcome.as_kwargs
abbrev pub as_kwargs : RunOutcome → Counts
as_kwargs o = record {
  discovered_count = some o.discovered;
  fetched_count = some o.fetched;
  inserted_count = some o.inserted;
  updated_count = some o.updated;
  duplicate_count = some o.duplicates;
  review_count = some o.reviewed;
  error_count = some o.errors;
}

abbrev truth_given : Option Value → Option Bool
truth_given none = none
truth_given (some v) = some (truth v)

abbrev count_given : Option Value → Option ℕ
count_given none = none
count_given (some v) = some (count_of (some v))

abbrev thousandths_given : Option Value → Option ℕ
thousandths_given (some (int (pos n))) = some (n * 1000)
thousandths_given (some (float (pos n))) = some n
thousandths_given (some v) = some 0
thousandths_given none = none

abbrev conditions_in : Fields → Conditions
conditions_in d = record {
  queue_empty = truth_given (get_field "queue_empty" d);
  min_entity_count = count_given (get_field "min_entity_count" d);
  max_error_rate = thousandths_given (get_field "max_error_rate" d);
  max_unresolved_review = count_given (get_field "max_unresolved_review" d);
  require_discovery_saturation = truth_given (get_field "require_discovery_saturation" d);
  consecutive_low_discovery_runs = count_given (get_field "consecutive_low_discovery_runs" d);
}

abbrev fields_of : Option Value → Fields
fields_of none = end
fields_of (some v) = config_of v

abbrev pub conditions_of : Job → Conditions
conditions_of j =
    conditions_in (fields_of (get_field "phase1_conditions" (config_of j.config_json)))

-- The run that the pass writes into: the one that the state names, if it is running, or a new one.
pub record Opened : Type 0 where
  pub ctx : Context
  pub run_id : String
  pub state : Fields

abbrev is_given : Option Value → Bool
is_given none = false
is_given (some v) = truth v

module _ (w : World) where
  abbrev pub open_new : Job → Fields → Context → Opened
  open_new j state ctx =
      let id = w.new_id ctx.drawn in
      let state' = set_field "current_run_id" (str id) state in
      record {
        ctx = record ctx {
          drawn = suc ctx.drawn;
          runs = RunHistory.start ctx.now id j.job_id ctx.runs;
          checkpoints = save ctx.now j.job_id (some id) (some j.phase) state' ctx.checkpoints;
        };
        run_id = id;
        state = state';
      }

  abbrev pub open_at : Job → Fields → Option String → Option Run → Context → Opened
  open_at j state (some id) (some r) ctx =
      if is_running r
      then record { ctx = ctx; run_id = id; state = state }
      else open_new j state ctx
  open_at j state _ _ ctx = open_new j state ctx

  unfoldable pub open_run : Job → Context → Opened
  open_run j ctx =
      let state = (load j.job_id ctx.checkpoints).state in
      let id = current_run_id state in open_at j state id (find_run id ctx.runs) ctx

  -- run_seed_discovery, with the number of new candidates.
  unfoldable pub run_seed_discovery : Job → Context → Context × ℕ
  run_seed_discovery j ctx =
      let found =
        save_found w j (seed_found (w.sources ctx.now) j)
          (record ctx { now = ctx.now + w.discovery_time ctx.now }) in
      (found.0, length found.1)

  -- _bootstrap, and the change of phase after it: the candidates of this discovery are not counted.
  abbrev pub seed_first : Job → Fields → Context → Context × Fields
  seed_first j state ctx =
      if is_given (get_field "seeded" state)
      then (ctx, state)
      else ((run_seed_discovery j ctx).0, set_field "seeded" (bool true) state)

  abbrev pub bootstrap_at : JobPhase → Job → Fields → Context → Job × (Fields × Context)
  bootstrap_at bootstrap j state ctx =
      let seeded = seed_first j state ctx in
      (
        record j { phase = discovery },
        (
          seeded.1,
          record seeded.0 { jobs = set_phase seeded.0.now j.job_id discovery seeded.0.jobs },
        ),
      )
  bootstrap_at _ j state ctx = (j, (state, ctx))

  -- The discovery of the phase; the number is that of the new candidates.
  abbrev pub discover_in : JobPhase → Job → Context → Context × ℕ
  discover_in discovery j ctx = run_seed_discovery j ctx
  discover_in collect j ctx = run_seed_discovery j ctx
  discover_in incremental j ctx = run_seed_discovery j (record ctx {
    fetch_queue =
        (requeue_for_revalidation ctx.now j.job_id (revalidate_after j) 500 ctx.fetch_queue).0;
  })
  discover_in _ j ctx = (ctx, 0)

  -- From the discovery to the end of the drain.
  unfoldable pub gather_pages : Job → Adapter → Context → Pass
  gather_pages j a ctx =
      let (ctx', found) = discover_in j.phase j ctx in
      drain_fetch_queue w j a (record {
        ctx = promote_new_candidates w j ctx';
        outcome = record no_outcome { discovered = found };
        raised = false;
      })

  abbrev pub stats_recorded : Job → String → RunOutcome → Context → Context
  stats_recorded j run_id o ctx = record ctx {
    discovery_runs =
        record_discovery_stats ctx.now j.job_id run_id (total_count j.job_id ctx.candidates)
          o.discovered (counts_by_status j.job_id CandidateStatus.duplicate ctx.candidates)
          (counts_by_status j.job_id CandidateStatus.accepted ctx.candidates)
          (counts_by_status j.job_id CandidateStatus.rejected ctx.candidates) ctx.discovery_runs;
  }

  abbrev pub signals_of : Job → Fields → Context → PhaseSignals
  signals_of j state ctx =
      gather j.job_id (is_empty j.job_id ctx.fetch_queue)
        (entity_count j.job_id ctx.stores.entities) (Review.count_open (some j.job_id) ctx.review)
        (count_of (get_field "low_discovery_streak" state)) ctx.discovery_runs ctx.runs

  -- `if new_phase != phase: ctx.jobs.set_phase(…)`
  abbrev pub phase_set : Job → JobPhase → Context → Context
  phase_set j phase ctx =
      if is_phase phase j.phase
      then ctx
      else record ctx { jobs = set_phase ctx.now j.job_id phase ctx.jobs }

  abbrev pub with_streak : PhaseSignals → Fields → Fields
  with_streak s state =
      set_field "low_discovery_streak" (int (pos s.consecutive_low_discovery_runs)) state

  -- _advance_phase: the new phase, the new state and the context.
  unfoldable pub advance_phase : Job → Fields → Context → JobPhase × (Fields × Context)
  advance_phase j state ctx =
      if is_phase j.phase incremental
      then (incremental, (state, ctx))
      else let s = signals_of j state ctx in
        let phase = advance s (conditions_of j) j.phase in
        (phase, (with_streak s state, phase_set j phase ctx))

  abbrev pub bumped : RunOutcome → Context → Context
  bumped o ctx = record ctx {
    metrics =
        Metrics.bump (w.today ctx.now)
          ((MetricsField.fetch_success, if leb o.errors o.fetched then o.fetched - o.errors else 0)
            ∷ (MetricsField.fetch_errors, o.errors)
            ∷ (MetricsField.review_count, o.reviewed)
            ∷ (MetricsField.pages_fetched, o.fetched)
            ∷ (MetricsField.new_entities, o.inserted)
            ∷ (MetricsField.updated_entities, o.updated)
            ∷ (MetricsField.jobs_executed, 1)
            ∷ [])
          ctx.metrics;
  }

  -- What follows the drain, if it has not raised.
  abbrev pub close_pass : Job → String → Fields → Pass → Context × Option RunOutcome
  close_pass j run_id state p =
      if p.raised
      then (p.ctx, none)
      else let ctx = stats_recorded j run_id p.outcome p.ctx in
        let (phase, (state', ctx')) = advance_phase j state ctx in
        let saved = save ctx'.now j.job_id (some run_id) (some phase) state' ctx'.checkpoints in
        (bumped p.outcome (record ctx' { checkpoints = saved }), some p.outcome)

  abbrev pub run_after :
      Adapter → (run_id : String) → Job × (Fields × Context) → Context × Option RunOutcome
  run_after a run_id (j, (state, ctx)) = close_pass j run_id state (gather_pages j a ctx)

  -- What follows the opening of the run: the seeds, the bootstrap, and the rest of the pass.
  abbrev pub run_from : Job → Adapter → Opened → Context × Option RunOutcome
  run_from j a o =
      let seeds = ensure_seed_urls_queued w o.ctx.now j (a.seed_urls j) o.ctx.fetch_queue in
      run_after a o.run_id (bootstrap_at j.phase j o.state (record o.ctx { fetch_queue = seeds.0 }))

  abbrev pub recovered : Job → Context → Context
  recovered j ctx = record ctx { fetch_queue = (requeue_stale_fetching j.job_id ctx.fetch_queue).0 }

  abbrev pub run_with : Job → Option Adapter → Context → Context × Option RunOutcome
  run_with j none ctx = (ctx, none)
  run_with j (some a) ctx = run_from j a (open_run j (recovered j ctx))

  -- run_once: the outcome is none where the pass raised.
  unfoldable pub run_once : Job → Context → Context × Option RunOutcome
  run_once j ctx = run_with j (w.get_adapter j.adapter) ctx
