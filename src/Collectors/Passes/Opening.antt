-- ===== src/Collectors/Passes/Opening.antt =====
-- The run that `run_once` of db_collector_os/collectors/pipeline.py writes into, when it is opened.
use db_collector_os.Prelude.{
  ◌≡◌, refl, ◌∙◌, String, Option, none, some, false, List, arith, ◌==◌, if-intro, first-append,
  eq_refl,
}
use db_collector_os.Models.Enums.{RunStatus}
use db_collector_os.Models.Json.{Fields, str, get_field}
use db_collector_os.JobRegistry.{Job}
use db_collector_os.RunHistory
use db_collector_os.RunHistory.{Run, has_run_id, is_running, new_run}
use db_collector_os.Worker.{text_id, find_run}
use db_collector_os.Worker.RunIds.{text_id-some}
use db_collector_os.Collectors.Context.{Context, World}
use db_collector_os.Collectors.Passes.{Opened, open_at, open_new}
use db_collector_os.Models.Json.Lookup.{get_field-set_field}

-- The run stands in the table and is running, and the state names it.
pub record Named (id : String) (runs : List Run) (state : Fields) : Type 0 where
  pub run : (r : Run) × (RunHistory.get id runs ≡ some r) × (r.status ≡ RunStatus.running)
  pub names : get_field "current_run_id" state ≡ some (str id)
  pub given : (id == "") ≡ false

module _ (w : World) (j : Job) where
  open_new-Named :
      (state : Fields) (c : Context)
      → RunHistory.get (w.new_id c.drawn) c.runs ≡ none
      → (w.new_id c.drawn == "") ≡ false
      → Named
          (open_new w j state c).run_id
          (open_new w j state c).ctx.runs
          (open_new w j state c).state
  unfolding RunHistory.get RunHistory.start
  open_new-Named state c fresh given = record {
    run = (
      new_run c.now (w.new_id c.drawn) j.job_id,
      first-append (has_run_id (w.new_id c.drawn)) c.runs _ fresh
          ∙ rw (eq_refl (w.new_id c.drawn)) refl,
      refl,
    );
    names = get_field-set_field "current_run_id" (str (w.new_id c.drawn)) state;
    given = given;
  }

  pub open_at-Named :
      (state : Fields) (id : Option String) (r : Option Run) (c : Context)
      → RunHistory.get (w.new_id c.drawn) c.runs ≡ none
      → (w.new_id c.drawn == "") ≡ false
      → text_id (get_field "current_run_id" state) ≡ id
      → find_run id c.runs ≡ r
      → Named
          (open_at w j state id r c).run_id
          (open_at w j state id r c).ctx.runs
          (open_at w j state id r c).state
  open_at-Named state none r c fresh given e f = open_new-Named state c fresh given
  open_at-Named state (some id) none c fresh given e f = open_new-Named state c fresh given
  open_at-Named state (some id) (some r) c fresh given e f =
      if-intro (λ (o : Opened). Named o.run_id o.ctx.runs o.state) (is_running r) _ _
        (λ t.
          let named = text_id-some (get_field "current_run_id" state) id e in
          record { run = (r, f, ground arith); names = named.0; given = named.1 })
        (λ _. open_new-Named state c fresh given)
