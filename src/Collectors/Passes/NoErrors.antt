-- ===== src/Collectors/Passes/NoErrors.antt =====
-- The error rate by which `_advance_phase` of db_collector_os/collectors/pipeline.py judges a pass that
-- has started a run of its own.
use db_collector_os.Models.Json.{Fields}
use db_collector_os.JobRegistry.{Job}
use db_collector_os.Collectors.Context.{Context, Pass, Adapter, World}
use db_collector_os.Collectors.Pages.{ensure_seed_urls_queued}
use db_collector_os.Collectors.Passes.{Opened, bootstrap_at, gather_pages}

module _ (w : World) (a : Adapter) where
  -- The job and the context that the bootstrap leaves.
  abbrev pub prepared : Job → Opened → Job × (Fields × Context)
  prepared j o =
      let seeds = ensure_seed_urls_queued w o.ctx.now j (a.seed_urls j) o.ctx.fetch_queue in
      bootstrap_at w j.phase j o.state (record o.ctx { fetch_queue = seeds.0 })

  -- From there to the end of the drain.
  abbrev pub drained : Job × (Fields × Context) → Pass
  drained (j, (state, c)) = gather_pages w j a c
