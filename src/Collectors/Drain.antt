-- ===== src/Collectors/Drain.antt =====
-- _drain_fetch_queue and _ready_domains of db_collector_os/collectors/pipeline.py. Waits are in
-- microseconds.
pub mod Bounds
pub mod Polite
use db_collector_os.Prelude.{
  ℕ, zero, suc, ◌+◌, ◌*◌, String, Option, none, some, Bool, true, false, ◌&&◌, ◌||◌, List, [], ◌∷◌,
  ltb, leb, if◌then◌else◌,
}
use db_collector_os.Models.Json.{Value, Fields, int, float, pos, dict, end, get_field}
use db_collector_os.JobRegistry.{Job}
use db_collector_os.Fetching.Queue.{Item, FetchQueue, is_pending, is_member, claim_next}
use db_collector_os.Fetching.RateLimiter.{Limit, is_allowed}
use db_collector_os.Collectors.Context.{Context, Pass, Adapter, World}
use db_collector_os.Collectors.Pages.{process_queue_item}

-- A number of seconds in a JSON value; what is not positive is 0.
abbrev pub seconds_of : Value → ℕ
seconds_of (int (pos n)) = n * 1000000
seconds_of (float (pos n)) = n * 1000
seconds_of _ = 0

abbrev pub config_of : Value → Fields
config_of (dict d) = d
config_of _ = end

abbrev seconds_or : ℕ → Option Value → ℕ
seconds_or d none = d
seconds_or d (some v) = seconds_of v

abbrev pub max_drain_wait : Job → ℕ
max_drain_wait j = seconds_or 0 (get_field "max_drain_wait_seconds" (config_of j.config_json))

abbrev pub revalidate_after : Job → ℕ
revalidate_after j =
    seconds_or 86400000000
      (get_field "incremental_revalidate_after_seconds" (config_of j.config_json))

abbrev distinct : List String → List Item → List String
distinct seen [] = []
distinct seen (i ∷ items) =
    if is_member i.domain seen
    then distinct seen items
    else i.domain ∷ distinct (i.domain ∷ seen) items

abbrev pending_rows : String → List Item → List Item
pending_rows job [] = []
pending_rows job (i ∷ items) =
    if is_pending job i then i ∷ pending_rows job items else pending_rows job items

-- SELECT DISTINCT domain … WHERE status='queued'
unfoldable pub queued_domains : String → FetchQueue → List String
queued_domains job q = distinct [] (pending_rows job q.items)

-- The ready domains, and the shortest wait of the others.
pub record Ready : Type 0 where
  pub domains : List String
  pub min_wait : Option ℕ

abbrev shorter : ℕ → Option ℕ → Option ℕ
shorter wait none = some wait
shorter wait (some m) = if ltb wait m then some wait else some m

abbrev pub add_domain : String → Bool × ℕ → Ready → Ready
add_domain domain (true, wait) r = record r { domains = domain ∷ r.domains }
add_domain domain (false, wait) r = record r { min_wait = shorter wait r.min_wait }

-- The loop of _ready_domains: `is_allowed` makes the rows of new domains.
abbrev pub ask_each : ℕ → ℕ → List String → Ready → List Limit → List Limit × Ready
ask_each now delay [] r limits = (limits, r)
ask_each now delay (d ∷ ds) r limits =
    let (limits', answer) = is_allowed now d delay 2 limits in
    ask_each now delay ds (add_domain d answer r) limits'

unfoldable pub ready_domains : Job → Context → Context × Ready
ready_domains j ctx =
    let (limits, r) =
      ask_each ctx.now j.rate_limit (queued_domains j.job_id ctx.fetch_queue)
        (record { domains = []; min_wait = none }) ctx.limits in
    (record ctx { limits = limits }, r)

-- `claim_next(…) if ready_domains else None`
abbrev pub claim_ready : Job → List String → Context → Context × Option Item
claim_ready j [] ctx = (ctx, none)
claim_ready j (d ∷ ds) ctx =
    let claimed = claim_next ctx.now j.job_id (some (d ∷ ds)) ctx.fetch_queue in
    (record ctx { fetch_queue = claimed.0 }, claimed.1)

-- The end of a round: the loop goes on, with what it has waited so far, or it stops.
pub data Turn : Type 0 where
  go_on : (waited : ℕ) → Pass → Turn
  stop : Pass → Turn

-- A round that has claimed no row.
abbrev pub sleep_or_stop : ℕ → Option ℕ → ℕ → Pass → Turn
sleep_or_stop budget none waited p = stop p
sleep_or_stop budget (some wait) waited p =
    if ltb 0 budget && leb (waited + wait) budget
    then go_on (waited + wait) (record p { ctx = record p.ctx { now = p.ctx.now + wait } })
    else stop p

module _ (w : World) (j : Job) (a : Adapter) where
  abbrev pub work : Option ℕ → ℕ → Pass → Option Item → Turn
  work min_wait waited p none = sleep_or_stop (max_drain_wait j) min_wait waited p
  work min_wait waited p (some i) = go_on waited (process_queue_item w j a i p)

  -- One round of the loop.
  abbrev pub round : ℕ → Pass → Turn
  round waited p =
      let (ctx, r) = ready_domains j p.ctx in
      let (ctx', item) = claim_ready j r.domains ctx in
      work r.min_wait waited (record p { ctx = ctx' }) item

  -- The test of the loop; an exception leaves it.
  abbrev pub turn : ℕ → Pass → Turn
  turn waited p = if p.raised || leb j.max_pages p.outcome.fetched then stop p else round waited p

  -- The loop, by the number of attempts that are left.
  unfoldable pub drain : ℕ → (waited : ℕ) → Pass → Pass
  drain zero waited p = p
  drain (suc attempts) waited p = elim (turn waited p) [
    | stop q ↦ q
    | go_on waited' q ↦ drain attempts waited' q
  ]

  -- max_attempts = max_pages * 3
  unfoldable pub drain_fetch_queue : Pass → Pass
  drain_fetch_queue p = drain (j.max_pages * 3) 0 p
