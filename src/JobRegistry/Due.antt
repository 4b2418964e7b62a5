-- ===== src/JobRegistry/Due.antt =====
-- What `due_jobs` of db_collector_os/job_registry.py selects, and in which order.
use db_collector_os.Prelude.{
  ℕ, ◌≤◌, ◌≡◌, refl, ◌↔◌, true, false, Option, none, some, List, [], ◌∷◌, All-map, arith, select,
  order_by, All, Has, All-Has, Has-select, Has-select_intro, select_matches,
}
use db_collector_os.Prelude.Sorted.{
  IsOrder, Sorted, Sorted-order_by, Has-order_by, Has-order_by_intro,
}
use db_collector_os.Clock.{now_iso}
use db_collector_os.Models.Enums.{JobStatus, idle, completed, continuing, retry}
use db_collector_os.JobRegistry.{Job, due_jobs, is_due, due_before, schedulable, run_le, null_or_le}

-- The statuses from which a job may be queued again.
pub data IsWaiting : JobStatus → Type 0 where
  idle_waits : IsWaiting idle
  completed_waits : IsWaiting completed
  continuing_waits : IsWaiting continuing
  retry_waits : IsWaiting retry

-- A job that is to run at the second `now`.
pub record IsDue (now : ℕ) (j : Job) : Type 0 where
  pub on : j.enabled ≡ true
  pub waits : IsWaiting j.status
  pub time : (t : ℕ) → j.next_run_at ≡ some t → t ≤ now

IsWaiting-schedulable : (s : JobStatus) → schedulable s ≡ true → IsWaiting s
IsWaiting-schedulable JobStatus.idle h = idle_waits
IsWaiting-schedulable JobStatus.completed h = completed_waits
IsWaiting-schedulable JobStatus.continuing h = continuing_waits
IsWaiting-schedulable JobStatus.retry h = retry_waits
IsWaiting-schedulable JobStatus.queued h = absurd (ground arith)
IsWaiting-schedulable JobStatus.running h = absurd (ground arith)
IsWaiting-schedulable JobStatus.review h = absurd (ground arith)
IsWaiting-schedulable JobStatus.failed h = absurd (ground arith)
IsWaiting-schedulable JobStatus.paused h = absurd (ground arith)

schedulable-IsWaiting : (s : JobStatus) → IsWaiting s → schedulable s ≡ true
schedulable-IsWaiting s idle_waits = refl
schedulable-IsWaiting s completed_waits = refl
schedulable-IsWaiting s continuing_waits = refl
schedulable-IsWaiting s retry_waits = refl

IsDue-is_due : (now : ℕ) (j : Job) → is_due now j ≡ true → IsDue now j
IsDue-is_due now j h = record {
  on = ground arith;
  waits = IsWaiting-schedulable j.status (ground arith);
  time = λ t e. ground arith;
}

run_time : (now : ℕ) (o : Option ℕ) → ((t : ℕ) → o ≡ some t → t ≤ now) → null_or_le o now ≡ true
run_time now none h = refl
run_time now (some t) h = ground (arith, h t refl)

is_due-IsDue : (now : ℕ) (j : Job) → IsDue now j → is_due now j ≡ true
is_due-IsDue now j d =
    ground (arith, d.on, schedulable-IsWaiting j.status d.waits, run_time now j.next_run_at d.time)

-- `due_jobs` returns exactly the enabled jobs of the table that are idle, completed, continuing or
-- to be retried and whose next_run_at is absent or not after the present second.
pub Has-due_jobs :
    (now : ℕ) (jobs : List Job) (j : Job)
    → Has j (due_jobs now jobs) ↔ (Has j jobs × IsDue (now_iso now) j)
unfolding due_jobs
Has-due_jobs now jobs j = (forward, backward)
  where
    forward :
        Has j (order_by due_before (select (is_due (now_iso now)) jobs))
        → Has j jobs × IsDue (now_iso now) j
    forward h =
        let found = Has-order_by due_before j (select (is_due (now_iso now)) jobs) h in
        (
          Has-select (is_due (now_iso now)) j jobs found,
          IsDue-is_due (now_iso now) j
              (All-Has _ (select (is_due (now_iso now)) jobs) (select_matches _ jobs) found),
        )

    backward :
        Has j jobs × IsDue (now_iso now) j
        → Has j (order_by due_before (select (is_due (now_iso now)) jobs))
    backward h =
        Has-order_by_intro due_before j (select (is_due (now_iso now)) jobs)
          (Has-select_intro (is_due (now_iso now)) j jobs (is_due-IsDue (now_iso now) j h.1) h.0)

-- Job `i` may stand in front of job `j`: it has a higher priority, or the same one and its
-- next_run_at is absent or not later.
pub record MayPrecede (i j : Job) : Type 0 where
  pub priority : j.priority ≤ i.priority
  pub next_run : i.priority ≡ j.priority → run_le i.next_run_at j.next_run_at ≡ true

due_before-total : (i j : Job) → due_before i j ≡ false → due_before j i ≡ true
due_before-total i j h = ground arith

due_before_trans :
    (i j k : Job) → due_before i j ≡ true → due_before j k ≡ true → due_before i k ≡ true
due_before_trans i j k h l = ground arith

due-IsOrder : IsOrder due_before
due-IsOrder = record { total = due_before-total; trans = due_before_trans }

due_before-MayPrecede : (i j : Job) → due_before i j ≡ true → MayPrecede i j
due_before-MayPrecede i j h = record { priority = ground arith; next_run = λ e. ground arith }

-- Each job may stand in front of all those behind it.
abbrev pub Ranked : List Job → Type 0
Ranked [] = Unit
Ranked (j ∷ jobs) = All (λ k. MayPrecede j k) jobs × Ranked jobs

Sorted-Ranked : (jobs : List Job) → Sorted due_before jobs → Ranked jobs
Sorted-Ranked [] h = tt
Sorted-Ranked (j ∷ jobs) h =
    (All-map _ _ (λ k e. due_before-MayPrecede j k e) jobs h.0, Sorted-Ranked jobs h.1)

-- In the result of `due_jobs` no job stands behind one of lower priority, nor, among jobs of one
-- priority, behind one with a later next_run_at or before one with none.
pub Ranked-due_jobs : (now : ℕ) (jobs : List Job) → Ranked (due_jobs now jobs)
unfolding due_jobs
Ranked-due_jobs now jobs =
    Sorted-Ranked _ (Sorted-order_by due_before due-IsOrder (select (is_due (now_iso now)) jobs))
