-- ===== src/RunHistory/Immutable.antt =====
-- A finished run is history: db_collector_os/run_history.py never changes it again.
use db_collector_os.Prelude.{
  ℕ, ◌≡◌, ◌≢◌, refl, String, Option, none, some, Bool, true, false, ◌&&◌, List, [], ◌∷◌, ◌++◌,
  arith, inl, inr, ◌-◌, first, first_matches, update_where, Has, Bool-cases, first-update_where,
}
use db_collector_os.Clock.{from_iso}
use db_collector_os.Models.Enums.{RunStatus, running}
use db_collector_os.RunHistory.{
  Run, Counts, has_run_id, is_running, start, finish, finish_at, finalized, get,
}

-- A call that writes the table, with its instant.
pub data RunOp : Type 0 where
  do_start : (now : ℕ) (run_id job_id : String) → RunOp
  do_finish : (now : ℕ) (run_id : String) → RunStatus → Counts → RunOp

unfoldable pub apply : RunOp → List Run → List Run
apply (do_start now run_id job_id) runs = start now run_id job_id runs
apply (do_finish now run_id status counts) runs = (finish now run_id status counts runs).0

unfoldable pub run_ops : List RunOp → List Run → List Run
unfolding apply
run_ops [] runs = runs
run_ops (op ∷ ops) runs = run_ops ops (apply op runs)

Has-append : (r : Run) (runs more : List Run) → Has r runs → Has r (runs ++ more)
Has-append r [] more h = absurd h
Has-append r (s ∷ runs) more (inl e) = inl e
Has-append r (s ∷ runs) more (inr h) = inr (Has-append r runs more h)

Has-update_other :
    (p : Run → Bool) (f : Run → Run) (r : Run)
    → p r ≡ false
    → (runs : List Run) → Has r runs
    → Has r (update_where p f runs)
Has-update_other p f r out [] h = h
Has-update_other p f r out (s ∷ runs) (inl e) = let t : p s ≡ false = rw (← e) out in rw t (inl e)
Has-update_other p f r out (s ∷ runs) (inr h) = inr (Has-update_other p f r out runs h)

not_running :
    (r : Run) (id : String) → r.status ≢ running → (has_run_id id r && is_running r) ≡ false
not_running r id h = elim (Bool-cases (is_running r)) [
  | inl t ↦ absurd (h (ground arith))
  | inr t ↦ ground arith
]

Has-finish_at :
    (now : ℕ) (id : String) (status : RunStatus) (counts : Counts) (o : Option Run) (r : Run)
    (runs : List Run)
    → r.status ≢ running
    → Has r runs
    → Has r (finish_at now id status counts o runs).0
Has-finish_at now id status counts none r runs over h = h
Has-finish_at now id status counts (some s) r runs over h = elim (Bool-cases (is_running s)) [
  | inl t ↦ rw t (
      Has-update_other (λ x. has_run_id id x && is_running x)
        (finalized now (now - from_iso s.started_at) status counts) r (not_running r id over) runs
        h)
  | inr t ↦ rw t h
]

-- A row whose run is not running stands in the table, with every column as it is, after any calls
-- of `start` and `finish`, its own run's included.
pub finished_forever :
    (ops : List RunOp) (r : Run) (runs : List Run)
    → r.status ≢ running
    → Has r runs
    → Has r (run_ops ops runs)
unfolding run_ops start finish
finished_forever [] r runs over h = h
finished_forever (do_start now run_id job_id ∷ ops) r runs over h =
    finished_forever ops r _ over (Has-append r runs _ h)
finished_forever (do_finish now id status counts ∷ ops) r runs over h =
    finished_forever ops r _ over
      (Has-finish_at now id status counts (first (has_run_id id) runs) r runs over h)

abbrev duration : ℕ → Run → ℕ
duration now r = now - from_iso r.started_at

-- Of a running row `finish` writes the status, the time, the duration and the counts that are
-- given, and returns True; where the row is not running it changes nothing and returns False.
pub finish_lem :
    (now : ℕ) (id : String) (status : RunStatus) (counts : Counts) (runs : List Run) (r : Run)
    → get id runs ≡ some r
    → (r.status ≡ running
        → (get id (finish now id status counts runs).0
            ≡ some (finalized now (duration now r) status counts r))
          × ((finish now id status counts runs).1 ≡ true))
      × (r.status ≢ running → finish now id status counts runs ≡ (runs, false))
unfolding finish get
finish_lem now id status counts runs r e = (
  λ t.
      let q : is_running r ≡ true = rw t refl in
      rw (e, q)
        (
          rw
              (first-update_where (λ s. has_run_id id s && is_running s) (has_run_id id)
                (finalized now (duration now r) status counts) (λ s. refl) runs)
              (rw e (rw (first_matches (has_run_id id) runs r e) (rw q refl))),
          refl,
        ),
  λ ne.
      rw e (elim (Bool-cases (is_running r)) [
        | inl t ↦ absurd (ne (ground arith))
        | inr t ↦ rw t refl
      ]),
)

-- A run is finalized once: after a call of `finish` with a status other than running, another
-- one, whatever its status and counts, changes nothing and returns False.
pub finish_once :
    (now later : ℕ) (id : String) (status status' : RunStatus) (counts counts' : Counts)
    (runs : List Run) (r : Run)
    → get id runs ≡ some r
    → status ≢ running
    → finish later id status' counts' (finish now id status counts runs).0
      ≡ ((finish now id status counts runs).0, false)
finish_once now later id status status' counts counts' runs r e over =
    elim (Bool-cases (is_running r)) [
      | inl t ↦
          (finish_lem later id status' counts' (finish now id status counts runs).0
              (finalized now (duration now r) status counts r)
              ((finish_lem now id status counts runs r e).0 (ground arith)).0).1
            over
      | inr t ↦
          let ne : r.status ≢ running = λ u. ground arith in
          rw ((finish_lem now id status counts runs r e).1 ne)
            ((finish_lem later id status' counts' runs r e).1 ne)
    ]
