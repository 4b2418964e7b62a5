-- ===== src/Fetching/Queue/Statements/Exclusive.antt =====
-- No row is claimed twice, whatever the statements of other processes come in between: `claim_next` of
-- db_collector_os/fetching/queue.py.
use mathlib.Core.Option.{some-injective}
use db_collector_os.Prelude.{
  ℕ, ◌<◌, ◌≡◌, ◌≢◌, refl, sym, ap, ◌∙◌, subst, String, Option, none, some, false, List, [], ◌∷◌,
  arith, ◌==◌, eq_iff, =?→eq, first, first-Has, first_matches, Has, All, All-Has, All-map,
  All-update_split, Unique-Has, Bool-cases, inl, inr,
}
use db_collector_os.Fetching.Queue.{
  Item, FetchQueue, select_next, claim_at, has_queue_id, set_fetching,
}
use db_collector_os.Fetching.Queue.Ops.{IsWellFormed, claim-IsWellFormed, apply-IsWellFormed}
use db_collector_os.Fetching.Queue.Claim.{selected_row}
use db_collector_os.Fetching.Queue.InFlight.{
  LeavesInFlight, InFlight, claim_at-InFlight, apply-InFlight,
}
use db_collector_os.Fetching.Queue.Statements.{
  Shared, set_picked, Statement, do_select, do_update, do_call, claimed_by, step, run_steps,
}
use db_collector_os.Fetching.Queue.Statements.Rows.{IsOf, claim_at-IsOf, apply-IsOf}

-- A statement that does not end the fetch of the row.
abbrev pub Leaves : ℕ → String → Statement → Type 0
Leaves id job (do_call op) = LeavesInFlight id job op
Leaves id job _ = Unit

found_row :
    (items : List Item) (y : Item)
    → All (λ s. s.queue_id ≡ y.queue_id → s ≡ y) items
    → Has y items
    → first (has_queue_id y.queue_id) items ≡ some y
found_row [] y a m = absurd m
found_row (s ∷ items) y a m = elim (Bool-cases (has_queue_id y.queue_id s)) [
  | inl t ↦ rw t (ap some (a.0 (=?→eq s.queue_id y.queue_id t)))
  | inr t ↦ elim m [
    | inl e ↦ absurd (ground (arith, t, ap (λ (x : Item). x.queue_id) e))
    | inr k ↦ rw t (found_row items y a.1 k)
  ]
]

selected-IsOf :
    (now : ℕ) (job : String) (domains : Option (List String)) (q : FetchQueue) (y : Item)
    → IsWellFormed q
    → select_next now job domains q ≡ some y
    → IsOf y.queue_id job q.items
selected-IsOf now job domains q y w e =
    let (m, ready) = selected_row now job domains q y e in
    record {
      row = y;
      found = found_row q.items y (Unique-Has (λ (x : Item). x.queue_id) q.items y w.ids m) m;
      of_job = ready.of_job;
    }

-- A row that is picked after `set_picked`: the new one, or an old one of another job.
data Picked (job : String) (o : Option Item) (picked : String → Option Item) (k : String) (y : Item)
    : Type 0 where
  new_pick : k ≡ job → o ≡ some y → Picked job o picked k y
  old_pick : (k == job) ≡ false → picked k ≡ some y → Picked job o picked k y

picks :
    (job : String) (o : Option Item) (picked : String → Option Item) (k : String) (y : Item)
    → set_picked job o picked k ≡ some y
    → Picked job o picked k y
picks job o picked k y e = elim (Bool-cases (k == job)) [
  | inl t ↦ new_pick ((eq_iff k job).0 t) (rw t at e)
  | inr t ↦ old_pick t (rw t at e)
]

-- The queue is well-formed, and a job's process has picked a row of the job.
record Coherent (s : Shared) : Type 0 where
  wf : IsWellFormed s.queue
  owned : (k : String) (y : Item) → s.picked k ≡ some y → IsOf y.queue_id k s.queue.items

module _ (normalize_url extract_domain : String → String) where
  step-Coherent :
      (now : ℕ) (t : Statement) (s : Shared)
      → Coherent s
      → Coherent (step normalize_url extract_domain now t s)
  unfolding step
  step-Coherent now (do_select job domains) s h = record {
    wf = h.wf;
    owned = λ k y e. go k y (picks job (select_next now job domains s.queue) s.picked k y e);
  }
    where
      go :
          (k : String) (y : Item)
          → Picked job (select_next now job domains s.queue) s.picked k y
          → IsOf y.queue_id k s.queue.items
      go k y (new_pick t e) =
          subst (λ x. IsOf y.queue_id x s.queue.items) (sym t)
            (selected-IsOf now job domains s.queue y h.wf e)
      go k y (old_pick t e) = h.owned k y e
  step-Coherent now (do_update job) s h = record {
    wf = claim-IsWellFormed (s.picked job) s.queue h.wf;
    owned = λ k y e. go k y (picks job none s.picked k y e);
  }
    where
      go :
          (k : String) (y : Item)
          → Picked job none s.picked k y
          → IsOf y.queue_id k (claim_at (s.picked job) s.queue).0.items
      go k y (new_pick t e) = absurd (cc e)
      go k y (old_pick t e) = claim_at-IsOf y.queue_id k (s.picked job) s.queue (h.owned k y e)
  step-Coherent now (do_call op) s h = record {
    wf = apply-IsWellFormed normalize_url extract_domain now op s.queue h.wf;
    owned = λ k y e.
        apply-IsOf y.queue_id k normalize_url extract_domain now op s.queue (h.owned k y e);
  }

  run_steps-Coherent :
      (ts : List (ℕ × Statement)) (s : Shared)
      → Coherent s
      → Coherent (run_steps normalize_url extract_domain ts s)
  unfolding run_steps
  run_steps-Coherent [] s h = h
  run_steps-Coherent ((now, t) ∷ ts) s h =
      run_steps-Coherent ts (step normalize_url extract_domain now t s) (step-Coherent now t s h)

  -- The row is being fetched, and no process has picked it.
  record Held (id : ℕ) (job : String) (s : Shared) : Type 0 where
    in_flight : InFlight normalize_url extract_domain id job s.queue
    unpicked : (k : String) (y : Item) → s.picked k ≡ some y → y.queue_id ≢ id

  one_job : (id : ℕ) (j k : String) (items : List Item) → IsOf id j items → IsOf id k items → k ≡ j
  one_job id j k items h g =
      let same : h.row ≡ g.row = some-injective h.row g.row (sym h.found ∙ g.found) in
      sym g.of_job ∙ (sym (ap (λ (i : Item). i.job_id) same) ∙ h.of_job)

  update-InFlight :
      (x : Item) (job : String) (q : FetchQueue)
      → IsWellFormed q
      → IsOf x.queue_id job q.items
      → InFlight normalize_url extract_domain x.queue_id job (claim_at (some x) q).0
  update-InFlight x job q w h =
      let m = first-Has (has_queue_id x.queue_id) q.items h.row h.found in
      let id : h.row.queue_id ≡ x.queue_id =
        =?→eq h.row.queue_id x.queue_id
          (first_matches (has_queue_id x.queue_id) q.items h.row h.found) in
      let of_job : All (λ s. s.queue_id ≡ x.queue_id → s.job_id ≡ job) q.items =
        All-map (λ s. s.queue_id ≡ h.row.queue_id → s ≡ h.row)
          (λ s. s.queue_id ≡ x.queue_id → s.job_id ≡ job)
          (λ s same e. ap (λ (i : Item). i.job_id) (same (e ∙ sym id)) ∙ h.of_job) q.items
          (Unique-Has (λ (i : Item). i.queue_id) q.items h.row w.ids m) in
      record {
        kept =
            All-update_split _ _ (has_queue_id x.queue_id) set_fetching (λ s t k e. (k e, refl))
              (λ s t k e. absurd (ground (arith, t, e))) q.items of_job;
        below = subst (λ n. n < q.next_id) id (All-Has _ q.items w.below m);
      }

  update-Held :
      (now : ℕ) (job : String) (s : Shared) (x : Item)
      → Coherent s
      → s.picked job ≡ some x
      → Held x.queue_id job (step normalize_url extract_domain now (do_update job) s)
  unfolding step
  update-Held now job s x h e = record {
    in_flight =
        subst (λ o. InFlight normalize_url extract_domain x.queue_id job (claim_at o s.queue).0)
          (sym e) (update-InFlight x job s.queue h.wf (h.owned job x e));
    unpicked = λ k y p. go k y (picks job none s.picked k y p);
  }
    where
      go : (k : String) (y : Item) → Picked job none s.picked k y → y.queue_id ≢ x.queue_id
      go k y (new_pick t p) q = cc p
      go k y (old_pick t p) q =
          let mine = subst (λ n. IsOf n k s.queue.items) q (h.owned k y p) in
          let same = one_job x.queue_id job k s.queue.items (h.owned job x e) mine in
          cc (t, (eq_iff k job).1 same)

  step-Held :
      (id : ℕ) (job : String) (now : ℕ) (t : Statement) (s : Shared)
      → Leaves id job t
      → Held id job s
      → Held id job (step normalize_url extract_domain now t s)
  unfolding step
  step-Held id job now (do_select job' domains) s a h = record {
    in_flight = h.in_flight;
    unpicked = λ k y e. go k y (picks job' (select_next now job' domains s.queue) s.picked k y e);
  }
    where
      go :
          (k : String) (y : Item)
          → Picked job' (select_next now job' domains s.queue) s.picked k y
          → y.queue_id ≢ id
      go k y (old_pick t e) q = h.unpicked k y e q
      go k y (new_pick t e) q =
          let (m, ready) = selected_row now job' domains s.queue y e in
          let held = (All-Has _ s.queue.items h.in_flight.kept m q).1 in
          ground (arith, held, ready.status)
  step-Held id job now (do_update job') s a h = record {
    in_flight =
        claim_at-InFlight normalize_url extract_domain id job (s.picked job') s.queue h.in_flight;
    unpicked = λ k y e. go k y (picks job' none s.picked k y e);
  }
    where
      go : (k : String) (y : Item) → Picked job' none s.picked k y → y.queue_id ≢ id
      go k y (new_pick t e) q = cc e
      go k y (old_pick t e) q = h.unpicked k y e q
  step-Held id job now (do_call op) s a h = record {
    in_flight = apply-InFlight normalize_url extract_domain id job now op s.queue a h.in_flight;
    unpicked = h.unpicked;
  }

  run_steps-Held :
      (id : ℕ) (job : String) (ts : List (ℕ × Statement)) (s : Shared)
      → All (λ c. Leaves id job c.1) ts
      → Held id job s
      → Held id job (run_steps normalize_url extract_domain ts s)
  unfolding run_steps
  run_steps-Held id job [] s a h = h
  run_steps-Held id job ((now, t) ∷ ts) s a h =
      run_steps-Held id job ts (step normalize_url extract_domain now t s) a.1
        (step-Held id job now t s a.0 h)

  claims_picked :
      (job : String) (s : Shared) (i : Item)
      → claimed_by job s ≡ some i
      → (x : Item) × (s.picked job ≡ some x) × (x.queue_id ≡ i.queue_id)
  claims_picked job s i e = go (s.picked job) refl e
    where
      go :
          (o : Option Item)
          → s.picked job ≡ o
          → (claim_at o s.queue).1 ≡ some i
          → (x : Item) × (s.picked job ≡ some x) × (x.queue_id ≡ i.queue_id)
      go none p e = absurd (cc e)
      go (some x) p e = (x, p, ap (λ (z : Item). z.queue_id) (some-injective (set_fetching x) i e))

  -- `claim_next` is a SELECT and an UPDATE, with any statements of the processes of other jobs and any
  -- calls of the queue between them. Where each job is run by one process at a time, a row that one of
  -- the processes has claimed is claimed by none again, however the statements before and after are
  -- ordered, until it is marked done, skipped or failed, or its job's rows are recovered.
  pub claim_excludes_claim :
      (q : FetchQueue) (before after : List (ℕ × Statement)) (now : ℕ) (job job' : String)
      (i j : Item)
      → IsWellFormed q
      → claimed_by job
          (run_steps normalize_url extract_domain before (record { queue = q; picked = λ k. none }))
        ≡ some i
      → All (λ c. Leaves i.queue_id job c.1) after
      → claimed_by job' (
          run_steps normalize_url extract_domain after (
            step normalize_url extract_domain now (do_update job) (
              run_steps normalize_url extract_domain before
                (record { queue = q; picked = λ k. none }))))
        ≡ some j
      → j.queue_id ≢ i.queue_id
  claim_excludes_claim q before after now job job' i j w e quiet f =
      let start : Shared = record { queue = q; picked = λ k. none } in
      let s = run_steps normalize_url extract_domain before start in
      let coherent =
        run_steps-Coherent before start (record { wf = w; owned = λ k y p. absurd (cc p) }) in
      let (x, p, same) = claims_picked job s i e in
      let held =
        run_steps-Held i.queue_id job after
          (step normalize_url extract_domain now (do_update job) s) quiet
          (subst (λ n. Held n job (step normalize_url extract_domain now (do_update job) s)) same
            (update-Held now job s x coherent p)) in
      let (y, p', same') =
        claims_picked job'
          (run_steps normalize_url extract_domain after
            (step normalize_url extract_domain now (do_update job) s))
          j f in
      λ c. held.unpicked job' y p' (same' ∙ c)
