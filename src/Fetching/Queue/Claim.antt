-- ===== src/Fetching/Queue/Claim.antt =====
-- `claim_next` of db_collector_os/fetching/queue.py.
use db_collector_os.Prelude.{
  ℕ, ◌≤◌, ◌≡◌, refl, Option, none, some, Bool, true, false, List, [], ◌∷◌, String, arith, ◌==◌,
  eq_iff, inl, inr, Bool-cases, update_where, Has, select, order_by, All-Has, Has-select,
  Has-select_intro, select_matches, leb,
}
use db_collector_os.Prelude.Sorted.{
  head?, IsOrder, head?-order_by, Has-order_by, Has-order_by_intro,
}
use db_collector_os.Clock.{now_iso}
use db_collector_os.Models.Enums.{queued}
use db_collector_os.Fetching.Queue.{
  Item, FetchQueue, claim_next, claim_at, select_next, claim_before, is_ready, is_member,
  in_domains, set_fetching, has_queue_id,
}

-- What a worker may claim for a job at the second `now`: a queued row of the job whose retry time
-- has come and, if only some domains are ready, of one of these.
pub record IsReady (now : ℕ) (job : String) (domains : Option (List String)) (i : Item)
    : Type 0 where
  pub of_job : i.job_id ≡ job
  pub status : i.status ≡ queued
  pub retry : (t : ℕ) → i.next_retry_at ≡ some t → t ≤ now
  pub domain : (ds : List String) → domains ≡ some ds → Has i.domain ds

is_member-Has : (s : String) (ds : List String) → is_member s ds ≡ true → Has s ds
is_member-Has s [] h = ground arith
is_member-Has s (t ∷ ds) h = elim (Bool-cases (s == t)) [
  | inl e ↦ inl ((eq_iff s t).0 e)
  | inr e ↦ inr (is_member-Has s ds (rw e at h))
]

Has-is_member : (s : String) (ds : List String) → Has s ds → is_member s ds ≡ true
Has-is_member s [] h = absurd h
Has-is_member s (t ∷ ds) (inl e) = rw ((eq_iff s t).1 e)
Has-is_member s (t ∷ ds) (inr h) = ground (arith, Has-is_member s ds h)

in_domains-Has :
    (domains : Option (List String)) (d : String)
    → in_domains domains d ≡ true
    → (ds : List String) → domains ≡ some ds
    → Has d ds
in_domains-Has none d h ds e = cc
in_domains-Has (some cs) d h ds e = let q : cs ≡ ds = cc in rw q at (is_member-Has d cs h)

Has-in_domains :
    (domains : Option (List String)) (d : String)
    → ((ds : List String) → domains ≡ some ds → Has d ds)
    → in_domains domains d ≡ true
Has-in_domains none d h = refl
Has-in_domains (some ds) d h = Has-is_member d ds (h ds refl)

module _ (now : ℕ) (job : String) (domains : Option (List String)) where
  IsReady-is_ready : (i : Item) → is_ready now job domains i ≡ true → IsReady now job domains i
  IsReady-is_ready i h = record {
    of_job = ground (arith, eq_iff i.job_id job);
    status = ground arith;
    retry = λ t e. ground arith;
    domain = in_domains-Has domains i.domain (ground arith);
  }

  due_retry :
      (o : Option ℕ)
      → ((t : ℕ) → o ≡ some t → t ≤ now)
      → elim o [ none ↦ true | some t ↦ leb t now ] ≡ true
  due_retry none h = refl
  due_retry (some t) h = ground (arith, h t refl)

  is_ready-IsReady : (i : Item) → IsReady now job domains i → is_ready now job domains i ≡ true
  is_ready-IsReady i r = ground (
    arith,
    eq_iff i.job_id job,
    r.of_job,
    r.status,
    due_retry i.next_retry_at r.retry,
    Has-in_domains domains i.domain r.domain,
  )

-- `i` has a higher priority than `j`, or the same one and was queued no later.
pub record Precedes (i j : Item) : Type 0 where
  pub priority : j.priority ≤ i.priority
  pub oldest : i.priority ≡ j.priority → i.queue_id ≤ j.queue_id

claim_before-Precedes : (i j : Item) → claim_before i j ≡ true → Precedes i j
claim_before-Precedes i j h = ground arith

claim_before-total : (i j : Item) → claim_before i j ≡ false → claim_before j i ≡ true
claim_before-total i j h = ground arith

claim_before_trans :
    (i j k : Item) → claim_before i j ≡ true → claim_before j k ≡ true → claim_before i k ≡ true
claim_before_trans i j k h l = ground arith

claim-IsOrder : IsOrder claim_before
claim-IsOrder = record { total = claim_before-total; trans = claim_before_trans }

head?-Has : (items : List Item) (i : Item) → head? items ≡ some i → Has i items
head?-Has [] i h = ground arith
head?-Has (j ∷ items) i h = inl (cc)

head?-none : (items : List Item) (i : Item) → head? items ≡ none → ¬ Has i items
head?-none [] i h k = k
head?-none (j ∷ items) i h k = cc

module _ (now : ℕ) (job : String) (domains : Option (List String)) (q : FetchQueue) where
  abbrev ready : Item → Bool
  ready = is_ready (now_iso now) job domains

  -- What a claim returns and does to the table, by the row it takes.
  pub data Claimed : FetchQueue × Option Item → Type 0 where
    claimed_none :
        ((i : Item) → Has i q.items → ¬ IsReady (now_iso now) job domains i) → Claimed (q, none)
    claimed_some :
        (i : Item)
        → Has i q.items
        → IsReady (now_iso now) job domains i
        → ((j : Item) → Has j q.items → IsReady (now_iso now) job domains j → Precedes i j)
        → Claimed (
          record q { items = update_where (has_queue_id i.queue_id) set_fetching q.items },
          some (set_fetching i),
        )

  -- A row that the SELECT finds.
  pub selected_row :
      (i : Item)
      → select_next now job domains q ≡ some i
      → Has i q.items × IsReady (now_iso now) job domains i
  selected_row i e =
      let found = Has-order_by claim_before i (select ready q.items) (head?-Has _ i e) in
      (
        Has-select ready i q.items found,
        IsReady-is_ready (now_iso now) job domains i
            (All-Has _ (select ready q.items) (select_matches ready q.items) found),
      )

  claim_at-Claimed :
      (o : Option Item)
      → head? (order_by claim_before (select ready q.items)) ≡ o
      → Claimed (claim_at o q)
  claim_at-Claimed none e = claimed_none (λ i h r. head?-none _ i e (
      Has-order_by_intro claim_before i (select ready q.items)
        (Has-select_intro ready i q.items (is_ready-IsReady (now_iso now) job domains i r) h)))
  claim_at-Claimed (some i) e = claimed_some i (selected_row i e).0 (selected_row i e).1 (λ j h r.
      claim_before-Precedes i j (
        All-Has _ (order_by claim_before (select ready q.items))
          (head?-order_by claim_before claim-IsOrder (select ready q.items) i e)
          (Has-order_by_intro claim_before j (select ready q.items)
            (Has-select_intro ready j q.items (is_ready-IsReady (now_iso now) job domains j r) h))))

  -- `claim_next` returns nothing exactly when no row is ready, and then changes nothing; otherwise
  -- it takes a ready row of the highest priority, among these the one queued first, and marks the
  -- row with that queue_id, and no other, as being fetched.
  pub claim_next-Claimed : Claimed (claim_next now job domains q)
  unfolding claim_next
  claim_next-Claimed = claim_at-Claimed _ refl
