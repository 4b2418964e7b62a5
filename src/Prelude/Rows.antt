-- ===== src/Prelude/Rows.antt =====
-- Laws of the statements on tables, for every table and every WHERE clause.
use mathlib.Core.Option
use Prim.Native.Nat.{ℕ, zero, suc, ◌+◌, ◌≤◌}
use mathlib.Core.Path.{◌≡◌, refl, sym, ap, ◌∙◌}
use mathlib.Core.Logic.{◌⊎◌, ◌≢◌, inl, inr}
use mathlib.Core.Bool.{Bool, true, false}
use mathlib.Core.Option.{Option, none, some}
use mathlib.Core.List.{List, [], ◌∷◌, ◌++◌}
use native.Mathlib.Omega.{arith}
use db_collector_os.Prelude.Tests.{ltb, if◌then◌else◌, Bool-cases}
use db_collector_os.Prelude.Table.{select, first, count, update_where, limit, length}

-- Every row satisfies `P`.
abbrev pub All {ℓ κ} : {R : Type ℓ} → (R → Type κ) → List R → Type κ
All P [] = Unit
All P (r ∷ rows) = P r × All P rows

-- The row `r` stands in the table.
abbrev pub Has : {R : Type 0} → R → List R → Type 0
Has r [] = ⊥
Has r (s ∷ rows) = (r ≡ s) ⊎ Has r rows

-- No two rows have the same key.
abbrev pub Unique {ℓ κ} : {R : Type ℓ} {K : Type κ} → (R → K) → List R → Type κ
Unique key [] = Unit
Unique key (r ∷ rows) = All (λ s. key s ≢ key r) rows × Unique key rows

module _ {ℓ} {R : Type ℓ} where
  -- The first row that matches, after an UPDATE that does not change whether a row matches.
  pub first-update_where :
      (p q : R → Bool) (f : R → R)
      → ((r : R) → q (f r) ≡ q r)
      → (rows : List R)
      → first q (update_where p f rows) ≡ Option.map (λ r. if p r then f r else r) (first q rows)
  first-update_where p q f h [] = refl
  first-update_where p q f h (r ∷ rows) = ground (arith, h r, first-update_where p q f h rows)

  pub first-append :
      (q : R → Bool) (rows more : List R)
      → first q rows ≡ none
      → first q (rows ++ more) ≡ first q more
  first-append q [] more h = refl
  first-append q (r ∷ rows) more h = ground (arith, first-append q rows more)

  pub first-append_some :
      (q : R → Bool) (rows more : List R) (r : R)
      → first q rows ≡ some r
      → first q (rows ++ more) ≡ some r
  first-append_some q [] more r h = ground arith
  first-append_some q (s ∷ rows) more r h = ground (arith, first-append_some q rows more r)

  -- What `fetchone` finds matches, and stands in the table.
  pub first_matches : (q : R → Bool) (rows : List R) (r : R) → first q rows ≡ some r → q r ≡ true
  first_matches q [] r h = ground arith
  first_matches q (s ∷ rows) r h = ground (arith, first_matches q rows r)

  -- An UPDATE of the row that a SELECT by the same clause finds.
  pub first-update_same :
      (q : R → Bool) (f : R → R)
      → ((r : R) → q (f r) ≡ q r)
      → (rows : List R) (r : R) → first q rows ≡ some r
      → first q (update_where q f rows) ≡ some (f r)
  first-update_same q f h rows r e =
      rw (first-update_where q q f h rows) (rw e (rw (first_matches q rows r e)))

  pub first-none :
      (q : R → Bool) (rows : List R) → first q rows ≡ none → All (λ r. q r ≡ false) rows
  first-none q [] h = tt
  first-none q (s ∷ rows) h = ground (arith, first-none q rows)

  pub length-append : (xs ys : List R) → length (xs ++ ys) ≡ length xs + length ys
  length-append [] ys = omega arith
  length-append (x ∷ xs) ys = omega (arith, length-append xs ys)

  pub count-append : (p : R → Bool) (xs ys : List R) → count p (xs ++ ys) ≡ count p xs + count p ys
  count-append p [] ys = omega arith
  count-append p (x ∷ xs) ys = ground (arith, count-append p xs ys)

  pub count-le-length : (p : R → Bool) (rows : List R) → count p rows ≤ length rows
  count-le-length p [] = omega arith
  count-le-length p (r ∷ rows) = ground (arith, count-le-length p rows)

  pub length-limit : (n : ℕ) (rows : List R) → length (limit n rows) ≤ n
  length-limit zero rows = omega arith
  length-limit (suc n) [] = omega arith
  length-limit (suc n) (r ∷ rows) = omega (arith, length-limit n rows)

  -- An UPDATE that does not change whether a row is counted.
  pub count-update_where :
      (p q : R → Bool) (f : R → R)
      → ((r : R) → q (f r) ≡ q r)
      → (rows : List R) → count q (update_where p f rows) ≡ count q rows
  count-update_where p q f h [] = refl
  count-update_where p q f h (r ∷ rows) = ground (arith, h r, count-update_where p q f h rows)

  -- An UPDATE that matches no row.
  pub update_where-none :
      (p : R → Bool) (f : R → R) (rows : List R)
      → ltb 0 (count p rows) ≡ false
      → update_where p f rows ≡ rows
  update_where-none p f [] h = refl
  update_where-none p f (r ∷ rows) h = elim (Bool-cases (p r)) [
    | inl e ↦ absurd (ground (arith, e, h))
    | inr e ↦ rw e (ap (λ (t : List R). r ∷ t) (update_where-none p f rows (ground (arith, e, h))))
  ]

  pub count-zero-first : (p : R → Bool) (rows : List R) → count p rows ≡ 0 → first p rows ≡ none
  count-zero-first p [] h = refl
  count-zero-first p (r ∷ rows) h = ground (arith, count-zero-first p rows)

module _ {R : Type 0} where
  pub first-Has : (q : R → Bool) (rows : List R) (r : R) → first q rows ≡ some r → Has r rows
  first-Has q [] r h = ground arith
  first-Has q (s ∷ rows) r h = elim (Bool-cases (q s)) [
    | inl e ↦ inl (ground arith)
    | inr e ↦ inr (first-Has q rows r (ground arith))
  ]

  pub Has-tail :
      (r s : R) (xs ys : List R) → (Has r xs → Has r ys) → Has r (s ∷ xs) → Has r (s ∷ ys)
  Has-tail r s xs ys f (inl q) = inl q
  Has-tail r s xs ys f (inr q) = inr (f q)

  pub Has-select : (p : R → Bool) (r : R) (rows : List R) → Has r (select p rows) → Has r rows
  Has-select p r [] h = h
  Has-select p r (s ∷ rows) h = elim (Bool-cases (p s)) [
    | inl e ↦ Has-tail r s _ rows (Has-select p r rows) (rw e at h)
    | inr e ↦ inr (Has-select p r rows (rw e at h))
  ]

  pub select_matches : (p : R → Bool) (rows : List R) → All (λ r. p r ≡ true) (select p rows)
  select_matches p [] = tt
  select_matches p (s ∷ rows) = elim (Bool-cases (p s)) [
    | inl e ↦ rw e (e, select_matches p rows)
    | inr e ↦ rw e (select_matches p rows)
  ]

  pub Has-select_intro :
      (p : R → Bool) (r : R) (rows : List R) → p r ≡ true → Has r rows → Has r (select p rows)
  Has-select_intro p r [] e h = h
  Has-select_intro p r (s ∷ rows) e (inl q) = let t : p s ≡ true = sym (ap p q) ∙ e in rw t (inl q)
  Has-select_intro p r (s ∷ rows) e (inr q) = elim (Bool-cases (p s)) [
    | inl t ↦ rw t (inr (Has-select_intro p r rows e q))
    | inr t ↦ rw t (Has-select_intro p r rows e q)
  ]

pub All-Has {κ} :
    {R : Type 0} (P : R → Type κ) (rows : List R) {r : R} → All P rows → Has r rows → P r
All-Has P [] h k = absurd k
All-Has P (s ∷ rows) h (inl q) = rw q h.0
All-Has P (s ∷ rows) h (inr q) = All-Has P rows h.1 q

module _ {ℓ κ} {R : Type ℓ} (P : R → Type κ) where
  pub All-append : (xs ys : List R) → All P xs → All P ys → All P (xs ++ ys)
  All-append [] ys h k = k
  All-append (x ∷ xs) ys h k = (h.0, All-append xs ys h.1 k)

  pub All-update_where :
      (p : R → Bool) (f : R → R)
      → ((r : R) → P r → P (f r))
      → (rows : List R) → All P rows
      → All P (update_where p f rows)
  All-update_where p f k [] h = tt
  All-update_where p f k (r ∷ rows) h = elim (Bool-cases (p r)) [
    | inl e ↦ rw e (k r h.0, All-update_where p f k rows h.1)
    | inr e ↦ rw e (h.0, All-update_where p f k rows h.1)
  ]

  -- Each row, by whether the UPDATE changes it.
  pub All-update_split {μ} :
      (Q : R → Type μ) (p : R → Bool) (f : R → R)
      → ((r : R) → p r ≡ true → P r → Q (f r))
      → ((r : R) → p r ≡ false → P r → Q r)
      → (rows : List R) → All P rows
      → All Q (update_where p f rows)
  All-update_split Q p f k l [] h = tt
  All-update_split Q p f k l (r ∷ rows) h = elim (Bool-cases (p r)) [
    | inl e ↦ rw e (k r e h.0, All-update_split Q p f k l rows h.1)
    | inr e ↦ rw e (l r e h.0, All-update_split Q p f k l rows h.1)
  ]

  pub All-select : (p : R → Bool) (rows : List R) → All P rows → All P (select p rows)
  All-select p [] h = tt
  All-select p (r ∷ rows) h = elim (Bool-cases (p r)) [
    | inl e ↦ rw e (h.0, All-select p rows h.1)
    | inr e ↦ rw e (All-select p rows h.1)
  ]

  pub All-limit : (n : ℕ) (rows : List R) → All P rows → All P (limit n rows)
  All-limit zero rows h = tt
  All-limit (suc n) [] h = tt
  All-limit (suc n) (r ∷ rows) h = (h.0, All-limit n rows h.1)

  pub All-map {μ} :
      (Q : R → Type μ) (k : (r : R) → P r → Q r) (rows : List R) → All P rows → All Q rows
  All-map Q k [] h = tt
  All-map Q k (r ∷ rows) h = (k r h.0, All-map Q k rows h.1)

module _ {ℓ κ} {R : Type ℓ} {K : Type κ} (key : R → K) where
  -- An UPDATE that leaves the key columns alone keeps the keys distinct.
  pub Unique-update_where :
      (p : R → Bool) (f : R → R)
      → ((r : R) → key (f r) ≡ key r)
      → (rows : List R) → Unique key rows
      → Unique key (update_where p f rows)
  Unique-update_where p f k [] h = tt
  Unique-update_where p f k (r ∷ rows) h = elim (Bool-cases (p r)) [
    | inl e ↦
        rw (e, k r)
          (
            All-update_where _ p f (λ s ne. rw (k s) ne) rows h.0,
            Unique-update_where p f k rows h.1,
          )
    | inr e ↦
        rw e (
          All-update_where _ p f (λ s ne. rw (k s) ne) rows h.0,
          Unique-update_where p f k rows h.1,
        )
  ]

  pub Unique-append_row :
      (rows : List R) (r : R)
      → Unique key rows
      → All (λ s. key s ≢ key r) rows
      → Unique key (rows ++ r ∷ [])
  Unique-append_row [] r h fresh = (tt, tt)
  Unique-append_row (s ∷ rows) r h fresh = (
    All-append _ rows (r ∷ []) h.0 (λ e. fresh.0 (sym e), tt),
    Unique-append_row rows r h.1 fresh.1,
  )

-- How many rows an UPDATE that can only reach the row `o` changes.
abbrev pub hits {ℓ} : {R : Type ℓ} → (R → Bool) → Option R → ℕ
hits p none = 0
hits p (some r) = if p r then 1 else 0

module _ {ℓ κ} {R : Type ℓ} {K : Type κ} (key : R → K) (q p : R → Bool)
    (one : (r s : R) → q r ≡ true → q s ≡ true → key s ≡ key r)
    (inside : (r : R) → q r ≡ false → p r ≡ false) where
  count_absent :
      (r : R) (rows : List R) → q r ≡ true → All (λ s. key s ≢ key r) rows → count p rows ≡ 0
  count_absent r [] h k = refl
  count_absent r (s ∷ rows) h k = elim (Bool-cases (q s)) [
    | inl e ↦ absurd (k.0 (one r s h e))
    | inr e ↦ rw (inside s e) (count_absent r rows h k.1)
  ]

  -- A WHERE clause that fixes the key reaches at most the row that has it.
  pub count_key : (rows : List R) → Unique key rows → count p rows ≡ hits p (first q rows)
  count_key [] u = refl
  count_key (r ∷ rows) u = elim (Bool-cases (q r)) [
    | inl e ↦ rw e (ground (arith, count_absent r rows e u.0))
    | inr e ↦ rw (e, inside r e) (count_key rows u.1)
  ]

All-ne-Has :
    {R K : Type 0} (key : R → K) (k : K) (rows : List R) (r : R)
    → All (λ s. key s ≢ k) rows
    → Has r rows
    → key r ≢ k
All-ne-Has key k rows r h m e = All-Has (λ s. key s ≢ k) rows h m e

-- In a table with distinct keys the rows with a row's key are that row.
pub Unique-Has :
    {R K : Type 0} (key : R → K) (rows : List R) (r : R)
    → Unique key rows
    → Has r rows
    → All (λ s. key s ≡ key r → s ≡ r) rows
Unique-Has key [] r u h = tt
Unique-Has key (s ∷ rows) r u (inl e) =
    (λ _. sym e, All-map _ _ (λ t ne q. absurd (ne (q ∙ ap key e))) rows u.0)
Unique-Has key (s ∷ rows) r u (inr m) =
    (λ q. absurd (All-ne-Has key (key s) rows r u.0 m (sym q)), Unique-Has key rows r u.1 m)
