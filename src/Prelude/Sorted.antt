-- ===== src/Prelude/Sorted.antt =====
-- ORDER BY: the rows come back sorted, and they are the rows that were there.
use mathlib.Core.Path.{◌≡◌, subst}
use mathlib.Core.Logic.{inl, inr}
use mathlib.Core.Bool.{Bool, true, false}
use mathlib.Core.Option.{Option, none, some}
use mathlib.Core.List.{List, [], ◌∷◌}
use db_collector_os.Prelude.Tests.{Bool-cases}
use db_collector_os.Prelude.Table.{insert_by, order_by}
use db_collector_os.Prelude.Rows.{All, Has, Has-tail, All-map}

-- Every row may stand before each row behind it.
abbrev pub Sorted {ℓ} : {R : Type ℓ} → (R → R → Bool) → List R → Type 0
Sorted before [] = Unit
Sorted before (r ∷ rows) = All (λ s. before r s ≡ true) rows × Sorted before rows

-- What an ORDER BY clause compares by: any two rows compare, and comparing is transitive.
pub record IsOrder {ℓ} {R : Type ℓ} (before : R → R → Bool) : Type ℓ where
  pub total : (r s : R) → before r s ≡ false → before s r ≡ true
  pub trans : (r s t : R) → before r s ≡ true → before s t ≡ true → before r t ≡ true

module _ {ℓ κ} {R : Type ℓ} (P : R → Type κ) (before : R → R → Bool) where
  All-insert_by : (r : R) (rows : List R) → P r → All P rows → All P (insert_by before r rows)
  All-insert_by r [] h k = (h, tt)
  All-insert_by r (s ∷ rows) h k = elim (Bool-cases (before r s)) [
    | inl e ↦ rw e (h, k)
    | inr e ↦ rw e (k.0, All-insert_by r rows h k.1)
  ]

  pub All-order_by : (rows : List R) → All P rows → All P (order_by before rows)
  All-order_by [] h = tt
  All-order_by (r ∷ rows) h = All-insert_by r (order_by before rows) h.0 (All-order_by rows h.1)

module _ {ℓ} {R : Type ℓ} (before : R → R → Bool) (o : IsOrder before) where
  Sorted-insert_by :
      (r : R) (rows : List R) → Sorted before rows → Sorted before (insert_by before r rows)
  Sorted-insert_by r [] h = (tt, tt)
  Sorted-insert_by r (s ∷ rows) h = elim (Bool-cases (before r s)) [
    | inl e ↦ rw e ((e, All-map _ _ (λ t k. o.trans r s t e k) rows h.0), h)
    | inr e ↦ rw e (All-insert_by _ before r rows (o.total r s e) h.0, Sorted-insert_by r rows h.1)
  ]

  -- The result of ORDER BY is sorted.
  pub Sorted-order_by : (rows : List R) → Sorted before (order_by before rows)
  Sorted-order_by [] = tt
  Sorted-order_by (r ∷ rows) = Sorted-insert_by r (order_by before rows) (Sorted-order_by rows)

module _ {R : Type 0} (before : R → R → Bool) where
  Has-swap : (r s t : R) (rows : List R) → Has r (s ∷ t ∷ rows) → Has r (t ∷ s ∷ rows)
  Has-swap r s t rows (inl q) = inr (inl q)
  Has-swap r s t rows (inr (inl q)) = inl q
  Has-swap r s t rows (inr (inr q)) = inr (inr q)

  Has-insert_by : (r s : R) (rows : List R) → Has r (insert_by before s rows) → Has r (s ∷ rows)
  Has-insert_by r s [] h = h
  Has-insert_by r s (t ∷ rows) h = elim (Bool-cases (before s t)) [
    | inl e ↦ rw e at h
    | inr e ↦ Has-swap r t s rows (Has-tail r t _ (s ∷ rows) (Has-insert_by r s rows) (rw e at h))
  ]

  Has-insert_by_intro :
      (r s : R) (rows : List R) → Has r (s ∷ rows) → Has r (insert_by before s rows)
  Has-insert_by_intro r s [] h = h
  Has-insert_by_intro r s (t ∷ rows) h = elim (Bool-cases (before s t)) [
    | inl e ↦ rw e h
    | inr e ↦
        rw e (Has-tail r t (s ∷ rows) _ (Has-insert_by_intro r s rows) (Has-swap r s t rows h))
  ]

  -- ORDER BY neither drops a row nor makes one up.
  pub Has-order_by : (r : R) (rows : List R) → Has r (order_by before rows) → Has r rows
  Has-order_by r [] h = h
  Has-order_by r (s ∷ rows) h =
      Has-tail r s _ rows (Has-order_by r rows) (Has-insert_by r s (order_by before rows) h)

  pub Has-order_by_intro : (r : R) (rows : List R) → Has r rows → Has r (order_by before rows)
  Has-order_by_intro r [] h = h
  Has-order_by_intro r (s ∷ rows) h =
      Has-insert_by_intro r s (order_by before rows)
        (Has-tail r s rows _ (Has-order_by_intro r rows) h)

-- ORDER BY … LIMIT 1
abbrev pub head? {ℓ} : {R : Type ℓ} → List R → Option R
head? [] = none
head? (r ∷ rows) = some r

module _ {ℓ} {R : Type ℓ} (before : R → R → Bool) (o : IsOrder before) where
  before_refl : (r : R) → before r r ≡ true
  before_refl r = elim (Bool-cases (before r r)) [ inl e ↦ e | inr e ↦ o.total r r e ]

  Sorted-head? :
      (rows : List R) (r : R)
      → Sorted before rows
      → head? rows ≡ some r
      → All (λ s. before r s ≡ true) rows
  Sorted-head? [] r k e = tt
  Sorted-head? (x ∷ rows) r k e =
      let q : x ≡ r = cc in
      subst (λ y. All (λ s. before y s ≡ true) (x ∷ rows)) q (before_refl x, k.0)

  -- The row of ORDER BY … LIMIT 1 may stand before every row that was selected.
  pub head?-order_by :
      (rows : List R) (r : R)
      → head? (order_by before rows) ≡ some r
      → All (λ s. before r s ≡ true) (order_by before rows)
  head?-order_by rows r h = Sorted-head? (order_by before rows) r (Sorted-order_by before o rows) h
