-- ===== src/Prelude/Table.antt =====
-- An SQL table is the list of its rows in the order of their rowids. These are the statements
-- that the stores run on one table: a SELECT with a WHERE clause, its first row, COUNT(*), an
-- UPDATE with a WHERE clause, ORDER BY and LIMIT.
use Prim.Native.Nat.{ℕ, zero, suc}
use mathlib.Core.Bool.{Bool}
use mathlib.Core.Option.{Option, none, some}
use mathlib.Core.List.{List, [], ◌∷◌}
use db_collector_os.Prelude.Tests.{if◌then◌else◌}

module _ {ℓ} {R : Type ℓ} where
  -- WHERE
  abbrev pub select : (R → Bool) → List R → List R
  select p [] = []
  select p (r ∷ rows) = if p r then r ∷ select p rows else select p rows

  -- fetchone()
  abbrev pub first : (R → Bool) → List R → Option R
  first p [] = none
  first p (r ∷ rows) = if p r then some r else first p rows

  -- COUNT(*)
  abbrev pub count : (R → Bool) → List R → ℕ
  count p [] = 0
  count p (r ∷ rows) = if p r then suc (count p rows) else count p rows

  -- UPDATE … SET … WHERE …
  abbrev pub update_where : (R → Bool) → (R → R) → List R → List R
  update_where p f [] = []
  update_where p f (r ∷ rows) = (if p r then f r else r) ∷ update_where p f rows

  -- LIMIT
  abbrev pub limit : ℕ → List R → List R
  limit zero rows = []
  limit (suc n) [] = []
  limit (suc n) (r ∷ rows) = r ∷ limit n rows

  -- OFFSET
  abbrev pub offset : ℕ → List R → List R
  offset zero rows = rows
  offset (suc n) [] = []
  offset (suc n) (r ∷ rows) = offset n rows

  -- `before r s` says that `r` may stand in front of `s`. Rows that tie keep their table order.
  abbrev pub insert_by : (R → R → Bool) → R → List R → List R
  insert_by before r [] = r ∷ []
  insert_by before r (s ∷ rows) = if before r s then r ∷ s ∷ rows else s ∷ insert_by before r rows

  -- ORDER BY
  abbrev pub order_by : (R → R → Bool) → List R → List R
  order_by before [] = []
  order_by before (r ∷ rows) = insert_by before r (order_by before rows)

  abbrev pub length : List R → ℕ
  length [] = 0
  length (r ∷ rows) = suc (length rows)
