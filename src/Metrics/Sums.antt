-- ===== src/Metrics/Sums.antt =====
-- What `bump` of db_collector_os/metrics.py does to the row of the day, and to the others.
use db_collector_os.Prelude.{
  ℕ, ◌+◌, ◌≡◌, ◌≢◌, refl, sym, ◌∙◌, String, Option, none, some, Bool, true, false, if◌then◌else◌,
  arith, List, [], ◌∷◌, ◌++◌, first, update_where, first-append, first-append_some,
  first-update_same, eq_refl, eq_iff, ◌==◌, inl, inr, Bool-cases,
}
use db_collector_os.Metrics.{
  DailyMetrics, MetricsField, new_entities, updated_entities, fetch_success, fetch_errors,
  review_count, jobs_executed, runtime_seconds, pages_fetched, unknown, of_date, zero_row,
  raise_field, insert_at, raise_each, bump, today, or_zero,
}

-- The increments, one after another, on one row.
abbrev raised_by : List (MetricsField × ℕ) → DailyMetrics → DailyMetrics
raised_by [] m = m
raised_by ((f, n) ∷ fs) m = raised_by fs (raise_field f n m)

date-raise_field : (f : MetricsField) (n : ℕ) (m : DailyMetrics) → (raise_field f n m).date ≡ m.date
date-raise_field new_entities n m = refl
date-raise_field updated_entities n m = refl
date-raise_field fetch_success n m = refl
date-raise_field fetch_errors n m = refl
date-raise_field review_count n m = refl
date-raise_field jobs_executed n m = refl
date-raise_field runtime_seconds n m = refl
date-raise_field pages_fetched n m = refl
date-raise_field unknown n m = refl

same_date :
    (day : String) (f : MetricsField) (n : ℕ) (m : DailyMetrics)
    → of_date day (raise_field f n m) ≡ of_date day m
same_date day f n m = rw (date-raise_field f n m) refl

first-raise_each :
    (day : String) (fs : List (MetricsField × ℕ)) (rows : List DailyMetrics) (m : DailyMetrics)
    → first (of_date day) rows ≡ some m
    → first (of_date day) (raise_each day fs rows) ≡ some (raised_by fs m)
first-raise_each day [] rows m e = e
first-raise_each day ((f, n) ∷ fs) rows m e =
    first-raise_each day fs _ (raise_field f n m)
      (first-update_same (of_date day) (raise_field f n) (same_date day f n) rows m e)

other-update :
    (day other : String) (f : MetricsField) (n : ℕ) (rows : List DailyMetrics)
    → other ≢ day
    → first (of_date other) (update_where (of_date day) (raise_field f n) rows)
      ≡ first (of_date other) rows
other-update day other f n [] ne = refl
other-update day other f n (m ∷ rows) ne = elim (Bool-cases (m.date == day)) [
  | inl t ↦
      let same : m.date ≡ day = (eq_iff m.date day).0 t in
      let out : (m.date == other) ≡ false = elim (Bool-cases (m.date == other)) [
        | inl u ↦ absurd (ne (sym ((eq_iff m.date other).0 u) ∙ same))
        | inr u ↦ u
      ] in
      rw t (rw (same_date other f n m) (rw out (other-update day other f n rows ne)))
  | inr t ↦ rw t (elim (Bool-cases (m.date == other)) [
    | inl u ↦ rw u refl
    | inr u ↦ rw u (other-update day other f n rows ne)
  ])
]

other-raise_each :
    (day other : String) (fs : List (MetricsField × ℕ)) (rows : List DailyMetrics)
    → other ≢ day
    → first (of_date other) (raise_each day fs rows) ≡ first (of_date other) rows
other-raise_each day other [] rows ne = refl
other-raise_each day other ((f, n) ∷ fs) rows ne =
    other-raise_each day other fs _ ne ∙ other-update day other f n rows ne

inserted_day :
    (day : String) (o : Option DailyMetrics) (rows : List DailyMetrics)
    → first (of_date day) rows ≡ o
    → first (of_date day) (insert_at day o rows) ≡ some (or_zero day o)
inserted_day day none rows e =
    rw (first-append (of_date day) rows (zero_row day ∷ []) e) (rw (eq_refl day) refl)
inserted_day day (some m) rows e = e

inserted_other :
    (day other : String) (o : Option DailyMetrics) (rows : List DailyMetrics)
    → other ≢ day
    → first (of_date other) (insert_at day o rows) ≡ first (of_date other) rows
inserted_other day other (some m) rows ne = refl
inserted_other day other none rows ne = go (first (of_date other) rows) refl
  where
    go :
        (q : Option DailyMetrics)
        → first (of_date other) rows ≡ q
        → first (of_date other) (rows ++ zero_row day ∷ []) ≡ q
    go (some m) e = first-append_some (of_date other) rows _ m e
    go none e =
        first-append (of_date other) rows (zero_row day ∷ []) e ∙ elim (Bool-cases (day == other)) [
          | inl u ↦ absurd (ne (sym ((eq_iff day other).0 u)))
          | inr u ↦ rw u refl
        ]

-- Two names of the same column; `unknown` is none.
abbrev same_column : MetricsField → MetricsField → Bool
same_column new_entities new_entities = true
same_column updated_entities updated_entities = true
same_column fetch_success fetch_success = true
same_column fetch_errors fetch_errors = true
same_column review_count review_count = true
same_column jobs_executed jobs_executed = true
same_column runtime_seconds runtime_seconds = true
same_column pages_fetched pages_fetched = true
same_column _ _ = false

-- The sum of the increments that a call gives for a column.
abbrev pub total : MetricsField → List (MetricsField × ℕ) → ℕ
total c [] = 0
total c ((f, n) ∷ fs) = (if same_column c f then n else 0) + total c fs

-- From `m` to `k` each column has grown by the sum of its increments.
pub record Summed (fs : List (MetricsField × ℕ)) (m k : DailyMetrics) : Type 0 where
  pub date : k.date ≡ m.date
  pub new_entities : k.new_entities ≡ m.new_entities + total MetricsField.new_entities fs
  pub updated_entities :
      k.updated_entities ≡ m.updated_entities + total MetricsField.updated_entities fs
  pub fetch_success : k.fetch_success ≡ m.fetch_success + total MetricsField.fetch_success fs
  pub fetch_errors : k.fetch_errors ≡ m.fetch_errors + total MetricsField.fetch_errors fs
  pub review_count : k.review_count ≡ m.review_count + total MetricsField.review_count fs
  pub jobs_executed : k.jobs_executed ≡ m.jobs_executed + total MetricsField.jobs_executed fs
  pub runtime_seconds :
      k.runtime_seconds ≡ m.runtime_seconds + total MetricsField.runtime_seconds fs
  pub pages_fetched : k.pages_fetched ≡ m.pages_fetched + total MetricsField.pages_fetched fs

Summed-one :
    (f : MetricsField) (n : ℕ) (m : DailyMetrics) → Summed ((f, n) ∷ []) m (raise_field f n m)
Summed-one new_entities n m = ground arith
Summed-one updated_entities n m = ground arith
Summed-one fetch_success n m = ground arith
Summed-one fetch_errors n m = ground arith
Summed-one review_count n m = ground arith
Summed-one jobs_executed n m = ground arith
Summed-one runtime_seconds n m = ground arith
Summed-one pages_fetched n m = ground arith
Summed-one unknown n m = ground arith

Summed-raised_by : (fs : List (MetricsField × ℕ)) (m : DailyMetrics) → Summed fs m (raised_by fs m)
Summed-raised_by [] m = ground arith
Summed-raised_by ((f, n) ∷ fs) m =
    let h = Summed-one f n m in
    let k = Summed-raised_by fs (raise_field f n m) in
    record {
      date = k.date ∙ h.date;
      new_entities = omega (arith, h.new_entities, k.new_entities);
      updated_entities = omega (arith, h.updated_entities, k.updated_entities);
      fetch_success = omega (arith, h.fetch_success, k.fetch_success);
      fetch_errors = omega (arith, h.fetch_errors, k.fetch_errors);
      review_count = omega (arith, h.review_count, k.review_count);
      jobs_executed = omega (arith, h.jobs_executed, k.jobs_executed);
      runtime_seconds = omega (arith, h.runtime_seconds, k.runtime_seconds);
      pages_fetched = omega (arith, h.pages_fetched, k.pages_fetched);
    }

-- After a call of `bump`, each column of the row that `today` reads is greater than before by the sum
-- of the increments that the call gives for the column, and unknown names count for none; what it reads
-- for another date is the same.
pub today-bump :
    (day : String) (fs : List (MetricsField × ℕ)) (rows : List DailyMetrics)
    → Summed fs (today day rows) (today day (bump day fs rows))
      × ((other : String) → other ≢ day → today other (bump day fs rows) ≡ today other rows)
unfolding today bump
today-bump day fs rows =
    let o = first (of_date day) rows in
    (
      rw
          (first-raise_each day fs (insert_at day o rows) (or_zero day o)
            (inserted_day day o rows refl))
          (Summed-raised_by fs (or_zero day o)),
      λ other ne.
          rw
            (other-raise_each day other fs (insert_at day o rows) ne
              ∙ inserted_other day other o rows ne)
            refl,
    )
