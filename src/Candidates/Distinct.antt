-- ===== src/Candidates/Distinct.antt =====
-- `add` of db_collector_os/candidates.py adds each fingerprint of a job once.
use db_collector_os.Prelude.{
  ℕ, ◌+◌, ◌≡◌, refl, ap, String, Option, none, some, true, false, List, [], ◌∷◌, ◌++◌, arith, ◌==◌,
  eq_iff, eq_refl, inl, inr, Bool-cases, if◌then◌else◌, first, count, All, All-map, All-append,
  first-append, first-none, count-append,
}
use db_collector_os.Candidates.{
  Candidate, CandidateSpec, is_text, has_fingerprint, new_candidate, known, add_at, add,
  total_count,
}

known-add_at :
    (now : ℕ) (id fp : String) (spec : CandidateSpec) (rows : List Candidate) (o : Option Candidate)
    → spec.fingerprint ≡ some fp
    → (fp == "") ≡ false
    → first (has_fingerprint spec.job_id fp) rows ≡ o
    → (c : Candidate) × (first (has_fingerprint spec.job_id fp) (add_at now id spec o rows).0
        ≡ some c)
      × (c.candidate_id ≡ (add_at now id spec o rows).1.0)
known-add_at now id fp spec rows (some c) f ne e = (c, e, refl)
known-add_at now id fp spec rows none f ne e = (
  new_candidate now id spec,
  rw (first-append (has_fingerprint spec.job_id fp) rows _ e) (rw (eq_refl, f) (rw eq_refl)),
  refl,
)

add_known :
    (now : ℕ) (id fp : String) (spec : CandidateSpec) (rows : List Candidate)
    → spec.fingerprint ≡ some fp
    → (fp == "") ≡ false
    → add now id spec rows ≡ add_at now id spec (first (has_fingerprint spec.job_id fp) rows) rows
unfolding add
add_known now id fp spec rows f ne = rw f (rw ne)

-- A second `add` for the job of a candidate with the same fingerprint, which is not empty, adds no
-- row and returns the candidate_id of the first with `created` false, whatever its other columns.
pub add-add :
    (now later : ℕ) (id id' fp : String) (spec spec' : CandidateSpec) (rows : List Candidate)
    → spec.fingerprint ≡ some fp
    → spec'.fingerprint ≡ some fp
    → spec'.job_id ≡ spec.job_id
    → (fp == "") ≡ false
    → add later id' spec' (add now id spec rows).0
      ≡ ((add now id spec rows).0, ((add now id spec rows).1.0, false))
add-add now later id id' fp spec spec' rows f f' same ne =
    let r = first (has_fingerprint spec.job_id fp) rows in
    let (c, e, i) = known-add_at now id fp spec rows r f ne refl in
    rw (add_known now id fp spec rows f ne) (
      rw (add_known later id' fp spec' (add_at now id spec r rows).0 f' ne)
        (rw same (rw e (ap (λ (s : String). ((add_at now id spec r rows).0, (s, false))) i))))

-- Two rows of one job have no fingerprint in common but the empty one.
abbrev pub Apart : Candidate → Candidate → Type 0
Apart c d =
    c.job_id ≡ d.job_id
    → (fp : String) → c.fingerprint ≡ some fp
    → d.fingerprint ≡ some fp
    → fp ≡ ""

abbrev pub IsDistinct : List Candidate → Type 0
IsDistinct [] = Unit
IsDistinct (c ∷ rows) = All (λ d. Apart c d) rows × IsDistinct rows

text_of : (o : Option String) (fp : String) → o ≡ some fp → is_text o fp ≡ true
text_of o fp e = rw e (eq_refl fp)

Apart-new :
    (now : ℕ) (id : String) (spec : CandidateSpec) (c : Candidate)
    → ((fp : String)
        → spec.fingerprint ≡ some fp
        → (fp == "") ≡ false
        → has_fingerprint spec.job_id fp c ≡ false)
    → Apart c (new_candidate now id spec)
Apart-new now id spec c absent same fp e f = elim (Bool-cases (fp == "")) [
  | inl t ↦ (eq_iff fp "").0 t
  | inr t ↦
      absurd
        (ground (arith, absent fp f t, eq_iff c.job_id spec.job_id, text_of c.fingerprint fp e))
]

absent-All :
    (spec : CandidateSpec) (o : Option String) (rows : List Candidate)
    → spec.fingerprint ≡ o
    → known spec.job_id o rows ≡ none
    → All
        (λ c.
          (fp : String)
          → spec.fingerprint ≡ some fp
          → (fp == "") ≡ false
          → has_fingerprint spec.job_id fp c ≡ false)
        rows
absent-All spec none [] f e = tt
absent-All spec none (c ∷ rows) f e = (λ fp g ne. absurd (cc), absent-All spec none rows f refl)
absent-All spec (some fp) rows f e = elim (Bool-cases (fp == "")) [
  | inl t ↦ vacuous rows t
  | inr t ↦
      All-map (λ c. has_fingerprint spec.job_id fp c ≡ false) _
        (λ c out fp' g ne. let q : fp ≡ fp' = cc in rw (← q) out) rows
        (first-none (has_fingerprint spec.job_id fp) rows (rw t at e))
]
  where
    vacuous :
        (xs : List Candidate)
        → (fp == "") ≡ true
        → All
            (λ c.
              (fp : String)
              → spec.fingerprint ≡ some fp
              → (fp == "") ≡ false
              → has_fingerprint spec.job_id fp c ≡ false)
            xs
    vacuous [] t = tt
    vacuous (c ∷ xs) t = (
      λ fp' g ne.
          let q : fp ≡ fp' = cc in let u : (fp' == "") ≡ true = rw q at t in absurd (cc (u, ne)),
      vacuous xs t,
    )

IsDistinct-append :
    (rows : List Candidate) (d : Candidate)
    → IsDistinct rows
    → All (λ c. Apart c d) rows
    → IsDistinct (rows ++ d ∷ [])
IsDistinct-append [] d h k = (tt, tt)
IsDistinct-append (c ∷ rows) d h k =
    (All-append _ rows (d ∷ []) h.0 (k.0, tt), IsDistinct-append rows d h.1 k.1)

IsDistinct-add_at :
    (now : ℕ) (id : String) (spec : CandidateSpec) (o : Option Candidate) (rows : List Candidate)
    → known spec.job_id spec.fingerprint rows ≡ o
    → IsDistinct rows
    → IsDistinct (add_at now id spec o rows).0
IsDistinct-add_at now id spec (some c) rows e h = h
IsDistinct-add_at now id spec none rows e h = IsDistinct-append rows (new_candidate now id spec) h (
    All-map _ _ (λ c absent. Apart-new now id spec c absent) rows
      (absent-All spec spec.fingerprint rows refl e))

-- `add` keeps the fingerprints of each job distinct.
pub add-IsDistinct :
    (now : ℕ) (id : String) (spec : CandidateSpec) (rows : List Candidate)
    → IsDistinct rows
    → IsDistinct (add now id spec rows).0
unfolding add
add-IsDistinct now id spec rows h =
    IsDistinct-add_at now id spec (known spec.job_id spec.fingerprint rows) rows refl h

-- The job's rows are one more exactly if `created` is true.
pub total_count-add :
    (now : ℕ) (id : String) (spec : CandidateSpec) (rows : List Candidate)
    → total_count spec.job_id (add now id spec rows).0
      ≡ total_count spec.job_id rows + (if (add now id spec rows).1.1 then 1 else 0)
unfolding add total_count
total_count-add now id spec rows = go (known spec.job_id spec.fingerprint rows)
  where
    go :
        (o : Option Candidate)
        → count (λ c. c.job_id == spec.job_id) (add_at now id spec o rows).0
          ≡ count (λ c. c.job_id == spec.job_id) rows
            + (if (add_at now id spec o rows).1.1 then 1 else 0)
    go (some c) = omega arith
    go none =
        rw (count-append (λ c. c.job_id == spec.job_id) rows (new_candidate now id spec ∷ []))
          (rw (eq_refl spec.job_id) refl)
