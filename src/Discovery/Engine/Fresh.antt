-- ===== src/Discovery/Engine/Fresh.antt =====
-- `_save_candidates` of db_collector_os/discovery/engine.py: what counts as newly discovered.
use Prim.Native.Char.{Char}
use Prim.Native.String.append
use Prim.Native.String.{[] as empty, ◌∷◌ as ◌⊲◌, ◌++◌ as ◌⧺◌}
use db_collector_os.Prelude.{
  ℕ, ◌+◌, ◌≡◌, refl, sym, subst, String, Option, none, some, Bool, true, false, List, [], ◌∷◌,
  arith, eq_iff, inl, inr, Bool-cases, ◌==◌, if◌then◌else◌, length, first, first-append,
  first-append_some, eq_refl, All,
}
use db_collector_os.JobRegistry.{Job}
use db_collector_os.Candidates.{
  Candidate, CandidateSpec, has_fingerprint, known, add, add_at, new_candidate, total_count,
}
use db_collector_os.Candidates.Distinct.{total_count-add}
use db_collector_os.Discovery.Urls.{DiscoveredUrl}
use db_collector_os.Discovery.Engine.{
  Pool, entity_type_of, fingerprint_of, found_spec, save_one, keep_created, save_candidates,
}

cons_text : (c : Char) (s : String) → ((c ⊲ s) == "") ≡ false
cons_text c s = elim (Bool-cases ((c ⊲ s) == "")) [
  | inl e ↦ absurd (cc ((eq_iff (c ⊲ s) "").0 e))
  | inr e ↦ e
]

nonempty : (s t : String) → ((s ⧺ (":" ⧺ t)) == "") ≡ false
nonempty empty t = rw (append.nil (":" ⧺ t)) (rw (append.cons ":" "" t) (cons_text ":" ("" ⧺ t)))
nonempty (c ⊲ s) t = rw (append.cons c s (":" ⧺ t)) (cons_text c (s ⧺ (":" ⧺ t)))

length-keep_created :
    (d : DiscoveredUrl) (b : Bool) (ds : List DiscoveredUrl)
    → length (keep_created d b ds) ≡ (if b then 1 else 0) + length ds
length-keep_created d true ds = omega arith
length-keep_created d false ds = omega arith

module _ (normalize_url : String → String) (new_id : ℕ → String) (j : Job) where
  -- The item has no URL, or a row of the job has its fingerprint.
  pub data Tracked (d : DiscoveredUrl) (rows : List Candidate) : Type 0 where
    no_url : (normalize_url d.url == "") ≡ true → Tracked d rows
    by_row :
        (c : Candidate)
        → first
            (has_fingerprint j.job_id
              (fingerprint_of (entity_type_of j) (normalize_url d.url) d.stable_id))
            rows
          ≡ some c
        → Tracked d rows

  Tracked-add :
      (now : ℕ) (id : String) (spec : CandidateSpec) (d : DiscoveredUrl) (rows : List Candidate)
      → Tracked d rows
      → Tracked d (add now id spec rows).0
  unfolding add
  Tracked-add now id spec d rows (no_url e) = no_url e
  Tracked-add now id spec d rows (by_row c e) = go (known spec.job_id spec.fingerprint rows)
    where
      go : (o : Option Candidate) → Tracked d (add_at now id spec o rows).0
      go none = by_row c (first-append_some _ rows _ c e)
      go (some x) = by_row c e

  created_rows :
      (now : ℕ) (ds : List DiscoveredUrl) (p : Pool)
      → total_count j.job_id (save_candidates normalize_url new_id now j ds p).0.candidates
        ≡ total_count j.job_id p.candidates
          + length (save_candidates normalize_url new_id now j ds p).1
  unfolding save_candidates
  created_rows now [] p = omega arith
  created_rows now (d ∷ ds) p = elim (Bool-cases (normalize_url d.url == "")) [
    | inl e ↦ rw e (created_rows now ds p)
    | inr e ↦
        let one = save_one normalize_url new_id now j (normalize_url d.url) d p in
        let added =
          total_count-add now (new_id p.drawn) (found_spec j (normalize_url d.url) d)
            p.candidates in
        let kept =
          length-keep_created d one.1 (save_candidates normalize_url new_id now j ds one.0).1 in
        rw e (omega (arith, added, kept, created_rows now ds one.0))
  ]

  fingerprint_given :
      (url : String) (id : Option String)
      → (url == "") ≡ false
      → (fingerprint_of (entity_type_of j) url id == "") ≡ false
  fingerprint_given url none e = e
  fingerprint_given url (some id) e = elim (Bool-cases (id == "")) [
    | inl q ↦ rw q e
    | inr q ↦ rw q (nonempty (entity_type_of j) id)
  ]

  add_at-Tracked :
      (now : ℕ) (id : String) (d : DiscoveredUrl) (rows : List Candidate) (o : Option Candidate)
      → (normalize_url d.url == "") ≡ false
      → first
          (has_fingerprint j.job_id
            (fingerprint_of (entity_type_of j) (normalize_url d.url) d.stable_id))
          rows
        ≡ o
      → Tracked d (add_at now id (found_spec j (normalize_url d.url) d) o rows).0
  add_at-Tracked now id d rows (some c) ne e = by_row c e
  add_at-Tracked now id d rows none ne e =
      by_row (new_candidate now id (found_spec j (normalize_url d.url) d)) (
        rw (first-append (has_fingerprint j.job_id _) rows _ e) (
          rw
            (
              eq_refl j.job_id,
              eq_refl (fingerprint_of (entity_type_of j) (normalize_url d.url) d.stable_id),
            )
            refl))

  save_one-Tracked :
      (now : ℕ) (d : DiscoveredUrl) (p : Pool)
      → (normalize_url d.url == "") ≡ false
      → Tracked d (save_one normalize_url new_id now j (normalize_url d.url) d p).0.candidates
  unfolding save_one add
  save_one-Tracked now d p ne =
      rw (fingerprint_given (normalize_url d.url) d.stable_id ne)
        (add_at-Tracked now (new_id p.drawn) d p.candidates _ ne refl)

  save_candidates-Tracked :
      (now : ℕ) (d : DiscoveredUrl) (ds : List DiscoveredUrl) (p : Pool)
      → Tracked d p.candidates
      → Tracked d (save_candidates normalize_url new_id now j ds p).0.candidates
  unfolding save_candidates save_one
  save_candidates-Tracked now d [] p t = t
  save_candidates-Tracked now d (e ∷ ds) p t = elim (Bool-cases (normalize_url e.url == "")) [
    | inl q ↦ rw q (save_candidates-Tracked now d ds p t)
    | inr q ↦ rw q (
        save_candidates-Tracked now d ds
          (save_one normalize_url new_id now j (normalize_url e.url) e p).0
          (Tracked-add now (new_id p.drawn) (found_spec j (normalize_url e.url) e) d p.candidates
            t))
  ]

  save_skip :
      (now : ℕ) (d : DiscoveredUrl) (ds : List DiscoveredUrl) (p : Pool)
      → (normalize_url d.url == "") ≡ true
      → save_candidates normalize_url new_id now j (d ∷ ds) p
        ≡ save_candidates normalize_url new_id now j ds p
  unfolding save_candidates
  save_skip now d ds p q = rw q refl

  save_none : (now : ℕ) (p : Pool) → save_candidates normalize_url new_id now j [] p ≡ (p, [])
  unfolding save_candidates
  save_none now p = refl

  save_next :
      (now : ℕ) (d : DiscoveredUrl) (ds : List DiscoveredUrl) (p : Pool)
      → (normalize_url d.url == "") ≡ false
      → save_candidates normalize_url new_id now j (d ∷ ds) p ≡ (
          let one = save_one normalize_url new_id now j (normalize_url d.url) d p in
          let rest = save_candidates normalize_url new_id now j ds one.0 in
          (rest.0, keep_created d one.1 rest.1))
  unfolding save_candidates
  save_next now d ds p q = rw q refl

  All-Tracked :
      (now : ℕ) (ds : List DiscoveredUrl) (p : Pool)
      → All (λ d. Tracked d (save_candidates normalize_url new_id now j ds p).0.candidates) ds
  All-Tracked now [] p = tt
  All-Tracked now (d ∷ ds) p = elim (Bool-cases (normalize_url d.url == "")) [
    | inl q ↦
        subst (λ r. All (λ x. Tracked x r.0.candidates) (d ∷ ds)) (sym (save_skip now d ds p q))
          (no_url q, All-Tracked now ds p)
    | inr q ↦
        let one = save_one normalize_url new_id now j (normalize_url d.url) d p in
        subst (λ r. All (λ x. Tracked x r.0.candidates) (d ∷ ds)) (sym (save_next now d ds p q))
          (
            save_candidates-Tracked now d ds one.0 (save_one-Tracked now d p q),
            All-Tracked now ds one.0,
          )
  ]

  known_one :
      (now : ℕ) (d : DiscoveredUrl) (p : Pool)
      → (normalize_url d.url == "") ≡ false
      → Tracked d p.candidates
      → save_one normalize_url new_id now j (normalize_url d.url) d p ≡ (p, false)
  unfolding save_one add
  known_one now d p ne (no_url e) = absurd (cc (ne, e))
  known_one now d p ne (by_row c e) =
      rw (fingerprint_given (normalize_url d.url) d.stable_id ne) (rw e refl)

  none_again :
      (now : ℕ) (ds : List DiscoveredUrl) (p : Pool)
      → All (λ d. Tracked d p.candidates) ds
      → save_candidates normalize_url new_id now j ds p ≡ (p, [])
  none_again now [] p t = save_none now p
  none_again now (d ∷ ds) p t = elim (Bool-cases (normalize_url d.url == "")) [
    | inl q ↦ rw (save_skip now d ds p q) (none_again now ds p t.1)
    | inr q ↦
        rw (save_next now d ds p q)
          (rw (known_one now d p q t.0) (rw (none_again now ds p t.1) refl))
  ]

  -- The items that `_save_candidates` returns are as many as the job's candidates have become more,
  -- and seeing the same URLs again, at any later time, adds no candidate and returns none.
  pub save_candidates_lem :
      (now later : ℕ) (ds : List DiscoveredUrl) (p : Pool)
      → (total_count j.job_id (save_candidates normalize_url new_id now j ds p).0.candidates
          ≡ total_count j.job_id p.candidates
            + length (save_candidates normalize_url new_id now j ds p).1)
        × (save_candidates normalize_url new_id later j ds
              (save_candidates normalize_url new_id now j ds p).0
            ≡ ((save_candidates normalize_url new_id now j ds p).0, []))
  save_candidates_lem now later ds p = (
    created_rows now ds p,
    none_again later ds (save_candidates normalize_url new_id now j ds p).0 (All-Tracked now ds p),
  )
