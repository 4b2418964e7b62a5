-- ===== src/Collectors/Phases/Progress.antt =====
-- When a job goes on to its next phase (db_collector_os/collectors/pipeline.py, `_advance_phase`).
use db_collector_os.Prelude.{
  ℕ, ◌*◌, ◌≤◌, ◌≡◌, ◌⊎◌, ◌↔◌, refl, Option, none, some, Bool, true, false, List, [], ◌∷◌, ◌++◌,
  arith, not, ◌&&◌, ltb, ◌=?◌, if◌then◌else◌, inl, inr, Bool-cases, sym, subst,
}
use db_collector_os.Models.Enums.{
  JobPhase, bootstrap, discovery, collect, validation, phase1_complete, incremental, phase_index,
}
use db_collector_os.Collectors.Phases.{
  Conditions, PhaseSignals, Unmet, unmet, phase1_conditions_met, next_phase, advance, or_default,
  is_nil, when, queue_not_empty, entity_count_low, error_rate_high, review_count_high,
  not_saturated, low_runs_short,
}

-- The value that a condition has by its key or, with no key, by DEFAULT_CONDITIONS.
pub data Setting {ℓ} {A : Type ℓ} (default : A) : Option A → A → Type ℓ where
  by_default : Setting default none default
  by_key : (a : A) → Setting default (some a) a

-- The signals meet every condition that is set.
pub record Met (s : PhaseSignals) (c : Conditions) : Type 0 where
  pub queue : Setting true c.queue_empty true → s.queue_empty ≡ true
  pub entities : (n : ℕ) → Setting 0 c.min_entity_count n → n ≤ s.entity_count
  pub errors :
      (n : ℕ)
      → Setting 500 c.max_error_rate n
      → s.error_rate.numerator * 1000 ≤ n * s.error_rate.denominator
  pub reviews : (n : ℕ) → Setting 10000 c.max_unresolved_review n → s.unresolved_review_count ≤ n
  pub saturation : Setting true c.require_discovery_saturation true → s.discovery_saturated ≡ true
  pub low_runs :
      (n : ℕ) → Setting 3 c.consecutive_low_discovery_runs n → n ≤ s.consecutive_low_discovery_runs

default_set {ℓ} : {A : Type ℓ} → (d : A) (o : Option A) → Setting d o (or_default o d)
default_set d none = by_default
default_set d (some a) = by_key a

set_value {ℓ} :
    {A : Type ℓ} → {d : A} → {o : Option A} → {a : A} → Setting d o a → a ≡ or_default o d
set_value by_default = refl
set_value (by_key a) = refl

data AllFalse (a b c d e f : Bool) : Type 0 where
  all_false :
      a ≡ false → b ≡ false → c ≡ false → d ≡ false → e ≡ false → f ≡ false → AllFalse a b c d e f

reasons : (a b c d e f : Bool) → List Unmet
reasons a b c d e f =
    when a queue_not_empty
    ++ when b entity_count_low
    ++ when c error_rate_high
    ++ when d review_count_high
    ++ when e not_saturated
    ++ when f low_runs_short

no_reasons : (a b c d e f : Bool) → is_nil (reasons a b c d e f) ≡ true → AllFalse a b c d e f
unfolding reasons
no_reasons true b c d e f h = absurd (ground arith)
no_reasons false true c d e f h = absurd (ground arith)
no_reasons false false true d e f h = absurd (ground arith)
no_reasons false false false true e f h = absurd (ground arith)
no_reasons false false false false true f h = absurd (ground arith)
no_reasons false false false false false true h = absurd (ground arith)
no_reasons false false false false false false h = all_false refl refl refl refl refl refl

reasons_none : (a b c d e f : Bool) → AllFalse a b c d e f → is_nil (reasons a b c d e f) ≡ true
unfolding reasons
reasons_none a b c d e f (all_false q1 q2 q3 q4 q5 q6) = rw (q1, q2, q3, q4, q5, q6) refl

required : (a b : Bool) → (a && not b) ≡ false → a ≡ true → b ≡ true
required true true h k = refl
required true false h k = ground arith
required false b h k = ground arith

requirement : (a b : Bool) → (a ≡ true → b ≡ true) → (a && not b) ≡ false
requirement true b h = rw (h refl) refl
requirement false b h = refl

nonzero : (n k : ℕ) → (not (n =? 0) && ltb k n) ≡ false → n ≤ k
nonzero n k h = ground arith

at_least : (n k : ℕ) → n ≤ k → (not (n =? 0) && ltb k n) ≡ false
at_least n k h = ground arith

-- `phase1_conditions_met` answers True exactly where the signals meet every condition of the
-- configuration, each by its key or else by its default.
pub phase1_conditions_met_iff :
    (s : PhaseSignals) (c : Conditions) → ((phase1_conditions_met s c).0 ≡ true) ↔ Met s c
unfolding phase1_conditions_met unmet reasons
phase1_conditions_met_iff s c = (
  λ h. elim (no_reasons _ _ _ _ _ _ h) [
    | all_false q1 q2 q3 q4 q5 q6 ↦ record {
      queue = λ t. required _ _ q1 (sym (set_value t));
      entities = λ n t. rw (set_value t) (ground arith);
      errors = λ n t. rw (set_value t) (ground arith);
      reviews = λ n t. rw (set_value t) (ground arith);
      saturation = λ t. required _ _ q5 (sym (set_value t));
      low_runs = λ n t. rw (set_value t) (nonzero _ _ q6);
    }
  ],
  λ m. reasons_none _ _ _ _ _ _ (
      all_false
        (requirement _ _ (λ t. m.queue (subst (Setting true c.queue_empty) t (default_set _ _))))
        (let q = m.entities _ (default_set _ _) in ground arith)
        (let q = m.errors _ (default_set _ _) in ground arith)
        (let q = m.reviews _ (default_set _ _) in ground arith)
        (requirement _ _ (λ t.
          m.saturation (subst (Setting true c.require_discovery_saturation) t (default_set _ _))))
        (at_least _ _ (m.low_runs _ (default_set _ _)))),
)

-- The steps between the phases, each with what the code requires for it.
pub data Step (s : PhaseSignals) (c : Conditions) : JobPhase → JobPhase → Type 0 where
  keep_bootstrap : Step s c bootstrap bootstrap
  keep_discovery :
      s.queue_empty ≡ true → s.discovery_saturated ≡ false → Step s c discovery discovery
  to_collect : (s.queue_empty ≡ false) ⊎ (s.discovery_saturated ≡ true) → Step s c discovery collect
  keep_collect :
      (s.queue_empty ≡ false) ⊎ (s.discovery_saturated ≡ false) → Step s c collect collect
  to_validation : s.queue_empty ≡ true → s.discovery_saturated ≡ true → Step s c collect validation
  keep_validation : ¬ Met s c → Step s c validation validation
  to_complete : Met s c → Step s c validation phase1_complete
  to_incremental : Step s c phase1_complete incremental
  keep_incremental : Step s c incremental incremental

validation-Step :
    (s : PhaseSignals) (c : Conditions)
    → Step s c validation (if (phase1_conditions_met s c).0 then phase1_complete else validation)
validation-Step s c = elim (Bool-cases (phase1_conditions_met s c).0) [
  | inl t ↦ rw t (to_complete ((phase1_conditions_met_iff s c).0 t))
  | inr t ↦
      rw t (
        keep_validation (λ m. let u = (phase1_conditions_met_iff s c).1 m in absurd (ground arith)))
]

discovery-Step :
    (s : PhaseSignals) (c : Conditions)
    → (e d : Bool) → s.queue_empty ≡ e
    → s.discovery_saturated ≡ d
    → Step s c discovery (if e && d then collect else if not e then collect else discovery)
discovery-Step s c true true h k = to_collect (inr k)
discovery-Step s c true false h k = keep_discovery h k
discovery-Step s c false true h k = to_collect (inl h)
discovery-Step s c false false h k = to_collect (inl h)

collect-Step :
    (s : PhaseSignals) (c : Conditions)
    → (e d : Bool) → s.queue_empty ≡ e
    → s.discovery_saturated ≡ d
    → Step s c collect (if e && d then validation else collect)
collect-Step s c true true h k = to_validation h k
collect-Step s c true false h k = keep_collect (inr k)
collect-Step s c false true h k = keep_collect (inl h)
collect-Step s c false false h k = keep_collect (inl h)

-- One call of `_advance_phase` is one of the steps between the phases: it leaves DISCOVERY only
-- where the queue is not empty or discovery is saturated, COLLECT exactly where the queue is empty
-- and discovery is saturated, VALIDATION exactly where the signals meet every condition, and
-- PHASE1_COMPLETE always; INCREMENTAL stays.
pub advance-Step : (s : PhaseSignals) (c : Conditions) (p : JobPhase) → Step s c p (advance s c p)
unfolding advance
advance-Step s c bootstrap = keep_bootstrap
advance-Step s c discovery = discovery-Step s c _ _ refl refl
advance-Step s c collect = collect-Step s c _ _ refl refl
advance-Step s c validation = validation-Step s c
advance-Step s c phase1_complete = to_incremental
advance-Step s c incremental = keep_incremental

Step-keep_or_next :
    (s : PhaseSignals) (c : Conditions) (p q : JobPhase)
    → Step s c p q
    → (q ≡ p) ⊎ (q ≡ next_phase p)
unfolding next_phase
Step-keep_or_next s c _ _ keep_bootstrap = inl refl
Step-keep_or_next s c _ _ (keep_discovery h k) = inl refl
Step-keep_or_next s c _ _ (to_collect h) = inr refl
Step-keep_or_next s c _ _ (keep_collect h) = inl refl
Step-keep_or_next s c _ _ (to_validation h k) = inr refl
Step-keep_or_next s c _ _ (keep_validation h) = inl refl
Step-keep_or_next s c _ _ (to_complete h) = inr refl
Step-keep_or_next s c _ _ to_incremental = inr refl
Step-keep_or_next s c _ _ keep_incremental = inl refl

-- The phase after the runs with these signals and conditions.
unfoldable pub advance_all : List (PhaseSignals × Conditions) → JobPhase → JobPhase
advance_all [] p = p
advance_all ((s, c) ∷ runs) p = advance_all runs (advance s c p)

next_phase_forward : (p : JobPhase) → phase_index p ≤ phase_index (next_phase p)
unfolding next_phase
next_phase_forward bootstrap = ground arith
next_phase_forward discovery = ground arith
next_phase_forward collect = ground arith
next_phase_forward validation = ground arith
next_phase_forward phase1_complete = ground arith
next_phase_forward incremental = ground arith

advance_forward :
    (s : PhaseSignals) (c : Conditions) (p : JobPhase) → phase_index p ≤ phase_index (advance s c p)
advance_forward s c p = elim (Step-keep_or_next s c p _ (advance-Step s c p)) [
  | inl e ↦ rw e (ground arith)
  | inr e ↦ rw e (next_phase_forward p)
]

-- Over any sequence of runs, whatever their signals and conditions, the phase of a job never goes
-- back in JobPhase.ORDER.
pub advance_all_forward :
    (runs : List (PhaseSignals × Conditions)) (p : JobPhase)
    → phase_index p ≤ phase_index (advance_all runs p)
unfolding advance_all
advance_all_forward [] p = ground arith
advance_all_forward ((s, c) ∷ runs) p =
    let one = advance_forward s c p in
    let rest = advance_all_forward runs (advance s c p) in ground arith
