-- ===== src/Deduplication/Decisions.antt =====
-- What `resolve` of db_collector_os/deduplication/matcher.py decides, on every branch.
use db_collector_os.Prelude.{
  ◌≡◌, ◌≢◌, refl, sym, subst, String, Option, none, some, true, false, List, [], ◌∷◌, arith, ◌==◌,
  eq_iff, eq_refl, inl, inr, Bool-cases, first, select, Has, All-Has, first_matches, first-Has,
  first-none, Has-select, select_matches, Has-select_intro,
}
use db_collector_os.Entities.{
  Entity, is_text, has_fingerprint, has_canonical_url, find_by_fingerprint, find_by_canonical_url,
}
use db_collector_os.Deduplication.{
  DedupDecision, Query, truthy, decide_new, decide_merge, decide_review, decide_first,
  decide_conflict, decide_name, decide_url, decide_fp, find_fp, find_url, conflicts,
  has_normalized_name, find_by_normalized_name, query_fingerprint, resolve,
}

-- An entity of the job that is not deleted.
pub record Live (job : String) (e : Entity) : Type 0 where
  pub of_job : e.job_id ≡ job
  pub alive : e.deleted_at ≡ none

-- A column holds the text that is asked for, if one is and it is not empty.
pub record SameText (asked column : Option String) : Type 0 where
  pub value : String
  pub asked_for : truthy asked ≡ some value
  pub there : column ≡ some value

-- An exact signal: the entity has the fingerprint, which is not empty, or the canonical URL.
pub data Strong (q : Query) (fp : String) (e : Entity) : Type 0 where
  by_fingerprint : fp ≢ "" → e.fingerprint ≡ fp → Strong q fp e
  by_url : SameText q.canonical_url e.canonical_url → Strong q fp e

pub data Decided (q : Query) (fp : String) (entities : List Entity) : DedupDecision → Type 0 where
  merged :
      (e : Entity) (reason : String)
      → Has e entities
      → Live q.job_id e
      → Strong q fp e
      → Decided q fp entities (decide_merge fp reason e)
  reviewed :
      (e : Entity) (reason : String)
      → Has e entities
      → Live q.job_id e
      → SameText q.normalized_name e.normalized_name
      → ((d : Entity) → Has d entities → Live q.job_id d → ¬ Strong q fp d)
      → Decided q fp entities (decide_review fp reason e)
  unmatched :
      ((d : Entity) → Has d entities → Live q.job_id d → ¬ Strong q fp d)
      → ((d : Entity)
          → Has d entities
          → Live q.job_id d
          → ¬ SameText q.normalized_name d.normalized_name)
      → Decided q fp entities (decide_new fp)

nonempty : (s : String) → s ≢ "" → (s == "") ≡ false
nonempty s ne = elim (Bool-cases (s == "")) [ inl t ↦ absurd (ne ((eq_iff s "").0 t)) | inr t ↦ t ]

text_of : (o : Option String) (s : String) → is_text o s ≡ true → o ≡ some s
text_of none s h = ground arith
text_of (some t) s h = ground (arith, eq_iff t s)

of_text : (o : Option String) (s : String) → o ≡ some s → is_text o s ≡ true
of_text o s e = rw e (eq_refl s)

module _ (job : String) (e : Entity) where
  Live-fingerprint :
      (fp : String) → has_fingerprint job fp e ≡ true → Live job e × (e.fingerprint ≡ fp)
  Live-fingerprint fp h = ground (arith, eq_iff e.job_id job, eq_iff e.fingerprint fp)

  fingerprint-Live :
      (fp : String) → Live job e → e.fingerprint ≡ fp → has_fingerprint job fp e ≡ true
  fingerprint-Live fp l f =
      ground (arith, l.of_job, l.alive, eq_iff e.job_id job, eq_iff e.fingerprint fp)

  Live-url :
      (url : String)
      → has_canonical_url job url e ≡ true
      → Live job e × (e.canonical_url ≡ some url)
  Live-url url h = ground (arith, eq_iff e.job_id job, text_of e.canonical_url url)

  url-Live :
      (url : String) → Live job e → e.canonical_url ≡ some url → has_canonical_url job url e ≡ true
  url-Live url l f =
      ground (arith, l.of_job, l.alive, eq_iff e.job_id job, of_text e.canonical_url url)

  Live-name :
      (n : String) → has_normalized_name job n e ≡ true → Live job e × (e.normalized_name ≡ some n)
  Live-name n h = ground (arith, eq_iff e.job_id job, text_of e.normalized_name n)

  name-Live :
      (n : String) → Live job e → e.normalized_name ≡ some n → has_normalized_name job n e ≡ true
  name-Live n l f =
      ground (arith, l.of_job, l.alive, eq_iff e.job_id job, of_text e.normalized_name n)

module _ (q : Query) (fp : String) (entities : List Entity) where
  abbrev NoFingerprint : Type 0
  NoFingerprint = (d : Entity) → Has d entities → Live q.job_id d → fp ≢ "" → d.fingerprint ≢ fp

  abbrev NoUrl : Type 0
  NoUrl =
      (d : Entity) → Has d entities → Live q.job_id d → ¬ SameText q.canonical_url d.canonical_url

  no-Strong :
      NoFingerprint → NoUrl → (d : Entity) → Has d entities → Live q.job_id d → ¬ Strong q fp d
  no-Strong f u d h l (by_fingerprint ne e) = f d h l ne e
  no-Strong f u d h l (by_url s) = u d h l s

  reviewed_of :
      (name reason : String) (e : Entity)
      → truthy q.normalized_name ≡ some name
      → NoFingerprint
      → NoUrl
      → Has e (select (has_normalized_name q.job_id name) entities)
      → Decided q fp entities (decide_review fp reason e)
  reviewed_of name reason e n f u h =
      let m : (has_normalized_name q.job_id name e) ≡ true =
        All-Has _ (select (has_normalized_name q.job_id name) entities)
          (select_matches (has_normalized_name q.job_id name) entities) h in
      let l = Live-name q.job_id e name m in
      reviewed e reason (Has-select (has_normalized_name q.job_id name) e entities h) l.0
        (record { value = name; asked_for = n; there = l.1 }) (no-Strong f u)

  first-Decided :
      (name : String) (candidates : List Entity)
      → candidates ≡ select (has_normalized_name q.job_id name) entities
      → truthy q.normalized_name ≡ some name
      → NoFingerprint
      → NoUrl
      → Decided q fp entities (decide_first fp candidates)
  first-Decided name [] c n f u = unmatched (no-Strong f u) (λ d h l s.
      let same : s.value ≡ name = ground (arith, s.asked_for) in
      let m = name-Live q.job_id d name l (rw (← same) s.there) in
      subst (Has d) (sym c) (Has-select_intro (has_normalized_name q.job_id name) d entities m h))
  first-Decided name (e ∷ es) c n f u =
      reviewed_of name "name matches but no strong corroborating signal" e n f u
        (subst (Has e) c (inl refl))

  conflict-Decided :
      (name : String) (o : Option Entity) (candidates : List Entity)
      → candidates ≡ select (has_normalized_name q.job_id name) entities
      → first (λ e. conflicts e q.domain q.address q.telephone) candidates ≡ o
      → truthy q.normalized_name ≡ some name
      → NoFingerprint
      → NoUrl
      → Decided q fp entities (decide_conflict fp o candidates)
  conflict-Decided name none candidates c o n f u = first-Decided name candidates c n f u
  conflict-Decided name (some e) candidates c o n f u =
      reviewed_of name "same name but conflicting domain/address/telephone" e n f u
        (subst (Has e) c (first-Has _ candidates e o))

  name-Decided :
      (o : Option String)
      → truthy q.normalized_name ≡ o
      → NoFingerprint
      → NoUrl
      → Decided q fp entities (decide_name q fp o entities)
  unfolding conflicts find_by_normalized_name
  name-Decided none n f u = unmatched (no-Strong f u) (λ d h l s. ground (arith, s.asked_for))
  name-Decided (some name) n f u =
      conflict-Decided name _ (select (has_normalized_name q.job_id name) entities) refl refl n f u

  url-Decided :
      (o : Option String) (p : Option Entity)
      → truthy q.canonical_url ≡ o
      → find_url q.job_id o entities ≡ p
      → NoFingerprint
      → Decided q fp entities (decide_url q fp p entities)
  unfolding find_by_canonical_url conflicts find_by_normalized_name
  url-Decided none none t p f =
      name-Decided (truthy q.normalized_name) refl f (λ d h l s. ground (arith, s.asked_for))
  url-Decided none (some e) t p f = cc
  url-Decided (some url) none t p f = name-Decided (truthy q.normalized_name) refl f (λ d h l s.
      let same : s.value ≡ url = ground (arith, s.asked_for) in
      let hit = url-Live q.job_id d url l (rw (← same) s.there) in
      let miss = All-Has _ entities (first-none (has_canonical_url q.job_id url) entities p) h in
      ground (arith, hit, miss))
  url-Decided (some url) (some e) t p f =
      let l =
        Live-url q.job_id e url (first_matches (has_canonical_url q.job_id url) entities e p) in
      merged e "canonical_url match" (first-Has (has_canonical_url q.job_id url) entities e p) l.0
        (by_url (record { value = url; asked_for = t; there = l.1 }))

  fp-Decided :
      (p : Option Entity)
      → find_fp q.job_id fp entities ≡ p
      → Decided q fp entities (decide_fp q fp p entities)
  unfolding find_by_fingerprint find_by_canonical_url conflicts find_by_normalized_name
  fp-Decided none e =
      url-Decided (truthy q.canonical_url) (find_url q.job_id (truthy q.canonical_url) entities)
        refl refl
        (λ d h l ne same.
          let kept : (fp == "") ≡ false = nonempty fp ne in
          let miss =
            All-Has _ entities (first-none (has_fingerprint q.job_id fp) entities (rw kept at e))
              h in
          ground (arith, miss, fingerprint-Live q.job_id d fp l same))
  fp-Decided (some d) e = elim (Bool-cases (fp == "")) [
    | inl t ↦ absurd (cc (rw t at e))
    | inr t ↦
        let found : first (has_fingerprint q.job_id fp) entities ≡ some d = rw t at e in
        let l =
          Live-fingerprint q.job_id d fp
            (first_matches (has_fingerprint q.job_id fp) entities d found) in
        merged d "fingerprint match" (first-Has (has_fingerprint q.job_id fp) entities d found) l.0
          (by_fingerprint (λ u. ground (arith, eq_iff fp "")) l.1)
  ]

-- `resolve` merges only into an entity of the job that is not deleted and has the record's
-- fingerprint, if that is not empty, or its canonical URL. Where no such entity is there it asks
-- for a review if one with the record's normalized name is, and takes the record as new if none
-- is.
pub resolve-Decided :
    (sha256 : String → String) (q : Query) (entities : List Entity)
    → Decided q (query_fingerprint sha256 q) entities (resolve sha256 q entities)
unfolding resolve
resolve-Decided sha256 q entities =
    fp-Decided q (query_fingerprint sha256 q) entities
      (find_fp q.job_id (query_fingerprint sha256 q) entities) refl
