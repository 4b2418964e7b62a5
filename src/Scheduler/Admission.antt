-- ===== src/Scheduler/Admission.antt =====
-- Which jobs a tick of db_collector_os/scheduler.py admits.
use db_collector_os.Prelude.{
  ℕ, zero, suc, ◌+◌, ◌≤◌, ◌<◌, ◌≡◌, refl, true, List, [], ◌∷◌, arith, inl, inr, Bool-cases, subst,
  limit, length,
}
use db_collector_os.JobRegistry.{Job, due_jobs, mark_queued}
use db_collector_os.Scheduler.{ResourceThresholds, ResourceSnapshot, can_admit_new_job, admit, tick}

-- The snapshot exceeds no threshold.
pub record HasHeadroom (t : ResourceThresholds) (s : ResourceSnapshot) : Type 0 where
  pub cpu : s.cpu_percent ≤ t.cpu_percent_max
  pub ram : s.ram_percent ≤ t.ram_percent_max
  pub swap : s.swap_percent ≤ t.swap_percent_max
  pub disk : s.disk_percent ≤ t.disk_percent_max
  pub load : s.load_average ≤ t.load_average_max

can_admit-HasHeadroom :
    (t : ResourceThresholds) (s : ResourceSnapshot) → can_admit_new_job t s ≡ true → HasHeadroom t s
unfolding can_admit_new_job
can_admit-HasHeadroom t s h = record {
  cpu = ground arith;
  ram = ground arith;
  swap = ground arith;
  disk = ground arith;
  load = ground arith;
}

HasHeadroom-can_admit :
    (t : ResourceThresholds) (s : ResourceSnapshot) → HasHeadroom t s → can_admit_new_job t s ≡ true
unfolding can_admit_new_job
HasHeadroom-can_admit t s h = ground (arith, h.cpu, h.ram, h.swap, h.disk, h.load)

-- The table after the jobs have been queued one after another.
unfoldable pub queue_all : ℕ → List Job → List Job → List Job
queue_all now [] jobs = jobs
queue_all now (j ∷ js) jobs = queue_all now js (mark_queued now j.job_id jobs)

module _ (t : ResourceThresholds) (snapshot : ℕ → ResourceSnapshot) (now : ℕ) where
  -- The first `n` jobs are queued, each after a check, from the check number `k` on, that left
  -- headroom; unless these are all, the next check left none.
  pub record Admitted (k : ℕ) (due jobs after : List Job) (n : ℕ) : Type 0 where
    pub queued : after ≡ queue_all now (limit n due) jobs
    pub bounded : n ≤ length due
    pub with_headroom : (i : ℕ) → i < n → HasHeadroom t (snapshot (k + i))
    pub stopped : n < length due → ¬ HasHeadroom t (snapshot (k + n))

  headroom_at :
      (k n : ℕ)
      → HasHeadroom t (snapshot k)
      → ((i : ℕ) → i < n → HasHeadroom t (snapshot (suc k + i)))
      → (i : ℕ) → i < suc n
      → HasHeadroom t (snapshot (k + i))
  headroom_at k n first rest zero h = subst (λ m. HasHeadroom t (snapshot m)) (omega arith) first
  headroom_at k n first rest (suc i) h =
      subst (λ m. HasHeadroom t (snapshot m)) (omega arith) (rest i (ground arith))

  admit-Admitted :
      (k : ℕ) (due jobs : List Job)
      → Admitted k due jobs (admit t snapshot now k due jobs).0 (admit t snapshot now k due jobs).1
  unfolding admit queue_all
  admit-Admitted k [] jobs = record {
    queued = refl;
    bounded = ground arith;
    with_headroom = λ i h. absurd (ground arith);
    stopped = λ h. absurd (ground arith);
  }
  admit-Admitted k (j ∷ due) jobs =
      let rest = admit-Admitted (suc k) due (mark_queued now j.job_id jobs) in
      elim (Bool-cases (can_admit_new_job t (snapshot k))) [
        | inl e ↦ rw e (record {
          queued = rest.queued;
          bounded = let b = rest.bounded in ground arith;
          with_headroom =
              headroom_at k _ (can_admit-HasHeadroom t (snapshot k) e) rest.with_headroom;
          stopped = λ h.
              let q = rest.stopped (ground arith) in
              subst (λ m. ¬ HasHeadroom t (snapshot m)) (omega arith) q;
        })
        | inr e ↦ rw e (record {
          queued = refl;
          bounded = ground arith;
          with_headroom = λ i h. absurd (ground arith);
          stopped = λ h m.
              let u =
                HasHeadroom-can_admit t (snapshot k)
                  (subst (λ m. HasHeadroom t (snapshot m)) (omega arith) m) in
              ground arith;
        })
      ]

  -- A tick goes through the due jobs in their order and queues them as long as the measurement
  -- before each leaves headroom on every resource; it stops at the first that does not, and returns
  -- the number of jobs that it has queued.
  pub tick-Admitted :
      (jobs : List Job)
      → Admitted 0
          (due_jobs now jobs)
          jobs
          (tick t snapshot now jobs).0
          (tick t snapshot now jobs).1
  unfolding tick
  tick-Admitted jobs = admit-Admitted 0 (due_jobs now jobs) jobs
