-- ===== src/Collectors/Drain/Bounds.antt =====
-- How far one drain of the queue goes: _drain_fetch_queue of db_collector_os/collectors/pipeline.py.
use db_collector_os.Prelude.{
  ℕ, zero, suc, ◌+◌, ◌*◌, ◌≤◌, ◌≡◌, refl, ap, ◌∙◌, String, Option, none, some, ◌&&◌, ◌||◌, List, [],
  ◌∷◌, arith, ltb, leb, if-intro,
}
use db_collector_os.JobRegistry.{Job}
use db_collector_os.Candidates.{total_count}
use db_collector_os.Entities.{entity_count}
use db_collector_os.Review.{count_open}
use db_collector_os.Fetching.Queue.{Item}
use db_collector_os.Collectors.Context.{Context, Pass, Adapter, World, books}
use db_collector_os.Collectors.Pages.{process_queue_item}
use db_collector_os.Collectors.Pages.Tally.{process_queue_item-Handled}
use db_collector_os.Collectors.Drain.{
  Turn, go_on, stop, max_drain_wait, ready_domains, claim_ready, sleep_or_stop, work, round, turn,
  drain, drain_fetch_queue,
}

-- From `p` to `q` each count has grown as its table has: the entities of the job that are not deleted,
-- its open reviews, its candidates, and the requests that were sent;
-- the other tables are kept.
pub record Accounted (j : Job) (p q : Pass) : Type 0 where
  pub entities :
      entity_count j.job_id q.ctx.stores.entities + p.outcome.inserted
      ≡ entity_count j.job_id p.ctx.stores.entities + q.outcome.inserted
  pub reviews :
      count_open (some j.job_id) q.ctx.review + p.outcome.reviewed
      ≡ count_open (some j.job_id) p.ctx.review + q.outcome.reviewed
  pub candidates :
      total_count j.job_id q.ctx.candidates + p.outcome.discovered
      ≡ total_count j.job_id p.ctx.candidates + q.outcome.discovered
  pub requests : q.ctx.requests + p.outcome.fetched ≡ p.ctx.requests + q.outcome.fetched
  pub kept : books q.ctx ≡ books p.ctx

Accounted-trans : (j : Job) (p q r : Pass) → Accounted j p q → Accounted j q r → Accounted j p r
Accounted-trans j p q r h k = record {
  entities = omega (arith, h.entities, k.entities);
  reviews = omega (arith, h.reviews, k.reviews);
  candidates = omega (arith, h.candidates, k.candidates);
  requests = omega (arith, h.requests, k.requests);
  kept = k.kept ∙ h.kept;
}

-- The tables that the counts are about are the same, and only the wait has passed.
record Idle (wait : ℕ) (c d : Context) : Type 0 where
  stores : d.stores ≡ c.stores
  review : d.review ≡ c.review
  candidates : d.candidates ≡ c.candidates
  requests : d.requests ≡ c.requests
  now : d.now ≡ c.now + wait
  kept : books d ≡ books c

suc_mul : (n m : ℕ) → suc n * m ≡ n * m + m
suc_mul n m = grind arith

ready_domains-Idle : (j : Job) (c : Context) → Idle 0 c (ready_domains j c).0
unfolding ready_domains
ready_domains-Idle j c = record {
  stores = refl;
  review = refl;
  candidates = refl;
  requests = refl;
  now = omega arith;
  kept = refl;
}

claim_ready-Idle :
    (j : Job) (domains : List String) (c d : Context)
    → Idle 0 c d
    → Idle 0 c (claim_ready j domains d).0
claim_ready-Idle j [] c d h = h
claim_ready-Idle j (x ∷ xs) c d h = record {
  stores = h.stores;
  review = h.review;
  candidates = h.candidates;
  requests = h.requests;
  now = h.now;
  kept = h.kept;
}

module _ (w : World) (j : Job) (a : Adapter) where
  -- From `p`, where the loop has waited `waited`, to `q`, where it has waited `waited'`.
  record Advanced (waited : ℕ) (p : Pass) (waited' : ℕ) (q : Pass) : Type 0 where
    accounts : Accounted j p q
    pages : p.outcome.fetched ≤ j.max_pages → q.outcome.fetched ≤ j.max_pages
    waits : waited ≤ max_drain_wait j → waited' ≤ max_drain_wait j
    clock :
        (longest : ℕ)
        → ((n : ℕ) → w.elapsed n ≤ longest)
        → q.ctx.now + waited + p.outcome.fetched * longest
          ≤ p.ctx.now + waited' + q.outcome.fetched * longest

  Advanced-trans :
      (u v x : ℕ) (p q r : Pass) → Advanced u p v q → Advanced v q x r → Advanced u p x r
  Advanced-trans u v x p q r h k = record {
    accounts = Accounted-trans j p q r h.accounts k.accounts;
    pages = λ e. k.pages (h.pages e);
    waits = λ e. k.waits (h.waits e);
    clock = λ longest slow. omega (arith, h.clock longest slow, k.clock longest slow);
  }

  Advanced-Idle :
      (waited wait : ℕ) (p : Pass) (ctx : Context)
      → Idle wait p.ctx ctx
      → (waited ≤ max_drain_wait j → waited + wait ≤ max_drain_wait j)
      → Advanced waited p (waited + wait) (record p { ctx = ctx })
  Advanced-Idle waited wait p ctx h budget = record {
    accounts = record {
      entities = rw h.stores refl;
      reviews = rw h.review refl;
      candidates = rw h.candidates refl;
      requests = omega (arith, h.requests);
      kept = h.kept;
    };
    pages = λ e. e;
    waits = budget;
    clock = λ longest slow. omega (arith, h.now);
  }

  Advanced-refl : (waited : ℕ) (p : Pass) → Advanced waited p waited p
  Advanced-refl waited p = record {
    accounts = record {
      entities = refl;
      reviews = refl;
      candidates = refl;
      requests = refl;
      kept = refl;
    };
    pages = λ e. e;
    waits = λ e. e;
    clock = λ longest slow. omega arith;
  }

  Idle-turn :
      (waited : ℕ) (p : Pass) (ctx : Context)
      → Idle 0 p.ctx ctx
      → Advanced waited p waited (record p { ctx = ctx })
  Idle-turn waited p ctx h = record {
    accounts = record {
      entities = rw h.stores refl;
      reviews = rw h.review refl;
      candidates = rw h.candidates refl;
      requests = omega (arith, h.requests);
      kept = h.kept;
    };
    pages = λ e. e;
    waits = λ e. e;
    clock = λ longest slow. omega (arith, h.now);
  }

  abbrev Good : ℕ → Pass → Turn → Type 0
  Good waited p (stop q) = Advanced waited p waited q
  Good waited p (go_on waited' q) = Advanced waited p waited' q

  process-Advanced :
      (waited : ℕ) (i : Item) (p : Pass)
      → suc p.outcome.fetched ≤ j.max_pages
      → Advanced waited p waited (process_queue_item w j a i p)
  process-Advanced waited i p room =
      let h = process_queue_item-Handled w j a i p in
      record {
        accounts = record {
          entities = h.entities;
          reviews = h.reviews;
          candidates = h.candidates;
          requests = omega (arith, h.requests, h.pages);
          kept = h.kept;
        };
        pages = λ _. omega (arith, h.pages, room);
        waits = λ e. e;
        clock = λ longest slow. omega (
          arith,
          h.clock,
          h.pages,
          slow p.ctx.requests,
          ap (λ n. n * longest) h.pages,
          suc_mul p.outcome.fetched longest,
        );
      }

  sleep_or_stop-Good :
      (min_wait : Option ℕ) (waited : ℕ) (p : Pass)
      → Good waited p (sleep_or_stop (max_drain_wait j) min_wait waited p)
  sleep_or_stop-Good none waited p = Advanced-refl waited p
  sleep_or_stop-Good (some wait) waited p =
      if-intro (Good waited p) (ltb 0 (max_drain_wait j) && leb (waited + wait) (max_drain_wait j))
        _ _
        (λ t.
          Advanced-Idle waited wait p _
            (record {
              stores = refl;
              review = refl;
              candidates = refl;
              requests = refl;
              now = refl;
              kept = refl;
            })
            (λ _. ground (arith, t)))
        (λ _. Advanced-refl waited p)

  work-Good :
      (min_wait : Option ℕ) (waited : ℕ) (p : Pass) (o : Option Item)
      → suc p.outcome.fetched ≤ j.max_pages
      → Good waited p (work w j a min_wait waited p o)
  work-Good min_wait waited p none room = sleep_or_stop-Good min_wait waited p
  work-Good min_wait waited p (some i) room = process-Advanced waited i p room

  Good-trans :
      (waited : ℕ) (p q : Pass) (t : Turn)
      → Advanced waited p waited q
      → Good waited q t
      → Good waited p t
  Good-trans waited p q (stop r) h k = Advanced-trans waited waited waited p q r h k
  Good-trans waited p q (go_on v r) h k = Advanced-trans waited waited v p q r h k

  round-Good :
      (waited : ℕ) (p : Pass)
      → suc p.outcome.fetched ≤ j.max_pages
      → Good waited p (round w j a waited p)
  round-Good waited p room =
      let ready = ready_domains j p.ctx in
      let claimed = claim_ready j ready.1.domains ready.0 in
      Good-trans waited p (record p { ctx = claimed.0 }) (round w j a waited p)
        (Idle-turn waited p claimed.0
          (claim_ready-Idle j ready.1.domains p.ctx ready.0 (ready_domains-Idle j p.ctx)))
        (work-Good ready.1.min_wait waited (record p { ctx = claimed.0 }) claimed.1 room)

  turn-Good : (waited : ℕ) (p : Pass) → Good waited p (turn w j a waited p)
  turn-Good waited p =
      if-intro (Good waited p) (p.raised || leb j.max_pages p.outcome.fetched) _ _
        (λ _. Advanced-refl waited p) (λ f. round-Good waited p (ground (arith, f)))

  after-turn :
      (attempts waited : ℕ) (p : Pass) (t : Turn)
      → Good waited p t
      → ((v : ℕ) (q : Pass) → (u : ℕ) × Advanced v q u (drain w j a attempts v q))
      → (u : ℕ) × Advanced waited p u (elim t [ stop q ↦ q | go_on v q ↦ drain w j a attempts v q ])
  after-turn attempts waited p (stop q) h k = (waited, h)
  after-turn attempts waited p (go_on v q) h k =
      let (u, r) = k v q in (u, Advanced-trans waited v u p q _ h r)

  drain-Advanced :
      (attempts waited : ℕ) (p : Pass)
      → (u : ℕ) × Advanced waited p u (drain w j a attempts waited p)
  unfolding drain
  drain-Advanced zero waited p = (waited, Advanced-refl waited p)
  drain-Advanced (suc attempts) waited p =
      after-turn attempts waited p (turn w j a waited p) (turn-Good waited p)
        (λ v q. drain-Advanced attempts v q)

  -- The loop keeps the counts in step with the tables.
  pub drain_fetch_queue-Accounted : (p : Pass) → Accounted j p (drain_fetch_queue w j a p)
  unfolding drain_fetch_queue
  drain_fetch_queue-Accounted p = (drain-Advanced (j.max_pages * 3) 0 p).1.accounts

-- The requests and the time of a drain from `p` to `q`, where a fetch takes at most `longest`.
pub record Bounded (j : Job) (longest : ℕ) (p q : Pass) : Type 0 where
  pub pages : q.outcome.fetched ≤ j.max_pages
  pub requests : q.ctx.requests + p.outcome.fetched ≡ p.ctx.requests + q.outcome.fetched
  pub clock :
      q.ctx.now + p.outcome.fetched * longest
      ≤ p.ctx.now + max_drain_wait j + q.outcome.fetched * longest

-- A drain never brings the number of fetches of the pass over max_pages, it counts exactly the requests
-- that it sends, and it takes no longer than max_drain_wait_seconds and the time of its fetches, where
-- none of them takes longer than `longest`.
pub drain_fetch_queue-Bounded :
    (w : World) (j : Job) (a : Adapter) (longest : ℕ) (p : Pass)
    → ((n : ℕ) → w.elapsed n ≤ longest)
    → p.outcome.fetched ≤ j.max_pages
    → Bounded j longest p (drain_fetch_queue w j a p)
unfolding drain_fetch_queue
drain_fetch_queue-Bounded w j a longest p slow room =
    let (u, h) = drain-Advanced w j a (j.max_pages * 3) 0 p in
    record {
      pages = h.pages room;
      requests = h.accounts.requests;
      clock = omega (arith, h.clock longest slow, h.waits (omega arith));
    }
