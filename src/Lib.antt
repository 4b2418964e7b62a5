-- ===== src/Lib.antt =====
-- DB Collector OS: jobs that crawl web sites, discover candidates, extract records and store them with
-- their evidence, in SQLite. A scheduler queues the jobs that are due, workers claim and run them, and
-- a run goes through the job's fetch queue within the limits of each domain and ends by moving the
-- job on to its next phase.
--
-- What models what (all paths are from the repository's root):
--   Models       db_collector_os/models/enums.py; JSON values. The dataclasses of models/records.py
--                are the records of the modules below.
--   Clock        now_iso, now_plus and datetime.fromisoformat, as db_collector_os uses them.
--   JobRegistry  db_collector_os/job_registry.py. Schedule is compute_next_run.
--   Fetching     Queue is db_collector_os/fetching/queue.py, RateLimiter is fetching/rate_limiter.py,
--                Client is fetching/client.py and fetching/robots.py.
--   RunHistory   db_collector_os/run_history.py, with the table of discovery runs.
--   Checkpoints  db_collector_os/checkpoint.py.
--   Review       db_collector_os/review/queue.py.
--   Candidates   db_collector_os/candidates.py.
--   Entities     db_collector_os/entities.py, with the evidence.
--   Deduplication  db_collector_os/deduplication: fingerprint.py and matcher.py.
--   Discovery    Saturation is db_collector_os/discovery/saturation.py, Engine is discovery/engine.py,
--                Sitemap is sitemap.py and robots_sitemap.py, Urls are the other discovery methods.
--   Collectors   Phases is db_collector_os/collectors/phase_manager.py and the decision of _advance_phase
--                of collectors/pipeline.py. The rest of pipeline.py: Passes is run_once, Drain is
--                _drain_fetch_queue and _ready_domains, Pages is _process_queue_item with the
--                extraction (also collectors/api.py), Handling is _handle_extracted. Context is
--                collectors/context.py, with the interface of the adapters.
--   Metrics      db_collector_os/metrics.py.
--   Records, Validation  ExtractedRecord of db_collector_os/adapters/base.py, and validation.py.
--   Persistence  db_collector_os/persistence.py.
--   Worker       db_collector_os/worker.py: run_job_and_record and recover_stale_jobs; Jobs is the claim of
--                a job and its run, with the pass; Loop is run_one_job, run_forever and the table
--                of workers.
--   Scheduler    db_collector_os/scheduler.py and resource_controller.py.
--   Prelude      SQL statements on lists of rows, and their lemmas. Tests applies the theorems.
--
-- State. A table is the list of its rows in the order of their rowids. A method of a store is a
-- function by the method's name, from the instant of the call, its arguments and the table to the
-- new table and the result; an UPDATE, a SELECT with a WHERE clause, ORDER BY, LIMIT and COUNT are
-- the functions of Prelude.Table. A function that calls several methods gets one instant for all,
-- but for a pass, whose clock goes on with its fetches, discoveries and sleeps. A sequence of calls
-- is a list of operations (JobRegistry.Rows, Fetching.Queue.Ops, RunHistory.Immutable,
-- Review.Closed), and each call is one step. In SQLite each statement is one step: for the methods
-- that are one statement, claim_queued among them, a list of operations is any interleaving of the
-- processes. A method that reads before it writes (claim_next, enqueue, mark_failed, finish of the
-- run history, add of the candidates) is one step only as long as no other process writes the same
-- rows in between. The code relies on that too: a job's rows are written by the worker that has
-- claimed the job. Fetching.Queue.Statements takes claim_next apart into its SELECT and its UPDATE, with
-- any statements of the processes of other jobs between them.
--
-- Numbers. Instants are microseconds, timestamps are whole seconds, as now_iso writes them; delays are
-- microseconds, confidences and thresholds thousandths, a rate is a fraction. Rows that tie in an ORDER
-- BY come in the order of the table, or last row first where a comment says so.
--
-- A pass (Collectors.Passes.run_once) goes from a Context, all tables with the clock, to the Context
-- that it leaves and its RunOutcome, or none where it raised. What it calls outside of these tables is
-- a World: the fetches one after another with the time that each takes, what the discovery methods
-- find, the adapters and the page extraction. Fetching.Client.fetch models what such a fetch does.
-- The worker's run_job_and_record follows on the same tables (Worker.Jobs.run_claimed), and run_forever
-- repeats the two (Worker.Loop). A turn of that loop is a Round: what the monotonic clock says, and how
-- long the turn sleeps; the list of the rounds ends where a stop is requested.
--
-- Parameters. normalize_url, extract_domain and the other normalizing functions, urlsplit, SHA-256,
-- requests, robotparser, the XML parser, the adapters, extract_common and the measurements of psutil
-- are functions that the definitions take; the ids that new_id draws are arguments, or the values of a
-- function of how many have been drawn. Writing a JSON value as text and reading it again is taken as
-- the identity.
--
-- Fuel. Most recursions are on lists, texts and JSON values. The digits of a number have the number
-- as fuel, which is at least their count less one; the values of a range have its end less its
-- start; sitemaps have the four levels that _depth allows. The drain of the queue has max_pages * 3
-- attempts as the source has; what the attempts do not reach waits for the next pass there too.
--
-- Not modelled: sqlite3 itself, with its locks (database.py); HTTP, HTML and YAML and what only calls
-- them (the adapters' own code, extraction, config.py, the command line, the admin pages, the report
-- scripts); the regular expressions and Unicode tables of the normalization; the scheduler's loop around
-- tick; an exception of the database, or out of FetchEngine.fetch; logging; the overflow of datetime.
pub mod Prelude
pub mod Clock
pub mod Models
pub mod Metrics
pub mod JobRegistry
pub mod Fetching
pub mod RunHistory
pub mod Checkpoints
pub mod Review
pub mod Tests
pub mod Candidates
pub mod Entities
pub mod Deduplication
pub mod Discovery
pub mod Collectors
pub mod Records
pub mod Validation
pub mod Persistence
pub mod Worker
pub mod Scheduler
