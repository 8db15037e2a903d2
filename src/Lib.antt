-- ===== src/Lib.antt =====
-- FindVerse is a search engine with its own crawler. The control plane (services/api) keeps the crawl
-- frontier in a database; workers (services/crawler) claim jobs under a lease, fetch the pages and
-- report; a report is staged as ingest items, and the projector applies each item to the job, its
-- origin and the search index, and feeds the page's links back into the frontier. A scheduler takes
-- back what is held for too long and brings the seeds of the rules back.
--
-- Files, by part:
--   Prelude, Prelude/*: tests on numbers, lists, texts, and database tables as lists of rows.
--   External: the record Platform of the crates and tables that the program takes from outside.
--   Common/Error: services/api/src/error.rs.
--   Common/Address, Common/Scope, Common/Digest, Common/Terms: crates/findverse-common/src/lib.rs
--     (normalize_url, display_url, extract_host, origin_key, host_matches_scope, derive_terms, ...);
--     Scope holds the domain lists and filter_discovered_urls of services/api/src/crawler.rs too.
--   Quality: services/api/src/quality/spam_detector.rs.
--   Crawl/Rows, Crawl/Store: the tables, the rules and the events.
--   Crawl/Frontier: services/api/src/crawl/frontier.rs (claim_jobs, report_job_url, accept_report,
--     frontier_depth).
--   Crawl/Enqueue: enqueue_urls of services/api/src/crawler.rs.
--   Crawl/Outcome: classify_job_outcome and what it calls, of the same file.
--   Crawl/Ingest, Crawl/Ingest/Recovery: services/api/src/crawl/ingest.rs.
--   Crawl/Apply, Crawl/Apply/*: apply_staged_result, update_origin_after_report and
--     mark_projection_failure of services/api/src/crawler.rs.
--   Crawl/Projection: services/api/src/crawl/projection.rs and process_pending_ingests.
--   Crawl/Maintenance, Crawl/Rules: requeue_stale_jobs, recover_stale_ingesting_jobs,
--     release_claimed_jobs_for_deleted_crawler, apply_due_rules, and in Maintenance/Blacklist
--     cleanup_blacklisted_domains.
--   Crawl/Admin: retry_failed_jobs, the two cleanings, stop_all_jobs and job_stats.
--   Crawl/Lifecycle, Crawl/Lifecycle/*: which columns go with which status, and the step relation of
--     the operations on the queue that the files above model.
--   Crawler/Fetch: fetch_once and fetch_with_retry of services/crawler/src/fetch.rs.
--   Crawler/Update: CrawlerRuntimeState and the phases of apply_pending_update of
--     services/crawler/src/worker.rs;
--     Crawler/Pool: the claims of run_worker, in Pool/Api against the tables of the API;
--     Crawler/Page, Crawler/Discovery, Crawler/Process: process_job, in Process/Indexed with the
--     classification of the API.
--   Crawler/RobotsFile, Crawler/Robots: robots.txt and the pauses of services/crawler/src/fetch.rs;
--     Crawler/RobotsTags: parse_x_robots_tag_values of services/crawler/src/extract.rs.
--   Crawler/SiteRules: services/crawler/src/site_profile/rules.rs and mod.rs.
--   Accounts, Accounts/*: users, sessions, API keys and quotas (services/api/src/dev_auth.rs,
--     auth_support.rs, store/developer.rs and the tokens of store/mod.rs); Accounts/Users/Bootstrap is
--     seed_bootstrap_admin of services/api/src/db.rs, and Accounts/Sound has the step relation of these operations.
--   Examples: sample data, with the theorems applied to it.
--
-- A table is the list of its rows, and a SQL statement is one function of the tables; concurrent
-- statements are therefore taken one after another, in any order. For claims this is an assumption:
-- the statement locks the rows of jobs that it takes, so that no job is taken twice, but it counts the
-- active jobs of an origin in its own snapshot. Times are seconds on natural numbers. An id that the
-- program draws at random is an argument, and `IsFresh` says that no row has it. An operation on the queue that fails keeps what
-- it wrote before, since the source opens no transaction there; one on the accounts that fails writes
-- nothing, less the request that is counted. The parts of one statement all read the tables as they
-- were before it, as PostgreSQL runs them.
--
-- Fuel: process_pending_ingests takes one round more than its limit, since every round but the last
-- projects an item; fetch_once takes twelve rounds, since it gives up at the eleventh redirect;
-- fetch_with_retry takes four, one attempt and three retries; the claims of a worker take a round for
-- each free place of its pool and one more.
--
-- Not modelled: errors of the database itself, the panics of chrono for times and waits beyond its
-- range (`origin_ready_at` has the waits up to `i64::MAX` seconds), the columns of `documents` beside
-- the index, the change frequencies of domains, the text of events, site authority, and tasks of one batch that overlap in
-- time. The search index, the result store, the network, Argon2, the reader of robots.txt, regular
-- expressions and the extraction of pages are parameters, as are the host that PostgreSQL reads
-- from an address and its `like`; the import of the legacy account file, the files of the site rules, and the download of a new crawler are left out. So are the query service,
-- the task bus and storage.
pub mod Prelude
pub mod External
pub mod Common
pub mod Accounts
pub mod Quality
pub mod Crawl
pub mod Crawler
pub mod Examples
