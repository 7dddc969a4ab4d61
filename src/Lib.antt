-- ===== src/Lib.antt =====
-- EDGAR Radar: the backend that watches SEC filings of a universe of companies, stores their
-- financial facts, scores them and passes new filings through a pipeline of workers.
--
-- The parts and how they interact. The poller (src/poller.ts) asks SEC for each company's filings
-- and puts a job per new filing on filing.discovered. The parser worker takes these jobs, ingests
-- the company's facts (src/companyIngestion.ts over src/sec.ts and
-- src/repositories/companyRepository.ts) and the text of a 10-K, and hands the filing on to the
-- scoring worker (src/scoring.ts), which hands it on to the notification worker.
--
-- The files and what they model:
-- * Sec, and Sec/*: src/sec.ts. A date is the number YYYYMMDD of its text, a companyfacts document
--   is its values under each tag and unit. `annual_facts` is `annualFacts`, `most_recent_fact` is
--   `mostRecentFact`, and so on: the names are the source's in snake case. The values themselves are
--   of any type V.
-- * Facts, and Facts/*: src/dataQuality.ts and the writes of src/repositories/companyRepository.ts,
--   over a `Store` of the tables. What JavaScript knows of a number and of a date text is the record
--   `Checks`. A CIK is taken as already padded. Facts.Values is src/repositories/scoringRepository.ts,
--   the query for a company's annual values over the rows of filing_facts.
-- * Quarantine, and Quarantine/*: src/repositories/failingCompanyRepository.ts and
--   src/companyIngestion.ts. What fetching from SEC gives is an argument, and after how many of the
--   writes, which Facts.Writes lists, a database error interrupts the storing. A database error of
--   `isQuarantined` or `recordFailure` itself is left out.
-- * Poller, and Poller/*: src/poller.ts and src/repositories/pollerRepository.ts. A `World` has the
--   clock, SEC's answers and which calls of the database and the queue fail; a call that fails changes
--   nothing. A cycle takes the database and the queue to what it leaves. A fetch that throws ends in
--   the `catch` of its turn, any other error in that of the cycle.
-- * Scoring, and Scoring/*: src/scoring.ts. The operations on floating-point numbers are the record
--   `Num`, of which nothing is assumed, and the annual series that the database gives are an
--   argument. An exception is `none`, and what a refusal says is its kind (`Refusal`).
-- * Categories, and Categories/*: src/filingCategories.ts.
-- * Feed, and Feed/*: `groupFilings` of web/src/lib/feed.ts.
-- * Financials, and Financials/*: src/companyFinancials.ts.
-- * Retry, and Retry/*: `fetchWithRetry` of src/retry.ts, by recursion on the retries that are left.
-- * ReadDb, and ReadDb/*: `createReadDb` of src/db.ts, as events of reads that overlap.
-- * Pipeline, and Pipeline/*: src/parserWorker.ts, src/scoringWorker.ts, src/notificationWorker.ts
--   and src/repositories/stageCompletionRepository.ts. A delivery is one call of a worker, and a run
--   is any list of deliveries; what the outside does in a delivery is part of it. A database error
--   before the claim, which makes the worker throw without a claim, is not modelled.
--   `computeScores` is Pipeline.Scores.
-- * Cache, and Cache/*: src/cache.ts and src/routes/cachedResponse.ts. The Redis client is a
--   parameter; Cache.Redis says what it documents. Cache.Live runs one cached body with its requests,
--   writers and timers, in any order.
-- * RateLimiter, and RateLimiter/*: src/rateLimiter.ts, in exact units of a token.
-- * Alerting, and Alerting/*: src/alerting.ts, over the completed cycles and the table alert_state.
-- * Backfill, and Backfill/*: src/repositories/ingestionRepository.ts and scripts/backfill.ts, which
--   ingests each company by Quarantine's `attempt_company_ingestion`.
-- * Config, and Config/*: src/config.ts; the patterns of the formats are parameters.
-- * Routes, and Routes/*: the handlers of src/routes/companies.ts for one company's pages, over Cache;
--   what the databases and SEC answer to a request is its `World`.
-- * RiskFactors, and RiskFactors/*: the matching of src/riskFactorDiff.ts, over given similarities;
--   RiskFactors.Tables and RiskFactors.Service are src/repositories/riskFactorDiffRepository.ts, the
--   texts of src/repositories/filingTextRepository.ts and src/riskFactorDiffService.ts.
-- * Explain, and Ratings, and Ratings/*: the bands and sentences of web/src/lib/explain.ts, over `Num`
--   and `Numerals`, and the chips of web/src/lib/ratings.ts.
-- * Search, and Search/*: web/src/lib/search.ts; operations on texts are the record `Texts`.
-- * Prelude, and Prelude/*: tests on numbers, lists and association lists.
-- * Tests, and Tests/*: runs on concrete data.
--
-- No definition runs on fuel: every loop of the parts above is over a list or counts down.
--
-- Not modelled: HTTP and Express (src/app.ts, src/middleware, the routes but for one company's pages),
-- PostgreSQL, Redis and BullMQ themselves, text extraction and embeddings (src/filingText.ts,
-- src/riskFactors.ts, src/embeddings.ts), reconciliation, the scripts but for the backfill, and the
-- rest of the web site.
pub mod Prelude
pub mod Sec
pub mod Facts
pub mod Quarantine
pub mod Poller
pub mod Scoring
pub mod Retry
pub mod RateLimiter
pub mod Explain
pub mod Ratings
pub mod Search
pub mod Routes
pub mod Alerting
pub mod Config
pub mod Backfill
pub mod Cache
pub mod ReadDb
pub mod Pipeline
pub mod Financials
pub mod Feed
pub mod Categories
pub mod RiskFactors
mod Tests
