-- ===== src/Poller.antt =====
-- src/poller.ts and src/repositories/pollerRepository.ts: one poll cycle over the universe of
-- companies, as explicit passing of the database and the queue. Times are milliseconds.
pub mod Invariant
pub mod Ledger
pub mod Once
pub mod Enqueued
pub mod Coverage
use edgar_radar.Prelude.{
  ℕ, ◌+◌, ◌-◌, ◌*◌, String, Bool, true, false, not, ◌&&◌, ◌||◌, Option, none, some, List, [], ◌∷◌,
  ◌++◌, map, leb, ◌==◌, str_eq, if◌then◌else◌, length, keep, set,
}
use edgar_radar.Prelude.Dicts.{lookup, insert, includes}
use edgar_radar.Sec.{Date}
use edgar_radar.Sec.Recent.{FilingReference, SecSubmissions}
use edgar_radar.Facts.{CacheKey, company, facts}
use edgar_radar.Quarantine.{Failing, is_quarantined, record_failure}

pub record UniverseEntry : Type 0 where
  pub cik : String
  pub ticker : String
  pub name : String

-- `FilingDiscoveredJobData`
pub record Job : Type 0 where
  pub cik : String
  pub ticker : String
  pub accession_number : String
  pub form : String
  pub filing_date : Date
  pub primary_document : String

-- A row of discovered_filings.
pub record Discovered : Type 0 where
  pub accession_number : String
  pub cik : String
  pub form : String
  pub filing_date : Date

-- A row of poller_runs; its id is its place in the table.
pub data PollerRun : Type 0 where
  running : PollerRun
  completed : (companies_checked new_filings_found companies_failed : ℕ) → PollerRun
  failed : PollerRun

pub record Db : Type 0 where
  pub last_checked_at : Option ℕ
  pub discovered : List Discovered
  pub failing : Failing
  -- sic and sic_description of the stored companies, by cik
  pub industries : List (String × Option (String × String))
  pub invalidated : List CacheKey
  pub runs : List PollerRun
  -- every job ever put on the filing.discovered queue
  pub queue : List Job

-- What one call of `fetchSubmissions` comes to.
pub data Response : Type 0 where
  received : SecSubmissions → Response
  thrown : (message : String) → Response

-- What a cycle meets: the clock, SEC, and which calls of the database and the queue fail.
pub record World : Type 0 where
  pub now : ℕ
  -- `new Date(t).toISOString().slice(0, 10)`
  pub iso_day : ℕ → Date
  -- `fetchSubmissions(cik)` in this cycle
  pub fetch : String → Response
  -- whether `getLastCheckedAt` and `startPollerRun` succeed
  pub start_works : Bool
  -- whether these succeed for a company: `isQuarantined`, `recordFailure`, `updateCompanyIndustry` and
  -- `findDiscoveredAccessions`
  pub quarantine_works : String → Bool
  pub failure_works : String → Bool
  pub industry_works : String → Bool
  pub ledger_works : String → Bool
  -- whether `setLastCheckedAt`, `completePollerRun` and `failPollerRun` succeed
  pub cursor_works : Bool
  pub complete_works : Bool
  pub fail_works : Bool
  -- whether `filingDiscoveredQueue.add` and `recordDiscoveredFiling` succeed for a job
  pub enqueue_works : Job → Bool
  pub record_works : Job → Bool

abbrev pub day_ms : ℕ
day_ms = 24 * 60 * 60 * 1000

abbrev pub filing_lookback_days : ℕ
filing_lookback_days = 2

unfoldable pub get_last_checked_at : ℕ → Db → ℕ
get_last_checked_at now db = elim db.last_checked_at [ none ↦ now - day_ms | some t ↦ t ]

unfoldable pub earliest_filing_date : World → Db → Date
unfolding get_last_checked_at
earliest_filing_date w db = w.iso_day (get_last_checked_at w.now db - filing_lookback_days * day_ms)

abbrev pub accessions : List Discovered → List String
accessions rows = map (λ (r : Discovered). r.accession_number) rows

abbrev pub queued : List Job → List String
queued jobs = map (λ (j : Job). j.accession_number) jobs

-- `ON CONFLICT (accession_number) DO NOTHING`
unfoldable pub record_discovered_filing : Job → Db → Db
record_discovered_filing j db =
    if includes j.accession_number (accessions db.discovered) then db else record db {
      discovered =
          db.discovered
          ++ record {
            accession_number = j.accession_number;
            cik = j.cik;
            form = j.form;
            filing_date = j.filing_date;
          }
            ∷ [];
    }

same_industry : Option (String × String) → String → String → Bool
same_industry none sic description = false
same_industry (some (s, d)) sic description = str_eq s sic && str_eq d description

-- `updateCompanyIndustry`: only a stored company whose industry differs is written.
unfoldable pub update_company_industry : String → String → String → Db → Db
unfolding same_industry
update_company_industry cik sic description db = elim (lookup cik db.industries) [
  | none ↦ db
  | some old ↦ if same_industry old sic description then db else record db {
    industries = insert cik (some (sic, description)) db.industries;
    invalidated = db.invalidated ++ company cik ∷ facts cik ∷ [];
  }
]

abbrev pub job_of : UniverseEntry → FilingReference → Job
job_of entry f = record {
  cik = entry.cik;
  ticker = entry.ticker;
  accession_number = f.accession_number;
  form = f.form;
  filing_date = f.filing_date;
  primary_document = f.primary_document;
}

-- Whether an exception has ended the cycle.
pub data Ending : Type 0 where
  going threw : Ending

-- After a step that came to `here`: the rest is done unless the step threw.
abbrev pub unless_threw {ℓ} : {A : Type ℓ} → A → Ending → A × Ending → A × Ending
unless_threw here going rest = rest
unless_threw here threw rest = (here, threw)

-- `if (submissions.sic && submissions.sicDescription)`: an empty text counts as missing. `works` is
-- whether the update does.
unfoldable pub note_industry : Bool → String → SecSubmissions → Db → Db × Ending
unfolding update_company_industry
note_industry works cik submissions db = elim submissions.sic [
  | none ↦ (db, going)
  | some sic ↦ elim submissions.sic_description [
    | none ↦ (db, going)
    | some description ↦
        if str_eq sic "" || str_eq description ""
        then (db, going)
        else if works
        then (update_company_industry cik sic description db, going)
        else (db, threw)
  ]
]

abbrev pub is_candidate : Date → FilingReference → Bool
is_candidate earliest f = leb earliest f.filing_date

-- `findDiscoveredAccessions` asks the database only where there is a candidate.
unfoldable pub asks_ledger : List FilingReference → Bool
asks_ledger [] = false
asks_ledger (f ∷ fs) = true

-- `newIndexes`: the candidates that no earlier cycle or company has recorded.
unfoldable pub new_filings : Date → List Discovered → List FilingReference → List FilingReference
new_filings earliest discovered recent =
    keep (λ f. not (includes f.accession_number (accessions discovered)))
      (keep (is_candidate earliest) recent)

-- The database and the counters of the loop.
pub record Progress : Type 0 where
  pub db : Db
  pub companies_checked : ℕ
  pub new_filings_found : ℕ
  pub submission_check_failures : ℕ

module _ (w : World) where
  -- One job: onto the queue, and only then into discovered_filings.
  unfoldable pub enqueue : Job → Db → Db × Ending
  unfolding record_discovered_filing
  enqueue j db =
      let queued_db = record db { queue = db.queue ++ j ∷ [] } in
      if not (w.enqueue_works j)
      then (db, threw)
      else if w.record_works j
      then (record_discovered_filing j queued_db, going)
      else (queued_db, threw)

  unfoldable pub enqueue_all : UniverseEntry → List FilingReference → Db → Db × Ending
  enqueue_all entry [] db = (db, going)
  enqueue_all entry (f ∷ fs) db =
      let (db', ending) = enqueue (job_of entry f) db in
      let rest = enqueue_all entry fs db' in unless_threw db' ending rest

  -- The window's filings that are not discovered yet.
  unfoldable pub take_filings : Date → UniverseEntry → SecSubmissions → Progress → Progress × Ending
  unfolding new_filings asks_ledger
  take_filings earliest entry submissions p =
      let fresh = new_filings earliest p.db.discovered submissions.recent in
      let (db, ending) = enqueue_all entry fresh p.db in
      if asks_ledger (keep (is_candidate earliest) submissions.recent)
        && not (w.ledger_works entry.cik)
      then (p, threw)
      else (record p { db = db; new_filings_found = p.new_filings_found + length fresh }, ending)

  -- The body of the loop after a successful fetch.
  unfoldable pub take_submissions :
      Date → UniverseEntry → SecSubmissions → Progress → Progress × Ending
  unfolding note_industry take_filings
  take_submissions earliest entry submissions p =
      let (noted, ending) = note_industry (w.industry_works entry.cik) entry.cik submissions p.db in
      let here = record p { db = noted } in
      unless_threw here ending (take_filings earliest entry submissions here)

  -- A failed fetch is counted first, and its record may fail.
  unfoldable pub take_response : Date → UniverseEntry → Progress → Response → Progress × Ending
  take_response earliest entry p (received submissions) =
      take_submissions earliest entry submissions p
  take_response earliest entry p (thrown message) =
      let counted = record p { submission_check_failures = p.submission_check_failures + 1 } in
      if w.failure_works entry.cik
      then (
        record counted {
          db = record p.db { failing = (record_failure w.now entry.cik message p.db.failing).0 };
        },
        going,
      )
      else (counted, threw)

  unfoldable pub check_company : Date → UniverseEntry → Progress → Progress × Ending
  check_company earliest entry p =
      let counted = record p { companies_checked = p.companies_checked + 1 } in
      if not (w.quarantine_works entry.cik)
      then (counted, threw)
      else if is_quarantined entry.cik p.db.failing
      then (counted, going)
      else take_response earliest entry counted (w.fetch entry.cik)

  unfoldable pub check_companies : Date → List UniverseEntry → Progress → Progress × Ending
  check_companies earliest [] p = (p, going)
  check_companies earliest (entry ∷ entries) p =
      let (p', ending) = check_company earliest entry p in
      let rest = check_companies earliest entries p' in unless_threw p' ending rest

abbrev start_run : Db → Db
start_run db = record db { runs = db.runs ++ running ∷ [] }

abbrev finish_run : ℕ → PollerRun → Db → Db
finish_run id run db = record db { runs = set db.runs id run }

pub data CycleResult : Type 0 where
  returned : (companies_checked new_filings_found companies_failed : ℕ) → CycleResult
  rethrown : CycleResult

-- The `catch` block.
abbrev fail_run : World → ℕ → Db → CycleResult × Db
fail_run w id db = (rethrown, if w.fail_works then finish_run id failed db else db)

-- The end of the `try` block: the cursor moves only if every company could be checked.
finish_cycle : World → ℕ → ℕ → Progress → CycleResult × Db
finish_cycle w started_at id p =
    let failures = p.submission_check_failures in
    let moved = if failures == 0 then record p.db { last_checked_at = some started_at } else p.db in
    if failures == 0 && not w.cursor_works
    then fail_run w id p.db
    else if w.complete_works
    then (
      returned p.companies_checked p.new_filings_found failures,
      finish_run id (completed p.companies_checked p.new_filings_found failures) moved,
    )
    else fail_run w id moved

-- The end of the cycle: the `try` block's, or the `catch` block.
unfoldable pub end_cycle : World → ℕ → ℕ → Progress → Ending → CycleResult × Db
unfolding finish_cycle
end_cycle w started_at id p going = finish_cycle w started_at id p
end_cycle w started_at id p threw = fail_run w id p.db

unfoldable pub run_poll_cycle : World → List UniverseEntry → Db → CycleResult × Db
run_poll_cycle w universe db =
    let earliest = earliest_filing_date w db in
    let id = length db.runs in
    let first : Progress = record {
      db = start_run db;
      companies_checked = 0;
      new_filings_found = 0;
      submission_check_failures = 0;
    } in
    let (p, ending) = check_companies w earliest universe first in
    if w.start_works then end_cycle w w.now id p ending else (rethrown, db)
