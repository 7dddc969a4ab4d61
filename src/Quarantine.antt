-- ===== src/Quarantine.antt =====
-- src/repositories/failingCompanyRepository.ts and src/companyIngestion.ts: how often each company
-- has failed in a row, and the ingestion of one company. `now` is the database's clock.

pub mod Streaks
pub mod Ingestion
use edgar_radar.Prelude.{
  ℕ, ◌+◌, String, Bool, true, false, not, ◌&&◌, Option, none, some, List, take, leb, if◌then◌else◌,
}
use edgar_radar.Prelude.Dicts.{lookup, insert}
use edgar_radar.Sec.{CompanyFacts}
use edgar_radar.Facts.{Checks, Store, store_company_facts}
use edgar_radar.Facts.Writes.{writes_of, apply_writes}

-- `MAX_CONSECUTIVE_FAILURES`
abbrev pub max_consecutive_failures : ℕ
max_consecutive_failures = 5

-- A row of failing_companies.
pub record FailingRow : Type 0 where
  pub consecutive_failures : ℕ
  pub last_error : Option String
  pub last_attempted_at : ℕ
  pub quarantined_at : Option ℕ

abbrev pub Failing : Type 0
Failing = List (String × FailingRow)

is_set : Option ℕ → Bool
is_set none = false
is_set (some t) = true

row_quarantined : Option FailingRow → Bool
row_quarantined none = false
row_quarantined (some row) = is_set row.quarantined_at

unfoldable pub is_quarantined : String → Failing → Bool
unfolding row_quarantined is_set
is_quarantined cik failing = row_quarantined (lookup cik failing)

unfoldable pub record_success : ℕ → String → Failing → Failing
record_success now cik failing =
    insert cik
      (record {
        consecutive_failures = 0;
        last_error = none;
        last_attempted_at = now;
        quarantined_at = none;
      })
      failing

-- The row that `INSERT ... ON CONFLICT DO UPDATE ... RETURNING` leaves and returns.
failed_row : ℕ → String → Option FailingRow → FailingRow
failed_row now message none = record {
  consecutive_failures = 1;
  last_error = some message;
  last_attempted_at = now;
  quarantined_at = none;
}
failed_row now message (some row) = record row {
  consecutive_failures = row.consecutive_failures + 1;
  last_error = some message;
  last_attempted_at = now;
}

crosses : FailingRow → Bool
unfolding is_set
crosses row =
    leb max_consecutive_failures row.consecutive_failures && not (is_set row.quarantined_at)

-- The second result is whether this call quarantines the company.
unfoldable pub record_failure : ℕ → String → String → Failing → Failing × Bool
unfolding failed_row crosses is_set
record_failure now cik message failing =
    let row = failed_row now message (lookup cik failing) in
    if crosses row
    then (insert cik (record row { quarantined_at = some now }) failing, true)
    else (insert cik row failing, false)

unfoldable pub clear_quarantine : String → Failing → Failing
clear_quarantine cik failing = elim (lookup cik failing) [
  | none ↦ failing
  | some row ↦ insert cik (record row { consecutive_failures = 0; quarantined_at = none }) failing
]

pub data IngestionOutcome : Type 0 where
  skipped_quarantined : IngestionOutcome
  success : IngestionOutcome
  failed : (newly_quarantined : Bool) → (error : String) → IngestionOutcome

-- What `upsertCompanyFacts` meets: the document that SEC sends, all of whose writes succeed, as
-- `recordSuccess` does; the message of what `fetchCompanyFacts` throws, before anything is written;
-- or the document and the message of what the database throws after some of the writes, or in
-- `recordSuccess` when all of them are done.
pub data Fetched (V : Type 0) : Type 0 where
  received : CompanyFacts V → Fetched V
  thrown : (message : String) → Fetched V
  interrupted : CompanyFacts V → (written : ℕ) → (message : String) → Fetched V

pub record IngestionState (V : Type 0) : Type 0 where
  pub store : Store V
  pub failing : Failing

module _ {V : Type 0} where
  ingest :
      Checks V → ℕ → String → Fetched V → IngestionState V → IngestionOutcome × IngestionState V
  ingest checks now cik (received data_set) s = (
    success,
    record {
      store = store_company_facts checks cik data_set s.store;
      failing = record_success now cik s.failing;
    },
  )
  ingest checks now cik (thrown message) s =
      let (failing, newly) = record_failure now cik message s.failing in
      (failed newly message, record { store = s.store; failing = failing })
  ingest checks now cik (interrupted data_set written message) s =
      let (failing, newly) = record_failure now cik message s.failing in
      (
        failed newly message,
        record {
          store = apply_writes checks cik (take written (writes_of data_set)) s.store;
          failing = failing;
        },
      )

  unfoldable pub attempt_company_ingestion :
      Checks V → ℕ → String → Fetched V → IngestionState V → IngestionOutcome × IngestionState V
  unfolding ingest
  attempt_company_ingestion checks now cik fetched s =
      if is_quarantined cik s.failing
      then (skipped_quarantined, s)
      else ingest checks now cik fetched s
