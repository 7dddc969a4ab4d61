-- ===== src/Pipeline.antt =====
-- src/parserWorker.ts, src/scoringWorker.ts, src/notificationWorker.ts and
-- src/repositories/stageCompletionRepository.ts: the workers behind the queues. A delivery of a job
-- is one call of its worker; what the outside does during it is an argument.
pub mod Stages
pub mod Handoff
pub mod Scores
use edgar_radar.Prelude.{
  ℕ, String, Bool, true, false, not, ◌&&◌, ◌||◌, Option, none, some, List, [], ◌∷◌, ◌++◌, any,
  str_eq, length, if◌then◌else◌,
}
use edgar_radar.Sec.{CompanyFacts}
use edgar_radar.Facts.{Checks}
use edgar_radar.Quarantine.{
  IngestionOutcome, IngestionState, Fetched, attempt_company_ingestion, success,
  skipped_quarantined, failed,
}
use edgar_radar.Categories.{carries_financial_statements}
use edgar_radar.Poller.{Job}

-- A row of `stage_completions`.
pub record Claim : Type 0 where
  pub accession_number : String
  pub stage : String

unfoldable pub is_claim : String → String → Claim → Bool
is_claim accession_number stage c =
    str_eq accession_number c.accession_number && str_eq stage c.stage

-- `claimStage`: whether this call inserted the row, and the table after it.
unfoldable pub claim_stage : String → String → List Claim → Bool × List Claim
unfolding is_claim
claim_stage accession_number stage claims =
    if any (is_claim accession_number stage) claims
    then (false, claims)
    else (true, claims ++ record { accession_number = accession_number; stage = stage } ∷ [])

-- How a call of a worker ends: it returns, or it throws, and BullMQ delivers the job again.
pub data Delivery : Type 0 where
  returned : Delivery
  thrown : Delivery

-- `FilingParsedJobData`
pub record ParsedJob : Type 0 where
  pub job : Job
  pub facts_refreshed : Bool
  pub text_ingested : Bool

-- `ScoresUpdatedJobData`
pub record ScoredJob (S : Type 0) : Type 0 where
  pub parsed : ParsedJob
  pub scores : S

-- The tables and the queues: `texts` has the accession numbers of the filings whose text is stored,
-- `diffed` the companies whose risk-factor diff was asked for, `alerts` the accession numbers of the
-- filings that an alert was sent for. A queue has every job ever put on it.
pub record Pipeline (V S : Type 0) : Type 0 where
  pub ingestion : IngestionState V
  pub texts : List String
  pub diffed : List String
  pub claims : List Claim
  pub parsed : List ParsedJob
  pub scored : List (ScoredJob S)
  pub alerts : List String

-- What `form.trim().toUpperCase()` gives (`clean`), and what the outside does while the job is
-- handled: the SEC document, whether the text was stored, and whether the claim and the queue answer.
pub record ParserWorld (V : Type 0) : Type 0 where
  pub now : ℕ
  pub clean : String → String
  pub fetched : Fetched V
  pub text_stored : Bool
  pub claim_answers : Bool
  pub add_answers : Bool

pub record WorkerWorld : Type 0 where
  pub claim_answers : Bool
  pub side_effect_answers : Bool

abbrev stage_parsed : String
stage_parsed = "parsed"

abbrev stage_scored : String
stage_scored = "scored"

abbrev stage_notified : String
stage_notified = "notified"

-- `TEXT_INGEST_FORMS.includes(form)`
abbrev pub is_text_form : String → Bool
is_text_form form = str_eq form "10-K"

-- `factsRefreshed`: whether the outcome is a success; no ingestion for the other forms.
is_success : IngestionOutcome → Bool
is_success success = true
is_success skipped_quarantined = false
is_success (failed newly_quarantined error) = false

module _ {V : Type 0} where
  unfoldable pub refresh_facts :
      Checks V → ParserWorld V → Job → IngestionState V → Bool × IngestionState V
  unfolding is_success
  refresh_facts checks w j s =
      let (outcome, refreshed) = attempt_company_ingestion checks w.now j.cik w.fetched s in
      if carries_financial_statements w.clean j.form
      then (is_success outcome, refreshed)
      else (false, s)

  unfoldable pub ingests_text : ParserWorld V → Job → Bool
  ingests_text w j = is_text_form j.form && w.text_stored

module _ {V S : Type 0} where
  -- The facts and the text, all before the claim.
  unfoldable pub parse_filing :
      Checks V → ParserWorld V → Job → Pipeline V S → ParsedJob × Pipeline V S
  unfolding refresh_facts ingests_text
  parse_filing checks w j s =
      let (facts_refreshed, ingestion) = refresh_facts checks w j s.ingestion in
      let text_ingested = ingests_text w j in
      (
        record { job = j; facts_refreshed = facts_refreshed; text_ingested = text_ingested },
        record s {
          ingestion = ingestion;
          texts = if text_ingested then s.texts ++ j.accession_number ∷ [] else s.texts;
          diffed = if text_ingested then s.diffed ++ j.cik ∷ [] else s.diffed;
        },
      )

  -- The claim of a stage and the one call it guards. `act` is the state after the guarded call.
  unfoldable pub guarded :
      String
      → String
      → Bool
      → Bool
      → (Pipeline V S → Pipeline V S)
      → Pipeline V S
      → Delivery × Pipeline V S
  unfolding claim_stage
  guarded accession_number stage claim_answers act_answers act s =
      let (first_time, claims) = claim_stage accession_number stage s.claims in
      let claimed = record s { claims = claims } in
      if not claim_answers
      then (thrown, s)
      else if not first_time
      then (returned, s)
      else if act_answers
      then (returned, act claimed)
      else (thrown, claimed)

  unfoldable pub process_filing_discovered :
      Checks V → ParserWorld V → Job → Pipeline V S → Delivery × Pipeline V S
  unfolding guarded parse_filing
  process_filing_discovered checks w j s =
      let (parsed, t) = parse_filing checks w j s in
      guarded j.accession_number stage_parsed w.claim_answers w.add_answers
        (λ u. record u { parsed = u.parsed ++ parsed ∷ [] }) t

  -- `scores` is what `computeScores` gives; `none`, that it throws.
  unfoldable pub process_filing_parsed :
      WorkerWorld → Option S → ParsedJob → Pipeline V S → Delivery × Pipeline V S
  unfolding guarded
  process_filing_parsed w none j s = (thrown, s)
  process_filing_parsed w (some scores) j s =
      guarded j.job.accession_number stage_scored w.claim_answers w.side_effect_answers
        (λ u. record u { scored = u.scored ++ record { parsed = j; scores = scores } ∷ [] }) s

  -- `watchers` are those of the company.
  unfoldable pub process_scores_updated :
      WorkerWorld → List String → ScoredJob S → Pipeline V S → Delivery × Pipeline V S
  unfolding guarded
  process_scores_updated w [] j s = (returned, s)
  process_scores_updated w (watcher ∷ watchers) j s =
      guarded j.parsed.job.accession_number stage_notified w.claim_answers w.side_effect_answers
        (λ u. record u { alerts = u.alerts ++ j.parsed.job.accession_number ∷ [] }) s

-- A delivery of a job to its worker, with what the outside does meanwhile.
pub data Event (V S : Type 0) : Type 0 where
  discovered : ParserWorld V → Job → Event V S
  parsed : WorkerWorld → Option S → ParsedJob → Event V S
  scored : WorkerWorld → (watchers : List String) → ScoredJob S → Event V S

module _ {V S : Type 0} where
  unfoldable pub deliver : Checks V → Event V S → Pipeline V S → Delivery × Pipeline V S
  unfolding process_filing_discovered process_filing_parsed process_scores_updated
  deliver checks (discovered w j) s = process_filing_discovered checks w j s
  deliver checks (parsed w scores j) s = process_filing_parsed w scores j s
  deliver checks (scored w watchers j) s = process_scores_updated w watchers j s

  -- Deliveries one after the other, whatever jobs and however often.
  unfoldable pub run : Checks V → List (Event V S) → Pipeline V S → Pipeline V S
  unfolding deliver
  run checks [] s = s
  run checks (e ∷ es) s = run checks es (deliver checks e s).1
