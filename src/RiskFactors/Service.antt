-- ===== src/RiskFactors/Service.antt =====
-- src/riskFactorDiffService.ts: comparing the two latest 10-Ks of a company. What SEC sends and what
-- comparing two texts gives are the `DiffWorld`.
pub mod Repeats
pub mod Recomputed
use edgar_radar.Prelude.{
  ℕ, String, Bool, true, false, Option, none, some, List, [], ◌∷◌, if◌then◌else◌,
}
use edgar_radar.Sec.Recent.{FilingReference, SecSubmissions, find_recent_filings}
use edgar_radar.RiskFactors.Tables.{
  TextRow, DiffRow, DiffDb, upsert_text, has_diff, upsert_diff, delete_diff, text_of, latest_texts,
}

-- What `fetchSubmissions` comes to.
pub data Submissions : Type 0 where
  received : SecSubmissions → Submissions
  unknown_cik : Submissions
  fetch_failed : Submissions

-- What `fetchFilingDocumentHtml` with `extractPlainText`, and `diffRiskFactorFilings` of the older and
-- the newer text, come to; `none` is a throw, and of a comparison `some none` is the source's `null`.
pub record DiffWorld (R : Type 0) : Type 0 where
  pub submissions : Submissions
  pub document : FilingReference → Option String
  pub compare_texts : String → String → Option (Option R)

-- `RiskFactorDiffOutcome`, or a throw.
pub data DiffOutcome : Type 0 where
  computed already_stored not_extractable : (current_accn prior_accn : String) → DiffOutcome
  not_enough_history : DiffOutcome
  thrown : DiffOutcome

module _ {R : Type 0} where
  unfoldable pub store_text : String → FilingReference → Option String → DiffDb R → Bool × DiffDb R
  unfolding upsert_text
  store_text cik f none db = (false, db)
  store_text cik f (some content) db = (
    true,
    record db {
      texts =
          upsert_text
            (record {
              cik = cik;
              accn = f.accession_number;
              form = f.form;
              filing_date = f.filing_date;
              content = content;
            })
            db.texts;
    },
  )

  -- `ingestFilingText`: whether it returns, and what is stored.
  unfoldable pub ingest_text : DiffWorld R → String → FilingReference → DiffDb R → Bool × DiffDb R
  unfolding store_text
  ingest_text w cik f db =
      store_text cik f (w.document f) (record db { downloads = f.accession_number ∷ db.downloads })

  -- One turn of the loop: `stored` is what `alreadyStored` has for the filing.
  unfoldable pub ingest_missing :
      DiffWorld R → String → FilingReference → Option String → DiffDb R → Bool × DiffDb R
  unfolding ingest_text
  ingest_missing w cik f (some content) db = (true, db)
  ingest_missing w cik f none db = ingest_text w cik f db

  -- The comparison, its storing and the answer.
  unfoldable pub store_result :
      String
      → FilingReference
      → FilingReference
      → Option (Option R)
      → DiffDb R
      → DiffOutcome × DiffDb R
  unfolding upsert_diff
  store_result cik newer older none db = (thrown, db)
  store_result cik newer older (some none) db =
      (not_extractable newer.accession_number older.accession_number, db)
  store_result cik newer older (some (some result)) db = (
    computed newer.accession_number older.accession_number,
    upsert_diff
        (record {
          cik = cik;
          current_accn = newer.accession_number;
          current_filing_date = newer.filing_date;
          prior_accn = older.accession_number;
          prior_filing_date = older.filing_date;
          result = result;
        })
        db,
  )

  -- The source's `texts.get(accn)!`: a missing text throws.
  unfoldable pub compare_stored : DiffWorld R → Option String → Option String → Option (Option R)
  compare_stored w none newer = none
  compare_stored w (some older) none = none
  compare_stored w (some older) (some newer) = w.compare_texts older newer

  unfoldable pub compare_pair :
      DiffWorld R → String → FilingReference → FilingReference → DiffDb R → DiffOutcome × DiffDb R
  unfolding store_result compare_stored text_of
  compare_pair w cik newer older db =
      store_result cik newer older
        (compare_stored w (text_of cik older.accession_number db)
          (text_of cik newer.accession_number db))
        db

  unfoldable pub after_download :
      DiffWorld R
      → String
      → FilingReference
      → FilingReference
      → Bool × DiffDb R
      → DiffOutcome × DiffDb R
  unfolding compare_pair
  after_download w cik newer older (false, db) = (thrown, db)
  after_download w cik newer older (true, db) = compare_pair w cik newer older db

  -- Both texts are there, or are downloaded; the older one is not asked for where the newer one throws.
  unfoldable pub download_older :
      DiffWorld R
      → String
      → FilingReference
      → FilingReference
      → Option String
      → Bool × DiffDb R
      → DiffOutcome × DiffDb R
  unfolding after_download ingest_missing
  download_older w cik newer older stored (false, db) = (thrown, db)
  download_older w cik newer older stored (true, db) =
      after_download w cik newer older (ingest_missing w cik older stored db)

  -- What `computeLatestRiskFactorDiff` does with the 10-Ks it finds, the newest first.
  unfoldable pub compute_pair :
      DiffWorld R → String → List FilingReference → DiffDb R → DiffOutcome × DiffDb R
  unfolding has_diff download_older ingest_missing text_of
  compute_pair w cik [] db = (not_enough_history, db)
  compute_pair w cik (newer ∷ []) db = (not_enough_history, db)
  compute_pair w cik (newer ∷ older ∷ _) db =
      let current = newer.accession_number in
      let prior = older.accession_number in
      if has_diff cik current prior db
      then (already_stored current prior, db)
      else download_older w cik newer older (text_of cik prior db)
          (ingest_missing w cik newer (text_of cik current db) db)

  unfoldable pub on_submissions :
      DiffWorld R → String → Submissions → DiffDb R → DiffOutcome × DiffDb R
  unfolding compute_pair
  on_submissions w cik (received s) db =
      compute_pair w cik (find_recent_filings s ("10-K" ∷ []) 2) db
  on_submissions w cik unknown_cik db = (not_enough_history, db)
  on_submissions w cik fetch_failed db = (thrown, db)

  -- `computeLatestRiskFactorDiff`
  unfoldable pub compute_latest : DiffWorld R → String → DiffDb R → DiffOutcome × DiffDb R
  unfolding on_submissions
  compute_latest w cik db = on_submissions w cik w.submissions db

  unfoldable pub store_recomputed :
      String → TextRow → TextRow → Option (Option R) → DiffDb R → DiffOutcome × DiffDb R
  store_recomputed cik newer older none db = (thrown, db)
  store_recomputed cik newer older (some none) db =
      (not_extractable newer.accn older.accn, delete_diff cik newer.accn older.accn db)
  store_recomputed cik newer older (some (some result)) db = (
    computed newer.accn older.accn,
    upsert_diff
        (record {
          cik = cik;
          current_accn = newer.accn;
          current_filing_date = newer.filing_date;
          prior_accn = older.accn;
          prior_filing_date = older.filing_date;
          result = result;
        })
        db,
  )

  unfoldable pub recompute_pair :
      DiffWorld R → String → List TextRow → DiffDb R → DiffOutcome × DiffDb R
  unfolding store_recomputed
  recompute_pair w cik [] db = (not_enough_history, db)
  recompute_pair w cik (newer ∷ []) db = (not_enough_history, db)
  recompute_pair w cik (newer ∷ older ∷ _) db =
      store_recomputed cik newer older (w.compare_texts older.content newer.content) db

  -- `recomputeRiskFactorDiffFromStoredTexts`
  unfoldable pub recompute_from_stored : DiffWorld R → String → DiffDb R → DiffOutcome × DiffDb R
  unfolding recompute_pair
  recompute_from_stored w cik db = recompute_pair w cik (latest_texts cik ("10-K" ∷ []) 2 db) db
