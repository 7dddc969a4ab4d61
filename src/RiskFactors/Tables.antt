-- ===== src/RiskFactors/Tables.antt =====
-- src/repositories/riskFactorDiffRepository.ts and the stored texts of
-- src/repositories/filingTextRepository.ts. The result of a comparison is of a type R.
use edgar_radar.Prelude.{
  ℕ, String, Bool, not, ◌&&◌, Option, none, some, List, [], ◌∷◌, find, keep, take, any, str_eq, ltb,
  if◌then◌else◌,
}
use edgar_radar.Prelude.Dicts.{includes}
use edgar_radar.Sec.{Date}
use edgar_radar.Facts.{CacheKey, risk_factor_diff}

-- A row of filing_text_sections for 'full_document', unique by cik and accession number.
pub record TextRow : Type 0 where
  pub cik : String
  pub accn : String
  pub form : String
  pub filing_date : Date
  pub content : String

-- A row of filing_risk_factor_diffs, unique by cik and the two accession numbers.
pub record DiffRow (R : Type 0) : Type 0 where
  pub cik : String
  pub current_accn : String
  pub current_filing_date : Date
  pub prior_accn : String
  pub prior_filing_date : Date
  pub result : R

pub record DiffDb (R : Type 0) : Type 0 where
  pub texts : List TextRow
  pub diffs : List (DiffRow R)
  pub invalidated : List CacheKey
  -- the filings whose documents were asked of SEC, the latest first
  pub downloads : List String

unfoldable pub is_text : String → String → TextRow → Bool
is_text cik accn r = str_eq r.cik cik && str_eq r.accn accn

-- `upsertFilingTextSection`
unfoldable pub upsert_text : TextRow → List TextRow → List TextRow
unfolding is_text
upsert_text row [] = row ∷ []
upsert_text row (r ∷ rs) =
    let rest = upsert_text row rs in if is_text row.cik row.accn r then row ∷ rs else r ∷ rest

module _ {R : Type 0} where
  unfoldable pub is_diff : String → String → String → DiffRow R → Bool
  is_diff cik current prior r =
      str_eq r.cik cik && (str_eq r.current_accn current && str_eq r.prior_accn prior)

  -- `hasRiskFactorDiff`
  unfoldable pub has_diff : String → String → String → DiffDb R → Bool
  unfolding is_diff
  has_diff cik current prior db = any (is_diff cik current prior) db.diffs

  -- An update keeps the dates.
  unfoldable pub upsert_diff_row : DiffRow R → List (DiffRow R) → List (DiffRow R)
  unfolding is_diff
  upsert_diff_row row [] = row ∷ []
  upsert_diff_row row (r ∷ rs) =
      let rest = upsert_diff_row row rs in
      if is_diff row.cik row.current_accn row.prior_accn r
      then record r { result = row.result } ∷ rs
      else r ∷ rest

  -- `upsertRiskFactorDiff`
  unfoldable pub upsert_diff : DiffRow R → DiffDb R → DiffDb R
  unfolding upsert_diff_row
  upsert_diff row db = record db {
    diffs = upsert_diff_row row db.diffs;
    invalidated = risk_factor_diff row.cik ∷ db.invalidated;
  }

  -- `deleteRiskFactorDiff`
  unfoldable pub delete_diff : String → String → String → DiffDb R → DiffDb R
  unfolding is_diff
  delete_diff cik current prior db = record db {
    diffs = keep (λ r. not (is_diff cik current prior r)) db.diffs;
    invalidated = risk_factor_diff cik ∷ db.invalidated;
  }

  -- The content of a stored text, as `getFilingTextsByAccn` maps it.
  unfoldable pub text_of : String → String → DiffDb R → Option String
  unfolding is_text
  text_of cik accn db = elim (find (is_text cik accn) db.texts) [
    | none ↦ none
    | some r ↦ some r.content
  ]

-- `ORDER BY filing_date DESC`, where rows of one date keep their order.
insert_newest : TextRow → List TextRow → List TextRow
insert_newest row [] = row ∷ []
insert_newest row (r ∷ rs) =
    let rest = insert_newest row rs in
    if ltb row.filing_date r.filing_date then r ∷ rest else row ∷ r ∷ rs

unfoldable pub newest_first : List TextRow → List TextRow
unfolding insert_newest
newest_first [] = []
newest_first (r ∷ rs) = insert_newest r (newest_first rs)

module _ {R : Type 0} where
  -- `getLatestFilingTexts`
  unfoldable pub latest_texts : String → List String → ℕ → DiffDb R → List TextRow
  unfolding newest_first
  latest_texts cik forms count db =
      take count (newest_first (keep (λ r. str_eq r.cik cik && includes r.form forms) db.texts))

  unfoldable pub newer_diff : DiffRow R → Option (DiffRow R) → DiffRow R
  newer_diff r none = r
  newer_diff r (some best) = if ltb r.current_filing_date best.current_filing_date then best else r

  unfoldable pub latest_of : String → List (DiffRow R) → Option (DiffRow R)
  unfolding newer_diff
  latest_of cik [] = none
  latest_of cik (r ∷ rs) =
      let rest = latest_of cik rs in if str_eq r.cik cik then some (newer_diff r rest) else rest

  -- `getLatestRiskFactorDiff`
  unfoldable pub get_latest_diff : String → DiffDb R → Option (DiffRow R)
  unfolding latest_of
  get_latest_diff cik db = latest_of cik db.diffs
