-- ===== src/Facts.antt =====
-- src/dataQuality.ts and the writes of src/repositories/companyRepository.ts: a company's stored
-- facts, the quarantine of bad values, and the cache keys that each write clears.
-- Ciks are padded already. The database's clock columns (`updated_at`) are left out.

pub mod Quality
pub mod Values
pub mod Keys
pub mod Writes
use edgar_radar.Prelude.{
  ℕ, ◌≤◌, String, Bool, true, false, not, ◌&&◌, ◌||◌, Option, none, some, List, [], ◌∷◌, ◌++◌, ltb,
  ◌==◌, str_eq, if◌then◌else◌,
}
use edgar_radar.Prelude.Dicts.{lookup, insert, includes}
use edgar_radar.Sec.{
  Date, Fact, CompanyFacts, AnnualFactResult, fiscal_year_of_period, annual_facts_by_default,
}
use edgar_radar.Sec.Recent.{most_recent_fact}
use edgar_radar.Sec.Tags

-- What JavaScript knows of a value and of a date text, which the checks of src/dataQuality.ts use.
pub record Checks (V : Type 0) : Type 0 where
  -- `typeof val === 'number' && Number.isFinite(val)`
  pub is_finite_number : V → Bool
  -- the least whole number that is not below `Math.abs(val)`
  pub magnitude : V → ℕ
  -- the text has the form YYYY-MM-DD and `new Date` reads it
  pub is_date : Date → Bool

pub data Reason : Type 0 where
  non_numeric implausible unknown_unit invalid_date : Reason

abbrev pub max_plausible_magnitude : ℕ
max_plausible_magnitude = 50_000_000_000_000

abbrev pub known_units : List String
known_units = "USD" ∷ "shares" ∷ []

-- A row of filing_facts.
pub record FactRow (V : Type 0) : Type 0 where
  pub cik : String
  pub tag : String
  pub unit : String
  pub value : V
  pub period_start : Option Date
  pub period_end : Date
  pub fiscal_year : ℕ
  pub fiscal_period : String
  pub form : String
  pub accn : String
  pub filed_date : Date
  pub effective_from : Date

-- A row of quarantined_facts.
pub record QuarantinedRow (V : Type 0) : Type 0 where
  pub cik : String
  pub tag : String
  pub unit : String
  pub fact : Fact V
  pub reason : Reason

-- The keys of src/cache.ts that belong to a company.
pub data CacheKey : Type 0 where
  company facts scores financials risk_factor_diff : String → CacheKey

pub record Store (V : Type 0) : Type 0 where
  -- entity_name by cik
  pub companies : List (String × String)
  pub filing_facts : List (FactRow V)
  pub quarantined_facts : List (QuarantinedRow V)
  -- the keys given to `responseCache.invalidate`, in order
  pub invalidated : List CacheKey

same_start : Option Date → Option Date → Bool
same_start none none = true
same_start (some a) (some b) = a == b
same_start _ _ = false

module _ {V : Type 0} where
  unfoldable pub is_valid_date_string : Checks V → Option Date → Bool
  is_valid_date_string checks none = true
  is_valid_date_string checks (some d) = checks.is_date d

  -- `none` is `{ valid: true }`.
  unfoldable pub validate_fact : Checks V → String → Fact V → Option Reason
  unfolding is_valid_date_string
  validate_fact checks unit f =
      if not (checks.is_finite_number f.val)
      then some non_numeric
      else if ltb max_plausible_magnitude (checks.magnitude f.val)
      then some implausible
      else if not (includes unit known_units)
      then some unknown_unit
      else if not (checks.is_date f.end) || not (is_valid_date_string checks f.start)
      then some invalid_date
      else none

  unfoldable pub upsert_company : String → String → Store V → Store V
  upsert_company cik entity_name s = record s {
    companies = insert cik entity_name s.companies;
    invalidated = s.invalidated ++ company cik ∷ facts cik ∷ [];
  }

  unfoldable pub insert_quarantined_fact :
      String → String → String → Fact V → Reason → Store V → Store V
  insert_quarantined_fact cik tag unit f reason s = record s {
    quarantined_facts =
        s.quarantined_facts
        ++ record { cik = cik; tag = tag; unit = unit; fact = f; reason = reason } ∷ [];
  }

  -- The label of an annual 10-K value is the fiscal year of its period.
  unfoldable pub stored_fiscal_year : Fact V → ℕ
  stored_fiscal_year f =
      if str_eq f.form "10-K" && str_eq f.fp "FY" then fiscal_year_of_period f.end else f.fy

  unfoldable pub row_of : String → String → String → Fact V → FactRow V
  unfolding stored_fiscal_year
  row_of cik tag unit f = record {
    cik = cik;
    tag = tag;
    unit = unit;
    value = f.val;
    period_start = f.start;
    period_end = f.end;
    fiscal_year = stored_fiscal_year f;
    fiscal_period = f.fp;
    form = f.form;
    accn = f.accn;
    filed_date = f.filed;
    effective_from = f.filed;
  }

  -- The unique key of filing_facts: cik, tag, unit, period_end, period_start, accn.
  unfoldable pub same_key : FactRow V → FactRow V → Bool
  unfolding same_start
  same_key a b =
      str_eq a.cik b.cik
      && str_eq a.tag b.tag
      && str_eq a.unit b.unit
      && a.period_end == b.period_end
      && same_start a.period_start b.period_start
      && str_eq a.accn b.accn

  -- `DO UPDATE SET value, form, filed_date, fiscal_year`: the other columns keep what they hold.
  abbrev pub overwrite : FactRow V → FactRow V → FactRow V
  overwrite old new = record old {
    value = new.value;
    form = new.form;
    filed_date = new.filed_date;
    fiscal_year = new.fiscal_year;
  }

  unfoldable pub upsert_row : FactRow V → List (FactRow V) → List (FactRow V)
  upsert_row r [] = r ∷ []
  upsert_row r (q ∷ qs) = if same_key q r then overwrite q r ∷ qs else q ∷ upsert_row r qs

  unfoldable pub upsert_fact : Checks V → String → String → Fact V → String → Store V → Store V
  upsert_fact checks cik tag f unit s = elim (validate_fact checks unit f) [
    | some reason ↦ insert_quarantined_fact cik tag unit f reason s
    | none ↦ record s {
      filing_facts = upsert_row (row_of cik tag unit f) s.filing_facts;
      invalidated = s.invalidated ++ facts cik ∷ scores cik ∷ financials cik ∷ [];
    }
  ]

  -- `if (revenue) await upsertFact(...)`
  unfoldable pub upsert_most_recent :
      Checks V → String → Option (String × Fact V) → Store V → Store V
  upsert_most_recent checks cik none s = s
  upsert_most_recent checks cik (some (tag, f)) s = upsert_fact checks cik tag f "USD" s

  unfoldable pub upsert_facts :
      Checks V → String → String → String → List (Fact V) → Store V → Store V
  upsert_facts checks cik tag unit [] s = s
  upsert_facts checks cik tag unit (f ∷ fs) s =
      upsert_facts checks cik tag unit fs (upsert_fact checks cik tag f unit s)

  unfoldable pub upsert_annual : Checks V → String → Option (AnnualFactResult V) → Store V → Store V
  upsert_annual checks cik none s = s
  upsert_annual checks cik (some r) s = upsert_facts checks cik r.tag r.unit r.facts s

  unfoldable pub upsert_concepts :
      Checks V → String → CompanyFacts V → List (List String × String) → Store V → Store V
  unfolding upsert_annual
  upsert_concepts checks cik data_set [] s = s
  upsert_concepts checks cik data_set ((tags, unit) ∷ concepts) s =
      upsert_concepts checks cik data_set concepts (
        upsert_annual checks cik
          (annual_facts_by_default data_set tags unit Tags.annual_history_years) s)

  unfoldable pub store_company_facts : Checks V → String → CompanyFacts V → Store V → Store V
  unfolding upsert_most_recent
  store_company_facts checks cik data_set s =
      upsert_concepts checks cik data_set Tags.annual_fact_concepts (
        upsert_most_recent checks cik (most_recent_fact data_set Tags.net_income_tags) (
          upsert_most_recent checks cik (most_recent_fact data_set Tags.revenue_tags)
            (upsert_company cik data_set.entity_name s)))
