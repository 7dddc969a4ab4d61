-- ===== src/Tests/Facts.antt =====
-- Facts of src/sec.ts and src/repositories/companyRepository.ts, and the quarantine.
use edgar_radar.Prelude.{
  ℕ, ◌+◌, ◌*◌, ◌≤◌, ◌<◌, ◌≡◌, ◌↔◌, refl, String, true, none, some, List, [], ◌∷◌, All, length, leb,
  arith, inl, inr,
}
use edgar_radar.Prelude.Dicts.{IsIn, lookup}
use edgar_radar.Sec.{
  Fact, CompanyFacts, AnnualFactResult, annual_facts, annual_values, values_of, is_annual,
}
use edgar_radar.Sec.Periods.{Restates}
use edgar_radar.Sec.Years.{YearsFall}
use edgar_radar.Sec.Annual.{ComesFrom}
use edgar_radar.Sec.Freshest.{
  IsFreshest, annual_facts-YearsFall, annual_facts-Restates, annual_facts-IsFreshest,
  annual_facts-none_iff,
}
use edgar_radar.Facts.{Checks, FactRow, Store, store_company_facts, upsert_row}
use edgar_radar.Facts.Values.{annual_rows, annual_value_rows}
use edgar_radar.Facts.Values.Newest.{IsAnnualSeries, annual_value_rows-IsAnnualSeries}
use edgar_radar.Facts.Quality.{IsSane, store_company_facts-IsSane}
use edgar_radar.Facts.Keys.{Touches, store_company_facts-Touches}
use edgar_radar.Quarantine.{
  interrupted, IngestionOutcome, IngestionState, is_quarantined, record_success,
  attempt_company_ingestion,
}
use edgar_radar.Quarantine.Streaks.{
  record_failures, record_failures-is_quarantined, record_success-is_quarantined,
}

facts : Unit {0}
unfolding annual_facts upsert_row store_company_facts is_annual edgar_radar.Sec.covers_a_full_year
    edgar_radar.Sec.set_latest edgar_radar.Sec.fiscal_year_of_period
facts = tt

abbrev value_of : ℕ → ℕ → ℕ → ℕ → Fact ℕ
value_of start end val filed = record {
  start = some start;
  end = end;
  val = val;
  fy = 2025;
  fp = "FY";
  form = "10-K";
  filed = filed;
  accn = "0001-26-000001";
}

abbrev restated : Fact ℕ
restated = value_of 20240101 20241231 95 20260301

abbrev revenues : List (Fact ℕ)
revenues =
    value_of 20240101 20241231 90 20250301
    ∷ restated
    ∷ value_of 20250101 20251231 100 20260301
    ∷ value_of 20251001 20251231 30 20260301
    ∷ []

abbrev data_set : CompanyFacts ℕ
data_set = record { entity_name = "A Inc."; us_gaap = ("Revenues", ("USD", revenues) ∷ []) ∷ [] }

abbrev tags : List String
tags = "SalesRevenueNet" ∷ "Revenues" ∷ []

abbrev found : AnnualFactResult ℕ
found = record {
  tag = "Revenues";
  unit = "USD";
  facts = value_of 20250101 20251231 100 20260301 ∷ record restated { fy = 2024 } ∷ [];
}

finds : annual_facts data_set tags "USD" 5 none 1 ≡ some found
unfolding facts
finds = refl

annual_facts-YearsFall_example :
    IsIn "Revenues" tags
    × (found.unit ≡ "USD")
    × (length found.facts ≤ 5)
    × YearsFall none found.facts
    × All (ComesFrom none (values_of data_set "Revenues" "USD")) found.facts
annual_facts-YearsFall_example =
    annual_facts-YearsFall data_set tags "USD" 5 none 1 found (omega arith) finds

annual_facts-Restates_example : All (Restates restated) found.facts
unfolding facts
annual_facts-Restates_example =
    annual_facts-Restates data_set tags "USD" 5 none 1 found restated (omega arith) finds
      (inr (inl refl)) refl

annual_facts-IsFreshest_example : IsFreshest data_set "USD" 1 none found tags
annual_facts-IsFreshest_example =
    annual_facts-IsFreshest data_set tags "USD" 5 none 1 found (omega arith) (omega arith) finds

annual_facts-none_iff_example :
    (annual_facts data_set tags "shares" 5 none 1 ≡ none)
    ↔ All (λ t. length (annual_values data_set "shares" none t) < 1) tags
annual_facts-none_iff_example = annual_facts-none_iff data_set tags "shares" 5 none 1 (omega arith)

abbrev checks : Checks ℕ
checks = record { is_finite_number = λ v. true; magnitude = λ v. v; is_date = λ d. leb 10000101 d }

abbrev nothing_stored : Store ℕ
nothing_stored = record {
  companies = [];
  filing_facts = [];
  quarantined_facts = [];
  invalidated = [];
}

store_company_facts-IsSane_example :
    IsSane checks (store_company_facts checks "0000000001" data_set nothing_stored)
store_company_facts-IsSane_example =
    store_company_facts-IsSane checks "0000000001" data_set nothing_stored tt

store_company_facts-Touches_example :
    Touches "0000000001" nothing_stored
      (store_company_facts checks "0000000001" data_set nothing_stored)
store_company_facts-Touches_example =
    store_company_facts-Touches checks "0000000001" data_set nothing_stored

abbrev outage : List (ℕ × String)
outage =
    (1, "HTTP 500") ∷ (2, "HTTP 500") ∷ (3, "HTTP 500") ∷ (4, "HTTP 500") ∷ (5, "HTTP 404") ∷ []

record_failures-is_quarantined_example :
    is_quarantined "0000000001" (record_failures "0000000001" outage []) ≡ true
unfolding lookup
record_failures-is_quarantined_example = record_failures-is_quarantined "0000000001" outage [] refl

record_success-is_quarantined_example :
    is_quarantined "0000000001"
      (record_failures "0000000001" outage (record_success 9 "0000000001" []))
    ≡ true
record_success-is_quarantined_example = record_success-is_quarantined 9 "0000000001" outage []

abbrev fresh : IngestionState ℕ
fresh = record { store = nothing_stored; failing = [] }

-- The database fails after the company and one value are written.
abbrev broken_off : IngestionOutcome × IngestionState ℕ
broken_off = attempt_company_ingestion checks 9 "0000000001" (interrupted data_set 2 "57P01") fresh

-- Revenue of three years, the last one restated, and of an older year under another tag.
abbrev revenue : String → ℕ → ℕ → FactRow ℕ
revenue tag year filed = record {
  cik = "0000000001";
  tag = tag;
  unit = "USD";
  value = year + filed;
  period_start = some (year * 10000 + 101);
  period_end = year * 10000 + 1231;
  fiscal_year = year;
  fiscal_period = "FY";
  form = "10-K";
  accn = "0001-26-000001";
  filed_date = filed;
  effective_from = filed;
}

abbrev revenue_rows : List (FactRow ℕ)
revenue_rows =
    revenue "Revenues" 2023 20240301
    ∷ revenue "SalesRevenueNet" 2017 20180301
    ∷ revenue "Revenues" 2025 20260301
    ∷ revenue "Revenues" 2024 20250301
    ∷ revenue "Revenues" 2025 20260901
    ∷ []

abbrev revenue_tags : List String
revenue_tags = "SalesRevenueNet" ∷ "Revenues" ∷ []

annual_value_rows-IsAnnualSeries_example :
    IsAnnualSeries revenue_tags 2
      (annual_rows "0000000001" revenue_tags none revenue_rows)
      (annual_value_rows "0000000001" revenue_tags 2 none revenue_rows)
annual_value_rows-IsAnnualSeries_example =
    annual_value_rows-IsAnnualSeries revenue_tags 2 "0000000001" none revenue_rows
