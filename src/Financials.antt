-- ===== src/Financials.antt =====
-- src/companyFinancials.ts: the headline annual figures of a company's page. The annual series that
-- the database gives and the filing date of the last annual report are arguments.
pub mod Liabilities
use edgar_radar.Prelude.{String, Bool, not, Option, List, [], ◌∷◌, leb, if◌then◌else◌}
use edgar_radar.Sec.{Date}
use edgar_radar.Sec.Tags.{
  assets_tags, liabilities_tags, long_term_debt_tags, net_income_tags, operating_cash_flow_tags,
  revenue_tags, stockholders_equity_tags,
}
use edgar_radar.Scoring.Num.{Num}
use edgar_radar.Scoring.Series.{AnnualValue, combine_by_year, newest_year, reaches}

-- `CompanyFinancials`
pub record CompanyFinancials (F : Type 0) : Type 0 where
  pub cik : String
  pub latest_annual_report_filed : Option Date
  pub revenue : List (AnnualValue F)
  pub net_income : List (AnnualValue F)
  pub total_assets : List (AnnualValue F)
  pub total_liabilities : List (AnnualValue F)
  pub liabilities_derived : Bool
  pub long_term_debt : List (AnnualValue F)
  pub operating_cash_flow : List (AnnualValue F)

module _ {F : Type 0} where
  -- A value goes behind those of its own year, as the sort is stable.
  insert_by_year : AnnualValue F → List (AnnualValue F) → List (AnnualValue F)
  insert_by_year v [] = v ∷ []
  insert_by_year v (w ∷ ws) =
      let rest = insert_by_year v ws in
      if leb v.fiscal_year w.fiscal_year then v ∷ w ∷ ws else w ∷ rest

  -- `oldestFirst`
  unfoldable pub oldest_first : List (AnnualValue F) → List (AnnualValue F)
  unfolding insert_by_year
  oldest_first [] = []
  oldest_first (v ∷ vs) = insert_by_year v (oldest_first vs)

module _ (N : Num) where
  unfoldable pub get_company_financials :
      String
      → (List String → List (AnnualValue N.Number))
      → Option Date
      → CompanyFinancials N.Number
  get_company_financials padded_cik annual latest_annual_report_filed =
      let total_assets = annual assets_tags in
      let reported_liabilities = annual liabilities_tags in
      let derived_liabilities =
        combine_by_year total_assets (annual stockholders_equity_tags) N.sub in
      let liabilities_derived =
        not (reaches (newest_year reported_liabilities) (newest_year derived_liabilities)) in
      record {
        cik = padded_cik;
        latest_annual_report_filed = latest_annual_report_filed;
        revenue = oldest_first (annual revenue_tags);
        net_income = oldest_first (annual net_income_tags);
        total_assets = oldest_first total_assets;
        total_liabilities =
            oldest_first
              (if liabilities_derived then derived_liabilities else reported_liabilities);
        liabilities_derived = liabilities_derived;
        long_term_debt = oldest_first (annual long_term_debt_tags);
        operating_cash_flow = oldest_first (annual operating_cash_flow_tags);
      }
