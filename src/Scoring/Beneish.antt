-- ===== src/Scoring/Beneish.antt =====
-- `computeBeneishMScore` of src/scoring.ts.
pub mod Figures
use edgar_radar.Prelude.{ℕ, String, Bool, not, ◌&&◌, Option, List, [], ◌∷◌, if◌then◌else◌, true}
use edgar_radar.Scoring.Num.{Num}
use edgar_radar.Scoring.Series.{
  AnnualValue, SeriesOf, derive_if_missing, select_years, zero_denominator,
}
use edgar_radar.Scoring.Outcome.{
  ScoreOutcome, ok, insufficient_history, fetch_series, score_selection,
}
use edgar_radar.Scoring.Piotroski.{derive_gross_profit}
use edgar_radar.Sec.Tags.{
  assets_tags, current_assets_tags, current_liabilities_tags, long_term_debt_tags,
  operating_cash_flow_tags, net_income_tags, revenue_tags, gross_profit_tags, receivables_tags,
  ppe_tags, depreciation_tags, sga_tags, selling_marketing_tags, general_admin_tags,
}

pub record Indices (F : Type 0) : Type 0 where
  pub dsri : F
  pub gmi : F
  pub aqi : F
  pub sgi : F
  pub depi : F
  pub sgai : F
  pub tata : F
  pub lvgi : F

-- `BeneishInputs`
pub record BeneishInputs (F : Type 0) : Type 0 where
  pub fiscal_year_current : ℕ
  pub fiscal_year_prior : ℕ
  pub derived : List String
  pub indices : Indices F

abbrev beneish_concepts : List (String × List String)
beneish_concepts =
    ("assets", assets_tags)
    ∷ ("currentAssets", current_assets_tags)
    ∷ ("currentLiabilities", current_liabilities_tags)
    ∷ ("longTermDebt", long_term_debt_tags)
    ∷ ("cfo", operating_cash_flow_tags)
    ∷ ("netIncome", net_income_tags)
    ∷ ("revenue", revenue_tags)
    ∷ ("grossProfit", gross_profit_tags)
    ∷ ("receivables", receivables_tags)
    ∷ ("ppe", ppe_tags)
    ∷ ("depreciation", depreciation_tags)
    ∷ ("sga", sga_tags)
    ∷ []

abbrev pub beneish_keys : List String
beneish_keys =
    "assets" ∷ "currentAssets" ∷ "currentLiabilities" ∷ "longTermDebt" ∷ "cfo" ∷ "netIncome"
    ∷ "revenue" ∷ "grossProfit" ∷ "receivables" ∷ "ppe" ∷ "depreciation" ∷ "sga" ∷ []

-- The cash flow and the net income of the year before are not read.
abbrev pub beneish_prior_keys : List String
beneish_prior_keys =
    "assets" ∷ "currentAssets" ∷ "currentLiabilities" ∷ "longTermDebt" ∷ "revenue" ∷ "grossProfit"
    ∷ "receivables" ∷ "ppe" ∷ "depreciation" ∷ "sga" ∷ []

module _ (N : Num) where
  abbrev pub Beneish : Type 0
  Beneish = ScoreOutcome N.Number N.Number (BeneishInputs N.Number)

  -- `deriveSga`
  unfoldable pub derive_sga :
      (List String → List (AnnualValue N.Number))
      → SeriesOf N.Number
      → List String
      → SeriesOf N.Number × List String
  derive_sga annual series derived =
      derive_if_missing series "sga" derived (annual selling_marketing_tags)
        (annual general_admin_tags) N.add

  abbrev denominators_are_non_zero :
      (String → AnnualValue N.Number) → (String → AnnualValue N.Number) → Bool
  denominators_are_non_zero t p =
      not (N.is_zero (t "revenue").value)
      && not (N.is_zero (p "revenue").value)
      && not (N.is_zero (t "assets").value)
      && not (N.is_zero (p "assets").value)
      && not (N.is_zero (N.add (t "depreciation").value (t "ppe").value))
      && not (N.is_zero (N.add (p "depreciation").value (p "ppe").value))

  -- The indices before they are rounded.
  unfoldable pub indices_of :
      (String → AnnualValue N.Number) → (String → AnnualValue N.Number) → Indices N.Number
  indices_of t p =
      let over_revenue : (String → AnnualValue N.Number) → String → N.Number =
        λ at key. N.div (at key).value (at "revenue").value in
      let asset_quality : (String → AnnualValue N.Number) → N.Number = λ at.
        N.sub (N.lit 1 0)
          (N.div (N.add (at "currentAssets").value (at "ppe").value) (at "assets").value) in
      let depreciation_rate : (String → AnnualValue N.Number) → N.Number =
        λ at. N.div (at "depreciation").value (N.add (at "depreciation").value (at "ppe").value) in
      let leverage : (String → AnnualValue N.Number) → N.Number = λ at.
        N.div (N.add (at "longTermDebt").value (at "currentLiabilities").value)
          (at "assets").value in
      record {
        dsri = N.div (over_revenue t "receivables") (over_revenue p "receivables");
        gmi = N.div (over_revenue p "grossProfit") (over_revenue t "grossProfit");
        aqi = N.div (asset_quality t) (asset_quality p);
        sgi = N.div (t "revenue").value (p "revenue").value;
        depi = N.div (depreciation_rate p) (depreciation_rate t);
        sgai = N.div (over_revenue t "sga") (over_revenue p "sga");
        tata = N.div (N.sub (t "netIncome").value (t "cfo").value) (t "assets").value;
        lvgi = N.div (leverage t) (leverage p);
      }

  unfoldable pub m_score : Indices N.Number → N.Number
  m_score i =
      N.sub
        (N.add
          (N.sub
            (N.add
              (N.add
                (N.add
                  (N.add (N.add (N.neg_lit 484 2) (N.mul (N.lit 92 2) i.dsri))
                    (N.mul (N.lit 528 3) i.gmi))
                  (N.mul (N.lit 404 3) i.aqi))
                (N.mul (N.lit 892 3) i.sgi))
              (N.mul (N.lit 115 3) i.depi))
            (N.mul (N.lit 172 3) i.sgai))
          (N.mul (N.lit 4679 3) i.tata))
        (N.mul (N.lit 327 3) i.lvgi)

  rounded : Indices N.Number → Indices N.Number
  rounded i = record {
    dsri = N.to_fixed 4 i.dsri;
    gmi = N.to_fixed 4 i.gmi;
    aqi = N.to_fixed 4 i.aqi;
    sgi = N.to_fixed 4 i.sgi;
    depi = N.to_fixed 4 i.depi;
    sgai = N.to_fixed 4 i.sgai;
    tata = N.to_fixed 4 i.tata;
    lvgi = N.to_fixed 4 i.lvgi;
  }

  -- The figures of the two years, put together.
  unfoldable pub beneish_score :
      List String → (String → AnnualValue N.Number) → (String → AnnualValue N.Number) → Beneish
  unfolding indices_of m_score rounded
  beneish_score derived t p =
      let indices = indices_of t p in
      let m = m_score indices in
      if denominators_are_non_zero t p
      then ok (N.to_fixed 3 m)
          (if N.lt (N.neg_lit 222 2) m then "likely-manipulator" else "unlikely-manipulator")
          (record {
            fiscal_year_current = (t "assets").fiscal_year;
            fiscal_year_prior = (p "assets").fiscal_year;
            derived = derived;
            indices = rounded indices;
          })
      else insufficient_history zero_denominator

  unfoldable pub beneish_series :
      (List String → List (AnnualValue N.Number)) → SeriesOf N.Number × List String
  unfolding derive_sga derive_gross_profit fetch_series
  beneish_series annual =
      let profit = derive_gross_profit N annual (fetch_series annual beneish_concepts) [] in
      derive_sga annual profit.0 profit.1

  unfoldable pub compute_beneish_m_score :
      (List String → List (AnnualValue N.Number)) → Option Beneish
  unfolding beneish_series beneish_score
  compute_beneish_m_score annual =
      let found = beneish_series annual in
      score_selection (record { fiscal_year = 0; value = N.lit 0 0 }) beneish_keys
        beneish_prior_keys (beneish_score found.1) (select_years found.0 true)
