-- ===== src/Scoring/Piotroski.antt =====
-- `computePiotroskiFScore` of src/scoring.ts.
pub mod Figures
pub mod Points
use edgar_radar.Prelude.{
  ℕ, String, Bool, true, false, ◌||◌, Option, List, [], ◌∷◌, if◌then◌else◌, leb, length, keep,
}
use edgar_radar.Scoring.Num.{Num}
use edgar_radar.Scoring.Series.{
  AnnualValue, SeriesOf, derive_if_missing, at_key, select_years, zero_denominator,
}
use edgar_radar.Scoring.Outcome.{
  ScoreOutcome, ok, insufficient_history, fetch_series, score_selection,
}
use edgar_radar.Sec.Tags.{
  assets_tags, current_assets_tags, current_liabilities_tags, long_term_debt_tags,
  operating_cash_flow_tags, net_income_tags, shares_outstanding_tags, gross_profit_tags,
  revenue_tags, cost_of_revenue_tags,
}

-- The nine signals, in the order of the fields.
pub record Signals : Type 0 where
  pub positive_roa : Bool
  pub positive_cfo : Bool
  pub improving_roa : Bool
  pub cfo_exceeds_net_income : Bool
  pub decreasing_leverage : Bool
  pub improving_current_ratio : Bool
  pub no_new_shares : Bool
  pub improving_gross_margin : Bool
  pub improving_asset_turnover : Bool

-- `PiotroskiInputs`
pub record PiotroskiInputs : Type 0 where
  pub fiscal_year_current : ℕ
  pub fiscal_year_prior : ℕ
  pub signals : Signals
  pub derived : List String

-- `Object.values(signals)`
abbrev pub values : Signals → List Bool
values s =
    s.positive_roa ∷ s.positive_cfo ∷ s.improving_roa ∷ s.cfo_exceeds_net_income
    ∷ s.decreasing_leverage ∷ s.improving_current_ratio ∷ s.no_new_shares ∷ s.improving_gross_margin
    ∷ s.improving_asset_turnover ∷ []

unfoldable pub points : Signals → ℕ
points s = length (keep (λ b. b) (values s))

unfoldable pub quality : ℕ → String
quality score =
    if leb 8 score then "high-quality" else if leb score 2 then "low-quality" else "moderate"

abbrev piotroski_concepts : List (String × List String)
piotroski_concepts =
    ("assets", assets_tags)
    ∷ ("currentAssets", current_assets_tags)
    ∷ ("currentLiabilities", current_liabilities_tags)
    ∷ ("longTermDebt", long_term_debt_tags)
    ∷ ("cfo", operating_cash_flow_tags)
    ∷ ("netIncome", net_income_tags)
    ∷ ("shares", shares_outstanding_tags)
    ∷ ("grossProfit", gross_profit_tags)
    ∷ ("revenue", revenue_tags)
    ∷ []

abbrev pub piotroski_keys : List String
piotroski_keys =
    "assets" ∷ "currentAssets" ∷ "currentLiabilities" ∷ "longTermDebt" ∷ "cfo" ∷ "netIncome"
    ∷ "shares" ∷ "grossProfit" ∷ "revenue" ∷ []

-- The cash flow of the year before is not read.
abbrev pub piotroski_prior_keys : List String
piotroski_prior_keys =
    "assets" ∷ "currentAssets" ∷ "currentLiabilities" ∷ "longTermDebt" ∷ "netIncome" ∷ "shares"
    ∷ "grossProfit" ∷ "revenue" ∷ []

abbrev pub Piotroski : Type 0 → Type 0
Piotroski F = ScoreOutcome F ℕ PiotroskiInputs

module _ (N : Num) where
  -- `deriveGrossProfit`
  unfoldable pub derive_gross_profit :
      (List String → List (AnnualValue N.Number))
      → SeriesOf N.Number
      → List String
      → SeriesOf N.Number × List String
  derive_gross_profit annual series derived =
      derive_if_missing series "grossProfit" derived (at_key "revenue" series)
        (annual cost_of_revenue_tags) N.sub

  unfoldable pub signals_of :
      (String → AnnualValue N.Number) → (String → AnnualValue N.Number) → Signals
  signals_of t p =
      let zero = N.lit 0 0 in
      let ratio : (String → AnnualValue N.Number) → String → String → N.Number =
        λ at over under. N.div (at over).value (at under).value in
      let roa_t = ratio t "netIncome" "assets" in
      let roa_p = ratio p "netIncome" "assets" in
      let leverage_t = ratio t "longTermDebt" "assets" in
      let leverage_p = ratio p "longTermDebt" "assets" in
      let current_ratio_t = ratio t "currentAssets" "currentLiabilities" in
      let current_ratio_p = ratio p "currentAssets" "currentLiabilities" in
      let gross_margin_t = ratio t "grossProfit" "revenue" in
      let gross_margin_p = ratio p "grossProfit" "revenue" in
      let turnover_t = ratio t "revenue" "assets" in
      let turnover_p = ratio p "revenue" "assets" in
      record {
        positive_roa = N.lt zero roa_t;
        positive_cfo = N.lt zero (t "cfo").value;
        improving_roa = N.lt roa_p roa_t;
        cfo_exceeds_net_income = N.lt (t "netIncome").value (t "cfo").value;
        decreasing_leverage = N.lt leverage_t leverage_p;
        improving_current_ratio = N.lt current_ratio_p current_ratio_t;
        no_new_shares = N.le (t "shares").value (p "shares").value;
        improving_gross_margin = N.lt gross_margin_p gross_margin_t;
        improving_asset_turnover = N.lt turnover_p turnover_t;
      }

  -- `[assetsT, assetsP, revT, revP].some((v) => v!.value === 0)`
  abbrev no_ratios : (String → AnnualValue N.Number) → (String → AnnualValue N.Number) → Bool
  no_ratios t p =
      N.is_zero (t "assets").value
      || N.is_zero (p "assets").value
      || N.is_zero (t "revenue").value
      || N.is_zero (p "revenue").value

  -- The figures of the two years, put together.
  unfoldable pub piotroski_score :
      List String
      → (String → AnnualValue N.Number)
      → (String → AnnualValue N.Number)
      → Piotroski N.Number
  unfolding signals_of points quality
  piotroski_score derived t p =
      let signals = signals_of t p in
      let score = points signals in
      if no_ratios t p
      then insufficient_history zero_denominator
      else ok score (quality score) (record {
        fiscal_year_current = (t "assets").fiscal_year;
        fiscal_year_prior = (p "assets").fiscal_year;
        signals = signals;
        derived = derived;
      })

  unfoldable pub piotroski_series :
      (List String → List (AnnualValue N.Number)) → SeriesOf N.Number × List String
  unfolding derive_gross_profit fetch_series
  piotroski_series annual = derive_gross_profit annual (fetch_series annual piotroski_concepts) []

  unfoldable pub compute_piotroski_f_score :
      (List String → List (AnnualValue N.Number)) → Option (Piotroski N.Number)
  unfolding piotroski_series piotroski_score
  compute_piotroski_f_score annual =
      let found = piotroski_series annual in
      score_selection (record { fiscal_year = 0; value = N.lit 0 0 }) piotroski_keys
        piotroski_prior_keys (piotroski_score found.1) (select_years found.0 true)
