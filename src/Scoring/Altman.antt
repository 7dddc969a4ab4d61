-- ===== src/Scoring/Altman.antt =====
-- `computeAltmanZDoublePrime` of src/scoring.ts.
pub mod Figures
use edgar_radar.Prelude.{ℕ, String, Bool, true, false, ◌||◌, Option, List, [], ◌∷◌, if◌then◌else◌}
use edgar_radar.Prelude.Dicts.{includes}
use edgar_radar.Scoring.Num.{Num}
use edgar_radar.Scoring.Series.{
  AnnualValue, SeriesOf, derive_if_missing, at_key, select_years, zero_denominator,
}
use edgar_radar.Scoring.Outcome.{
  ScoreOutcome, ok, insufficient_history, fetch_series, score_selection,
}
use edgar_radar.Sec.Tags.{
  assets_tags, liabilities_tags, current_assets_tags, current_liabilities_tags,
  retained_earnings_tags, operating_income_tags, stockholders_equity_tags,
}

-- `AltmanZInputs`
pub record AltmanInputs (F : Type 0) : Type 0 where
  pub fiscal_year : ℕ
  pub working_capital : F
  pub total_assets : F
  pub retained_earnings : F
  pub ebit : F
  pub book_value_of_equity : F
  pub total_liabilities : F
  pub liabilities_derived : Bool

abbrev pub altman_concepts : List (String × List String)
altman_concepts =
    ("assets", assets_tags)
    ∷ ("liabilities", liabilities_tags)
    ∷ ("currentAssets", current_assets_tags)
    ∷ ("currentLiabilities", current_liabilities_tags)
    ∷ ("retainedEarnings", retained_earnings_tags)
    ∷ ("ebit", operating_income_tags)
    ∷ ("equity", stockholders_equity_tags)
    ∷ []

module _ (N : Num) where
  abbrev pub Altman : Type 0
  Altman = ScoreOutcome N.Number N.Number (AltmanInputs N.Number)

  unfoldable pub altman_zone : N.Number → String
  altman_zone z =
      if N.lt (N.lit 26 1) z
      then "safe"
      else if N.lt (N.lit 11 1) z
      then "grey-zone"
      else "distress"

  -- The figures of one year, put together.
  unfoldable pub altman_score : Bool → (String → AnnualValue N.Number) → Altman
  unfolding altman_zone
  altman_score liabilities_derived at =
      let assets = (at "assets").value in
      let liabilities = (at "liabilities").value in
      let retained_earnings = (at "retainedEarnings").value in
      let ebit = (at "ebit").value in
      let equity = (at "equity").value in
      let working_capital = N.sub (at "currentAssets").value (at "currentLiabilities").value in
      let x1 = N.div working_capital assets in
      let x2 = N.div retained_earnings assets in
      let x3 = N.div ebit assets in
      let x4 = N.div equity liabilities in
      let z =
        N.add
          (N.add (N.add (N.mul (N.lit 656 2) x1) (N.mul (N.lit 326 2) x2)) (N.mul (N.lit 672 2) x3))
          (N.mul (N.lit 105 2) x4) in
      if N.is_zero assets || N.is_zero liabilities
      then insufficient_history zero_denominator
      else ok (N.to_fixed 3 z) (altman_zone z) (record {
        fiscal_year = (at "assets").fiscal_year;
        working_capital = working_capital;
        total_assets = assets;
        retained_earnings = retained_earnings;
        ebit = ebit;
        book_value_of_equity = equity;
        total_liabilities = liabilities;
        liabilities_derived = liabilities_derived;
      })

  abbrev pub altman_keys : List String
  altman_keys =
      "assets" ∷ "liabilities" ∷ "currentAssets" ∷ "currentLiabilities" ∷ "retainedEarnings"
      ∷ "ebit" ∷ "equity" ∷ []

  -- The series with the total liabilities derived where they are missing, and the keys derived.
  unfoldable pub altman_series :
      (List String → List (AnnualValue N.Number)) → SeriesOf N.Number × List String
  unfolding fetch_series
  altman_series annual =
      let series = fetch_series annual altman_concepts in
      derive_if_missing series "liabilities" [] (at_key "assets" series) (at_key "equity" series)
        N.sub

  unfoldable pub compute_altman_z_double_prime :
      (List String → List (AnnualValue N.Number)) → Option Altman
  unfolding altman_series
  compute_altman_z_double_prime annual =
      let found = altman_series annual in
      score_selection (record { fiscal_year = 0; value = N.lit 0 0 }) altman_keys []
        (λ current prior. altman_score (includes "liabilities" found.1) current)
        (select_years found.0 false)
