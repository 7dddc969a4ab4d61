-- ===== src/Scoring/Piotroski/Figures.antt =====
-- The Piotroski F-Score of src/scoring.ts is computed from two consecutive fiscal years.
use edgar_radar.Prelude.{inl, refl, true, List, [], String, All, All-impl}
use edgar_radar.Prelude.Dicts.{lookup}
use edgar_radar.Scoring.Num.{Num}
use edgar_radar.Scoring.Series.{AnnualValue, SeriesOf, at_key}
use edgar_radar.Scoring.Outcome.{fetch_series}
use edgar_radar.Scoring.Outcome.Figures.{
  HasKey, HasKey-derive, IsScored, score_selection-IsScored, select_years_is_safe,
}
use edgar_radar.Sec.Tags.{cost_of_revenue_tags}
use edgar_radar.Scoring.Piotroski.{
  piotroski_concepts, piotroski_keys, piotroski_prior_keys, derive_gross_profit, piotroski_series,
  piotroski_score, compute_piotroski_f_score,
}

module _ (N : Num) where
  abbrev Annual : Type 0
  Annual = List String → List (AnnualValue N.Number)

  fetched-HasKey :
      (annual : Annual) → All (HasKey (fetch_series annual piotroski_concepts)) piotroski_keys
  unfolding fetch_series lookup
  fetched-HasKey annual = (
    (_, refl),
    (
      (_, refl),
      ((_, refl), ((_, refl), ((_, refl), ((_, refl), ((_, refl), ((_, refl), ((_, refl), tt))))))),
    ),
  )

  piotroski_series-HasKey :
      (annual : Annual) → All (HasKey (piotroski_series N annual).0) piotroski_keys
  unfolding piotroski_series derive_gross_profit
  piotroski_series-HasKey annual =
      let series = fetch_series annual piotroski_concepts in
      All-impl piotroski_keys
        (λ key h.
          HasKey-derive series "grossProfit" [] (at_key "revenue" series)
            (annual cost_of_revenue_tags) N.sub key h)
        (fetched-HasKey annual)

  -- Whatever the annual figures are, `computePiotroskiFScore` returns: it refuses, or it is the score
  -- of figures that all are of one fiscal year and, for the prior ones, of the year just before it:
  -- the newest year that all the series have together with its predecessor (the gross profit derived
  -- where it was missing).
  pub piotroski-IsScored :
      (annual : Annual)
      → IsScored
          (piotroski_series N annual).0
          true
          piotroski_keys
          piotroski_prior_keys
          (piotroski_score N (piotroski_series N annual).1)
          (compute_piotroski_f_score N annual)
  unfolding compute_piotroski_f_score
  piotroski-IsScored annual =
      let has = piotroski_series-HasKey annual in
      let series = (piotroski_series N annual).0 in
      score_selection-IsScored _ series true piotroski_keys piotroski_prior_keys _ has
        (prior_of series has) (inl refl) (select_years_is_safe series true "assets" has.0)
    where
      prior_of :
          (series : SeriesOf N.Number)
          → All (HasKey series) piotroski_keys
          → All (HasKey series) piotroski_prior_keys
      prior_of series (a, (b, (c, (d, (_, rest))))) = (a, (b, (c, (d, rest))))
