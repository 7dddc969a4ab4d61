-- ===== src/Scoring/Beneish/Figures.antt =====
-- The Beneish M-Score of src/scoring.ts is computed from two consecutive fiscal years.
use edgar_radar.Prelude.{inl, refl, true, List, [], String, All, All-impl}
use edgar_radar.Prelude.Dicts.{lookup}
use edgar_radar.Scoring.Num.{Num}
use edgar_radar.Scoring.Series.{AnnualValue, SeriesOf, at_key}
use edgar_radar.Scoring.Outcome.{fetch_series}
use edgar_radar.Scoring.Outcome.Figures.{
  HasKey, HasKey-derive, IsScored, score_selection-IsScored, select_years_is_safe,
}
use edgar_radar.Scoring.Piotroski.{derive_gross_profit}
use edgar_radar.Sec.Tags.{cost_of_revenue_tags, selling_marketing_tags, general_admin_tags}
use edgar_radar.Scoring.Beneish.{
  beneish_concepts, beneish_keys, beneish_prior_keys, derive_sga, beneish_series, beneish_score,
  compute_beneish_m_score,
}

module _ (N : Num) where
  abbrev Annual : Type 0
  Annual = List String → List (AnnualValue N.Number)

  fetched-HasKey :
      (annual : Annual) → All (HasKey (fetch_series annual beneish_concepts)) beneish_keys
  unfolding fetch_series lookup
  fetched-HasKey annual = (
    (_, refl),
    (
      (_, refl),
      (
        (_, refl),
        (
          (_, refl),
          (
            (_, refl),
            (
              (_, refl),
              ((_, refl), ((_, refl), ((_, refl), ((_, refl), ((_, refl), ((_, refl), tt)))))),
            ),
          ),
        ),
      ),
    ),
  )

  beneish_series-HasKey : (annual : Annual) → All (HasKey (beneish_series N annual).0) beneish_keys
  unfolding beneish_series derive_gross_profit derive_sga
  beneish_series-HasKey annual =
      let series = fetch_series annual beneish_concepts in
      let profit = derive_gross_profit N annual series [] in
      All-impl beneish_keys
        (λ key h.
          HasKey-derive profit.0 "sga" profit.1 (annual selling_marketing_tags)
            (annual general_admin_tags) N.add key
            (HasKey-derive series "grossProfit" [] (at_key "revenue" series)
              (annual cost_of_revenue_tags) N.sub key h))
        (fetched-HasKey annual)

  -- Whatever the annual figures are, `computeBeneishMScore` returns: it refuses, or it is the score
  -- of figures that all are of one fiscal year and, for the prior ones, of the year just before it:
  -- the newest year that all the series have together with its predecessor (the gross profit and SG&A
  -- derived where they were missing).
  pub beneish-IsScored :
      (annual : Annual)
      → IsScored
          (beneish_series N annual).0
          true
          beneish_keys
          beneish_prior_keys
          (beneish_score N (beneish_series N annual).1)
          (compute_beneish_m_score N annual)
  unfolding compute_beneish_m_score
  beneish-IsScored annual =
      let has = beneish_series-HasKey annual in
      let series = (beneish_series N annual).0 in
      score_selection-IsScored _ series true beneish_keys beneish_prior_keys _ has
        (prior_of series has) (inl refl) (select_years_is_safe series true "assets" has.0)
    where
      prior_of :
          (series : SeriesOf N.Number)
          → All (HasKey series) beneish_keys
          → All (HasKey series) beneish_prior_keys
      prior_of series (a, (b, (c, (d, (_, (_, rest)))))) = (a, (b, (c, (d, rest))))
