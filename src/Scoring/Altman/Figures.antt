-- ===== src/Scoring/Altman/Figures.antt =====
-- The Altman Z" score of src/scoring.ts is computed from figures of one fiscal year.
use edgar_radar.Prelude.{refl, inr, false, List, [], String, All, All-impl}
use edgar_radar.Prelude.Dicts.{lookup, includes}
use edgar_radar.Scoring.Num.{Num}
use edgar_radar.Scoring.Series.{AnnualValue, at_key}
use edgar_radar.Scoring.Outcome.{fetch_series}
use edgar_radar.Scoring.Outcome.Figures.{
  HasKey, HasKey-derive, IsScored, score_selection-IsScored, select_years_is_safe,
}
use edgar_radar.Scoring.Altman.{
  altman_concepts, altman_keys, altman_series, altman_score, compute_altman_z_double_prime,
}

module _ (N : Num) where
  abbrev Annual : Type 0
  Annual = List String → List (AnnualValue N.Number)

  fetched-HasKey :
      (annual : Annual) → All (HasKey (fetch_series annual altman_concepts)) (altman_keys N)
  unfolding fetch_series lookup
  fetched-HasKey annual =
      ((_, refl), ((_, refl), ((_, refl), ((_, refl), ((_, refl), ((_, refl), ((_, refl), tt)))))))

  altman_series-HasKey : (annual : Annual) → All (HasKey (altman_series N annual).0) (altman_keys N)
  unfolding altman_series
  altman_series-HasKey annual =
      let series = fetch_series annual altman_concepts in
      All-impl (altman_keys N)
        (λ key h.
          HasKey-derive series "liabilities" [] (at_key "assets" series) (at_key "equity" series)
            N.sub key h)
        (fetched-HasKey annual)

  -- Whatever the annual figures are, `computeAltmanZDoublePrime` returns: it refuses, or it is the
  -- Z" computation on figures that all are of one and the same fiscal year, the newest that all the
  -- series have (the total liabilities derived where they were missing), each a value of its own
  -- series.
  pub altman-IsScored :
      (annual : Annual)
      → IsScored
          (altman_series N annual).0
          false
          (altman_keys N)
          []
          (λ current prior.
            altman_score N (includes "liabilities" (altman_series N annual).1) current)
          (compute_altman_z_double_prime N annual)
  unfolding compute_altman_z_double_prime
  altman-IsScored annual =
      let has = altman_series-HasKey annual in
      let series = (altman_series N annual).0 in
      score_selection-IsScored _ series false (altman_keys N) [] _ has tt (inr refl)
        (select_years_is_safe series false "assets" has.0)
