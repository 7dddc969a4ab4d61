-- ===== src/Pipeline/Scores.antt =====
-- `computeScores` of src/scoringWorker.ts: the three scores of a company.
use edgar_radar.Prelude.{
  ℕ, ◌≡◌, refl, inl, inr, String, Bool, Option, none, some, List, [], true, false,
}
use edgar_radar.Prelude.Dicts.{includes}
use edgar_radar.Scoring.Num.{Num}
use edgar_radar.Scoring.Series.{AnnualValue, SeriesOf}
use edgar_radar.Scoring.Outcome.{ScoreOutcome}
use edgar_radar.Scoring.Outcome.Figures.{IsScored}
use edgar_radar.Scoring.Altman.{
  AltmanInputs, altman_series, altman_keys, altman_score, compute_altman_z_double_prime,
}
use edgar_radar.Scoring.Altman.Figures.{altman-IsScored}
use edgar_radar.Scoring.Piotroski.{
  PiotroskiInputs, piotroski_series, piotroski_keys, piotroski_prior_keys, piotroski_score,
  compute_piotroski_f_score,
}
use edgar_radar.Scoring.Piotroski.Figures.{piotroski-IsScored}
use edgar_radar.Scoring.Beneish.{
  BeneishInputs, beneish_series, beneish_keys, beneish_prior_keys, beneish_score,
  compute_beneish_m_score,
}
use edgar_radar.Scoring.Beneish.Figures.{beneish-IsScored}

-- `FilingScores`
pub record FilingScores (F : Type 0) : Type 0 where
  pub altman_z : ScoreOutcome F F (AltmanInputs F)
  pub piotroski_f : ScoreOutcome F ℕ PiotroskiInputs
  pub beneish_m : ScoreOutcome F F (BeneishInputs F)

module _ {F : Type 0} where
  -- `Promise.all`: an exception of one is an exception of all.
  unfoldable pub all_of :
      Option (ScoreOutcome F F (AltmanInputs F))
      → Option (ScoreOutcome F ℕ PiotroskiInputs)
      → Option (ScoreOutcome F F (BeneishInputs F))
      → Option (FilingScores F)
  all_of (some z) (some f) (some m) = some (record { altman_z = z; piotroski_f = f; beneish_m = m })
  all_of _ _ _ = none

  scored_some :
      {V I : Type 0} (series : SeriesOf F) (need_prior : Bool) (keys prior_keys : List String)
      (compute : (String → AnnualValue F) → (String → AnnualValue F) → ScoreOutcome F V I)
      (outcome : Option (ScoreOutcome F V I))
      → IsScored series need_prior keys prior_keys compute outcome
      → (o : ScoreOutcome F V I) × (outcome ≡ some o)
  scored_some series need_prior keys prior_keys compute outcome (inl (r, e)) = (_, e)
  scored_some series need_prior keys prior_keys compute outcome
        (inr (year, current, prior, newest, e, _, _)) =
      (_, e)

module _ (N : Num) where
  -- `annual` is `getAnnualValues(cik, ·, HISTORY_YEARS)`.
  unfoldable pub compute_scores :
      (List String → List (AnnualValue N.Number)) → Option (FilingScores N.Number)
  unfolding all_of
  compute_scores annual =
      all_of (compute_altman_z_double_prime N annual) (compute_piotroski_f_score N annual)
        (compute_beneish_m_score N annual)

  -- Once the annual figures of a company are read, `computeScores` returns, whatever they are, and
  -- each of the three results is that of its own score.
  pub compute_scores_lem :
      (annual : List String → List (AnnualValue N.Number))
      → (scores : FilingScores N.Number) × (compute_scores annual ≡ some scores)
        × (compute_altman_z_double_prime N annual ≡ some scores.altman_z)
        × (compute_piotroski_f_score N annual ≡ some scores.piotroski_f)
        × (compute_beneish_m_score N annual ≡ some scores.beneish_m)
  unfolding compute_scores
  compute_scores_lem annual =
      let (z, altman) =
        scored_some (altman_series N annual).0 false (altman_keys N) []
          (λ current prior.
            altman_score N (includes "liabilities" (altman_series N annual).1) current)
          (compute_altman_z_double_prime N annual) (altman-IsScored N annual) in
      let (f, piotroski) =
        scored_some (piotroski_series N annual).0 true piotroski_keys piotroski_prior_keys
          (piotroski_score N (piotroski_series N annual).1) (compute_piotroski_f_score N annual)
          (piotroski-IsScored N annual) in
      let (m, beneish) =
        scored_some (beneish_series N annual).0 true beneish_keys beneish_prior_keys
          (beneish_score N (beneish_series N annual).1) (compute_beneish_m_score N annual)
          (beneish-IsScored N annual) in
      (
        record { altman_z = z; piotroski_f = f; beneish_m = m },
        rw (altman, piotroski, beneish) refl,
        altman,
        piotroski,
        beneish,
      )
