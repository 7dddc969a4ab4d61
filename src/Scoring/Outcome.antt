-- ===== src/Scoring/Outcome.antt =====
-- The shape that the three scores of src/scoring.ts share: read the figures, derive what is missing,
-- choose the year, and compute. An exception (`undefined.value`) is `none`.
pub mod Figures
use edgar_radar.Prelude.{
  ℕ, String, Bool, true, false, ◌&&◌, Option, none, some, List, [], ◌∷◌, map, if◌then◌else◌,
}
use edgar_radar.Prelude.Dicts.{lookup}
use edgar_radar.Scoring.Series.{
  AnnualValue, SeriesOf, Chosen, Refusal, YearSelection, selected, refused, type_error,
}

-- `ScoreOutcome`
pub data ScoreOutcome (F V I : Type 0) : Type 0 where
  ok : (value : V) → (classification : String) → (inputs : I) → ScoreOutcome F V I
  insufficient_history : Refusal F → ScoreOutcome F V I

-- `fetchSeries`: `annual` is `getAnnualValues(cik, ·, HISTORY_YEARS, asOfFiscalYear)`.
unfoldable pub fetch_series :
    {F : Type 0} → (List String → List (AnnualValue F)) → List (String × List String) → SeriesOf F
fetch_series annual [] = []
fetch_series annual ((key, tags) ∷ concepts) = (key, annual tags) ∷ fetch_series annual concepts

module _ {F : Type 0} where
  abbrev pub present : Option (Option (AnnualValue F)) → Option (AnnualValue F)
  present none = none
  present (some o) = o

  -- A field of the record that the selection gives; `none` is `undefined`.
  unfoldable pub pick : String → Chosen F → Option (AnnualValue F)
  pick key chosen = present (lookup key chosen)

  is_present : Option (AnnualValue F) → Bool
  is_present none = false
  is_present (some x) = true

  unfoldable pub all_present : List String → Chosen F → Bool
  unfolding is_present
  all_present [] chosen = true
  all_present (key ∷ keys) chosen = is_present (pick key chosen) && all_present keys chosen

  or_blank : AnnualValue F → Option (AnnualValue F) → AnnualValue F
  or_blank blank none = blank
  or_blank blank (some x) = x

  -- The value under a key, `blank` where there is none; it is read only where all are present.
  unfoldable pub figure : AnnualValue F → Chosen F → String → AnnualValue F
  unfolding or_blank
  figure blank chosen key = or_blank blank (pick key chosen)

  -- From the selection on: `compute` gets the figures of the year and of the year before.
  unfoldable pub score_selection :
      {V I : Type 0}
      → AnnualValue F
      → List String
      → List String
      → ((String → AnnualValue F) → (String → AnnualValue F) → ScoreOutcome F V I)
      → YearSelection F
      → Option (ScoreOutcome F V I)
  score_selection blank keys prior_keys compute (refused r) = some (insufficient_history r)
  score_selection blank keys prior_keys compute type_error = none
  score_selection blank keys prior_keys compute (selected current prior) =
      if all_present keys current && all_present prior_keys prior
      then some (compute (figure blank current) (figure blank prior))
      else none
