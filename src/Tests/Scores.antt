-- ===== src/Tests/Scores.antt =====
-- Scores of src/scoring.ts on concrete series, over natural numbers.
use edgar_radar.Prelude.{
  ℕ, ◌+◌, ◌-◌, ◌*◌, ◌/◌, ◌^◌, ◌≡◌, ◌↔◌, refl, String, true, false, some, List, [], ◌∷◌, ltb, leb,
  ◌==◌, str_eq, if◌then◌else◌,
}
use edgar_radar.Prelude.Dicts.{insert, lookup, includes}
use edgar_radar.Scoring.Num.{Num}
use edgar_radar.Scoring.Series.{
  AnnualValue, SeriesOf, Chosen, Refusal, selected, refused, missing_keys, candidates, at_year,
  at_year_before, is_up_to_date, newest_elsewhere, by_year, select_years, combine_by_year,
  derive_if_missing, newest_year, reaches,
}
use edgar_radar.Scoring.Series.Years.{IsCommon}
use edgar_radar.Scoring.Series.Selection.{
  PicksYear, select_years-PicksYear, select_years_refused_iff,
}
use edgar_radar.Scoring.Outcome.Figures.{IsScored}
use edgar_radar.Scoring.Altman.{
  altman_series, altman_keys, altman_score, compute_altman_z_double_prime,
}
use edgar_radar.Scoring.Altman.Figures.{altman-IsScored}
use edgar_radar.Scoring.Piotroski.{
  piotroski_series, piotroski_keys, piotroski_prior_keys, piotroski_score,
  compute_piotroski_f_score,
}
use edgar_radar.Scoring.Piotroski.Figures.{piotroski-IsScored}
use edgar_radar.Scoring.Beneish.{
  beneish_series, beneish_keys, beneish_prior_keys, beneish_score, compute_beneish_m_score,
}
use edgar_radar.Scoring.Beneish.Figures.{beneish-IsScored}

scores : Unit {0}
unfolding missing_keys candidates at_year at_year_before is_up_to_date lookup reaches
    newest_elsewhere newest_year combine_by_year by_year insert select_years derive_if_missing
    compute_altman_z_double_prime compute_piotroski_f_score
scores = tt

abbrev pub numbers : Num
numbers = record {
  Number = ℕ;
  add = λ a b. a + b;
  sub = λ a b. a - b;
  mul = λ a b. a * b;
  div = λ a b. a / b;
  lt = λ a b. ltb a b;
  le = λ a b. leb a b;
  is_zero = λ a. a == 0;
  lit = λ n k. n / 10 ^ k;
  neg_lit = λ n k. 0;
  to_fixed = λ k a. a;
}

abbrev value : ℕ → ℕ → AnnualValue ℕ
value fiscal_year v = record { fiscal_year = fiscal_year; value = v }

abbrev assets : List (AnnualValue ℕ)
assets = value 2025 90 ∷ value 2024 80 ∷ value 2023 70 ∷ []

abbrev equity : List (AnnualValue ℕ)
equity = value 2024 30 ∷ value 2023 25 ∷ []

abbrev sheet : SeriesOf ℕ
sheet = ("assets", assets) ∷ ("equity", equity) ∷ []

abbrev current : Chosen ℕ
current = ("assets", some (value 2024 80)) ∷ ("equity", some (value 2024 30)) ∷ []

abbrev prior : Chosen ℕ
prior = ("assets", some (value 2023 70)) ∷ ("equity", some (value 2023 25)) ∷ []

selects : select_years sheet true ≡ selected current prior
unfolding scores
selects = refl

select_years-PicksYear_example : (year : ℕ) × PicksYear sheet true current prior year
select_years-PicksYear_example = select_years-PicksYear sheet true current prior selects

select_years_refused_iff_example :
    ((r : Refusal ℕ) × (select_years sheet false ≡ refused r))
    ↔ ((year : ℕ) → ¬ IsCommon sheet false year)
select_years_refused_iff_example =
    select_years_refused_iff "assets" assets (("equity", equity) ∷ []) false

-- Liabilities that were last reported for 2015 are derived for 2024 and 2023.
abbrev stale : SeriesOf ℕ
stale = ("assets", assets) ∷ ("liabilities", value 2015 10 ∷ []) ∷ ("equity", equity) ∷ []

derives : derive_if_missing stale "liabilities" [] assets equity (λ a b. a - b) ≡ (
  ("assets", assets)
      ∷ ("liabilities", value 2024 50 ∷ value 2023 45 ∷ [])
      ∷ ("equity", equity)
      ∷ [],
  "liabilities" ∷ [],
)
unfolding scores
derives = refl

abbrev pub annual : List String → List (AnnualValue ℕ)
annual [] = []
annual (tag ∷ tags) = if str_eq tag "Liabilities" then value 2015 10 ∷ [] else assets

altman-IsScored_example :
    IsScored
      (altman_series numbers annual).0
      false
      (altman_keys numbers)
      []
      (λ current prior.
        altman_score numbers (includes "liabilities" (altman_series numbers annual).1) current)
      (compute_altman_z_double_prime numbers annual)
altman-IsScored_example = altman-IsScored numbers annual

piotroski-IsScored_example :
    IsScored
      (piotroski_series numbers annual).0
      true
      piotroski_keys
      piotroski_prior_keys
      (piotroski_score numbers (piotroski_series numbers annual).1)
      (compute_piotroski_f_score numbers annual)
piotroski-IsScored_example = piotroski-IsScored numbers annual

beneish-IsScored_example :
    IsScored
      (beneish_series numbers annual).0
      true
      beneish_keys
      beneish_prior_keys
      (beneish_score numbers (beneish_series numbers annual).1)
      (compute_beneish_m_score numbers annual)
beneish-IsScored_example = beneish-IsScored numbers annual
