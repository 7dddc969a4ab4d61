-- ===== src/Facts/Values.antt =====
-- src/repositories/scoringRepository.ts: the annual values that the scores are computed from, as the
-- query over the rows of filing_facts.
pub mod Years
pub mod Newest
use edgar_radar.Prelude.{
  ℕ, ◌+◌, String, Bool, true, false, ◌&&◌, ◌||◌, Option, none, some, List, [], ◌∷◌, keep, map, take,
  ltb, leb, ◌==◌, str_eq, if◌then◌else◌,
}
use edgar_radar.Prelude.Dicts.{includes}
use edgar_radar.Sec.{Date, day_number}
use edgar_radar.Scoring.Series.{AnnualValue}
use edgar_radar.Facts.{FactRow}

-- `period_start IS NULL OR period_end - period_start BETWEEN 330 AND 400`
abbrev pub is_full_year : Option Date → Date → Bool
is_full_year none end = true
is_full_year (some start) end =
    leb (day_number start + 330) (day_number end) && leb (day_number end) (day_number start + 400)

-- `$4::int IS NULL OR fiscal_year <= $4`
abbrev pub is_before : Option ℕ → ℕ → Bool
is_before none year = true
is_before (some last) year = leb year last

-- `array_position`, from 0.
unfoldable pub position_of : String → List String → ℕ
position_of tag [] = 0
position_of tag (t ∷ ts) = let rest = position_of tag ts in if str_eq t tag then 0 else rest + 1

module _ {V : Type 0} where
  unfoldable pub is_annual_row : String → List String → Option ℕ → FactRow V → Bool
  is_annual_row cik tags before r =
      str_eq r.cik cik
      && includes r.tag tags
      && str_eq r.form "10-K"
      && str_eq r.fiscal_period "FY"
      && is_full_year r.period_start r.period_end
      && is_before before r.fiscal_year

  -- The rows of `annual`.
  unfoldable pub annual_rows : String → List String → Option ℕ → List (FactRow V) → List (FactRow V)
  unfolding is_annual_row
  annual_rows cik tags before rows = keep (is_annual_row cik tags before) rows

  -- `ORDER BY fiscal_year DESC, array_position($2::text[], tag)`: whether `r` comes before `q`.
  unfoldable pub comes_first : List String → FactRow V → FactRow V → Bool
  unfolding position_of
  comes_first tags r q =
      if r.fiscal_year == q.fiscal_year
      then ltb (position_of r.tag tags) (position_of q.tag tags)
      else ltb q.fiscal_year r.fiscal_year

  unfoldable pub first_row : List String → FactRow V → Option (FactRow V) → FactRow V
  unfolding comes_first
  first_row tags r none = r
  first_row tags r (some q) = if comes_first tags q r then q else r

  -- The row of the tag that is `chosen`.
  unfoldable pub chosen_row : List String → List (FactRow V) → Option (FactRow V)
  unfolding first_row
  chosen_row tags [] = none
  chosen_row tags (r ∷ rs) = some (first_row tags r (chosen_row tags rs))

  -- `DISTINCT ON (fiscal_year)`, `ORDER BY fiscal_year DESC, effective_from DESC`.
  unfoldable pub insert_year : FactRow V → List (FactRow V) → List (FactRow V)
  insert_year r [] = r ∷ []
  insert_year r (q ∷ qs) =
      let rest = insert_year r qs in
      if r.fiscal_year == q.fiscal_year
      then (if ltb q.effective_from r.effective_from then r ∷ qs else q ∷ qs)
      else if ltb q.fiscal_year r.fiscal_year
      then r ∷ q ∷ qs
      else q ∷ rest

  unfoldable pub latest_years : List (FactRow V) → List (FactRow V)
  unfolding insert_year
  latest_years [] = []
  latest_years (r ∷ rs) = insert_year r (latest_years rs)

  unfoldable pub years_of_tag : ℕ → Option (FactRow V) → List (FactRow V) → List (FactRow V)
  unfolding latest_years
  years_of_tag years none rows = []
  years_of_tag years (some r) rows = take years (latest_years (keep (λ q. str_eq q.tag r.tag) rows))

  -- The rows whose years and values `getAnnualValues` returns.
  unfoldable pub annual_value_rows :
      String → List String → ℕ → Option ℕ → List (FactRow V) → List (FactRow V)
  unfolding annual_rows chosen_row years_of_tag
  annual_value_rows cik tags years before rows =
      let annual = annual_rows cik tags before rows in
      years_of_tag years (chosen_row tags annual) annual

  -- `getAnnualValues`; `number` is JavaScript's `Number`.
  unfoldable pub get_annual_values :
      {F : Type 0}
      → (V → F)
      → String
      → List String
      → ℕ
      → Option ℕ
      → List (FactRow V)
      → List (AnnualValue F)
  unfolding annual_value_rows
  get_annual_values number cik tags years before rows =
      map (λ (r : FactRow V). record { fiscal_year = r.fiscal_year; value = number r.value })
        (annual_value_rows cik tags years before rows)
