-- ===== src/Scoring/Series.antt =====
-- src/scoring.ts: annual series, the derivation of a missing one, and the choice of the fiscal year.
-- A record of series is a list in the order of its keys. `-Infinity`, the newest year of an empty
-- series, is `none`.
pub mod Years
pub mod Selection
use edgar_radar.Prelude.{
  ℕ, ◌+◌, String, Bool, true, false, not, ◌&&◌, ◌||◌, Option, none, some, List, [], ◌∷◌, ◌++◌, map,
  ltb, leb, ◌==◌, str_eq, if◌then◌else◌, length, keep, any, all, head?, find, max,
}
use edgar_radar.Prelude.Dicts.{lookup, insert}

-- `AnnualValue`
pub record AnnualValue (F : Type 0) : Type 0 where
  pub fiscal_year : ℕ
  pub value : F

-- `HISTORY_YEARS`
abbrev pub history_years : ℕ
history_years = 5

abbrev pub SeriesOf : Type 0 → Type 0
SeriesOf F = List (String × List (AnnualValue F))

-- The year before `year`, if it is `year_before`.
abbrev pub is_year_before : ℕ → ℕ → Bool
is_year_before year year_before = year_before + 1 == year

unfoldable pub max_year : Option ℕ → ℕ → Option ℕ
max_year none y = some y
max_year (some x) y = some (max x y)

unfoldable pub newer_year : Option ℕ → Option ℕ → Option ℕ
newer_year a none = a
newer_year none (some y) = some y
newer_year (some x) (some y) = some (max x y)

-- `a >= b`, over years with `-Infinity`.
unfoldable pub reaches : Option ℕ → Option ℕ → Bool
reaches a none = true
reaches none (some y) = false
reaches (some x) (some y) = leb y x

module _ {F : Type 0} where
  or_else : Option F → Option F → Option F
  or_else none o = o
  or_else (some x) o = some x

  -- `new Map(b.map((v) => [v.fiscalYear, v.value])).get(year)`: the last value of the year.
  unfoldable pub by_year : List (AnnualValue F) → ℕ → Option F
  unfolding or_else
  by_year [] year = none
  by_year (v ∷ vs) year =
      or_else (by_year vs year) (if v.fiscal_year == year then some v.value else none)

  unfoldable pub combine_at :
      (F → F → F) → AnnualValue F → Option F → List (AnnualValue F) → List (AnnualValue F)
  combine_at combine v none rest = rest
  combine_at combine v (some x) rest =
      record { fiscal_year = v.fiscal_year; value = combine v.value x } ∷ rest

  unfoldable pub combine_by_year :
      List (AnnualValue F) → List (AnnualValue F) → (F → F → F) → List (AnnualValue F)
  unfolding combine_at
  combine_by_year [] b combine = []
  combine_by_year (v ∷ vs) b combine =
      combine_at combine v (by_year b v.fiscal_year) (combine_by_year vs b combine)

  unfoldable pub newest_year : List (AnnualValue F) → Option ℕ
  unfolding max_year
  newest_year [] = none
  newest_year (v ∷ vs) = max_year (newest_year vs) v.fiscal_year

  -- The newest year of the series under the other keys.
  unfoldable pub newest_elsewhere : String → SeriesOf F → Option ℕ
  unfolding newer_year
  newest_elsewhere key [] = none
  newest_elsewhere key ((k, v) ∷ rest) =
      if str_eq k key
      then newest_elsewhere key rest
      else newer_year (newest_year v) (newest_elsewhere key rest)

  abbrev pub or_empty : Option (List (AnnualValue F)) → List (AnnualValue F)
  or_empty none = []
  or_empty (some v) = v

  -- `series[key] ?? []`
  abbrev pub at_key : String → SeriesOf F → List (AnnualValue F)
  at_key key series = or_empty (lookup key series)

  unfoldable pub is_empty : List (AnnualValue F) → Bool
  is_empty [] = true
  is_empty (v ∷ vs) = false

  -- Whether the parts are read at all.
  unfoldable pub is_up_to_date : SeriesOf F → String → Bool
  unfolding is_empty
  is_up_to_date series key =
      not (is_empty (at_key key series))
      && reaches (newest_year (at_key key series)) (newest_elsewhere key series)

  -- The series and the list `derived`, both as the function leaves them.
  unfoldable pub derive_if_missing :
      SeriesOf F
      → String
      → List String
      → List (AnnualValue F)
      → List (AnnualValue F)
      → (F → F → F)
      → SeriesOf F × List String
  derive_if_missing series key derived a b combine =
      let combined = combine_by_year a b combine in
      if is_up_to_date series key
      then (series, derived)
      else if reaches (newest_year (at_key key series)) (newest_year combined)
      then (series, derived)
      else (insert key combined series, derived ++ key ∷ [])

  -- `new Set(v.map((x) => x.fiscalYear)).has(year)`
  unfoldable pub has_year : ℕ → List (AnnualValue F) → Bool
  has_year year v = any (λ x. x.fiscal_year == year) v

  has_year_before : ℕ → List (AnnualValue F) → Bool
  has_year_before year v = any (λ x. is_year_before year x.fiscal_year) v

  -- `hasEverywhere(fy) && (!needPrior || hasEverywhere(fy - 1))`
  unfoldable pub is_common : SeriesOf F → Bool → ℕ → Bool
  unfolding has_year has_year_before
  is_common series need_prior year =
      all (λ s. has_year year s.1) series
      && (not need_prior || all (λ s. has_year_before year s.1) series)

  abbrev years_of : List (AnnualValue F) → List ℕ
  years_of v = map (λ (x : AnnualValue F). x.fiscal_year) v

-- `sort((a, b) => b - a)`
insert_down : ℕ → List ℕ → List ℕ
insert_down y [] = y ∷ []
insert_down y (z ∷ zs) = if leb z y then y ∷ z ∷ zs else z ∷ insert_down y zs

unfoldable pub sort_down : List ℕ → List ℕ
unfolding insert_down
sort_down [] = []
sort_down (y ∷ ys) = insert_down y (sort_down ys)

-- The `reason` of a refusal, before it is put into words.
pub data Refusal (F : Type 0) : Type 0 where
  missing_data : (need_prior : Bool) → (missing : List String) → Refusal F
  no_common_year : (need_prior : Bool) → (coverage : SeriesOf F) → Refusal F
  zero_denominator : Refusal F

-- A value of a record that `Object.fromEntries` makes; `none` is `undefined`.
abbrev pub Chosen : Type 0 → Type 0
Chosen F = List (String × Option (AnnualValue F))

-- `type_error` is the exception where no series is asked for.
pub data YearSelection (F : Type 0) : Type 0 where
  selected : (current prior : Chosen F) → YearSelection F
  refused : Refusal F → YearSelection F
  type_error : YearSelection F

module _ {F : Type 0} where
  unfoldable pub missing_keys : ℕ → SeriesOf F → List String
  missing_keys required series =
      map (λ (s : String × List (AnnualValue F)). s.0)
        (keep (λ s. ltb (length s.1) required) series)

  unfoldable pub at_year : ℕ → SeriesOf F → Chosen F
  at_year year [] = []
  at_year year ((k, v) ∷ rest) = (k, find (λ x. x.fiscal_year == year) v) ∷ at_year year rest

  unfoldable pub at_year_before : ℕ → SeriesOf F → Chosen F
  at_year_before year [] = []
  at_year_before year ((k, v) ∷ rest) =
      (k, find (λ x. is_year_before year x.fiscal_year) v) ∷ at_year_before year rest

  -- The candidate years, newest first.
  unfoldable pub candidates : SeriesOf F → Bool → List (AnnualValue F) → List ℕ
  unfolding is_common sort_down
  candidates series need_prior first =
      sort_down (keep (is_common series need_prior) (years_of first))

  selection_of : SeriesOf F → Bool → Option ℕ → YearSelection F
  selection_of series need_prior none = refused (no_common_year need_prior series)
  selection_of series need_prior (some year) =
      selected (at_year year series) (if need_prior then at_year_before year series else [])

  select_common : SeriesOf F → Bool → SeriesOf F → YearSelection F
  unfolding selection_of
  select_common series need_prior [] = type_error
  select_common series need_prior ((k, first) ∷ _) =
      selection_of series need_prior (head? (candidates series need_prior first))

  refuse_missing : Bool → List String → YearSelection F → YearSelection F
  refuse_missing need_prior [] rest = rest
  refuse_missing need_prior (k ∷ ks) rest = refused (missing_data need_prior (k ∷ ks))

  unfoldable pub select_years : SeriesOf F → Bool → YearSelection F
  unfolding refuse_missing select_common
  select_years series need_prior =
      refuse_missing need_prior (missing_keys (if need_prior then 2 else 1) series)
        (select_common series need_prior series)
