-- ===== src/Sec.antt =====
-- src/sec.ts: the values that SEC reports for a company, and the choice of the annual ones.
-- A date text YYYY-MM-DD is the number YYYYMMDD, so that the order of texts is that of numbers and
-- `end.slice(0, 4)` is a division. The type `V` of a reported value stays open.
pub mod Periods
pub mod Years
pub mod Annual
pub mod Freshest
pub mod Recent
pub mod Tags
use mathlib.Core.Option
use edgar_radar.Prelude.{
  ℕ, ◌+◌, ◌-◌, ◌*◌, ◌/◌, ◌%◌, String, Bool, true, false, ◌&&◌, Option, none, some, List, [], ◌∷◌,
  ltb, leb, ◌==◌, str_eq, if◌then◌else◌, length, take, min,
}
use edgar_radar.Prelude.Dicts.{lookup}

abbrev pub Date : Type 0
Date = ℕ

-- `UsGaapFact`
pub record Fact (V : Type 0) : Type 0 where
  pub start : Option Date
  pub end : Date
  pub val : V
  pub fy : ℕ
  pub fp : String
  pub form : String
  pub filed : Date
  pub accn : String

-- The companyfacts document: the values under each tag, by unit.
pub record CompanyFacts (V : Type 0) : Type 0 where
  pub entity_name : String
  pub us_gaap : List (String × List (String × List (Fact V)))

unfoldable pub fiscal_year_of_period : Date → ℕ
fiscal_year_of_period end = end / 10000

-- `AnnualFactResult`
pub record AnnualFactResult (V : Type 0) : Type 0 where
  pub tag : String
  pub unit : String
  pub facts : List (Fact V)

-- Days from 0000-03-01 to a date of the Gregorian calendar: `Date.parse` over `DAY_MS`, but for a
-- constant that the difference of two dates cancels.
unfoldable pub day_number : Date → ℕ
day_number d =
    let month = d / 100 % 100 in
    let year = if leb month 2 then d / 10000 - 1 else d / 10000 in
    let shifted = if leb month 2 then month + 9 else month - 3 in
    365 * year + year / 4 - year / 100 + year / 400 + (153 * shifted + 2) / 5 + (d % 100 - 1)

within : Option ℕ → ℕ → Bool
within none year = true
within (some latest) year = leb year latest

same_year : Option ℕ → ℕ → Bool
same_year none year = false
same_year (some last) year = last == year

module _ {V : Type 0} where
  -- `companyFacts?.facts?.['us-gaap']?.[tag]?.units?.[unit]`, empty where anything is missing.
  unfoldable pub values_of : CompanyFacts V → String → String → List (Fact V)
  unfolding lookup
  values_of data_set tag unit = elim (lookup tag data_set.us_gaap) [
    | none ↦ []
    | some units ↦ elim (lookup unit units) [ none ↦ [] | some values ↦ values ]
  ]

  unfoldable pub covers_a_full_year : Fact V → Bool
  unfolding day_number
  covers_a_full_year f = elim f.start [
    | none ↦ true
    | some start ↦
        leb (day_number start + 330) (day_number f.end)
        && leb (day_number f.end) (day_number start + 400)
  ]

  -- The two `continue`s of the loop over the values.
  unfoldable pub is_annual : Option ℕ → Fact V → Bool
  unfolding within
  is_annual max_fiscal_year f =
      str_eq f.form "10-K"
      && str_eq f.fp "FY"
      && covers_a_full_year f
      && within max_fiscal_year (fiscal_year_of_period f.end)

  -- `byPeriodEnd`: one value for each period end, the one filed last.
  unfoldable pub set_latest : Fact V → List (Fact V) → List (Fact V)
  set_latest f [] = f ∷ []
  set_latest f (g ∷ gs) =
      if g.end == f.end then (if ltb g.filed f.filed then f else g) ∷ gs else g ∷ set_latest f gs

  unfoldable pub by_period_end : Option ℕ → List (Fact V) → List (Fact V) → List (Fact V)
  by_period_end max_fiscal_year periods [] = periods
  by_period_end max_fiscal_year periods (f ∷ fs) =
      by_period_end max_fiscal_year
        (if is_annual max_fiscal_year f then set_latest f periods else periods) fs

  -- `sort((a, b) => b.end.localeCompare(a.end))`, which is stable.
  unfoldable pub insert_newest : Fact V → List (Fact V) → List (Fact V)
  insert_newest f [] = f ∷ []
  insert_newest f (g ∷ gs) = if leb g.end f.end then f ∷ g ∷ gs else g ∷ insert_newest f gs

  unfoldable pub sort_newest : List (Fact V) → List (Fact V)
  unfolding insert_newest
  sort_newest [] = []
  sort_newest (f ∷ fs) = insert_newest f (sort_newest fs)

  abbrev pub relabel : Fact V → Fact V
  relabel f = record f { fy = fiscal_year_of_period f.end }

  -- The loop that fills `facts`; `last` is the fiscal year of the one pushed last.
  unfoldable pub one_per_year : Option ℕ → List (Fact V) → List (Fact V)
  unfolding same_year
  one_per_year last [] = []
  one_per_year last (f ∷ fs) =
      let year = fiscal_year_of_period f.end in
      let skipped = one_per_year last fs in
      let pushed = relabel f ∷ one_per_year (some year) fs in
      if same_year last year then skipped else pushed

  -- The body of the loop over the tags, up to the tests at its end.
  unfoldable pub annual_values : CompanyFacts V → String → Option ℕ → String → List (Fact V)
  unfolding values_of by_period_end sort_newest one_per_year
  annual_values data_set unit max_fiscal_year tag =
      one_per_year none
        (sort_newest (by_period_end max_fiscal_year [] (values_of data_set tag unit)))

  -- `!best || facts[0]!.end > best.facts[0]!.end`. Both lists hold something where `minimum` is
  -- not 0; where it is 0 the source may throw, and the answer here is `false`.
  newer_end : List (Fact V) → List (Fact V) → Bool
  newer_end (f ∷ _) (g ∷ _) = ltb g.end f.end
  newer_end _ _ = false

  unfoldable pub is_newer : List (Fact V) → Option (AnnualFactResult V) → Bool
  unfolding newer_end
  is_newer facts none = true
  is_newer facts (some best) = newer_end facts best.facts

  unfoldable pub better :
      CompanyFacts V
      → String
      → ℕ
      → Option ℕ
      → Option (AnnualFactResult V)
      → String
      → Option (AnnualFactResult V)
  unfolding annual_values is_newer
  better data_set unit minimum max_fiscal_year best tag =
      let facts = annual_values data_set unit max_fiscal_year tag in
      if ltb (length facts) minimum
      then best
      else if is_newer facts best
      then some (record { tag = tag; unit = unit; facts = facts })
      else best

  unfoldable pub annual_facts_from :
      CompanyFacts V
      → String
      → ℕ
      → Option ℕ
      → Option (AnnualFactResult V)
      → List String
      → Option (AnnualFactResult V)
  unfolding better
  annual_facts_from data_set unit minimum max_fiscal_year best [] = best
  annual_facts_from data_set unit minimum max_fiscal_year best (tag ∷ tags) =
      annual_facts_from data_set unit minimum max_fiscal_year
        (better data_set unit minimum max_fiscal_year best tag) tags

  abbrev pub keep_count : ℕ → AnnualFactResult V → AnnualFactResult V
  keep_count count r = record r { facts = take count r.facts }

  unfoldable pub annual_facts :
      CompanyFacts V → List String → String → ℕ → Option ℕ → ℕ → Option (AnnualFactResult V)
  unfolding annual_facts_from
  annual_facts data_set tags unit count max_fiscal_year minimum =
      Option.map (keep_count count)
        (annual_facts_from data_set unit minimum max_fiscal_year none tags)

  -- The defaults of the last two parameters.
  unfoldable pub annual_facts_by_default :
      CompanyFacts V → List String → String → ℕ → Option (AnnualFactResult V)
  unfolding annual_facts
  annual_facts_by_default data_set tags unit count =
      annual_facts data_set tags unit count none (min count 2)
