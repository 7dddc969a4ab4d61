-- ===== src/Sec/Annual.antt =====
-- What `annualFacts` of src/sec.ts answers: the series of one tag, and which tag.
use edgar_radar.Prelude.{
  ℕ, ◌≡◌, refl, inl, inr, true, Option, none, String, List, [], ◌∷◌, All, Any, Among, All-of_Among,
  Any-impl,
}
use edgar_radar.Sec.{
  Fact, CompanyFacts, values_of, is_annual, by_period_end, sort_newest, relabel, annual_values,
}
use edgar_radar.Sec.Periods.{
  Restates, by_period_end-All, by_period_end-Restates, by_period_end-Supersedes, sort_newest-All,
  sort_newest-Any,
}
use edgar_radar.Sec.Years.{
  YearsFall, Covers, sort_newest-NewestFirst, one_per_year-YearsFall, one_per_year-All,
  one_per_year-Covers,
}

module _ {V : Type 0} where
  -- `r` is an annual value of the list, under the fiscal year of its own period.
  abbrev pub ComesFrom : Option ℕ → List (Fact V) → Fact V → Type 0
  ComesFrom latest values r = Any (λ v. (r ≡ relabel v) × (is_annual latest v ≡ true)) values

  abbrev Source : Option ℕ → List (Fact V) → Fact V → Type 0
  Source latest values f = Any (λ v. (f ≡ v) × (is_annual latest v ≡ true)) values

  Source-of_Among :
      (latest : Option ℕ) (values : List (Fact V)) (f : Fact V)
      → Among f values
      → is_annual latest f ≡ true
      → Source latest values f
  Source-of_Among latest (v ∷ vs) f (inl e) a = inl (cc, rw e a)
  Source-of_Among latest (v ∷ vs) f (inr m) a = inr (Source-of_Among latest vs f m a)
  Source-of_Among latest [] f m a = elim m [ ]

  ComesFrom-relabel :
      (latest : Option ℕ) (values : List (Fact V)) (f : Fact V)
      → Source latest values f
      → ComesFrom latest values (relabel f)
  ComesFrom-relabel latest (v ∷ vs) f (inl (e, a)) = inl (rw e refl, a)
  ComesFrom-relabel latest (v ∷ vs) f (inr m) = inr (ComesFrom-relabel latest vs f m)
  ComesFrom-relabel latest [] f m = elim m [ ]

  module _ (data_set : CompanyFacts V) (unit : String) (latest : Option ℕ) (tag : String) where
    abbrev periods : List (Fact V)
    periods = by_period_end latest [] (values_of data_set tag unit)

    pub annual_values-ComesFrom :
        All
          (ComesFrom latest (values_of data_set tag unit))
          (annual_values data_set unit latest tag)
    unfolding annual_values
    annual_values-ComesFrom =
        let values = values_of data_set tag unit in
        one_per_year-All (Source latest values) (ComesFrom latest values) none _
          (λ f s. ComesFrom-relabel latest values f s)
          (sort_newest-All (Source latest values) _ (
            by_period_end-All (Source latest values) latest [] values tt
              (All-of_Among _ values (λ f m a. Source-of_Among latest values f m a))))

    pub annual_values-YearsFall : YearsFall none (annual_values data_set unit latest tag)
    unfolding annual_values
    annual_values-YearsFall =
        one_per_year-YearsFall (sort_newest periods) (sort_newest-NewestFirst periods)

    module _ (v : Fact V) (a : is_annual latest v ≡ true)
        (m : Among v (values_of data_set tag unit)) where
      pub annual_values-Restates : All (Restates v) (annual_values data_set unit latest tag)
      unfolding annual_values
      annual_values-Restates =
          one_per_year-All (Restates v) (Restates v) none _ (λ f r. r)
            (sort_newest-All (Restates v) _ (by_period_end-Restates latest v _ a m))

      pub annual_values-Covers : Any (Covers v.end) (annual_values data_set unit latest tag)
      unfolding annual_values
      annual_values-Covers =
          one_per_year-Covers (sort_newest periods) v.end (sort_newest-NewestFirst periods) (
            sort_newest-Any (λ f. f.end ≡ v.end) periods
              (Any-impl periods (λ f s. s.0) (by_period_end-Supersedes latest v [] _ a m)))
