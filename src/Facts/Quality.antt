-- ===== src/Facts/Quality.antt =====
-- What reaches filing_facts: only values that pass the checks (src/dataQuality.ts).
use edgar_radar.Prelude.{
  ◌≤◌, ◌≡◌, inl, inr, String, true, Option, none, some, List, [], ◌∷◌, arith, All, Bool-cases,
  Option-cases,
}
use edgar_radar.Prelude.Dicts.{includes→IsIn, IsIn}
use edgar_radar.Sec.{Fact, CompanyFacts, AnnualFactResult, annual_facts_by_default}
use edgar_radar.Sec.Recent.{most_recent_fact}
use edgar_radar.Sec.Tags
use edgar_radar.Facts.{
  Checks, Store, FactRow, is_valid_date_string, validate_fact, upsert_company,
  insert_quarantined_fact, row_of, same_key, overwrite, upsert_row, upsert_fact, upsert_most_recent,
  upsert_facts, upsert_annual, upsert_concepts, store_company_facts, max_plausible_magnitude,
  known_units,
}

module _ {V : Type 0} (checks : Checks V) where
  -- A stored row that the data-quality rules allow.
  pub record IsSaneRow (r : FactRow V) : Type 0 where
    pub finite : checks.is_finite_number r.value ≡ true
    pub plausible : checks.magnitude r.value ≤ max_plausible_magnitude
    pub unit : IsIn r.unit known_units
    pub dated : checks.is_date r.period_end ≡ true
    pub started : is_valid_date_string checks r.period_start ≡ true

  abbrev pub IsSane : Store V → Type 0
  IsSane s = All IsSaneRow s.filing_facts

  row_of-IsSaneRow :
      (cik tag unit : String) (f : Fact V)
      → validate_fact checks unit f ≡ none
      → IsSaneRow (row_of cik tag unit f)
  unfolding validate_fact row_of
  row_of-IsSaneRow cik tag unit f h = record {
    finite = ground arith;
    plausible = ground arith;
    unit = includes→IsIn unit known_units (ground arith);
    dated = ground arith;
    started = ground arith;
  }

  overwrite-IsSaneRow : (q r : FactRow V) → IsSaneRow q → IsSaneRow r → IsSaneRow (overwrite q r)
  overwrite-IsSaneRow q r a b = record {
    finite = b.finite;
    plausible = b.plausible;
    unit = a.unit;
    dated = a.dated;
    started = a.started;
  }

  upsert_row-IsSane :
      (r : FactRow V) (qs : List (FactRow V))
      → IsSaneRow r
      → All IsSaneRow qs
      → All IsSaneRow (upsert_row r qs)
  unfolding upsert_row
  upsert_row-IsSane r [] h _ = (h, tt)
  upsert_row-IsSane r (q ∷ qs) h (k, ks) = elim (Bool-cases (same_key q r)) [
    | inl e ↦ rw e (overwrite-IsSaneRow q r k h, ks)
    | inr e ↦ rw e (k, upsert_row-IsSane r qs h ks)
  ]

  pub upsert_fact-IsSane :
      (cik tag : String) (f : Fact V) (unit : String) (s : Store V)
      → IsSane s
      → IsSane (upsert_fact checks cik tag f unit s)
  unfolding upsert_fact insert_quarantined_fact
  upsert_fact-IsSane cik tag f unit s h = elim (Option-cases (validate_fact checks unit f)) [
    | inl ok ↦
        rw (ok, upsert_fact)
          (upsert_row-IsSane (row_of cik tag unit f) s.filing_facts
            (row_of-IsSaneRow cik tag unit f ok) h)
    | inr (reason, bad) ↦ rw (bad, upsert_fact) h
  ]

  upsert_most_recent-IsSane :
      (cik : String) (found : Option (String × Fact V)) (s : Store V)
      → IsSane s
      → IsSane (upsert_most_recent checks cik found s)
  unfolding upsert_most_recent
  upsert_most_recent-IsSane cik none s h = h
  upsert_most_recent-IsSane cik (some (tag, f)) s h = upsert_fact-IsSane cik tag f "USD" s h

  upsert_facts-IsSane :
      (cik tag unit : String) (fs : List (Fact V)) (s : Store V)
      → IsSane s
      → IsSane (upsert_facts checks cik tag unit fs s)
  unfolding upsert_facts
  upsert_facts-IsSane cik tag unit [] s h = h
  upsert_facts-IsSane cik tag unit (f ∷ fs) s h =
      upsert_facts-IsSane cik tag unit fs (upsert_fact checks cik tag f unit s)
        (upsert_fact-IsSane cik tag f unit s h)

  upsert_annual-IsSane :
      (cik : String) (found : Option (AnnualFactResult V)) (s : Store V)
      → IsSane s
      → IsSane (upsert_annual checks cik found s)
  unfolding upsert_annual
  upsert_annual-IsSane cik none s h = h
  upsert_annual-IsSane cik (some r) s h = upsert_facts-IsSane cik r.tag r.unit r.facts s h

  upsert_concepts-IsSane :
      (cik : String) (data_set : CompanyFacts V) (concepts : List (List String × String))
      (s : Store V)
      → IsSane s
      → IsSane (upsert_concepts checks cik data_set concepts s)
  unfolding upsert_concepts
  upsert_concepts-IsSane cik data_set [] s h = h
  upsert_concepts-IsSane cik data_set ((tags, unit) ∷ concepts) s h =
      let found = annual_facts_by_default data_set tags unit Tags.annual_history_years in
      upsert_concepts-IsSane cik data_set concepts (upsert_annual checks cik found s)
        (upsert_annual-IsSane cik found s h)

module _ {V : Type 0} where
  -- Storing a company's facts, whatever SEC sends, keeps every stored row within the rules: a finite
  -- number of plausible size, in a known unit, over a period with valid dates.
  pub store_company_facts-IsSane :
      (checks : Checks V) (cik : String) (data_set : CompanyFacts V) (s : Store V)
      → IsSane checks s
      → IsSane checks (store_company_facts checks cik data_set s)
  unfolding store_company_facts upsert_company
  store_company_facts-IsSane checks cik data_set s h =
      upsert_concepts-IsSane checks cik data_set Tags.annual_fact_concepts _ (
        upsert_most_recent-IsSane checks cik (most_recent_fact data_set Tags.net_income_tags) _
          (upsert_most_recent-IsSane checks cik (most_recent_fact data_set Tags.revenue_tags) _ h))
