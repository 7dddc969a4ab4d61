-- ===== src/Facts/Writes.antt =====
-- The writes that `storeCompanyFacts` of src/repositories/companyRepository.ts makes, one by one, so
-- that a database error can interrupt them.
pub mod Partial
use edgar_radar.Prelude.{ℕ, String, Option, none, some, List, [], ◌∷◌, ◌++◌}
use edgar_radar.Sec.{Fact, CompanyFacts, AnnualFactResult, annual_facts_by_default}
use edgar_radar.Sec.Recent.{most_recent_fact}
use edgar_radar.Sec.Tags
use edgar_radar.Facts.{Checks, Store, upsert_company, upsert_fact}

-- `upsertCompany`, or `upsertFact` under a tag and in a unit.
pub data Write (V : Type 0) : Type 0 where
  company_name : (entity_name : String) → Write V
  fact_value : (tag : String) → Fact V → (unit : String) → Write V

module _ {V : Type 0} where
  -- `if (revenue) await upsertFact(...)`
  unfoldable pub recent_writes : Option (String × Fact V) → List (Write V)
  recent_writes none = []
  recent_writes (some (tag, f)) = fact_value tag f "USD" ∷ []

  unfoldable pub fact_writes : String → String → List (Fact V) → List (Write V)
  fact_writes tag unit [] = []
  fact_writes tag unit (f ∷ fs) = fact_value tag f unit ∷ fact_writes tag unit fs

  unfoldable pub annual_writes : Option (AnnualFactResult V) → List (Write V)
  unfolding fact_writes
  annual_writes none = []
  annual_writes (some r) = fact_writes r.tag r.unit r.facts

  unfoldable pub concept_writes : CompanyFacts V → List (List String × String) → List (Write V)
  unfolding annual_writes
  concept_writes data_set [] = []
  concept_writes data_set ((tags, unit) ∷ concepts) =
      annual_writes (annual_facts_by_default data_set tags unit Tags.annual_history_years)
      ++ concept_writes data_set concepts

  unfoldable pub writes_of : CompanyFacts V → List (Write V)
  unfolding recent_writes concept_writes
  writes_of data_set =
      company_name data_set.entity_name
      ∷ (recent_writes (most_recent_fact data_set Tags.revenue_tags)
          ++ (recent_writes (most_recent_fact data_set Tags.net_income_tags)
              ++ concept_writes data_set Tags.annual_fact_concepts))

  unfoldable pub apply_write : Checks V → String → Write V → Store V → Store V
  apply_write checks cik (company_name entity_name) s = upsert_company cik entity_name s
  apply_write checks cik (fact_value tag f unit) s = upsert_fact checks cik tag f unit s

  unfoldable pub apply_writes : Checks V → String → List (Write V) → Store V → Store V
  unfolding apply_write
  apply_writes checks cik [] s = s
  apply_writes checks cik (w ∷ ws) s = apply_writes checks cik ws (apply_write checks cik w s)
