-- ===== src/Facts/Writes/Partial.antt =====
-- Storing a company's facts is making all of its writes, and what some of them do to the store.
use edgar_radar.Prelude.{◌≡◌, refl, ◌∙◌, String, Option, none, some, List, [], ◌∷◌, ◌++◌}
use edgar_radar.Sec.{Fact, CompanyFacts, AnnualFactResult, annual_facts_by_default}
use edgar_radar.Sec.Recent.{most_recent_fact}
use edgar_radar.Sec.Tags
use edgar_radar.Facts.{
  Checks, Store, upsert_company, upsert_fact, upsert_most_recent, upsert_facts, upsert_annual,
  upsert_concepts, store_company_facts,
}
use edgar_radar.Facts.Quality.{IsSane, upsert_fact-IsSane}
use edgar_radar.Facts.Keys.{
  Touches, Touches-refl, Touches-trans, upsert_company-Touches, upsert_fact-Touches,
}
use edgar_radar.Facts.Writes.{
  Write, company_name, fact_value, recent_writes, fact_writes, annual_writes, concept_writes,
  writes_of, apply_write, apply_writes,
}

module _ {V : Type 0} (checks : Checks V) (cik : String) where
  apply_writes-append :
      (xs ys : List (Write V)) (s : Store V)
      → apply_writes checks cik (xs ++ ys) s
        ≡ apply_writes checks cik ys (apply_writes checks cik xs s)
  unfolding apply_writes
  apply_writes-append [] ys s = refl
  apply_writes-append (x ∷ xs) ys s = apply_writes-append xs ys (apply_write checks cik x s)

  recent_lem :
      (found : Option (String × Fact V)) (s : Store V)
      → apply_writes checks cik (recent_writes found) s ≡ upsert_most_recent checks cik found s
  unfolding apply_writes apply_write recent_writes upsert_most_recent
  recent_lem none s = refl
  recent_lem (some (tag, f)) s = refl

  facts_lem :
      (tag unit : String) (fs : List (Fact V)) (s : Store V)
      → apply_writes checks cik (fact_writes tag unit fs) s ≡ upsert_facts checks cik tag unit fs s
  unfolding apply_writes apply_write fact_writes upsert_facts
  facts_lem tag unit [] s = refl
  facts_lem tag unit (f ∷ fs) s = facts_lem tag unit fs (upsert_fact checks cik tag f unit s)

  annual_lem :
      (found : Option (AnnualFactResult V)) (s : Store V)
      → apply_writes checks cik (annual_writes found) s ≡ upsert_annual checks cik found s
  unfolding apply_writes annual_writes upsert_annual
  annual_lem none s = refl
  annual_lem (some r) s = facts_lem r.tag r.unit r.facts s

  concepts_lem :
      (data_set : CompanyFacts V) (concepts : List (List String × String)) (s : Store V)
      → apply_writes checks cik (concept_writes data_set concepts) s
        ≡ upsert_concepts checks cik data_set concepts s
  unfolding apply_writes concept_writes upsert_concepts
  concepts_lem data_set [] s = refl
  concepts_lem data_set ((tags, unit) ∷ concepts) s =
      let found = annual_facts_by_default data_set tags unit Tags.annual_history_years in
      rw (apply_writes-append (annual_writes found) (concept_writes data_set concepts) s) (
        rw (annual_lem found s) (concepts_lem data_set concepts (upsert_annual checks cik found s)))

  -- The writes are those that storing the facts makes, in their order.
  writes_of-store_company_facts :
      (data_set : CompanyFacts V) (s : Store V)
      → apply_writes checks cik (writes_of data_set) s ≡ store_company_facts checks cik data_set s
  unfolding apply_writes apply_write writes_of store_company_facts
  writes_of-store_company_facts data_set s =
      let revenue = most_recent_fact data_set Tags.revenue_tags in
      let net_income = most_recent_fact data_set Tags.net_income_tags in
      let concepts = concept_writes data_set Tags.annual_fact_concepts in
      let s1 = upsert_company cik data_set.entity_name s in
      let s2 = upsert_most_recent checks cik revenue s1 in
      apply_writes-append (recent_writes revenue) (recent_writes net_income ++ concepts) s1
      ∙ (rw (recent_lem revenue s1) (
          apply_writes-append (recent_writes net_income) concepts s2
          ∙ rw (recent_lem net_income s2) (
              concepts_lem data_set Tags.annual_fact_concepts
                (upsert_most_recent checks cik net_income s2))))

  pub apply_writes-Touches :
      (ws : List (Write V)) (s : Store V) → Touches cik s (apply_writes checks cik ws s)
  unfolding apply_writes apply_write
  apply_writes-Touches [] s = Touches-refl cik s
  apply_writes-Touches (company_name entity_name ∷ ws) s =
      Touches-trans cik s _ _ (upsert_company-Touches cik entity_name s)
        (apply_writes-Touches ws (upsert_company cik entity_name s))
  apply_writes-Touches (fact_value tag f unit ∷ ws) s =
      Touches-trans cik s _ _ (upsert_fact-Touches checks cik tag f unit s)
        (apply_writes-Touches ws (upsert_fact checks cik tag f unit s))

  pub apply_writes-IsSane :
      (ws : List (Write V)) (s : Store V)
      → IsSane checks s
      → IsSane checks (apply_writes checks cik ws s)
  unfolding apply_writes apply_write upsert_company
  apply_writes-IsSane [] s h = h
  apply_writes-IsSane (company_name entity_name ∷ ws) s h =
      apply_writes-IsSane ws (upsert_company cik entity_name s) h
  apply_writes-IsSane (fact_value tag f unit ∷ ws) s h =
      apply_writes-IsSane ws (upsert_fact checks cik tag f unit s)
        (upsert_fact-IsSane checks cik tag f unit s h)
