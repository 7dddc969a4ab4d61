-- ===== src/Facts/Keys.antt =====
-- The unique key of filing_facts, and which rows and cache keys a write touches.
use mathlib.Core.List.{append_assoc, append-nil}
use edgar_radar.Prelude.{
  ℕ, ◌≡◌, refl, sym, ◌∙◌, inl, inr, ◌⊎◌, String, true, not, ap, Option, none, some, List, [], ◌∷◌,
  ◌++◌, arith, str_eq, str_eq_refl, Among, keep, Bool-cases, Option-cases, Any-append_right,
  Any-append_left,
}
use edgar_radar.Prelude.Dicts.{insert}
use edgar_radar.Sec.{Fact, CompanyFacts, AnnualFactResult, annual_facts_by_default}
use edgar_radar.Sec.Recent.{most_recent_fact}
use edgar_radar.Sec.Tags
use edgar_radar.Facts.{
  Checks, Store, FactRow, QuarantinedRow, CacheKey, company, facts, scores, financials, same_start,
  validate_fact, upsert_company, insert_quarantined_fact, row_of, same_key, overwrite, upsert_row,
  upsert_fact, upsert_most_recent, upsert_facts, upsert_annual, upsert_concepts,
  store_company_facts,
}

-- The names of the other companies.
abbrev pub names_of_others : String → List (String × String) → List (String × String)
names_of_others cik names = keep (λ e. not (str_eq e.0 cik)) names

insert-others :
    (cik name : String) (names : List (String × String))
    → names_of_others cik (insert cik name names) ≡ names_of_others cik names
unfolding insert
insert-others cik name [] = rw (str_eq_refl cik) refl
insert-others cik name ((at, old) ∷ names) = elim (Bool-cases (str_eq at cik)) [
  | inl e ↦ rw e (rw (str_eq_refl cik) refl)
  | inr e ↦ rw e (rw e (ap (λ rest. (at, old) ∷ rest) (insert-others cik name names)))
]

same_start_refl : (d : Option ℕ) → same_start d d ≡ true
unfolding same_start
same_start_refl none = refl
same_start_refl (some d) = ground arith

module _ {V : Type 0} where
  same_key-overwrite : (q r : FactRow V) → same_key q r ≡ true → same_key (overwrite q r) r ≡ true
  unfolding same_key
  same_key-overwrite q r h = h

  same_key-cik : (q r : FactRow V) → same_key q r ≡ true → str_eq q.cik r.cik ≡ true
  unfolding same_key
  same_key-cik q r h = ground arith

  same_key_refl : (r : FactRow V) → same_key r r ≡ true
  unfolding same_key
  same_key_refl r = simp (str_eq_refl, same_start_refl) (ground arith)

  -- Ingesting a filing's value again changes nothing: the row is updated in place.
  pub upsert_row_idempotent :
      (r : FactRow V) (qs : List (FactRow V)) → upsert_row r (upsert_row r qs) ≡ upsert_row r qs
  unfolding upsert_row
  upsert_row_idempotent r [] = rw (same_key_refl r) refl
  upsert_row_idempotent r (q ∷ qs) = elim (Bool-cases (same_key q r)) [
    | inl e ↦ rw (e, same_key-overwrite q r e) refl
    | inr e ↦ rw (e, e, upsert_row_idempotent r qs) refl
  ]

  -- The rows of the other companies.
  abbrev pub rows_of_others : String → List (FactRow V) → List (FactRow V)
  rows_of_others cik rows = keep (λ r. not (str_eq r.cik cik)) rows

  -- The refused values of the other companies.
  abbrev pub refused_of_others : String → List (QuarantinedRow V) → List (QuarantinedRow V)
  refused_of_others cik rows = keep (λ r. not (str_eq r.cik cik)) rows

  -- What writing for one company may do to the store: the rows of the others stay as they are, in all
  -- three tables, and where rows change, the keys of the bodies that are computed from them are
  -- cleared.
  pub record Touches (cik : String) (s t : Store V) : Type 0 where
    pub others : rows_of_others cik t.filing_facts ≡ rows_of_others cik s.filing_facts
    pub others_named : names_of_others cik t.companies ≡ names_of_others cik s.companies
    pub others_refused :
        refused_of_others cik t.quarantined_facts ≡ refused_of_others cik s.quarantined_facts
    pub cleared : List CacheKey
    pub appended : t.invalidated ≡ s.invalidated ++ cleared
    pub fresh :
        (t.filing_facts ≡ s.filing_facts)
        ⊎ (Among (facts cik) cleared × Among (scores cik) cleared × Among (financials cik) cleared)
    pub fresh_name :
        (t.companies ≡ s.companies) ⊎ (Among (company cik) cleared × Among (facts cik) cleared)

  pub Touches-trans :
      (cik : String) (s t u : Store V) → Touches cik s t → Touches cik t u → Touches cik s u
  Touches-trans cik s t u a b = record {
    others = b.others ∙ a.others;
    others_named = b.others_named ∙ a.others_named;
    others_refused = b.others_refused ∙ a.others_refused;
    cleared = a.cleared ++ b.cleared;
    appended = rw b.appended (rw a.appended (append_assoc s.invalidated a.cleared b.cleared));
    fresh = elim a.fresh [
      | inl same ↦ elim b.fresh [
        | inl same' ↦ inl (same' ∙ same)
        | inr (f, g, h) ↦ inr (
          Any-append_right _ a.cleared b.cleared f,
          Any-append_right _ a.cleared b.cleared g,
          Any-append_right _ a.cleared b.cleared h,
        )
      ]
      | inr (f, g, h) ↦ inr (
        Any-append_left _ a.cleared b.cleared f,
        Any-append_left _ a.cleared b.cleared g,
        Any-append_left _ a.cleared b.cleared h,
      )
    ];
    fresh_name = elim a.fresh_name [
      | inl same ↦ elim b.fresh_name [
        | inl same' ↦ inl (same' ∙ same)
        | inr (f, g) ↦
            inr (Any-append_right _ a.cleared b.cleared f, Any-append_right _ a.cleared b.cleared g)
      ]
      | inr (f, g) ↦
          inr (Any-append_left _ a.cleared b.cleared f, Any-append_left _ a.cleared b.cleared g)
    ];
  }

  pub Touches-refl : (cik : String) (s : Store V) → Touches cik s s
  Touches-refl cik s = record {
    others = refl;
    others_named = refl;
    others_refused = refl;
    cleared = [];
    appended = sym (append-nil s.invalidated);
    fresh = inl refl;
    fresh_name = inl refl;
  }

  append-others :
      (q : QuarantinedRow V) (qs : List (QuarantinedRow V))
      → refused_of_others q.cik (qs ++ q ∷ []) ≡ refused_of_others q.cik qs
  append-others q [] = rw (str_eq_refl q.cik) refl
  append-others q (x ∷ qs) = elim (Bool-cases (str_eq x.cik q.cik)) [
    | inl e ↦ rw e (append-others q qs)
    | inr e ↦ rw e (ap (λ rest. x ∷ rest) (append-others q qs))
  ]

  upsert_row-others :
      (r : FactRow V) (qs : List (FactRow V))
      → rows_of_others r.cik (upsert_row r qs) ≡ rows_of_others r.cik qs
  unfolding upsert_row
  upsert_row-others r [] = rw (str_eq_refl r.cik) refl
  upsert_row-others r (q ∷ qs) = elim (Bool-cases (same_key q r)) [
    | inl e ↦ rw e (rw (same_key-cik q r e) refl)
    | inr e ↦ rw e (rw (upsert_row-others r qs) refl)
  ]

  pub upsert_company-Touches :
      (cik entity_name : String) (s : Store V) → Touches cik s (upsert_company cik entity_name s)
  unfolding upsert_company
  upsert_company-Touches cik entity_name s = record {
    others = refl;
    others_named = insert-others cik entity_name s.companies;
    others_refused = refl;
    cleared = company cik ∷ facts cik ∷ [];
    appended = refl;
    fresh = inl refl;
    fresh_name = inr (inl refl, inr (inl refl));
  }

  module _ (checks : Checks V) (cik : String) where
    pub upsert_fact-Touches :
        (tag : String) (f : Fact V) (unit : String) (s : Store V)
        → Touches cik s (upsert_fact checks cik tag f unit s)
    upsert_fact-Touches tag f unit s = elim (Option-cases (validate_fact checks unit f)) [
      | inl ok ↦
          unfold upsert_fact in
          rw (ok, upsert_fact)
            (record {
              others = unfold row_of in upsert_row-others (row_of cik tag unit f) s.filing_facts;
              others_named = refl;
              others_refused = refl;
              cleared = facts cik ∷ scores cik ∷ financials cik ∷ [];
              appended = refl;
              fresh = inr (inl refl, inr (inl refl), inr (inr (inl refl)));
              fresh_name = inl refl;
            })
      | inr (reason, bad) ↦
          unfold upsert_fact insert_quarantined_fact in
          rw (bad, upsert_fact)
            (record {
              others = refl;
              others_named = refl;
              others_refused =
                  append-others
                    (record { cik = cik; tag = tag; unit = unit; fact = f; reason = reason })
                    s.quarantined_facts;
              cleared = [];
              appended = sym (append-nil s.invalidated);
              fresh = inl refl;
              fresh_name = inl refl;
            })
    ]

    upsert_facts-Touches :
        (tag unit : String) (fs : List (Fact V)) (s : Store V)
        → Touches cik s (upsert_facts checks cik tag unit fs s)
    unfolding upsert_facts
    upsert_facts-Touches tag unit [] s = Touches-refl cik s
    upsert_facts-Touches tag unit (f ∷ fs) s =
        Touches-trans cik s _ _ (upsert_fact-Touches tag f unit s)
          (upsert_facts-Touches tag unit fs (upsert_fact checks cik tag f unit s))

    upsert_most_recent-Touches :
        (found : Option (String × Fact V)) (s : Store V)
        → Touches cik s (upsert_most_recent checks cik found s)
    unfolding upsert_most_recent
    upsert_most_recent-Touches none s = Touches-refl cik s
    upsert_most_recent-Touches (some (tag, f)) s = upsert_fact-Touches tag f "USD" s

    upsert_annual-Touches :
        (found : Option (AnnualFactResult V)) (s : Store V)
        → Touches cik s (upsert_annual checks cik found s)
    unfolding upsert_annual
    upsert_annual-Touches none s = Touches-refl cik s
    upsert_annual-Touches (some r) s = upsert_facts-Touches r.tag r.unit r.facts s

    upsert_concepts-Touches :
        (data_set : CompanyFacts V) (concepts : List (List String × String)) (s : Store V)
        → Touches cik s (upsert_concepts checks cik data_set concepts s)
    unfolding upsert_concepts
    upsert_concepts-Touches data_set [] s = Touches-refl cik s
    upsert_concepts-Touches data_set ((tags, unit) ∷ concepts) s =
        let found = annual_facts_by_default data_set tags unit Tags.annual_history_years in
        Touches-trans cik s _ _ (upsert_annual-Touches found s)
          (upsert_concepts-Touches data_set concepts (upsert_annual checks cik found s))

  -- Storing a company's facts leaves the rows of every other company as they are, in companies,
  -- filing_facts and quarantined_facts. If the rows of filing_facts change, the company's facts,
  -- scores and financials are among the cache keys that it clears; if the rows of companies change,
  -- the company and its facts are.
  pub store_company_facts-Touches :
      (checks : Checks V) (cik : String) (data_set : CompanyFacts V) (s : Store V)
      → Touches cik s (store_company_facts checks cik data_set s)
  unfolding store_company_facts
  store_company_facts-Touches checks cik data_set s =
      let s1 = upsert_company cik data_set.entity_name s in
      let revenue = most_recent_fact data_set Tags.revenue_tags in
      let s2 = upsert_most_recent checks cik revenue s1 in
      let net_income = most_recent_fact data_set Tags.net_income_tags in
      let s3 = upsert_most_recent checks cik net_income s2 in
      Touches-trans cik s s1 _ (upsert_company-Touches cik data_set.entity_name s) (
        Touches-trans cik s1 s2 _ (upsert_most_recent-Touches checks cik revenue s1) (
          Touches-trans cik s2 s3 _ (upsert_most_recent-Touches checks cik net_income s2)
            (upsert_concepts-Touches checks cik data_set Tags.annual_fact_concepts s3)))
