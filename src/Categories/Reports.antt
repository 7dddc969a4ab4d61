-- ===== src/Categories/Reports.antt =====
-- Which forms of src/filingCategories.ts carry financial statements.
use edgar_radar.Prelude.{
  ◌≡◌, ◌↔◌, refl, subst, inl, inr, String, Bool, true, ◌||◌, List, [], ◌∷◌, str_eq, str_eq_iff,
  Bool-cases, if◌then◌else◌,
}
use edgar_radar.Prelude.Dicts.{lookup, includes, IsIn}
use edgar_radar.Categories.{
  exact, prospectuses, drop_amendment, or_other, category_of, categorize_form,
  carries_financial_statements,
}

abbrev is_report : String → Bool
is_report category = str_eq category "annual-report" || str_eq category "quarterly-report"

abbrev reports_of : List (String × String) → List String
reports_of [] = []
reports_of ((form, category) ∷ entries) =
    let rest = reports_of entries in if is_report category then form ∷ rest else rest

lookup-IsIn :
    (base : String) (entries : List (String × String))
    → is_report (or_other (lookup base entries)) ≡ true
    → IsIn base (reports_of entries)
unfolding lookup or_other
lookup-IsIn base [] e = absurd (cc)
lookup-IsIn base ((form, category) ∷ entries) e = elim (Bool-cases (str_eq form base)) [
  | inl same ↦
      let report : is_report category ≡ true = (rw same at e) in
      rw report (inl ((str_eq_iff form base).0 same))
  | inr apart ↦
      let later = lookup-IsIn base entries (rw apart at e) in
      elim (Bool-cases (is_report category)) [ inl r ↦ rw r (inr later) | inr r ↦ rw r later ]
]

-- A filing carries financial statements just when its form, cleaned and without the mark of an
-- amendment, is one of 10-K, 20-F, 40-F and 10-Q.
pub carries_financial_statements_iff :
    (clean : String → String) (form : String)
    → (carries_financial_statements clean form ≡ true)
      ↔ IsIn (drop_amendment (clean form)) ("10-K" ∷ "20-F" ∷ "40-F" ∷ "10-Q" ∷ [])
unfolding carries_financial_statements categorize_form category_of includes lookup or_other
carries_financial_statements_iff clean form = (to base, from base)
  where
    base : String
    base = drop_amendment (clean form)

    to :
        (form : String)
        → is_report (category_of form) ≡ true
        → IsIn form ("10-K" ∷ "20-F" ∷ "40-F" ∷ "10-Q" ∷ [])
    to form e = elim (Bool-cases (includes form prospectuses)) [
      | inl p ↦ (let offered : is_report "offering" ≡ true = (rw p at e) in absurd (cc))
      | inr p ↦ lookup-IsIn form exact (rw p at e)
    ]

    from :
        (form : String)
        → IsIn form ("10-K" ∷ "20-F" ∷ "40-F" ∷ "10-Q" ∷ [])
        → is_report (category_of form) ≡ true
    from form (inl e) = subst (λ b. is_report (category_of b) ≡ true) e refl
    from form (inr (inl e)) = subst (λ b. is_report (category_of b) ≡ true) e refl
    from form (inr (inr (inl e))) = subst (λ b. is_report (category_of b) ≡ true) e refl
    from form (inr (inr (inr (inl e)))) = subst (λ b. is_report (category_of b) ≡ true) e refl
    from form (inr (inr (inr (inr e)))) = elim e [ ]
