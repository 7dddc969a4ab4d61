-- ===== src/Financials/Liabilities.antt =====
-- The liabilities of the company page are those of the Altman score (src/companyFinancials.ts and
-- src/scoring.ts).
use edgar_radar.Prelude.{
  ℕ, ◌≡◌, refl, inl, inr, String, true, not, &&-eq_true, Option, none, some, List, [], ◌∷◌, leb→le,
  le→leb, max, arith, Bool-cases,
}
use edgar_radar.Prelude.Dicts.{lookup, insert, includes}
use edgar_radar.Sec.{Date}
use edgar_radar.Sec.Tags.{assets_tags, liabilities_tags, stockholders_equity_tags}
use edgar_radar.Scoring.Num.{Num}
use edgar_radar.Scoring.Series.{
  AnnualValue, SeriesOf, is_empty, at_key, is_up_to_date, derive_if_missing, combine_at,
  combine_by_year, by_year, max_year, newer_year, newest_year, newest_elsewhere, reaches,
}
use edgar_radar.Scoring.Outcome.{fetch_series}
use edgar_radar.Scoring.Altman.{altman_concepts, altman_series}
use edgar_radar.Financials.{get_company_financials, oldest_first}

reaches_trans : (a b c : Option ℕ) → reaches a b ≡ true → reaches b c ≡ true → reaches a c ≡ true
unfolding reaches
reaches_trans a b none e f = refl
reaches_trans a none (some z) e f = absurd (cc)
reaches_trans none (some y) (some z) e f = absurd (cc)
reaches_trans (some x) (some y) (some z) e f = ground arith

reaches-newer_year : (a b : Option ℕ) → reaches (newer_year a b) a ≡ true
unfolding reaches newer_year
reaches-newer_year none b = refl
reaches-newer_year (some x) none = le→leb x x (omega arith)
reaches-newer_year (some x) (some y) = le→leb x (max x y) (omega arith)

reaches-max_year :
    (a b : Option ℕ) (y : ℕ) → reaches a b ≡ true → reaches (max_year a y) (max_year b y) ≡ true
unfolding reaches max_year
reaches-max_year none none y e = le→leb y y (omega arith)
reaches-max_year none (some b) y e = absurd (cc)
reaches-max_year (some a) none y e = le→leb y (max a y) (omega arith)
reaches-max_year (some a) (some b) y e =
    let le = leb→le b a e in le→leb (max b y) (max a y) (omega arith)

reaches-max_year_left :
    (a b : Option ℕ) (y : ℕ) → reaches a b ≡ true → reaches (max_year a y) b ≡ true
unfolding reaches max_year
reaches-max_year_left a none y e = refl
reaches-max_year_left none (some b) y e = absurd (cc)
reaches-max_year_left (some a) (some b) y e =
    let le = leb→le b a e in le→leb b (max a y) (omega arith)

module _ {F : Type 0} where
  -- A combined series has no newer year than its first part.
  reaches-combine_by_year :
      (a b : List (AnnualValue F)) (combine : F → F → F)
      → reaches (newest_year a) (newest_year (combine_by_year a b combine)) ≡ true
  unfolding combine_by_year newest_year reaches combine_at
  reaches-combine_by_year [] b combine = refl
  reaches-combine_by_year (v ∷ vs) b combine =
      step (by_year b v.fiscal_year) (reaches-combine_by_year vs b combine)
    where
      rest : List (AnnualValue F)
      rest = combine_by_year vs b combine

      step :
          (o : Option F)
          → reaches (newest_year vs) (newest_year rest) ≡ true
          → reaches
              (max_year (newest_year vs) v.fiscal_year)
              (newest_year (combine_at combine v o rest))
            ≡ true
      step none ih = reaches-max_year_left (newest_year vs) (newest_year rest) v.fiscal_year ih
      step (some x) ih = reaches-max_year (newest_year vs) (newest_year rest) v.fiscal_year ih

module _ (N : Num) where
  -- From the same annual series, the company page shows the total liabilities that the Altman score
  -- uses, oldest first, and says that they are derived just when the score does.
  pub financials-altman :
      (cik : String) (annual : List String → List (AnnualValue N.Number)) (filed : Option Date)
      → ((get_company_financials N cik annual filed).total_liabilities
          ≡ oldest_first (at_key "liabilities" (altman_series N annual).0))
        × ((get_company_financials N cik annual filed).liabilities_derived
            ≡ includes "liabilities" (altman_series N annual).1)
  unfolding get_company_financials altman_series fetch_series derive_if_missing lookup insert
      includes newest_elsewhere is_up_to_date
  financials-altman cik annual filed = elim (Bool-cases (is_up_to_date series "liabilities")) [
    | inl e ↦ rw (e, settled e) (refl, refl)
    | inr e ↦ elim (Bool-cases (reaches (newest_year reported) (newest_year combined))) [
      | inl f ↦ rw (e, f) (refl, refl)
      | inr f ↦ rw (e, f) (refl, refl)
    ]
  ]
    where
      series : SeriesOf N.Number
      series = fetch_series annual altman_concepts

      assets : List (AnnualValue N.Number)
      assets = annual assets_tags

      reported : List (AnnualValue N.Number)
      reported = annual liabilities_tags

      combined : List (AnnualValue N.Number)
      combined = combine_by_year assets (annual stockholders_equity_tags) N.sub

      up_to_date :
          is_up_to_date series "liabilities" ≡ true
          → reaches (newest_year reported) (newest_elsewhere "liabilities" series) ≡ true
      up_to_date e =
          (&&-eq_true (not (is_empty reported))
            (reaches (newest_year reported) (newest_elsewhere "liabilities" series)) e).1

      settled :
          is_up_to_date series "liabilities" ≡ true
          → reaches (newest_year reported) (newest_year combined) ≡ true
      settled e =
          reaches_trans (newest_year reported) (newest_elsewhere "liabilities" series)
            (newest_year combined) (up_to_date e)
            (reaches_trans (newest_elsewhere "liabilities" series) (newest_year assets)
              (newest_year combined) (reaches-newer_year (newest_year assets) _)
              (reaches-combine_by_year assets (annual stockholders_equity_tags) N.sub))
