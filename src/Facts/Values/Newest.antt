-- ===== src/Facts/Values/Newest.antt =====
-- Which rows the query of src/repositories/scoringRepository.ts takes.
use edgar_radar.Prelude.{
  ℕ, ◌≤◌, ◌<◌, ◌≡◌, ◌⊎◌, refl, inl, inr, String, true, false, Option, some, List, [], ◌∷◌, keep,
  length, length-take, All, All-impl, All-take, All-keep, All-keep_self, All-of_Among, Among,
  Among-keep, Bool-cases, ltb, ◌==◌, ==_iff, ltb→lt, lt→ltb, str_eq, arith, subst,
}
use edgar_radar.Facts.{FactRow}
use edgar_radar.Facts.Values.{
  position_of, annual_rows, comes_first, first_row, chosen_row, latest_years, years_of_tag,
  annual_value_rows,
}
use edgar_radar.Facts.Values.Years.{
  IsFalling, IsCovered, latest-IsFalling, All-latest, latest-IsCovered, cut, IsFalling-take,
}

module _ {V : Type 0} where
  -- No row precedes the row of the chosen tag: it has the newest year, and of those the first tag.
  abbrev pub IsFirst : List String → FactRow V → FactRow V → Type 0
  IsFirst tags r q =
      (q.fiscal_year < r.fiscal_year)
      ⊎ ((q.fiscal_year ≡ r.fiscal_year) × (position_of r.tag tags ≤ position_of q.tag tags))

module _ {V : Type 0} (tags : List String) where
  IsFirst-refl : (r : FactRow V) → IsFirst tags r r
  IsFirst-refl r = inr (refl, omega arith)

  IsFirst-trans : (a b c : FactRow V) → IsFirst tags a b → IsFirst tags b c → IsFirst tags a c
  IsFirst-trans a b c (inl f) (inl g) = inl (omega arith)
  IsFirst-trans a b c (inl f) (inr (g, _)) = inl (omega arith)
  IsFirst-trans a b c (inr (f, _)) (inl g) = inl (omega arith)
  IsFirst-trans a b c (inr (f, p)) (inr (g, q)) = inr (omega arith, omega arith)

  comes_first-IsFirst :
      (q r : FactRow V)
      → ((comes_first tags q r ≡ true) × IsFirst tags q r)
        ⊎ ((comes_first tags q r ≡ false) × IsFirst tags r q)
  unfolding comes_first
  comes_first-IsFirst q r = elim (Bool-cases (q.fiscal_year == r.fiscal_year)) [
    | inl e ↦
        let same = (==_iff q.fiscal_year r.fiscal_year).0 e in
        elim (Bool-cases (ltb (position_of q.tag tags) (position_of r.tag tags))) [
          | inl f ↦ let lt = ltb→lt _ _ f in inl (rw e f, inr (omega arith, omega arith))
          | inr f ↦
              let no_less : ¬ (position_of q.tag tags < position_of r.tag tags) =
                λ lt. (let x = lt→ltb _ _ lt in cc) in
              inr (rw e f, inr (omega arith, omega arith))
        ]
    | inr e ↦
        let differ : ¬ (q.fiscal_year ≡ r.fiscal_year) =
          λ same. (let x = (==_iff q.fiscal_year r.fiscal_year).1 same in cc) in
        elim (Bool-cases (ltb r.fiscal_year q.fiscal_year)) [
          | inl f ↦ let lt = ltb→lt _ _ f in inl (rw e f, inl lt)
          | inr f ↦
              let no_less : ¬ (r.fiscal_year < q.fiscal_year) =
                λ lt. (let x = lt→ltb _ _ lt in cc) in
              inr (rw e f, inl (omega arith))
        ]
  ]

  -- A row is chosen, if there is one: it stands in the list, and none precedes it.
  IsChosen : List (FactRow V) → FactRow V → Type 0
  IsChosen rs r = Among r rs × All (IsFirst tags r) rs

  first_row-IsChosen :
      (r : FactRow V) (rs : List (FactRow V))
      → IsChosen (r ∷ rs) (first_row tags r (chosen_row tags rs))
  unfolding chosen_row first_row IsChosen
  first_row-IsChosen r [] = (inl refl, (IsFirst-refl r, tt))
  first_row-IsChosen r (q ∷ qs) =
      let k = first_row tags q (chosen_row tags qs) in
      let (among, first) = first_row-IsChosen q qs in
      elim (comes_first-IsFirst k r) [
        | inl (f, before) ↦
            let kept : k ≡ first_row tags r (some k) = rw f refl in
            subst (IsChosen (r ∷ q ∷ qs)) kept (inr among, (before, first))
        | inr (f, before) ↦
            let new : r ≡ first_row tags r (some k) = rw f refl in
            subst (IsChosen (r ∷ q ∷ qs)) new (
              inl refl,
              (IsFirst-refl r, All-impl (q ∷ qs) (λ x h. IsFirst-trans r k x before h) first),
            )
      ]

All-both :
    {A : Type 0} (P Q : A → Type 0) (xs : List A) → All P xs → All Q xs → All (λ x. P x × Q x) xs
All-both P Q [] _ _ = tt
All-both P Q (x ∷ xs) (p, h) (k, l) = ((p, k), All-both P Q xs h l)

-- What the query gives: nothing where there is no annual row of the tags; or else rows of one tag, that
-- of the annual row with the newest year and, of those, the first of the tags; at most `years` of
-- them, annual rows of falling years; and each annual row of the tag is of a year that is given, by a
-- row that took effect on the same date or later, or else `years` rows are given and all of them are
-- of later years.
abbrev pub IsAnnualSeries :
    {V : Type 0} → List String → ℕ → List (FactRow V) → List (FactRow V) → Type 0
IsAnnualSeries {V} tags years annual result =
    ((annual ≡ []) × (result ≡ []))
    ⊎ ((r : FactRow V) × Among r annual
        × All (IsFirst tags r) annual
        × (length result ≤ years)
        × IsFalling result
        × All (λ (q : FactRow V). (str_eq q.tag r.tag ≡ true) × Among q annual) result
        × All
            (λ (x : FactRow V).
              (str_eq x.tag r.tag ≡ false)
              ⊎ (IsCovered x result
                  ⊎ (All (λ (q : FactRow V). x.fiscal_year < q.fiscal_year) result
                      × (length result ≡ years))))
            annual)

module _ {V : Type 0} (tags : List String) (years : ℕ) where
  years_of_tag-IsAnnualSeries :
      (annual : List (FactRow V))
      → IsAnnualSeries tags years annual (years_of_tag years (chosen_row tags annual) annual)
  unfolding years_of_tag chosen_row IsChosen
  years_of_tag-IsAnnualSeries [] = inl (refl, refl)
  years_of_tag-IsAnnualSeries (a ∷ as') =
      let r = first_row tags a (chosen_row tags as') in
      let annual = a ∷ as' in
      let own = keep (λ (q : FactRow V). str_eq q.tag r.tag) annual in
      let (among, first) = first_row-IsChosen tags a as' in
      let of_tag : All (λ (q : FactRow V). str_eq q.tag r.tag ≡ true) own =
        All-keep_self _ (λ (q : FactRow V). str_eq q.tag r.tag) annual (λ x e. e) in
      let stored : All (λ (q : FactRow V). Among q annual) own =
        All-keep _ (λ (q : FactRow V). str_eq q.tag r.tag) annual
          (All-of_Among _ annual (λ x m. m)) in
      inr (
        r,
        among,
        first,
        (let size = length-take years (latest_years own) in omega arith),
        IsFalling-take years (latest_years own) (latest-IsFalling own),
        All-take _ years (latest_years own) (All-latest _ own (All-both _ _ own of_tag stored)),
        All-of_Among _ annual (λ x m. elim (Bool-cases (str_eq x.tag r.tag)) [
          | inr other ↦ inl other
          | inl same ↦ inr (
              cut years x (latest_years own) (latest-IsFalling own) (
                latest-IsCovered x own
                  (Among-keep (λ (q : FactRow V). str_eq q.tag r.tag) annual m same)))
        ]),
      )

  -- Whatever rows are stored, the rows that `getAnnualValues` takes are the annual series of one tag
  -- among the company's annual rows.
  pub annual_value_rows-IsAnnualSeries :
      (cik : String) (before : Option ℕ) (rows : List (FactRow V))
      → IsAnnualSeries tags years
          (annual_rows cik tags before rows)
          (annual_value_rows cik tags years before rows)
  unfolding annual_value_rows
  annual_value_rows-IsAnnualSeries cik before rows =
      years_of_tag-IsAnnualSeries (annual_rows cik tags before rows)
