-- ===== src/Scoring/Series/Selection.antt =====
-- What `selectYears` of src/scoring.ts selects, and when it refuses.
use edgar_radar.Prelude.{
  ℕ, ◌+◌, ◌≤◌, ◌≡◌, ◌≢◌, ◌↔◌, refl, sym, subst, ◌∙◌, inl, inr, ◌⊎◌, String, Bool, true, false,
  Option, none, some, List, [], ◌∷◌, arith, ltb, ◌==◌, ==_iff, if◌then◌else◌, Bool-cases, All, Any,
  All-impl, Among, length, find,
}
use edgar_radar.Scoring.Series.{
  AnnualValue, SeriesOf, Chosen, YearSelection, selected, refused, type_error, Refusal,
  is_year_before, missing_keys, at_year, at_year_before, selection_of, select_common,
  refuse_missing, select_years,
}
use edgar_radar.Scoring.Series.Years.{
  HasYear, HasYearBefore, IsCommon, IsNewestCommon, candidates-IsNewestCommon,
}

module _ {F : Type 0} where
  -- One value from each series, under its key, and each of a year that `P` allows.
  abbrev pub Picks : (ℕ → Type 0) → SeriesOf F → Chosen F → Type 0
  Picks P [] [] = Unit
  Picks P ((k, v) ∷ series) ((j, o) ∷ chosen) =
      (k ≡ j)
      × ((x : AnnualValue F) × (o ≡ some x) × P x.fiscal_year × Among x v)
      × Picks P series chosen
  Picks P _ _ = ⊥

  find-Among :
      (P : ℕ → Type 0) (test : ℕ → Bool) (v : List (AnnualValue F))
      → ((y : ℕ) → (test y ≡ true) ↔ P y)
      → Any (λ x. P x.fiscal_year) v
      → (x : AnnualValue F) × (find (λ x. test x.fiscal_year) v ≡ some x)
        × P x.fiscal_year
        × Among x v
  find-Among P test [] iff h = elim h [ ]
  find-Among P test (x ∷ xs) iff h = elim (Bool-cases (test x.fiscal_year)) [
    | inl e ↦ rw e (x, refl, (iff x.fiscal_year).0 e, inl refl)
    | inr e ↦ rw e (later h e (find-Among P test xs iff))
  ]
    where
      later :
          P x.fiscal_year ⊎ Any (λ x. P x.fiscal_year) xs
          → test x.fiscal_year ≡ false
          → (Any (λ x. P x.fiscal_year) xs
              → (y : AnnualValue F) × (find (λ x. test x.fiscal_year) xs ≡ some y)
                × P y.fiscal_year
                × Among y xs)
          → (y : AnnualValue F) × (find (λ x. test x.fiscal_year) xs ≡ some y)
            × P y.fiscal_year
            × Among y (x ∷ xs)
      later (inl p) e ih = absurd (false_true ((iff x.fiscal_year).1 p) e)
        where
          false_true : test x.fiscal_year ≡ true → test x.fiscal_year ≡ false → ⊥
          false_true a b = cc
      later (inr m) e ih = let (y, found, p, among) = ih m in (y, found, p, inr among)

  at_year-Picks :
      (year : ℕ) (series : SeriesOf F)
      → All (λ s. HasYear year s.1) series
      → Picks (λ y. y ≡ year) series (at_year year series)
  unfolding at_year
  at_year-Picks year [] _ = tt
  at_year-Picks year ((k, v) ∷ rest) (h, hs) = (
    refl,
    find-Among (λ y. y ≡ year) (λ y. y == year) v (λ y. ==_iff y year) h,
    at_year-Picks year rest hs,
  )

  at_year_before-Picks :
      (year : ℕ) (series : SeriesOf F)
      → All (λ s. HasYearBefore year s.1) series
      → Picks (λ y. y + 1 ≡ year) series (at_year_before year series)
  unfolding at_year_before
  at_year_before-Picks year [] _ = tt
  at_year_before-Picks year ((k, v) ∷ rest) (h, hs) = (
    refl,
    find-Among (λ y. y + 1 ≡ year) (is_year_before year) v (λ y. ==_iff (y + 1) year) h,
    at_year_before-Picks year rest hs,
  )

  -- The current values of the one year, and the prior values of the year before where they are
  -- wanted.
  abbrev pub PicksYear : SeriesOf F → Bool → Chosen F → Chosen F → ℕ → Type 0
  PicksYear series need_prior current prior year =
      IsNewestCommon series need_prior (some year)
      × Picks (λ y. y ≡ year) series current
      × ((need_prior ≡ true) × Picks (λ y. y + 1 ≡ year) series prior
          ⊎ (need_prior ≡ false) × (prior ≡ []))

  -- Too few values for a common year.
  two_of_years :
      (year : ℕ) (v : List (AnnualValue F)) → HasYear year v → HasYearBefore year v → 2 ≤ length v
  two_of_years year (x ∷ []) (inl e) (inl e') = absurd (omega arith)
  two_of_years year (x ∷ []) (inl e) (inr m) = elim m [ ]
  two_of_years year (x ∷ []) (inr m) h = elim m [ ]
  two_of_years year (x ∷ y ∷ ys) _ _ = omega arith
  two_of_years year [] h _ = elim h [ ]

  one_of_year : (year : ℕ) (v : List (AnnualValue F)) → HasYear year v → 1 ≤ length v
  one_of_year year (x ∷ xs) _ = omega arith
  one_of_year year [] h = elim h [ ]

  missing_keys-nil :
      (required : ℕ) (series : SeriesOf F)
      → All (λ s. required ≤ length s.1) series
      → missing_keys required series ≡ []
  unfolding missing_keys
  missing_keys-nil required [] _ = refl
  missing_keys-nil required ((k, v) ∷ rest) (h, hs) =
      let enough : ltb (length v) required ≡ false = ground arith in
      rw enough (missing_keys-nil required rest hs)

  All-both :
      (P Q R : List (AnnualValue F) → Type 0) (series : SeriesOf F)
      → ((v : List (AnnualValue F)) → P v → Q v → R v)
      → All (λ s. P s.1) series
      → All (λ s. Q s.1) series
      → All (λ s. R s.1) series
  All-both P Q R [] up _ _ = tt
  All-both P Q R (s ∷ rest) up (p, ps) (q, qs) = (up s.1 p q, All-both P Q R rest up ps qs)

  common-missing_nil :
      (series : SeriesOf F) (need_prior : Bool) (year : ℕ)
      → IsCommon series need_prior year
      → missing_keys (if need_prior then 2 else 1) series ≡ []
  common-missing_nil series true year (a, b) =
      missing_keys-nil 2 series (All-both _ _ _ series (two_of_years year) a (b refl))
  common-missing_nil series false year (a, _) =
      missing_keys-nil 1 series (All-impl series (λ s h. one_of_year year s.1 h) a)

  selection_of-PicksYear :
      (series : SeriesOf F) (need_prior : Bool) (year : ℕ) (current prior : Chosen F)
      → IsNewestCommon series need_prior (some year)
      → selection_of series need_prior (some year) ≡ selected current prior
      → PicksYear series need_prior current prior year
  unfolding selection_of
  selection_of-PicksYear series true year current prior newest e =
      let same : at_year year series ≡ current = cc in
      let same_prior : at_year_before year series ≡ prior = cc in
      (
        newest,
        subst (λ c. Picks (λ y. y ≡ year) series c) same (at_year-Picks year series newest.0.0),
        inl (
          refl,
          subst (λ c. Picks (λ y. y + 1 ≡ year) series c) same_prior
              (at_year_before-Picks year series (newest.0.1 refl)),
        ),
      )
  selection_of-PicksYear series false year current prior newest e =
      let same : at_year year series ≡ current = cc in
      (
        newest,
        subst (λ c. Picks (λ y. y ≡ year) series c) same (at_year-Picks year series newest.0.0),
        inr (refl, cc),
      )

  -- What `selectYears` comes to on a record with a series in it.
  abbrev Outcome : SeriesOf F → Bool → YearSelection F → Type 0
  Outcome series need_prior (selected current prior) =
      (year : ℕ) × PicksYear series need_prior current prior year
  Outcome series need_prior (refused r) = (year : ℕ) → ¬ IsCommon series need_prior year
  Outcome series need_prior type_error = ⊥

  selection_of-Outcome :
      (series : SeriesOf F) (need_prior : Bool) (o : Option ℕ)
      → IsNewestCommon series need_prior o
      → Outcome series need_prior (selection_of series need_prior o)
  unfolding selection_of
  selection_of-Outcome series need_prior none never = never
  selection_of-Outcome series need_prior (some year) newest =
      (year, selection_of-PicksYear series need_prior year _ _ newest refl)

  select_years-Outcome :
      (key : String) (first : List (AnnualValue F)) (rest : SeriesOf F) (need_prior : Bool)
      → Outcome ((key, first) ∷ rest) need_prior (select_years ((key, first) ∷ rest) need_prior)
  unfolding select_years
  select_years-Outcome key first rest need_prior =
      step (missing_keys (if need_prior then 2 else 1) series) refl
    where
      series : SeriesOf F
      series = (key, first) ∷ rest

      step :
          (missing : List String)
          → missing_keys (if need_prior then 2 else 1) series ≡ missing
          → Outcome series need_prior
              (refuse_missing need_prior missing (select_common series need_prior series))
      step [] e =
          selection_of-Outcome series need_prior _
            (candidates-IsNewestCommon key first rest need_prior)
      step (k ∷ ks) e = λ year c. cc (sym e ∙ common-missing_nil series need_prior year c)

  -- A selection of `selectYears` holds exactly one value from each series, under its key and of
  -- one and the same fiscal year, the newest that all series have (and, where the prior year is
  -- wanted, whose predecessor all of them have); and then also one value of the year before from
  -- each series.
  pub select_years-PicksYear :
      (series : SeriesOf F) (need_prior : Bool) (current prior : Chosen F)
      → select_years series need_prior ≡ selected current prior
      → (year : ℕ) × PicksYear series need_prior current prior year
  unfolding select_years missing_keys
  select_years-PicksYear [] need_prior current prior e = absurd (not_selected need_prior e)
    where
      not_selected :
          (np : Bool) → refuse_missing {F = F} np [] type_error ≡ selected current prior → ⊥
      not_selected np e = cc
  select_years-PicksYear ((key, first) ∷ rest) need_prior current prior e =
      subst (Outcome ((key, first) ∷ rest) need_prior) e
        (select_years-Outcome key first rest need_prior)

  -- On a record with at least one series `selectYears` selects, unless no fiscal year is common to
  -- all the series (with its predecessor, where the prior year is wanted): it refuses just then.
  pub select_years_refused_iff :
      (key : String) (first : List (AnnualValue F)) (rest : SeriesOf F) (need_prior : Bool)
      → ((r : Refusal F) × (select_years ((key, first) ∷ rest) need_prior ≡ refused r))
        ↔ ((year : ℕ) → ¬ IsCommon ((key, first) ∷ rest) need_prior year)
  select_years_refused_iff key first rest need_prior = (
    λ found. subst (Outcome series need_prior) found.1 outcome,
    λ never. from (select_years series need_prior) outcome never,
  )
    where
      series : SeriesOf F
      series = (key, first) ∷ rest

      outcome : Outcome series need_prior (select_years series need_prior)
      outcome = select_years-Outcome key first rest need_prior

      from :
          (s : YearSelection F)
          → Outcome series need_prior s
          → ((year : ℕ) → ¬ IsCommon series need_prior year)
          → (r : Refusal F) × (s ≡ refused r)
      from (selected current prior) (year, picks) never = absurd (never year picks.0.0)
      from (refused r) h never = (r, refl)
      from type_error h never = absurd h

  pub select_years-no_type_error :
      (key : String) (first : List (AnnualValue F)) (rest : SeriesOf F) (need_prior : Bool)
      → select_years ((key, first) ∷ rest) need_prior ≢ type_error
  select_years-no_type_error key first rest need_prior e =
      subst (Outcome ((key, first) ∷ rest) need_prior) e
        (select_years-Outcome key first rest need_prior)
