-- ===== src/Scoring/Outcome/Figures.antt =====
-- The chosen figures are there, and are of the chosen year.
use edgar_radar.Prelude.{
  ℕ, ◌+◌, ◌≡◌, ◌≢◌, refl, sym, subst, inl, inr, ◌⊎◌, String, Bool, true, false, Option, some, List,
  [], ◌∷◌, str_eq, Bool-cases, All, All-impl, Among,
}
use edgar_radar.Prelude.Dicts.{lookup, insert, lookup-insert}
use edgar_radar.Scoring.Series.{
  Refusal, AnnualValue, SeriesOf, Chosen, YearSelection, selected, refused, type_error, at_key,
  select_years, combine_by_year, derive_if_missing, is_up_to_date, reaches, newest_year,
}
use edgar_radar.Scoring.Series.Years.{IsNewestCommon}
use edgar_radar.Scoring.Series.Selection.{Picks, select_years-PicksYear, select_years-no_type_error}
use edgar_radar.Scoring.Outcome.{
  ScoreOutcome, insufficient_history, score_selection, pick, all_present, figure,
}

module _ {F : Type 0} where
  abbrev pub HasKey : SeriesOf F → String → Type 0
  HasKey series key = (v : List (AnnualValue F)) × (lookup key series ≡ some v)

  -- An insertion takes no series away.
  HasKey-insert :
      (series : SeriesOf F) (key other : String) (v : List (AnnualValue F))
      → HasKey series other
      → HasKey (insert key v series) other
  HasKey-insert series key other v (w, e) = elim (Bool-cases (str_eq key other)) [
    | inl same ↦ (v, rw lookup-insert (rw same refl))
    | inr apart ↦ (w, rw lookup-insert (rw apart e))
  ]

  -- A derivation takes no series away.
  pub HasKey-derive :
      (series : SeriesOf F) (key : String) (derived : List String) (a b : List (AnnualValue F))
      (combine : F → F → F) (other : String)
      → HasKey series other
      → HasKey (derive_if_missing series key derived a b combine).0 other
  unfolding derive_if_missing
  HasKey-derive series key derived a b combine other h =
      let combined = combine_by_year a b combine in
      elim (Bool-cases (is_up_to_date series key)) [
        | inl e ↦ rw e h
        | inr e ↦
            elim (Bool-cases (reaches (newest_year (at_key key series)) (newest_year combined))) [
              | inl f ↦ rw (e, f) h
              | inr f ↦ rw (e, f) (HasKey-insert series key other combined h)
            ]
      ]

  -- The figure under a key: a value of its series, of a year that `P` allows.
  abbrev pub IsFigure : (ℕ → Type 0) → SeriesOf F → (String → AnnualValue F) → String → Type 0
  IsFigure P series at key = P (at key).fiscal_year × Among (at key) (at_key key series)

  abbrev Found : (ℕ → Type 0) → SeriesOf F → Chosen F → String → Type 0
  Found P series chosen key =
      (x : AnnualValue F) × (pick key chosen ≡ some x)
      × P x.fiscal_year
      × Among x (at_key key series)

  pick-Found :
      (P : ℕ → Type 0) (series : SeriesOf F) (chosen : Chosen F) (key : String)
      → Picks P series chosen
      → HasKey series key
      → Found P series chosen key
  unfolding pick lookup
  pick-Found P [] [] key _ (v, e) = absurd (cc)
  pick-Found P [] (c ∷ cs) key h _ = elim h [ ]
  pick-Found P (s ∷ ss) [] key h _ = elim h [ ]
  pick-Found P ((k, v) ∷ series) ((j, o) ∷ chosen) key (same, (x, there, p, among), rest) (w, e) =
      elim (Bool-cases (str_eq k key)) [
        | inl t ↦ rw (← same) (rw t (x, there, p, among))
        | inr f ↦
            let (y, found, q, among') = pick-Found P series chosen key rest (w, (rw f at e)) in
            rw (← same) (rw f (y, found, q, among'))
      ]

  Found-present :
      (P : ℕ → Type 0) (series : SeriesOf F) (chosen : Chosen F) (keys : List String)
      → All (Found P series chosen) keys
      → all_present keys chosen ≡ true
  unfolding all_present
  Found-present P series chosen [] _ = refl
  Found-present P series chosen (key ∷ keys) ((x, there, _, _), rest) =
      rw (there, Found-present P series chosen keys rest) refl

  Found-IsFigure :
      (P : ℕ → Type 0) (series : SeriesOf F) (chosen : Chosen F) (blank : AnnualValue F)
      (key : String)
      → Found P series chosen key
      → IsFigure P series (figure blank chosen) key
  unfolding figure
  Found-IsFigure P series chosen blank key (x, there, p, among) = rw there (p, among)

  Found-All :
      (P : ℕ → Type 0) (series : SeriesOf F) (chosen : Chosen F) (keys : List String)
      → Picks P series chosen
      → All (HasKey series) keys
      → All (Found P series chosen) keys
  Found-All P series chosen keys picks has =
      All-impl keys (λ key h. pick-Found P series chosen key picks h) has

  -- What a score comes to: a refusal, or the computation on the figures of the newest year that all
  -- series have and, where they are wanted, those of the year before.
  abbrev pub IsScored :
      {V I : Type 0}
      → SeriesOf F
      → Bool
      → List String
      → List String
      → ((String → AnnualValue F) → (String → AnnualValue F) → ScoreOutcome F V I)
      → Option (ScoreOutcome F V I)
      → Type 0
  IsScored series need_prior keys prior_keys compute outcome =
      ((r : Refusal F) × (outcome ≡ some (insufficient_history r)))
      ⊎ ((year : ℕ) × (current : String → AnnualValue F) × (prior : String → AnnualValue F)
          × IsNewestCommon series need_prior (some year)
          × (outcome ≡ some (compute current prior))
          × All (IsFigure (λ y. y ≡ year) series current) keys
          × All (IsFigure (λ y. y + 1 ≡ year) series prior) prior_keys)

  -- A record of series with something in it is never an exception.
  pub score_selection-IsScored :
      {V I : Type 0} (blank : AnnualValue F) (series : SeriesOf F) (need_prior : Bool)
      (keys prior_keys : List String)
      (compute : (String → AnnualValue F) → (String → AnnualValue F) → ScoreOutcome F V I)
      → All (HasKey series) keys
      → All (HasKey series) prior_keys
      → (need_prior ≡ true) ⊎ (prior_keys ≡ [])
      → select_years series need_prior ≢ type_error
      → IsScored series need_prior keys prior_keys compute
          (score_selection blank keys prior_keys compute (select_years series need_prior))
  unfolding score_selection
  score_selection-IsScored blank series need_prior keys prior_keys compute has has_prior wanted
        safe =
      step (select_years series need_prior) refl
    where
      priors :
          (year : ℕ) (prior : Chosen F)
          → ((need_prior ≡ true) × Picks (λ y. y + 1 ≡ year) series prior
              ⊎ (need_prior ≡ false) × (prior ≡ []))
          → All (Found (λ y. y + 1 ≡ year) series prior) prior_keys
      priors year prior (inl (_, picks)) = Found-All _ series prior prior_keys picks has_prior
      priors year prior (inr (alone, _)) = elim wanted [
        | inl both ↦ absurd (cc)
        | inr nothing ↦ subst (All (Found (λ y. y + 1 ≡ year) series prior)) (sym nothing) tt
      ]

      step :
          (s : YearSelection F)
          → select_years series need_prior ≡ s
          → IsScored series need_prior keys prior_keys compute
              (score_selection blank keys prior_keys compute s)
      step (refused r) e = inl (r, refl)
      step type_error e = absurd (safe e)
      step (selected current prior) e =
          let (year, picked) = select_years-PicksYear series need_prior current prior e in
          let (newest, picks, rest) = picked in
          let found = Found-All (λ y. y ≡ year) series current keys picks has in
          let found_prior = priors year prior rest in
          inr (
            year,
            figure blank current,
            figure blank prior,
            newest,
            rw
                (
                  Found-present _ series current keys found,
                  Found-present _ series prior prior_keys found_prior,
                )
                refl,
            All-impl keys (λ key f. Found-IsFigure (λ y. y ≡ year) series current blank key f)
                found,
            All-impl prior_keys
                (λ key f. Found-IsFigure (λ y. y + 1 ≡ year) series prior blank key f) found_prior,
          )

  -- A record with a series in it is never an exception.
  pub select_years_is_safe :
      (series : SeriesOf F) (need_prior : Bool) (key : String)
      → HasKey series key
      → select_years series need_prior ≢ type_error
  unfolding lookup
  select_years_is_safe [] need_prior key (v, e) _ = absurd (cc)
  select_years_is_safe ((k, v) ∷ rest) need_prior key _ e =
      select_years-no_type_error k v rest need_prior e
