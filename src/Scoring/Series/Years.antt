-- ===== src/Scoring/Series/Years.antt =====
-- The years that series share, and the newest of them (`selectYears` of src/scoring.ts).
use edgar_radar.Prelude.{
  ℕ, ◌+◌, ◌≤◌, ◌≡◌, ◌↔◌, refl, sym, ap, ◌∙◌, subst, inl, inr, String, Bool, true, false, not, ◌&&◌,
  ◌||◌, Option, none, some, List, [], ◌∷◌, arith, leb, ==_iff, Bool-cases, All, Any, All-impl,
  Among, All-Among, Among-keep, All-keep_self, keep, any, all, head?, max, &&-eq_true,
}
use edgar_radar.Scoring.Series.{
  AnnualValue, SeriesOf, max_year, has_year, has_year_before, is_common, years_of, insert_down,
  sort_down, candidates,
}

module _ {A : Type 0} (test : A → Bool) (P : A → Type 0) where
  pub any→Any : (xs : List A) → ((x : A) → test x ≡ true → P x) → any test xs ≡ true → Any P xs
  any→Any [] up h = absurd (ground arith)
  any→Any (x ∷ xs) up h = elim (Bool-cases (test x)) [
    | inl e ↦ inl (up x e)
    | inr e ↦ inr (any→Any xs up (ground arith))
  ]

  pub Any→any : (xs : List A) → ((x : A) → P x → test x ≡ true) → Any P xs → any test xs ≡ true
  Any→any [] down h = elim h [ ]
  Any→any (x ∷ xs) down (inl p) = rw (down x p) refl
  Any→any (x ∷ xs) down (inr h) = let ih = Any→any xs down h in ground arith

  pub all→All : (xs : List A) → ((x : A) → test x ≡ true → P x) → all test xs ≡ true → All P xs
  all→All [] up h = tt
  all→All (x ∷ xs) up h =
      let (a, b) = &&-eq_true (test x) (all test xs) h in (up x a, all→All xs up b)

  pub All→all : (xs : List A) → ((x : A) → P x → test x ≡ true) → All P xs → all test xs ≡ true
  All→all [] down h = refl
  All→all (x ∷ xs) down (p, h) = rw (down x p, All→all xs down h) refl

max_of : List ℕ → Option ℕ
max_of [] = none
max_of (y ∷ ys) = max_year (max_of ys) y

insert_down-head : (y : ℕ) (zs : List ℕ) → head? (insert_down y zs) ≡ max_year (head? zs) y
unfolding insert_down max_year
insert_down-head y [] = refl
insert_down-head y (z ∷ zs) = ground arith

sort_down-head : (ys : List ℕ) → head? (sort_down ys) ≡ max_of ys
unfolding sort_down max_of
sort_down-head [] = refl
sort_down-head (y ∷ ys) =
    insert_down-head y (sort_down ys) ∙ ap (λ o. max_year o y) (sort_down-head ys)

abbrev IsMax : List ℕ → Option ℕ → Type 0
IsMax ys none = ys ≡ []
IsMax ys (some y) = Among y ys × All (λ z. z ≤ y) ys

max_of-IsMax : (ys : List ℕ) → IsMax ys (max_of ys)
unfolding max_of
max_of-IsMax [] = refl
max_of-IsMax (y ∷ ys) = step (max_of ys) (max_of-IsMax ys)
  where
    step : (o : Option ℕ) → IsMax ys o → IsMax (y ∷ ys) (max_year o y)
    step none e = unfold max_year in rw e (inl refl, (omega arith, tt))
    step (some x) (m, h) =
        unfold max_year in
        (elim (Bool-cases (leb x y)) [
          | inl le ↦
              let e : max x y ≡ y = ground arith in
              subst (λ m. IsMax (y ∷ ys) (some m)) (sym e)
                (inl refl, (omega arith, All-impl ys (λ z l. ground arith) h))
          | inr gt ↦
              let e : max x y ≡ x = ground arith in
              subst (λ m. IsMax (y ∷ ys) (some m)) (sym e) (inr m, (ground arith, h))
        ])

module _ {F : Type 0} where
  -- A series has a value for the year, or for the year before.
  abbrev pub HasYear : ℕ → List (AnnualValue F) → Type 0
  HasYear year v = Any (λ x. x.fiscal_year ≡ year) v

  abbrev pub HasYearBefore : ℕ → List (AnnualValue F) → Type 0
  HasYearBefore year v = Any (λ x. x.fiscal_year + 1 ≡ year) v

  -- Every series has the year and, where `need_prior` is true, the year before.
  abbrev pub IsCommon : SeriesOf F → Bool → ℕ → Type 0
  IsCommon series need_prior year =
      All (λ s. HasYear year s.1) series
      × (need_prior ≡ true → All (λ s. HasYearBefore year s.1) series)

  has_year-HasYear :
      (year : ℕ) (v : List (AnnualValue F)) → (has_year year v ≡ true) ↔ HasYear year v
  unfolding has_year
  has_year-HasYear year v =
      (any→Any _ _ v (λ x e. (==_iff _ _).0 e), Any→any _ _ v (λ x e. (==_iff _ _).1 e))

  has_year_before-HasYearBefore :
      (year : ℕ) (v : List (AnnualValue F)) → (has_year_before year v ≡ true) ↔ HasYearBefore year v
  unfolding has_year_before
  has_year_before-HasYearBefore year v =
      (any→Any _ _ v (λ x e. (==_iff _ _).0 e), Any→any _ _ v (λ x e. (==_iff _ _).1 e))

  pub is_common-IsCommon :
      (series : SeriesOf F) (need_prior : Bool) (year : ℕ)
      → (is_common series need_prior year ≡ true) ↔ IsCommon series need_prior year
  unfolding is_common
  is_common-IsCommon series need_prior year = (to need_prior, from need_prior)
    where
      every : (all (λ s. has_year year s.1) series ≡ true) ↔ All (λ s. HasYear year s.1) series
      every = (
        all→All _ _ series (λ s e. (has_year-HasYear year s.1).0 e),
        All→all _ _ series (λ s e. (has_year-HasYear year s.1).1 e),
      )

      every_before :
          (all (λ s. has_year_before year s.1) series ≡ true)
          ↔ All (λ s. HasYearBefore year s.1) series
      every_before = (
        all→All _ _ series (λ s e. (has_year_before-HasYearBefore year s.1).0 e),
        All→all _ _ series (λ s e. (has_year_before-HasYearBefore year s.1).1 e),
      )

      to :
          (np : Bool)
          → (all (λ s. has_year year s.1) series
              && (not np || all (λ s. has_year_before year s.1) series))
            ≡ true
          → IsCommon series np year
      to true h = let (a, b) = &&-eq_true _ _ h in (every.0 a, λ _. every_before.0 b)
      to false h = let (a, _) = &&-eq_true _ _ h in (every.0 a, λ bad. cc)

      from :
          (np : Bool)
          → IsCommon series np year
          → (all (λ s. has_year year s.1) series
              && (not np || all (λ s. has_year_before year s.1) series))
            ≡ true
      from true (a, b) = rw (every.1 a, every_before.1 (b refl)) refl
      from false (a, b) = rw (every.1 a) refl

  years_of-Among : (year : ℕ) (v : List (AnnualValue F)) → HasYear year v → Among year (years_of v)
  years_of-Among year (x ∷ xs) (inl e) = inl e
  years_of-Among year (x ∷ xs) (inr h) = inr (years_of-Among year xs h)
  years_of-Among year [] h = elim h [ ]

  -- The newest of the years that all series share; `first` is one of the series.
  abbrev pub IsNewestCommon : SeriesOf F → Bool → Option ℕ → Type 0
  IsNewestCommon series need_prior none = (year : ℕ) → ¬ IsCommon series need_prior year
  IsNewestCommon series need_prior (some year) =
      IsCommon series need_prior year
      × ((other : ℕ) → IsCommon series need_prior other → other ≤ year)

  pub candidates-IsNewestCommon :
      (key : String) (first : List (AnnualValue F)) (rest : SeriesOf F) (need_prior : Bool)
      → IsNewestCommon
          ((key, first) ∷ rest)
          need_prior
          (head? (candidates ((key, first) ∷ rest) need_prior first))
  unfolding candidates
  candidates-IsNewestCommon key first rest need_prior =
      rw (sort_down-head common) (step (max_of common) (max_of-IsMax common))
    where
      series : SeriesOf F
      series = (key, first) ∷ rest

      common : List ℕ
      common = keep (is_common series need_prior) (years_of first)

      among : (year : ℕ) → IsCommon series need_prior year → Among year common
      among year c =
          Among-keep _ (years_of first) (years_of-Among year first c.0.0)
            ((is_common-IsCommon series need_prior year).1 c)

      step : (o : Option ℕ) → IsMax common o → IsNewestCommon series need_prior o
      step none e = λ year c. (rw e at (among year c))
      step (some year) (m, h) = (
        (is_common-IsCommon series need_prior year).0 (
            All-Among (λ y. is_common series need_prior y ≡ true) common
              (All-keep_self _ _ (years_of first) (λ y e. e)) m),
        λ other c. All-Among _ common h (among other c),
      )
