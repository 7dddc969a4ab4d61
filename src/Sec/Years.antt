-- ===== src/Sec/Years.antt =====
-- The sorted periods of one tag, and one value for each fiscal year (`annualFacts` of src/sec.ts).
use edgar_radar.Prelude.{
  ℕ, ◌≤◌, ◌<◌, ◌≡◌, ap, inl, inr, ◌⊎◌, true, false, Option, none, some, List, [], ◌∷◌, leb, arith,
  All, Any, All-impl, Bool-cases,
}
use edgar_radar.Sec.{
  Fact, fiscal_year_of_period, insert_newest, sort_newest, relabel, same_year, one_per_year,
}
use edgar_radar.Sec.Periods.{insert_newest-All}

abbrev pub Below : Option ℕ → ℕ → Type 0
Below none y = Unit
Below (some l) y = y < l

abbrev UpTo : Option ℕ → ℕ → Type 0
UpTo none y = Unit
UpTo (some l) y = y ≤ l

module _ {V : Type 0} where
  abbrev pub NewestFirst : List (Fact V) → Type 0
  NewestFirst [] = Unit
  NewestFirst (f ∷ fs) = All (λ g. g.end ≤ f.end) fs × NewestFirst fs

  insert_newest-NewestFirst :
      (f : Fact V) (gs : List (Fact V)) → NewestFirst gs → NewestFirst (insert_newest f gs)
  unfolding insert_newest
  insert_newest-NewestFirst f [] _ = (tt, tt)
  insert_newest-NewestFirst f (g ∷ gs) (a, n) = elim (Bool-cases (leb g.end f.end)) [
    | inl e ↦ rw e ((ground arith, All-impl gs (λ h l. ground arith) a), (a, n))
    | inr e ↦ rw e (
      insert_newest-All (λ h. h.end ≤ g.end) f gs (ground arith) a,
      insert_newest-NewestFirst f gs n,
    )
  ]

  pub sort_newest-NewestFirst : (fs : List (Fact V)) → NewestFirst (sort_newest fs)
  unfolding sort_newest
  sort_newest-NewestFirst [] = tt
  sort_newest-NewestFirst (f ∷ fs) =
      insert_newest-NewestFirst f (sort_newest fs) (sort_newest-NewestFirst fs)

  -- Fiscal years that fall strictly from `last`: newest first, and one value for each.
  abbrev pub YearsFall : Option ℕ → List (Fact V) → Type 0
  YearsFall last [] = Unit
  YearsFall last (f ∷ fs) = Below last f.fy × YearsFall (some f.fy) fs

pub fiscal_year_mono : (a b : ℕ) → a ≤ b → fiscal_year_of_period a ≤ fiscal_year_of_period b
unfolding fiscal_year_of_period
fiscal_year_mono a b h = omega arith

Below-of_not_same :
    (last : Option ℕ) (y : ℕ) → UpTo last y → same_year last y ≡ false → Below last y
unfolding same_year
Below-of_not_same none y u e = tt
Below-of_not_same (some l) y u e = ground arith

same_year-eq : (last : Option ℕ) (y : ℕ) → same_year last y ≡ true → last ≡ some y
unfolding same_year
same_year-eq none y e = absurd (ground arith)
same_year-eq (some l) y e = ground arith

module _ {V : Type 0} where
  one_per_year-YearsFall_from :
      (last : Option ℕ) (fs : List (Fact V))
      → NewestFirst fs
      → All (λ f. UpTo last (fiscal_year_of_period f.end)) fs
      → YearsFall last (one_per_year last fs)
  unfolding one_per_year
  one_per_year-YearsFall_from last [] _ _ = tt
  one_per_year-YearsFall_from last (f ∷ fs) (a, n) (u, us) =
      elim (Bool-cases (same_year last (fiscal_year_of_period f.end))) [
        | inl e ↦ rw e (one_per_year-YearsFall_from last fs n us)
        | inr e ↦ rw e (
          Below-of_not_same last (fiscal_year_of_period f.end) u e,
          one_per_year-YearsFall_from (some (fiscal_year_of_period f.end)) fs n
              (All-impl fs (λ g l. fiscal_year_mono g.end f.end l) a),
        )
      ]

  All-trivial : (fs : List (Fact V)) → All (λ f. UpTo none (fiscal_year_of_period f.end)) fs
  All-trivial [] = tt
  All-trivial (f ∷ fs) = (tt, All-trivial fs)

  pub one_per_year-YearsFall :
      (fs : List (Fact V)) → NewestFirst fs → YearsFall none (one_per_year none fs)
  one_per_year-YearsFall fs n = one_per_year-YearsFall_from none fs n (All-trivial fs)

  pub one_per_year-All {κ ν} :
      (Q : Fact V → Type κ) (R : Fact V → Type ν) (last : Option ℕ) (fs : List (Fact V))
      → ((f : Fact V) → Q f → R (relabel f))
      → All Q fs
      → All R (one_per_year last fs)
  unfolding one_per_year
  one_per_year-All Q R last [] up _ = tt
  one_per_year-All Q R last (f ∷ fs) up (q, h) =
      elim (Bool-cases (same_year last (fiscal_year_of_period f.end))) [
        | inl e ↦ rw e (one_per_year-All Q R last fs up h)
        | inr e ↦ rw e (up f q, one_per_year-All Q R (some (fiscal_year_of_period f.end)) fs up h)
      ]

  -- `r` stands for the fiscal year in which a period ends, with no earlier end.
  abbrev pub Covers : ℕ → Fact V → Type 0
  Covers end r = (r.fy ≡ fiscal_year_of_period end) × (end ≤ r.end)

  one_per_year-Covers_from :
      (last : Option ℕ) (fs : List (Fact V)) (end : ℕ)
      → NewestFirst fs
      → Any (λ f. f.end ≡ end) fs
      → (last ≡ some (fiscal_year_of_period end)) ⊎ Any (Covers end) (one_per_year last fs)
  unfolding one_per_year
  one_per_year-Covers_from last [] end _ h = elim h [ ]
  one_per_year-Covers_from last (f ∷ fs) end (a, n) (inl same) =
      elim (Bool-cases (same_year last (fiscal_year_of_period f.end))) [
        | inl e ↦ rw e (inl (rw (← same) (same_year-eq last _ e)))
        | inr e ↦ rw e (inr (inl (ap fiscal_year_of_period same, omega arith)))
      ]
  one_per_year-Covers_from last (f ∷ fs) end (a, n) (inr h) =
      elim (Bool-cases (same_year last (fiscal_year_of_period f.end))) [
        | inl e ↦ rw e (one_per_year-Covers_from last fs end n h)
        | inr e ↦ rw e (
            inr (elim (one_per_year-Covers_from (some (fiscal_year_of_period f.end)) fs end n h) [
              | inl now ↦ inl (cc, end_le fs a h)
              | inr later ↦ inr later
            ]))
      ]
    where
      end_le :
          (gs : List (Fact V))
          → All (λ g. g.end ≤ f.end) gs
          → Any (λ g. g.end ≡ end) gs
          → end ≤ f.end
      end_le (g ∷ gs) (l, _) (inl same) = omega arith
      end_le (g ∷ gs) (_, ls) (inr m) = end_le gs ls m
      end_le [] _ m = elim m [ ]

  -- Every fiscal year that has a period is kept, by the latest period in it.
  pub one_per_year-Covers :
      (fs : List (Fact V)) (end : ℕ)
      → NewestFirst fs
      → Any (λ f. f.end ≡ end) fs
      → Any (Covers end) (one_per_year none fs)
  one_per_year-Covers fs end n h = elim (one_per_year-Covers_from none fs end n h) [
    | inl never ↦ cc
    | inr found ↦ found
  ]
