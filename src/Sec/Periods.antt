-- ===== src/Sec/Periods.antt =====
-- What the loop over the values of one tag keeps: the annual ones, one for each period, sorted, one
-- for each fiscal year (`annualFacts` of src/sec.ts).
use edgar_radar.Prelude.{
  ℕ, ◌≤◌, ◌≡◌, ◌≢◌, refl, inl, inr, ◌⊎◌, true, Option, List, [], ◌∷◌, leb, ltb, ◌==◌, arith, ==_iff,
  All, Any, All-impl, Bool-cases, if◌then◌else◌,
}
use edgar_radar.Sec.{Fact, is_annual, set_latest, by_period_end, insert_newest, sort_newest}

module _ {V : Type 0} where
  -- `g` stands for the period of `v`, and was not filed before it.
  abbrev pub Supersedes : Fact V → Fact V → Type 0
  Supersedes v g = (g.end ≡ v.end) × (v.filed ≤ g.filed)

  abbrev pub Restates : Fact V → Fact V → Type 0
  Restates v g = v.end ≡ g.end → v.filed ≤ g.filed

  abbrev DistinctEnds : List (Fact V) → Type 0
  DistinctEnds [] = Unit
  DistinctEnds (g ∷ gs) = All (λ h. h.end ≢ g.end) gs × DistinctEnds gs

  module _ {κ} (Q : Fact V → Type κ) where
    set_latest-All : (f : Fact V) (gs : List (Fact V)) → Q f → All Q gs → All Q (set_latest f gs)
    unfolding set_latest
    set_latest-All f [] q _ = (q, tt)
    set_latest-All f (g ∷ gs) q (p, h) = elim (Bool-cases (g.end == f.end)) [
      | inl e ↦ elim (Bool-cases (ltb g.filed f.filed)) [
        | inl l ↦ rw (e, l) (q, h)
        | inr l ↦ rw (e, l) (p, h)
      ]
      | inr e ↦ rw e (p, set_latest-All f gs q h)
    ]

    pub by_period_end-All :
        (latest : Option ℕ) (periods fs : List (Fact V))
        → All Q periods
        → All (λ f. is_annual latest f ≡ true → Q f) fs
        → All Q (by_period_end latest periods fs)
    unfolding by_period_end
    by_period_end-All latest periods [] h _ = h
    by_period_end-All latest periods (f ∷ fs) h (q, k) = elim (Bool-cases (is_annual latest f)) [
      | inl e ↦
          rw e (
            by_period_end-All latest (set_latest f periods) fs (set_latest-All f periods (q e) h) k)
      | inr e ↦ rw e (by_period_end-All latest periods fs h k)
    ]

    pub insert_newest-All :
        (f : Fact V) (gs : List (Fact V)) → Q f → All Q gs → All Q (insert_newest f gs)
    unfolding insert_newest
    insert_newest-All f [] q _ = (q, tt)
    insert_newest-All f (g ∷ gs) q (p, h) = elim (Bool-cases (leb g.end f.end)) [
      | inl e ↦ rw e (q, (p, h))
      | inr e ↦ rw e (p, insert_newest-All f gs q h)
    ]

    pub sort_newest-All : (fs : List (Fact V)) → All Q fs → All Q (sort_newest fs)
    unfolding sort_newest
    sort_newest-All [] _ = tt
    sort_newest-All (f ∷ fs) (q, h) = insert_newest-All f (sort_newest fs) q (sort_newest-All fs h)

  module _ (Q : Fact V → Type 0) where
    insert_newest-Any :
        (f : Fact V) (gs : List (Fact V)) → Q f ⊎ Any Q gs → Any Q (insert_newest f gs)
    unfolding insert_newest
    insert_newest-Any f [] h = h
    insert_newest-Any f (g ∷ gs) h = elim (Bool-cases (leb g.end f.end)) [
      | inl e ↦ rw e h
      | inr e ↦ rw e (elim h [
        | inl q ↦ inr (insert_newest-Any f gs (inl q))
        | inr (inl p) ↦ inl p
        | inr (inr k) ↦ inr (insert_newest-Any f gs (inr k))
      ])
    ]

    pub sort_newest-Any : (fs : List (Fact V)) → Any Q fs → Any Q (sort_newest fs)
    unfolding sort_newest
    sort_newest-Any [] h = h
    sort_newest-Any (f ∷ fs) (inl q) = insert_newest-Any f (sort_newest fs) (inl q)
    sort_newest-Any (f ∷ fs) (inr h) =
        insert_newest-Any f (sort_newest fs) (inr (sort_newest-Any fs h))

  set_latest-DistinctEnds :
      (f : Fact V) (gs : List (Fact V)) → DistinctEnds gs → DistinctEnds (set_latest f gs)
  unfolding set_latest
  set_latest-DistinctEnds f [] _ = (tt, tt)
  set_latest-DistinctEnds f (g ∷ gs) (a, d) = elim (Bool-cases (g.end == f.end)) [
    | inl e ↦ elim (Bool-cases (ltb g.filed f.filed)) [
      | inl l ↦ rw (e, l) (rw ((==_iff g.end f.end).0 e) at a, d)
      | inr l ↦ rw (e, l) (a, d)
    ]
    | inr e ↦
        rw e (
          set_latest-All (λ h. h.end ≢ g.end) f gs (ground arith) a,
          set_latest-DistinctEnds f gs d,
        )
  ]

  set_latest-Supersedes_self :
      (f : Fact V) (gs : List (Fact V)) → Any (Supersedes f) (set_latest f gs)
  unfolding set_latest
  set_latest-Supersedes_self f [] = inl (refl, omega arith)
  set_latest-Supersedes_self f (g ∷ gs) = elim (Bool-cases (g.end == f.end)) [
    | inl e ↦ rw e (inl (ground arith))
    | inr e ↦ rw e (inr (set_latest-Supersedes_self f gs))
  ]

  set_latest-Supersedes :
      (v f : Fact V) (gs : List (Fact V))
      → Any (Supersedes v) gs
      → Any (Supersedes v) (set_latest f gs)
  unfolding set_latest
  set_latest-Supersedes v f [] h = elim h [ ]
  set_latest-Supersedes v f (g ∷ gs) h = elim (Bool-cases (g.end == f.end)) [
    | inl e ↦ rw e (elim h [ inl s ↦ inl (ground arith) | inr k ↦ inr k ])
    | inr e ↦ rw e (elim h [ inl s ↦ inl s | inr k ↦ inr (set_latest-Supersedes v f gs k) ])
  ]

  by_period_end-DistinctEnds :
      (latest : Option ℕ) (periods fs : List (Fact V))
      → DistinctEnds periods
      → DistinctEnds (by_period_end latest periods fs)
  unfolding by_period_end
  by_period_end-DistinctEnds latest periods [] d = d
  by_period_end-DistinctEnds latest periods (f ∷ fs) d = elim (Bool-cases (is_annual latest f)) [
    | inl e ↦ rw e (
        by_period_end-DistinctEnds latest (set_latest f periods) fs
          (set_latest-DistinctEnds f periods d))
    | inr e ↦ rw e (by_period_end-DistinctEnds latest periods fs d)
  ]

  by_period_end-Supersedes_old :
      (latest : Option ℕ) (v : Fact V) (periods fs : List (Fact V))
      → Any (Supersedes v) periods
      → Any (Supersedes v) (by_period_end latest periods fs)
  unfolding by_period_end
  by_period_end-Supersedes_old latest v periods [] h = h
  by_period_end-Supersedes_old latest v periods (f ∷ fs) h =
      elim (Bool-cases (is_annual latest f)) [
        | inl e ↦ rw e (
            by_period_end-Supersedes_old latest v (set_latest f periods) fs
              (set_latest-Supersedes v f periods h))
        | inr e ↦ rw e (by_period_end-Supersedes_old latest v periods fs h)
      ]

  pub by_period_end-Supersedes :
      (latest : Option ℕ) (v : Fact V) (periods fs : List (Fact V))
      → is_annual latest v ≡ true
      → Any (λ f. f ≡ v) fs
      → Any (Supersedes v) (by_period_end latest periods fs)
  unfolding by_period_end
  by_period_end-Supersedes latest v periods [] a h = elim h [ ]
  by_period_end-Supersedes latest v periods (f ∷ fs) a (inl same) =
      rw (same, a)
        (by_period_end-Supersedes_old latest v (set_latest v periods) fs
          (set_latest-Supersedes_self v periods))
  by_period_end-Supersedes latest v periods (f ∷ fs) a (inr h) =
      by_period_end-Supersedes latest v
        (if is_annual latest f then set_latest f periods else periods) fs a h

  Restates-of_Supersedes :
      (v : Fact V) (gs : List (Fact V))
      → DistinctEnds gs
      → Any (Supersedes v) gs
      → All (Restates v) gs
  Restates-of_Supersedes v [] _ _ = tt
  Restates-of_Supersedes v (g ∷ gs) (a, d) (inl (same, filed)) =
      (λ _. filed, All-impl gs (λ h ne e. absurd (ne (sym_end h e))) a)
    where
      sym_end : (h : Fact V) → v.end ≡ h.end → h.end ≡ g.end
      sym_end h e = cc
  Restates-of_Supersedes v (g ∷ gs) (a, d) (inr k) =
      (λ e. absurd (apart gs a k e), Restates-of_Supersedes v gs d k)
    where
      apart :
          (hs : List (Fact V))
          → All (λ h. h.end ≢ g.end) hs
          → Any (Supersedes v) hs
          → v.end ≡ g.end
          → ⊥
      apart (h ∷ hs) (ne, _) (inl (same, _)) e = ne (cc)
      apart (h ∷ hs) (_, r) (inr m) e = apart hs r m e
      apart [] _ m e = elim m [ ]

  -- A value of the tag was not filed after the one kept for its period.
  pub by_period_end-Restates :
      (latest : Option ℕ) (v : Fact V) (fs : List (Fact V))
      → is_annual latest v ≡ true
      → Any (λ f. f ≡ v) fs
      → All (Restates v) (by_period_end latest [] fs)
  by_period_end-Restates latest v fs a h =
      Restates-of_Supersedes v _ (by_period_end-DistinctEnds latest [] fs tt)
        (by_period_end-Supersedes latest v [] fs a h)
