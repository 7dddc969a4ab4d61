-- ===== src/Facts/Values/Years.antt =====
-- The newest row of each fiscal year, as `DISTINCT ON` in src/repositories/scoringRepository.ts takes it.
use edgar_radar.Prelude.{
  ℕ, zero, suc, ◌≤◌, ◌<◌, ◌≡◌, ◌⊎◌, refl, inl, inr, List, [], ◌∷◌, take, length, ap, All, All-impl,
  All-take, Any, Among, ltb, ◌==◌, ==_iff, ltb→lt, lt→ltb, if-elim, arith, subst,
}
use edgar_radar.Facts.{FactRow}
use edgar_radar.Facts.Values.{insert_year, latest_years}

module _ {V : Type 0} where
  -- The fiscal years fall from row to row.
  abbrev pub IsFalling : List (FactRow V) → Type 0
  IsFalling [] = Unit
  IsFalling (r ∷ rs) = All (λ (q : FactRow V). q.fiscal_year < r.fiscal_year) rs × IsFalling rs

  -- A row of the same year that took effect on the same date or later is in the list.
  abbrev pub IsCovered : FactRow V → List (FactRow V) → Type 0
  IsCovered x rows =
      Any
        (λ (q : FactRow V). (q.fiscal_year ≡ x.fiscal_year) × (x.effective_from ≤ q.effective_from))
        rows

  All-insert :
      (P : FactRow V → Type 0) (r : FactRow V) (qs : List (FactRow V))
      → P r
      → All P qs
      → All P (insert_year r qs)
  unfolding insert_year
  All-insert P r [] p h = (p, tt)
  All-insert P r (q ∷ qs) p (k, h) =
      if-elim (All P) (r.fiscal_year == q.fiscal_year) _ _
        (λ _.
          if-elim (All P) (ltb q.effective_from r.effective_from) _ _ (λ _. (p, h)) (λ _. (k, h)))
        (λ _.
          if-elim (All P) (ltb q.fiscal_year r.fiscal_year) _ _ (λ _. (p, (k, h)))
            (λ _. (k, All-insert P r qs p h)))

  insert-IsFalling :
      (r : FactRow V) (qs : List (FactRow V)) → IsFalling qs → IsFalling (insert_year r qs)
  unfolding insert_year
  insert-IsFalling r [] h = (tt, tt)
  insert-IsFalling r (q ∷ qs) (below, h) =
      if-elim IsFalling (r.fiscal_year == q.fiscal_year) _ _
        (λ e.
          (let same = (==_iff r.fiscal_year q.fiscal_year).0 e in
            if-elim IsFalling (ltb q.effective_from r.effective_from) _ _
              (λ _. (All-impl qs (λ k lt. omega arith) below, h)) (λ _. (below, h))))
        (λ e.
          if-elim IsFalling (ltb q.fiscal_year r.fiscal_year) _ _
            (λ newer.
              (let lt = ltb→lt _ _ newer in
                ((lt, All-impl qs (λ k less. omega arith) below), (below, h))))
            (λ older.
              (let differ : ¬ (r.fiscal_year ≡ q.fiscal_year) =
                  λ same. (let x = (==_iff r.fiscal_year q.fiscal_year).1 same in cc) in
                let no_less : ¬ (q.fiscal_year < r.fiscal_year) =
                  λ lt. (let x = lt→ltb _ _ lt in cc) in
                (
                  All-insert (λ (k : FactRow V). k.fiscal_year < q.fiscal_year) r qs (omega arith)
                      below,
                  insert-IsFalling r qs h,
                ))))

  insert-IsCovered_self : (r : FactRow V) (qs : List (FactRow V)) → IsCovered r (insert_year r qs)
  unfolding insert_year
  insert-IsCovered_self r [] = inl (refl, omega arith)
  insert-IsCovered_self r (q ∷ qs) =
      if-elim (IsCovered r) (r.fiscal_year == q.fiscal_year) _ _
        (λ e.
          (let same = (==_iff r.fiscal_year q.fiscal_year).0 e in
            if-elim (IsCovered r) (ltb q.effective_from r.effective_from) _ _
              (λ _. inl (refl, omega arith))
              (λ late.
                (let no_less : ¬ (q.effective_from < r.effective_from) =
                    λ lt. (let x = lt→ltb _ _ lt in cc) in
                  inl (omega arith, omega arith)))))
        (λ _.
          if-elim (IsCovered r) (ltb q.fiscal_year r.fiscal_year) _ _ (λ _. inl (refl, omega arith))
            (λ _. inr (insert-IsCovered_self r qs)))

  insert-IsCovered :
      (x r : FactRow V) (qs : List (FactRow V)) → IsCovered x qs → IsCovered x (insert_year r qs)
  unfolding insert_year
  insert-IsCovered x r [] h = elim h [ ]
  insert-IsCovered x r (q ∷ qs) h =
      if-elim (IsCovered x) (r.fiscal_year == q.fiscal_year) _ _
        (λ e.
          (let same = (==_iff r.fiscal_year q.fiscal_year).0 e in
            if-elim (IsCovered x) (ltb q.effective_from r.effective_from) _ _
              (λ later.
                (let lt = ltb→lt _ _ later in
                  elim h [ inl (y, le) ↦ inl (omega arith, omega arith) | inr rest ↦ inr rest ]))
              (λ _. h)))
        (λ _.
          if-elim (IsCovered x) (ltb q.fiscal_year r.fiscal_year) _ _ (λ _. inr h)
            (λ _. elim h [ inl here ↦ inl here | inr rest ↦ inr (insert-IsCovered x r qs rest) ]))

  pub latest-IsFalling : (rs : List (FactRow V)) → IsFalling (latest_years rs)
  unfolding latest_years
  latest-IsFalling [] = tt
  latest-IsFalling (r ∷ rs) = insert-IsFalling r (latest_years rs) (latest-IsFalling rs)

  pub All-latest :
      (P : FactRow V → Type 0) (rs : List (FactRow V)) → All P rs → All P (latest_years rs)
  unfolding latest_years
  All-latest P [] h = tt
  All-latest P (r ∷ rs) (p, h) = All-insert P r (latest_years rs) p (All-latest P rs h)

  pub latest-IsCovered :
      (x : FactRow V) (rs : List (FactRow V)) → Among x rs → IsCovered x (latest_years rs)
  unfolding latest_years
  latest-IsCovered x [] m = elim m [ ]
  latest-IsCovered x (r ∷ rs) (inl e) =
      subst (λ y. IsCovered y (insert_year r (latest_years rs))) e
        (insert-IsCovered_self r (latest_years rs))
  latest-IsCovered x (r ∷ rs) (inr m) =
      insert-IsCovered x r (latest_years rs) (latest-IsCovered x rs m)

  below_first :
      (x r : FactRow V) (qs : List (FactRow V))
      → All (λ (q : FactRow V). q.fiscal_year < r.fiscal_year) qs
      → IsCovered x qs
      → x.fiscal_year < r.fiscal_year
  below_first x r (q ∷ qs) (lt, h) (inl (same, le)) = omega arith
  below_first x r (q ∷ qs) (lt, h) (inr rest) = below_first x r qs h rest
  below_first x r [] h c = elim c [ ]

  -- A year that the cut leaves out is older than those it keeps, and those are as many as it may keep.
  pub cut :
      (n : ℕ) (x : FactRow V) (qs : List (FactRow V))
      → IsFalling qs
      → IsCovered x qs
      → IsCovered x (take n qs)
        ⊎ (All (λ (q : FactRow V). x.fiscal_year < q.fiscal_year) (take n qs)
            × (length (take n qs) ≡ n))
  cut zero x qs h c = inr (tt, refl)
  cut (suc n) x [] h c = elim c [ ]
  cut (suc n) x (q ∷ qs) (below, h) (inl here) = inl (inl here)
  cut (suc n) x (q ∷ qs) (below, h) (inr rest) = elim (cut n x qs h rest) [
    | inl kept ↦ inl (inr kept)
    | inr (older, full) ↦ inr ((below_first x q qs below rest, older), ap suc full)
  ]

  pub IsFalling-take : (n : ℕ) (qs : List (FactRow V)) → IsFalling qs → IsFalling (take n qs)
  IsFalling-take zero qs h = tt
  IsFalling-take (suc n) [] h = tt
  IsFalling-take (suc n) (q ∷ qs) (below, h) = (All-take _ n qs below, IsFalling-take n qs h)
