-- ===== src/Search/Ranking.antt =====
-- That the search of web/src/lib/search.ts shows the best matches, the best first.
use edgar_radar.Prelude.{
  ℕ, zero, suc, ◌+◌, min, ◌≤◌, ◌<◌, ◌≡◌, ◌⊎◌, refl, inl, inr, String, true, false, none, some, List,
  [], ◌∷◌, take, length, length-take, All, All-impl, All-take, All-of_Among, All-Among, Among,
  Bool-cases, Option-cases, ◌==◌, ==_iff, ltb→lt, lt→ltb, str_eq, if-elim, arith,
}
use edgar_radar.Search.{
  Texts, Searchable, Match, compact, rank_of, match_of, matches, is_no_later, insert_match,
  sort_matches, ranked_results,
}

-- No match ranks better than one before it.
abbrev pub IsRanked : List Match → Type 0
IsRanked [] = Unit
IsRanked (m ∷ ms) = All (λ (n : Match). m.rank ≤ n.rank) ms × IsRanked ms

IsRanked-take : (n : ℕ) (ms : List Match) → IsRanked ms → IsRanked (take n ms)
IsRanked-take zero ms h = tt
IsRanked-take (suc n) [] h = tt
IsRanked-take (suc n) (m ∷ ms) (a, h) = (All-take _ n ms a, IsRanked-take n ms h)

-- What a cut leaves out ranks no better than what it keeps.
cut :
    (m : Match) (n : ℕ) (ms : List Match)
    → IsRanked ms
    → Among m ms
    → Among m (take n ms) ⊎ All (λ (k : Match). k.rank ≤ m.rank) (take n ms)
cut m zero ms h a = inr tt
cut m (suc n) (x ∷ ms) (le, h) (inl e) = inl (inl e)
cut m (suc n) (x ∷ ms) (le, h) (inr a) = elim (cut m n ms h a) [
  | inl shown ↦ inl (inr shown)
  | inr worse ↦ inr (All-Among (λ (k : Match). x.rank ≤ k.rank) ms le a, worse)
]
cut m (suc n) [] h a = elim a [ ]

module _ (t : Texts) where
  is_no_later-rank :
      (a b : Match)
      → (is_no_later t a b ≡ true → a.rank ≤ b.rank) × (is_no_later t a b ≡ false → b.rank ≤ a.rank)
  unfolding is_no_later
  is_no_later-rank a b = elim (Bool-cases (a.rank == b.rank)) [
    | inl e ↦ (let same = (==_iff a.rank b.rank).0 e in ((λ h. omega arith), (λ h. omega arith)))
    | inr e ↦ rw e (
      (λ h. (let lt = ltb→lt a.rank b.rank h in omega arith)),
      (λ h.
          (let no_less : ¬ (a.rank < b.rank) = λ lt. (let x = lt→ltb _ _ lt in cc) in omega arith)),
    )
  ]

  All-insert :
      (P : Match → Type 0) (m : Match) (ms : List Match)
      → P m
      → All P ms
      → All P (insert_match t m ms)
  unfolding insert_match
  All-insert P m [] p h = (p, tt)
  All-insert P m (n ∷ ns) p (q, h) =
      if-elim (All P) (is_no_later t m n) _ _ (λ _. (p, (q, h))) (λ _. (q, All-insert P m ns p h))

  insert-IsRanked : (m : Match) (ms : List Match) → IsRanked ms → IsRanked (insert_match t m ms)
  unfolding insert_match
  insert-IsRanked m [] h = (tt, tt)
  insert-IsRanked m (n ∷ ns) (le, h) =
      let (before, after) = is_no_later-rank m n in
      if-elim IsRanked (is_no_later t m n) _ _
        (λ e. ((before e, All-impl ns (λ k l. (let first = before e in omega arith)) le), (le, h)))
        (λ e.
          (All-insert (λ (k : Match). n.rank ≤ k.rank) m ns (after e) le, insert-IsRanked m ns h))

  insert-Among :
      (x m : Match) (ms : List Match) → (m ≡ x) ⊎ Among x ms → Among x (insert_match t m ms)
  unfolding insert_match
  insert-Among x m [] h = h
  insert-Among x m (n ∷ ns) h =
      if-elim (Among x) (is_no_later t m n) _ _ (λ _. h)
        (λ _. elim h [
          | inl e ↦ inr (insert-Among x m ns (inl e))
          | inr (inl e) ↦ inl e
          | inr (inr a) ↦ inr (insert-Among x m ns (inr a))
        ])

  sort-IsRanked : (ms : List Match) → IsRanked (sort_matches t ms)
  unfolding sort_matches
  sort-IsRanked [] = tt
  sort-IsRanked (m ∷ ms) = insert-IsRanked m (sort_matches t ms) (sort-IsRanked ms)

  sort-Among : (x : Match) (ms : List Match) → Among x ms → Among x (sort_matches t ms)
  unfolding sort_matches
  sort-Among x (m ∷ ms) (inl e) = insert-Among x m (sort_matches t ms) (inl e)
  sort-Among x (m ∷ ms) (inr a) = insert-Among x m (sort_matches t ms) (inr (sort-Among x ms a))
  sort-Among x [] a = elim a [ ]

  All-sort : (P : Match → Type 0) (ms : List Match) → All P ms → All P (sort_matches t ms)
  unfolding sort_matches
  All-sort P [] h = tt
  All-sort P (m ∷ ms) (p, h) = All-insert P m (sort_matches t ms) p (All-sort P ms h)

  length-insert : (m : Match) (ms : List Match) → length (insert_match t m ms) ≡ length ms + 1
  unfolding insert_match
  length-insert m [] = omega arith
  length-insert m (n ∷ ns) =
      if-elim (λ (k : List Match). length k ≡ length (n ∷ ns) + 1) (is_no_later t m n) _ _
        (λ _. omega arith) (λ _. omega (arith, length-insert m ns))

  length-sort : (ms : List Match) → length (sort_matches t ms) ≡ length ms
  unfolding sort_matches
  length-sort [] = refl
  length-sort (m ∷ ms) = omega (arith, length-insert m (sort_matches t ms), length-sort ms)

  -- A match has the rank of its company, which is one of those that were searched.
  abbrev pub IsMatch : List Searchable → String → Match → Type 0
  IsMatch companies query m = (rank_of t m.company query ≡ some m.rank) × Among m.company companies

  matches-IsMatch :
      (cs : List Searchable) (query : String) → All (IsMatch cs query) (matches t cs query)
  unfolding matches match_of
  matches-IsMatch [] query = tt
  matches-IsMatch (c ∷ cs) query =
      let rest : All (IsMatch (c ∷ cs) query) (matches t cs query) =
        All-impl (matches t cs query) (λ m (r, a). (r, inr a)) (matches-IsMatch cs query) in
      elim (Option-cases (rank_of t c query)) [
        | inl e ↦ rw e rest
        | inr (r, e) ↦ rw e ((e, inl refl), rest)
      ]

  matches-Among :
      (cs : List Searchable) (query : String) (c : Searchable) (r : ℕ)
      → Among c cs
      → rank_of t c query ≡ some r
      → Among (record { company = c; rank = r }) (matches t cs query)
  unfolding matches match_of
  matches-Among (c ∷ cs) query d r (inl same) e = rw (same, e) (inl refl)
  matches-Among (c ∷ cs) query d r (inr a) e =
      let rest = matches-Among cs query d r a e in
      elim (Option-cases (rank_of t c query)) [ inl f ↦ rw f rest | inr (s, f) ↦ rw f (inr rest) ]
  matches-Among [] query d r a e = elim a [ ]

  -- A company is no match, or is shown, or none that is shown ranks worse.
  abbrev pub IsPlaced : String → List Match → Searchable → Type 0
  IsPlaced query results c =
      (rank_of t c query ≡ none)
      ⊎ ((r : ℕ) × (rank_of t c query ≡ some r)
          × (Among (record { company = c; rank = r }) results
              ⊎ All (λ (k : Match). k.rank ≤ r) results))

  -- A query with a letter or digit: the results are as many as there are matches, up to the limit;
  -- each has the rank of one of the companies, and no result ranks better than one before it; and a
  -- company that matches and is not shown ranks no better than any that is.
  pub ranked_results-IsBest :
      (companies : List Searchable) (raw_query : String) (limit : ℕ)
      → str_eq (compact t raw_query) "" ≡ false
      → (let query = compact t raw_query in
          let results = ranked_results t companies raw_query limit in
          (length results ≡ min limit (length (matches t companies query)))
          × All (IsMatch companies query) results
          × IsRanked results
          × All (IsPlaced query results) companies)
  unfolding ranked_results
  ranked_results-IsBest companies raw_query limit full =
      let query = compact t raw_query in
      let found = matches t companies query in
      let sorted = sort_matches t found in
      rw full (
        rw (length-take limit sorted, length-sort found) refl,
        All-take _ limit sorted (All-sort _ found (matches-IsMatch companies query)),
        IsRanked-take limit sorted (sort-IsRanked found),
        All-of_Among _ companies (λ c a. elim (Option-cases (rank_of t c query)) [
          | inl e ↦ inl e
          | inr (r, e) ↦ inr (
            r,
            e,
            cut (record { company = c; rank = r }) limit sorted (sort-IsRanked found)
                (sort-Among _ found (matches-Among companies query c r a e)),
          )
        ]),
      )
