-- ===== src/RiskFactors/Matching.antt =====
-- What the diff of src/riskFactorDiff.ts says of the chunks: none is lost.
use edgar_radar.Prelude.{
  ℕ, ◌+◌, ◌≤◌, ◌≡◌, ◌≢◌, refl, sym, ap, ◌∙◌, inl, inr, ◌⊎◌, String, true, false, Option, none, some,
  List, [], ◌∷◌, ◌++◌, map, ◌==◌, ==_iff, arith, any, length, All, Any, Among, All-impl, All-Among,
  Any-impl, Any-append_left, Any-append_right, Bool-cases, if◌then◌else◌,
}
use edgar_radar.Scoring.Num.{Num}
use edgar_radar.RiskFactors.{
  ChunkStatus, unchanged, modified, new_chunk, removed, Summary, DiffChunk, Best, best_match,
  unchanged_threshold, modified_threshold, classify, add_index, match_new, removed_entries,
  count_status, summarize, diff_chunks,
}

-- The text with the index `j`, where the list begins with the index `from`.
abbrev at : ℕ → ℕ → List String → Option String
at from j [] = none
at from j (x ∷ xs) = let rest = at (from + 1) j xs in if from == j then some x else rest

abbrev IsEach : (ℕ → String → Type 0) → ℕ → List String → Type 0
IsEach P from [] = Unit
IsEach P from (x ∷ xs) = P from x × IsEach P (from + 1) xs

IsEach-impl :
    (P Q : ℕ → String → Type 0) (from : ℕ) (xs : List String)
    → ((j : ℕ) (x : String) → P j x → Q j x)
    → IsEach P from xs
    → IsEach Q from xs
IsEach-impl P Q from [] f _ = tt
IsEach-impl P Q from (x ∷ xs) f (p, ps) = (f from x p, IsEach-impl P Q (from + 1) xs f ps)

IsEach-at :
    (from : ℕ) (xs : List String) → IsEach (λ j x. (from ≤ j) × (at from j xs ≡ some x)) from xs
IsEach-at from [] = tt
IsEach-at from (x ∷ xs) = (
  (omega arith, (let same = (==_iff from from).1 refl in rw same refl)),
  IsEach-impl _ _ (from + 1) xs
      (λ j y h. (let apart = ==_apart from j h.0 in (omega (arith, h.0), rw apart h.1)))
      (IsEach-at (from + 1) xs),
)
  where
    ==_apart : (from j : ℕ) → from + 1 ≤ j → (from == j) ≡ false
    ==_apart from j le = elim (Bool-cases (from == j)) [
      | inl e ↦ absurd (let same = (==_iff from j).0 e in omega arith)
      | inr e ↦ e
    ]

any-Among : (j : ℕ) (ks : List ℕ) → any (λ k. k == j) ks ≡ true → Among j ks
any-Among j [] e = absurd (cc)
any-Among j (k ∷ ks) e = elim (Bool-cases (k == j)) [
  | inl f ↦ inl ((==_iff k j).0 f)
  | inr f ↦ inr (any-Among j ks (rw f at e))
]

-- The entries for new chunks that a summary counts.
abbrev pub newer_count : Summary → ℕ
newer_count s = s.unchanged + s.modified + s.added

module _ (N : Num) where
  abbrev pub Entry : Type 0
  Entry = DiffChunk N.Number

  best_match-keeps :
      (P : Option (ℕ × String) → Type 0) (similarity : ℕ → N.Number) (j : ℕ) (olds : List String)
      (best : Best N.Number)
      → P best.match
      → IsEach (λ j old. P (some (j, old))) j olds
      → P (best_match N similarity j olds best).match
  unfolding best_match
  best_match-keeps P similarity j [] best h _ = h
  best_match-keeps P similarity j (old ∷ olds) best h (p, ps) =
      elim (Bool-cases (N.lt best.score (similarity j))) [
        | inl e ↦
            rw (e, best_match)
              (best_match-keeps P similarity (j + 1) olds
                (record { score = similarity j; match = some (j, old) }) p ps)
        | inr e ↦ rw (e, best_match) (best_match-keeps P similarity (j + 1) olds best h ps)
      ]

  -- The index and the text of a match belong together.
  abbrev IsPlaced : List String → Option (ℕ × String) → Type 0
  IsPlaced olds none = Unit
  IsPlaced olds (some (j, old)) = at 0 j olds ≡ some old

  abbrev IsLinked : List String → Entry → Option ℕ → Type 0
  IsLinked olds c none = Unit
  IsLinked olds c (some j) = c.matched_text ≡ at 0 j olds

  classify-IsLinked :
      (olds : List String) (text : String) (score : N.Number) (found : Option (ℕ × String))
      → IsPlaced olds found
      → ((classify N text score found).0.text ≡ text)
        × ((classify N text score found).0.status ≢ removed)
        × IsLinked olds (classify N text score found).0 (classify N text score found).1
  unfolding classify
  classify-IsLinked olds text score none _ = (refl, λ e. cc, tt)
  classify-IsLinked olds text score (some (j, old)) placed =
      elim (Bool-cases (N.le (unchanged_threshold N) score)) [
        | inl e ↦ rw e (refl, λ e. cc, sym placed)
        | inr e ↦ elim (Bool-cases (N.le (modified_threshold N) score)) [
          | inl f ↦ rw (e, f) (refl, λ e. cc, sym placed)
          | inr f ↦ rw (e, f) (refl, λ e. cc, tt)
        ]
      ]

  abbrev IsMatched : List String → List Entry → ℕ → Type 0
  IsMatched olds entries k = Any (λ c. c.matched_text ≡ at 0 k olds) entries

  add_index-IsMatched :
      (olds : List String) (c : Entry) (entries : List Entry) (index : Option ℕ) (indexes : List ℕ)
      → IsLinked olds c index
      → All (IsMatched olds entries) indexes
      → All (IsMatched olds (c ∷ entries)) (add_index N index indexes)
  add_index-IsMatched olds c entries none indexes _ h = All-impl indexes (λ k m. inr m) h
  add_index-IsMatched olds c entries (some j) indexes linked h =
      (inl linked, All-impl indexes (λ k m. inr m) h)

  abbrev IsCurrent : Entry → Type 0
  IsCurrent c = c.status ≢ removed

  match_new-IsMatched :
      (similarity : ℕ → ℕ → N.Number) (olds : List String) (i : ℕ) (news : List String)
      → (map (λ (c : Entry). c.text) (match_new N similarity olds i news).0 ≡ news)
        × All IsCurrent (match_new N similarity olds i news).0
        × All
            (IsMatched olds (match_new N similarity olds i news).0)
            (match_new N similarity olds i news).1
  unfolding match_new
  match_new-IsMatched similarity olds i [] = (refl, tt, tt)
  match_new-IsMatched similarity olds i (text ∷ news) =
      let start : Best N.Number = record { score = N.neg_lit 1 0; match = none } in
      let best = best_match N (similarity i) 0 olds start in
      let placed = best_match-keeps (IsPlaced olds) (similarity i) 0 olds start tt (
        IsEach-impl (λ j x. (0 ≤ j) × (at 0 j olds ≡ some x)) (λ j x. at 0 j olds ≡ some x) 0 olds
          (λ j x h. h.1) (IsEach-at 0 olds)) in
      let (same, current, linked) = classify-IsLinked olds text best.score best.match placed in
      let (texts, currents, matched) = match_new-IsMatched similarity olds (i + 1) news in
      (
        rw (same, texts) refl,
        (current, currents),
        add_index-IsMatched olds (classify N text best.score best.match).0
            (match_new N similarity olds (i + 1) news).0 (classify N text best.score best.match).1
            (match_new N similarity olds (i + 1) news).1 linked matched,
      )

  -- An old chunk is reported as removed.
  abbrev IsGone : List Entry → String → Type 0
  IsGone entries old = Any (λ c. (c.status ≡ removed) × (c.text ≡ old)) entries

  removed_entries-All :
      (matched : List ℕ) (from : ℕ) (olds : List String)
      → All (λ c. c.status ≡ removed) (removed_entries N matched from olds)
  unfolding removed_entries
  removed_entries-All matched from [] = tt
  removed_entries-All matched from (old ∷ olds) = elim (Bool-cases (any (λ k. k == from) matched)) [
    | inl e ↦ rw e (removed_entries-All matched (from + 1) olds)
    | inr e ↦ rw e (refl, removed_entries-All matched (from + 1) olds)
  ]

  IsGone-later :
      (matched : List ℕ) (from : ℕ) (old : String) (olds : List String) (x : String)
      → IsGone (removed_entries N matched (from + 1) olds) x
      → IsGone (removed_entries N matched from (old ∷ olds)) x
  unfolding removed_entries
  IsGone-later matched from old olds x h = elim (Bool-cases (any (λ k. k == from) matched)) [
    | inl e ↦ rw e h
    | inr e ↦ rw e (inr h)
  ]

  IsGone-here :
      (matched : List ℕ) (from : ℕ) (old : String) (olds : List String)
      → any (λ k. k == from) matched ≡ false
      → IsGone (removed_entries N matched from (old ∷ olds)) old
  unfolding removed_entries
  IsGone-here matched from old olds e = rw e (inl (refl, refl))

  removed_entries-IsGone :
      (matched : List ℕ) (from : ℕ) (olds : List String) (gone : List Entry)
      → ((x : String) → IsGone (removed_entries N matched from olds) x → IsGone gone x)
      → IsEach (λ j old. (any (λ k. k == j) matched ≡ true) ⊎ IsGone gone old) from olds
  removed_entries-IsGone matched from [] gone _ = tt
  removed_entries-IsGone matched from (old ∷ olds) gone among = (
    elim (Bool-cases (any (λ k. k == from) matched)) [
      | inl e ↦ inl e
      | inr e ↦ inr (among old (IsGone-here matched from old olds e))
    ],
    removed_entries-IsGone matched (from + 1) olds gone
        (λ x h. among x (IsGone-later matched from old olds x h)),
  )

  -- An old chunk is the match of an entry, or is reported as removed.
  abbrev pub IsKept : List Entry → String → Type 0
  IsKept chunks old =
      Any (λ c. (c.matched_text ≡ some old) ⊎ ((c.status ≡ removed) × (c.text ≡ old))) chunks

  IsEach-IsKept :
      (matched : List ℕ) (entries gone : List Entry) (all_olds : List String) (from : ℕ)
      (olds : List String)
      → All (IsMatched all_olds entries) matched
      → IsEach (λ j old. at 0 j all_olds ≡ some old) from olds
      → IsEach (λ j old. (any (λ k. k == j) matched ≡ true) ⊎ IsGone gone old) from olds
      → All (IsKept (entries ++ gone)) olds
  IsEach-IsKept matched entries gone all_olds from [] _ _ _ = tt
  IsEach-IsKept matched entries gone all_olds from (old ∷ olds) links (here, places) (found, each) =
      (
        elim found [
          | inl m ↦ Any-append_left _ entries gone (
              Any-impl entries (λ c same. inl (same ∙ here))
                (All-Among (IsMatched all_olds entries) matched links (any-Among from matched m)))
          | inr g ↦ Any-append_right _ entries gone (Any-impl gone (λ c h. inr h) g)
        ],
        IsEach-IsKept matched entries gone all_olds (from + 1) olds links places each,
      )

  count_status-removed :
      (status : ChunkStatus) (s : Summary)
      → status ≡ removed
      → (newer_count (count_status N status s) ≡ newer_count s)
        × ((count_status N status s).removed ≡ s.removed + 1)
  unfolding count_status
  count_status-removed unchanged s e = absurd (cc)
  count_status-removed modified s e = absurd (cc)
  count_status-removed new_chunk s e = absurd (cc)
  count_status-removed removed s e = (refl, refl)

  count_status-current :
      (status : ChunkStatus) (s : Summary)
      → status ≢ removed
      → (newer_count (count_status N status s) ≡ newer_count s + 1)
        × ((count_status N status s).removed ≡ s.removed)
  unfolding count_status
  count_status-current unchanged s e = (omega arith, refl)
  count_status-current modified s e = (omega arith, refl)
  count_status-current new_chunk s e = (omega arith, refl)
  count_status-current removed s e = absurd (e refl)

  summarize-removed :
      (gone : List Entry)
      → All (λ c. c.status ≡ removed) gone
      → (newer_count (summarize N gone) ≡ 0) × ((summarize N gone).removed ≡ length gone)
  unfolding summarize
  summarize-removed [] _ = (omega arith, refl)
  summarize-removed (c ∷ cs) (e, es) =
      let (same, more) = count_status-removed c.status (summarize N cs) e in
      let (none_newer, counted) = summarize-removed cs es in (same ∙ none_newer, omega arith)

  summarize-append :
      (entries gone : List Entry)
      → All IsCurrent entries
      → All (λ c. c.status ≡ removed) gone
      → (newer_count (summarize N (entries ++ gone)) ≡ length entries)
        × ((summarize N (entries ++ gone)).removed ≡ length gone)
  unfolding summarize
  summarize-append [] gone _ h = summarize-removed gone h
  summarize-append (c ∷ cs) gone (e, es) h =
      let (one_more, same) = count_status-current c.status (summarize N (cs ++ gone)) e in
      let (counted, rest) = summarize-append cs gone es h in
      (one_more ∙ ap (λ n. n + 1) counted ∙ omega arith, same ∙ rest)

  -- Whatever the similarities are, the diff has one entry for each new chunk, in their order and none
  -- of them removed, and after these only removed entries; each old chunk is the match of an entry or
  -- is reported as removed; and the summary counts as many unchanged, modified and added entries as
  -- there are new chunks, and as many removed ones as follow them.
  pub diff_chunks-IsKept :
      (similarity : ℕ → ℕ → N.Number) (olds news : List String)
      → (entries : List (DiffChunk N.Number)) × (gone : List (DiffChunk N.Number)) × ((diff_chunks N
            similarity olds news).0
          ≡ entries ++ gone)
        × (map (λ (c : DiffChunk N.Number). c.text) entries ≡ news)
        × All (λ c. c.status ≢ removed) entries
        × All (λ c. c.status ≡ removed) gone
        × All (IsKept (diff_chunks N similarity olds news).0) olds
        × (newer_count (diff_chunks N similarity olds news).1 ≡ length entries)
        × ((diff_chunks N similarity olds news).1.removed ≡ length gone)
  unfolding diff_chunks
  diff_chunks-IsKept similarity olds news =
      let found = match_new N similarity olds 0 news in
      let gone = removed_entries N found.1 0 olds in
      let (texts, current, links) = match_new-IsMatched similarity olds 0 news in
      let all_removed = removed_entries-All found.1 0 olds in
      let (newer, counted) = summarize-append found.0 gone current all_removed in
      (
        found.0,
        gone,
        refl,
        texts,
        current,
        all_removed,
        IsEach-IsKept found.1 found.0 gone olds 0 olds links (placed olds)
            (removed_entries-IsGone found.1 0 olds gone (λ x h. h)),
        newer,
        counted,
      )
    where
      placed : (olds : List String) → IsEach (λ j x. at 0 j olds ≡ some x) 0 olds
      placed olds =
          IsEach-impl (λ j x. (0 ≤ j) × (at 0 j olds ≡ some x)) (λ j x. at 0 j olds ≡ some x) 0 olds
            (λ j x h. h.1) (IsEach-at 0 olds)
