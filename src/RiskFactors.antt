-- ===== src/RiskFactors.antt =====
-- src/riskFactorDiff.ts: the matching of the chunks of two risk-factor sections. Numbers are
-- floating-point; `similarity` gives `cosineSimilarity(newVectors[i], oldVectors[j])`.
pub mod Matching
pub mod Tables
pub mod Service
use edgar_radar.Prelude.{
  ℕ, ◌+◌, ◌==◌, String, Option, none, some, List, [], ◌∷◌, ◌++◌, any, if◌then◌else◌,
}
use edgar_radar.Scoring.Num.{Num}

pub data ChunkStatus : Type 0 where
  unchanged : ChunkStatus
  modified : ChunkStatus
  new_chunk : ChunkStatus
  removed : ChunkStatus

-- `RiskFactorDiffSummary`
pub record Summary : Type 0 where
  pub unchanged : ℕ
  pub modified : ℕ
  pub added : ℕ
  pub removed : ℕ

-- `DiffChunk`
pub record DiffChunk (F : Type 0) : Type 0 where
  pub text : String
  pub status : ChunkStatus
  pub similarity : F
  pub matched_text : Option String

-- `bestScore` and `bestIndex`, the text at the index with it; `none` is the index -1.
pub record Best (F : Type 0) : Type 0 where
  pub score : F
  pub match : Option (ℕ × String)

module _ (N : Num) where
  -- The inner loop from the old chunk with the index `j` on.
  unfoldable pub best_match : (ℕ → N.Number) → ℕ → List String → Best N.Number → Best N.Number
  best_match similarity j [] best = best
  best_match similarity j (old ∷ olds) best = best_match similarity (j + 1) olds (
      if N.lt best.score (similarity j)
      then record { score = similarity j; match = some (j, old) }
      else best)

  abbrev pub unchanged_threshold : N.Number
  unchanged_threshold = N.lit 92 2

  abbrev pub modified_threshold : N.Number
  modified_threshold = N.lit 6 1

  -- `Math.max(bestScore, 0)`
  abbrev at_least_zero : N.Number → N.Number
  at_least_zero x = if N.lt x (N.lit 0 0) then N.lit 0 0 else x

  abbrev new_entry : String → N.Number → DiffChunk N.Number
  new_entry text score = record {
    text = text;
    status = new_chunk;
    similarity = at_least_zero score;
    matched_text = none;
  }

  -- One turn of the outer loop: the entry, and the old index it matches.
  unfoldable pub classify : String → N.Number → Option (ℕ × String) → DiffChunk N.Number × Option ℕ
  classify text score none = (new_entry text score, none)
  classify text score (some (j, old)) =
      if N.le unchanged_threshold score
      then (
        record { text = text; status = unchanged; similarity = score; matched_text = some old },
        some j,
      )
      else if N.le modified_threshold score
      then (
        record { text = text; status = modified; similarity = score; matched_text = some old },
        some j,
      )
      else (new_entry text score, none)

  -- `matchedOldIndexes.add`
  abbrev pub add_index : Option ℕ → List ℕ → List ℕ
  add_index none indexes = indexes
  add_index (some j) indexes = j ∷ indexes

  -- The outer loop from the new chunk with the index `i` on.
  unfoldable pub match_new :
      (ℕ → ℕ → N.Number) → List String → ℕ → List String → List (DiffChunk N.Number) × List ℕ
  unfolding best_match classify
  match_new similarity olds i [] = ([], [])
  match_new similarity olds i (text ∷ news) =
      let best =
        best_match (similarity i) 0 olds (record { score = N.neg_lit 1 0; match = none }) in
      let (entry, index) = classify text best.score best.match in
      let (entries, indexes) = match_new similarity olds (i + 1) news in
      (entry ∷ entries, add_index index indexes)

  -- The old chunks that no new chunk matched.
  unfoldable pub removed_entries : List ℕ → ℕ → List String → List (DiffChunk N.Number)
  removed_entries matched j [] = []
  removed_entries matched j (old ∷ olds) =
      let rest = removed_entries matched (j + 1) olds in
      if any (λ k. k == j) matched
      then rest
      else record { text = old; status = removed; similarity = N.lit 0 0; matched_text = none }
        ∷ rest

  unfoldable pub count_status : ChunkStatus → Summary → Summary
  count_status unchanged s = record s { unchanged = s.unchanged + 1 }
  count_status modified s = record s { modified = s.modified + 1 }
  count_status new_chunk s = record s { added = s.added + 1 }
  count_status removed s = record s { removed = s.removed + 1 }

  unfoldable pub summarize : List (DiffChunk N.Number) → Summary
  unfolding count_status
  summarize [] = record { unchanged = 0; modified = 0; added = 0; removed = 0 }
  summarize (c ∷ cs) = count_status c.status (summarize cs)

  -- `diffRiskFactorTexts` from the chunks on.
  unfoldable pub diff_chunks :
      (ℕ → ℕ → N.Number) → List String → List String → List (DiffChunk N.Number) × Summary
  unfolding match_new removed_entries summarize
  diff_chunks similarity olds news =
      let (entries, matched) = match_new similarity olds 0 news in
      let chunks = entries ++ removed_entries matched 0 olds in (chunks, summarize chunks)
