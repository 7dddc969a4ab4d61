-- ===== src/RiskFactors/Service/Recomputed.antt =====
-- What `recomputeRiskFactorDiffFromStoredTexts` of src/riskFactorDiffService.ts leaves stored.
use edgar_radar.Prelude.{
  ◌≡◌, refl, ap, String, Bool, true, false, not, Option, none, some, List, [], ◌∷◌, any, keep,
  Bool-cases, inl, inr, ◌⊎◌, Any, str_eq_refl,
}
use edgar_radar.RiskFactors.Tables.{
  DiffRow, DiffDb, is_diff, has_diff, upsert_diff_row, upsert_diff, delete_diff, latest_texts,
  TextRow,
}
use edgar_radar.RiskFactors.Service.{
  DiffWorld, DiffOutcome, store_recomputed, recompute_pair, recompute_from_stored,
}

module _ {R : Type 0} where
  abbrev row_key : DiffRow R → DiffRow R → Bool
  row_key row = is_diff row.cik row.current_accn row.prior_accn

  -- The comparisons of other pairs.
  abbrev pub other_diffs : String → String → String → List (DiffRow R) → List (DiffRow R)
  other_diffs cik current prior rs = keep (λ r. not (is_diff cik current prior r)) rs

  -- A comparison of the pair with a result is stored.
  abbrev pub HasResult : String → String → String → R → List (DiffRow R) → Type 0
  HasResult cik current prior x rs =
      Any (λ (r : DiffRow R). (is_diff cik current prior r ≡ true) × (r.result ≡ x)) rs

  upsert-HasResult :
      (row : DiffRow R) (rs : List (DiffRow R))
      → HasResult row.cik row.current_accn row.prior_accn row.result (upsert_diff_row row rs)
  unfolding upsert_diff_row is_diff
  upsert-HasResult row [] = inl (
    rw (str_eq_refl row.cik, str_eq_refl row.current_accn, str_eq_refl row.prior_accn) refl,
    refl,
  )
  upsert-HasResult row (r ∷ rs) = elim (Bool-cases (row_key row r)) [
    | inl e ↦ rw e (inl (e, refl))
    | inr e ↦ rw e (inr (upsert-HasResult row rs))
  ]

  upsert-other_diffs :
      (row : DiffRow R) (rs : List (DiffRow R))
      → other_diffs row.cik row.current_accn row.prior_accn (upsert_diff_row row rs)
        ≡ other_diffs row.cik row.current_accn row.prior_accn rs
  unfolding upsert_diff_row is_diff
  upsert-other_diffs row [] =
      rw (str_eq_refl row.cik, str_eq_refl row.current_accn, str_eq_refl row.prior_accn) refl
  upsert-other_diffs row (r ∷ rs) = elim (Bool-cases (row_key row r)) [
    | inl e ↦ rw (e, e) refl
    | inr e ↦ rw (e, e) (ap (λ rest. r ∷ rest) (upsert-other_diffs row rs))
  ]

  upsert_twice :
      (row : DiffRow R) (rs : List (DiffRow R))
      → upsert_diff_row row (upsert_diff_row row rs) ≡ upsert_diff_row row rs
  unfolding upsert_diff_row is_diff
  upsert_twice row [] =
      rw (str_eq_refl row.cik, str_eq_refl row.current_accn, str_eq_refl row.prior_accn) refl
  upsert_twice row (r ∷ rs) = elim (Bool-cases (row_key row r)) [
    | inl e ↦ rw (e, e) refl
    | inr e ↦ rw (e, e) (ap (λ rest. r ∷ rest) (upsert_twice row rs))
  ]

  keep_twice :
      (p : DiffRow R → Bool) (rs : List (DiffRow R))
      → keep (λ r. not (p r)) (keep (λ r. not (p r)) rs) ≡ keep (λ r. not (p r)) rs
  keep_twice p [] = refl
  keep_twice p (r ∷ rs) = elim (Bool-cases (p r)) [
    | inl e ↦ rw e (keep_twice p rs)
    | inr e ↦ rw (e, e) (ap (λ rest. r ∷ rest) (keep_twice p rs))
  ]

  any-keep :
      (p : DiffRow R → Bool) (rs : List (DiffRow R)) → any p (keep (λ r. not (p r)) rs) ≡ false
  any-keep p [] = refl
  any-keep p (r ∷ rs) = elim (Bool-cases (p r)) [
    | inl e ↦ rw e (any-keep p rs)
    | inr e ↦ rw (e, e) (any-keep p rs)
  ]

  -- After a run for a pair: its comparison is the result, and is not stored where there is none; all
  -- else is as before; and a run that does the same again ends alike and leaves the same comparisons.
  abbrev pub IsRecomputed :
      String
      → TextRow
      → TextRow
      → Option R
      → DiffDb R
      → DiffOutcome × DiffDb R
      → (DiffDb R → DiffOutcome × DiffDb R)
      → Type 0
  IsRecomputed cik newer older r before (outcome, after) run =
      (((r ≡ none) × (has_diff cik newer.accn older.accn after ≡ false))
        ⊎ ((x : R) × (r ≡ some x) × HasResult cik newer.accn older.accn x after.diffs))
      × (other_diffs cik newer.accn older.accn after.diffs
          ≡ other_diffs cik newer.accn older.accn before.diffs)
      × (after.texts ≡ before.texts)
      × (after.downloads ≡ before.downloads)
      × ((run after).0 ≡ outcome)
      × ((run after).1.diffs ≡ after.diffs)

  store_recomputed-IsRecomputed :
      (cik : String) (newer older : TextRow) (r : Option R) (db : DiffDb R)
      → IsRecomputed cik newer older r db
          (store_recomputed cik newer older (some r) db)
          (store_recomputed cik newer older (some r))
  unfolding store_recomputed has_diff delete_diff upsert_diff
  store_recomputed-IsRecomputed cik newer older none db =
      let p = is_diff cik newer.accn older.accn in
      (
        inl (refl, any-keep p db.diffs),
        keep_twice p db.diffs,
        refl,
        refl,
        refl,
        keep_twice p db.diffs,
      )
  store_recomputed-IsRecomputed cik newer older (some x) db =
      let row : DiffRow R = record {
        cik = cik;
        current_accn = newer.accn;
        current_filing_date = newer.filing_date;
        prior_accn = older.accn;
        prior_filing_date = older.filing_date;
        result = x;
      } in
      (
        inr (x, refl, upsert-HasResult row db.diffs),
        upsert-other_diffs row db.diffs,
        refl,
        refl,
        refl,
        upsert_twice row db.diffs,
      )

  same_texts :
      (cik : String) (after db : DiffDb R)
      → after.texts ≡ db.texts
      → latest_texts cik ("10-K" ∷ []) 2 after ≡ latest_texts cik ("10-K" ∷ []) 2 db
  unfolding latest_texts
  same_texts cik after db e = rw e refl

  -- Where two 10-K texts of a company are stored and comparing them throws nothing, whatever the
  -- comparison gives: afterwards the pair's comparison is that result, and is not stored if the section
  -- was not found; the comparisons of other pairs are as before, as are the texts, and nothing is
  -- downloaded; and a second run on what is stored then ends like the first and leaves the same
  -- comparisons.
  pub recompute_from_stored-IsRecomputed :
      (w : DiffWorld R) (cik : String) (newer older : TextRow) (more : List TextRow) (r : Option R)
      (db : DiffDb R)
      → latest_texts cik ("10-K" ∷ []) 2 db ≡ newer ∷ older ∷ more
      → w.compare_texts older.content newer.content ≡ some r
      → IsRecomputed cik newer older r db
          (recompute_from_stored w cik db)
          (recompute_from_stored w cik)
  unfolding recompute_from_stored recompute_pair
  recompute_from_stored-IsRecomputed w cik newer older more r db found compared =
      let (result, others, texts, downloads, outcome, diffs) =
        store_recomputed-IsRecomputed cik newer older r db in
      let first : recompute_from_stored w cik db ≡ store_recomputed cik newer older (some r) db =
        rw (found, compared) refl in
      let after = (store_recomputed cik newer older (some r) db).1 in
      let again : recompute_from_stored w cik after
          ≡ store_recomputed cik newer older (some r) after =
        rw (same_texts cik after db texts, found, compared) refl in
      rw (first, again) (result, others, texts, downloads, outcome, diffs)
