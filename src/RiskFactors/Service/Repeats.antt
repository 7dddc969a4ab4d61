-- ===== src/RiskFactors/Service/Repeats.antt =====
-- What a second run of `computeLatestRiskFactorDiff` of src/riskFactorDiffService.ts for the same
-- 10-Ks does.
use edgar_radar.Prelude.{
  ◌≡◌, refl, String, Bool, true, false, Option, none, some, List, [], ◌∷◌, any, Bool-cases, inl,
  inr, str_eq_refl,
}
use edgar_radar.Sec.Recent.{FilingReference, find_recent_filings}
use edgar_radar.RiskFactors.Tables.{
  DiffRow, DiffDb, is_diff, has_diff, upsert_diff_row, upsert_diff, text_of,
}
use edgar_radar.RiskFactors.Service.{
  Submissions, received, unknown_cik, fetch_failed, DiffWorld, DiffOutcome, computed,
  already_stored, store_result, compare_pair, after_download, ingest_missing, download_older,
  compute_pair, on_submissions, compute_latest,
}

module _ {R : Type 0} where
  upsert_diff_row-has :
      (row : DiffRow R) (rs : List (DiffRow R))
      → any (is_diff row.cik row.current_accn row.prior_accn) (upsert_diff_row row rs) ≡ true
  unfolding upsert_diff_row is_diff
  upsert_diff_row-has row [] =
      rw (str_eq_refl row.cik, str_eq_refl row.current_accn, str_eq_refl row.prior_accn) refl
  upsert_diff_row-has row (r ∷ rs) =
      elim (Bool-cases (is_diff row.cik row.current_accn row.prior_accn r)) [
        | inl e ↦ rw (e, e) refl
        | inr e ↦ rw (e, e) (upsert_diff_row-has row rs)
      ]

  -- Where an outcome is a computed comparison, it is that of the two filings, and it is stored.
  abbrev IsStored : String → FilingReference → FilingReference → DiffOutcome × DiffDb R → Type 0
  IsStored cik newer older x =
      (a b : String)
      → x.0 ≡ computed a b
      → (a ≡ newer.accession_number)
        × (b ≡ older.accession_number)
        × (has_diff cik newer.accession_number older.accession_number x.1 ≡ true)

  module _ (w : DiffWorld R) (cik : String) (newer older : FilingReference) where
    store_result-IsStored :
        (r : Option (Option R)) (db : DiffDb R)
        → IsStored cik newer older (store_result cik newer older r db)
    unfolding store_result upsert_diff has_diff
    store_result-IsStored none db a b e = absurd (cc)
    store_result-IsStored (some none) db a b e = absurd (cc)
    store_result-IsStored (some (some r)) db a b e = (cc, cc, upsert_diff_row-has _ db.diffs)

    compare_pair-IsStored :
        (db : DiffDb R) → IsStored cik newer older (compare_pair w cik newer older db)
    unfolding compare_pair
    compare_pair-IsStored db = store_result-IsStored _ db

    after_download-IsStored :
        (x : Bool × DiffDb R) → IsStored cik newer older (after_download w cik newer older x)
    unfolding after_download
    after_download-IsStored (true, db) a b e = compare_pair-IsStored db a b e
    after_download-IsStored (false, db) a b e = absurd (cc)

    download_older-IsStored :
        (stored : Option String) (x : Bool × DiffDb R)
        → IsStored cik newer older (download_older w cik newer older stored x)
    unfolding download_older
    download_older-IsStored stored (true, db) a b e =
        after_download-IsStored (ingest_missing w cik older stored db) a b e
    download_older-IsStored stored (false, db) a b e = absurd (cc)

  compute_pair-repeats :
      (w again : DiffWorld R) (cik a b : String) (filings : List FilingReference) (db : DiffDb R)
      → (compute_pair w cik filings db).0 ≡ computed a b
      → (let after = (compute_pair w cik filings db).1 in
          compute_pair again cik filings after ≡ (already_stored a b, after))
  unfolding compute_pair
  compute_pair-repeats w again cik a b [] db e = absurd (cc)
  compute_pair-repeats w again cik a b (newer ∷ []) db e = absurd (cc)
  compute_pair-repeats w again cik a b (newer ∷ older ∷ more) db e =
      elim (Bool-cases (has_diff cik newer.accession_number older.accession_number db)) [
        | inl there ↦ absurd (let f = rw there at e in cc)
        | inr fresh ↦
            let (left, right, stored) =
              download_older-IsStored w cik newer older (text_of cik older.accession_number db)
                (ingest_missing w cik newer (text_of cik newer.accession_number db) db) a b
                (rw fresh at e) in
            rw (fresh, stored, left, right) refl
      ]

  on_submissions-repeats :
      (w again : DiffWorld R) (cik a b : String) (s : Submissions) (db : DiffDb R)
      → (on_submissions w cik s db).0 ≡ computed a b
      → (let after = (on_submissions w cik s db).1 in
          on_submissions again cik s after ≡ (already_stored a b, after))
  unfolding on_submissions
  on_submissions-repeats w again cik a b (received s) db e =
      compute_pair-repeats w again cik a b (find_recent_filings s ("10-K" ∷ []) 2) db e
  on_submissions-repeats w again cik a b unknown_cik db e = absurd (cc)
  on_submissions-repeats w again cik a b fetch_failed db e = absurd (cc)

  -- A run that computes and stores a company's comparison is not repeated: a second run that finds the
  -- same filings at SEC, whatever else it would meet, answers that the pair is already stored, and
  -- changes nothing, so that it downloads no document.
  pub compute_latest-repeats :
      (w again : DiffWorld R) (cik a b : String) (db : DiffDb R)
      → (compute_latest w cik db).0 ≡ computed a b
      → again.submissions ≡ w.submissions
      → (let after = (compute_latest w cik db).1 in
          compute_latest again cik after ≡ (already_stored a b, after))
  unfolding compute_latest
  compute_latest-repeats w again cik a b db e same =
      rw same (on_submissions-repeats w again cik a b w.submissions db e)
