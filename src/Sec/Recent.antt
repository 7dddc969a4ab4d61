-- ===== src/Sec/Recent.antt =====
-- src/sec.ts: the most recent value of a figure, and the recent filings of some forms.
-- The columns of SEC's `filings.recent` have one length, and are read here as rows.
use edgar_radar.Prelude.{
  ℕ, String, Bool, Option, none, some, List, [], ◌∷◌, ltb, leb, if◌then◌else◌, keep, take, find,
}
use edgar_radar.Prelude.Dicts.{includes}
use edgar_radar.Sec.{Fact, CompanyFacts, values_of}

-- `FilingReference`, a row of `SecSubmissions.filings.recent`.
pub record FilingReference : Type 0 where
  pub accession_number : String
  pub filing_date : ℕ
  pub form : String
  pub primary_document : String

pub record SecSubmissions : Type 0 where
  pub sic : Option String
  pub sic_description : Option String
  pub recent : List FilingReference

abbrev pub has_form : List String → FilingReference → Bool
has_form form_types f = includes f.form form_types

unfoldable pub find_most_recent_filing : SecSubmissions → List String → Option FilingReference
find_most_recent_filing submissions form_types = find (has_form form_types) submissions.recent

unfoldable pub find_recent_filings : SecSubmissions → List String → ℕ → List FilingReference
find_recent_filings submissions form_types count =
    take count (keep (has_form form_types) submissions.recent)

module _ {V : Type 0} where
  -- `[...values].sort((a, b) => a.end.localeCompare(b.end))`, which is stable.
  insert_oldest : Fact V → List (Fact V) → List (Fact V)
  insert_oldest f [] = f ∷ []
  insert_oldest f (g ∷ gs) = if leb f.end g.end then f ∷ g ∷ gs else g ∷ insert_oldest f gs

  sort_oldest : List (Fact V) → List (Fact V)
  sort_oldest [] = []
  sort_oldest (f ∷ fs) = insert_oldest f (sort_oldest fs)

  -- `.at(-1)`
  last? : List (Fact V) → Option (Fact V)
  last? [] = none
  last? (f ∷ []) = some f
  last? (f ∷ g ∷ gs) = last? (g ∷ gs)

  unfoldable pub latest_value : List (Fact V) → Option (Fact V)
  unfolding last? sort_oldest insert_oldest
  latest_value values = last? (sort_oldest values)

  newer_of : Option (String × Fact V) → String → Option (Fact V) → Option (String × Fact V)
  newer_of best tag none = best
  newer_of none tag (some latest) = some (tag, latest)
  newer_of (some (t, b)) tag (some latest) =
      if ltb b.end latest.end then some (tag, latest) else some (t, b)

  unfoldable pub most_recent_from :
      CompanyFacts V → Option (String × Fact V) → List String → Option (String × Fact V)
  unfolding newer_of latest_value
  most_recent_from data_set best [] = best
  most_recent_from data_set best (tag ∷ tags) =
      most_recent_from data_set (newer_of best tag (latest_value (values_of data_set tag "USD")))
        tags

  unfoldable pub most_recent_fact : CompanyFacts V → List String → Option (String × Fact V)
  unfolding most_recent_from
  most_recent_fact data_set tags = most_recent_from data_set none tags
