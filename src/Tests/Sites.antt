-- ===== src/Tests/Sites.antt =====
-- A company page, the comparisons of two 10-Ks, and a search.
use edgar_radar.Prelude.{
  ℕ, ◌≡◌, refl, String, Bool, true, Option, none, some, List, [], ◌∷◌, All, min, length, str_eq,
}
use edgar_radar.Prelude.Dicts.{includes}
use edgar_radar.Cache.{resolved, rejected, CacheClient, Cache, opened}
use edgar_radar.Routes.{World, upserted, Route, facts_route}
use edgar_radar.Sec.Recent.{FilingReference, find_recent_filings}
use edgar_radar.RiskFactors.Tables.{DiffDb, TextRow, latest_texts}
use edgar_radar.RiskFactors.Service.{
  DiffWorld, received, already_stored, compute_latest, recompute_from_stored,
}
use edgar_radar.RiskFactors.Service.Repeats.{compute_latest-repeats}
use edgar_radar.RiskFactors.Service.Recomputed.{IsRecomputed, recompute_from_stored-IsRecomputed}
use edgar_radar.Search.{Texts, Searchable, compact, matches, ranked_results}
use edgar_radar.Search.Ranking.{IsMatch, IsRanked, IsPlaced, ranked_results-IsBest}

-- No cache is configured, and neither database has the company yet.
abbrev nothing_cached : Cache Bool
nothing_cached = opened true

abbrev no_client : Option (CacheClient Bool)
no_client = none

abbrev world : World String
world = record {
  asked = 1000;
  answered = 1900;
  company_in = λ db. resolved none;
  company_after = resolved (some "Apple Inc.");
  upsert = upserted;
  facts_in = λ db. rejected;
  with_facts = λ company facts. facts;
  scores_body = resolved "{}";
  financials_body = resolved "{}";
  diff_in = λ db. resolved none;
}

abbrev json : Option String → String
json none = "null"
json (some text) = text

abbrev page : Route
page = facts_route "320193"

abbrev ten_k : String → ℕ → FilingReference
ten_k accession date = record {
  accession_number = accession;
  filing_date = date;
  form = "10-K";
  primary_document = "a.htm";
}

abbrev sec : DiffWorld ℕ
sec = record {
  submissions = received (record {
    sic = none;
    sic_description = none;
    recent = ten_k "b" 20260201 ∷ ten_k "a" 20250201 ∷ [];
  });
  document = λ f. some "Risk Factors";
  compare_texts = λ older newer. some (some 7);
}

-- SEC's documents cannot be fetched any more.
abbrev sec_later : DiffWorld ℕ
sec_later = record sec { document = λ f. none; compare_texts = λ older newer. some none }

abbrev nothing_stored : DiffDb ℕ
nothing_stored = record { texts = []; diffs = []; invalidated = []; downloads = [] }

compute_latest-repeats_example :
    (let after = (compute_latest sec "0000320193" nothing_stored).1 in
      compute_latest sec_later "0000320193" after ≡ (already_stored "b" "a", after))
unfolding compute_latest find_recent_filings includes
compute_latest-repeats_example =
    compute_latest-repeats sec sec_later "0000320193" "b" "a" nothing_stored refl refl

abbrev stored : DiffDb ℕ
stored = (compute_latest sec "0000320193" nothing_stored).1

abbrev text : String → ℕ → TextRow
text accn date = record {
  cik = "0000320193";
  accn = accn;
  form = "10-K";
  filing_date = date;
  content = "Risk Factors";
}

-- The section is no longer found, in the texts of which a comparison is stored.
recompute_from_stored-IsRecomputed_example :
    IsRecomputed "0000320193"
      (text "b" 20260201)
      (text "a" 20250201)
      none
      stored
      (recompute_from_stored sec_later "0000320193" stored)
      (recompute_from_stored sec_later "0000320193")
unfolding latest_texts compute_latest find_recent_filings includes
recompute_from_stored-IsRecomputed_example =
    recompute_from_stored-IsRecomputed sec_later "0000320193" (text "b" 20260201)
      (text "a" 20250201) [] none stored refl refl

abbrev texts : Texts
texts = record {
  to_lower_case = λ s. s;
  strip = λ s. s;
  split = λ s. s ∷ [];
  starts_with = λ a b. str_eq a b;
  contains = λ a b. true;
  length_of = λ s. 1;
  locale_le = λ a b. true;
}

abbrev companies : List Searchable
companies =
    record { ticker = "ko"; name = "coca cola co"; display_name = "coca-cola" }
    ∷ record { ticker = "aapl"; name = "apple"; display_name = "apple" }
    ∷ record { ticker = "apple"; name = "another"; display_name = "another" }
    ∷ []

ranked_results-IsBest_example :
    (let results = ranked_results texts companies "apple" 2 in
      (length results ≡ min 2 (length (matches texts companies "apple")))
      × All (IsMatch texts companies "apple") results
      × IsRanked results
      × All (IsPlaced texts "apple" results) companies)
unfolding compact
ranked_results-IsBest_example = ranked_results-IsBest texts companies "apple" 2 refl
