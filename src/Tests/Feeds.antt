-- ===== src/Tests/Feeds.antt =====
-- The feed of the web site and the categories of forms, on concrete filings.
use edgar_radar.Prelude.{ℕ, ◌≡◌, ◌||◌, String, some, none, List, [], ◌∷◌, min, max}
use edgar_radar.Explain.{Numerals}
use edgar_radar.Ratings.{Ratings, altman, piotroski, beneish, rating_of, rating_chip, has_concern}
use edgar_radar.Ratings.Concerns.{is_bad_chip, has_concern-is_bad_chip}
use edgar_radar.Tests.Scores.{numbers}
use edgar_radar.Feed.{Filing, group_filings}
use edgar_radar.Feed.Groups.{counted, groups_with, filings_with, group_filings-counted}

abbrev filing : String → String → String → Filing
filing accession_number form category = record {
  accession_number = accession_number;
  cik = "0000000001";
  form = form;
  discovered_at = 1772600000000;
  ticker = some "AAA";
  name = some "A INC";
  category = category;
}

abbrev filings : List Filing
filings =
    filing "1" "4" "insider-trade"
    ∷ filing "2" "8-K" "major-event"
    ∷ filing "3" "144" "insider-trade"
    ∷ []

group_filings-counted_example :
    (counted "0000000001" "insider-trade" (group_filings (λ ticker name. name) filings)
      ≡ filings_with "0000000001" "insider-trade" filings)
    × (groups_with "0000000001" "insider-trade" (group_filings (λ ticker name. name) filings)
        ≡ min 1 (filings_with "0000000001" "insider-trade" filings))
group_filings-counted_example =
    group_filings-counted (λ ticker name. name) "0000000001" "insider-trade" filings

-- A safe company with weak finances; texts of numbers are left blank.
abbrev numerals : Numerals numbers
numerals = record {
  abs = λ x. x;
  neg = λ x. x;
  math_min = λ x y. min x y;
  math_max = λ x y. max x y;
  fixed = λ k x. "";
  format_score = λ x. "";
  shown = λ x. "";
}

abbrev weak : Ratings ℕ
weak = record {
  altman_z = some (record { value = 3; classification = "safe" });
  piotroski_f = some (record { value = 2; classification = "low-quality" });
  beneish_m = none;
}

has_concern-is_bad_chip_example : has_concern weak ≡ (
    is_bad_chip (rating_chip numbers numerals altman (rating_of weak altman))
    || is_bad_chip (rating_chip numbers numerals piotroski (rating_of weak piotroski))
    || is_bad_chip (rating_chip numbers numerals beneish (rating_of weak beneish)))
has_concern-is_bad_chip_example = has_concern-is_bad_chip numbers numerals weak
