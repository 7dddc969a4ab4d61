-- ===== src/Categories.antt =====
-- src/filingCategories.ts: SEC's form types in plain categories. `clean` is what JavaScript's
-- `form.trim().toUpperCase()` gives; a category is its text.
pub mod Reports
use Prim.Native.String.{len, slice}
use edgar_radar.Prelude.{
  ℕ, ◌-◌, String, Bool, true, false, ◌||◌, Option, none, some, List, [], ◌∷◌, str_eq, if◌then◌else◌,
}
use edgar_radar.Prelude.Dicts.{lookup, includes}

-- `EXACT`
abbrev pub exact : List (String × String)
exact =
    ("10-K", "annual-report")
    ∷ ("20-F", "annual-report")
    ∷ ("40-F", "annual-report")
    ∷ ("10-Q", "quarterly-report")
    ∷ ("8-K", "major-event")
    ∷ ("6-K", "major-event")
    ∷ ("3", "insider-trade")
    ∷ ("4", "insider-trade")
    ∷ ("5", "insider-trade")
    ∷ ("144", "insider-trade")
    ∷ ("425", "merger")
    ∷ ("S-4", "merger")
    ∷ ("DEFM14A", "merger")
    ∷ ("FWP", "offering")
    ∷ ("S-3", "offering")
    ∷ ("S-3ASR", "offering")
    ∷ ("25-NSE", "exchange-notice")
    ∷ ("25", "exchange-notice")
    ∷ ("DEF 14A", "shareholder-vote")
    ∷ ("DEFA14A", "shareholder-vote")
    ∷ ("SC 13D", "major-holder")
    ∷ ("SC 13G", "major-holder")
    ∷ ("SCHEDULE 13D", "major-holder")
    ∷ ("SCHEDULE 13G", "major-holder")
    ∷ []

-- `/^424B\d$/`
abbrev prospectuses : List String
prospectuses =
    "424B0" ∷ "424B1" ∷ "424B2" ∷ "424B3" ∷ "424B4" ∷ "424B5" ∷ "424B6" ∷ "424B7" ∷ "424B8"
    ∷ "424B9" ∷ []

-- `replace(/\/A$/, '')`
unfoldable pub drop_amendment : String → String
drop_amendment s = if str_eq (slice s (len s - 2) (len s)) "/A" then slice s 0 (len s - 2) else s

or_other : Option String → String
or_other none = "other"
or_other (some category) = category

unfoldable pub category_of : String → String
unfolding or_other lookup includes
category_of base = if includes base prospectuses then "offering" else or_other (lookup base exact)

unfoldable pub categorize_form : (String → String) → String → String
categorize_form clean form = category_of (drop_amendment (clean form))

unfoldable pub carries_financial_statements : (String → String) → String → Bool
unfolding categorize_form
carries_financial_statements clean form =
    let category = categorize_form clean form in
    str_eq category "annual-report" || str_eq category "quarterly-report"
