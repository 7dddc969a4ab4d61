-- ===== src/Tests/Pages.antt =====
-- A company's page and a risk-factor diff, on concrete data.
use edgar_radar.Prelude.{
  ℕ, ◌≡◌, ◌≢◌, String, some, List, [], ◌∷◌, ◌++◌, map, length, All, if◌then◌else◌, ◌==◌, ◌&&◌,
}
use edgar_radar.Prelude.Dicts.{includes}
use edgar_radar.Scoring.Series.{at_key}
use edgar_radar.Scoring.Altman.{altman_series}
use edgar_radar.Financials.{get_company_financials, oldest_first}
use edgar_radar.Financials.Liabilities.{financials-altman}
use edgar_radar.RiskFactors.{DiffChunk, removed, diff_chunks}
use edgar_radar.RiskFactors.Matching.{IsKept, newer_count, diff_chunks-IsKept}
use edgar_radar.Tests.Scores.{numbers, annual}

financials-altman_example :
    ((get_company_financials numbers "0000000001" annual (some 20260302)).total_liabilities
      ≡ oldest_first (at_key "liabilities" (altman_series numbers annual).0))
    × ((get_company_financials numbers "0000000001" annual (some 20260302)).liabilities_derived
        ≡ includes "liabilities" (altman_series numbers annual).1)
financials-altman_example = financials-altman numbers "0000000001" annual (some 20260302)

-- The second new chunk is the first old one, the rest have nothing in common.
abbrev similarity : ℕ → ℕ → ℕ
similarity i j = if i == 1 && j == 0 then 95 else 10

abbrev olds : List String
olds = "supply chain" ∷ "pandemic" ∷ []

abbrev news : List String
news = "artificial intelligence" ∷ "supply chain" ∷ []

diff_chunks-IsKept_example :
    (entries : List (DiffChunk ℕ)) × (gone : List (DiffChunk ℕ)) × ((diff_chunks numbers similarity
        olds news).0
      ≡ entries ++ gone)
    × (map (λ (c : DiffChunk ℕ). c.text) entries ≡ news)
    × All (λ c. c.status ≢ removed) entries
    × All (λ c. c.status ≡ removed) gone
    × All (IsKept numbers (diff_chunks numbers similarity olds news).0) olds
    × (newer_count (diff_chunks numbers similarity olds news).1 ≡ length entries)
    × ((diff_chunks numbers similarity olds news).1.removed ≡ length gone)
diff_chunks-IsKept_example = diff_chunks-IsKept numbers similarity olds news
