-- ===== src/Routes/Outcomes.antt =====
-- What a request to src/routes/companies.ts can cost, and what it can leave in the cache.
use edgar_radar.Prelude.{ℕ, ◌≡◌, ◌⊎◌, Bool, true, false, Option, none}
use edgar_radar.Cache.{resolved, CacheClient, Options, Cache, Response}
use edgar_radar.Routes.{
  replica, primary, World, ok, Handled, Route, scores_route, financials_route, company_route,
  facts_route, diff_route,
}

-- Only the company's page and its facts ask SEC.
abbrev pub asks_sec : Route → Bool
asks_sec (scores_route cik) = false
asks_sec (financials_route cik) = false
asks_sec (company_route cik) = true
asks_sec (facts_route cik) = true
asks_sec (diff_route cik) = false

module _ {B : Type 0} where
  -- `upsertCompanyFacts` was not called, or once, when neither database has the company.
  abbrev pub IsNeeded : World B → ℕ → Type 0
  IsNeeded w n =
      (n ≡ 0)
      ⊎ ((n ≡ 1) × (w.company_in replica ≡ resolved none) × (w.company_in primary ≡ resolved none))

  abbrev pub IsSpent : Route → World B → ℕ → Type 0
  IsSpent route w n = (n ≡ 0) ⊎ ((asks_sec route ≡ true) × IsNeeded w n)

module _ {S B : Type 0} (client : Option (CacheClient S)) (o : Options) where
  abbrev IsFrugal : Route → World B → Cache S → Handled S → Type 0
  IsFrugal route w c h =
      IsSpent route w h.upserts × (((r : Response) × (h.sent ≡ ok r)) ⊎ (h.cache ≡ c))
