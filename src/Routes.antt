-- ===== src/Routes.antt =====
-- src/routes/companies.ts: the handlers of the company pages, over the response cache. What the
-- databases and SEC answer to a request is its `World`; the texts of the error bodies are left out.
pub mod Outcomes
use Prim.Native.Char.{Char, code}
use Prim.Native.String.{[], ◌∷◌, len}
use edgar_radar.Prelude.{
  ℕ, ◌+◌, String, Bool, true, false, ◌&&◌, Option, none, some, ltb, leb, if◌then◌else◌,
}
use edgar_radar.Facts.{CacheKey, company, facts, scores, financials, risk_factor_diff}
use edgar_radar.Cache.{
  Settled, resolved, rejected, CacheClient, Options, Cache, Response, key_text, send_if_cached,
  send_and_cache,
}

-- The database that answered.
pub data Database : Type 0 where
  replica : Database
  primary : Database

-- What `upsertCompanyFacts` comes to: the facts are stored, SEC has none (`CompanyFactsNotFoundError`),
-- or it throws something else.
pub data Upsert : Type 0 where
  upserted : Upsert
  facts_not_found : Upsert
  upsert_failed : Upsert

-- The bodies are of a type B; `none` is the source's `null`.
pub record World (B : Type 0) : Type 0 where
  pub asked : ℕ
  pub answered : ℕ
  -- `getCompanyByCik`, and the same on the primary after `upsertCompanyFacts`
  pub company_in : Database → Settled (Option B)
  pub company_after : Settled (Option B)
  pub upsert : Upsert
  -- `getFactsByCik`, and `{ ...company, facts }`
  pub facts_in : Database → Settled B
  pub with_facts : Option B → B → B
  -- the bodies of the stored pages, and `getLatestRiskFactorDiff`
  pub scores_body : Settled B
  pub financials_body : Settled B
  pub diff_in : Database → Settled (Option B)

-- What is sent: a body, from the cache or not, or an error's status.
pub data Sent : Type 0 where
  ok : Response → Sent
  error : ℕ → Sent

-- What a handler leaves: what it sent, the cache, and how often it called `upsertCompanyFacts`.
pub record Handled (S : Type 0) : Type 0 where
  pub sent : Sent
  pub cache : Cache S
  pub upserts : ℕ

pub data Route : Type 0 where
  scores_route financials_route company_route facts_route diff_route : String → Route

unfoldable pub all_digits : String → Bool
all_digits [] = true
all_digits (c ∷ cs) = leb 48 (code c) && leb (code c) 57 && all_digits cs

-- `isValidCik`
unfoldable pub is_valid_cik : String → Bool
unfolding all_digits
is_valid_cik cik = leb 1 (len cik) && leb (len cik) 10 && all_digits cik

-- What `getOrFetchCompany` comes to.
pub data Fetched (B : Type 0) : Type 0 where
  company_from : Option B → Database → Fetched B
  not_found : Fetched B
  failed : Fetched B

-- What a page's work comes to: a body, `none` for `null`, or an error's status.
pub data Answer (B : Type 0) : Type 0 where
  body : Option B → Answer B
  status : ℕ → Answer B

module _ {B : Type 0} where
  -- `(await f(readDb)) ?? (await f(pool))`
  unfoldable pub replica_first : (Database → Settled (Option B)) → Settled (Option B)
  replica_first read = elim (read replica) [
    | rejected ↦ rejected
    | resolved none ↦ read primary
    | resolved (some b) ↦ resolved (some b)
  ]

  -- The company as it is stored after the fetch.
  unfoldable pub fetched_company : Settled (Option B) → Fetched B
  fetched_company (resolved b) = company_from b primary
  fetched_company rejected = failed

  unfoldable pub after_upsert : Upsert → Settled (Option B) → Fetched B
  unfolding fetched_company
  after_upsert upserted stored = fetched_company stored
  after_upsert facts_not_found stored = not_found
  after_upsert upsert_failed stored = failed

  -- The calls of `upsertCompanyFacts` come second.
  unfoldable pub from_primary : World B → Settled (Option B) → Fetched B × ℕ
  unfolding after_upsert
  from_primary w rejected = (failed, 0)
  from_primary w (resolved (some b)) = (company_from (some b) primary, 0)
  from_primary w (resolved none) = (after_upsert w.upsert w.company_after, 1)

  unfoldable pub from_replica : World B → Settled (Option B) → Fetched B × ℕ
  unfolding from_primary
  from_replica w rejected = (failed, 0)
  from_replica w (resolved (some b)) = (company_from (some b) replica, 0)
  from_replica w (resolved none) = from_primary w (w.company_in primary)

  -- `getOrFetchCompany`
  unfoldable pub get_or_fetch_company : World B → Fetched B × ℕ
  unfolding from_replica
  get_or_fetch_company w = from_replica w (w.company_in replica)

  stored_body : Settled B → Answer B
  stored_body (resolved b) = body (some b)
  stored_body rejected = status 500

  -- The `try` of the scores and of the financials: a stored company, and the page's body.
  unfoldable pub stored_page : Settled (Option B) → Settled B → Answer B
  unfolding stored_body
  stored_page rejected page = status 500
  stored_page (resolved none) page = status 404
  stored_page (resolved (some row)) page = stored_body page

  unfoldable pub company_page : Fetched B → Answer B
  company_page (company_from b db) = body b
  company_page not_found = status 404
  company_page failed = status 500

  facts_body : (B → B) → Settled B → Answer B
  facts_body join (resolved f) = body (some (join f))
  facts_body join rejected = status 500

  unfoldable pub facts_page : World B → Fetched B → Answer B
  unfolding facts_body
  facts_page w (company_from b db) = facts_body (w.with_facts b) (w.facts_in db)
  facts_page w not_found = status 404
  facts_page w failed = status 500

  unfoldable pub diff_page : Settled (Option B) → Answer B
  diff_page rejected = status 500
  diff_page (resolved none) = status 404
  diff_page (resolved (some b)) = body (some b)

  -- The work of each route after a miss.
  unfoldable pub answer_of : Route → World B → Answer B × ℕ
  unfolding replica_first stored_page get_or_fetch_company company_page facts_page diff_page
  answer_of (scores_route cik) w = (stored_page (replica_first w.company_in) w.scores_body, 0)
  answer_of (financials_route cik) w =
      (stored_page (replica_first w.company_in) w.financials_body, 0)
  answer_of (company_route cik) w =
      let (found, upserts) = get_or_fetch_company w in (company_page found, upserts)
  answer_of (facts_route cik) w =
      let (found, upserts) = get_or_fetch_company w in (facts_page w found, upserts)
  answer_of (diff_route cik) w = (diff_page (replica_first w.diff_in), 0)

abbrev pub cik_of : Route → String
cik_of (scores_route cik) = cik
cik_of (financials_route cik) = cik
cik_of (company_route cik) = cik
cik_of (facts_route cik) = cik
cik_of (diff_route cik) = cik

abbrev pub key_of : Route → CacheKey
key_of (scores_route cik) = scores cik
key_of (financials_route cik) = financials cik
key_of (company_route cik) = company cik
key_of (facts_route cik) = facts cik
key_of (diff_route cik) = risk_factor_diff cik

module _ {S B : Type 0} (client : Option (CacheClient S)) (o : Options) where
  unfoldable pub respond : (Option B → String) → ℕ → String → Cache S → Answer B × ℕ → Handled S
  respond json now key c (status code_sent, upserts) = record {
    sent = error code_sent;
    cache = c;
    upserts = upserts;
  }
  respond json now key c (body page, upserts) =
      let (sent, after) = send_and_cache client o json now key page c in
      record { sent = ok sent; cache = after; upserts = upserts }

  unfoldable pub after_cache :
      (Option B → String) → String → Route → World B → Option Response × Cache S → Handled S
  unfolding respond answer_of
  after_cache json key route w (some response, c) = record {
    sent = ok response;
    cache = c;
    upserts = 0;
  }
  after_cache json key route w (none, c) = respond json w.answered key c (answer_of route w)

  -- The handler of a route; `pad` is `padCik` and `json` is `JSON.stringify`.
  unfoldable pub handle :
      (String → String) → (Option B → String) → Route → World B → Cache S → Handled S
  unfolding after_cache
  handle pad json route w c =
      if is_valid_cik (cik_of route)
      then (let key = key_text pad (key_of route) in
          after_cache json key route w (send_if_cached client o w.asked key c))
      else record { sent = error 400; cache = c; upserts = 0 }
