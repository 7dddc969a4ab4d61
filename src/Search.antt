-- ===== src/Search.antt =====
-- web/src/lib/search.ts: the search over the companies. JavaScript's operations on texts are the
-- record `Texts`, and a match's rank is a number, lower for a better one.
pub mod Ranking
use edgar_radar.Prelude.{
  ℕ, String, Bool, true, false, not, Option, none, some, List, [], ◌∷◌, any, keep, take, map, ltb,
  leb, ◌==◌, str_eq, if◌then◌else◌,
}

-- What the search uses of texts.
pub record Texts : Type 0 where
  pub to_lower_case : String → String
  -- `replace(/[^a-z0-9]/g, '')` and `split(/[^a-z0-9]+/)`
  pub strip : String → String
  pub split : String → List String
  -- `a.startsWith(b)`, `a.includes(b)`, `a.length` and `a.localeCompare(b) <= 0`
  pub starts_with : String → String → Bool
  pub contains : String → String → Bool
  pub length_of : String → ℕ
  pub locale_le : String → String → Bool

pub record Searchable : Type 0 where
  pub ticker : String
  pub name : String
  pub display_name : String

pub record Match : Type 0 where
  pub company : Searchable
  pub rank : ℕ

module _ (t : Texts) where
  unfoldable pub compact : String → String
  compact text = t.strip (t.to_lower_case text)

  unfoldable pub words : String → List String
  words text = keep (λ w. not (str_eq w "")) (t.split (t.to_lower_case text))

  -- How a name matches a query.
  unfoldable pub name_rank : String → String → Option ℕ
  unfolding compact words
  name_rank query name =
      if t.starts_with (compact name) query
      then some 2
      else if any (λ w. t.starts_with w query) (words name)
      then some 3
      else if t.contains (compact name) query
      then some 4
      else none

  -- The turn of the loop that keeps the `best` rank.
  unfoldable pub better_rank : Option ℕ → Option ℕ → Option ℕ
  better_rank best none = best
  better_rank none (some r) = some r
  better_rank (some b) (some r) = if ltb r b then some r else some b

  -- `rank`
  unfoldable pub rank_of : Searchable → String → Option ℕ
  unfolding name_rank better_rank
  rank_of company query =
      let ticker = t.to_lower_case company.ticker in
      if str_eq ticker query
      then some 0
      else if t.starts_with ticker query
      then some 1
      else better_rank (better_rank none (name_rank query company.display_name))
          (name_rank query company.name)

  unfoldable pub match_of : Searchable → Option ℕ → List Match → List Match
  match_of company none rest = rest
  match_of company (some r) rest = record { company = company; rank = r } ∷ rest

  -- The `map` to ranks and the `filter` of the matches.
  unfoldable pub matches : List Searchable → String → List Match
  unfolding rank_of match_of
  matches [] query = []
  matches (c ∷ cs) query = match_of c (rank_of c query) (matches cs query)

  -- Whether the comparison of the sort puts `a` no later than `b`.
  unfoldable pub is_no_later : Match → Match → Bool
  is_no_later a b =
      if a.rank == b.rank
      then (if t.length_of a.company.display_name == t.length_of b.company.display_name
          then t.locale_le a.company.display_name b.company.display_name
          else ltb (t.length_of a.company.display_name) (t.length_of b.company.display_name))
      else ltb a.rank b.rank

  unfoldable pub insert_match : Match → List Match → List Match
  unfolding is_no_later
  insert_match m [] = m ∷ []
  insert_match m (n ∷ ns) =
      let rest = insert_match m ns in if is_no_later m n then m ∷ n ∷ ns else n ∷ rest

  -- `sort`, which keeps the order of equals.
  unfoldable pub sort_matches : List Match → List Match
  unfolding insert_match
  sort_matches [] = []
  sort_matches (m ∷ ms) = insert_match m (sort_matches ms)

  -- `searchCompanies`, with the rank of each result.
  unfoldable pub ranked_results : List Searchable → String → ℕ → List Match
  unfolding compact matches sort_matches
  ranked_results companies raw_query limit =
      let query = compact raw_query in
      if str_eq query "" then [] else take limit (sort_matches (matches companies query))

  unfoldable pub search_companies : List Searchable → String → ℕ → List Searchable
  unfolding ranked_results
  search_companies companies raw_query limit =
      map (λ (m : Match). m.company) (ranked_results companies raw_query limit)
