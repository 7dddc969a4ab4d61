-- ===== src/Feed.antt =====
-- web/src/lib/feed.ts: the filings feed of the web site. Instants are numbers in the order of their
-- ISO texts, and `display_name` is `displayName` of web/src/lib/names.ts.
pub mod Groups
use edgar_radar.Prelude.{
  ℕ, ◌+◌, String, Bool, true, false, not, ◌&&◌, ◌||◌, Option, none, some, List, [], ◌∷◌, ◌++◌,
  str_eq, ltb, leb, ◌==◌, if◌then◌else◌,
}
use edgar_radar.Prelude.Dicts.{includes, lookup}

pub record Filing : Type 0 where
  pub accession_number : String
  pub cik : String
  pub form : String
  pub discovered_at : ℕ
  pub ticker : Option String
  pub name : Option String
  pub category : String

pub record FilingGroup : Type 0 where
  pub cik : String
  pub ticker : Option String
  pub display_name : String
  pub category : String
  pub count : ℕ
  pub forms : List String
  pub latest_at : ℕ

-- Whether the key `${cik}|${category}` is that of the group.
unfoldable pub is_group : String → String → FilingGroup → Bool
is_group cik category g = str_eq cik g.cik && str_eq category g.category

unfoldable pub is_filing : String → String → Filing → Bool
is_filing cik category f = str_eq cik f.cik && str_eq category f.category

-- `f.ticker && f.name ? displayName(f.ticker, f.name) : (f.name ?? f.cik)`; an empty text counts as
-- none in the test.
unfoldable pub name_of : (String → String → String) → Filing → String
name_of display_name f = elim f.name [
  | none ↦ f.cik
  | some name ↦ elim f.ticker [
    | none ↦ name
    | some ticker ↦
        if not (str_eq ticker "") && not (str_eq name "") then display_name ticker name else name
  ]
]

-- The branch of a filing whose group is there.
unfoldable pub joined : Filing → FilingGroup → FilingGroup
joined f g = record g {
  count = g.count + 1;
  forms = if includes f.form g.forms then g.forms else g.forms ++ f.form ∷ [];
  latest_at = if ltb g.latest_at f.discovered_at then f.discovered_at else g.latest_at;
}

unfoldable pub new_group : (String → String → String) → Filing → FilingGroup
unfolding name_of
new_group display_name f = record {
  cik = f.cik;
  ticker = f.ticker;
  display_name = name_of display_name f;
  category = f.category;
  count = 1;
  forms = f.form ∷ [];
  latest_at = f.discovered_at;
}

module _ (display_name : String → String → String) where
  -- One turn of the loop, on the groups in the order in which they were made.
  unfoldable pub add_filing : Filing → List FilingGroup → List FilingGroup
  unfolding is_group joined new_group
  add_filing f [] = new_group display_name f ∷ []
  add_filing f (g ∷ gs) =
      let rest = add_filing f gs in
      if is_group f.cik f.category g then joined f g ∷ gs else g ∷ rest

  unfoldable pub fold_filings : List Filing → List FilingGroup → List FilingGroup
  unfolding add_filing
  fold_filings [] groups = groups
  fold_filings (f ∷ fs) groups = fold_filings fs (add_filing f groups)

-- The stable sort by `latestAt`, newest first.
insert_latest : FilingGroup → List FilingGroup → List FilingGroup
insert_latest g [] = g ∷ []
insert_latest g (h ∷ hs) =
    let rest = insert_latest g hs in if leb h.latest_at g.latest_at then g ∷ h ∷ hs else h ∷ rest

unfoldable pub sort_latest : List FilingGroup → List FilingGroup
unfolding insert_latest
sort_latest [] = []
sort_latest (g ∷ gs) = insert_latest g (sort_latest gs)

unfoldable pub group_filings : (String → String → String) → List Filing → List FilingGroup
unfolding fold_filings sort_latest
group_filings display_name filings = sort_latest (fold_filings display_name filings [])
