-- ===== src/Feed/Groups.antt =====
-- The feed of web/src/lib/feed.ts counts each filing once.
use edgar_radar.Prelude.{
  ℕ, min, max, ◌+◌, ◌≤◌, ◌≡◌, refl, sym, ◌∙◌, inl, inr, String, true, List, [], ◌∷◌, leb, arith,
  str_eq, str_eq_iff, Bool-cases, &&-eq_true, if◌then◌else◌,
}
use edgar_radar.Feed.{
  Filing, FilingGroup, is_group, is_filing, joined, new_group, add_filing, fold_filings,
  insert_latest, sort_latest, group_filings,
}

-- The sum of the counts of the groups with a key, and the number of these groups.
abbrev pub counted : String → String → List FilingGroup → ℕ
counted cik category [] = 0
counted cik category (g ∷ gs) =
    (if is_group cik category g then g.count else 0) + counted cik category gs

abbrev pub groups_with : String → String → List FilingGroup → ℕ
groups_with cik category [] = 0
groups_with cik category (g ∷ gs) =
    (if is_group cik category g then 1 else 0) + groups_with cik category gs

abbrev pub filings_with : String → String → List Filing → ℕ
filings_with cik category [] = 0
filings_with cik category (f ∷ fs) =
    (if is_filing cik category f then 1 else 0) + filings_with cik category fs

module _ (cik category : String) where
  insert_latest-counted :
      (g : FilingGroup) (gs : List FilingGroup)
      → counted cik category (insert_latest g gs) ≡ counted cik category (g ∷ gs)
  unfolding insert_latest
  insert_latest-counted g [] = refl
  insert_latest-counted g (h ∷ hs) = elim (Bool-cases (leb h.latest_at g.latest_at)) [
    | inl e ↦ rw e refl
    | inr e ↦ rw e (let ih = insert_latest-counted g hs in omega arith)
  ]

  insert_latest-groups :
      (g : FilingGroup) (gs : List FilingGroup)
      → groups_with cik category (insert_latest g gs) ≡ groups_with cik category (g ∷ gs)
  unfolding insert_latest
  insert_latest-groups g [] = refl
  insert_latest-groups g (h ∷ hs) = elim (Bool-cases (leb h.latest_at g.latest_at)) [
    | inl e ↦ rw e refl
    | inr e ↦ rw e (let ih = insert_latest-groups g hs in omega arith)
  ]

  sort_latest-same :
      (gs : List FilingGroup)
      → (counted cik category (sort_latest gs) ≡ counted cik category gs)
        × (groups_with cik category (sort_latest gs) ≡ groups_with cik category gs)
  unfolding sort_latest
  sort_latest-same [] = (refl, refl)
  sort_latest-same (g ∷ gs) =
      let (sum, number) = sort_latest-same gs in
      let moved = insert_latest-counted g (sort_latest gs) in
      let moved_too = insert_latest-groups g (sort_latest gs) in
      (moved ∙ omega arith, moved_too ∙ omega arith)

  -- The keys are equal texts.
  same_key :
      (f : Filing) (g : FilingGroup)
      → is_group f.cik f.category g ≡ true
      → is_group cik category g ≡ is_filing cik category f
  unfolding is_group is_filing
  same_key f g e =
      let (c, k) = &&-eq_true (str_eq f.cik g.cik) (str_eq f.category g.category) e in
      rw ((str_eq_iff f.cik g.cik).0 c, (str_eq_iff f.category g.category).0 k) refl

module _ (display_name : String → String → String) (cik category : String) where
  new_group-key :
      (f : Filing) → is_group cik category (new_group display_name f) ≡ is_filing cik category f
  unfolding is_group is_filing new_group
  new_group-key f = refl

  joined-key :
      (f : Filing) (g : FilingGroup) → is_group cik category (joined f g) ≡ is_group cik category g
  unfolding is_group joined
  joined-key f g = refl

  add_filing-counted :
      (f : Filing) (gs : List FilingGroup)
      → counted cik category (add_filing display_name f gs)
        ≡ counted cik category gs + (if is_filing cik category f then 1 else 0)
  unfolding add_filing
  add_filing-counted f [] = elim (Bool-cases (is_filing cik category f)) [
    | inl e ↦ rw (new_group-key f, e) refl
    | inr e ↦ rw (new_group-key f, e) refl
  ]
  add_filing-counted f (g ∷ gs) = elim (Bool-cases (is_group f.cik f.category g)) [
    | inl e ↦
        rw (e, joined-key f g, same_key cik category f g e)
          (elim (Bool-cases (is_filing cik category f)) [
            | inl h ↦ rw h (omega arith)
            | inr h ↦ rw h (omega arith)
          ])
    | inr e ↦ rw e (let ih = add_filing-counted f gs in omega arith)
  ]

  -- A filing of the key is a filing of the group with the key.
  other_key :
      (f : Filing) (g : FilingGroup)
      → is_filing cik category f ≡ true
      → is_group f.cik f.category g ≡ is_group cik category g
  unfolding is_group is_filing
  other_key f g e =
      let (c, k) = &&-eq_true (str_eq cik f.cik) (str_eq category f.category) e in
      rw ((str_eq_iff cik f.cik).0 c, (str_eq_iff category f.category).0 k) refl

  add_filing-groups :
      (f : Filing) (gs : List FilingGroup)
      → groups_with cik category (add_filing display_name f gs) ≡ (
          if is_filing cik category f
          then max 1 (groups_with cik category gs)
          else groups_with cik category gs)
  unfolding add_filing
  add_filing-groups f [] = elim (Bool-cases (is_filing cik category f)) [
    | inl e ↦ rw (new_group-key f, e) refl
    | inr e ↦ rw (new_group-key f, e) refl
  ]
  add_filing-groups f (g ∷ gs) = elim (Bool-cases (is_group f.cik f.category g)) [
    | inl e ↦
        rw (e, joined-key f g, same_key cik category f g e)
          (elim (Bool-cases (is_filing cik category f)) [
            | inl h ↦ rw h (omega arith)
            | inr h ↦ rw h (omega arith)
          ])
    | inr e ↦ elim (Bool-cases (is_filing cik category f)) [
      | inl h ↦
          rw (e, h, sym (other_key f g h) ∙ e)
            (let ih = add_filing-groups f gs in
              let ih' : groups_with cik category (add_filing display_name f gs)
                  ≡ max 1 (groups_with cik category gs) =
                (rw h at ih) in
              omega arith)
      | inr h ↦
          rw (e, h)
            (let ih = add_filing-groups f gs in
              let ih' : groups_with cik category (add_filing display_name f gs)
                  ≡ groups_with cik category gs =
                (rw h at ih) in
              omega arith)
    ]
  ]

  fold_filings-counted :
      (fs : List Filing) (gs : List FilingGroup)
      → counted cik category (fold_filings display_name fs gs)
        ≡ counted cik category gs + filings_with cik category fs
  unfolding fold_filings
  fold_filings-counted [] gs = omega arith
  fold_filings-counted (f ∷ fs) gs =
      fold_filings-counted fs (add_filing display_name f gs)
      ∙ (let step = add_filing-counted f gs in omega arith)

  fold_filings-groups :
      (fs : List Filing) (gs : List FilingGroup)
      → groups_with cik category gs ≤ 1
      → groups_with cik category (fold_filings display_name fs gs)
        ≡ max (groups_with cik category gs) (min 1 (filings_with cik category fs))
  unfolding fold_filings
  fold_filings-groups [] gs few = omega arith
  fold_filings-groups (f ∷ fs) gs few = elim (Bool-cases (is_filing cik category f)) [
    | inl e ↦
        let step : groups_with cik category (add_filing display_name f gs)
            ≡ max 1 (groups_with cik category gs) =
          (rw e at (add_filing-groups f gs)) in
        let ih = fold_filings-groups fs (add_filing display_name f gs) (omega arith) in
        rw e (omega arith)
    | inr e ↦
        let step : groups_with cik category (add_filing display_name f gs)
            ≡ groups_with cik category gs =
          (rw e at (add_filing-groups f gs)) in
        let ih = fold_filings-groups fs (add_filing display_name f gs) (omega arith) in
        rw e (omega arith)
  ]

  -- For each company and kind of filing, `groupFilings` gives one group if the feed has such filings
  -- and none if it has none, and the group counts exactly these filings.
  pub group_filings-counted :
      (filings : List Filing)
      → (counted cik category (group_filings display_name filings)
          ≡ filings_with cik category filings)
        × (groups_with cik category (group_filings display_name filings)
            ≡ min 1 (filings_with cik category filings))
  unfolding group_filings
  group_filings-counted filings =
      let groups = fold_filings display_name filings [] in
      let (sum, number) = sort_latest-same cik category groups in
      let all_counted = fold_filings-counted filings [] in
      let grouped = fold_filings-groups filings [] (omega arith) in
      (sum ∙ all_counted ∙ omega arith, number ∙ grouped ∙ omega arith)
