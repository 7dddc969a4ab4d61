-- ===== src/Sec/Freshest.antt =====
-- Which tag `annualFacts` of src/sec.ts answers with, and when it answers nothing.
use mathlib.Core.Option
use mathlib.Core.List.{foldl}
use edgar_radar.Prelude.{
  ℕ, zero, suc, ◌≤◌, ◌<◌, ◌≡◌, refl, sym, ap, subst, inl, inr, ◌↔◌, true, false, Option, none, some,
  String, List, [], ◌∷◌, ltb, arith, ltb→lt, All, Among, All-impl, All-take, All-Among,
  All-of_Among, Bool-cases, Option-cases, length, length-take, take,
}
use edgar_radar.Prelude.Dicts.{IsIn}
use edgar_radar.Sec.{
  Fact, CompanyFacts, AnnualFactResult, values_of, is_annual, annual_values, newer_end, is_newer,
  better, annual_facts_from, keep_count, annual_facts,
}
use edgar_radar.Sec.Periods.{Restates}
use edgar_radar.Sec.Years.{YearsFall}
use edgar_radar.Sec.Annual.{
  ComesFrom, annual_values-ComesFrom, annual_values-YearsFall, annual_values-Restates,
}

All-seen :
    (P : String → Type 0) (seen tags : List String)
    → All P (foldl (λ s t. t ∷ s) seen tags)
    → All P seen × All P tags
All-seen P seen [] h = (h, tt)
All-seen P seen (t ∷ ts) h = let (a, b) = All-seen P (t ∷ seen) ts h in (a.1, (a.0, b))

All-IsIn : (tags : List String) → All (λ t. IsIn t tags) tags
All-IsIn tags = All-of_Among _ tags (λ t m. m)

module _ {V : Type 0} where
  -- The end of the newest period of a series; 0 for an empty one.
  abbrev pub newest_end : List (Fact V) → ℕ
  newest_end [] = 0
  newest_end (f ∷ _) = f.end

  newer_end-le : (fs gs : List (Fact V)) → newer_end fs gs ≡ true → newest_end gs ≤ newest_end fs
  unfolding newer_end
  newer_end-le [] gs e = absurd (ground arith)
  newer_end-le (f ∷ fs) [] e = absurd (ground arith)
  newer_end-le (f ∷ fs) (g ∷ gs) e = ground arith

  not_newer_end-le :
      (fs gs : List (Fact V))
      → 0 < length fs
      → 0 < length gs
      → newer_end fs gs ≡ false
      → newest_end fs ≤ newest_end gs
  unfolding newer_end
  not_newer_end-le [] gs a b e = elim a [ ]
  not_newer_end-le (f ∷ fs) [] a b e = elim b [ ]
  not_newer_end-le (f ∷ fs) (g ∷ gs) a b e = ground arith

  take-YearsFall :
      (n : ℕ) (last : Option ℕ) (fs : List (Fact V))
      → YearsFall last fs
      → YearsFall last (take n fs)
  take-YearsFall zero last fs _ = tt
  take-YearsFall (suc n) last [] _ = tt
  take-YearsFall (suc n) last (f ∷ fs) (b, h) = (b, take-YearsFall n (some f.fy) fs h)

  -- What the loop over the tags knows of its `best`.
  module _ (data_set : CompanyFacts V) (unit : String) (minimum : ℕ) (latest : Option ℕ) where
    abbrev pub series : String → List (Fact V)
    series tag = annual_values data_set unit latest tag

    abbrev pub IsSeries : AnnualFactResult V → Type 0
    IsSeries r = (r.facts ≡ series r.tag) × (r.unit ≡ unit) × (minimum ≤ length r.facts)

    -- No tag with enough years is fresher than the answer.
    abbrev pub IsFreshest : AnnualFactResult V → List String → Type 0
    IsFreshest r tags =
        All (λ t. minimum ≤ length (series t) → newest_end (series t) ≤ newest_end r.facts) tags

    abbrev Knows : Option (AnnualFactResult V) → List String → List String → Type 0
    Knows none all_tags seen = All (λ t. length (series t) < minimum) seen
    Knows (some r) all_tags seen = IsSeries r × IsIn r.tag all_tags × IsFreshest r seen

    module _ (positive : 0 < minimum) where
      better-Knows :
          (best : Option (AnnualFactResult V)) (tag : String) (all_tags seen : List String)
          → IsIn tag all_tags
          → Knows best all_tags seen
          → Knows (better data_set unit minimum latest best tag) all_tags (tag ∷ seen)
      unfolding better is_newer
      better-Knows none tag all_tags seen m k =
          elim (Bool-cases (ltb (length (series tag)) minimum)) [
            | inl few ↦ rw few (ltb→lt _ _ few, k)
            | inr enough ↦ rw enough (
              (refl, refl, ground arith),
              m,
              (λ _. omega arith, All-impl seen (λ t few le. absurd (omega arith)) k),
            )
          ]
      better-Knows (some r) tag all_tags seen m (is_series, known, freshest) =
          elim (Bool-cases (ltb (length (series tag)) minimum)) [
            | inl few ↦ rw few (
              is_series,
              known,
              (λ le. absurd (absurd_le (length (series tag)) few le), freshest),
            )
            | inr enough ↦ elim (Bool-cases (newer_end (series tag) r.facts)) [
              | inl newer ↦
                  rw (enough, newer)
                    (
                      (refl, refl, ground arith),
                      m,
                      (
                        λ _. omega arith,
                        All-impl seen
                            (λ t old le.
                              omega (arith, old le, newer_end-le (series tag) r.facts newer))
                            freshest,
                      ),
                    )
              | inr older ↦
                  rw (enough, older)
                    (
                      is_series,
                      known,
                      (
                        λ le.
                            not_newer_end-le (series tag) r.facts (omega arith) (omega arith) older,
                        freshest,
                      ),
                    )
            ]
          ]
        where
          absurd_le : (n : ℕ) → ltb n minimum ≡ true → minimum ≤ n → ⊥
          absurd_le n few le = ground arith

      annual_facts_from-Knows :
          (best : Option (AnnualFactResult V)) (tags all_tags seen : List String)
          → All (λ t. IsIn t all_tags) tags
          → Knows best all_tags seen
          → Knows
              (annual_facts_from data_set unit minimum latest best tags)
              all_tags
              (foldl (λ s t. t ∷ s) seen tags)
      unfolding annual_facts_from
      annual_facts_from-Knows best [] all_tags seen _ k = k
      annual_facts_from-Knows best (tag ∷ tags) all_tags seen (m, ms) k =
          annual_facts_from-Knows (better data_set unit minimum latest best tag) tags all_tags
            (tag ∷ seen) ms (better-Knows best tag all_tags seen m k)

      -- The loop ends with the freshest series, or with none where every tag has too few years.
      annual_facts_from-Knows_all :
          (tags : List String)
          → Knows (annual_facts_from data_set unit minimum latest none tags) tags tags
      annual_facts_from-Knows_all tags =
          let k = annual_facts_from-Knows none tags tags [] (All-IsIn tags) tt in
          Knows-seen (annual_facts_from data_set unit minimum latest none tags) tags k
        where
          Knows-seen :
              (best : Option (AnnualFactResult V)) (tags : List String)
              → Knows best tags (foldl (λ s t. t ∷ s) [] tags)
              → Knows best tags tags
          Knows-seen none tags k = (All-seen _ [] tags k).1
          Knows-seen (some r) tags (a, b, c) = (a, b, (All-seen _ [] tags c).1)

module _ {V : Type 0} where
  -- The whole series behind the answer, of which the answer is the beginning.
  whole :
      (data_set : CompanyFacts V) (tags : List String) (unit : String) (count : ℕ)
      (latest : Option ℕ) (minimum : ℕ) (r : AnnualFactResult V)
      → 0 < minimum
      → annual_facts data_set tags unit count latest minimum ≡ some r
      → (b : AnnualFactResult V) × (r ≡ keep_count count b)
        × Knows data_set unit minimum latest (some b) tags tags
  unfolding annual_facts
  whole data_set tags unit count latest minimum r positive e =
      let (b, from, same) = (Option.map-eq-some_iff _ _).0 e in
      (
        b,
        sym same,
        subst (λ o. Knows data_set unit minimum latest o tags tags) from
            (annual_facts_from-Knows_all data_set unit minimum latest positive tags),
      )

  -- With a minimum above 0, an answer of `annualFacts` is a series of annual values reported in
  -- the wanted unit under the answer's tag, which is one of the given ones: at most `count` of
  -- them, each under the fiscal year in which its own period ends, and with fiscal years that fall
  -- strictly.
  pub annual_facts-YearsFall :
      (data_set : CompanyFacts V) (tags : List String) (unit : String) (count : ℕ)
      (latest : Option ℕ) (minimum : ℕ) (r : AnnualFactResult V)
      → 0 < minimum
      → annual_facts data_set tags unit count latest minimum ≡ some r
      → IsIn r.tag tags
        × (r.unit ≡ unit)
        × (length r.facts ≤ count)
        × YearsFall none r.facts
        × All (ComesFrom latest (values_of data_set r.tag unit)) r.facts
  annual_facts-YearsFall data_set tags unit count latest minimum r positive e =
      let (b, same, k) = whole data_set tags unit count latest minimum r positive e in
      let (is_series, known, _) = k in
      let (series_eq, unit_eq, _) = is_series in
      rw same (
        known,
        unit_eq,
        omega (arith, length-take count b.facts),
        take-YearsFall count none b.facts
            (rw series_eq (annual_values-YearsFall data_set unit latest b.tag)),
        All-take _ count b.facts
            (rw series_eq (annual_values-ComesFrom data_set unit latest b.tag)),
      )

  -- With a minimum above 0, each value in an answer of `annualFacts` is the one filed last for its
  -- period: no annual value under the answer's tag with the same period end was filed later.
  pub annual_facts-Restates :
      (data_set : CompanyFacts V) (tags : List String) (unit : String) (count : ℕ)
      (latest : Option ℕ) (minimum : ℕ) (r : AnnualFactResult V) (v : Fact V)
      → 0 < minimum
      → annual_facts data_set tags unit count latest minimum ≡ some r
      → Among v (values_of data_set r.tag unit)
      → is_annual latest v ≡ true
      → All (Restates v) r.facts
  annual_facts-Restates data_set tags unit count latest minimum r v positive e m a =
      let (b, same, k) = whole data_set tags unit count latest minimum r positive e in
      let (is_series, _, _) = k in
      let (series_eq, _, _) = is_series in
      rw same (
        All-take _ count b.facts (
          rw series_eq (
            annual_values-Restates data_set unit latest b.tag v a (
              subst (λ (t : AnnualFactResult V). Among v (values_of data_set t.tag unit)) same m))))

  -- With a minimum and a count above 0, no tag that has the minimum of annual fiscal years reaches
  -- a newer period than the answer of `annualFacts`.
  pub annual_facts-IsFreshest :
      (data_set : CompanyFacts V) (tags : List String) (unit : String) (count : ℕ)
      (latest : Option ℕ) (minimum : ℕ) (r : AnnualFactResult V)
      → 0 < minimum
      → 0 < count
      → annual_facts data_set tags unit count latest minimum ≡ some r
      → IsFreshest data_set unit minimum latest r tags
  annual_facts-IsFreshest data_set tags unit count latest minimum r positive some_count e =
      let (b, same, k) = whole data_set tags unit count latest minimum r positive e in
      let (_, _, freshest) = k in
      rw same (
        All-impl tags
          (λ t fresh enough. omega (arith, fresh enough, newest_take count b.facts some_count))
          freshest)
    where
      newest_take : (n : ℕ) (fs : List (Fact V)) → 0 < n → newest_end (take n fs) ≡ newest_end fs
      newest_take zero fs h = elim h [ ]
      newest_take (suc n) [] h = refl
      newest_take (suc n) (f ∷ fs) h = refl

  few-absurd :
      (data_set : CompanyFacts V) (unit : String) (minimum : ℕ) (latest : Option ℕ)
      (tags : List String) (b : AnnualFactResult V)
      → All (λ t. length (annual_values data_set unit latest t) < minimum) tags
      → Knows data_set unit minimum latest (some b) tags tags
      → ⊥
  few-absurd data_set unit minimum latest tags b few k =
      let (is_series, known, _) = k in
      let (series_eq, _, enough) = is_series in
      let short : length (annual_values data_set unit latest b.tag) < minimum =
        All-Among (λ t. length (annual_values data_set unit latest t) < minimum) tags few known in
      absurd (omega (arith, ap length series_eq))

  -- With a minimum above 0, `annualFacts` answers nothing just when every given tag has fewer
  -- annual fiscal years than the minimum.
  pub annual_facts-none_iff :
      (data_set : CompanyFacts V) (tags : List String) (unit : String) (count : ℕ)
      (latest : Option ℕ) (minimum : ℕ)
      → 0 < minimum
      → (annual_facts data_set tags unit count latest minimum ≡ none)
        ↔ All (λ t. length (annual_values data_set unit latest t) < minimum) tags
  unfolding annual_facts
  annual_facts-none_iff data_set tags unit count latest minimum positive =
      elim (Option-cases (annual_facts_from data_set unit minimum latest none tags)) [
        | inl nothing ↦ rw nothing (
          λ _. subst (λ o. Knows data_set unit minimum latest o tags tags) nothing all,
          λ _. refl,
        )
        | inr (b, found) ↦ rw found (
          λ e. cc,
          λ few. absurd (
              few-absurd data_set unit minimum latest tags b few
                (subst (λ o. Knows data_set unit minimum latest o tags tags) found all)),
        )
      ]
    where
      all :
          Knows data_set unit minimum latest
            (annual_facts_from data_set unit minimum latest none tags)
            tags
            tags
      all = annual_facts_from-Knows_all data_set unit minimum latest positive tags
