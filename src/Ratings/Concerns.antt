-- ===== src/Ratings/Concerns.antt =====
-- That the filter and the chips of web/src/lib/ratings.ts agree.
use edgar_radar.Prelude.{
  ◌≡◌, refl, inl, inr, Bool, true, false, not, ◌||◌, Option, none, some, Bool-cases, str_eq,
  str_eq_iff,
}
use edgar_radar.Scoring.Num.{Num}
use edgar_radar.Explain.{
  Tone, good, neutral, warning, serious, critical, Numerals, altman_band, piotroski_band,
}
use edgar_radar.Ratings.{
  Rating, Ratings, altman, piotroski, beneish, Chip, rating_of, has_class, has_concern, chip_of,
  rating_chip,
}

abbrev pub is_bad : Tone → Bool
is_bad good = false
is_bad neutral = false
is_bad warning = true
is_bad serious = true
is_bad critical = true

abbrev pub is_bad_chip : Option Chip → Bool
is_bad_chip none = false
is_bad_chip (some c) = is_bad c.tone

module _ (N : Num) (numerals : Numerals N) where
  altman_chip :
      (r : Option (Rating N.Number))
      → is_bad_chip (rating_chip N numerals altman r) ≡ has_class (λ c. not (str_eq c "safe")) r
  unfolding rating_chip chip_of altman_band
  altman_chip none = refl
  altman_chip (some r) = elim (Bool-cases (str_eq r.classification "safe")) [
    | inl e ↦ rw e refl
    | inr e ↦ elim (Bool-cases (str_eq r.classification "distress")) [
      | inl f ↦ rw (e, f) refl
      | inr f ↦ rw (e, f) refl
    ]
  ]

  piotroski_chip :
      (r : Option (Rating N.Number))
      → is_bad_chip (rating_chip N numerals piotroski r) ≡ has_class (λ c. str_eq c "low-quality") r
  unfolding rating_chip chip_of piotroski_band
  piotroski_chip none = refl
  piotroski_chip (some r) = elim (Bool-cases (str_eq r.classification "high-quality")) [
    | inl e ↦ rw ((str_eq_iff r.classification "high-quality").0 e) refl
    | inr e ↦ elim (Bool-cases (str_eq r.classification "low-quality")) [
      | inl f ↦ rw (e, f) refl
      | inr f ↦ rw (e, f) refl
    ]
  ]

  beneish_chip :
      (r : Option (Rating N.Number))
      → is_bad_chip (rating_chip N numerals beneish r)
        ≡ has_class (λ c. str_eq c "likely-manipulator") r
  unfolding rating_chip chip_of
  beneish_chip none = refl
  beneish_chip (some r) = elim (Bool-cases (str_eq r.classification "likely-manipulator")) [
    | inl e ↦ rw e refl
    | inr e ↦ rw e refl
  ]

  -- The list's filter keeps a company just when one of its three chips has a tone that warns.
  pub has_concern-is_bad_chip :
      (r : Ratings N.Number)
      → has_concern r ≡ (
          is_bad_chip (rating_chip N numerals altman (rating_of r altman))
          || is_bad_chip (rating_chip N numerals piotroski (rating_of r piotroski))
          || is_bad_chip (rating_chip N numerals beneish (rating_of r beneish)))
  unfolding has_concern rating_of
  has_concern-is_bad_chip r =
      rw (altman_chip r.altman_z, piotroski_chip r.piotroski_f, beneish_chip r.beneish_m) refl
