-- ===== src/Ratings.antt =====
-- web/src/lib/ratings.ts: the chips of the company list.
pub mod Concerns
use Prim.Native.String.{◌++◌ as text_append}
use edgar_radar.Prelude.{
  ℕ, ◌+◌, String, Bool, true, false, not, ◌&&◌, ◌||◌, Option, none, some, List, [], ◌∷◌, map, keep,
  length, ◌==◌, str_eq, if◌then◌else◌,
}
use edgar_radar.Scoring.Num.{Num}
use edgar_radar.Explain.{Tone, good, serious, Band, Label, Numerals, altman_band, piotroski_band}

-- A `RatingSummary` with the status 'ok'; any other, or none, is `none`.
pub record Rating (F : Type 0) : Type 0 where
  pub value : F
  pub classification : String

pub record Ratings (F : Type 0) : Type 0 where
  pub altman_z : Option (Rating F)
  pub piotroski_f : Option (Rating F)
  pub beneish_m : Option (Rating F)

pub data ScoreName : Type 0 where
  altman piotroski beneish : ScoreName

pub record Chip : Type 0 where
  pub label : String
  pub tone : Tone
  pub value : String

abbrev pub score_names : List ScoreName
score_names = altman ∷ piotroski ∷ beneish ∷ []

-- `coverage`'s result.
pub record ScoreCoverage : Type 0 where
  pub total : ℕ
  pub all_three : ℕ
  pub no_score : ℕ

module _ {F : Type 0} where
  -- `company.ratings[s]`
  unfoldable pub rating_of : Ratings F → ScoreName → Option (Rating F)
  rating_of r altman = r.altman_z
  rating_of r piotroski = r.piotroski_f
  rating_of r beneish = r.beneish_m

  abbrev pub is_ok : Option (Rating F) → Bool
  is_ok none = false
  is_ok (some r) = true

  -- `scoredCount`
  unfoldable pub scored_count : Ratings F → ℕ
  unfolding rating_of
  scored_count r = length (keep (λ s. is_ok (rating_of r s)) score_names)

  abbrev pub has_class : (String → Bool) → Option (Rating F) → Bool
  has_class test none = false
  has_class test (some r) = test r.classification

  -- `hasConcern`
  unfoldable pub has_concern : Ratings F → Bool
  has_concern r =
      has_class (λ c. not (str_eq c "safe")) r.altman_z
      || has_class (λ c. str_eq c "low-quality") r.piotroski_f
      || has_class (λ c. str_eq c "likely-manipulator") r.beneish_m

  -- `coverage`
  unfoldable pub coverage : List (Ratings F) → ScoreCoverage
  unfolding scored_count
  coverage companies =
      let counts = map scored_count companies in
      record {
        total = length companies;
        all_three = length (keep (λ n. n == 3) counts);
        no_score = length (keep (λ n. n == 0) counts);
      }

module _ (N : Num) (numerals : Numerals N) where
  unfoldable pub chip_of : ScoreName → Rating N.Number → Chip
  chip_of altman r =
      let band = altman_band N numerals r.classification r.value in
      record { label = band.label; tone = band.tone; value = numerals.format_score r.value }
  chip_of piotroski r =
      let band = piotroski_band r.classification in
      record {
        label = band.label;
        tone = band.tone;
        value = text_append (numerals.shown r.value) "/9";
      }
  chip_of beneish r =
      if str_eq r.classification "likely-manipulator"
      then record { label = "Look closer"; tone = serious; value = numerals.format_score r.value }
      else record { label = "None found"; tone = good; value = numerals.format_score r.value }

  -- `ratingChip`
  unfoldable pub rating_chip : ScoreName → Option (Rating N.Number) → Option Chip
  unfolding chip_of
  rating_chip s none = none
  rating_chip s (some r) = some (chip_of s r)
