-- ===== src/Scoring/Piotroski/Points.antt =====
-- The points of the Piotroski F-Score of src/scoring.ts, and their reading.
use edgar_radar.Prelude.{
  ℕ, ◌+◌, ◌≤◌, ◌≡◌, ◌↔◌, refl, inl, inr, Bool, true, false, not, List, [], ◌∷◌, length, keep, leb,
  leb→le, le→leb, Bool-cases, arith,
}
use edgar_radar.Scoring.Piotroski.{Signals, values, points, quality}

-- The signals that a company misses.
abbrev pub missed : Signals → ℕ
missed s = length (keep not (values s))

length-keep-not : (bs : List Bool) → length (keep (λ b. b) bs) + length (keep not bs) ≡ length bs
length-keep-not [] = refl
length-keep-not (true ∷ bs) = let ih = length-keep-not bs in omega arith
length-keep-not (false ∷ bs) = let ih = length-keep-not bs in omega arith

points-missed : (s : Signals) → points s + missed s ≡ 9
unfolding points
points-missed s = length-keep-not (values s)

quality-high : (n : ℕ) → (quality n ≡ "high-quality") ↔ (8 ≤ n)
unfolding quality
quality-high n = elim (Bool-cases (leb 8 n)) [
  | inl e ↦ rw e (λ g. leb→le 8 n e, λ _. refl)
  | inr e ↦ elim (Bool-cases (leb n 2)) [
    | inl f ↦ rw (e, f) (λ g. absurd (cc), λ le. (let big = le→leb 8 n le in absurd (cc)))
    | inr f ↦ rw (e, f) (λ g. absurd (cc), λ le. (let big = le→leb 8 n le in absurd (cc)))
  ]
]

quality-low : (n : ℕ) → (quality n ≡ "low-quality") ↔ (n ≤ 2)
unfolding quality
quality-low n = elim (Bool-cases (leb 8 n)) [
  | inl e ↦ rw e (λ g. absurd (cc), λ le. absurd (let big = leb→le 8 n e in omega arith))
  | inr e ↦ elim (Bool-cases (leb n 2)) [
    | inl f ↦ rw (e, f) (λ _. leb→le n 2 f, λ _. refl)
    | inr f ↦ rw (e, f) (λ g. absurd (cc), λ le. (let small = le→leb n 2 le in absurd (cc)))
  ]
]

-- The score is nine less the signals a company misses; it is read as high quality just when at most
-- one signal is missed, and as low quality just when at least seven are.
pub quality-points :
    (s : Signals)
    → (points s + missed s ≡ 9)
      × ((quality (points s) ≡ "high-quality") ↔ (missed s ≤ 1))
      × ((quality (points s) ≡ "low-quality") ↔ (7 ≤ missed s))
quality-points s =
    let sum = points-missed s in
    let (to_high, of_high) = quality-high (points s) in
    let (to_low, of_low) = quality-low (points s) in
    (
      sum,
      (λ e. (let big = to_high e in omega arith), λ few. of_high (omega arith)),
      (λ e. (let small = to_low e in omega arith), λ many. of_low (omega arith)),
    )
