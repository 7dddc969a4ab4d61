-- ===== src/Explain.antt =====
-- web/src/lib/explain.ts: the bands of the scores and the sentences of a company's page. Numbers are of
-- the record `Num`; what else the code uses of JavaScript's numbers is the record `Numerals`.
pub mod Summary
use Prim.Native.String.{◌++◌ as text_append}
use edgar_radar.Prelude.{
  ℕ, String, Bool, true, false, not, ◌||◌, Option, none, some, List, [], ◌∷◌, ◌++◌, map, keep,
  str_eq, if◌then◌else◌,
}
use edgar_radar.Prelude.Dicts.{includes}
use edgar_radar.Scoring.Num.{Num}

pub record Numerals (N : Num) : Type 0 where
  pub abs : N.Number → N.Number
  pub neg : N.Number → N.Number
  pub math_min : N.Number → N.Number → N.Number
  pub math_max : N.Number → N.Number → N.Number
  -- `x.toFixed(k)`, `formatScore(x)` and a template's `${x}`
  pub fixed : ℕ → N.Number → String
  pub format_score : N.Number → String
  pub shown : N.Number → String

pub data Tone : Type 0 where
  good neutral warning serious critical : Tone

pub record Band (F : Type 0) : Type 0 where
  pub label : String
  pub tone : Tone
  pub position : F

-- A band without its place on the gauge.
pub record Label : Type 0 where
  pub label : String
  pub tone : Tone

module _ (N : Num) (numerals : Numerals N) where
  clamp01 : N.Number → N.Number
  clamp01 x = numerals.math_min (N.lit 1 0) (numerals.math_max (N.lit 0 0) x)

  money_text : N.Number → N.Number → N.Number → String → ℕ → String
  money_text value abs divisor suffix digits =
      text_append (if N.lt value (N.lit 0 0) then "−" else "")
        (text_append "$" (text_append (numerals.fixed digits (N.div abs divisor)) suffix))

  -- `formatMoney`
  unfoldable pub format_money : N.Number → String
  unfolding money_text
  format_money value =
      let abs = numerals.abs value in
      if N.le (N.lit 1_000_000_000_000 0) abs
      then money_text value abs (N.lit 1_000_000_000_000 0) "T" 1
      else if N.le (N.lit 1_000_000_000 0) abs
      then money_text value abs (N.lit 1_000_000_000 0) "B" 1
      else if N.le (N.lit 1_000_000 0) abs
      then money_text value abs (N.lit 1_000_000 0) "M" 1
      else if N.le (N.lit 1_000 0) abs
      then money_text value abs (N.lit 1_000 0) "K" 0
      else money_text value abs (N.lit 1 0) "" 0

  -- `altmanBand`, on the gauge from 0 to 4.
  unfoldable pub altman_band : String → N.Number → Band N.Number
  unfolding clamp01
  altman_band classification value =
      let position = clamp01 (N.div (N.sub value (N.lit 0 0)) (N.sub (N.lit 4 0) (N.lit 0 0))) in
      if str_eq classification "safe"
      then record { label = "Safe"; tone = good; position = position }
      else if str_eq classification "distress"
      then record { label = "High risk"; tone = critical; position = position }
      else record { label = "Caution"; tone = warning; position = position }

  -- `beneishBand`, on the gauge from -4 to -1.
  unfoldable pub beneish_band : String → N.Number → Band N.Number
  unfolding clamp01
  beneish_band classification value =
      let position =
        clamp01 (N.div (N.sub value (N.neg_lit 4 0)) (N.sub (N.neg_lit 1 0) (N.neg_lit 4 0))) in
      if str_eq classification "likely-manipulator"
      then record { label = "Worth a closer look"; tone = serious; position = position }
      else record { label = "None found"; tone = good; position = position }

  -- `altmanReasons`
  unfoldable pub altman_reasons : (working_capital retained_earnings ebit : N.Number) → List String
  unfolding format_money
  altman_reasons capital earnings ebit =
      (if N.lt capital (N.lit 0 0)
        then text_append "Short-term debts exceed short-term assets by "
            (text_append (format_money (numerals.neg capital)) ".")
        else text_append "Short-term assets exceed short-term debts by "
            (text_append (format_money capital) "."))
      ∷ (if N.lt earnings (N.lit 0 0)
          then text_append "Retained earnings are " (
              text_append (format_money earnings)
                " - usually years of buybacks or dividends, or past losses.")
          else text_append "It has kept "
              (text_append (format_money earnings) " of past profits in the business."))
      ∷ (if N.lt ebit (N.lit 0 0)
          then text_append "An operating loss of "
              (text_append (format_money (numerals.neg ebit)) " pulls the score down.")
          else text_append "Operating profit of "
              (text_append (format_money ebit) " pulls the score up."))
      ∷ []

-- `piotroskiBand`
unfoldable pub piotroski_band : String → Label
piotroski_band classification =
    if str_eq classification "high-quality"
    then record { label = "Strong"; tone = good }
    else if str_eq classification "low-quality"
    then record { label = "Weak"; tone = critical }
    else record { label = "Moderate"; tone = neutral }

abbrev pub piotroski_labels : List (String × String)
piotroski_labels =
    ("positiveROA", "Profitable")
    ∷ ("positiveCFO", "Business generates cash")
    ∷ ("cfoExceedsNetIncome", "Cash beats reported profit")
    ∷ ("decreasingLeverage", "Less long-term debt")
    ∷ ("noNewShares", "No new shares issued")
    ∷ ("improvingGrossMargin", "Gross margin improving")
    ∷ ("improvingROA", "Return on assets improving")
    ∷ ("improvingCurrentRatio", "Short-term cushion improving")
    ∷ ("improvingAssetTurnover", "Sales per dollar of assets improving")
    ∷ []

pub record Check : Type 0 where
  pub label : String
  pub passed : Bool

-- `piotroskiChecks`, of the signals that are true.
unfoldable pub piotroski_checks : (String → Bool) → List Check
piotroski_checks signals =
    let checks =
      map (λ (p : String × String). record { label = p.1; passed = signals p.0 })
        piotroski_labels in
    keep (λ (c : Check). c.passed) checks ++ keep (λ (c : Check). not c.passed) checks

-- `derivedNotes`
unfoldable pub derived_notes : List String → Bool → List String
derived_notes derived liabilities_derived =
    (if includes "grossProfit" derived
      then "Gross profit is revenue minus cost of revenue - the company doesn't report it directly."
        ∷ []
      else [])
    ++ (if includes "sga" derived
        then "Overhead (SG&A) is selling and marketing plus general and administrative costs." ∷ []
        else [])
    ++ (if liabilities_derived || includes "liabilities" derived
        then "Total liabilities are total assets minus shareholders' equity." ∷ []
        else [])
