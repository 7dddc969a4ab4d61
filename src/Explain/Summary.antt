-- ===== src/Explain/Summary.antt =====
-- The "In short" sentence of a company's page in web/src/lib/explain.ts.
use Prim.Native.String.{◌++◌ as text_append}
use edgar_radar.Prelude.{
  String, Bool, true, false, not, Option, none, some, List, [], ◌∷◌, ◌++◌, map, keep, str_eq,
  if◌then◌else◌,
}

-- `Verdicts`: the classifications of the scores that are there, and the points of the F score.
pub record Verdicts (F : Type 0) : Type 0 where
  pub altman : Option String
  pub piotroski : Option (String × F)
  pub beneish : Option String

pub record Clause : Type 0 where
  pub positive : Bool
  pub main : String
  pub after_but : String

unfoldable pub altman_clause : Option String → List Clause
altman_clause none = []
altman_clause (some c) =
    let zone = if str_eq c "distress" then "high-risk" else "caution" in
    (if str_eq c "safe"
      then record {
        positive = true;
        main = "has low bankruptcy risk";
        after_but = "it has low bankruptcy risk";
      }
      else record {
        positive = false;
        main = text_append "has a bankruptcy-risk score in the " (text_append zone " zone");
        after_but = text_append "its bankruptcy-risk score is in the " (text_append zone " zone");
      })
    ∷ []

unfoldable pub piotroski_clause : {F : Type 0} → (F → String) → Option (String × F) → List Clause
piotroski_clause shown none = []
piotroski_clause shown (some (c, n)) =
    let rest = text_append (shown n) " of 9 financial-strength checks" in
    (if str_eq c "low-quality"
      then record {
        positive = false;
        main = text_append "passes only " rest;
        after_but = text_append "it passes only " rest;
      }
      else record {
        positive = true;
        main = text_append "passes " rest;
        after_but = text_append "it passes " rest;
      })
    ∷ []

unfoldable pub beneish_clause : Option String → List Clause
beneish_clause none = []
beneish_clause (some c) =
    (if str_eq c "likely-manipulator"
      then record {
        positive = false;
        main = "shows accounting patterns worth a closer look";
        after_but = "its accounting shows patterns worth a closer look";
      }
      else record {
        positive = true;
        main = "shows no accounting red flags";
        after_but = "it shows no accounting red flags";
      })
    ∷ []

-- `clauses`
unfoldable pub clauses : {F : Type 0} → (F → String) → Verdicts F → List Clause
unfolding altman_clause piotroski_clause beneish_clause
clauses shown v =
    altman_clause v.altman ++ (piotroski_clause shown v.piotroski ++ beneish_clause v.beneish)

-- `joinWords`: "a", "a and b", "a, b and c".
unfoldable pub join_words : List String → String
join_words [] = ""
join_words (w ∷ []) = w
join_words (v ∷ w ∷ ws) = join_more v w ws
  where
    join_more : String → String → List String → String
    join_more v w [] = text_append v (text_append " and " w)
    join_more v w (x ∷ xs) = text_append v (text_append ", " (join_more w x xs))

-- The two sentences of `summarize`, from the positive and the negative clauses.
unfoldable pub sentence : String → List Clause → List Clause → String
unfolding join_words
sentence name [] bad =
    text_append name
      (text_append " " (text_append (join_words (map (λ (c : Clause). c.main) bad)) "."))
sentence name (g ∷ gs) [] =
    text_append name
      (text_append " " (text_append (join_words (map (λ (c : Clause). c.main) (g ∷ gs))) "."))
sentence name (g ∷ gs) (b ∷ bs) = text_append name (
    text_append " " (
      text_append (join_words (map (λ (c : Clause). c.main) (g ∷ gs))) (
        text_append ", but "
          (text_append (join_words (map (λ (c : Clause). c.after_but) (b ∷ bs))) "."))))

unfoldable pub summary_of : String → List Clause → Option String
unfolding sentence
summary_of name [] = none
summary_of name (c ∷ cs) = some (
    sentence name (keep (λ (x : Clause). x.positive) (c ∷ cs))
      (keep (λ (x : Clause). not x.positive) (c ∷ cs)))

-- `summarize`
unfoldable pub summarize_verdicts :
    {F : Type 0} → (F → String) → String → Verdicts F → Option String
unfolding clauses summary_of
summarize_verdicts shown name v = summary_of name (clauses shown v)
