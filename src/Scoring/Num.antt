-- ===== src/Scoring/Num.antt =====
-- The operations on JavaScript's floating-point numbers that src/scoring.ts uses. They are a
-- parameter of the model: nothing is assumed of them.
use Prim.Native.Nat.{ℕ}
use mathlib.Core.Bool.{Bool}

pub record Num : Type 1 where
  pub Number : Type 0
  pub add : Number → Number → Number
  pub sub : Number → Number → Number
  pub mul : Number → Number → Number
  pub div : Number → Number → Number
  -- `a < b` and `a <= b`
  pub lt : Number → Number → Bool
  pub le : Number → Number → Bool
  -- `x === 0`
  pub is_zero : Number → Bool
  -- the literal that is the first number over ten to the power of the second, and its negation
  pub lit : ℕ → ℕ → Number
  pub neg_lit : ℕ → ℕ → Number
  -- `Number(x.toFixed(k))`
  pub to_fixed : ℕ → Number → Number
