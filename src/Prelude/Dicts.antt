-- ===== src/Prelude/Dicts.antt =====
-- Tables keyed by a text, as association lists: JavaScript's `Map`, a record used as a dictionary,
-- and a database table with one text for its key.
use Prim.Native.String.{String}
use mathlib.Core.Path.{◌≡◌, refl}
use mathlib.Core.Bool.{Bool, true, false, ◌||◌}
use mathlib.Core.Option.{Option, none, some}
use mathlib.Core.List.{List, [], ◌∷◌, ◌++◌}
use native.Mathlib.Omega.{arith}
use text.Mathlib.Text.{◌==◌}
use mathlib.Core.Logic.{◌≢◌}
use text.Mathlib.TextEquality.{eq_iff}
use text.Mathlib.TextPositions.{eq_refl}
use edgar_radar.Prelude.Tests.{if◌then◌else◌}
use edgar_radar.Prelude.Lists.{Any}

-- The entries in the order in which their keys came.
abbrev pub Entries {ℓ} : Type ℓ → Type ℓ
Entries V = List (String × V)

module _ {ℓ} {V : Type ℓ} where
  -- A key that is there keeps its place, a new one goes last.
  unfoldable pub insert : String → V → Entries V → Entries V
  insert key new [] = (key, new) ∷ []
  insert key new ((at, old) ∷ entries) =
      let rest = insert key new entries in
      if at == key then (key, new) ∷ entries else (at, old) ∷ rest

  unfoldable pub lookup : String → Entries V → Option V
  lookup key [] = none
  lookup key ((at, here) ∷ entries) =
      let there = lookup key entries in if at == key then some here else there

  -- Only the key that is written is read differently afterwards.
  pub lookup-insert :
      (written read : String) (new : V) (entries : Entries V)
      → lookup read (insert written new entries)
        ≡ (if written == read then some new else lookup read entries)
  unfolding insert lookup
  lookup-insert written read new [] = refl
  lookup-insert written read new ((at, old) ∷ entries) =
      let ih = lookup-insert written read new entries in
      ground (arith, eq_iff at written, eq_iff at read, eq_iff written read)

  pub lookup-insert_self :
      (key : String) (new : V) (entries : Entries V)
      → lookup key (insert key new entries) ≡ some new
  lookup-insert_self key new entries = rw (lookup-insert, eq_refl key) refl

  pub lookup-insert_ne :
      (written read : String) (new : V) (entries : Entries V)
      → written ≢ read
      → lookup read (insert written new entries) ≡ lookup read entries
  lookup-insert_ne written read new entries ne =
      rw lookup-insert (ground (arith, eq_iff written read))

-- `includes`: whether a list of texts holds a text.
unfoldable pub includes : String → List String → Bool
includes k [] = false
includes k (j ∷ js) = j == k || includes k js

abbrev pub IsIn : String → List String → Type 0
IsIn k js = Any (λ j. j ≡ k) js

pub includes→IsIn : (k : String) (js : List String) → includes k js ≡ true → IsIn k js
unfolding includes
includes→IsIn k [] h = absurd (grind arith)
includes→IsIn k (j ∷ js) h = ground (arith, eq_iff j k, includes→IsIn k js)

pub IsIn→includes : (k : String) (js : List String) → IsIn k js → includes k js ≡ true
unfolding includes
IsIn→includes k [] h = elim h [ ]
IsIn→includes k (j ∷ js) h = ground (arith, eq_iff j k, IsIn→includes k js)

-- No text stands twice.
abbrev pub IsDistinct : List String → Type 0
IsDistinct [] = Unit
IsDistinct (j ∷ js) = (includes j js ≡ false) × IsDistinct js

pub includes-concat :
    (k y : String) (xs : List String) → includes k (xs ++ y ∷ []) ≡ (includes k xs || y == k)
unfolding includes
includes-concat k y [] = ground arith
includes-concat k y (x ∷ xs) = ground (arith, includes-concat k y xs)

pub IsDistinct-concat :
    (xs : List String) (y : String)
    → IsDistinct xs
    → includes y xs ≡ false
    → IsDistinct (xs ++ y ∷ [])
unfolding includes
IsDistinct-concat [] y _ _ = (refl, tt)
IsDistinct-concat (x ∷ xs) y (a, d) e = (
  rw (includes-concat x y xs) (ground (arith, eq_iff x y, eq_iff y x)),
  IsDistinct-concat xs y d (ground arith),
)
