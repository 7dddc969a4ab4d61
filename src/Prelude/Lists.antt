-- ===== src/Prelude/Lists.antt =====
-- Lists measured by native numbers, and predicates on lists by recursion.
use Prim.Native.Nat.{ℕ, zero, suc, ◌+◌, ◌≤◌, min}
use mathlib.Core.Path.{◌≡◌, refl, sym, subst}
use mathlib.Core.Logic.{◌⊎◌, inl, inr}
use mathlib.Core.Bool.{Bool, true, false, ◌&&◌, ◌||◌}
use mathlib.Core.List.{List, [], ◌∷◌, ◌++◌}
use mathlib.Core.Option.{Option, none, some}
use native.Mathlib.Omega.{arith}
use edgar_radar.Prelude.Tests.{if◌then◌else◌, Bool-cases}

module _ {ℓ} {A : Type ℓ} where
  abbrev pub length : List A → ℕ
  length [] = 0
  length (x ∷ xs) = suc (length xs)

  abbrev pub head? : List A → Option A
  head? [] = none
  head? (x ∷ xs) = some x

  abbrev pub take : ℕ → List A → List A
  take zero xs = []
  take (suc n) [] = []
  take (suc n) (x ∷ xs) = x ∷ take n xs

  -- A write out of bounds changes nothing.
  abbrev pub set : List A → ℕ → A → List A
  set [] i v = []
  set (x ∷ xs) zero v = v ∷ xs
  set (x ∷ xs) (suc i) v = x ∷ set xs i v

  abbrev pub all : (A → Bool) → List A → Bool
  all p [] = true
  all p (x ∷ xs) = p x && all p xs

  abbrev pub any : (A → Bool) → List A → Bool
  any p [] = false
  any p (x ∷ xs) = p x || any p xs

  -- `filter` on a Boolean test, as the source's arrays have it.
  abbrev pub keep : (A → Bool) → List A → List A
  keep p [] = []
  keep p (x ∷ xs) = if p x then x ∷ keep p xs else keep p xs

  -- `find`: the first element that passes.
  abbrev pub find : (A → Bool) → List A → Option A
  find p [] = none
  find p (x ∷ xs) = if p x then some x else find p xs

  pub length-append : (xs ys : List A) → length (xs ++ ys) ≡ length xs + length ys
  length-append [] ys = omega arith
  length-append (x ∷ xs) ys = omega (arith, length-append xs ys)

  pub length-take : (n : ℕ) (xs : List A) → length (take n xs) ≡ min n (length xs)
  length-take zero xs = omega arith
  length-take (suc n) [] = omega arith
  length-take (suc n) (x ∷ xs) = omega (arith, length-take n xs)

  pub length-keep : (p : A → Bool) (xs : List A) → length (keep p xs) ≤ length xs
  length-keep p [] = omega arith
  length-keep p (x ∷ xs) = ground (arith, length-keep p xs)

module _ {ℓ κ} {A : Type ℓ} (P : A → Type κ) where
  abbrev pub All : List A → Type κ
  All [] = Unit
  All (x ∷ xs) = P x × All xs

  pub All-append : (xs ys : List A) → All xs → All ys → All (xs ++ ys)
  All-append [] ys _ k = k
  All-append (x ∷ xs) ys (p, h) k = (p, All-append xs ys h k)

module _ {ℓ κ} {A : Type ℓ} {P Q : A → Type κ} where
  pub All-impl : (xs : List A) → ((x : A) → P x → Q x) → All P xs → All Q xs
  All-impl [] f _ = tt
  All-impl (x ∷ xs) f (p, h) = (f x p, All-impl xs f h)

module _ {ℓ} {A : Type ℓ} (P : A → Type 0) where
  abbrev pub Any : List A → Type 0
  Any [] = ⊥
  Any (x ∷ xs) = P x ⊎ Any xs

  pub Any-append_left : (xs ys : List A) → Any xs → Any (xs ++ ys)
  Any-append_left (x ∷ xs) ys (inl p) = inl p
  Any-append_left (x ∷ xs) ys (inr h) = inr (Any-append_left xs ys h)
  Any-append_left [] ys h = elim h [ ]

  pub Any-append_right : (xs ys : List A) → Any ys → Any (xs ++ ys)
  Any-append_right [] ys h = h
  Any-append_right (x ∷ xs) ys h = inr (Any-append_right xs ys h)

  pub Any-append : (xs ys : List A) → Any (xs ++ ys) → Any xs ⊎ Any ys
  Any-append [] ys h = inr h
  Any-append (x ∷ xs) ys (inl p) = inl (inl p)
  Any-append (x ∷ xs) ys (inr h) = elim (Any-append xs ys h) [ inl a ↦ inl (inr a) | inr b ↦ inr b ]

module _ {A : Type 0} where
  -- `x` stands in the list.
  abbrev pub Among : A → List A → Type 0
  Among x xs = Any (λ y. y ≡ x) xs

module _ {κ} {A : Type 0} (P : A → Type κ) where
  pub All-of_Among : (xs : List A) → ((x : A) → Among x xs → P x) → All P xs
  All-of_Among [] f = tt
  All-of_Among (x ∷ xs) f = (f x (inl refl), All-of_Among xs (λ y m. f y (inr m)))

  pub All-Among : (xs : List A) {x : A} → All P xs → Among x xs → P x
  All-Among [] _ m = elim m [ ]
  All-Among (y ∷ xs) (p, h) (inl e) = subst P e p
  All-Among (y ∷ xs) (p, h) (inr m) = All-Among xs h m

  pub All-take : (n : ℕ) (xs : List A) → All P xs → All P (take n xs)
  All-take zero xs _ = tt
  All-take (suc n) [] _ = tt
  All-take (suc n) (x ∷ xs) (p, h) = (p, All-take n xs h)

  pub All-keep : (p : A → Bool) (xs : List A) → All P xs → All P (keep p xs)
  All-keep p [] _ = tt
  All-keep p (x ∷ xs) (q, h) = elim (Bool-cases (p x)) [
    | inl e ↦ rw e (q, All-keep p xs h)
    | inr e ↦ rw e (All-keep p xs h)
  ]

  pub All-keep_self :
      (p : A → Bool) (xs : List A) → ((x : A) → p x ≡ true → P x) → All P (keep p xs)
  All-keep_self p [] f = tt
  All-keep_self p (x ∷ xs) f = elim (Bool-cases (p x)) [
    | inl e ↦ rw e (f x e, All-keep_self p xs f)
    | inr e ↦ rw e (All-keep_self p xs f)
  ]

module _ {A : Type 0} {P Q : A → Type 0} where
  pub Any-impl : (xs : List A) → ((x : A) → P x → Q x) → Any P xs → Any Q xs
  Any-impl (x ∷ xs) f (inl p) = inl (f x p)
  Any-impl (x ∷ xs) f (inr h) = inr (Any-impl xs f h)
  Any-impl [] f h = elim h [ ]

module _ {A : Type 0} where
  pub keep-none :
      (p : A → Bool) (xs : List A) → ((x : A) → Any (λ y. y ≡ x) xs → p x ≡ false) → keep p xs ≡ []
  keep-none p [] f = refl
  keep-none p (x ∷ xs) f = rw (f x (inl refl)) (keep-none p xs (λ y m. f y (inr m)))

  pub Among-keep :
      (p : A → Bool) (xs : List A) {x : A} → Among x xs → p x ≡ true → Among x (keep p xs)
  Among-keep p [] m e = elim m [ ]
  Among-keep p (y ∷ xs) {x} (inl same) e =
      let e' : p y ≡ true = subst (λ z. p z ≡ true) (sym same) e in rw e' (inl same)
  Among-keep p (y ∷ xs) (inr m) e = elim (Bool-cases (p y)) [
    | inl t ↦ rw t (inr (Among-keep p xs m e))
    | inr t ↦ rw t (Among-keep p xs m e)
  ]
