-- ===== src/ReadDb/Breaker.antt =====
-- The circuit breaker of src/db.ts: which reads ask the replica, and what each of them replies.
use edgar_radar.Prelude.{
  ℕ, ◌+◌, ◌≤◌, ◌<◌, ◌≡◌, refl, ltb, ltb→lt, lt→ltb, Bool-cases, List, [], ◌∷◌, All, All-impl, Any,
  Any-impl, ◌⊎◌, inl, inr, arith,
}
use edgar_radar.ReadDb.{
  rows, Event, start, replica_answers, replica_fails, Outcome, asks_replica, replies, query,
  queries,
}

module _ {R : Type 0} where
  -- The clock does not go back from one event to the next, from a time on.
  abbrev pub IsTimely : ℕ → List (Event R) → Type 0
  IsTimely t [] = Unit
  IsTimely t (start now _ ∷ es) = (t ≤ now) × IsTimely now es
  IsTimely t (replica_answers _ ∷ es) = IsTimely t es
  IsTimely t (replica_fails now _ _ ∷ es) = (t ≤ now) × IsTimely now es

  -- Given the times at which the replica has failed so far: a read asks it just when the cooldown of
  -- each failure is over, and else settles with the primary's reply; the rows of the replica are the
  -- reply, and where it fails, the primary's.
  abbrev pub IsRouted : ℕ → List ℕ → List (Event R × Outcome R) → Type 0
  IsRouted cooldown failures [] = Unit
  IsRouted cooldown failures ((start now primary, outcome) ∷ rest) =
      (((outcome ≡ asks_replica) × All (λ t. t + cooldown ≤ now) failures)
        ⊎ ((outcome ≡ replies primary) × Any (λ t. now < t + cooldown) failures))
      × IsRouted cooldown failures rest
  IsRouted cooldown failures ((replica_answers x, outcome) ∷ rest) =
      (outcome ≡ replies (rows x)) × IsRouted cooldown failures rest
  IsRouted cooldown failures ((replica_fails now _ primary, outcome) ∷ rest) =
      (outcome ≡ replies primary) × IsRouted cooldown (now ∷ failures) rest

-- The state is the end of the last cooldown, at a time.
abbrev Skips : ℕ → ℕ → ℕ → List ℕ → Type 0
Skips cooldown clock skipped_until failures =
    All (λ t. t + cooldown ≤ skipped_until) failures
    × ((skipped_until ≡ 0) ⊎ Any (λ t. t + cooldown ≡ skipped_until) failures)
    × (skipped_until ≤ clock + cooldown)

over :
    (cooldown now skipped_until : ℕ) (failures : List ℕ)
    → skipped_until ≤ now
    → All (λ t. t + cooldown ≤ skipped_until) failures
    → All (λ t. t + cooldown ≤ now) failures
over cooldown now skipped_until failures le h =
    All-impl failures (λ t (k : t + cooldown ≤ skipped_until). omega arith) h

running :
    (cooldown now skipped_until : ℕ) (failures : List ℕ)
    → now < skipped_until
    → (skipped_until ≡ 0) ⊎ Any (λ t. t + cooldown ≡ skipped_until) failures
    → Any (λ t. now < t + cooldown) failures
running cooldown now skipped_until failures lt (inl e) = absurd (omega arith)
running cooldown now skipped_until failures lt (inr h) =
    Any-impl failures (λ t (k : t + cooldown ≡ skipped_until). omega arith) h

module _ {R : Type 0} (cooldown : ℕ) where
  routed :
      (clock skipped_until : ℕ) (failures : List ℕ) (es : List (Event R))
      → Skips cooldown clock skipped_until failures
      → IsTimely clock es
      → IsRouted cooldown failures (queries cooldown skipped_until es)
  unfolding queries query
  routed clock u failures [] h timely = tt
  routed clock u failures (replica_answers x ∷ es) h timely =
      (refl, routed clock u failures es h timely)
  routed clock u failures (replica_fails now message primary ∷ es) (before, last, le) (on, timely) =
      (
        refl,
        routed now (now + cooldown) (now ∷ failures) es
            (
              (omega arith, over cooldown (now + cooldown) u failures (omega arith) before),
              inr (inl refl),
              omega arith,
            )
            timely,
      )
  routed clock u failures (start now primary ∷ es) (before, last, le) (on, timely) =
      let rest = routed now u failures es (before, last, omega arith) timely in
      elim (Bool-cases (ltb now u)) [
        | inl e ↦ rw e (inr (refl, running cooldown now u failures (ltb→lt now u e) last), rest)
        | inr e ↦
            let late : ¬ (now < u) = λ lt. (let b = lt→ltb now u lt in cc) in
            rw e (inl (refl, over cooldown now u failures (omega arith) before), rest)
      ]

  -- However many reads overlap, if the clock does not go back from one event to the next: a read asks
  -- the replica just when the cooldown of each failure of the replica so far is over, and else gives
  -- whatever the primary replies; the rows that the replica answers are the reply, and where the
  -- replica fails, the reply is whatever the primary says.
  pub queries-IsRouted :
      (es : List (Event R)) → IsTimely 0 es → IsRouted cooldown [] (queries cooldown 0 es)
  queries-IsRouted es timely = routed 0 0 [] es (tt, inl refl, omega arith) timely
