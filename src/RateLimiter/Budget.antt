-- ===== src/RateLimiter/Budget.antt =====
-- How many requests the token bucket of src/rateLimiter.ts admits in a time.
use native.Mathlib.Nat.{add-mul, lt-div-mul-add, mul-le-mul_right}
use edgar_radar.Prelude.{
  ℕ, ◌+◌, ◌-◌, ◌*◌, ◌≤◌, ◌<◌, ◌≡◌, ◌⊎◌, refl, subst, ap, inl, inr, List, [], ◌∷◌, leb, leb→le,
  lt→ltb, le→leb, length, arith, Bool-cases, if-elim, if◌then◌else◌,
}
use edgar_radar.RateLimiter.{
  Limit, TokenBucket, Call, refill, is_short, wait_ms, take_token, acquire, acquire_all,
}

-- What the clock and the timer promise for a call: the clock does not go back, and a sleep lasts as
-- many whole milliseconds as were asked for.
abbrev pub IsTimely : Limit → TokenBucket → Call → Type 0
IsTimely l b c = (b.last_refill ≤ c.now) × (c.now + wait_ms l (refill l c.now b) ≤ c.woke)

abbrev pub AllTimely : Limit → TokenBucket → List Call → Type 0
AllTimely l b [] = Unit
AllTimely l b (c ∷ cs) = IsTimely l b c × AllTimely l (acquire l c b) cs

-- The tokens are at most the capacity, and one of the two parts is 0.
abbrev pub IsLevel : Limit → TokenBucket → Type 0
IsLevel l b = (b.credit ≤ l.full) × ((b.debt ≡ 0) ⊎ (b.credit ≡ 0))

module _ (l : Limit) where
  refill-IsLevel : (now : ℕ) (b : TokenBucket) → IsLevel l (refill l now b)
  unfolding refill
  refill-IsLevel now b =
      elim (Bool-cases (leb b.debt (b.credit + (now - b.last_refill) * l.rate))) [
        | inl e ↦ rw e (omega arith, inl refl)
        | inr e ↦ rw e (omega arith, inr refl)
      ]

  -- No more accrues than the rate times the time.
  refill-le :
      (now : ℕ) (b : TokenBucket)
      → (refill l now b).credit + b.debt
        ≤ b.credit + (now - b.last_refill) * l.rate + (refill l now b).debt
  unfolding refill
  refill-le now b =
      let level = b.credit + (now - b.last_refill) * l.rate in
      elim (Bool-cases (leb b.debt level)) [
        | inl e ↦ rw e (let le = leb→le b.debt level e in omega arith)
        | inr e ↦
            rw e
              (let short : ¬ (b.debt ≤ level) = λ le. (let x = le→leb _ _ le in cc) in omega arith)
      ]

  refill-last : (now : ℕ) (b : TokenBucket) → (refill l now b).last_refill ≡ now
  unfolding refill
  refill-last now b = elim (Bool-cases (leb b.debt (b.credit + (now - b.last_refill) * l.rate))) [
    | inl e ↦ rw e refl
    | inr e ↦ rw e refl
  ]

  take_token-le :
      (b : TokenBucket)
      → (take_token l b).credit + l.unit + b.debt ≡ b.credit + (take_token l b).debt
  unfolding take_token
  take_token-le b = elim (Bool-cases (leb l.unit b.credit)) [
    | inl e ↦ rw e (let le = leb→le l.unit b.credit e in omega arith)
    | inr e ↦
        rw e
          (let short : ¬ (l.unit ≤ b.credit) = λ le. (let x = le→leb _ _ le in cc) in omega arith)
  ]

  take_token-last : (b : TokenBucket) → (take_token l b).last_refill ≡ b.last_refill
  unfolding take_token
  take_token-last b = elim (Bool-cases (leb l.unit b.credit)) [
    | inl e ↦ rw e refl
    | inr e ↦ rw e refl
  ]

  -- Enough accrues while a call sleeps: less than a millisecond's worth is missing after it.
  refill-enough :
      (woke : ℕ) (b : TokenBucket)
      → 0 < l.rate
      → l.unit ≤ l.full
      → b.last_refill + wait_ms l b ≤ woke
      → l.unit + (refill l woke b).debt < (refill l woke b).credit + l.rate
  unfolding refill
  refill-enough woke b r u w =
      let level = b.credit + (woke - b.last_refill) * l.rate in
      let asked : l.unit + b.debt - b.credit < wait_ms l b * l.rate + l.rate = lt-div-mul-add r in
      let slept : wait_ms l b * l.rate ≤ (woke - b.last_refill) * l.rate =
        mul-le-mul_right l.rate (omega arith) in
      elim (Bool-cases (leb b.debt level)) [
        | inl e ↦ rw e (let le = leb→le b.debt level e in omega arith)
        | inr e ↦
            rw e
              (let short : ¬ (b.debt ≤ level) = λ le. (let x = le→leb _ _ le in cc) in omega arith)
      ]

  take_token-debt :
      (b : TokenBucket)
      → 0 < l.rate
      → IsLevel l b
      → l.unit + b.debt < b.credit + l.rate
      → (take_token l b).debt < l.rate
  unfolding take_token
  take_token-debt b r (_, z) h = elim (Bool-cases (leb l.unit b.credit)) [
    | inl e ↦
        rw e (
          let le = leb→le l.unit b.credit e in elim z [ inl n ↦ omega arith | inr n ↦ omega arith ])
    | inr e ↦ rw e (omega arith)
  ]

  -- The bucket as it stands when a call of `acquire` takes its token.
  abbrev ready_for : Call → TokenBucket → TokenBucket
  ready_for c b =
      let ready = refill l c.now b in if is_short l ready then refill l c.woke ready else ready

  ready_for-IsLevel : (c : Call) (b : TokenBucket) → IsLevel l (ready_for c b)
  ready_for-IsLevel c b =
      if-elim (IsLevel l) (is_short l (refill l c.now b)) _ _
        (λ _. refill-IsLevel c.woke (refill l c.now b)) (λ _. refill-IsLevel c.now b)

  ready_for-enough :
      (c : Call) (b : TokenBucket)
      → 0 < l.rate
      → l.unit ≤ l.full
      → IsTimely l b c
      → l.unit + (ready_for c b).debt < (ready_for c b).credit + l.rate
  ready_for-enough c b r u (_, w) =
      if-elim (λ (k : TokenBucket). l.unit + k.debt < k.credit + l.rate)
        (is_short l (refill l c.now b)) _ _
        (λ _. refill-enough c.woke (refill l c.now b) r u (rw (refill-last c.now b) w))
        (λ e.
          (let le : ¬ ((refill l c.now b).credit < l.unit + (refill l c.now b).debt) =
              λ lt. (let x = lt→ltb _ _ lt in cc) in
            omega arith))

  -- Time passes, and no more accrues than the rate times the time.
  ready_for-le :
      (c : Call) (b : TokenBucket)
      → IsTimely l b c
      → (b.last_refill ≤ (ready_for c b).last_refill)
        × ((ready_for c b).credit + b.debt
            ≤ b.credit
              + ((ready_for c b).last_refill - b.last_refill) * l.rate
              + (ready_for c b).debt)
  ready_for-le c b (n, w) =
      let ready = refill l c.now b in
      let first = refill-le c.now b in
      let at = refill-last c.now b in
      if-elim
        (λ (k : TokenBucket).
          (b.last_refill ≤ k.last_refill)
          × (k.credit + b.debt ≤ b.credit + (k.last_refill - b.last_refill) * l.rate + k.debt))
        (is_short l ready) _ _
        (λ _.
          (let second : (refill l c.woke ready).credit + ready.debt
                ≤ ready.credit + (c.woke - c.now) * l.rate + (refill l c.woke ready).debt =
              subst
                (λ t.
                  (refill l c.woke ready).credit + ready.debt
                  ≤ ready.credit + (c.woke - t) * l.rate + (refill l c.woke ready).debt)
                at (refill-le c.woke ready) in
            let split = add-mul (c.now - b.last_refill) (c.woke - c.now) l.rate in
            let whole : (c.woke - b.last_refill) * l.rate
                ≡ (c.now - b.last_refill + (c.woke - c.now)) * l.rate =
              ap (λ t. t * l.rate) (omega arith) in
            rw (refill-last c.woke ready) (omega arith, omega arith)))
        (λ _. rw at (omega arith, first))

  acquire-le :
      (c : Call) (b : TokenBucket)
      → IsTimely l b c
      → (b.last_refill ≤ (acquire l c b).last_refill)
        × ((acquire l c b).credit + l.unit + b.debt
            ≤ b.credit
              + ((acquire l c b).last_refill - b.last_refill) * l.rate
              + (acquire l c b).debt)
  unfolding acquire
  acquire-le c b t =
      let (later, ready) = ready_for-le c b t in
      let taken = take_token-le (ready_for c b) in
      rw (take_token-last (ready_for c b)) (later, omega arith)

  acquire-debt :
      (c : Call) (b : TokenBucket)
      → 0 < l.rate
      → l.unit ≤ l.full
      → IsTimely l b c
      → (acquire l c b).debt < l.rate
  unfolding acquire
  acquire-debt c b r u t =
      take_token-debt (ready_for c b) r (ready_for-IsLevel c b) (ready_for-enough c b r u t)

  acquire_all-le :
      (cs : List Call) (b : TokenBucket)
      → AllTimely l b cs
      → (b.last_refill ≤ (acquire_all l cs b).last_refill)
        × (length cs * l.unit + (acquire_all l cs b).credit + b.debt
            ≤ b.credit
              + ((acquire_all l cs b).last_refill - b.last_refill) * l.rate
              + (acquire_all l cs b).debt)
  unfolding acquire_all
  acquire_all-le [] b _ = (omega arith, omega arith)
  acquire_all-le (c ∷ cs) b (t, ts) =
      let next = acquire l c b in
      let last = acquire_all l cs next in
      let (later, one) = acquire-le c b t in
      let (latest, more) = acquire_all-le cs next ts in
      let split =
        add-mul (next.last_refill - b.last_refill) (last.last_refill - next.last_refill) l.rate in
      let whole : (last.last_refill - b.last_refill) * l.rate
          ≡ (next.last_refill - b.last_refill + (last.last_refill - next.last_refill)) * l.rate =
        ap (λ t. t * l.rate) (omega arith) in
      let count = add-mul 1 (length cs) l.unit in (omega arith, omega arith)

  acquire_all-debt :
      (cs : List Call) (b : TokenBucket)
      → 0 < l.rate
      → l.unit ≤ l.full
      → b.debt < l.rate
      → AllTimely l b cs
      → (acquire_all l cs b).debt < l.rate
  unfolding acquire_all
  acquire_all-debt [] b r u d _ = d
  acquire_all-debt (c ∷ cs) b r u d (t, ts) =
      acquire_all-debt cs (acquire l c b) r u (acquire-debt c b r u t) ts

-- The calls of `acquire` that follow one another from a bucket with a credit of at most its
-- capacity and a debt below a millisecond's tokens, when a millisecond brings some and the capacity
-- is at least a token, the clock does not go back and a sleep lasts the whole milliseconds it asked
-- for: they take fewer tokens than the capacity, what the rate brings in the time from the bucket's
-- last refill to the last call, and one more millisecond at the rate.
pub acquire_all-Budget :
    (l : Limit) (cs : List Call) (b : TokenBucket)
    → 0 < l.rate
    → l.unit ≤ l.full
    → b.credit ≤ l.full
    → b.debt < l.rate
    → AllTimely l b cs
    → length cs * l.unit
      < l.full + ((acquire_all l cs b).last_refill - b.last_refill) * l.rate + l.rate
acquire_all-Budget l cs b r u full d ts =
    let (_, most) = acquire_all-le l cs b ts in
    let low = acquire_all-debt l cs b r u d ts in omega arith
