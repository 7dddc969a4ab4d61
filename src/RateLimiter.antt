-- ===== src/RateLimiter.antt =====
-- src/rateLimiter.ts: the token bucket. Numbers are exact: a token is `unit` units, and `rate` units
-- accrue in a millisecond, so that the source's `ratePerSecond` is 1000 * rate / unit; `full` is the
-- capacity in units. The tokens are `credit - debt`, of which one is 0: they fall below none where
-- the timer wakes early. The promise queue of `acquire` lets one call run at a time.
pub mod Budget
use edgar_radar.Prelude.{
  ℕ, ◌+◌, ◌-◌, ◌*◌, ◌/◌, ◌≤◌, Bool, List, [], ◌∷◌, ltb, leb, min, if◌then◌else◌,
}

pub record Limit : Type 0 where
  pub unit : ℕ
  pub rate : ℕ
  pub full : ℕ

-- `TokenBucket`
pub record TokenBucket : Type 0 where
  pub credit : ℕ
  pub debt : ℕ
  pub last_refill : ℕ

-- A call of `acquire`: the clock when it is its turn, and the clock after its sleep, if it sleeps.
pub record Call : Type 0 where
  pub now : ℕ
  pub woke : ℕ

-- The constructor.
unfoldable pub new_bucket : Limit → ℕ → TokenBucket
new_bucket l now = record { credit = l.full; debt = 0; last_refill = now }

unfoldable pub refill : Limit → ℕ → TokenBucket → TokenBucket
refill l now b =
    let level = b.credit + (now - b.last_refill) * l.rate in
    if leb b.debt level
    then record { credit = min l.full (level - b.debt); debt = 0; last_refill = now }
    else record { credit = 0; debt = b.debt - level; last_refill = now }

-- `this.tokens < 1`
abbrev pub is_short : Limit → TokenBucket → Bool
is_short l b = ltb b.credit (l.unit + b.debt)

-- `waitMs`, as `setTimeout` takes it: without its fraction.
abbrev pub wait_ms : Limit → TokenBucket → ℕ
wait_ms l b = (l.unit + b.debt - b.credit) / l.rate

-- `this.tokens -= 1`
unfoldable pub take_token : Limit → TokenBucket → TokenBucket
take_token l b =
    if leb l.unit b.credit
    then record b { credit = b.credit - l.unit }
    else record b { credit = 0; debt = b.debt + (l.unit - b.credit) }

unfoldable pub acquire : Limit → Call → TokenBucket → TokenBucket
unfolding refill take_token
acquire l c b =
    let ready = refill l c.now b in
    take_token l (if is_short l ready then refill l c.woke ready else ready)

-- Calls one after the other.
unfoldable pub acquire_all : Limit → List Call → TokenBucket → TokenBucket
unfolding acquire
acquire_all l [] b = b
acquire_all l (c ∷ cs) b = acquire_all l cs (acquire l c b)
