-- ===== src/Tests/Caching.antt =====
-- The response cache over a small server, and the rate limiter at one request per millisecond.
use edgar_radar.Prelude.{
  ℕ, ◌+◌, ◌-◌, ◌*◌, ◌<◌, ◌≤◌, ◌≡◌, ◌⊎◌, refl, inl, inr, String, Option, none, some, List, [], ◌∷◌,
  ◌≢◌, ap, ltb, ltb→lt, lt→ltb, str_eq, str_eq_iff, str_eq_refl, Bool-cases, if◌then◌else◌, length,
  arith,
}
use edgar_radar.Prelude.Dicts.{includes, IsIn→includes, includes→IsIn}
use edgar_radar.RateLimiter.{Limit, TokenBucket, Call, refill, take_token, acquire, acquire_all}
use edgar_radar.RateLimiter.Budget.{acquire_all-Budget}
use edgar_radar.Cache.{
  resolved, rejected, CacheClient, default_options, Cache, opened, cache_get, cache_set,
  cache_invalidate, hit, send_if_cached, send_and_cache, Response,
}
use edgar_radar.Cache.Redis.{Redis, IsRoomy}
use edgar_radar.Cache.Warnings.{
  Use, get, set, fire, invalidate, use_all, IsSpaced, use_all-IsSpaced,
}
use edgar_radar.Cache.Hits.{send_if_cached-send_and_cache}
use edgar_radar.Cache.Live.{Live, write, read, answer, Reach, here, later}
use edgar_radar.Cache.Freshness.{cache_get-IsFresh}

caching : Unit {0}
unfolding acquire acquire_all refill take_token
caching = tt

-- One token, and a tenth of one in a millisecond.
abbrev slow : Limit
slow = record { unit = 10; rate = 1; full = 10 }

abbrev bucket : TokenBucket
bucket = record { credit = 10; debt = 0; last_refill = 100 }

abbrev calls : List Call
calls =
    record { now = 100; woke = 100 }
    ∷ record { now = 101; woke = 110 }
    ∷ record { now = 110; woke = 121 }
    ∷ []

acquire_all-Budget_example :
    length calls * slow.unit
    < slow.full
      + ((acquire_all slow calls bucket).last_refill - bucket.last_refill) * slow.rate
      + slow.rate
unfolding acquire refill take_token
acquire_all-Budget_example =
    acquire_all-Budget slow calls bucket (omega arith) (omega arith) (omega arith) (omega arith)
      ((omega arith, omega arith), ((omega arith, omega arith), ((omega arith, omega arith), tt)))

-- A server: the value of each key and when it expires.
abbrev Slots : Type 0
Slots = String → Option (String × ℕ)

abbrev live : ℕ → Option (String × ℕ) → Option String
live now none = none
live now (some (v, expiry)) = if ltb now expiry then some v else none

abbrev holds : ℕ → String → Slots → Option String
holds now key s = live now (s key)

abbrev set_slot : String → String → ℕ → Slots → Slots
set_slot key body expiry s = λ j. if str_eq key j then some (body, expiry) else s j

abbrev del_slots : List String → Slots → Slots
del_slots keys s = λ j. if includes j keys then none else s j

abbrev server : CacheClient Slots
server = record {
  get = λ now key s. resolved (holds now key s);
  set = λ now key body seconds s. (resolved tt, set_slot key body (now + seconds * 1000) s);
  del = λ now keys s. (resolved 1, del_slots keys s);
}

held :
    (now : ℕ) (v x : String) (expiry : ℕ)
    → live now (some (v, expiry)) ≡ some x
    → (x ≡ v) × (now < expiry)
held now v x expiry e = elim (Bool-cases (ltb now expiry)) [
  | inr late ↦ absurd (let f = rw late at e in cc)
  | inl soon ↦ let f = rw soon at e in (cc, ltb→lt now expiry soon)
]

live_expires :
    (now after : ℕ) (x : String) (slot : Option (String × ℕ))
    → now ≤ after
    → live after slot ≡ some x
    → live now slot ≡ some x
live_expires now after x none le e = absurd (cc)
live_expires now after x (some (v, expiry)) le e =
    let (value, lt) = held after v x expiry e in rw (value, lt→ltb now expiry (omega arith)) refl

slot_set :
    (at expiry : ℕ) (key body asked x : String) (s : Slots)
    → holds at asked (set_slot key body expiry s) ≡ some x
    → ((asked ≡ key) × (x ≡ body) × (at < expiry)) ⊎ (holds at asked s ≡ some x)
slot_set at expiry key body asked x s e = elim (Bool-cases (str_eq key asked)) [
  | inr other ↦ inr (rw other at e)
  | inl same ↦
      let (value, lt) = held at body x expiry (rw same at e) in
      let one = (str_eq_iff key asked).0 same in inl (cc, value, lt)
]

slot_del :
    (at : ℕ) (keys : List String) (key x : String) (s : Slots)
    → holds at key (del_slots keys s) ≡ some x
    → holds at key s ≡ some x
slot_del at keys key x s e = elim (Bool-cases (includes key keys)) [
  | inl gone ↦ absurd (let f = rw gone at e in cc)
  | inr kept ↦ rw kept at e
]

slots_redis : Redis server
slots_redis = record {
  holds = holds;
  get_law = λ now key s body e. cc;
  expires = λ now after key x s le e. live_expires now after x (s key) le e;
  set_law = λ now seconds at key body asked x s e.
      slot_set at (now + seconds * 1000) key body asked x s e;
  set_done = λ now seconds at key body x s r e.
      held at body x (now + seconds * 1000) (rw (str_eq_refl key) at e);
  del_law = λ now at keys asked x s e. slot_del at keys asked x s e;
  del_done = λ now at n keys key s r m. rw (IsIn→includes key keys m) refl;
}

slots-IsRoomy : IsRoomy slots_redis
unfolding slots_redis
slots-IsRoomy = record {
  set_kept = λ now seconds at key body s e le lt.
      rw (str_eq_refl key, lt→ltb at (now + seconds * 1000) lt) refl;
  set_other = λ now seconds at key body asked s ne. elim (Bool-cases (str_eq key asked)) [
    | inl same ↦ absurd (ne ((str_eq_iff key asked).0 same))
    | inr other ↦ rw other refl
  ];
  del_other = λ now at keys asked s ne. elim (Bool-cases (includes asked keys)) [
    | inl there ↦ absurd (ne (includes→IsIn asked keys there))
    | inr other ↦ rw other refl
  ];
}

abbrev json : Option String → String
json none = "null"
json (some text) = text

abbrev empty : Cache Slots
empty = opened (λ j. none)

-- Other keys are stored and deleted in between.
abbrev others : List Use
others = set 2000 "v1:a" "[]" ∷ invalidate 3000 ("v1:a" ∷ []) ∷ fire 5000 ("v1:a" ∷ []) ∷ []

abbrev answered : Response × Cache Slots
answered = send_and_cache (some server) default_options json 1000 "v1:stats" (some "{}") empty

abbrev other : String
other = "v1:a"

abbrev stats : String
stats = "v1:stats"

is_other : other ≢ stats
is_other e = let f = ap (str_eq "v1:a") e in absurd (cc)

send_if_cached-send_and_cache_example :
    (send_if_cached
      (some server)
      default_options
      9000
      "v1:stats"
      (use_all (some server) default_options others answered.1)).0
    ≡ some (record { x_cache = hit; body = answered.0.body })
unfolding includes cache_set cache_invalidate send_and_cache
send_if_cached-send_and_cache_example =
    send_if_cached-send_and_cache server slots_redis default_options json 1000 9000 "v1:stats" "{}"
      others empty (some "{}") slots-IsRoomy (omega arith) refl
      (
        is_other,
        (
          (λ m. elim m [ inl e ↦ is_other e | inr n ↦ n ]),
          ((λ m. elim m [ inl e ↦ is_other e | inr n ↦ n ]), tt),
        ),
      )
      refl

-- A server that is down, for 31 seconds.
abbrev down : CacheClient Slots
down = record {
  get = λ now key s. rejected;
  set = λ now key body seconds s. (rejected, s);
  del = λ now keys s. (rejected, s);
}

abbrev uses : List Use
uses =
    get 1000 "v1:stats"
    ∷ set 1000 "v1:stats" "{}"
    ∷ invalidate 20000 ("v1:stats" ∷ [])
    ∷ fire 22000 ("v1:stats" ∷ [])
    ∷ get 31000 "v1:stats"
    ∷ []

use_all-IsSpaced_example :
    IsSpaced 30000 (use_all (some down) default_options uses (opened (λ j. none))).warned
use_all-IsSpaced_example =
    use_all-IsSpaced (some down) default_options uses (λ j. none) (omega arith)

-- A request reads, the row is written, and the request stores what it has read.
abbrev begin : Live Slots
begin = record { now = 10000; cache = empty; database = "old"; written = 0; requests = [] }

abbrev reading : Live Slots
reading = record begin { requests = record { body = "old"; since = 10000 } ∷ [] }

abbrev wrote : Live Slots
wrote = record reading {
  database = "new";
  written = 10000;
  cache = cache_invalidate (some server) default_options 10000 ("v1:stats" ∷ []) empty;
}

abbrev stale : Live Slots
stale = record wrote {
  cache = cache_set (some server) default_options 10000 "v1:stats" "old" wrote.cache;
  requests = [];
}

steps : Reach server default_options "v1:stats" begin stale
steps =
    later (later (later here read) (write "new"))
      (answer (record { body = "old"; since = 10000 }) [] [] refl (omega arith))

cache_get-IsFresh_example :
    ("old" ≡ stale.database) ⊎ (stale.now ≤ stale.written + default_options.repeat_after_ms)
unfolding cache_set cache_invalidate slots_redis cache_get
cache_get-IsFresh_example =
    cache_get-IsFresh server slots_redis default_options "v1:stats" "old" begin stale refl refl refl
      steps refl
