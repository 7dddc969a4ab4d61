-- ===== src/Cache.antt =====
-- src/cache.ts and src/routes/cachedResponse.ts: the response cache and the two halves of a cached
-- route. The Redis client is a parameter, on a state of its own: each command is given the clock and
-- either comes to a value or rejects. `-Infinity` of `lastWarnAt` is `none`.
pub mod Warnings
pub mod Redis
pub mod Hits
pub mod Live
pub mod Freshness
use Prim.Native.String.{◌++◌ as text_append}
use edgar_radar.Prelude.{
  ℕ, ◌+◌, ◌-◌, ◌*◌, String, Bool, true, false, Option, none, some, List, [], ◌∷◌, ◌++◌, ltb,
  if◌then◌else◌,
}
use edgar_radar.Facts.{CacheKey, company, facts, scores, financials, risk_factor_diff}

-- A promise that has settled.
pub data Settled (A : Type 0) : Type 0 where
  resolved : A → Settled A
  rejected : Settled A

-- `CacheClient`: a command's clock comes first, the client's state last. The flag of `set` and `del`
-- says whether the command was answered.
pub record CacheClient (S : Type 0) : Type 0 where
  pub get : ℕ → String → S → Settled (Option String)
  pub set : ℕ → String → String → ℕ → S → Settled Unit × S
  pub del : ℕ → List String → S → Settled ℕ × S

-- `ResponseCacheOptions`
pub record Options : Type 0 where
  pub ttl_seconds : ℕ
  pub repeat_after_ms : ℕ
  pub warn_every_ms : ℕ

abbrev pub default_options : Options
default_options = record { ttl_seconds = 300; repeat_after_ms = 2000; warn_every_ms = 30000 }

-- `cacheKeys`; `pad` is `padCik`.
unfoldable pub key_text : (String → String) → CacheKey → String
key_text pad (company cik) = text_append "v1:company:" (pad cik)
key_text pad (facts cik) = text_append "v1:facts:" (pad cik)
key_text pad (risk_factor_diff cik) = text_append "v1:risk-factor-diff:" (pad cik)
key_text pad (scores cik) = text_append "v1:scores:" (pad cik)
key_text pad (financials cik) = text_append "v1:financials:" (pad cik)

-- A deletion that `schedule` holds, with the time of its timer.
pub record Deletion : Type 0 where
  pub keys : List String
  pub due : ℕ

-- The client's state, the throttle of the warnings, the times of those logged (latest first), and
-- the timers that are running.
pub record Cache (S : Type 0) : Type 0 where
  pub server : S
  pub last_warn_at : Option ℕ
  pub warned : List ℕ
  pub timers : List Deletion

module _ {S : Type 0} where
  -- The state in which `createResponseCache` starts.
  abbrev pub opened : S → Cache S
  opened server = record { server = server; last_warn_at = none; warned = []; timers = [] }

  unfoldable pub warn_now : ℕ → Cache S → Cache S
  warn_now now c = record c { last_warn_at = some now; warned = now ∷ c.warned }

  unfoldable pub warn_after : Options → ℕ → Option ℕ → Cache S → Cache S
  unfolding warn_now
  warn_after o now none c = warn_now now c
  warn_after o now (some last) c = if ltb (now - last) o.warn_every_ms then c else warn_now now c

  -- `warn`
  unfoldable pub warn : Options → ℕ → Cache S → Cache S
  unfolding warn_after
  warn o now c = warn_after o now c.last_warn_at c

  -- The `catch` of `set` and `del`.
  unfoldable pub settle : {A : Type 0} → Options → ℕ → Settled A → Cache S → Cache S
  unfolding warn
  settle o now (resolved a) c = c
  settle o now rejected c = warn o now c

  unfoldable pub read_reply :
      Options → ℕ → Settled (Option String) → Cache S → Option String × Cache S
  unfolding warn
  read_reply o now (resolved body) c = (body, c)
  read_reply o now rejected c = (none, warn o now c)

module _ {S : Type 0} (client : Option (CacheClient S)) (o : Options) where
  -- `get` of `createResponseCache(client, log, options)`
  unfoldable pub cache_get : ℕ → String → Cache S → Option String × Cache S
  unfolding read_reply
  cache_get now key c = elim client [
    | none ↦ (none, c)
    | some k ↦ read_reply o now (k.get now key c.server) c
  ]

  -- `set`
  unfoldable pub cache_set : ℕ → String → String → Cache S → Cache S
  unfolding settle
  cache_set now key body c = elim client [
    | none ↦ c
    | some k ↦
        let (reply, after) = k.set now key body o.ttl_seconds c.server in
        settle o now reply (record c { server = after })
  ]

  -- `del`
  unfoldable pub cache_del : ℕ → List String → Cache S → Cache S
  unfolding settle
  cache_del now keys c = elim client [
    | none ↦ c
    | some k ↦
        let (reply, after) = k.del now keys c.server in
        settle o now reply (record c { server = after })
  ]

  -- `invalidate`
  unfoldable pub cache_invalidate : ℕ → List String → Cache S → Cache S
  unfolding cache_del
  cache_invalidate now [] c = c
  cache_invalidate now (key ∷ keys) c = elim client [
    | none ↦ c
    | some _ ↦
        let c1 = cache_del now (key ∷ keys) c in
        record c1 {
          timers = c1.timers ++ (record { keys = key ∷ keys; due = now + o.repeat_after_ms } ∷ []);
        }
  ]

-- What a route sends: the header `X-Cache` and the text of the body.
pub data CacheHeader : Type 0 where
  hit : CacheHeader
  miss : CacheHeader

pub record Response : Type 0 where
  pub x_cache : CacheHeader
  pub body : String

unfoldable pub hit_of : Option String → Option Response
hit_of none = none
hit_of (some cached) = some (record { x_cache = hit; body = cached })

module _ {S : Type 0} (client : Option (CacheClient S)) (o : Options) where
  -- `sendIfCached`: the response that was sent, if any.
  unfoldable pub send_if_cached : ℕ → String → Cache S → Option Response × Cache S
  unfolding cache_get hit_of
  send_if_cached now key c =
      let (cached, after) = cache_get client o now key c in (hit_of cached, after)

  -- `sendAndCache` of a body, where `none` is `null` or `undefined`; `json` is `JSON.stringify`.
  unfoldable pub send_and_cache :
      {B : Type 0} → (Option B → String) → ℕ → String → Option B → Cache S → Response × Cache S
  unfolding cache_set
  send_and_cache json now key none c = (record { x_cache = miss; body = json none }, c)
  send_and_cache json now key (some b) c = (
    record { x_cache = miss; body = json (some b) },
    cache_set client o now key (json (some b)) c,
  )
