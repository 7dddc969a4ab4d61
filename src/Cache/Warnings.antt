-- ===== src/Cache/Warnings.antt =====
-- How often src/cache.ts logs that its server cannot be reached.
use edgar_radar.Prelude.{
  ℕ, ◌+◌, ◌-◌, ◌≤◌, ◌<◌, ◌≡◌, refl, Option, none, some, List, [], ◌∷◌, ltb, lt→ltb, Bool-cases,
  Option-cases, inl, inr, String, arith, head?,
}
use edgar_radar.Cache.{
  Settled, resolved, rejected, CacheClient, Options, Cache, warn, settle, cache_get, cache_set,
  cache_del, cache_invalidate, opened, warn_after, warn_now, read_reply,
}

-- A use of the cache at a time: one of its three operations, or a timer that deletes again.
pub data Use : Type 0 where
  get : ℕ → String → Use
  set : ℕ → (key body : String) → Use
  invalidate : ℕ → List String → Use
  fire : ℕ → List String → Use

module _ {S : Type 0} (client : Option (CacheClient S)) (o : Options) where
  abbrev pub use_cache : Use → Cache S → Cache S
  use_cache (get now key) c = (cache_get client o now key c).1
  use_cache (set now key body) c = cache_set client o now key body c
  use_cache (invalidate now keys) c = cache_invalidate client o now keys c
  use_cache (fire now keys) c = cache_del client o now keys c

  abbrev pub use_all : List Use → Cache S → Cache S
  use_all [] c = c
  use_all (u ∷ us) c = use_all us (use_cache u c)

-- Each time, the latest first, is at least `gap` after the one before.
abbrev pub IsSpaced : ℕ → List ℕ → Type 0
IsSpaced gap [] = Unit
IsSpaced gap (t ∷ []) = Unit
IsSpaced gap (t ∷ s ∷ ts) = (s + gap ≤ t) × IsSpaced gap (s ∷ ts)

IsSpaced-none : (gap now : ℕ) (ts : List ℕ) → none ≡ head? ts → IsSpaced gap (now ∷ ts)
IsSpaced-none gap now [] e = tt
IsSpaced-none gap now (t ∷ ts) e = absurd (cc)

IsSpaced-some :
    (gap now last : ℕ) (ts : List ℕ)
    → some last ≡ head? ts
    → last + gap ≤ now
    → IsSpaced gap ts
    → IsSpaced gap (now ∷ ts)
IsSpaced-some gap now last [] e le h = tt
IsSpaced-some gap now last (t ∷ ts) e le h = (let same : last ≡ t = cc in omega arith, h)

module _ {S : Type 0} where
  -- The throttle remembers the latest warning, and the warnings are apart.
  abbrev pub IsThrottled : ℕ → Cache S → Type 0
  IsThrottled gap c = (c.last_warn_at ≡ head? c.warned) × IsSpaced gap c.warned

  warn-IsThrottled :
      (o : Options) (now : ℕ) (c : Cache S)
      → 0 < o.warn_every_ms
      → IsThrottled o.warn_every_ms c
      → IsThrottled o.warn_every_ms (warn o now c)
  unfolding warn warn_after warn_now
  warn-IsThrottled o now c pos (e, h) = elim (Option-cases c.last_warn_at) [
    | inl n ↦ rw n (refl, IsSpaced-none o.warn_every_ms now c.warned (rw n at e))
    | inr (last, n) ↦ elim (Bool-cases (ltb (now - last) o.warn_every_ms)) [
      | inl soon ↦ rw (n, soon) (rw n at e, h)
      | inr due ↦
          rw (n, due)
            (
              refl,
              (let le : ¬ (now - last < o.warn_every_ms) = λ lt. (let x = lt→ltb _ _ lt in cc) in
                  IsSpaced-some o.warn_every_ms now last c.warned (rw n at e) (omega arith) h),
            )
    ]
  ]

  settle-IsThrottled :
      {A : Type 0} (o : Options) (now : ℕ) (reply : Settled A) (c : Cache S)
      → 0 < o.warn_every_ms
      → IsThrottled o.warn_every_ms c
      → IsThrottled o.warn_every_ms (settle o now reply c)
  unfolding settle
  settle-IsThrottled o now (resolved a) c pos h = h
  settle-IsThrottled o now rejected c pos h = warn-IsThrottled o now c pos h

  read_reply-IsThrottled :
      (o : Options) (now : ℕ) (reply : Settled (Option String)) (c : Cache S)
      → 0 < o.warn_every_ms
      → IsThrottled o.warn_every_ms c
      → IsThrottled o.warn_every_ms (read_reply o now reply c).1
  unfolding read_reply
  read_reply-IsThrottled o now (resolved body) c pos h = h
  read_reply-IsThrottled o now rejected c pos h = warn-IsThrottled o now c pos h

  use_cache-IsThrottled :
      (client : Option (CacheClient S)) (o : Options) (u : Use) (c : Cache S)
      → 0 < o.warn_every_ms
      → IsThrottled o.warn_every_ms c
      → IsThrottled o.warn_every_ms (use_cache client o u c)
  unfolding cache_get cache_set cache_del cache_invalidate
  use_cache-IsThrottled none o (get now key) c pos h = h
  use_cache-IsThrottled none o (set now key body) c pos h = h
  use_cache-IsThrottled none o (invalidate now []) c pos h = h
  use_cache-IsThrottled none o (invalidate now (key ∷ keys)) c pos h = h
  use_cache-IsThrottled none o (fire now keys) c pos h = h
  use_cache-IsThrottled (some k) o (get now key) c pos h =
      read_reply-IsThrottled o now (k.get now key c.server) c pos h
  use_cache-IsThrottled (some k) o (set now key body) c pos h =
      let (reply, after) = k.set now key body o.ttl_seconds c.server in
      settle-IsThrottled o now reply (record c { server = after }) pos h
  use_cache-IsThrottled (some k) o (invalidate now []) c pos h = h
  use_cache-IsThrottled (some k) o (invalidate now (key ∷ keys)) c pos h =
      let (reply, after) = k.del now (key ∷ keys) c.server in
      settle-IsThrottled o now reply (record c { server = after }) pos h
  use_cache-IsThrottled (some k) o (fire now keys) c pos h =
      let (reply, after) = k.del now keys c.server in
      settle-IsThrottled o now reply (record c { server = after }) pos h

  -- Whatever the client answers, with or without one, and whatever the cache is used for: if the
  -- gap between warnings is positive and the cache starts with none, two warnings that follow one
  -- another are at least the gap apart.
  pub use_all-IsSpaced :
      (client : Option (CacheClient S)) (o : Options) (us : List Use) (server : S)
      → 0 < o.warn_every_ms
      → IsSpaced o.warn_every_ms (use_all client o us (opened server)).warned
  use_all-IsSpaced client o us server pos = (from us (opened server) (refl, tt)).1
    where
      from :
          (vs : List Use) (c : Cache S)
          → IsThrottled o.warn_every_ms c
          → IsThrottled o.warn_every_ms (use_all client o vs c)
      from [] c h = h
      from (u ∷ vs) c h =
          from vs (use_cache client o u c) (use_cache-IsThrottled client o u c pos h)
