-- ===== src/Cache/Redis.antt =====
-- What src/cache.ts relies on of its Redis: the documented behaviour of GET, SET with EX and DEL on
-- a server that may evict a key at any time. A command that is rejected may still have been run.
use edgar_radar.Prelude.{
  ℕ, ◌+◌, ◌-◌, ◌*◌, ◌≤◌, ◌<◌, ◌≡◌, ◌≢◌, ◌⊎◌, refl, Bool-cases, Option-cases, inl, inr, String,
  Option, none, some, List, Among, ltb,
}
use edgar_radar.Cache.{
  Settled, resolved, rejected, CacheClient, Options, Cache, warn, warn_after, warn_now, settle,
}

module _ {S : Type 0} where
  pub record Redis (k : CacheClient S) : Type 0 where
    -- The value that the server has for a key at a time.
    pub holds : ℕ → String → S → Option String
    pub get_law :
        (now : ℕ) (key : String) (s : S) (body : Option String)
        → k.get now key s ≡ resolved body
        → body ≡ holds now key s
    -- Nothing comes back by itself.
    pub expires :
        (now later : ℕ) (key x : String) (s : S)
        → now ≤ later
        → holds later key s ≡ some x
        → holds now key s ≡ some x
    -- What a server has after SET is the new value, until it expires, or what it had.
    pub set_law :
        (now seconds at : ℕ) (key body read x : String) (s : S)
        → holds at read (k.set now key body seconds s).1 ≡ some x
        → ((read ≡ key) × (x ≡ body) × (at < now + seconds * 1000)) ⊎ (holds at read s ≡ some x)
    pub set_done :
        (now seconds at : ℕ) (key body x : String) (s : S)
        → (k.set now key body seconds s).0 ≡ resolved tt
        → holds at key (k.set now key body seconds s).1 ≡ some x
        → (x ≡ body) × (at < now + seconds * 1000)
    pub del_law :
        (now at : ℕ) (keys : List String) (read x : String) (s : S)
        → holds at read (k.del now keys s).1 ≡ some x
        → holds at read s ≡ some x
    pub del_done :
        (now at n : ℕ) (keys : List String) (key : String) (s : S)
        → (k.del now keys s).0 ≡ resolved n
        → Among key keys
        → holds at key (k.del now keys s).1 ≡ none

  -- A server that has room: what is stored stays until it expires, its key is stored again or it is
  -- deleted, and so a command touches the keys that it names only.
  pub record IsRoomy {k : CacheClient S} (r : Redis k) : Type 0 where
    pub set_kept :
        (now seconds at : ℕ) (key body : String) (s : S)
        → (k.set now key body seconds s).0 ≡ resolved tt
        → now ≤ at
        → at < now + seconds * 1000
        → r.holds at key (k.set now key body seconds s).1 ≡ some body
    pub set_other :
        (now seconds at : ℕ) (key body read : String) (s : S)
        → key ≢ read
        → r.holds at read (k.set now key body seconds s).1 ≡ r.holds at read s
    pub del_other :
        (now at : ℕ) (keys : List String) (read : String) (s : S)
        → ¬ Among read keys
        → r.holds at read (k.del now keys s).1 ≡ r.holds at read s

  pub warn-server :
      (o : Options) (now : ℕ) (c : Cache S)
      → ((warn o now c).server ≡ c.server) × ((warn o now c).timers ≡ c.timers)
  unfolding warn warn_after warn_now
  warn-server o now c = elim (Option-cases c.last_warn_at) [
    | inl e ↦ rw e (refl, refl)
    | inr (last, e) ↦ elim (Bool-cases (ltb (now - last) o.warn_every_ms)) [
      | inl soon ↦ rw (e, soon) (refl, refl)
      | inr due ↦ rw (e, due) (refl, refl)
    ]
  ]

  -- A warning touches neither the server nor the timers.
  pub settle-server :
      {A : Type 0} (o : Options) (now : ℕ) (reply : Settled A) (c : Cache S)
      → ((settle o now reply c).server ≡ c.server) × ((settle o now reply c).timers ≡ c.timers)
  unfolding settle
  settle-server o now (resolved a) c = (refl, refl)
  settle-server o now rejected c = warn-server o now c
