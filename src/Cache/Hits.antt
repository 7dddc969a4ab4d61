-- ===== src/Cache/Hits.antt =====
-- That a cached response of src/routes/cachedResponse.ts is the one that was sent before.
use edgar_radar.Prelude.{
  ℕ, ◌+◌, ◌*◌, ◌≤◌, ◌≡◌, ◌≢◌, ◌∙◌, ap, List, [], ◌∷◌, All, Among, refl, Bool, Bool-cases,
  Option-cases, inl, inr, String, Option, none, some, ltb, ltb→lt, lt→ltb, if◌then◌else◌, true,
  false,
}
use edgar_radar.Cache.{
  Settled, resolved, rejected, cache_del, cache_invalidate, CacheClient, Options, Cache, cache_get,
  cache_set, read_reply, hit, hit_of, send_if_cached, send_and_cache,
}
use edgar_radar.Cache.Redis.{Redis, IsRoomy, warn-server, settle-server}
use edgar_radar.Cache.Warnings.{Use, get, set, invalidate, fire, use_cache, use_all}

module _ {S : Type 0} (k : CacheClient S) (o : Options) where
  hit_for :
      (now : ℕ) (key : String) (c : Cache S) (found : Option String)
      → k.get now key c.server ≡ resolved found
      → (send_if_cached (some k) o now key c).0 ≡ hit_of found
  unfolding send_if_cached cache_get read_reply
  hit_for now key c found e = rw e refl

  stored_server :
      (now : ℕ) (key body : String) (c : Cache S)
      → (cache_set (some k) o now key body c).server ≡ (k.set now key body o.ttl_seconds c.server).1
  unfolding cache_set
  stored_server now key body c =
      let (reply, after) = k.set now key body o.ttl_seconds c.server in
      (settle-server o now reply (record c { server = after })).0

module _ {S : Type 0} where
  held_until :
      {k : CacheClient S} (r : Redis k)
      → IsRoomy r
      → (now seconds later : ℕ) (key body : String) (s : S)
      → (k.set now key body seconds s).0 ≡ resolved tt
      → now ≤ later
      → r.holds later key (k.set now key body seconds s).1
        ≡ (if ltb later (now + seconds * 1000) then some body else none)
  held_until {k} r roomy now seconds later key body s e le =
      elim (Bool-cases (ltb later (now + seconds * 1000))) [
        | inl soon ↦
            rw soon (roomy.set_kept now seconds later key body s e le (ltb→lt later _ soon))
        | inr late ↦
            rw late (elim (Option-cases (r.holds later key (k.set now key body seconds s).1)) [
              | inl n ↦ n
              | inr (x, held) ↦
                  let (_, lt) = r.set_done now seconds later key body x s e held in
                  let t = lt→ltb later (now + seconds * 1000) lt in absurd (cc)
            ])
      ]

hit_of-if :
    (b : Bool) (body : String)
    → hit_of (if b then some body else none)
      ≡ (if b then some (record { x_cache = hit; body = body }) else none)
unfolding hit_of
hit_of-if true body = refl
hit_of-if false body = refl

-- A use of the cache that neither stores nor deletes a key.
abbrev pub IsElsewhere : String → Use → Type 0
IsElsewhere key (get now k) = Unit
IsElsewhere key (set now k body) = k ≢ key
IsElsewhere key (invalidate now keys) = ¬ Among key keys
IsElsewhere key (fire now keys) = ¬ Among key keys

module _ {S : Type 0} {k : CacheClient S} (r : Redis k) (roomy : IsRoomy r) (o : Options) where
  read_reply-server :
      (now : ℕ) (reply : Settled (Option String)) (c : Cache S)
      → (read_reply o now reply c).1.server ≡ c.server
  unfolding read_reply
  read_reply-server now (resolved body) c = refl
  read_reply-server now rejected c = (warn-server o now c).0

  del-holds :
      (now at : ℕ) (key : String) (keys : List String) (c : Cache S)
      → ¬ Among key keys
      → r.holds at key (cache_del (some k) o now keys c).server ≡ r.holds at key c.server
  unfolding cache_del
  del-holds now at key keys c ne =
      let (reply, after) = k.del now keys c.server in
      ap (r.holds at key) (settle-server o now reply (record c { server = after })).0
      ∙ roomy.del_other now at keys key c.server ne

  use_cache-holds :
      (at : ℕ) (key : String) (u : Use) (c : Cache S)
      → IsElsewhere key u
      → r.holds at key (use_cache (some k) o u c).server ≡ r.holds at key c.server
  unfolding cache_get cache_invalidate
  use_cache-holds at key (get now k') c ne =
      ap (r.holds at key) (read_reply-server now (k.get now k' c.server) c)
  use_cache-holds at key (set now k' body) c ne =
      ap (r.holds at key) (stored_server k o now k' body c)
      ∙ roomy.set_other now o.ttl_seconds at k' body key c.server ne
  use_cache-holds at key (invalidate now []) c ne = refl
  use_cache-holds at key (invalidate now (k' ∷ keys)) c ne = del-holds now at key (k' ∷ keys) c ne
  use_cache-holds at key (fire now keys) c ne = del-holds now at key keys c ne

  use_all-holds :
      (at : ℕ) (key : String) (us : List Use) (c : Cache S)
      → All (IsElsewhere key) us
      → r.holds at key (use_all (some k) o us c).server ≡ r.holds at key c.server
  use_all-holds at key [] c _ = refl
  use_all-holds at key (u ∷ us) c (ne, h) =
      use_all-holds at key us (use_cache (some k) o u c) h ∙ use_cache-holds at key u c ne

-- A server that answers as Redis documents and has room, where the body of a response is stored
-- under a key when it is sent, and asked for later on while the server can be reached: if of all that
-- the cache is used for in between nothing stores or deletes that key, then before the time to live
-- has passed the route sends the same text again, marked as a hit, and from then on it sends nothing.
pub send_if_cached-send_and_cache :
    {S B : Type 0} (k : CacheClient S) (r : Redis k) (o : Options) (json : Option B → String)
    (now later : ℕ) (key : String) (b : B) (us : List Use) (c : Cache S) (found : Option String)
    → IsRoomy r
    → now ≤ later
    → (k.set now key (json (some b)) o.ttl_seconds c.server).0 ≡ resolved tt
    → All (IsElsewhere key) us
    → k.get later key
        (use_all (some k) o us (send_and_cache (some k) o json now key (some b) c).1).server
      ≡ resolved found
    → (let (sent, after) = send_and_cache (some k) o json now key (some b) c in
        (send_if_cached (some k) o later key (use_all (some k) o us after)).0 ≡ (
          if ltb later (now + o.ttl_seconds * 1000)
          then some (record { x_cache = hit; body = sent.body })
          else none))
unfolding send_and_cache hit_of
send_if_cached-send_and_cache {S} {B} k r o json now later key b us c found roomy le stored
      elsewhere asked =
    let body = json (some b) in
    let c1 = cache_set (some k) o now key body c in
    let server : c1.server ≡ (k.set now key body o.ttl_seconds c.server).1 =
      stored_server k o now key body c in
    let until = held_until r roomy now o.ttl_seconds later key body c.server stored le in
    let kept : r.holds later key (use_all (some k) o us c1).server
        ≡ (if ltb later (now + o.ttl_seconds * 1000) then some body else none) =
      use_all-holds r roomy o later key us c1 elsewhere ∙ (ap (r.holds later key) server ∙ until) in
    let same = r.get_law later key _ found asked in
    let got = hit_for k o later key (use_all (some k) o us c1) found asked in
    rw (got, same, kept) (hit_of-if (ltb later (now + o.ttl_seconds * 1000)) body)
