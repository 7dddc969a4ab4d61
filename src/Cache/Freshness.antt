-- ===== src/Cache/Freshness.antt =====
-- How stale a body that src/cache.ts serves can be.
use edgar_radar.Prelude.{
  ℕ, ◌+◌, ◌≤◌, ◌<◌, ◌≡◌, ◌⊎◌, refl, sym, inl, inr, String, Option, none, some, List, [], ◌∷◌, ◌++◌,
  All, All-append, All-impl, Any, Any-append_right, arith, subst,
}
use edgar_radar.Cache.{
  Settled, resolved, rejected, CacheClient, Options, Cache, Deletion, read_reply, cache_get,
  cache_set, cache_del, cache_invalidate,
}
use edgar_radar.Cache.Redis.{Redis, settle-server}
use edgar_radar.Cache.Live.{
  Request, Live, Step, wait, write, fire, read, answer, Reach, here, later,
}

module _ {A : Type 0} (P : A → Type 0) where
  All-middle : (xs : List A) (y : A) (ys : List A) → All P (xs ++ y ∷ ys) → P y × All P (xs ++ ys)
  All-middle [] y ys (p, h) = (p, h)
  All-middle (x ∷ xs) y ys (q, h) = let (p, rest) = All-middle xs y ys h in (p, (q, rest))

module _ {S : Type 0} (k : CacheClient S) (r : Redis k) (o : Options) (key : String) where
  -- The second deletion after the last write is to come.
  abbrev IsPending : Live S → Type 0
  IsPending l =
      Any (λ (d : Deletion). d.due ≡ l.written + o.repeat_after_ms) l.cache.timers
      × All (λ (p : Request). (p.body ≡ l.database) ⊎ (p.since ≤ l.written)) l.requests

  -- What is stored is the database's, and so is what can still be stored.
  abbrev IsClean : Live S → Type 0
  IsClean l =
      ((x : String) → r.holds l.now key l.cache.server ≡ some x → x ≡ l.database)
      × All (λ (p : Request). (p.body ≡ l.database) ⊎ (p.since + o.repeat_after_ms ≤ l.now))
          l.requests

  abbrev pub IsSound : Live S → Type 0
  IsSound l =
      All (λ (d : Deletion). (l.now ≤ d.due) × (d.keys ≡ key ∷ [])) l.cache.timers
      × All (λ (p : Request). p.since ≤ l.now) l.requests
      × (IsPending l ⊎ IsClean l)

  set-server :
      (now : ℕ) (body : String) (c : Cache S)
      → ((cache_set (some k) o now key body c).server
          ≡ (k.set now key body o.ttl_seconds c.server).1)
        × ((cache_set (some k) o now key body c).timers ≡ c.timers)
  unfolding cache_set
  set-server now body c =
      let (reply, after) = k.set now key body o.ttl_seconds c.server in
      settle-server o now reply (record c { server = after })

  del-server :
      (now : ℕ) (keys : List String) (c : Cache S)
      → ((cache_del (some k) o now keys c).server ≡ (k.del now keys c.server).1)
        × ((cache_del (some k) o now keys c).timers ≡ c.timers)
  unfolding cache_del
  del-server now keys c =
      let (reply, after) = k.del now keys c.server in
      settle-server o now reply (record c { server = after })

  wait-IsSound :
      (l : Live S) (t : ℕ)
      → l.now ≤ t
      → All (λ (d : Deletion). t ≤ d.due) l.cache.timers
      → IsSound l
      → IsSound (record l { now = t })
  wait-IsSound l t le timely (timers, past, mode) = (
    both l.cache.timers timely timers,
    All-impl l.requests (λ p h. omega arith) past,
    elim mode [
      | inl pending ↦ inl pending
      | inr (held, reads) ↦ inr (
        (λ x e. held x (r.expires l.now t key x l.cache.server le e)),
        All-impl l.requests (λ p h. elim h [ inl a ↦ inl a | inr b ↦ inr (omega arith) ]) reads,
      )
    ],
  )
    where
      both :
          (ds : List Deletion)
          → All (λ (d : Deletion). t ≤ d.due) ds
          → All (λ (d : Deletion). (l.now ≤ d.due) × (d.keys ≡ key ∷ [])) ds
          → All (λ (d : Deletion). (t ≤ d.due) × (d.keys ≡ key ∷ [])) ds
      both [] _ _ = tt
      both (d ∷ ds) (a, as') ((b, c), bs) = ((a, c), both ds as' bs)

  write-IsSound :
      (l : Live S) (body : String)
      → IsSound l
      → IsSound (record l {
        database = body;
        written = l.now;
        cache = cache_invalidate (some k) o l.now (key ∷ []) l.cache;
      })
  unfolding cache_invalidate
  write-IsSound l body (timers, past, mode) =
      let (server, same) = del-server l.now (key ∷ []) l.cache in
      rw same (
        All-append _ l.cache.timers _ timers ((omega arith, refl), tt),
        past,
        inl (
          Any-append_right _ l.cache.timers _ (inl refl),
          All-impl l.requests (λ p h. inr h) past,
        ),
      )

  fire-IsSound :
      (l : Live S) (d : Deletion) (ds : List Deletion) (n : ℕ)
      → l.cache.timers ≡ d ∷ ds
      → d.due ≤ l.now
      → (k.del l.now d.keys l.cache.server).0 ≡ resolved n
      → IsSound l
      → IsSound
          (record l { cache = record (cache_del (some k) o l.now d.keys l.cache) { timers = ds } })
  fire-IsSound l d ds n first due gone (timers, past, mode) =
      let ((_, ours), later_ones) = first_of in
      rw (del-server l.now d.keys l.cache).0 (
        later_ones,
        past,
        elim mode [
          | inl (pending, reads) ↦ elim (rw first at pending) [
            | inl last ↦ inr (
              (λ x e. absurd (
                  let none_left =
                    r.del_done l.now l.now n d.keys key l.cache.server gone
                      (subst (λ ks. Any (λ j. j ≡ key) ks) (sym ours) (inl refl)) in
                  cc)),
              All-impl l.requests (λ p h. elim h [ inl a ↦ inl a | inr b ↦ inr (omega arith) ])
                  reads,
            )
            | inr rest ↦ inl (rest, reads)
          ]
          | inr (held, reads) ↦
              inr ((λ x e. held x (r.del_law l.now l.now d.keys key x l.cache.server e)), reads)
        ],
      )
    where
      first_of : All (λ (e : Deletion). (l.now ≤ e.due) × (e.keys ≡ key ∷ [])) (d ∷ ds)
      first_of = subst (All (λ (e : Deletion). (l.now ≤ e.due) × (e.keys ≡ key ∷ []))) first timers

  answer-IsSound :
      (l : Live S) (p : Request) (before after : List Request)
      → l.requests ≡ before ++ p ∷ after
      → l.now < p.since + o.repeat_after_ms
      → IsSound l
      → IsSound (record l {
        cache = cache_set (some k) o l.now key p.body l.cache;
        requests = before ++ after;
      })
  answer-IsSound l p before after one soon (timers, past, mode) =
      let (server, same) = set-server l.now p.body l.cache in
      rw (same, server)
        (
          timers,
          (All-middle _ before p after (rw one at past)).1,
          elim mode [
            | inl (pending, reads) ↦
                inl (pending, (All-middle _ before p after (rw one at reads)).1)
            | inr (held, reads) ↦
                let (this, others) = All-middle _ before p after (rw one at reads) in
                inr (
                  (λ x e.
                      elim (r.set_law l.now o.ttl_seconds l.now key p.body key x l.cache.server e) [
                        | inl (_, stored, _) ↦ elim this [
                          | inl fresh ↦ cc
                          | inr old ↦ absurd (omega arith)
                        ]
                        | inr kept ↦ held x kept
                      ]),
                  others,
                )
          ],
        )

  Step-IsSound : (l m : Live S) → Step k o key l m → IsSound l → IsSound m
  Step-IsSound l m (wait t le timely) h = wait-IsSound l t le timely h
  Step-IsSound l m (write body) h = write-IsSound l body h
  Step-IsSound l m (fire d ds n first due gone) h = fire-IsSound l d ds n first due gone h
  Step-IsSound l m read (timers, past, mode) = (
    timers,
    (omega arith, past),
    elim mode [
      | inl (pending, reads) ↦ inl (pending, (inl refl, reads))
      | inr (held, reads) ↦ inr (held, (inl refl, reads))
    ],
  )
  Step-IsSound l m (answer p before after one soon) h = answer-IsSound l p before after one soon h

  Reach-IsSound : (l m : Live S) → Reach k o key l m → IsSound l → IsSound m
  Reach-IsSound l m here h = h
  Reach-IsSound l m (later {l = n} reached step) h =
      Step-IsSound n m step (Reach-IsSound l n reached h)

  due_later :
      (l : Live S) (x : String)
      → IsSound l
      → r.holds l.now key l.cache.server ≡ some x
      → (x ≡ l.database) ⊎ (l.now ≤ l.written + o.repeat_after_ms)
  due_later l x (timers, past, inr (held, reads)) e = inl (held x e)
  due_later l x (timers, past, inl (pending, reads)) e = inr (among l.cache.timers timers pending)
    where
      among :
          (ds : List Deletion)
          → All (λ (d : Deletion). (l.now ≤ d.due) × (d.keys ≡ key ∷ [])) ds
          → Any (λ (d : Deletion). d.due ≡ l.written + o.repeat_after_ms) ds
          → l.now ≤ l.written + o.repeat_after_ms
      among (d ∷ ds) ((le, _), _) (inl same) = omega arith
      among (d ∷ ds) (_, more) (inr rest) = among ds more rest
      among [] _ rest = elim rest [ ]

module _ {S : Type 0} where
  -- A body is read from a server that answers as Redis documents, in a state that writes, reads,
  -- stores and timers have come to, in any order, from one with no request and no timer under way and
  -- nothing stored under the key, where no timer is late, every second deletion is answered and every
  -- request stores within the time after which a deletion is repeated: it is what the database has
  -- now, or the last write is no longer ago than that time.
  pub cache_get-IsFresh :
      (k : CacheClient S) (r : Redis k) (o : Options) (key x : String) (start l : Live S)
      → start.cache.timers ≡ []
      → start.requests ≡ []
      → r.holds start.now key start.cache.server ≡ none
      → Reach k o key start l
      → (cache_get (some k) o l.now key l.cache).0 ≡ some x
      → (x ≡ l.database) ⊎ (l.now ≤ l.written + o.repeat_after_ms)
  unfolding cache_get read_reply
  cache_get-IsFresh k r o key x start l timers requests nothing reached got =
      due_later k r o key l x (Reach-IsSound k r o key start l reached sound)
        (answered (k.get l.now key l.cache.server) refl got)
    where
      sound : IsSound k r o key start
      sound = rw (timers, requests) (tt, tt, inr ((λ y e. absurd (cc)), tt))

      answered :
          (reply : Settled (Option String))
          → k.get l.now key l.cache.server ≡ reply
          → (read_reply o l.now reply l.cache).0 ≡ some x
          → r.holds l.now key l.cache.server ≡ some x
      answered (resolved body) e f = let same = r.get_law l.now key l.cache.server body e in cc
      answered rejected e f = absurd (cc)
