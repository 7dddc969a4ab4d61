-- ===== src/Cache/Live.antt =====
-- One cached body of src/cache.ts while the system runs: requests that read the database and store
-- what they have read, writers that change it and invalidate the key, and the timers of the second
-- deletions, in any order. The database's answer is the body as it would be computed from it now.
use edgar_radar.Prelude.{ℕ, ◌+◌, ◌≤◌, ◌<◌, ◌≡◌, String, some, List, [], ◌∷◌, ◌++◌, All}
use edgar_radar.Cache.{
  resolved, CacheClient, Options, Cache, Deletion, cache_set, cache_del, cache_invalidate,
}

-- A request that has read the database and has yet to store the body.
pub record Request : Type 0 where
  pub body : String
  pub since : ℕ

pub record Live (S : Type 0) : Type 0 where
  pub now : ℕ
  pub cache : Cache S
  pub database : String
  pub written : ℕ
  pub requests : List Request

module _ {S : Type 0} (k : CacheClient S) (o : Options) (key : String) where
  -- A timer runs no later than the time it is set for, and the second deletion is answered; the first
  -- one need not be. A request stores what it read within `repeat_after_ms`.
  pub data Step (l : Live S) : Live S → Type 0 where
    wait :
        (later : ℕ)
        → l.now ≤ later
        → All (λ (d : Deletion). later ≤ d.due) l.cache.timers
        → Step l (record l { now = later })
    write :
        (body : String)
        → Step l (record l {
          database = body;
          written = l.now;
          cache = cache_invalidate (some k) o l.now (key ∷ []) l.cache;
        })
    fire :
        (d : Deletion) (ds : List Deletion) (n : ℕ)
        → l.cache.timers ≡ d ∷ ds
        → d.due ≤ l.now
        → (k.del l.now d.keys l.cache.server).0 ≡ resolved n
        → Step l (record l {
          cache = record (cache_del (some k) o l.now d.keys l.cache) { timers = ds };
        })
    read : Step l (record l { requests = record { body = l.database; since = l.now } ∷ l.requests })
    answer :
        (p : Request) (before after : List Request)
        → l.requests ≡ before ++ p ∷ after
        → l.now < p.since + o.repeat_after_ms
        → Step l (record l {
          cache = cache_set (some k) o l.now key p.body l.cache;
          requests = before ++ after;
        })

  pub data Reach (start : Live S) : Live S → Type 0 where
    here : Reach start start
    later : {l m : Live S} → Reach start l → Step l m → Reach start m
