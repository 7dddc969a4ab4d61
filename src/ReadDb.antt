-- ===== src/ReadDb.antt =====
-- src/db.ts: the routing of reads to a replica (`createReadDb`). What the databases answer is a
-- parameter of each event; the state is `replicaSkippedUntil`. Reads overlap, so the start of a read
-- and the replica's answer to it are events of their own, in the order in which they happen.
pub mod Breaker
use edgar_radar.Prelude.{ℕ, ◌+◌, String, List, [], ◌∷◌, ltb, if◌then◌else◌}

-- A query's promise: rows, or an error.
pub data Reply (R : Type 0) : Type 0 where
  rows : R → Reply R
  error : (message : String) → Reply R

-- A read starts, the replica answers a read that has asked it, or it fails one; with the clock, and
-- with what the primary replies if it is asked.
pub data Event (R : Type 0) : Type 0 where
  start : (now : ℕ) → (primary : Reply R) → Event R
  replica_answers : R → Event R
  replica_fails : (now : ℕ) → (message : String) → (primary : Reply R) → Event R

-- What the read does then: it waits for the replica, or it settles.
pub data Outcome (R : Type 0) : Type 0 where
  asks_replica : Outcome R
  replies : Reply R → Outcome R

module _ {R : Type 0} where
  -- The `query` of a handle that has a replica, up to its `await` and from there on, with the state
  -- that it leaves.
  unfoldable pub query : ℕ → ℕ → Event R → Outcome R × ℕ
  query cooldown skipped_until (start now primary) =
      if ltb now skipped_until
      then (replies primary, skipped_until)
      else (asks_replica, skipped_until)
  query cooldown skipped_until (replica_answers x) = (replies (rows x), skipped_until)
  query cooldown skipped_until (replica_fails now message primary) =
      (replies primary, now + cooldown)

  -- Any reads, each event with its outcome.
  unfoldable pub queries : ℕ → ℕ → List (Event R) → List (Event R × Outcome R)
  queries cooldown skipped_until [] = []
  queries cooldown skipped_until (e ∷ es) =
      let (outcome, next) = query cooldown skipped_until e in
      (e, outcome) ∷ queries cooldown next es
