-- ===== src/Retry.antt =====
-- src/retry.ts: retrying a fetch. A call of `doFetch` answers with a status or throws; `tries` are
-- the answers of one call after another. How long it sleeps is not modelled, only after which
-- attempts it does.
pub mod Attempts
use edgar_radar.Prelude.{
  ℕ, zero, suc, ◌+◌, String, Bool, true, false, ◌&&◌, List, [], ◌∷◌, leb, ltb, if◌then◌else◌,
}

pub data Try (R : Type 0) : Type 0 where
  answered : (status : ℕ) → (response : R) → Try R
  threw : (error : String) → Try R

-- The answer, the calls made and the attempts after which it slept.
pub record Fetch (R : Type 0) : Type 0 where
  pub answer : Try R
  pub calls : ℕ
  pub sleeps : List ℕ

-- `isRetryableStatus`
unfoldable pub is_retryable_status : ℕ → Bool
is_retryable_status status = leb 500 status && ltb status 600

module _ {R : Type 0} where
  -- Whether the loop goes on after this answer, while retries are left.
  unfoldable pub is_transient : Try R → Bool
  unfolding is_retryable_status
  is_transient (answered status response) = is_retryable_status status
  is_transient (threw error) = true

  slept : ℕ → Fetch R → Fetch R
  slept attempt f = record f { calls = f.calls + 1; sleeps = attempt ∷ f.sleeps }

  -- The loop from `attempt` on, with `retries` left: `attempt < maxRetries` just when one is.
  unfoldable pub attempts : ℕ → ℕ → (ℕ → Try R) → Fetch R
  unfolding slept
  attempts zero attempt tries = record { answer = tries attempt; calls = 1; sleeps = [] }
  attempts (suc retries) attempt tries =
      let rest = attempts retries (attempt + 1) tries in
      if is_transient (tries attempt)
      then slept attempt rest
      else record { answer = tries attempt; calls = 1; sleeps = [] }

  unfoldable pub fetch_with_retry : ℕ → (ℕ → Try R) → Fetch R
  fetch_with_retry max_retries tries = attempts max_retries 0 tries

-- `options.maxRetries ?? 3`
abbrev pub default_max_retries : ℕ
default_max_retries = 3
