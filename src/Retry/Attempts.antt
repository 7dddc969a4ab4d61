-- ===== src/Retry/Attempts.antt =====
-- How often src/retry.ts fetches, and which answer it gives.
use edgar_radar.Prelude.{
  ℕ, zero, suc, ◌+◌, ◌≤◌, ◌<◌, ◌≡◌, ◌≢◌, ◌==◌, ==_iff, subst, ◌⊎◌, inl, inr, refl, true, false, ◌∷◌,
  length, Bool-cases, arith,
}
use edgar_radar.Retry.{Try, Fetch, is_transient, attempts, fetch_with_retry}

module _ {R : Type 0} where
  -- The answer of the first attempt from `first` on that is not transient, or of the last one.
  abbrev pub IsFirstFinal : ℕ → ℕ → (ℕ → Try R) → Fetch R → Type 0
  IsFirstFinal first last tries f =
      (n : ℕ) × (f.answer ≡ tries n)
      × (n + 1 ≡ first + f.calls)
      × (f.calls ≡ length f.sleeps + 1)
      × (n ≤ last)
      × ((k : ℕ) → first ≤ k → k < n → is_transient (tries k) ≡ true)
      × ((is_transient (tries n) ≡ false) ⊎ (n ≡ last))

  attempts-IsFirstFinal :
      (retries attempt : ℕ) (tries : ℕ → Try R)
      → IsFirstFinal attempt (attempt + retries) tries (attempts retries attempt tries)
  unfolding attempts
  attempts-IsFirstFinal zero attempt tries = (
    attempt,
    refl,
    omega arith,
    refl,
    omega arith,
    λ k le lt. absurd (omega arith),
    inr (omega arith),
  )
  attempts-IsFirstFinal (suc retries) attempt tries =
      let ih = attempts-IsFirstFinal retries (attempt + 1) tries in
      elim (Bool-cases (is_transient (tries attempt))) [
        | inl e ↦ rw e (later e ih)
        | inr e ↦
            rw e (
              attempt,
              refl,
              omega arith,
              refl,
              omega arith,
              λ k le lt. absurd (omega arith),
              inl e,
            )
      ]
    where
      rest : Fetch R
      rest = attempts retries (attempt + 1) tries

      later :
          is_transient (tries attempt) ≡ true
          → IsFirstFinal (attempt + 1) ((attempt + 1) + retries) tries rest
          → IsFirstFinal attempt
              (attempt + suc retries)
              tries
              (record rest { calls = rest.calls + 1; sleeps = attempt ∷ rest.sleeps })
      later e (n, same, calls, sleeps, bound, before, final) = (
        n,
        same,
        omega arith,
        omega arith,
        omega arith,
        λ k le lt. first_or k e before le lt,
        elim final [ inl g ↦ inl g | inr g ↦ inr (omega arith) ],
      )
        where
          first_or :
              (k : ℕ)
              → is_transient (tries attempt) ≡ true
              → ((k : ℕ) → attempt + 1 ≤ k → k < n → is_transient (tries k) ≡ true)
              → attempt ≤ k
              → k < n
              → is_transient (tries k) ≡ true
          first_or k e before le lt = elim (Bool-cases (attempt == k)) [
            | inl same ↦ subst (λ i. is_transient (tries i) ≡ true) ((==_iff attempt k).0 same) e
            | inr apart ↦
                before k
                  (let differ : attempt ≢ k =
                      (λ same. (let b = (==_iff attempt k).1 same in absurd (cc))) in
                    omega arith)
                  lt
          ]

  -- `fetchWithRetry` settles as the first attempt that neither throws nor answers 5xx, or as attempt
  -- number `maxRetries` (from 0) where all before it did; it fetches once for that attempt and once
  -- for each before it, and sleeps between them only.
  pub fetch_with_retry-IsFirstFinal :
      (max_retries : ℕ) (tries : ℕ → Try R)
      → IsFirstFinal 0 max_retries tries (fetch_with_retry max_retries tries)
  unfolding fetch_with_retry
  fetch_with_retry-IsFirstFinal max_retries tries =
      subst (λ last. IsFirstFinal 0 last tries (attempts max_retries 0 tries)) (omega arith)
        (attempts-IsFirstFinal max_retries 0 tries)
