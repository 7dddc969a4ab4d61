-- ===== src/Pipeline/Stages.antt =====
-- The claims of the stages: no job is passed on twice, however often the workers get a job.
use edgar_radar.Prelude.{
  ℕ, ◌+◌, ◌≤◌, inl, inr, ◌≡◌, refl, sym, subst, String, Bool, true, false, ◌||◌, List, [], ◌∷◌,
  ◌++◌, any, keep, length, length-append, str_eq, str_eq_iff, str_eq_refl, Bool-cases, none, some,
  arith,
}
use edgar_radar.Facts.{Checks}
use edgar_radar.Pipeline.{
  Claim, is_claim, claim_stage, ParsedJob, ScoredJob, Pipeline, stage_parsed, stage_scored,
  stage_notified, guarded, parse_filing, process_filing_discovered, process_filing_parsed,
  process_scores_updated, Event, discovered, parsed, scored, deliver, run,
}

abbrev pub bit : Bool → ℕ
bit true = 1
bit false = 0

module _ {A : Type 0} where
  keep-append : (p : A → Bool) (xs ys : List A) → keep p (xs ++ ys) ≡ keep p xs ++ keep p ys
  keep-append p [] ys = refl
  keep-append p (x ∷ xs) ys = elim (Bool-cases (p x)) [
    | inl e ↦ rw (e, keep-append p xs ys) refl
    | inr e ↦ rw (e, keep-append p xs ys) refl
  ]

  pub any-snoc : (p : A → Bool) (xs : List A) (y : A) → any p (xs ++ y ∷ []) ≡ any p xs || p y
  any-snoc p [] y = elim (Bool-cases (p y)) [ inl e ↦ rw e refl | inr e ↦ rw e refl ]
  any-snoc p (x ∷ xs) y = elim (Bool-cases (p x)) [
    | inl e ↦ rw e refl
    | inr e ↦ rw e (any-snoc p xs y)
  ]

  -- How many jobs of a filing are on a queue.
  unfoldable pub count : (A → String) → String → List A → ℕ
  count key a xs = length (keep (λ x. str_eq a (key x)) xs)

  pub count-snoc_same :
      (key : A → String) (xs : List A) (y : A)
      → count key (key y) (xs ++ y ∷ []) ≡ count key (key y) xs + 1
  unfolding count
  count-snoc_same key xs y = rw keep-append (rw length-append (rw str_eq_refl refl))

  pub count-snoc_other :
      (key : A → String) (a : String) (xs : List A) (y : A)
      → str_eq a (key y) ≡ false
      → count key a (xs ++ y ∷ []) ≡ count key a xs
  unfolding count
  count-snoc_other key a xs y e = rw keep-append (rw length-append (rw e (omega arith)))

bit-or : (x y : Bool) → bit x ≤ bit (x || y)
bit-or true y = omega arith
bit-or false y = omega arith

pub is_claim_self :
    (a stage : String) → is_claim a stage (record { accession_number = a; stage = stage }) ≡ true
unfolding is_claim
is_claim_self a stage = rw (str_eq_refl a, str_eq_refl stage) refl

module _ {A : Type 0} where
  -- A filing is on the queue at most once, and only if its stage is claimed.
  abbrev pub IsPassedOnce : String → (A → String) → List Claim → List A → Type 0
  IsPassedOnce stage key claims out =
      (a : String) → count key a out ≤ bit (any (is_claim a stage) claims)

  IsPassedOnce-claim :
      (stage : String) (key : A → String) (claims : List Claim) (out : List A) (c : Claim)
      → IsPassedOnce stage key claims out
      → IsPassedOnce stage key (claims ++ c ∷ []) out
  IsPassedOnce-claim stage key claims out c h a = rw any-snoc (
      let le = h a in
      let more = bit-or (any (is_claim a stage) claims) (is_claim a stage c) in omega arith)

  IsPassedOnce-pass :
      (stage : String) (key : A → String) (claims : List Claim) (out : List A) (y : A)
      → any (is_claim (key y) stage) claims ≡ false
      → IsPassedOnce stage key claims out
      → IsPassedOnce stage key
          (claims ++ record { accession_number = key y; stage = stage } ∷ [])
          (out ++ y ∷ [])
  IsPassedOnce-pass stage key claims out y fresh h a = elim (Bool-cases (str_eq a (key y))) [
    | inl e ↦
        subst
          (λ b.
            count key b (out ++ y ∷ [])
            ≤ bit (
                any (is_claim b stage)
                  (claims ++ record { accession_number = key y; stage = stage } ∷ [])))
          (sym ((str_eq_iff a (key y)).0 e))
          (rw (any-snoc, count-snoc_same key out y, fresh, is_claim_self)
            (let none_yet : count key (key y) out ≤ bit (any (is_claim (key y) stage) claims) =
                h (key y) in
              let zero_bit : bit (any (is_claim (key y) stage) claims) ≡ 0 = rw fresh refl in
              omega arith))
    | inr e ↦ rw (count-snoc_other key a out y e) (
        IsPassedOnce-claim stage key claims out (record { accession_number = key y; stage = stage })
          h a)
  ]

module _ {V S : Type 0} where
  -- No filing is twice on a queue, nor alerted twice.
  abbrev pub IsConsistent : Pipeline V S → Type 0
  IsConsistent s =
      IsPassedOnce stage_parsed (λ (j : ParsedJob). j.job.accession_number) s.claims s.parsed
      × IsPassedOnce stage_scored (λ (j : ScoredJob S). j.parsed.job.accession_number) s.claims
          s.scored
      × IsPassedOnce stage_notified (λ (a : String). a) s.claims s.alerts

  -- What the guarded call may come to.
  pub guarded-keeps :
      (P : Pipeline V S → Type 0) (a stage : String) (claim_answers act_answers : Bool)
      (act : Pipeline V S → Pipeline V S) (s : Pipeline V S)
      → P s
      → (any (is_claim a stage) s.claims ≡ false
          → P (record s {
            claims = s.claims ++ record { accession_number = a; stage = stage } ∷ [];
          }))
      → (any (is_claim a stage) s.claims ≡ false
          → P (
              act (record s {
                claims = s.claims ++ record { accession_number = a; stage = stage } ∷ [];
              })))
      → P (guarded a stage claim_answers act_answers act s).1
  unfolding guarded claim_stage
  guarded-keeps P a stage false act_answers act s h claimed acted = h
  guarded-keeps P a stage true act_answers act s h claimed acted =
      elim (Bool-cases (any (is_claim a stage) s.claims)) [
        | inl e ↦ rw e h
        | inr e ↦ elim (Bool-cases act_answers) [
          | inl f ↦ rw (e, f) (acted e)
          | inr f ↦ rw (e, f) (claimed e)
        ]
      ]

  claimed-IsConsistent :
      (s : Pipeline V S) (c : Claim)
      → IsConsistent s
      → IsConsistent (record s { claims = s.claims ++ c ∷ [] })
  claimed-IsConsistent s c (p, q, r) = (
    IsPassedOnce-claim stage_parsed _ s.claims s.parsed c p,
    IsPassedOnce-claim stage_scored _ s.claims s.scored c q,
    IsPassedOnce-claim stage_notified _ s.claims s.alerts c r,
  )

  deliver-IsConsistent :
      (checks : Checks V) (e : Event V S) (s : Pipeline V S)
      → IsConsistent s
      → IsConsistent (deliver checks e s).1
  unfolding deliver process_filing_discovered process_filing_parsed process_scores_updated
      parse_filing
  deliver-IsConsistent checks (discovered w j) s h =
      let (job, t) = parse_filing checks w j s in
      guarded-keeps IsConsistent j.accession_number stage_parsed w.claim_answers w.add_answers
        (λ u. record u { parsed = u.parsed ++ job ∷ [] }) t h (λ fresh. claimed-IsConsistent t _ h)
        (λ fresh. (
          IsPassedOnce-pass stage_parsed (λ (j : ParsedJob). j.job.accession_number) s.claims
              s.parsed job fresh h.0,
          (claimed-IsConsistent t _ h).1,
          (claimed-IsConsistent t _ h).2,
        ))
  deliver-IsConsistent checks (parsed w none j) s h = h
  deliver-IsConsistent checks (parsed w (some scores) j) s h =
      let job : ScoredJob S = record { parsed = j; scores = scores } in
      guarded-keeps IsConsistent j.job.accession_number stage_scored w.claim_answers
        w.side_effect_answers (λ u. record u { scored = u.scored ++ job ∷ [] }) s h
        (λ fresh. claimed-IsConsistent s _ h)
        (λ fresh. (
          (claimed-IsConsistent s _ h).0,
          IsPassedOnce-pass stage_scored (λ (j : ScoredJob S). j.parsed.job.accession_number)
              s.claims s.scored job fresh h.1,
          (claimed-IsConsistent s _ h).2,
        ))
  deliver-IsConsistent checks (scored w [] j) s h = h
  deliver-IsConsistent checks (scored w (watcher ∷ watchers) j) s h =
      let a = j.parsed.job.accession_number in
      guarded-keeps IsConsistent a stage_notified w.claim_answers w.side_effect_answers
        (λ u. record u { alerts = u.alerts ++ a ∷ [] }) s h (λ fresh. claimed-IsConsistent s _ h)
        (λ fresh. (
          (claimed-IsConsistent s _ h).0,
          (claimed-IsConsistent s _ h).1,
          IsPassedOnce-pass stage_notified (λ (a : String). a) s.claims s.alerts a fresh h.2,
        ))

  -- However often and in whatever order jobs are delivered to the three workers, and whichever of
  -- the claims and of the guarded calls fail: no filing is put on filing.parsed or on scores.updated
  -- more than once, nor alerted more than once, and only once its stage is claimed, if this was so
  -- before.
  pub run-IsConsistent :
      (checks : Checks V) (es : List (Event V S)) (s : Pipeline V S)
      → IsConsistent s
      → IsConsistent (run checks es s)
  unfolding run
  run-IsConsistent checks [] s h = h
  run-IsConsistent checks (e ∷ es) s h =
      run-IsConsistent checks es (deliver checks e s).1 (deliver-IsConsistent checks e s h)
