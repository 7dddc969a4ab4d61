-- ===== src/Pipeline/Handoff.antt =====
-- How a filing passes from the parser worker to the scoring worker: the claim comes before the job
-- is put on the queue, and decides for good.
use edgar_radar.Prelude.{
  ℕ, ◌+◌, ◌≡◌, refl, sym, ◌∙◌, inl, inr, subst, String, true, false, List, [], ◌∷◌, ◌++◌, any,
  str_eq, str_eq_iff, Bool-cases, if◌then◌else◌, none, some, arith,
}
use edgar_radar.Facts.{Checks}
use edgar_radar.Poller.{Job}
use edgar_radar.Pipeline.{
  Claim, is_claim, claim_stage, returned, thrown, ParsedJob, Pipeline, ParserWorld, stage_parsed,
  stage_scored, stage_notified, guarded, parse_filing, process_filing_discovered,
  process_filing_parsed, process_scores_updated, Event, discovered, parsed, scored, deliver, run,
}
use edgar_radar.Pipeline.Stages.{
  bit, count, count-snoc_same, count-snoc_other, any-snoc, is_claim_self, guarded-keeps,
}

abbrev pub accession_of : ParsedJob → String
accession_of j = j.job.accession_number

claimed_still :
    (a : String) (claims : List Claim) (c : Claim)
    → any (is_claim a stage_parsed) claims ≡ true
    → any (is_claim a stage_parsed) (claims ++ c ∷ []) ≡ true
claimed_still a claims c e = rw (any-snoc, e) refl

module _ {V S : Type 0} where
  -- The filing is claimed for filing.parsed, and is on it `n` times.
  abbrev IsSettled : String → ℕ → Pipeline V S → Type 0
  IsSettled a n s =
      (any (is_claim a stage_parsed) s.claims ≡ true) × (count accession_of a s.parsed ≡ n)

  deliver-IsSettled :
      (checks : Checks V) (e : Event V S) (a : String) (n : ℕ) (s : Pipeline V S)
      → IsSettled a n s
      → IsSettled a n (deliver checks e s).1
  unfolding deliver process_filing_discovered process_filing_parsed process_scores_updated
      parse_filing
  deliver-IsSettled checks (discovered w j) a n s (e, c) =
      let (job, t) = parse_filing checks w j s in
      guarded-keeps (IsSettled a n) j.accession_number stage_parsed w.claim_answers w.add_answers
        (λ u. record u { parsed = u.parsed ++ job ∷ [] }) t (e, c)
        (λ fresh. (claimed_still a s.claims _ e, c))
        (λ fresh. (claimed_still a s.claims _ e, other job fresh ∙ c))
    where
      other :
          (job : ParsedJob)
          → any (is_claim (accession_of job) stage_parsed) s.claims ≡ false
          → count accession_of a (s.parsed ++ job ∷ []) ≡ count accession_of a s.parsed
      other job fresh = elim (Bool-cases (str_eq a (accession_of job))) [
        | inl same ↦
            let unclaimed : any (is_claim a stage_parsed) s.claims ≡ false =
              subst (λ b. any (is_claim b stage_parsed) s.claims ≡ false)
                (sym ((str_eq_iff a (accession_of job)).0 same)) fresh in
            absurd (cc)
        | inr apart ↦ count-snoc_other accession_of a s.parsed job apart
      ]
  deliver-IsSettled checks (parsed w none j) a n s h = h
  deliver-IsSettled checks (parsed w (some scores) j) a n s (e, c) =
      guarded-keeps (IsSettled a n) j.job.accession_number stage_scored w.claim_answers
        w.side_effect_answers
        (λ u. record u { scored = u.scored ++ record { parsed = j; scores = scores } ∷ [] }) s
        (e, c) (λ fresh. (claimed_still a s.claims _ e, c))
        (λ fresh. (claimed_still a s.claims _ e, c))
  deliver-IsSettled checks (scored w [] j) a n s h = h
  deliver-IsSettled checks (scored w (watcher ∷ watchers) j) a n s (e, c) =
      guarded-keeps (IsSettled a n) j.parsed.job.accession_number stage_notified w.claim_answers
        w.side_effect_answers
        (λ u. record u { alerts = u.alerts ++ j.parsed.job.accession_number ∷ [] }) s (e, c)
        (λ fresh. (claimed_still a s.claims _ e, c)) (λ fresh. (claimed_still a s.claims _ e, c))

  run-IsSettled :
      (checks : Checks V) (es : List (Event V S)) (a : String) (n : ℕ) (s : Pipeline V S)
      → IsSettled a n s
      → IsSettled a n (run checks es s)
  unfolding run
  run-IsSettled checks [] a n s h = h
  run-IsSettled checks (e ∷ es) a n s h =
      run-IsSettled checks es a n (deliver checks e s).1 (deliver-IsSettled checks e a n s h)

  first_delivery :
      (checks : Checks V) (w : ParserWorld V) (j : Job) (s : Pipeline V S)
      → any (is_claim j.accession_number stage_parsed) s.claims ≡ false
      → w.claim_answers ≡ true
      → ((deliver checks (discovered w j) s).0 ≡ (if w.add_answers then returned else thrown))
        × IsSettled j.accession_number
            (count accession_of j.accession_number s.parsed + bit w.add_answers)
            (deliver checks (discovered w j) s).1
  unfolding deliver process_filing_discovered parse_filing guarded claim_stage
  first_delivery checks w j s fresh answers = elim (Bool-cases w.add_answers) [
    | inl e ↦ rw (answers, fresh, e) (refl, (claimed, count-snoc_same accession_of s.parsed _))
    | inr e ↦ rw (answers, fresh, e) (refl, (claimed, omega arith))
  ]
    where
      claimed :
          any (is_claim j.accession_number stage_parsed) (
            s.claims ++ record { accession_number = j.accession_number; stage = stage_parsed } ∷ [])
          ≡ true
      claimed = rw (any-snoc, fresh, is_claim_self) refl

  -- On the first delivery of a filing.discovered job whose filing is not yet claimed for
  -- filing.parsed, and whose claim the database answers, `processFilingDiscovered` returns if the
  -- queue takes the next job and throws if it does not; whatever is delivered after that, the filing
  -- is then on filing.parsed once more in the first case, and in the second, where BullMQ delivers
  -- the job again, not once more, ever.
  pub handoff :
      (checks : Checks V) (w : ParserWorld V) (j : Job) (s : Pipeline V S)
      (later : List (Event V S))
      → any (is_claim j.accession_number stage_parsed) s.claims ≡ false
      → w.claim_answers ≡ true
      → ((deliver checks (discovered w j) s).0 ≡ (if w.add_answers then returned else thrown))
        × (count accession_of j.accession_number
              (run checks later (deliver checks (discovered w j) s).1).parsed
            ≡ count accession_of j.accession_number s.parsed + bit w.add_answers)
  handoff checks w j s later fresh answers =
      let (ends, settled) = first_delivery checks w j s fresh answers in
      (ends, (run-IsSettled checks later j.accession_number _ _ settled).1)
