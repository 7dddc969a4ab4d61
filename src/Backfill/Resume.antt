-- ===== src/Backfill/Resume.antt =====
-- What a killed run of scripts/backfill.ts finds to do when it is started again.
use edgar_radar.Prelude.{
  ℕ, ◌+◌, ◌<◌, ◌≡◌, refl, sym, ◌∙◌, ap, String, true, false, not, ◌&&◌, Option, none, some, List,
  [], ◌∷◌, ◌++◌, map, find, keep, length, ◌==◌, str_eq, str_eq_iff, All, Bool-cases, inl, inr,
  arith,
}
use edgar_radar.Prelude.Dicts.{includes}
use edgar_radar.Facts.{Checks}
use edgar_radar.Quarantine.{
  IngestionOutcome, skipped_quarantined, success as ingested, failed as not_ingested, Fetched,
  IngestionState, attempt_company_ingestion,
}
use edgar_radar.Backfill.{
  IngestionRun, running, RunCompany, RunTables, CompanyStatus, success, failed, is_pending,
  is_running, pending_of, mark, mark_outcome, process, new_company, has_repeat, start_run,
  resume_or, start_or_resume_run, sort_ciks,
}

-- Those of a list that are not in another.
abbrev pub left_of : List String → List String → List String
left_of done ciks = keep (λ c. not (includes c done)) ciks

left_of-cons :
    (cik : String) (done ciks : List String)
    → left_of done (keep (λ c. not (str_eq cik c)) ciks) ≡ left_of (cik ∷ done) ciks
unfolding includes
left_of-cons cik done [] = refl
left_of-cons cik done (c ∷ cs) =
    let ih = left_of-cons cik done cs in
    elim (Bool-cases (str_eq cik c)) [
      | inl e ↦ rw e ih
      | inr e ↦ elim (Bool-cases (includes c done)) [
        | inl f ↦ rw (e, f) ih
        | inr f ↦ rw (e, f) (ap (λ l. c ∷ l) ih)
      ]
    ]

left_of-none : (ciks : List String) → left_of [] ciks ≡ ciks
unfolding includes
left_of-none [] = refl
left_of-none (c ∷ cs) = ap (λ l. c ∷ l) (left_of-none cs)

str_eq_comm : (a b : String) → str_eq b a ≡ str_eq a b
str_eq_comm a b = ground (arith, str_eq_iff a b, str_eq_iff b a)

module _ (id : ℕ) where
  pub pending_of-append :
      (xs ys : List RunCompany) → pending_of id (xs ++ ys) ≡ pending_of id xs ++ pending_of id ys
  unfolding pending_of
  pending_of-append [] ys = refl
  pending_of-append (x ∷ xs) ys =
      let ih = pending_of-append xs ys in
      elim (Bool-cases ((x.run_id == id) && is_pending x.status)) [
        | inl e ↦ rw e (ap (λ l. x.cik ∷ l) ih)
        | inr e ↦ rw e ih
      ]

  pub pending_of-older :
      (xs : List RunCompany) → All (λ (r : RunCompany). r.run_id < id) xs → pending_of id xs ≡ []
  unfolding pending_of
  pending_of-older [] _ = refl
  pending_of-older (x ∷ xs) (lt, h) =
      let other : (x.run_id == id) ≡ false = ground arith in rw other (pending_of-older xs h)

  pub pending_of-new : (ciks : List String) → pending_of id (map (new_company id) ciks) ≡ ciks
  unfolding pending_of
  pending_of-new [] = refl
  pending_of-new (c ∷ cs) =
      let same : (id == id) ≡ true = ground arith in rw same (ap (λ l. c ∷ l) (pending_of-new cs))

  pending_of-mark :
      (cik : String) (status : CompanyStatus) (message : Option String) (rows : List RunCompany)
      → is_pending status ≡ false
      → pending_of id (mark id cik status message rows)
        ≡ keep (λ c. not (str_eq cik c)) (pending_of id rows)
  unfolding pending_of mark
  pending_of-mark cik status message [] e = refl
  pending_of-mark cik status message (r ∷ rows) e =
      let ih = pending_of-mark cik status message rows e in
      elim (Bool-cases (r.run_id == id)) [
        | inr other ↦ rw (other, other) ih
        | inl ours ↦ elim (Bool-cases (str_eq r.cik cik)) [
          | inl same ↦
              let flipped = str_eq_comm r.cik cik ∙ same in
              elim (Bool-cases (is_pending r.status)) [
                | inl p ↦ rw (ours, same, ours, e, p, flipped) ih
                | inr p ↦ rw (ours, same, ours, e, p) ih
              ]
          | inr different ↦
              let flipped = str_eq_comm r.cik cik ∙ different in
              elim (Bool-cases (is_pending r.status)) [
                | inl p ↦ rw (ours, different, ours, p, flipped) (ap (λ l. r.cik ∷ l) ih)
                | inr p ↦ rw (ours, different, ours, p) ih
              ]
        ]
      ]

  -- Each way of marking a company takes it off the pending ones, and leaves the runs alone.
  mark_outcome-pending_of :
      (cik : String) (outcome : IngestionOutcome) (t : RunTables)
      → (pending_of id (mark_outcome id cik outcome t).companies
          ≡ keep (λ c. not (str_eq cik c)) (pending_of id t.companies))
        × ((mark_outcome id cik outcome t).runs ≡ t.runs)
  unfolding mark_outcome
  mark_outcome-pending_of cik skipped_quarantined t =
      (pending_of-mark cik failed _ t.companies refl, refl)
  mark_outcome-pending_of cik ingested t = (pending_of-mark cik success _ t.companies refl, refl)
  mark_outcome-pending_of cik (not_ingested newly error) t =
      (pending_of-mark cik failed _ t.companies refl, refl)

  pub process-pending_of :
      {V : Type 0} (checks : Checks V) (now : ℕ) (fetched : String → Fetched V) (done : List String)
      (s : IngestionState V) (t : RunTables)
      → (pending_of id (process checks now fetched id done s t).1.companies
          ≡ left_of done (pending_of id t.companies))
        × ((process checks now fetched id done s t).1.runs ≡ t.runs)
  unfolding process
  process-pending_of checks now fetched [] s t =
      (sym (left_of-none (pending_of id t.companies)), refl)
  process-pending_of checks now fetched (cik ∷ done) s t =
      let (outcome, after) = attempt_company_ingestion checks now cik (fetched cik) s in
      let (one, same) = mark_outcome-pending_of cik outcome t in
      let (rest, still) =
        process-pending_of checks now fetched done after (mark_outcome id cik outcome t) in
      (
        rest ∙ ap (left_of done) one ∙ left_of-cons cik done (pending_of id t.companies),
        still ∙ same,
      )

abbrev pub first_run : List String → RunTables → IngestionRun
first_run ciks t = record { id = t.next_id; total_companies = length ciks; status = running }

abbrev pub with_run : List String → RunTables → RunTables
with_run ciks t = record {
  next_id = t.next_id + 1;
  runs = first_run ciks t ∷ t.runs;
  companies = t.companies ++ map (new_company t.next_id) ciks;
}

pub starts :
    (ciks : List String) (t : RunTables)
    → find is_running t.runs ≡ none
    → has_repeat ciks ≡ false
    → start_or_resume_run ciks t ≡ (some (first_run ciks t, ciks), with_run ciks t)
unfolding start_or_resume_run resume_or start_run
starts ciks t idle distinct = rw (idle, distinct) refl

resumes :
    (ciks : List String) (t : RunTables) (run : IngestionRun)
    → find is_running t.runs ≡ some run
    → start_or_resume_run ciks t ≡ (some (run, sort_ciks (pending_of run.id t.companies)), t)
unfolding start_or_resume_run resume_or
resumes ciks t run e = rw e refl

-- No run is under way, the ids of the stored ones are below the next, and no company is listed twice:
-- a run begins with all companies pending; and if it is killed after some companies, whatever came of
-- them, then starting again, with any list of companies, resumes the same run with the companies that
-- were not processed, in the order of their ciks, and changes nothing.
pub start_or_resume_run-process :
    {V : Type 0} (checks : Checks V) (now : ℕ) (fetched : String → Fetched V)
    (ciks done other : List String) (s : IngestionState V) (t : RunTables)
    → find is_running t.runs ≡ none
    → All (λ (r : RunCompany). r.run_id < t.next_id) t.companies
    → has_repeat ciks ≡ false
    → (let run : IngestionRun = record {
      id = t.next_id;
      total_companies = length ciks;
      status = running;
    } in
        let begun = start_or_resume_run ciks t in
        let (after, killed) = process checks now fetched t.next_id done s begun.1 in
        (begun.0 ≡ some (run, ciks))
        × (start_or_resume_run other killed ≡ (some (run, sort_ciks (left_of done ciks)), killed)))
unfolding is_running
start_or_resume_run-process checks now fetched ciks done other s t idle older distinct =
    let fresh = with_run ciks t in
    let killed = (process checks now fetched t.next_id done s fresh).1 in
    let (left, same) = process-pending_of t.next_id checks now fetched done s fresh in
    let all_pending : pending_of t.next_id fresh.companies ≡ ciks =
      rw (pending_of-append t.next_id t.companies _, pending_of-older t.next_id t.companies older)
        (pending_of-new t.next_id ciks) in
    rw (starts ciks t idle distinct)
      (refl, rw (resumes other killed (first_run ciks t) (rw same refl), left, all_pending) refl)
