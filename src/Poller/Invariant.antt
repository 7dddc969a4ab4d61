-- ===== src/Poller/Invariant.antt =====
-- How a property of the ledger and the queue goes through a cycle of src/poller.ts.
use edgar_radar.Prelude.{
  ℕ, Bool, ◌≡◌, refl, inl, inr, List, [], ◌∷◌, arith, Bool-cases, if-elim, length, String,
}
use edgar_radar.Sec.{Date}
use edgar_radar.Sec.Recent.{SecSubmissions}
use edgar_radar.Quarantine.{is_quarantined}
use edgar_radar.Poller.{
  UniverseEntry, Db, Progress, World, Response, received, thrown, Ending, going, threw,
  note_industry, new_filings, enqueue_all, take_submissions, take_filings, check_company,
  check_companies, unless_threw, take_response, end_cycle, run_poll_cycle, CycleResult, rethrown,
  earliest_filing_date, start_run,
}

-- The discovered filings and the queue are the same.
abbrev pub SameLedger : Db → Db → Type 0
SameLedger a b = (a.discovered ≡ b.discovered) × (a.queue ≡ b.queue)

-- So is the cursor, which a cycle moves only at its end.
abbrev pub SameLoop : Db → Db → Type 0
SameLoop a b = SameLedger a b × (a.last_checked_at ≡ b.last_checked_at)

pub note_industry-SameLoop :
    (works : Bool) (cik : String) (submissions : SecSubmissions) (db : Db)
    → SameLoop (note_industry works cik submissions db).0 db
unfolding note_industry
note_industry-SameLoop works cik submissions db = ((ground arith, ground arith), ground arith)

pub note_industry-failing :
    (works : Bool) (cik : String) (submissions : SecSubmissions) (db : Db)
    → (note_industry works cik submissions db).0.failing ≡ db.failing
unfolding note_industry
note_industry-failing works cik submissions db = ground arith

module _ (w : World) (P : Db → Type 0) (transfer : (a b : Db) → SameLoop a b → P b → P a)
    (earliest : Date)
    (step : (entry : UniverseEntry) (submissions : SecSubmissions) (db : Db)
      → w.fetch entry.cik ≡ received submissions
      → P db
      → P (enqueue_all w entry (new_filings earliest db.discovered submissions.recent) db).0) where
  unless_threw-keeps :
      (here : Progress) (ending : Ending) (rest : Progress × Ending)
      → P here.db
      → P rest.0.db
      → P (unless_threw here ending rest).0.db
  unless_threw-keeps here going rest a b = b
  unless_threw-keeps here threw rest a b = a

  take_filings-keeps :
      (entry : UniverseEntry) (submissions : SecSubmissions) (p : Progress)
      → w.fetch entry.cik ≡ received submissions
      → P p.db
      → P (take_filings w earliest entry submissions p).0.db
  unfolding take_filings
  take_filings-keeps entry submissions p e h =
      if-elim (λ (r : Progress × Ending). P r.0.db) _ _ _ (λ _. h)
        (λ _. step entry submissions p.db e h)

  take_submissions-keeps :
      (entry : UniverseEntry) (submissions : SecSubmissions) (p : Progress)
      → w.fetch entry.cik ≡ received submissions
      → P p.db
      → P (take_submissions w earliest entry submissions p).0.db
  unfolding take_submissions
  take_submissions-keeps entry submissions p e h =
      let works = w.industry_works entry.cik in
      let noted = transfer _ p.db (note_industry-SameLoop works entry.cik submissions p.db) h in
      unless_threw-keeps _ _ _ noted (take_filings-keeps entry submissions _ e noted)

  take_response-keeps :
      (entry : UniverseEntry) (p : Progress) (r : Response)
      → w.fetch entry.cik ≡ r
      → P p.db
      → P (take_response w earliest entry p r).0.db
  unfolding take_response
  take_response-keeps entry p (received submissions) e h =
      take_submissions-keeps entry submissions p e h
  take_response-keeps entry p (thrown message) e h = elim (Bool-cases (w.failure_works entry.cik)) [
    | inl f ↦ rw f (transfer _ p.db ((refl, refl), refl) h)
    | inr f ↦ rw f h
  ]

  check_company-keeps :
      (entry : UniverseEntry) (p : Progress) → P p.db → P (check_company w earliest entry p).0.db
  unfolding check_company
  check_company-keeps entry p h = elim (Bool-cases (w.quarantine_works entry.cik)) [
    | inr f ↦ rw f h
    | inl f ↦ elim (Bool-cases (is_quarantined entry.cik p.db.failing)) [
      | inl e ↦ rw (f, e) h
      | inr e ↦ rw (f, e) (take_response-keeps entry _ (w.fetch entry.cik) refl h)
    ]
  ]

  pub check_companies-keeps :
      (universe : List UniverseEntry) (p : Progress)
      → P p.db
      → P (check_companies w earliest universe p).0.db
  unfolding check_companies
  check_companies-keeps [] p h = h
  check_companies-keeps (entry ∷ entries) p h =
      let here = check_company-keeps entry p h in
      unless_threw-keeps _ _ _ here
        (check_companies-keeps entries (check_company w earliest entry p).0 here)

end_cycle-SameLedger :
    (w : World) (started_at id : ℕ) (p : Progress) (ending : Ending)
    → SameLedger (end_cycle w started_at id p ending).1 p.db
unfolding end_cycle
end_cycle-SameLedger w started_at id p going = (ground arith, ground arith)
end_cycle-SameLedger w started_at id p threw = (ground arith, ground arith)

-- A property of the ledger and the queue that the jobs of each company keep, also where one of them
-- throws, is kept by the whole cycle, however it ends.
pub run_poll_cycle-keeps :
    (w : World) (P : Db → Type 0) (universe : List UniverseEntry) (db : Db)
    → ((a b : Db) → SameLedger a b → P b → P a)
    → ((entry : UniverseEntry) (submissions : SecSubmissions) (d : Db)
        → w.fetch entry.cik ≡ received submissions
        → P d
        → P
            (enqueue_all w entry
              (new_filings (earliest_filing_date w db) d.discovered submissions.recent)
              d).0)
    → P db
    → P (run_poll_cycle w universe db).1
unfolding run_poll_cycle
run_poll_cycle-keeps w P universe db transfer step h =
    let first : Progress = record {
      db = start_run db;
      companies_checked = 0;
      new_filings_found = 0;
      submission_check_failures = 0;
    } in
    let last = check_companies w (earliest_filing_date w db) universe first in
    if-elim (λ (r : CycleResult × Db). P r.1) w.start_works
      (end_cycle w w.now (length db.runs) last.0 last.1) (rethrown, db)
      (λ _. transfer _ _ (end_cycle-SameLedger w w.now (length db.runs) last.0 last.1) (
        check_companies-keeps w P (λ a b same h. transfer a b same.0 h) (earliest_filing_date w db)
          step universe first (transfer (start_run db) db (refl, refl) h)))
      (λ _. h)
