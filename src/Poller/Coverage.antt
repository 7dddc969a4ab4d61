-- ===== src/Poller/Coverage.antt =====
-- The cursor moves only past filings that have been discovered (src/poller.ts).
use edgar_radar.Prelude.{
  ℕ, ◌≤◌, ◌+◌, ◌≡◌, refl, ◌∙◌, inl, inr, ◌⊎◌, true, false, some, List, [], ◌∷◌, arith, Bool-cases,
  All, All-impl, Among, All-Among, All-of_Among, Among-keep, if-elim, le→leb, length,
}
use edgar_radar.Prelude.Dicts.{includes, IsIn, includes→IsIn}
use edgar_radar.Sec.{Date}
use edgar_radar.Sec.Recent.{FilingReference, SecSubmissions}
use edgar_radar.Quarantine.{Failing, is_quarantined}
use edgar_radar.Poller.{
  UniverseEntry, Db, Progress, World, Response, received, thrown, Ending, going, threw,
  unless_threw, accessions, is_candidate, new_filings, note_industry, take_filings, CycleResult,
  rethrown, enqueue_all, take_submissions, take_response, check_company, check_companies, end_cycle,
  run_poll_cycle, earliest_filing_date, start_run,
}
use edgar_radar.Poller.Invariant.{
  note_industry-SameLoop, note_industry-failing, check_companies-keeps,
}
use edgar_radar.Poller.Enqueued.{Grows, AllIn, enqueue_all-Enqueued}

module _ (w : World) where
  module _ (earliest : Date) where
    -- The filings of the window that a company lists.
    abbrev pub WindowIn : List FilingReference → Db → Type 0
    WindowIn recent db =
        All (λ f. earliest ≤ f.filing_date → IsIn f.accession_number (accessions db.discovered))
          recent

    window_of_fresh :
        (recent : List FilingReference) (before after : Db)
        → Grows before after
        → AllIn (new_filings earliest before.discovered recent) after
        → WindowIn recent after
    unfolding new_filings
    window_of_fresh recent before after grows fresh =
        All-of_Among _ recent (λ f m late. known f m late (Bool-cases _))
      where
        known :
            (f : FilingReference)
            → Among f recent
            → earliest ≤ f.filing_date
            → (includes f.accession_number (accessions before.discovered) ≡ true)
              ⊎ (includes f.accession_number (accessions before.discovered) ≡ false)
            → IsIn f.accession_number (accessions after.discovered)
        known f m late (inl old) = grows f.accession_number (includes→IsIn _ _ old)
        known f m late (inr new) = All-Among _ _ fresh (
            Among-keep _ _ (Among-keep (is_candidate earliest) recent m (le→leb _ _ late))
              (rw new refl))

    -- A company is in quarantine, or its filings were fetched and those of the window are discovered.
    abbrev pub IsCovered : Failing → Db → UniverseEntry → Type 0
    IsCovered failing db entry =
        (is_quarantined entry.cik failing ≡ true)
        ⊎ ((submissions : SecSubmissions) × (w.fetch entry.cik ≡ received submissions)
            × WindowIn submissions.recent db)

    -- What the loop has done from `p` to `r`, where it neither threw nor failed to fetch.
    abbrev Checked : List UniverseEntry → Progress → Progress × Ending → Type 0
    Checked entries p r =
        r.1 ≡ going
        → r.0.submission_check_failures ≡ 0
        → (p.submission_check_failures ≡ 0)
          × (r.0.db.failing ≡ p.db.failing)
          × All (IsCovered p.db.failing r.0.db) entries
          × Grows p.db r.0.db

    IsCovered-Grows :
        (failing : Failing) (a b : Db) (entry : UniverseEntry)
        → Grows a b
        → IsCovered failing a entry
        → IsCovered failing b entry
    IsCovered-Grows failing a b entry grows (inl q) = inl q
    IsCovered-Grows failing a b entry grows (inr (submissions, e, h)) =
        inr (submissions, e, All-impl _ (λ f k late. grows f.accession_number (k late)) h)

    unless_threw-Checked :
        (entries : List UniverseEntry) (p here : Progress) (ending : Ending)
        (rest : Progress × Ending)
        → (ending ≡ going → Checked entries p rest)
        → Checked entries p (unless_threw here ending rest)
    unless_threw-Checked entries p here going rest h = h refl
    unless_threw-Checked entries p here threw rest h = λ went. cc

    threw-Checked :
        (entries : List UniverseEntry) (p here : Progress) → Checked entries p (here, threw)
    threw-Checked entries p here = λ went. cc

    take_filings-Checked :
        (entry : UniverseEntry) (submissions : SecSubmissions) (p : Progress)
        → w.fetch entry.cik ≡ received submissions
        → Checked (entry ∷ []) p (take_filings w earliest entry submissions p)
    unfolding take_filings
    take_filings-Checked entry submissions p fetched =
        let fresh = new_filings earliest p.db.discovered submissions.recent in
        let (grows, rest, all_in) = enqueue_all-Enqueued w entry fresh p.db in
        if-elim (λ r. Checked (entry ∷ []) p r) _ _ _ (λ _. threw-Checked (entry ∷ []) p p)
          (λ _ went none_failed. (
            none_failed,
            rest.0,
            (
              inr (
                submissions,
                fetched,
                window_of_fresh submissions.recent p.db (enqueue_all w entry fresh p.db).0 grows
                    (all_in went),
              ),
              tt,
            ),
            grows,
          ))

    take_submissions-Checked :
        (entry : UniverseEntry) (submissions : SecSubmissions) (p : Progress)
        → w.fetch entry.cik ≡ received submissions
        → Checked (entry ∷ []) p (take_submissions w earliest entry submissions p)
    unfolding take_submissions
    take_submissions-Checked entry submissions p fetched =
        let works = w.industry_works entry.cik in
        let noted = (note_industry works entry.cik submissions p.db).0 in
        let here : Progress = record p { db = noted } in
        let same = note_industry-SameLoop works entry.cik submissions p.db in
        let failing = note_industry-failing works entry.cik submissions p.db in
        unless_threw-Checked (entry ∷ []) p here _ _ λ _ went none_failed.
          let (none_before, failing_after, covered, grows) =
            take_filings-Checked entry submissions here fetched went none_failed in
          (
            none_before,
            failing_after ∙ failing,
            rw failing at covered,
            λ x m. grows x (rw same.0.0 m),
          )

    take_response-Checked :
        (entry : UniverseEntry) (p : Progress) (r : Response)
        → w.fetch entry.cik ≡ r
        → Checked (entry ∷ []) p (take_response w earliest entry p r)
    unfolding take_response
    take_response-Checked entry p (received submissions) fetched =
        take_submissions-Checked entry submissions p fetched
    take_response-Checked entry p (thrown message) fetched =
        if-elim (λ r. Checked (entry ∷ []) p r) (w.failure_works entry.cik) _ _
          (λ _ went none_failed. absurd (omega arith)) (λ _ went none_failed. absurd (omega arith))

    check_company-Checked :
        (entry : UniverseEntry) (p : Progress)
        → Checked (entry ∷ []) p (check_company w earliest entry p)
    unfolding check_company
    check_company-Checked entry p =
        let counted = record p { companies_checked = p.companies_checked + 1 } in
        if-elim (λ r. Checked (entry ∷ []) p r) _ _ _ (λ _. threw-Checked (entry ∷ []) p counted)
          (λ _.
            if-elim (λ r. Checked (entry ∷ []) p r) (is_quarantined entry.cik p.db.failing)
              (counted, going) (take_response w earliest entry counted (w.fetch entry.cik))
              (λ e went none_failed. (none_failed, refl, (inl e, tt), λ x m. m))
              (λ _. take_response-Checked entry counted (w.fetch entry.cik) refl))

    check_companies-Checked :
        (entries : List UniverseEntry) (p : Progress)
        → Checked entries p (check_companies w earliest entries p)
    unfolding check_companies
    check_companies-Checked [] p = λ went none_failed. (none_failed, refl, tt, λ x m. m)
    check_companies-Checked (entry ∷ entries) p =
        unless_threw-Checked (entry ∷ entries) p _ _ _ λ first went none_failed.
          let (none_before, failing, covered, grows) =
            check_companies-Checked entries (check_company w earliest entry p).0 went none_failed in
          let (none_first, failing_first, covered_first, grows_first) =
            check_company-Checked entry p first none_before in
          (
            none_first,
            failing ∙ failing_first,
            (
              IsCovered-Grows p.db.failing (check_company w earliest entry p).0.db
                  (check_companies w earliest entries (check_company w earliest entry p).0).0.db
                  entry grows covered_first.0,
              rw failing_first at covered,
            ),
            λ x m. grows x (grows_first x m),
          )

-- The cursor of a finished cycle.
end_cycle-cursor :
    (w : World) (started_at id : ℕ) (p : Progress) (ending : Ending)
    → ((end_cycle w started_at id p ending).1.last_checked_at ≡ p.db.last_checked_at)
      ⊎ ((ending ≡ going)
          × (p.submission_check_failures ≡ 0)
          × ((end_cycle w started_at id p ending).1.last_checked_at ≡ some started_at))
unfolding end_cycle
end_cycle-cursor w started_at id p threw = inl (ground arith)
end_cycle-cursor w started_at id p going = ground arith

end_cycle-discovered :
    (w : World) (started_at id : ℕ) (p : Progress) (ending : Ending)
    → p.db.discovered ≡ (end_cycle w started_at id p ending).1.discovered
unfolding end_cycle
end_cycle-discovered w started_at id p going = ground arith
end_cycle-discovered w started_at id p threw = ground arith

-- A poll cycle either leaves the cursor where it was, or moves it to the cycle's start; and it moves
-- it only where each company of the universe was in quarantine when the cycle began, or was fetched
-- with every filing of its list that is dated within the look-back window discovered afterwards.
pub run_poll_cycle-IsCovered :
    (w : World) (universe : List UniverseEntry) (db : Db)
    → ((run_poll_cycle w universe db).1.last_checked_at ≡ db.last_checked_at)
      ⊎ (((run_poll_cycle w universe db).1.last_checked_at ≡ some w.now)
          × All
              (IsCovered w (earliest_filing_date w db) db.failing (run_poll_cycle w universe db).1)
              universe)
unfolding run_poll_cycle
run_poll_cycle-IsCovered w universe db =
    if-elim
      (λ (r : CycleResult × Db).
        (r.1.last_checked_at ≡ db.last_checked_at)
        ⊎ ((r.1.last_checked_at ≡ some w.now) × All (IsCovered w earliest db.failing r.1) universe))
      w.start_works (end_cycle w w.now (length db.runs) last.0 last.1) (rethrown, db)
      (λ _. elim (end_cycle-cursor w w.now (length db.runs) last.0 last.1) [
        | inl same ↦ inl (same ∙ unmoved)
        | inr (went, none_failed, moved) ↦
            let (_, _, covered, _) =
              check_companies-Checked w earliest universe first went none_failed in
            inr (
              moved,
              All-impl universe
                  (λ entry c.
                    IsCovered-Grows w earliest db.failing last.0.db
                      (end_cycle w w.now (length db.runs) last.0 last.1).1 entry
                      (λ x m. rw (← end_cycle-discovered w w.now (length db.runs) last.0 last.1) m)
                      c)
                  covered,
            )
      ])
      (λ _. inl refl)
  where
    earliest : Date
    earliest = earliest_filing_date w db

    first : Progress
    first = record {
      db = start_run db;
      companies_checked = 0;
      new_filings_found = 0;
      submission_check_failures = 0;
    }

    last : Progress × Ending
    last = check_companies w earliest universe first

    unmoved : last.0.db.last_checked_at ≡ db.last_checked_at
    unmoved =
        check_companies-keeps w (λ d. d.last_checked_at ≡ db.last_checked_at)
          (λ a b same h. same.1 ∙ h) earliest
          (λ entry submissions d e h.
            let (_, rest, _) = enqueue_all-Enqueued w entry _ d in rest.1 ∙ h)
          universe first refl
