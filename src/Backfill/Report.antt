-- ===== src/Backfill/Report.antt =====
-- The numbers that scripts/backfill.ts prints at its end.
use edgar_radar.Prelude.{
  ℕ, ◌+◌, ◌<◌, ◌≡◌, refl, sym, ◌∙◌, ap, String, false, Option, none, some, List, [], ◌∷◌, ◌++◌, map,
  find, length, ◌==◌, ==_iff, str_eq, All, keep-none, Bool-cases, inl, inr, if◌then◌else◌, arith,
}
use edgar_radar.Prelude.Dicts.{IsIn→includes}
use edgar_radar.Facts.{Checks}
use edgar_radar.Quarantine.{
  IngestionOutcome, skipped_quarantined, success as ingested, failed as not_ingested, Fetched,
  IngestionState, attempt_company_ingestion,
}
use edgar_radar.Backfill.{
  RunCompany, RunTables, CompanyStatus, pending, success, failed, is_pending, same_status,
  is_running, pending_of, mark, mark_outcome, process, new_company, has_repeat, count_status, group,
  add_group, add_groups, RunSummary, get_run_summary, backfill, finish, complete_run,
}
use edgar_radar.Backfill.Resume.{
  left_of, process-pending_of, pending_of-append, pending_of-older, pending_of-new, starts,
  with_run,
}

module _ (f p s : ℕ) where
  abbrev after_failed : RunSummary
  after_failed = record { total = 0 + f; success = 0; failed = f; pending = 0 }

  abbrev after_pending : RunSummary
  after_pending = record { total = 0 + f + p; success = 0; failed = f; pending = p }

  abbrev after_success : RunSummary
  after_success = record { total = 0 + f + p + s; success = s; failed = f; pending = p }

-- A status with no row leaves the summary as a group of none would.
add_groups-group :
    (s : CompanyStatus) (n : ℕ) (rest : List (CompanyStatus × ℕ)) (r next : RunSummary)
    → (n ≡ 0 → next ≡ r)
    → add_group r (s, n) ≡ next
    → add_groups r (group s n ++ rest) ≡ add_groups next rest
unfolding add_groups group
add_groups-group s n rest r next z e = elim (Bool-cases (n == 0)) [
  | inl zero_rows ↦ rw (zero_rows, z ((==_iff n 0).0 zero_rows)) refl
  | inr some_rows ↦ rw (some_rows, e) refl
]

add_groups-group_last :
    (s : CompanyStatus) (n : ℕ) (r next : RunSummary)
    → (n ≡ 0 → next ≡ r)
    → add_group r (s, n) ≡ next
    → add_groups r (group s n) ≡ next
unfolding add_groups group
add_groups-group_last s n r next z e = elim (Bool-cases (n == 0)) [
  | inl zero_rows ↦ rw zero_rows (sym (z ((==_iff n 0).0 zero_rows)))
  | inr some_rows ↦ rw some_rows e
]

get_run_summary_lem :
    (id : ℕ) (t : RunTables)
    → get_run_summary id t
      ≡ after_success
          (count_status id failed t.companies)
          (count_status id pending t.companies)
          (count_status id success t.companies)
unfolding get_run_summary add_groups add_group
get_run_summary_lem id t =
    let f = count_status id failed t.companies in
    let p = count_status id pending t.companies in
    let s = count_status id success t.companies in
    let start : RunSummary = record { total = 0; success = 0; failed = 0; pending = 0 } in
    add_groups-group failed f (group pending p ++ group success s) start (after_failed f p s)
      (λ e. rw e refl) refl
    ∙ add_groups-group pending p (group success s) (after_failed f p s) (after_pending f p s)
        (λ e.
          rw e (ap (λ n. record { total = n; success = 0; failed = f; pending = 0 }) (omega arith)))
        refl
    ∙ add_groups-group_last success s (after_pending f p s) (after_success f p s)
        (λ e.
          rw e (ap (λ n. record { total = n; success = 0; failed = f; pending = p }) (omega arith)))
        refl

one_status :
    (s : CompanyStatus) (f p u n : ℕ)
    → f + p + u ≡ n
    → (if same_status s failed then f + 1 else f)
        + (if same_status s pending then p + 1 else p)
        + (if same_status s success then u + 1 else u)
      ≡ n + 1
one_status pending f p u n e = omega arith
one_status success f p u n e = omega arith
one_status failed f p u n e = omega arith

one_pending :
    (s : CompanyStatus) (c : String) (cs : List String) (n : ℕ)
    → n ≡ length cs
    → (if same_status s pending then n + 1 else n) ≡ length (if is_pending s then c ∷ cs else cs)
one_pending pending c cs n e = omega arith
one_pending success c cs n e = e
one_pending failed c cs n e = e

module _ (id : ℕ) where
  -- The rows of the run.
  abbrev rows_of : List RunCompany → ℕ
  rows_of [] = 0
  rows_of (r ∷ rs) = let rest = rows_of rs in if r.run_id == id then rest + 1 else rest

  rows_of-append : (xs ys : List RunCompany) → rows_of (xs ++ ys) ≡ rows_of xs + rows_of ys
  rows_of-append [] ys = omega arith
  rows_of-append (x ∷ xs) ys = ground (arith, rows_of-append xs ys)

  rows_of-older :
      (xs : List RunCompany) → All (λ (r : RunCompany). r.run_id < id) xs → rows_of xs ≡ 0
  rows_of-older [] _ = refl
  rows_of-older (x ∷ xs) (lt, h) = ground (arith, rows_of-older xs h)

  rows_of-new : (ciks : List String) → rows_of (map (new_company id) ciks) ≡ length ciks
  rows_of-new [] = refl
  rows_of-new (c ∷ cs) = ground (arith, rows_of-new cs)

  rows_of-mark :
      (cik : String) (status : CompanyStatus) (message : Option String) (rows : List RunCompany)
      → rows_of (mark id cik status message rows) ≡ rows_of rows
  unfolding mark
  rows_of-mark cik status message [] = refl
  rows_of-mark cik status message (r ∷ rows) =
      let ih = rows_of-mark cik status message rows in
      elim (Bool-cases (r.run_id == id)) [
        | inr other ↦ rw (other, other) ih
        | inl ours ↦ elim (Bool-cases (str_eq r.cik cik)) [
          | inl same ↦ rw (ours, same, ours) (ap (λ n. n + 1) ih)
          | inr different ↦ rw (ours, different, ours) (ap (λ n. n + 1) ih)
        ]
      ]

  counts :
      (rows : List RunCompany)
      → (count_status id failed rows + count_status id pending rows + count_status id success rows
          ≡ rows_of rows)
        × (count_status id pending rows ≡ length (pending_of id rows))
  unfolding count_status pending_of
  counts [] = (refl, refl)
  counts (r ∷ rows) =
      let (sum, same) = counts rows in
      elim (Bool-cases (r.run_id == id)) [
        | inr other ↦ rw other (sum, same)
        | inl ours ↦ rw ours (
          one_status r.status _ _ _ _ sum,
          one_pending r.status r.cik (pending_of id rows) _ same,
        )
      ]

  mark_outcome-rows_of :
      (cik : String) (outcome : IngestionOutcome) (t : RunTables)
      → rows_of (mark_outcome id cik outcome t).companies ≡ rows_of t.companies
  unfolding mark_outcome
  mark_outcome-rows_of cik skipped_quarantined t = rows_of-mark cik failed _ t.companies
  mark_outcome-rows_of cik ingested t = rows_of-mark cik success _ t.companies
  mark_outcome-rows_of cik (not_ingested newly error) t = rows_of-mark cik failed _ t.companies

  process-rows_of :
      {V : Type 0} (checks : Checks V) (now : ℕ) (fetched : String → Fetched V) (done : List String)
      (s : IngestionState V) (t : RunTables)
      → rows_of (process checks now fetched id done s t).1.companies ≡ rows_of t.companies
  unfolding process
  process-rows_of checks now fetched [] s t = refl
  process-rows_of checks now fetched (cik ∷ done) s t =
      let (outcome, after) = attempt_company_ingestion checks now cik (fetched cik) s in
      process-rows_of checks now fetched done after (mark_outcome id cik outcome t)
      ∙ mark_outcome-rows_of cik outcome t

left_of_self : (ciks : List String) → left_of ciks ciks ≡ []
left_of_self ciks = keep-none _ ciks (λ c m. rw (IsIn→includes c ciks m) refl)

-- No run is under way, the ids of the stored ones are below the next, and no company is listed twice:
-- whatever comes of the companies, the backfill ends, and the summary it prints counts as many
-- companies as were listed, none pending, and each of them as a success or as failed.
pub backfill-Complete :
    {V : Type 0} (checks : Checks V) (now : ℕ) (fetched : String → Fetched V) (ciks : List String)
    (s : IngestionState V) (t : RunTables)
    → find is_running t.runs ≡ none
    → All (λ (r : RunCompany). r.run_id < t.next_id) t.companies
    → has_repeat ciks ≡ false
    → (r : RunSummary) × ((backfill checks now fetched ciks s t).0 ≡ some r)
      × (r.total ≡ length ciks)
      × (r.pending ≡ 0)
      × (r.success + r.failed ≡ length ciks)
unfolding backfill finish
backfill-Complete checks now fetched ciks s t idle older distinct =
    let fresh = with_run ciks t in
    let processed = (process checks now fetched t.next_id ciks s fresh).1 in
    let rows = processed.companies in
    let (left, _) = process-pending_of t.next_id checks now fetched ciks s fresh in
    let all_pending : pending_of t.next_id fresh.companies ≡ ciks =
      rw (pending_of-append t.next_id t.companies _, pending_of-older t.next_id t.companies older)
        (pending_of-new t.next_id ciks) in
    let nothing : pending_of t.next_id rows ≡ [] = rw (left, all_pending) (left_of_self ciks) in
    let size : rows_of t.next_id rows ≡ length ciks =
      rw
        (
          process-rows_of t.next_id checks now fetched ciks s fresh,
          rows_of-append t.next_id t.companies _,
          rows_of-older t.next_id t.companies older,
        )
        (let new = rows_of-new t.next_id ciks in omega arith) in
    let (sum, waiting) = counts t.next_id rows in
    let ended : count_status t.next_id pending rows ≡ 0 = rw (waiting, nothing) refl in
    rw (backfill, starts ciks t idle distinct)
      (
        after_success (count_status t.next_id failed rows) (count_status t.next_id pending rows)
            (count_status t.next_id success rows),
        ap some (get_run_summary_lem t.next_id (complete_run t.next_id processed)),
        omega arith,
        ended,
        omega arith,
      )
