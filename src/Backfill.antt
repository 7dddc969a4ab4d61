-- ===== src/Backfill.antt =====
-- src/repositories/ingestionRepository.ts and scripts/backfill.ts: a run over all companies that can
-- be killed and resumed. The tables are lists: the runs with the latest first, the companies of all
-- runs in the order they were inserted. Timestamps of the rows are left out.
pub mod Resume
pub mod Report
use Prim.Native.Nat.{Ordering}
use Prim.Native.String.{compare}
use edgar_radar.Prelude.{
  ℕ, ◌+◌, String, Bool, true, false, ◌&&◌, Option, none, some, List, [], ◌∷◌, ◌++◌, map, find, keep,
  length, ◌==◌, str_eq, if◌then◌else◌,
}
use edgar_radar.Prelude.Dicts.{includes}
use edgar_radar.Facts.{Checks}
use edgar_radar.Quarantine.{
  IngestionOutcome, skipped_quarantined, success as ingested, failed as not_ingested, Fetched,
  IngestionState, attempt_company_ingestion,
}

pub data RunStatus : Type 0 where
  running : RunStatus
  completed : RunStatus

pub data CompanyStatus : Type 0 where
  pending : CompanyStatus
  success : CompanyStatus
  failed : CompanyStatus

-- A row of ingestion_runs; its `id` and `total_companies` are the source's `IngestionRun`.
pub record IngestionRun : Type 0 where
  pub id : ℕ
  pub total_companies : ℕ
  pub status : RunStatus

-- A row of ingestion_run_companies, unique by run and cik.
pub record RunCompany : Type 0 where
  pub run_id : ℕ
  pub cik : String
  pub status : CompanyStatus
  pub error_message : Option String

pub record RunTables : Type 0 where
  -- the sequence of the ids, which a rollback does not set back
  pub next_id : ℕ
  pub runs : List IngestionRun
  pub companies : List RunCompany

unfoldable pub is_running : IngestionRun → Bool
is_running r = elim r.status [ running ↦ true | completed ↦ false ]

abbrev pub is_pending : CompanyStatus → Bool
is_pending pending = true
is_pending success = false
is_pending failed = false

-- `ORDER BY cik`
insert_cik : String → List String → List String
insert_cik cik [] = cik ∷ []
insert_cik cik (c ∷ cs) =
    let rest = insert_cik cik cs in
    elim (compare cik c) [ Ordering.gt ↦ c ∷ rest | _ ↦ cik ∷ c ∷ cs ]

unfoldable pub sort_ciks : List String → List String
unfolding insert_cik
sort_ciks [] = []
sort_ciks (c ∷ cs) = insert_cik c (sort_ciks cs)

-- The pending companies of a run, before they are ordered.
unfoldable pub pending_of : ℕ → List RunCompany → List String
pending_of id [] = []
pending_of id (r ∷ rs) =
    let rest = pending_of id rs in
    if (r.run_id == id) && is_pending r.status then r.cik ∷ rest else rest

unfoldable pub has_repeat : List String → Bool
has_repeat [] = false
has_repeat (c ∷ cs) = if includes c cs then true else has_repeat cs

abbrev pub new_company : ℕ → String → RunCompany
new_company id cik = record { run_id = id; cik = cik; status = pending; error_message = none }

-- The transaction of `startOrResumeRun`: a second row for a company is refused, and it is rolled back.
unfoldable pub start_run : List String → RunTables → Option (IngestionRun × List String) × RunTables
start_run ciks t =
    if has_repeat ciks
    then (none, record t { next_id = t.next_id + 1 })
    else let run : IngestionRun = record {
      id = t.next_id;
      total_companies = length ciks;
      status = running;
    } in
      (
        some (run, ciks),
        record {
          next_id = t.next_id + 1;
          runs = run ∷ t.runs;
          companies = t.companies ++ map (new_company t.next_id) ciks;
        },
      )

unfoldable pub resume_or :
    Option IngestionRun → List String → RunTables → Option (IngestionRun × List String) × RunTables
unfolding start_run
resume_or none ciks t = start_run ciks t
resume_or (some run) ciks t = (some (run, sort_ciks (pending_of run.id t.companies)), t)

-- `startOrResumeRun`: the run and the companies to process, or `none` where it throws.
unfoldable pub start_or_resume_run :
    List String → RunTables → Option (IngestionRun × List String) × RunTables
unfolding resume_or
start_or_resume_run ciks t = resume_or (find is_running t.runs) ciks t

-- The UPDATE of `markCompanySuccess` and `markCompanyFailed`.
unfoldable pub mark : ℕ → String → CompanyStatus → Option String → List RunCompany → List RunCompany
mark id cik status message [] = []
mark id cik status message (r ∷ rs) =
    let rest = mark id cik status message rs in
    if (r.run_id == id) && str_eq r.cik cik
    then record r { status = status; error_message = message } ∷ rest
    else r ∷ rest

abbrev pub mark_company_success : ℕ → String → RunTables → RunTables
mark_company_success id cik t = record t { companies = mark id cik success none t.companies }

abbrev pub mark_company_failed : ℕ → String → String → RunTables → RunTables
mark_company_failed id cik message t = record t {
  companies = mark id cik failed (some message) t.companies;
}

unfoldable pub complete_runs : ℕ → List IngestionRun → List IngestionRun
complete_runs id [] = []
complete_runs id (r ∷ rs) =
    let rest = complete_runs id rs in
    if r.id == id then record r { status = completed } ∷ rest else r ∷ rest

abbrev pub complete_run : ℕ → RunTables → RunTables
complete_run id t = record t { runs = complete_runs id t.runs }

-- `RunSummary`
pub record RunSummary : Type 0 where
  pub total : ℕ
  pub success : ℕ
  pub failed : ℕ
  pub pending : ℕ

abbrev pub same_status : CompanyStatus → CompanyStatus → Bool
same_status pending pending = true
same_status success success = true
same_status failed failed = true
same_status a b = false

-- The rows of a run with a status.
unfoldable pub count_status : ℕ → CompanyStatus → List RunCompany → ℕ
count_status id s [] = 0
count_status id s (r ∷ rs) =
    let rest = count_status id s rs in
    if (r.run_id == id) && same_status r.status s then rest + 1 else rest

-- `GROUP BY status` has a row for each status that occurs.
unfoldable pub group : CompanyStatus → ℕ → List (CompanyStatus × ℕ)
group s n = if n == 0 then [] else (s, n) ∷ []

-- The body of the loop of `getRunSummary`.
unfoldable pub add_group : RunSummary → CompanyStatus × ℕ → RunSummary
add_group r (success, n) = record r { total = r.total + n; success = n }
add_group r (failed, n) = record r { total = r.total + n; failed = n }
add_group r (pending, n) = record r { total = r.total + n; pending = n }

unfoldable pub add_groups : RunSummary → List (CompanyStatus × ℕ) → RunSummary
unfolding add_group
add_groups r [] = r
add_groups r (g ∷ gs) = add_groups (add_group r g) gs

unfoldable pub get_run_summary : ℕ → RunTables → RunSummary
unfolding add_groups group
get_run_summary id t =
    add_groups (record { total = 0; success = 0; failed = 0; pending = 0 })
      (group failed (count_status id failed t.companies)
        ++ (group pending (count_status id pending t.companies)
            ++ group success (count_status id success t.companies)))

-- What the loop of `main` writes for a company's outcome.
unfoldable pub mark_outcome : ℕ → String → IngestionOutcome → RunTables → RunTables
mark_outcome id cik skipped_quarantined t =
    mark_company_failed id cik
      "Skipped: quarantined after repeated failures (see failing_companies)" t
mark_outcome id cik ingested t = mark_company_success id cik t
mark_outcome id cik (not_ingested newly error) t = mark_company_failed id cik error t

module _ {V : Type 0} (checks : Checks V) (now : ℕ) (fetched : String → Fetched V) where
  -- The loop, over the companies it has come to when it ends or is killed.
  unfoldable pub process :
      ℕ → List String → IngestionState V → RunTables → IngestionState V × RunTables
  unfolding mark_outcome
  process id [] s t = (s, t)
  process id (cik ∷ ciks) s t =
      let (outcome, after) = attempt_company_ingestion checks now cik (fetched cik) s in
      process id ciks after (mark_outcome id cik outcome t)

  unfoldable pub finish :
      Option (IngestionRun × List String) × RunTables
      → IngestionState V
      → Option RunSummary × IngestionState V × RunTables
  unfolding process get_run_summary
  finish (none, begun) s = (none, s, begun)
  finish (some (run, pending_ciks), begun) s =
      let (after, processed) = process run.id pending_ciks s begun in
      let ended = complete_run run.id processed in
      (some (get_run_summary run.id ended), after, ended)

  -- `main`, with the summary it prints, or `none` where it throws.
  unfoldable pub backfill :
      List String → IngestionState V → RunTables → Option RunSummary × IngestionState V × RunTables
  unfolding start_or_resume_run finish
  backfill ciks s t = finish (start_or_resume_run ciks t) s
