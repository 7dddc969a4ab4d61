-- ===== src/Tests/Services.antt =====
-- Retries, reads and deliveries of src/retry.ts, src/db.ts and the workers.
use edgar_radar.Prelude.{
  ℕ, ◌+◌, ◌≡◌, refl, String, true, false, some, List, [], ◌∷◌, arith, if◌then◌else◌, ltb,
}
use edgar_radar.Facts.{Checks}
use edgar_radar.Quarantine.{thrown as fetch_thrown}
use edgar_radar.Poller.{Job}
use edgar_radar.Retry.{Try, answered, fetch_with_retry, default_max_retries}
use edgar_radar.Retry.Attempts.{IsFirstFinal, fetch_with_retry-IsFirstFinal}
use edgar_radar.ReadDb.{Event as ReadEvent, start, replica_answers, replica_fails, rows, queries}
use edgar_radar.ReadDb.Breaker.{IsRouted, queries-IsRouted}
use edgar_radar.Pipeline.{
  Pipeline, ParserWorld, WorkerWorld, ParsedJob, Event, discovered, parsed, thrown, deliver, run,
}
use edgar_radar.Pipeline.Stages.{IsConsistent, count, run-IsConsistent}
use edgar_radar.Pipeline.Handoff.{accession_of, handoff}

services : Unit {0}
unfolding fetch_with_retry
services = tt

abbrev tries : ℕ → Try String
tries n = if ltb n 2 then answered 503 "busy" else answered 200 "ok"

fetch_with_retry-IsFirstFinal_example :
    IsFirstFinal 0 3 tries (fetch_with_retry default_max_retries tries)
fetch_with_retry-IsFirstFinal_example = fetch_with_retry-IsFirstFinal 3 tries

-- Two reads overlap when the replica fails the first; the third skips it, and the last asks it again.
abbrev reads : List (ReadEvent String)
reads =
    start 100 (rows "a")
    ∷ start 200 (rows "b")
    ∷ replica_fails 2600 "ENOTFOUND" (rows "a")
    ∷ start 3000 (rows "c")
    ∷ replica_fails 3100 "ENOTFOUND" (rows "b")
    ∷ start 40000 (rows "d")
    ∷ replica_answers "d"
    ∷ []

queries-IsRouted_example : IsRouted 30000 [] (queries 30000 0 reads)
queries-IsRouted_example =
    queries-IsRouted 30000 reads
      (omega arith, (omega arith, (omega arith, (omega arith, (omega arith, (omega arith, tt))))))

abbrev checks : Checks ℕ
checks = record { is_finite_number = λ v. true; magnitude = λ v. v; is_date = λ d. true }

abbrev job : Job
job = record {
  cik = "0000000001";
  ticker = "AAA";
  accession_number = "0001-26-000001";
  form = "10-K";
  filing_date = 20260302;
  primary_document = "a10k.htm";
}

abbrev parsed_job : ParsedJob
parsed_job = record { job = job; facts_refreshed = false; text_ingested = true }

abbrev redis_down : ParserWorld ℕ
redis_down = record {
  now = 1;
  clean = λ form. form;
  fetched = fetch_thrown "HTTP 503";
  text_stored = true;
  claim_answers = true;
  add_answers = false;
}

abbrev all_well : WorkerWorld
all_well = record { claim_answers = true; side_effect_answers = true }

abbrev idle : Pipeline ℕ ℕ
idle = record {
  ingestion = record {
    store = record { companies = []; filing_facts = []; quarantined_facts = []; invalidated = [] };
    failing = [];
  };
  texts = [];
  diffed = [];
  claims = [];
  parsed = [];
  scored = [];
  alerts = [];
}

-- The second delivery finds Redis up again.
abbrev deliveries : List (Event ℕ ℕ)
deliveries =
    discovered (record redis_down { add_answers = true }) job
    ∷ parsed all_well (some 7) parsed_job
    ∷ parsed all_well (some 7) parsed_job
    ∷ []

idle-IsConsistent : IsConsistent idle
unfolding count
idle-IsConsistent = (λ a. omega arith, λ a. omega arith, λ a. omega arith)

run-IsConsistent_example : IsConsistent (run checks deliveries idle)
run-IsConsistent_example = run-IsConsistent checks deliveries idle idle-IsConsistent

handoff_example :
    ((deliver checks (discovered redis_down job) idle).0 ≡ thrown)
    × (count accession_of "0001-26-000001"
          (run checks deliveries (deliver checks (discovered redis_down job) idle).1).parsed
        ≡ count accession_of "0001-26-000001" [] + 0)
handoff_example = handoff checks redis_down job idle deliveries refl refl
