-- ===== src/Tests/Runs.antt =====
-- A backfill that is killed, a start of a service, and an outage of the poller.
use edgar_radar.Prelude.{
  ℕ, ◌+◌, ◌++◌, ◌≡◌, ◌↔◌, refl, arith, String, true, false, Option, none, some, List, [], ◌∷◌, All,
  str_eq,
}
use edgar_radar.Prelude.Dicts.{includes}
use edgar_radar.Facts.{Checks}
use edgar_radar.Quarantine.{Fetched, thrown, IngestionState}
use edgar_radar.Backfill.{
  IngestionRun, running, completed, RunTables, RunSummary, start_or_resume_run, process, backfill,
  is_running, has_repeat, sort_ciks, success as done_company,
}
use edgar_radar.Backfill.Resume.{left_of, start_or_resume_run-process}
use edgar_radar.Backfill.Report.{backfill-Complete}
use edgar_radar.Config.{
  EnvVar, database_url, redis_url, edgar_contact_email, jwt_secret, Texts, api, required_env,
  optional_env_of, find_env_problems,
}
use edgar_radar.Config.Startup.{
  IsReadable, IsOptional, IsFixed, find_env_problems-none_iff, find_env_problems-IsFixed,
}
use edgar_radar.Alerting.{FinishedRun, Monitor, not_configured, configured}
use edgar_radar.Alerting.Tracking.{times, IsApart}
use edgar_radar.Alerting.Outages.{
  Event, finish, heartbeat, failures, after_all, SilenceGap, FailureGap, after_all-IsApart,
}

abbrev checks : Checks ℕ
checks = record { is_finite_number = λ v. true; magnitude = λ v. v; is_date = λ d. true }

abbrev unreachable : String → Fetched ℕ
unreachable cik = thrown "HTTP 503"

abbrev fresh : IngestionState ℕ
fresh = record {
  store = record { companies = []; filing_facts = []; quarantined_facts = []; invalidated = [] };
  failing = [];
}

abbrev universe : List String
universe = "0000320193" ∷ "0000000020" ∷ "0000789019" ∷ []

-- An earlier run has ended.
abbrev tables : RunTables
tables = record {
  next_id = 2;
  runs = record { id = 1; total_companies = 1; status = completed } ∷ [];
  companies =
      record { run_id = 1; cik = "0000320193"; status = done_company; error_message = none } ∷ [];
}

start_or_resume_run-process_example :
    (let run : IngestionRun = record { id = 2; total_companies = 3; status = running } in
      let begun = start_or_resume_run universe tables in
      let (after, killed) = process checks 5 unreachable 2 ("0000320193" ∷ []) fresh begun.1 in
      (begun.0 ≡ some (run, universe))
      × (start_or_resume_run [] killed
          ≡ (some (run, sort_ciks (left_of ("0000320193" ∷ []) universe)), killed)))
unfolding is_running has_repeat includes
start_or_resume_run-process_example =
    start_or_resume_run-process checks 5 unreachable universe ("0000320193" ∷ []) [] fresh tables
      refl (omega arith, tt) refl

backfill-Complete_example :
    (r : RunSummary) × ((backfill checks 5 unreachable universe fresh tables).0 ≡ some r)
    × (r.total ≡ 3)
    × (r.pending ≡ 0)
    × (r.success + r.failed ≡ 3)
unfolding is_running has_repeat includes
backfill-Complete_example =
    backfill-Complete checks 5 unreachable universe fresh tables refl (omega arith, tt) refl

abbrev texts : Texts
texts = record {
  trim = λ s. s;
  is_postgres_url = λ s. str_eq s "postgres://db";
  is_redis_url = λ s. str_eq s "redis://queue";
  is_numeral = λ s. str_eq s "2";
  is_share = λ s. true;
  is_email = λ s. str_eq s "a@b.org";
  numeral = λ n. "1";
}

-- The secret is blank.
abbrev environment : EnvVar → Option String
environment database_url = some "postgres://db"
environment redis_url = some "redis://queue"
environment edgar_contact_email = some "a@b.org"
environment jwt_secret = some ""
environment name = none

find_env_problems-none_iff_example : (find_env_problems texts api environment ≡ []) ↔ (
    All (IsReadable texts environment) (required_env api)
    × All (IsOptional texts environment) (optional_env_of api))
find_env_problems-none_iff_example = find_env_problems-none_iff texts api environment

find_env_problems-IsFixed_example :
    All
      (IsFixed (required_env api ++ optional_env_of api))
      (find_env_problems texts api environment)
find_env_problems-IsFixed_example = find_env_problems-IsFixed texts api environment

-- Two outages, of three checks each.
abbrev cycle : ℕ → FinishedRun
cycle t = record { finished_at = t; companies_checked = 196; companies_failed = 1 }

abbrev events : List Event
events =
    finish (cycle 1000)
    ∷ heartbeat 2000000 not_configured
    ∷ heartbeat 3000000 not_configured
    ∷ failures 3000000 not_configured
    ∷ finish (cycle 3600000)
    ∷ heartbeat 9000000 (configured false)
    ∷ heartbeat 9100000 (configured true)
    ∷ []

abbrev monitor : Monitor
monitor = after_all 15 none events (record { completed = []; last_alerted = []; sent = [] })

after_all-IsApart_example :
    IsApart (SilenceGap 15 monitor.completed) (times "poller-silence" monitor.sent)
    × IsApart (FailureGap monitor.completed) (times "poller-failing" monitor.sent)
after_all-IsApart_example = after_all-IsApart 15 none [] events
