-- ===== src/Alerting.antt =====
-- src/alerting.ts: the heartbeat's two checks of the poller and the alerts they send. The completed
-- rows of poller_runs stand with the latest first; times are milliseconds.
pub mod Tracking
pub mod Outages
use edgar_radar.Prelude.{
  ℕ, ◌+◌, ◌-◌, ◌*◌, String, Bool, true, false, ◌&&◌, not, Option, none, some, List, [], ◌∷◌, ltb,
  leb, ◌==◌, find, take, length, all, head?, if◌then◌else◌,
}
use edgar_radar.Prelude.Dicts.{Entries, lookup, insert}

pub record FinishedRun : Type 0 where
  pub finished_at : ℕ
  pub companies_checked : ℕ
  pub companies_failed : ℕ

-- The text of an alert, by what it says.
pub data AlertText : Type 0 where
  silent_since : (threshold_minutes last_success_at : ℕ) → AlertText
  never_completed : (threshold_minutes : ℕ) → AlertText
  failing_cycles : (companies_failed companies_checked finished_at : ℕ) → AlertText

-- The database as the checks see it, and the alerts that were delivered, the latest first.
pub record Monitor : Type 0 where
  pub completed : List FinishedRun
  -- alert_state
  pub last_alerted : Entries ℕ
  pub sent : List (String × ℕ × AlertText)

-- What `sendSlackAlert` meets: no webhook is configured, or Slack answers the request.
pub data Webhook : Type 0 where
  not_configured : Webhook
  configured : (response_ok : Bool) → Webhook

-- `sendSlackAlert`: whether it returns; otherwise it throws.
abbrev pub send_slack_alert : Webhook → Bool
send_slack_alert not_configured = true
send_slack_alert (configured response_ok) = response_ok

-- What a check comes to.
pub data Checked : Type 0 where
  alerted : Checked
  quiet : Checked
  thrown : Checked

-- `alreadyReported`
abbrev pub already_reported : Option ℕ → Option ℕ → Bool
already_reported none outage_started_after = false
already_reported (some last_alerted_at) none = true
already_reported (some last_alerted_at) (some started) = ltb started last_alerted_at

unfoldable pub deliver : ℕ → String → AlertText → Webhook → Monitor → Checked × Monitor
deliver now alert_type text webhook m =
    if send_slack_alert webhook
    then (
      alerted,
      record m {
        last_alerted = insert alert_type now m.last_alerted;
        sent = (alert_type, now, text) ∷ m.sent;
      },
    )
    else (thrown, m)

-- `sendOncePerOutage`
unfoldable pub send_once_per_outage :
    ℕ → String → AlertText → Option ℕ → Webhook → Monitor → Checked × Monitor
unfolding deliver
send_once_per_outage now alert_type text outage_started_after webhook m =
    if already_reported (lookup alert_type m.last_alerted) outage_started_after
    then (quiet, m)
    else deliver now alert_type text webhook m

-- `lastSuccessAt`
unfoldable pub last_success_of : List FinishedRun → Option ℕ
last_success_of [] = none
last_success_of (r ∷ rs) = some r.finished_at

-- `lastSuccessAt ?? monitoringSince ?? null`
abbrev pub silent_from : Option ℕ → Option ℕ → Option ℕ
silent_from (some t) since = some t
silent_from none since = since

-- `minutesSilent <= thresholdMinutes`
abbrev pub is_recent : ℕ → ℕ → Option ℕ → Bool
is_recent threshold now none = false
is_recent threshold now (some since) = leb (now - since) (threshold * 60000)

abbrev pub silence_text : ℕ → Option ℕ → AlertText
silence_text threshold none = never_completed threshold
silence_text threshold (some t) = silent_since threshold t

-- `checkPollerHeartbeat`, with `monitoringSince` if it is given.
unfoldable pub check_poller_heartbeat : ℕ → ℕ → Option ℕ → Webhook → Monitor → Checked × Monitor
unfolding send_once_per_outage last_success_of
check_poller_heartbeat threshold now monitoring_since webhook m =
    let last_success_at = last_success_of m.completed in
    if is_recent threshold now (silent_from last_success_at monitoring_since)
    then (quiet, m)
    else send_once_per_outage now "poller-silence" (silence_text threshold last_success_at)
        last_success_at webhook m

-- `r.companies_failed > r.companies_checked * FAILING_SHARE`, and the SQL test of a healthy cycle.
abbrev pub failing_cycles_before_alert : ℕ
failing_cycles_before_alert = 2

abbrev pub is_failing_run : FinishedRun → Bool
is_failing_run r = ltb 0 r.companies_checked && ltb r.companies_checked (2 * r.companies_failed)

abbrev pub is_healthy_run : FinishedRun → Bool
is_healthy_run r = leb (2 * r.companies_failed) r.companies_checked

-- `max(finished_at)` of the healthy cycles.
unfoldable pub last_healthy_of : List FinishedRun → Option ℕ
last_healthy_of [] = none
last_healthy_of (r ∷ rs) =
    let rest = last_healthy_of rs in if is_healthy_run r then some r.finished_at else rest

unfoldable pub is_failing : List FinishedRun → Bool
is_failing runs =
    let recent = take failing_cycles_before_alert runs in
    length recent == failing_cycles_before_alert && all is_failing_run recent

unfoldable pub alert_failing : ℕ → List FinishedRun → Webhook → Monitor → Checked × Monitor
unfolding send_once_per_outage last_healthy_of
alert_failing now [] webhook m = (quiet, m)
alert_failing now (latest ∷ rest) webhook m =
    send_once_per_outage now "poller-failing"
      (failing_cycles latest.companies_failed latest.companies_checked latest.finished_at)
      (last_healthy_of (latest ∷ rest)) webhook m

-- `checkPollerFailures`
unfoldable pub check_poller_failures : ℕ → Webhook → Monitor → Checked × Monitor
unfolding is_failing alert_failing
check_poller_failures now webhook m =
    if is_failing m.completed then alert_failing now m.completed webhook m else (quiet, m)
