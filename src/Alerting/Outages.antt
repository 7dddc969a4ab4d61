-- ===== src/Alerting/Outages.antt =====
-- How often the checks of src/alerting.ts alert.
use edgar_radar.Prelude.{
  ℕ, ◌+◌, ◌-◌, ◌*◌, ◌≤◌, ◌<◌, ◌≡◌, refl, true, false, Option, some, List, [], ◌∷◌, lt→ltb, le→leb,
  inl, inr, Any, Bool-cases, if-elim, arith,
}
use edgar_radar.Prelude.Dicts.{lookup}
use edgar_radar.Alerting.{
  FinishedRun, Monitor, Webhook, Checked, already_reported, last_success_of, silent_from, is_recent,
  silence_text, check_poller_heartbeat, is_healthy_run, last_healthy_of, is_failing, alert_failing,
  check_poller_failures,
}
use edgar_radar.Alerting.Tracking.{
  times, IsApart, IsApart-impl, IsTracked, send-completed, send-IsTracked, send-other,
}

-- What happens: a cycle completes, or a check runs at a time, with what the webhook would answer.
pub data Event : Type 0 where
  finish : FinishedRun → Event
  heartbeat : (now : ℕ) → Webhook → Event
  failures : (now : ℕ) → Webhook → Event

module _ (threshold : ℕ) (since : Option ℕ) where
  abbrev pub after : Event → Monitor → Monitor
  after (finish r) m = record m { completed = r ∷ m.completed }
  after (heartbeat now webhook) m = (check_poller_heartbeat threshold now since webhook m).1
  after (failures now webhook) m = (check_poller_failures now webhook m).1

  abbrev pub after_all : List Event → Monitor → Monitor
  after_all [] m = m
  after_all (e ∷ es) m = after_all es (after e m)

-- A cycle completed after the earlier alert, and longer ago than the threshold at the later one.
abbrev pub SilenceGap : ℕ → List FinishedRun → ℕ → ℕ → Type 0
SilenceGap threshold runs t s =
    Any (λ (r : FinishedRun). (s ≤ r.finished_at) × (r.finished_at + threshold * 60000 < t)) runs

-- A healthy cycle completed after the earlier alert.
abbrev pub FailureGap : List FinishedRun → ℕ → ℕ → Type 0
FailureGap runs t s =
    Any (λ (r : FinishedRun). (is_healthy_run r ≡ true) × (s ≤ r.finished_at)) runs

silence_gap :
    (threshold now s : ℕ) (since : Option ℕ) (runs : List FinishedRun)
    → is_recent threshold now (silent_from (last_success_of runs) since) ≡ false
    → already_reported (some s) (last_success_of runs) ≡ false
    → SilenceGap threshold runs now s
unfolding last_success_of
silence_gap threshold now s since [] late fresh = absurd (cc)
silence_gap threshold now s since (r ∷ rs) late fresh =
    let silent : ¬ (now - r.finished_at ≤ threshold * 60000) =
      λ le. (let x = le→leb _ _ le in cc) in
    let newer : ¬ (r.finished_at < s) = λ lt. (let x = lt→ltb _ _ lt in cc) in
    inl (omega arith, omega arith)

failure_gap :
    (now s : ℕ) (runs : List FinishedRun)
    → already_reported (some s) (last_healthy_of runs) ≡ false
    → FailureGap runs now s
unfolding last_healthy_of
failure_gap now s [] fresh = absurd (cc)
failure_gap now s (r ∷ rs) fresh = elim (Bool-cases (is_healthy_run r)) [
  | inl healthy ↦
      let older = rw healthy at fresh in
      let newer : ¬ (r.finished_at < s) = λ lt. (let x = lt→ltb _ _ lt in cc) in
      inl (healthy, omega arith)
  | inr sick ↦ inr (failure_gap now s rs (rw sick at fresh))
]

-- Both types, in the same state.
abbrev AreTracked : ℕ → List FinishedRun → Monitor → Type 0
AreTracked threshold runs m =
    IsTracked "poller-silence" (SilenceGap threshold runs) m
    × IsTracked "poller-failing" (FailureGap runs) m

module _ (threshold : ℕ) (since : Option ℕ) where
  heartbeat-AreTracked :
      (now : ℕ) (webhook : Webhook) (m : Monitor)
      → AreTracked threshold m.completed m
      → (let next = (check_poller_heartbeat threshold now since webhook m).1 in
          (next.completed ≡ m.completed) × AreTracked threshold m.completed next)
  unfolding check_poller_heartbeat
  heartbeat-AreTracked now webhook m (silence, failing) =
      let started = last_success_of m.completed in
      let text = silence_text threshold started in
      if-elim
        (λ (x : Checked × Monitor).
          (x.1.completed ≡ m.completed) × AreTracked threshold m.completed x.1)
        (is_recent threshold now (silent_from started since)) _ _ (λ _. (refl, (silence, failing)))
        (λ late. (
          send-completed now "poller-silence" text started webhook m,
          (
            send-IsTracked now "poller-silence" text started webhook
                (SilenceGap threshold m.completed) m
                (λ s fresh. silence_gap threshold now s since m.completed late fresh) silence,
            send-other now "poller-silence" text started webhook (FailureGap m.completed)
                "poller-failing" m refl failing,
          ),
        ))

  alert_failing-AreTracked :
      (now : ℕ) (webhook : Webhook) (runs : List FinishedRun) (m : Monitor)
      → AreTracked threshold runs m
      → (let next = (alert_failing now runs webhook m).1 in
          (next.completed ≡ m.completed) × AreTracked threshold runs next)
  unfolding alert_failing
  alert_failing-AreTracked now webhook [] m h = (refl, h)
  alert_failing-AreTracked now webhook (r ∷ rs) m (silence, failing) =
      let started = last_healthy_of (r ∷ rs) in
      (
        send-completed now "poller-failing" _ started webhook m,
        (
          send-other now "poller-failing" _ started webhook (SilenceGap threshold (r ∷ rs))
              "poller-silence" m refl silence,
          send-IsTracked now "poller-failing" _ started webhook (FailureGap (r ∷ rs)) m
              (λ s fresh. failure_gap now s (r ∷ rs) fresh) failing,
        ),
      )

  failures-AreTracked :
      (now : ℕ) (webhook : Webhook) (m : Monitor)
      → AreTracked threshold m.completed m
      → (let next = (check_poller_failures now webhook m).1 in
          (next.completed ≡ m.completed) × AreTracked threshold m.completed next)
  unfolding check_poller_failures
  failures-AreTracked now webhook m h =
      if-elim
        (λ (x : Checked × Monitor).
          (x.1.completed ≡ m.completed) × AreTracked threshold m.completed x.1)
        (is_failing m.completed) _ _ (λ _. alert_failing-AreTracked now webhook m.completed m h)
        (λ _. (refl, h))

  after-AreTracked :
      (e : Event) (m : Monitor)
      → AreTracked threshold m.completed m
      → AreTracked threshold (after threshold since e m).completed (after threshold since e m)
  after-AreTracked (finish r) m ((a, h), (b, k)) = (
    (a, IsApart-impl _ _ (times "poller-silence" m.sent) (λ t s g. inr g) h),
    (b, IsApart-impl _ _ (times "poller-failing" m.sent) (λ t s g. inr g) k),
  )
  after-AreTracked (heartbeat now webhook) m h =
      let (same, tracked) = heartbeat-AreTracked now webhook m h in rw same tracked
  after-AreTracked (failures now webhook) m h =
      let (same, tracked) = failures-AreTracked now webhook m h in rw same tracked

-- From a database with no alert, after any cycles that completed and any checks, in any order, with
-- any clock and whatever Slack answered: between two alerts of the poller's silence that follow one
-- another a cycle completed, not before the first, and more than the threshold before the second; and
-- between two alerts of failing cycles a healthy cycle completed, not before the first.
pub after_all-IsApart :
    (threshold : ℕ) (since : Option ℕ) (runs : List FinishedRun) (es : List Event)
    → (let m =
          after_all threshold since es
            (record { completed = runs; last_alerted = []; sent = [] }) in
        IsApart (SilenceGap threshold m.completed) (times "poller-silence" m.sent)
        × IsApart (FailureGap m.completed) (times "poller-failing" m.sent))
unfolding lookup
after_all-IsApart threshold since runs es =
    let ((_, silence), (_, failing)) = tracked es start ((refl, tt), (refl, tt)) in
    (silence, failing)
  where
    start : Monitor
    start = record { completed = runs; last_alerted = []; sent = [] }

    tracked :
        (fs : List Event) (m : Monitor)
        → AreTracked threshold m.completed m
        → AreTracked threshold
            (after_all threshold since fs m).completed
            (after_all threshold since fs m)
    tracked [] m h = h
    tracked (f ∷ fs) m h =
        tracked fs (after threshold since f m) (after-AreTracked threshold since f m h)
