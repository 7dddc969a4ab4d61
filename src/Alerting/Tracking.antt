-- ===== src/Alerting/Tracking.antt =====
-- What one alert of src/alerting.ts leaves: the row of alert_state is the time of the last alert.
use edgar_radar.Prelude.{
  ℕ, ◌≡◌, refl, String, false, Option, some, List, [], ◌∷◌, head?, str_eq, str_eq_refl, if-elim,
  if◌then◌else◌,
}
use edgar_radar.Prelude.Dicts.{lookup, lookup-insert, lookup-insert_self}
use edgar_radar.Alerting.{
  AlertText, Monitor, Webhook, send_slack_alert, Checked, already_reported, deliver,
  send_once_per_outage,
}

-- When alerts of a type were delivered, the latest first.
abbrev pub times : String → List (String × ℕ × AlertText) → List ℕ
times kind [] = []
times kind ((k, t, _) ∷ rest) =
    let more = times kind rest in if str_eq k kind then t ∷ more else more

-- Of each two alerts that follow one another, the later `t` and the earlier `s`.
abbrev pub IsApart : (ℕ → ℕ → Type 0) → List ℕ → Type 0
IsApart Gap [] = Unit
IsApart Gap (t ∷ []) = Unit
IsApart Gap (t ∷ s ∷ ts) = Gap t s × IsApart Gap (s ∷ ts)

pub IsApart-impl :
    (P Q : ℕ → ℕ → Type 0) (ts : List ℕ) → ((t s : ℕ) → P t s → Q t s) → IsApart P ts → IsApart Q ts
IsApart-impl P Q [] f h = tt
IsApart-impl P Q (t ∷ []) f h = tt
IsApart-impl P Q (t ∷ s ∷ ts) f (p, h) = (f t s p, IsApart-impl P Q (s ∷ ts) f h)

IsApart-next :
    (P : ℕ → ℕ → Type 0) (now : ℕ) (ts : List ℕ)
    → ((s : ℕ) → head? ts ≡ some s → P now s)
    → IsApart P ts
    → IsApart P (now ∷ ts)
IsApart-next P now [] f h = tt
IsApart-next P now (s ∷ ts) f h = (f s refl, h)

-- What alert_state holds for a type is the time of its latest alert.
abbrev pub IsTracked : String → (ℕ → ℕ → Type 0) → Monitor → Type 0
IsTracked kind Gap m =
    (lookup kind m.last_alerted ≡ head? (times kind m.sent)) × IsApart Gap (times kind m.sent)

module _ (now : ℕ) (kind : String) (text : AlertText) (started : Option ℕ) (webhook : Webhook) where
  pub send-completed :
      (m : Monitor)
      → (send_once_per_outage now kind text started webhook m).1.completed ≡ m.completed
  unfolding send_once_per_outage deliver
  send-completed m =
      if-elim (λ (x : Checked × Monitor). x.1.completed ≡ m.completed)
        (already_reported (lookup kind m.last_alerted) started) _ _ (λ _. refl)
        (λ _.
          if-elim (λ (x : Checked × Monitor). x.1.completed ≡ m.completed)
            (send_slack_alert webhook) _ _ (λ _. refl) (λ _. refl))

  -- A second alert of the type is sent only where the first does not count as reported.
  pub send-IsTracked :
      (Gap : ℕ → ℕ → Type 0) (m : Monitor)
      → ((s : ℕ) → already_reported (some s) started ≡ false → Gap now s)
      → IsTracked kind Gap m
      → IsTracked kind Gap (send_once_per_outage now kind text started webhook m).1
  unfolding send_once_per_outage deliver
  send-IsTracked Gap m gap (e, h) =
      if-elim (λ (x : Checked × Monitor). IsTracked kind Gap x.1)
        (already_reported (lookup kind m.last_alerted) started) _ _ (λ _. (e, h))
        (λ fresh.
          if-elim (λ (x : Checked × Monitor). IsTracked kind Gap x.1) (send_slack_alert webhook) _ _
            (λ _. rw (str_eq_refl kind) (
              lookup-insert_self kind now m.last_alerted,
              IsApart-next Gap now (times kind m.sent) (λ s f. gap s (rw (e, f) at fresh)) h,
            ))
            (λ _. (e, h)))

  pub send-other :
      (Gap : ℕ → ℕ → Type 0) (other : String) (m : Monitor)
      → str_eq kind other ≡ false
      → IsTracked other Gap m
      → IsTracked other Gap (send_once_per_outage now kind text started webhook m).1
  unfolding send_once_per_outage deliver
  send-other Gap other m ne (e, h) =
      if-elim (λ (x : Checked × Monitor). IsTracked other Gap x.1)
        (already_reported (lookup kind m.last_alerted) started) _ _ (λ _. (e, h))
        (λ fresh.
          if-elim (λ (x : Checked × Monitor). IsTracked other Gap x.1) (send_slack_alert webhook) _
            _ (λ _. rw (ne, lookup-insert, ne) (e, h)) (λ _. (e, h)))
