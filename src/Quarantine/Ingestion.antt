-- ===== src/Quarantine/Ingestion.antt =====
-- One attempt to ingest a company (src/companyIngestion.ts).
use edgar_radar.Prelude.{
  ℕ, Option, ◌≡◌, ◌↔◌, refl, sym, ◌∙◌, inl, inr, String, Bool, true, false, none, some, Bool-cases,
}
use edgar_radar.Prelude.Dicts.{lookup, lookup-insert_self}
use edgar_radar.Facts.{Checks}
use edgar_radar.Quarantine.{
  Failing, FailingRow, is_set, row_quarantined, is_quarantined, record_success, failed_row, crosses,
  record_failure, IngestionOutcome, failed, Fetched, received, thrown, interrupted, IngestionState,
  ingest, attempt_company_ingestion,
}

abbrev pub is_new_quarantine : IngestionOutcome → Bool
is_new_quarantine (failed newly _) = newly
is_new_quarantine _ = false

failed_row-quarantined :
    (now : ℕ) (message : String) (old : Option FailingRow)
    → is_set (failed_row now message old).quarantined_at ≡ row_quarantined old
unfolding failed_row row_quarantined is_set
failed_row-quarantined now message none = refl
failed_row-quarantined now message (some row) = refl

pub record_failure-newly :
    (now : ℕ) (cik message : String) (failing : Failing)
    → is_quarantined cik failing ≡ false
    → (record_failure now cik message failing).1
      ≡ is_quarantined cik (record_failure now cik message failing).0
unfolding record_failure is_quarantined
record_failure-newly now cik message failing before =
    elim (Bool-cases (crosses (failed_row now message (lookup cik failing)))) [
      | inl e ↦ rw e (rw (lookup-insert_self cik) refl)
      | inr e ↦ rw e (
          rw (lookup-insert_self cik)
            (sym (failed_row-quarantined now message (lookup cik failing) ∙ before)))
    ]

record_success-clears :
    (now : ℕ) (cik : String) (failing : Failing)
    → is_quarantined cik (record_success now cik failing) ≡ false
unfolding is_quarantined record_success
record_success-clears now cik failing = rw (lookup-insert_self cik) refl

-- An attempt reports a new quarantine just when the company was not quarantined before it and is
-- quarantined after it.
pub attempt-is_new_quarantine_iff :
    {V : Type 0} (checks : Checks V) (now : ℕ) (cik : String) (fetched : Fetched V)
    (s : IngestionState V)
    → (is_new_quarantine (attempt_company_ingestion checks now cik fetched s).0 ≡ true) ↔ (
        (is_quarantined cik s.failing ≡ false)
        × (is_quarantined cik (attempt_company_ingestion checks now cik fetched s).1.failing
            ≡ true))
unfolding attempt_company_ingestion
attempt-is_new_quarantine_iff checks now cik fetched s =
    elim (Bool-cases (is_quarantined cik s.failing)) [
      | inl old ↦ rw old (λ e. cc, λ h. cc)
      | inr new ↦ rw new (of_fetched fetched new)
    ]
  where
    of_fetched :
        (fetched : Fetched _)
        → is_quarantined cik s.failing ≡ false
        → (is_new_quarantine (ingest checks now cik fetched s).0 ≡ true) ↔ (
            (false ≡ false)
            × (is_quarantined cik (ingest checks now cik fetched s).1.failing ≡ true))
    of_fetched (received data_set) new =
        (λ e. cc, λ h. cc (h.1, record_success-clears now cik s.failing))
    of_fetched (thrown message) new =
        let newly = record_failure-newly now cik message s.failing new in
        (λ e. (refl, sym newly ∙ e), λ h. newly ∙ h.1)
    of_fetched (interrupted data_set written message) new =
        let newly = record_failure-newly now cik message s.failing new in
        (λ e. (refl, sym newly ∙ e), λ h. newly ∙ h.1)
