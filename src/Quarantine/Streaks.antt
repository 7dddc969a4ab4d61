-- ===== src/Quarantine/Streaks.antt =====
-- How a run of failures leads to quarantine (src/repositories/failingCompanyRepository.ts).
use edgar_radar.Prelude.{
  ℕ, suc, ◌+◌, ◌≡◌, refl, inl, inr, String, Option, none, some, List, [], ◌∷◌, arith, leb, length,
  if◌then◌else◌, Bool-cases,
}
use edgar_radar.Prelude.Dicts.{lookup, lookup-insert_self}
use edgar_radar.Quarantine.{
  Failing, FailingRow, is_set, row_quarantined, is_quarantined, record_success, failed_row, crosses,
  record_failure, max_consecutive_failures,
}

-- Failed attempts one after another, each with its time and message.
unfoldable pub record_failures : String → List (ℕ × String) → Failing → Failing
record_failures cik [] failing = failing
record_failures cik ((now, message) ∷ attempts) failing =
    record_failures cik attempts (record_failure now cik message failing).0

-- A row of a company that fails: quarantined just from the fifth failure on.
abbrev IsStreak : ℕ → Option FailingRow → Type 0
IsStreak n none = n ≡ 0
IsStreak n (some row) =
    (row.consecutive_failures ≡ n) × (is_set row.quarantined_at ≡ leb max_consecutive_failures n)

pub row_after : ℕ → String → Option FailingRow → FailingRow
row_after now message old =
    let row = failed_row now message old in
    if crosses row then record row { quarantined_at = some now } else row

pub record_failure-lookup :
    (now : ℕ) (cik message : String) (failing : Failing)
    → lookup cik (record_failure now cik message failing).0
      ≡ some (row_after now message (lookup cik failing))
unfolding record_failure row_after
record_failure-lookup now cik message failing =
    elim (Bool-cases (crosses (failed_row now message (lookup cik failing)))) [
      | inl e ↦ rw e (lookup-insert_self cik _ failing)
      | inr e ↦ rw e (lookup-insert_self cik _ failing)
    ]

row_after-IsStreak :
    (n now : ℕ) (message : String) (old : Option FailingRow)
    → IsStreak n old
    → IsStreak (n + 1) (some (row_after now message old))
unfolding row_after failed_row crosses is_set
row_after-IsStreak n now message none h = ground arith
row_after-IsStreak n now message (some row) h = ground arith

record_failures-IsStreak :
    (n : ℕ) (cik : String) (attempts : List (ℕ × String)) (failing : Failing)
    → IsStreak n (lookup cik failing)
    → IsStreak (n + length attempts) (lookup cik (record_failures cik attempts failing))
unfolding record_failures
record_failures-IsStreak n cik [] failing h = let e : n + 0 ≡ n = omega arith in rw e h
record_failures-IsStreak n cik ((now, message) ∷ attempts) failing h =
    let e : n + suc (length attempts) ≡ n + 1 + length attempts = omega arith in
    rw e (
      record_failures-IsStreak (n + 1) cik attempts (record_failure now cik message failing).0 (
        rw (record_failure-lookup now cik message failing)
          (row_after-IsStreak n now message (lookup cik failing) h)))

IsStreak-quarantined :
    (n : ℕ) (row : Option FailingRow)
    → IsStreak n row
    → row_quarantined row ≡ leb max_consecutive_failures n
unfolding row_quarantined
IsStreak-quarantined n none h = ground arith
IsStreak-quarantined n (some row) h = h.1

-- A company that has not failed before is quarantined by a run of failures just when there are at
-- least five of them.
pub record_failures-is_quarantined :
    (cik : String) (attempts : List (ℕ × String)) (failing : Failing)
    → lookup cik failing ≡ none
    → is_quarantined cik (record_failures cik attempts failing) ≡ leb 5 (length attempts)
unfolding is_quarantined
record_failures-is_quarantined cik attempts failing new = IsStreak-quarantined (length attempts) _ (
    let e : 0 + length attempts ≡ length attempts = omega arith in
    rw e at (record_failures-IsStreak 0 cik attempts failing (rw new refl)))

-- A success ends the streak: afterwards it again takes five failures in a row to quarantine the
-- company, whatever its record was.
pub record_success-is_quarantined :
    (now : ℕ) (cik : String) (attempts : List (ℕ × String)) (failing : Failing)
    → is_quarantined cik (record_failures cik attempts (record_success now cik failing))
      ≡ leb 5 (length attempts)
unfolding is_quarantined record_success
record_success-is_quarantined now cik attempts failing = IsStreak-quarantined (length attempts) _ (
    let e : 0 + length attempts ≡ length attempts = omega arith in
    rw e at (
      record_failures-IsStreak 0 cik attempts (record_success now cik failing)
        (rw (lookup-insert_self cik _ failing) (refl, ground arith))))
