-- ===== src/Tests/Polling.antt =====
-- Poll cycles of src/poller.ts over two companies.
use edgar_radar.Prelude.{
  ◌≡◌, ◌⊎◌, refl, subst, inl, inr, Bool-cases, String, true, none, some, List, [], ◌∷◌, All,
  if◌then◌else◌, str_eq,
}
use edgar_radar.Prelude.Dicts.{IsDistinct, includes}
use edgar_radar.Sec.Recent.{FilingReference, SecSubmissions}
use edgar_radar.Poller.{
  UniverseEntry, Db, Response, World, received, thrown, earliest_filing_date, run_poll_cycle,
}
use edgar_radar.Poller.Ledger.{IsBacked, run_poll_cycle-IsBacked}
use edgar_radar.Poller.Once.{IsOnce, numbers, run_poll_cycle-IsOnce}
use edgar_radar.Poller.Coverage.{IsCovered, run_poll_cycle-IsCovered}

polling : Unit {0}
unfolding run_poll_cycle
polling = tt

abbrev annual_report : FilingReference
annual_report = record {
  accession_number = "0001-26-000001";
  filing_date = 20260302;
  form = "10-K";
  primary_document = "a10k.htm";
}

abbrev trade : FilingReference
trade = record {
  accession_number = "0001-26-000002";
  filing_date = 20260303;
  form = "4";
  primary_document = "form4.xml";
}

abbrev submissions : SecSubmissions
submissions = record {
  sic = some "7372";
  sic_description = some "Services-Prepackaged Software";
  recent = trade ∷ annual_report ∷ [];
}

abbrev fetch : String → Response
fetch cik = if str_eq cik "0000000001" then received submissions else thrown "HTTP 503"

abbrev world : World
world = record {
  now = 1772600000000;
  iso_day = λ t. 20260302;
  fetch = fetch;
  enqueue_works = λ j. true;
  record_works = λ j. true;
  start_works = true;
  quarantine_works = λ cik. true;
  failure_works = λ cik. true;
  industry_works = λ cik. true;
  ledger_works = λ cik. true;
  cursor_works = true;
  complete_works = true;
  fail_works = true;
}

abbrev universe : List UniverseEntry
universe =
    record { cik = "0000000001"; ticker = "AAA"; name = "A Inc." }
    ∷ record { cik = "0000000002"; ticker = "BBB"; name = "B Inc." }
    ∷ []

abbrev empty : Db
empty = record {
  last_checked_at = none;
  discovered = [];
  failing = [];
  industries = [];
  invalidated = [];
  runs = [];
  queue = [];
}

-- Every company can be checked, so the cursor moves.
abbrev reachable : List UniverseEntry
reachable = record { cik = "0000000001"; ticker = "AAA"; name = "A Inc." } ∷ []

run_poll_cycle-IsCovered_example :
    ((run_poll_cycle world reachable empty).1.last_checked_at ≡ none)
    ⊎ (((run_poll_cycle world reachable empty).1.last_checked_at ≡ some 1772600000000)
        × All
            (IsCovered world
              (earliest_filing_date world empty)
              []
              (run_poll_cycle world reachable empty).1)
            reachable)
run_poll_cycle-IsCovered_example = run_poll_cycle-IsCovered world reachable empty

-- The second filing is put on the queue, and its row cannot be inserted.
abbrev broken_off : World
broken_off = record world { record_works = λ j. str_eq j.form "4" }

run_poll_cycle-IsBacked_example : IsBacked (run_poll_cycle broken_off universe empty).1
run_poll_cycle-IsBacked_example = run_poll_cycle-IsBacked broken_off universe empty tt

abbrev recent_of : Response → List FilingReference
recent_of (received s) = s.recent
recent_of (thrown message) = []

fetch-IsDistinct :
    (cik : String) (s : SecSubmissions) → fetch cik ≡ received s → IsDistinct (numbers s.recent)
unfolding includes
fetch-IsDistinct cik s e =
    subst (λ r. IsDistinct (numbers (recent_of r))) e
      (elim (Bool-cases (str_eq cik "0000000001")) [
        | inl one ↦ rw one (refl, (refl, tt))
        | inr other ↦ rw other tt
      ])

run_poll_cycle-IsOnce_example : IsOnce (run_poll_cycle world universe empty).1
run_poll_cycle-IsOnce_example =
    run_poll_cycle-IsOnce world universe empty (λ j. refl) fetch-IsDistinct (refl, tt)
