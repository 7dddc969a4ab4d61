-- ===== src/Poller/Once.antt =====
-- Each filing goes onto the queue once (src/poller.ts).
use edgar_radar.Prelude.{
  ◌≡◌, refl, ap, inl, inr, ◌⊎◌, String, Bool, true, false, not, List, [], ◌∷◌, ◌++◌, map, arith,
  str_eq, str_eq_iff, Bool-cases, All, All-keep_self, keep,
}
use edgar_radar.Prelude.Dicts.{includes, IsDistinct, includes-concat, IsDistinct-concat}
use edgar_radar.Sec.{Date}
use edgar_radar.Sec.Recent.{FilingReference, SecSubmissions}
use edgar_radar.Poller.{
  UniverseEntry, Job, Db, World, received, accessions, queued, job_of, is_candidate, new_filings,
  enqueue, enqueue_all, run_poll_cycle,
}
use edgar_radar.Poller.Invariant.{SameLedger, run_poll_cycle-keeps}
use edgar_radar.Poller.Ledger.{queued-concat, accessions-concat, unless_threw-db}

abbrev pub numbers : List FilingReference → List String
numbers fs = map (λ (f : FilingReference). f.accession_number) fs

-- The queue has seen each filing of the ledger once, in the ledger's order, and no other filing.
abbrev pub IsOnce : Db → Type 0
IsOnce db = (accessions db.discovered ≡ queued db.queue) × IsDistinct (queued db.queue)

abbrev IsFresh : Db → List FilingReference → Type 0
IsFresh db fs =
    All (λ f. includes f.accession_number (accessions db.discovered) ≡ false) fs
    × IsDistinct (numbers fs)

includes-numbers-keep :
    (a : String) (p : FilingReference → Bool) (fs : List FilingReference)
    → includes a (numbers fs) ≡ false
    → includes a (numbers (keep p fs)) ≡ false
unfolding includes
includes-numbers-keep a p [] h = h
includes-numbers-keep a p (f ∷ fs) h = ground (arith, includes-numbers-keep a p fs)

pub IsDistinct-keep :
    (p : FilingReference → Bool) (fs : List FilingReference)
    → IsDistinct (numbers fs)
    → IsDistinct (numbers (keep p fs))
IsDistinct-keep p [] _ = tt
IsDistinct-keep p (f ∷ fs) (a, d) = elim (Bool-cases (p f)) [
  | inl e ↦ rw e (includes-numbers-keep f.accession_number p fs a, IsDistinct-keep p fs d)
  | inr e ↦ rw e (IsDistinct-keep p fs d)
]

apart_of_not_included :
    (a : String) (fs : List FilingReference)
    → includes a (numbers fs) ≡ false
    → All (λ f. str_eq a f.accession_number ≡ false) fs
unfolding includes
apart_of_not_included a [] _ = tt
apart_of_not_included a (f ∷ fs) h = (
  ground (arith, str_eq_iff a f.accession_number, str_eq_iff f.accession_number a),
  apart_of_not_included a fs (ground arith),
)

All-zip :
    (P Q R : FilingReference → Type 0) (fs : List FilingReference)
    → ((f : FilingReference) → P f → Q f → R f)
    → All P fs
    → All Q fs
    → All R fs
All-zip P Q R [] up _ _ = tt
All-zip P Q R (f ∷ fs) up (p, ps) (q, qs) = (up f p q, All-zip P Q R fs up ps qs)

IsFresh-new_filings :
    (earliest : Date) (recent : List FilingReference) (db : Db)
    → IsDistinct (numbers recent)
    → IsFresh db (new_filings earliest db.discovered recent)
unfolding new_filings
IsFresh-new_filings earliest recent db d = (
  All-keep_self (λ f. includes f.accession_number (accessions db.discovered) ≡ false)
      (λ f. not (includes f.accession_number (accessions db.discovered)))
      (keep (is_candidate earliest) recent) (λ f e. ground arith),
  IsDistinct-keep _ _ (IsDistinct-keep _ recent d),
)

module _ (w : World) (recorded : (j : Job) → w.record_works j ≡ true) where
  -- A job either changes nothing or stands last in both the ledger and the queue.
  enqueue_cases :
      (j : Job) (db : Db)
      → includes j.accession_number (accessions db.discovered) ≡ false
      → SameLedger (enqueue w j db).0 db
        ⊎ ((accessions (enqueue w j db).0.discovered
              ≡ accessions db.discovered ++ j.accession_number ∷ [])
            × (queued (enqueue w j db).0.queue ≡ queued db.queue ++ j.accession_number ∷ []))
  unfolding enqueue
  enqueue_cases j db fresh = elim (Bool-cases (w.enqueue_works j)) [
    | inr e ↦ rw e (inl (refl, refl))
    | inl e ↦ rw (e, recorded j, fresh) (inr (accessions-concat _ _, queued-concat _ _))
  ]

  enqueue-IsOnce :
      (j : Job) (db : Db)
      → includes j.accession_number (accessions db.discovered) ≡ false
      → IsOnce db
      → IsOnce (enqueue w j db).0
  enqueue-IsOnce j db fresh (same, distinct) = elim (enqueue_cases j db fresh) [
    | inl (a, b) ↦ rw (a, b) (same, distinct)
    | inr (a, b) ↦
        rw (a, b)
          (
            ap (λ l. l ++ j.accession_number ∷ []) same,
            IsDistinct-concat _ _ distinct (rw same at fresh),
          )
  ]

  enqueue-IsFresh :
      (entry : UniverseEntry) (f : FilingReference) (fs : List FilingReference) (db : Db)
      → IsFresh db (f ∷ fs)
      → IsFresh (enqueue w (job_of entry f) db).0 fs
  enqueue-IsFresh entry f fs db ((now, later), (apart, distinct)) =
      elim (enqueue_cases (job_of entry f) db now) [
        | inl (a, b) ↦ rw a (later, distinct)
        | inr (a, b) ↦ (
          All-zip (λ g. includes g.accession_number (accessions db.discovered) ≡ false)
              (λ g. str_eq f.accession_number g.accession_number ≡ false)
              (λ g.
                includes g.accession_number
                  (accessions (enqueue w (job_of entry f) db).0.discovered)
                ≡ false)
              fs (λ g old different. rw a (rw includes-concat (rw (old, different) refl))) later
              (apart_of_not_included f.accession_number fs apart),
          distinct,
        )
      ]

  enqueue_all-IsOnce :
      (entry : UniverseEntry) (fs : List FilingReference) (db : Db)
      → IsFresh db fs
      → IsOnce db
      → IsOnce (enqueue_all w entry fs db).0
  unfolding enqueue_all
  enqueue_all-IsOnce entry [] db _ h = h
  enqueue_all-IsOnce entry (f ∷ fs) db fresh h =
      let here = enqueue-IsOnce (job_of entry f) db fresh.0.0 h in
      unless_threw-db IsOnce _ _ _ here (
        enqueue_all-IsOnce entry fs (enqueue w (job_of entry f) db).0
          (enqueue-IsFresh entry f fs db fresh) here)

-- Where every job that is put on the queue is also recorded, and no company's filings list an
-- accession number twice, a poll cycle keeps this: the queue has seen each discovered filing exactly
-- once, and no other. It does so also where putting a job on the queue throws and ends the cycle.
pub run_poll_cycle-IsOnce :
    (w : World) (universe : List UniverseEntry) (db : Db)
    → ((j : Job) → w.record_works j ≡ true)
    → ((cik : String) (submissions : SecSubmissions)
        → w.fetch cik ≡ received submissions
        → IsDistinct (numbers submissions.recent))
    → IsOnce db
    → IsOnce (run_poll_cycle w universe db).1
run_poll_cycle-IsOnce w universe db recorded distinct =
    run_poll_cycle-keeps w IsOnce universe db (λ a b same h. rw (same.0, same.1) h)
      (λ entry submissions d e h.
        enqueue_all-IsOnce w recorded entry _ d
          (IsFresh-new_filings _ submissions.recent d (distinct entry.cik submissions e)) h)
