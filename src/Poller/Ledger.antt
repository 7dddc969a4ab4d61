-- ===== src/Poller/Ledger.antt =====
-- The ledger of discovered filings against the queue, through cycles of src/poller.ts that may end
-- in an exception at any call of the database or the queue.
use mathlib.Core.List.{map-append}
use edgar_radar.Prelude.{
  ◌≡◌, refl, inl, inr, List, [], ◌∷◌, ◌++◌, Bool-cases, All, All-append, All-impl, Any-append_left,
  Any-append_right,
}
use edgar_radar.Prelude.Dicts.{includes, IsIn}
use edgar_radar.Sec.Recent.{FilingReference}
use edgar_radar.Poller.{
  UniverseEntry, Job, Discovered, Db, World, Ending, going, threw, unless_threw, accessions, queued,
  job_of, enqueue, enqueue_all, run_poll_cycle,
}
use edgar_radar.Poller.Invariant.{run_poll_cycle-keeps}

-- Every discovered accession number has a job on the queue.
abbrev pub IsBacked : Db → Type 0
IsBacked db = All (λ a. IsIn a (queued db.queue)) (accessions db.discovered)

pub queued-concat :
    (jobs : List Job) (j : Job) → queued (jobs ++ j ∷ []) ≡ queued jobs ++ j.accession_number ∷ []
queued-concat jobs j = map-append _ jobs (j ∷ [])

pub accessions-concat :
    (rows : List Discovered) (r : Discovered)
    → accessions (rows ++ r ∷ []) ≡ accessions rows ++ r.accession_number ∷ []
accessions-concat rows r = map-append _ rows (r ∷ [])

pub unless_threw-db :
    (P : Db → Type 0) (here : Db) (ending : Ending) (rest : Db × Ending)
    → P here
    → P rest.0
    → P (unless_threw here ending rest).0
unless_threw-db P here going rest a b = b
unless_threw-db P here threw rest a b = a

module _ (w : World) where
  enqueue-IsBacked : (j : Job) (db : Db) → IsBacked db → IsBacked (enqueue w j db).0
  unfolding enqueue
  enqueue-IsBacked j db h = elim (Bool-cases (w.enqueue_works j)) [
    | inr e ↦ rw e h
    | inl e ↦ elim (Bool-cases (w.record_works j)) [
      | inr f ↦ rw (e, f) longer
      | inl f ↦ elim (Bool-cases (includes j.accession_number (accessions db.discovered))) [
        | inl g ↦ rw (e, f, g) longer
        | inr g ↦
            rw (e, f, g)
              (rw accessions-concat (
                All-append _ (accessions db.discovered) (j.accession_number ∷ []) longer
                  (rw queued-concat (Any-append_right _ (queued db.queue) _ (inl refl)), tt)))
      ]
    ]
  ]
    where
      longer : All (λ a. IsIn a (queued (db.queue ++ j ∷ []))) (accessions db.discovered)
      longer =
          All-impl (accessions db.discovered)
            (λ a m. rw queued-concat (Any-append_left _ (queued db.queue) _ m)) h

  enqueue_all-IsBacked :
      (entry : UniverseEntry) (fs : List FilingReference) (db : Db)
      → IsBacked db
      → IsBacked (enqueue_all w entry fs db).0
  unfolding enqueue_all
  enqueue_all-IsBacked entry [] db h = h
  enqueue_all-IsBacked entry (f ∷ fs) db h =
      let here = enqueue-IsBacked (job_of entry f) db h in
      unless_threw-db IsBacked _ _ _ here
        (enqueue_all-IsBacked entry fs (enqueue w (job_of entry f) db).0 here)

-- A poll cycle, however it ends and whichever of its calls of the database and the queue fail, records
-- no filing as discovered without a job for it on the queue.
pub run_poll_cycle-IsBacked :
    (w : World) (universe : List UniverseEntry) (db : Db)
    → IsBacked db
    → IsBacked (run_poll_cycle w universe db).1
run_poll_cycle-IsBacked w universe db =
    run_poll_cycle-keeps w IsBacked universe db (λ a b same h. rw same.0 (rw same.1 h))
      (λ entry submissions d e h. enqueue_all-IsBacked w entry _ d h)
