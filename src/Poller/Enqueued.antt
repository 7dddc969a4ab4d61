-- ===== src/Poller/Enqueued.antt =====
-- What putting a company's new filings on the queue leaves in the database (src/poller.ts).
use edgar_radar.Prelude.{
  ◌≡◌, refl, ◌∙◌, inl, inr, String, List, [], ◌∷◌, ◌++◌, arith, Bool-cases, All, Any-append_left,
  Any-append_right,
}
use edgar_radar.Prelude.Dicts.{includes, IsIn, includes→IsIn}
use edgar_radar.Sec.Recent.{FilingReference}
use edgar_radar.Poller.{
  UniverseEntry, Job, Db, World, Ending, going, threw, unless_threw, accessions, job_of,
  record_discovered_filing, enqueue, enqueue_all,
}
use edgar_radar.Poller.Ledger.{accessions-concat}

-- Nothing that is discovered is forgotten.
abbrev pub Grows : Db → Db → Type 0
Grows a b = (x : String) → IsIn x (accessions a.discovered) → IsIn x (accessions b.discovered)

abbrev pub SameRest : Db → Db → Type 0
SameRest a b = (a.failing ≡ b.failing) × (a.last_checked_at ≡ b.last_checked_at)

record_discovered_filing-Grows : (j : Job) (db : Db) → Grows db (record_discovered_filing j db)
unfolding record_discovered_filing
record_discovered_filing-Grows j db x m =
    elim (Bool-cases (includes j.accession_number (accessions db.discovered))) [
      | inl e ↦ rw e m
      | inr e ↦ rw e (rw accessions-concat (Any-append_left _ (accessions db.discovered) _ m))
    ]

record_discovered_filing-IsIn :
    (j : Job) (db : Db)
    → IsIn j.accession_number (accessions (record_discovered_filing j db).discovered)
unfolding record_discovered_filing
record_discovered_filing-IsIn j db =
    elim (Bool-cases (includes j.accession_number (accessions db.discovered))) [
      | inl e ↦ rw e (includes→IsIn _ _ e)
      | inr e ↦
          rw e (rw accessions-concat (Any-append_right _ (accessions db.discovered) _ (inl refl)))
    ]

record_discovered_filing-SameRest :
    (j : Job) (db : Db) → SameRest (record_discovered_filing j db) db
unfolding record_discovered_filing
record_discovered_filing-SameRest j db = (ground arith, ground arith)

abbrev pub AllIn : List FilingReference → Db → Type 0
AllIn fs db = All (λ f. IsIn f.accession_number (accessions db.discovered)) fs

-- What a run of jobs comes to: `db` before, `e` after with its ending.
abbrev pub Enqueued : List FilingReference → Db → Db × Ending → Type 0
Enqueued fs db e = Grows db e.0 × SameRest e.0 db × (e.1 ≡ going → AllIn fs e.0)

module _ (w : World) where
  enqueue-Grows : (j : Job) (db : Db) → Grows db (enqueue w j db).0
  unfolding enqueue
  enqueue-Grows j db x m = elim (Bool-cases (w.enqueue_works j)) [
    | inr e ↦ rw e m
    | inl e ↦ elim (Bool-cases (w.record_works j)) [
      | inr f ↦ rw (e, f) m
      | inl f ↦
          rw (e, f)
            (record_discovered_filing-Grows j (record db { queue = db.queue ++ j ∷ [] }) x m)
    ]
  ]

  enqueue-IsIn :
      (j : Job) (db : Db)
      → (enqueue w j db).1 ≡ going
      → IsIn j.accession_number (accessions (enqueue w j db).0.discovered)
  unfolding enqueue
  enqueue-IsIn j db = elim (Bool-cases (w.enqueue_works j)) [
    | inr e ↦ rw e (λ bad. cc)
    | inl e ↦ elim (Bool-cases (w.record_works j)) [
      | inr f ↦ rw (e, f) (λ bad. cc)
      | inl f ↦
          rw (e, f)
            (λ _. record_discovered_filing-IsIn j (record db { queue = db.queue ++ j ∷ [] }))
    ]
  ]

  enqueue-SameRest : (j : Job) (db : Db) → SameRest (enqueue w j db).0 db
  unfolding enqueue
  enqueue-SameRest j db = elim (Bool-cases (w.enqueue_works j)) [
    | inr e ↦ rw e (refl, refl)
    | inl e ↦ elim (Bool-cases (w.record_works j)) [
      | inr f ↦ rw (e, f) (refl, refl)
      | inl f ↦
          rw (e, f) (record_discovered_filing-SameRest j (record db { queue = db.queue ++ j ∷ [] }))
    ]
  ]

  unless_threw-Enqueued :
      (fs : List FilingReference) (db here : Db) (ending : Ending) (rest : Db × Ending)
      → Grows db here × SameRest here db
      → (ending ≡ going → Enqueued fs db rest)
      → Enqueued fs db (unless_threw here ending rest)
  unless_threw-Enqueued fs db here going rest a b = b refl
  unless_threw-Enqueued fs db here threw rest a b = (a.0, a.1, λ bad. cc)

  pub enqueue_all-Enqueued :
      (entry : UniverseEntry) (fs : List FilingReference) (db : Db)
      → Enqueued fs db (enqueue_all w entry fs db)
  unfolding enqueue_all
  enqueue_all-Enqueued entry [] db = ((λ x m. m), (refl, refl), λ _. tt)
  enqueue_all-Enqueued entry (f ∷ fs) db =
      let j = job_of entry f in
      let (grows, rest, all_in) = enqueue_all-Enqueued entry fs (enqueue w j db).0 in
      let same = enqueue-SameRest j db in
      unless_threw-Enqueued (f ∷ fs) db _ _ _ (enqueue-Grows j db, same)
        (λ went. (
          λ x m. grows x (enqueue-Grows j db x m),
          (rest.0 ∙ same.0, rest.1 ∙ same.1),
          λ ended. (grows f.accession_number (enqueue-IsIn j db went), all_in ended),
        ))
