-- ===== src/Repository/Transacted.antt =====
-- The second half of `delete`: the check of the project that was read, and the transaction.
use projects_api.Common.{
  Text, ◌==◌, ==_sound, ap, ◌∙◌, ◌≡◌, ◌≢◌, ◌⊎◌, refl, true, Option, none, some, List, [], ◌∷◌,
  arith, Bool-cases, inl, inr,
}
use projects_api.Dynamo.{Item, Write, ClientError, Dynamo}
use projects_api.Dynamo.Behaviour.{Reply-cases, Contents, Documented, all_allowed, write_all}
use projects_api.Domain.Exceptions.{project_not_found, ok, raise}
use projects_api.Domain.Models.{Project}
use projects_api.World.{World}
use projects_api.Repository.{delete_writes, delete_failed, delete_read, get, get_found}
use projects_api.Repository.Records.{Runtime, record_key}
use projects_api.Repository.Refusals.{is_code_sound}
use projects_api.Repository.Consistency.{IsConsistent}
use projects_api.Repository.Consistency.Delete.{delete-owned, delete-IsConsistent}

module _ (r : Runtime) (D : Dynamo) (doc : Documented D) where
  get_found_keeps :
      (id : Text) (found : Option Item) (w : World D.Db)
      → doc.contents (get_found r D id found w).1.db ≡ doc.contents w.db
  unfolding get_found
  get_found_keeps id none w = refl
  get_found_keeps id (some []) w = refl
  get_found_keeps id (some (b ∷ item)) w = refl

  -- `get` leaves the table as it is.
  pub get-keeps :
      (id : Text) (w : World D.Db) → doc.contents (get r D id w).1.db ≡ doc.contents w.db
  unfolding get
  get-keeps id w = elim (Reply-cases (D.get_item (record_key id) w.db).0) [
    | inl (found, d) ↦ rw d (get_found_keeps id found _ ∙ doc.get_keeps (record_key id) w.db)
    | inr (e, d) ↦ rw d (doc.get_keeps (record_key id) w.db)
  ]

  -- The `except` block writes at most a line of log, and raises.
  delete_failed_keeps :
      (project_id name : Text) (e : ClientError) (w : World D.Db)
      → ((delete_failed r D project_id name e w).1.db ≡ w.db)
        × ((x : Unit) → (delete_failed r D project_id name e w).0 ≢ ok x)
  unfolding delete_failed
  delete_failed_keeps project_id name e w = (ground arith, λ x h. ground arith)

  -- It raises that the project is not there only for a cancelled transaction.
  delete_failed-cancelled :
      (project_id name : Text) (e : ClientError) (w : World D.Db)
      → (delete_failed r D project_id name e w).0 ≡ raise (project_not_found project_id)
      → e.code ≡ some "TransactionCanceledException"
  unfolding delete_failed
  delete_failed-cancelled project_id name e w h =
      is_code_sound e.code "TransactionCanceledException" (ground arith)

  module _ (project_id owner_id : Text) (project : Project) (w : World D.Db) where
    abbrev writes : List Write
    writes = delete_writes r project_id owner_id project.name

    abbrev before : Contents
    before = doc.contents w.db

    abbrev pub after : Contents
    after = doc.contents (delete_read r D project_id owner_id project w).1.db

    -- The transaction either is made whole, for the owner of the record, or changes nothing.
    pub delete_read_cases :
        ((project.owner_id ≡ owner_id)
          × (all_allowed writes before ≡ true)
          × (after ≡ write_all writes before))
        ⊎ (((x : Unit) → (delete_read r D project_id owner_id project w).0 ≢ ok x)
            × (after ≡ before))
    unfolding delete_read
    delete_read_cases = elim (Bool-cases (project.owner_id == owner_id)) [
      | inr other ↦ inr (rw other (λ x h. cc h), rw (other, after) refl)
      | inl same ↦ elim (Reply-cases (D.transact_write_items writes w.db).0) [
        | inl (_, d) ↦
            let (met, written) = doc.transact_done writes w.db d in
            inl (==_sound _ _ same, met, rw (same, after) (rw d written))
        | inr (e, d) ↦
            let v = record w { db = (D.transact_write_items writes w.db).1 } in
            let (kept, raised) = delete_failed_keeps project_id project.name e v in
            elim (doc.transact_failed writes w.db e d) [
              | inl unchanged ↦ inr (
                rw same (rw d raised),
                rw (same, after) (rw d (ap doc.contents kept ∙ unchanged)),
              )
              | inr (met, written) ↦
                  inl (
                    ==_sound _ _ same,
                    met,
                    rw (same, after) (rw d (ap doc.contents kept ∙ written)),
                  )
            ]
      ]
    ]

    -- What `delete` raises for an id that is not there, it raises having changed nothing.
    pub delete_read-not_found :
        (delete_read r D project_id owner_id project w).0 ≡ raise (project_not_found project_id)
        → after ≡ before
    unfolding delete_read
    delete_read-not_found h = elim (Bool-cases (project.owner_id == owner_id)) [
      | inr other ↦ rw (other, after) refl
      | inl same ↦ elim (Reply-cases (D.transact_write_items writes w.db).0) [
        | inl (_, d) ↦ cc (rw (same, d) at h)
        | inr (e, d) ↦
            let v = record w { db = (D.transact_write_items writes w.db).1 } in
            let (kept, _) = delete_failed_keeps project_id project.name e v in
            let cancelled =
              delete_failed-cancelled project_id project.name e v (rw (same, d) at h) in
            rw (same, after)
              (rw d (ap doc.contents kept ∙ (doc.transact_cancelled writes w.db e d cancelled).0))
      ]
    ]

    -- The transaction and what follows it keep the table consistent, whatever project was read
    -- before and whatever has happened since.
    pub delete_read-keeps : IsConsistent r.unicode before → IsConsistent r.unicode after
    delete_read-keeps v = elim delete_read_cases [
      | inl (_, met, written) ↦
          let (held, _) = delete-owned r project_id owner_id project.name before met in
          rw written (delete-IsConsistent r project_id owner_id project.name before v held)
      | inr (_, kept) ↦ rw kept v
    ]
