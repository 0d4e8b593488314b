-- ===== src/Repository/Delete.antt =====
-- What `delete` does to the table, and when it raises.
use projects_api.Common.{Text, ==_ne, sym, ap, ◌∙◌, ◌≡◌, ◌≢◌, ◌⊎◌, Option, none, some, inl, inr}
use projects_api.Dynamo.{text, attribute, Item, Dynamo, done}
use projects_api.Dynamo.Behaviour.{Contents, Documented, write_all}
use projects_api.Domain.Exceptions.{Result-cases, Error, project_not_found, Result, ok, raise}
use projects_api.Domain.Validation.{name_key}
use projects_api.Domain.Models.{Project}
use projects_api.World.{World}
use projects_api.Repository.{delete_writes, delete_read, delete_project, get}
use projects_api.Repository.Records.{Runtime, record_key}
use projects_api.Repository.Reading.{get_of_missing}
use projects_api.Repository.Consistency.{Holds, IsConsistent}
use projects_api.Repository.Consistency.Delete.{delete-owned}
use projects_api.Repository.Transacted.{
  get-keeps, after, delete_read_cases, delete_read-not_found, delete_read-keeps,
}

module _ (r : Runtime) (D : Dynamo) (doc : Documented D) where
  module _ (project_id owner_id : Text) (w : World D.Db) where
    abbrev whole_before : Contents
    whole_before = doc.contents w.db

    abbrev whole_after : Contents
    whole_after = doc.contents (delete_project r D project_id owner_id w).1.db

    abbrev found : Result Project
    found = (get r D project_id w).0

    pub of_ok :
        (project : Project)
        → found ≡ ok project
        → delete_project r D project_id owner_id w
          ≡ delete_read r D project_id owner_id project (get r D project_id w).1
    unfolding delete_project
    of_ok project h = rw h

    of_raise :
        (e : Error)
        → found ≡ raise e
        → delete_project r D project_id owner_id w ≡ (raise e, (get r D project_id w).1)
    unfolding delete_project
    of_raise e h = rw h

    after_of_ok :
        (project : Project)
        → found ≡ ok project
        → whole_after ≡ after r D doc project_id owner_id project (get r D project_id w).1
    after_of_ok project h =
        ap (λ (o : Result Unit × World D.Db). doc.contents o.1.db) (of_ok project h)

    after_of_raise :
        (e : Error) → found ≡ raise e → whole_after ≡ doc.contents (get r D project_id w).1.db
    after_of_raise e h = ap (λ (o : Result Unit × World D.Db). doc.contents o.1.db) (of_raise e h)

    -- Whatever the service answers, `delete` keeps a consistent table consistent.
    pub delete-keeps : IsConsistent r.unicode whole_before → IsConsistent r.unicode whole_after
    delete-keeps v = elim (Result-cases found) [
      | inl (project, h) ↦ rw (after_of_ok project h) (
          delete_read-keeps r D doc project_id owner_id project (get r D project_id w).1
            (rw (get-keeps r D doc project_id w) v))
      | inr (e, h) ↦ rw (after_of_raise e h) (rw (get-keeps r D doc project_id w) v)
    ]

    -- A call of `delete` that raises has changed nothing, or it was made by the owner of the
    -- project that it read, and exactly its two deletes have been made; where it raises that the
    -- project is not found, it has changed nothing.
    pub delete-raise :
        (x : Error)
        → (delete_project r D project_id owner_id w).0 ≡ raise x
        → ((whole_after ≡ whole_before)
            ⊎ ((project : Project) × (found ≡ ok project)
                × (project.owner_id ≡ owner_id)
                × (whole_after
                    ≡ write_all (delete_writes r project_id owner_id project.name) whole_before)))
          × (x ≡ project_not_found project_id → whole_after ≡ whole_before)
    delete-raise x raised = elim (Result-cases found) [
      | inr (e, h) ↦
          let kept = after_of_raise e h ∙ get-keeps r D doc project_id w in (inl kept, λ _. kept)
      | inl (project, h) ↦ (
        elim (delete_read_cases r D doc project_id owner_id project (get r D project_id w).1) [
          | inl (mine, _, written) ↦ inr (
            project,
            h,
            mine,
            after_of_ok project h ∙ written ∙ ap (write_all _) (get-keeps r D doc project_id w),
          )
          | inr (_, kept) ↦ inl (after_of_ok project h ∙ kept ∙ get-keeps r D doc project_id w)
        ],
        λ same.
            after_of_ok project h
            ∙ delete_read-not_found r D doc project_id owner_id project (get r D project_id w).1
                (ap (λ o. o.0) (sym (of_ok project h)) ∙ raised ∙ ap raise same)
            ∙ get-keeps r D doc project_id w,
      )
    ]

    -- A call of `delete` that returns was made by the owner of the record that it read and of the
    -- one that stood in the table, which held the reservation of the name that was read; it has
    -- removed the two items and nothing else.
    pub delete-ok :
        (delete_project r D project_id owner_id w).0 ≡ ok tt
        → (project : Project) × (found ≡ ok project)
          × (project.owner_id ≡ owner_id)
          × Holds whole_before (name_key r.unicode project.name) project_id
          × ((item : Item) × (whole_before (record_key project_id) ≡ some item)
              × (attribute "ownerId" item ≡ some (text owner_id)))
          × (whole_after
              ≡ write_all (delete_writes r project_id owner_id project.name) whole_before)
    delete-ok returned = elim (Result-cases found) [
      | inl (project, h) ↦
          elim (delete_read_cases r D doc project_id owner_id project (get r D project_id w).1) [
            | inl (mine, met, written) ↦
                let (held, owned) =
                  delete-owned r project_id owner_id project.name whole_before
                    (rw (get-keeps r D doc project_id w) at met) in
                (
                  project,
                  h,
                  mine,
                  held,
                  owned,
                  after_of_ok project h
                      ∙ written
                      ∙ ap (write_all _) (get-keeps r D doc project_id w),
                )
            | inr (raised, _) ↦
                absurd (raised tt (ap (λ o. o.0) (sym (of_ok project h)) ∙ returned))
          ]
      | inr (e, h) ↦ cc (returned, of_raise e h)
    ]

    delete_of_other :
        (project : Project)
        → found ≡ ok project
        → project.owner_id ≢ owner_id
        → ((delete_project r D project_id owner_id w).0 ≡ raise (project_not_found project_id))
          × (whole_after ≡ whole_before)
    unfolding delete_read
    delete_of_other project h other =
        let ne = ==_ne project.owner_id owner_id other in
        (
          rw (of_ok project h) (rw ne),
          after_of_ok project h ∙ rw (ne, after) (get-keeps r D doc project_id w),
        )

    -- A call of `delete` for an id that is not in the table, where the service answers the read.
    delete_of_missing :
        (o : Option Item)
        → whole_before (record_key project_id) ≡ none
        → (D.get_item (record_key project_id) w.db).0 ≡ done o
        → ((delete_project r D project_id owner_id w).0 ≡ raise (project_not_found project_id))
          × (whole_after ≡ whole_before)
    delete_of_missing o gone answered =
        let absent = sym (doc.get_reads (record_key project_id) w.db o answered) ∙ gone in
        let missing = get_of_missing r D doc project_id w (answered ∙ ap done absent) in
        (
          ap (λ o. o.0) (of_raise (project_not_found project_id) missing),
          after_of_raise (project_not_found project_id) missing ∙ get-keeps r D doc project_id w,
        )

  module _ (project_id owner_id : Text) (w v : World D.Db) where
    -- A call of `delete` that reads the project of another owner raises the same as one whose id is
    -- not in the table, where the service answers the read: that the project is not found. Neither
    -- changes its table.
    pub delete-hides :
        (project : Project) (o : Option Item)
        → (get r D project_id w).0 ≡ ok project
        → project.owner_id ≢ owner_id
        → doc.contents v.db (record_key project_id) ≡ none
        → (D.get_item (record_key project_id) v.db).0 ≡ done o
        → ((delete_project r D project_id owner_id w).0
            ≡ (delete_project r D project_id owner_id v).0)
          × ((delete_project r D project_id owner_id w).0 ≡ raise (project_not_found project_id))
          × (doc.contents (delete_project r D project_id owner_id w).1.db ≡ doc.contents w.db)
          × (doc.contents (delete_project r D project_id owner_id v).1.db ≡ doc.contents v.db)
    delete-hides project o h other gone answered =
        let (hidden, kept) = delete_of_other project_id owner_id w project h other in
        let (missing, left) = delete_of_missing project_id owner_id v o gone answered in
        (hidden ∙ sym missing, hidden, kept, left)
