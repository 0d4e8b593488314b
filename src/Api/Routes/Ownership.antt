-- ===== src/Api/Routes/Ownership.antt =====
-- The routes give a project to its owner alone, and give back what was created.
use projects_api.Common.{
  Text, lit, ◌==◌, ==_sound, ==_ne, ==_refl, ◌≡◌, ◌≢◌, ◌⊎◌, inl, inr, refl, subst, sym, ap, ◌∙◌,
  true, false, Option, none, [], ◌++◌, length, all, Bool-cases,
}
use projects_api.Dynamo.{Item, Dynamo, done}
use projects_api.Dynamo.Behaviour.{Documented}
use projects_api.Domain.Exceptions.{Result-cases, project_not_found, Result, ok, raise}
use projects_api.Domain.Models.{
  Project, ProjectType, Datetime, is_hex, new_project, is_valid_project_id,
}
use projects_api.Domain.Models.Ids.{new_project-IsValid}
use projects_api.World.{World}
use projects_api.Repository
use projects_api.Repository.Records.{Runtime, record_key}
use projects_api.Repository.Consistency.{IsConsistent}
use projects_api.Repository.Reading.{ReadsTimes, get_of_missing, get_of_written, written_of_create}
use projects_api.Api.Routes.{create_project, owned, get_project}

abbrev project_of : Project → Result (Project × Text) → Project
project_of default (ok (p, _)) = p
project_of default (raise _) = default

abbrev location_of : Result (Project × Text) → Text
location_of (ok (_, location)) = location
location_of (raise _) = []

module _ (r : Runtime) (D : Dynamo) where
  owned_of_eq :
      (id owner_id : Text) (p : Project) (w : World D.Db)
      → p.owner_id ≡ owner_id
      → (owned r D id owner_id p w).0 ≡ ok p
  unfolding owned
  owned_of_eq id owner_id p w e = rw e (rw (==_refl owner_id) refl)

  get_project_of_found :
      (id owner_id : Text) (w : World D.Db) (p : Project)
      → is_valid_project_id id ≡ true
      → (Repository.get r D id w).0 ≡ ok p
      → p.owner_id ≡ owner_id
      → (get_project r D id owner_id w).0 ≡ ok p
  unfolding get_project
  get_project_of_found id owner_id w p valid found same =
      rw (valid, found) (owned_of_eq id owner_id p (Repository.get r D id w).1 same)

  -- A project that the route returns is one that the repository read at this id, which has the
  -- shape of an id, and it belongs to the caller.
  pub get_project-owned :
      (id owner_id : Text) (w : World D.Db) (p : Project)
      → (get_project r D id owner_id w).0 ≡ ok p
      → (is_valid_project_id id ≡ true)
        × ((Repository.get r D id w).0 ≡ ok p)
        × (p.owner_id ≡ owner_id)
  unfolding get_project
  get_project-owned id owner_id w p h = elim (Bool-cases (is_valid_project_id id)) [
    | inr e ↦ cc (rw e at h)
    | inl e ↦ elim (Result-cases (Repository.get r D id w).0) [
      | inr (x, f) ↦ cc (rw (e, f) at h)
      | inl (read, f) ↦ elim (Bool-cases (read.owner_id == owner_id)) [
        | inr s ↦ cc (rw (e, f, s) at h)
        | inl s ↦
            let same : read ≡ p = cc (rw (e, f, s) at h) in
            (
              e,
              f ∙ ap ok same,
              subst (λ (x : Project). x.owner_id ≡ owner_id) same (==_sound _ _ s),
            )
      ]
    ]
  ]

  module _ (doc : Documented D) where
    -- A malformed id, an id that is not in the table, where the service answers the read, and the
    -- id of a project of another owner all raise the same error: that the project is not found.
    pub get_project-hides :
        (id owner_id : Text) (w : World D.Db)
        → (is_valid_project_id id ≡ false)
          ⊎ (((doc.contents w.db (record_key id) ≡ none)
                × ((o : Option Item) × ((D.get_item (record_key id) w.db).0 ≡ done o)))
              ⊎ ((p : Project) × ((Repository.get r D id w).0 ≡ ok p) × (p.owner_id ≢ owner_id)))
        → (get_project r D id owner_id w).0 ≡ raise (project_not_found id)
    unfolding get_project
    get_project-hides id owner_id w (inl bad) = rw bad refl
    get_project-hides id owner_id w (inr (inl (gone, (o, answered)))) =
        let absent = sym (doc.get_reads (record_key id) w.db o answered) ∙ gone in
        let missing = get_of_missing r D doc id w (answered ∙ ap done absent) in
        elim (Bool-cases (is_valid_project_id id)) [
          | inl e ↦ rw (e, missing) refl
          | inr e ↦ rw e refl
        ]
    get_project-hides id owner_id w (inr (inr (p, found, other))) =
        elim (Bool-cases (is_valid_project_id id)) [
          | inl e ↦ rw (e, found) (rw (==_ne p.owner_id owner_id other) refl)
          | inr e ↦ rw e refl
        ]

    module _ (name : Text) (type_ : ProjectType) (owner_id : Text) (now : Datetime) (hex : Text)
        (w : World D.Db) where
      abbrev made : Project
      made = new_project name type_ owner_id now hex

      owner_of_made : made.owner_id ≡ owner_id
      unfolding new_project
      owner_of_made = refl

      -- The route returns where `create` does, with the same table.
      create_project-create :
          (q : Project) (location : Text)
          → (create_project r D name type_ owner_id now hex w).0 ≡ ok (q, location)
          → ((p : Project) × ((Repository.create r D made w).0 ≡ ok p))
            × (q ≡ made)
            × (location ≡ lit "/v1/projects/" ++ made.project_id)
            × ((create_project r D name type_ owner_id now hex w).1.db
                ≡ (Repository.create r D made w).1.db)
      unfolding create_project
      create_project-create q location h = elim (Result-cases (Repository.create r D made w).0) [
        | inr (x, e) ↦ cc (rw e at h)
        | inl (p, e) ↦
            let returned = rw e at h in
            (
              (p, e),
              sym (ap (λ (o : Result (Project × Text)). project_of made o) returned),
              sym (ap (λ (o : Result (Project × Text)). location_of o) returned),
              rw e refl,
            )
      ]

    -- On a consistent table, a project that the `POST` route has created with an id made from 32
    -- hexadecimal digits, its owner's `GET` returns, if the service answers the read and the stored
    -- times parse to the project's; `Location` is the path of its id.
    pub get_project-create_project :
        (name : Text) (type_ : ProjectType) (owner_id : Text) (now : Datetime) (hex : Text)
        (w : World D.Db) (found : Option Item) (q : Project) (location : Text)
        → ReadsTimes r (new_project name type_ owner_id now hex)
        → length hex ≡ 32
        → all is_hex hex ≡ true
        → IsConsistent r.unicode (doc.contents w.db)
        → (create_project r D name type_ owner_id now hex w).0 ≡ ok (q, location)
        → (D.get_item
            (record_key q.project_id)
            (create_project r D name type_ owner_id now hex w).1.db).0
          ≡ done found
        → ((get_project r D q.project_id owner_id
              (create_project r D name type_ owner_id now hex w).1).0
            ≡ ok q)
          × (location ≡ lit "/v1/projects/" ++ q.project_id)
    get_project-create_project name type_ owner_id now hex w found q location t n x v h answered =
        let ((p, created), same, at, table) =
          create_project-create name type_ owner_id now hex w q location h in
        let end = (create_project r D name type_ owner_id now hex w).1 in
        let stands =
          ap
            (λ (db : D.Db).
              doc.contents db (record_key (made name type_ owner_id now hex w).project_id))
            table
          ∙ written_of_create r D doc (made name type_ owner_id now hex w) p w v created in
        let read = get_of_written r D doc (made name type_ owner_id now hex w) end found t stands (
          subst (λ (z : Project). (D.get_item (record_key z.project_id) end.db).0 ≡ done found) same
            answered) in
        rw same (
          get_project_of_found (made name type_ owner_id now hex w).project_id owner_id end
              (made name type_ owner_id now hex w)
              (new_project-IsValid name type_ owner_id now hex n x) read
              (owner_of_made name type_ owner_id now hex w),
          at,
        )
