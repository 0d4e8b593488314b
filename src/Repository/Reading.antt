-- ===== src/Repository/Reading.antt =====
-- `get`, and that it reads back what `create` wrote.
use projects_api.Common.{Text, ◌≡◌, ◌∙◌, sym, ap, refl, true, Option, none, some, [], ◌∷◌, ==_refl}
use projects_api.Dynamo.{attribute, Item, Dynamo, done}
use projects_api.Dynamo.Behaviour.{Contents, Documented, is_some}
use projects_api.Domain.Exceptions.{project_not_found, ok, raise}
use projects_api.Domain.Models.{Project, isoformat}
use projects_api.Domain.Models.Ids.{type_of_value-type_value, status_of_value-status_value}
use projects_api.World.{World}
use projects_api.Repository.{create, get}
use projects_api.Repository.Records.{Runtime, record_key, project_item, to_project}
use projects_api.Repository.Consistency.{IsConsistent}
use projects_api.Repository.Consistency.Writes.{create-record}
use projects_api.Repository.Create.{create-ok}
use projects_api.Repository.Consistency.Create.{project_keyed}

-- pydantic reads the two times of the project back from what `isoformat` wrote.
pub record ReadsTimes (r : Runtime) (p : Project) : Type 0 where
  pub created : r.parse_datetime (isoformat p.created_at) ≡ some p.created_at
  pub updated : r.parse_datetime (isoformat p.updated_at) ≡ some p.updated_at

-- `_to_project` undoes the writing of an item, if the stored times parse to the project's.
pub to_project-project_item :
    (r : Runtime) (p : Project) → ReadsTimes r p → to_project r (project_item r.unicode p) ≡ ok p
unfolding to_project project_item attribute
to_project-project_item r p t =
    rw (type_of_value-type_value, status_of_value-status_value, t.created, t.updated) refl

module _ (r : Runtime) (D : Dynamo) (doc : Documented D) where
  -- `get` of a project that is there reads its item; `get` of one that is not raises.
  pub get_of_found :
      (id : Text) (item : Item) (w : World D.Db)
      → (D.get_item (record_key id) w.db).0 ≡ done (some item)
      → is_some (attribute "PK" item) ≡ true
      → (get r D id w).0 ≡ to_project r item
  unfolding get attribute
  get_of_found id [] w h k = cc
  get_of_found id (b ∷ item) w h k = rw h

  pub get_of_missing :
      (id : Text) (w : World D.Db)
      → (D.get_item (record_key id) w.db).0 ≡ done none
      → (get r D id w).0 ≡ raise (project_not_found id)
  unfolding get
  get_of_missing id w h = rw h

  -- A `get` of a project whose item is the one that `create` writes returns the project.
  pub get_of_written :
      (p : Project) (w : World D.Db) (found : Option Item)
      → ReadsTimes r p
      → doc.contents w.db (record_key p.project_id) ≡ some (project_item r.unicode p)
      → (D.get_item (record_key p.project_id) w.db).0 ≡ done found
      → (get r D p.project_id w).0 ≡ ok p
  get_of_written p w found t stands answered =
      let read = sym stands ∙ doc.get_reads (record_key p.project_id) w.db found answered in
      get_of_found p.project_id (project_item r.unicode p) w (answered ∙ ap done (sym read))
        (project_keyed r p)
      ∙ to_project-project_item r p t

  pub written_of_create :
      (p q : Project) (w : World D.Db)
      → IsConsistent r.unicode (doc.contents w.db)
      → (create r D p w).0 ≡ ok q
      → doc.contents (create r D p w).1.db (record_key p.project_id)
        ≡ some (project_item r.unicode p)
  written_of_create p q w v h =
      let (_, _, _, written) = create-ok r D doc p w q v h in
      let here = create-record r (doc.contents w.db) p p.project_id in
      ap (λ (c : Contents). c (record_key p.project_id)) written ∙ rw (==_refl p.project_id) at here

  -- On a consistent table, what `create` has returned, a `get` of its id that the service answers
  -- returns again, if the stored times parse to the project's.
  pub get-create :
      (p q : Project) (w : World D.Db) (found : Option Item)
      → ReadsTimes r p
      → IsConsistent r.unicode (doc.contents w.db)
      → (create r D p w).0 ≡ ok q
      → (D.get_item (record_key p.project_id) (create r D p w).1.db).0 ≡ done found
      → (get r D p.project_id (create r D p w).1).0 ≡ ok p
  get-create p q w found t v h =
      get_of_written p (create r D p w).1 found t (written_of_create p q w v h)
