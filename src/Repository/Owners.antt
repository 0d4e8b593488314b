-- ===== src/Repository/Owners.antt =====
-- What `delete` answers an owner where the service is up.
use projects_api.Common.{
  String, Text, ==_refl, ◌≡◌, ap, ◌∙◌, subst, refl, true, Option, none, some, [], ◌∷◌, inl, inr,
}
use projects_api.Dynamo.{Item, Dynamo, text, attribute, attribute_exists, equals, done}
use projects_api.Dynamo.Behaviour.{
  Contents, Documented, IsServing, Reply-cases, meets, all_allowed, attribute_of, is_text, is_some,
}
use projects_api.Domain.Exceptions.{ok, Result}
use projects_api.Domain.Validation.{name_key}
use projects_api.Domain.Models.{Project}
use projects_api.World.{World}
use projects_api.Repository.{delete_writes, delete_read, delete_project, get, get_found}
use projects_api.Repository.Keys.{reservation_key-at}
use projects_api.Repository.Records.{Runtime, record_key, to_project}
use projects_api.Repository.Consistency.{Holds, IsConsistent}
use projects_api.Repository.Transacted.{get-keeps}
use projects_api.Repository.Delete.{of_ok}
use projects_api.Repository.Stored.{to_project_stored}

exists_meets :
    (name : String) (o : Option Item) (item : Item)
    → o ≡ some item
    → is_some (attribute name item) ≡ true
    → meets (attribute_exists name) o ≡ true
unfolding meets attribute_of
exists_meets name o item h k = rw (h, k) refl

equals_meets :
    (name : String) (value : Text) (o : Option Item) (item : Item)
    → o ≡ some item
    → attribute name item ≡ some (text value)
    → meets (equals name value) o ≡ true
unfolding meets attribute_of is_text
equals_meets name value o item h k = rw (h, k) (==_refl value)

module _ (r : Runtime) (project_id owner_id name : Text) (contents : Contents) (item : Item) where
  allowed_of_owner :
      contents (record_key project_id) ≡ some item
      → is_some (attribute "PK" item) ≡ true
      → attribute "ownerId" item ≡ some (text owner_id)
      → Holds contents (name_key r.unicode name) project_id
      → all_allowed (delete_writes r project_id owner_id name) contents ≡ true
  unfolding all_allowed delete_writes
  allowed_of_owner there keyed owned held =
      let exists = exists_meets "PK" _ item there keyed in
      let mine = equals_meets "ownerId" owner_id _ item there owned in
      let points = equals_meets "projectId" project_id _ held.item held.at held.id_at in
      unfold meets in rw (reservation_key-at r.unicode name, exists, mine, points) refl

module _ (r : Runtime) (D : Dynamo) (doc : Documented D) where
  found_of_get :
      (id : Text) (w : World D.Db) (p : Project)
      → (get r D id w).0 ≡ ok p
      → (item : Item) × (doc.contents w.db (record_key id) ≡ some item) × (to_project r item ≡ ok p)
  unfolding get get_found
  found_of_get id w p h = elim (Reply-cases (D.get_item (record_key id) w.db).0) [
    | inl (found, d) ↦
        let (item, e, read) =
          of_found found (record w { db = (D.get_item (record_key id) w.db).1 }) (rw d at h) in
        (item, doc.get_reads (record_key id) w.db found d ∙ e, read)
    | inr (x, d) ↦ cc (rw d at h)
  ]
    where
      of_found :
          (found : Option Item) (v : World D.Db)
          → (get_found r D id found v).0 ≡ ok p
          → (item : Item) × (found ≡ some item) × (to_project r item ≡ ok p)
      of_found none v k = cc (k)
      of_found (some []) v k = cc (k)
      of_found (some (b ∷ item)) v k = (b ∷ item, refl, k)

  delete_read_of_done :
      (project_id owner_id : Text) (project : Project) (w : World D.Db)
      → project.owner_id ≡ owner_id
      → (D.transact_write_items (delete_writes r project_id owner_id project.name) w.db).0 ≡ done tt
      → (delete_read r D project_id owner_id project w).0 ≡ ok tt
  unfolding delete_read
  delete_read_of_done project_id owner_id project w mine h =
      rw mine (rw (==_refl owner_id) (rw h refl))

  -- Where the service answers transactions by their conditions, on a consistent table, `delete`
  -- returns for the owner of the project that its read gives.
  pub delete-returns :
      (project_id owner_id : Text) (project : Project) (w : World D.Db)
      → IsServing D doc
      → IsConsistent r.unicode (doc.contents w.db)
      → (get r D project_id w).0 ≡ ok project
      → project.owner_id ≡ owner_id
      → (delete_project r D project_id owner_id w).0 ≡ ok tt
  delete-returns project_id owner_id project w up v read mine =
      let (item, there, built) = found_of_get project_id w project read in
      let (named, owned) = to_project_stored r item project built in
      let (name, name_at, held) = v.reserved project_id item there in
      let same : name ≡ project.name = cc (name_at, named) in
      let met =
        allowed_of_owner r project_id owner_id project.name (doc.contents w.db) item there
          (v.record_keyed project_id item there) (owned ∙ ap (λ (t : Text). some (text t)) mine)
          (subst (λ (n : Text). Holds (doc.contents w.db) (name_key r.unicode n) project_id) same
            held) in
      ap (λ (o : Result Unit × World D.Db). o.0) (of_ok r D doc project_id owner_id w project read)
      ∙ delete_read_of_done project_id owner_id project (get r D project_id w).1 mine (
          up.transact_answers (delete_writes r project_id owner_id project.name)
            (get r D project_id w).1.db (rw (get-keeps r D doc project_id w) met))
