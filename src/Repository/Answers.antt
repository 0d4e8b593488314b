-- ===== src/Repository/Answers.antt =====
-- What `create` answers where the service is up.
use projects_api.Common.{
  String, Text, ap, ◌≡◌, refl, true, false, Option, none, some, List, [], ◌∷◌,
}
use projects_api.Dynamo.{attribute, attribute_not_exists, Item, ClientError, Dynamo}
use projects_api.Dynamo.Behaviour.{
  Contents, Documented, IsServing, ReasonsTell, meets, all_allowed, attribute_of, is_some,
}
use projects_api.Domain.Exceptions.{project_name_taken, ok, raise}
use projects_api.Domain.Validation.{name_key}
use projects_api.Domain.Models.{Project}
use projects_api.World.{World}
use projects_api.Repository.{create_writes, create_error, create}
use projects_api.Repository.Keys.{reservation_at, key_of-reservation_item, key_of-project_item}
use projects_api.Repository.Records.{Runtime, record_key}
use projects_api.Repository.Consistency.{Holds, IsConsistent}
use projects_api.Repository.Create.{create_of_done, create_of_failed}

vacant : (name : String) (o : Option Item) → o ≡ none → meets (attribute_not_exists name) o ≡ true
unfolding meets attribute_of
vacant name o h = rw h refl

occupied :
    (name : String) (o : Option Item) (item : Item)
    → o ≡ some item
    → is_some (attribute name item) ≡ true
    → meets (attribute_not_exists name) o ≡ false
unfolding meets attribute_of
occupied name o item h k = rw (h, k) refl

create_error_first :
    (p : Project) (e : ClientError) (rs : List (Option String))
    → e.code ≡ some "TransactionCanceledException"
    → e.reasons ≡ some "ConditionalCheckFailed" ∷ rs
    → create_error p e ≡ project_name_taken p.name
unfolding create_error
create_error_first p e rs h k = rw (h, k) refl

module _ (r : Runtime) (p : Project) (contents : Contents) where
  allowed_of_free :
      contents (reservation_at (name_key r.unicode p.name)) ≡ none
      → contents (record_key p.project_id) ≡ none
      → all_allowed (create_writes r p) contents ≡ true
  unfolding all_allowed create_writes
  allowed_of_free h k =
      rw
        (
          key_of-reservation_item r.unicode p,
          key_of-project_item r.unicode p,
          vacant "PK" _ h,
          vacant "PK" _ k,
        )
        refl

  module _ (item : Item) (v : IsConsistent r.unicode contents)
      (there : contents (reservation_at (name_key r.unicode p.name)) ≡ some item) where
    refused_of_held : all_allowed (create_writes r p) contents ≡ false
    unfolding all_allowed create_writes
    refused_of_held =
        rw
          (
            key_of-reservation_item r.unicode p,
            occupied "PK" _ item there (v.reservation_keyed _ item there),
          )
          refl

    first_told :
        (reasons : List (Option String))
        → ReasonsTell reasons (create_writes r p) contents
        → (rs : List (Option String)) × (reasons ≡ some "ConditionalCheckFailed" ∷ rs)
    unfolding create_writes
    first_told [] tell = absurd tell
    first_told (c ∷ rs) tell = (
      rs,
      ap (λ (o : Option String). o ∷ rs)
          (tell.0 (
            rw (key_of-reservation_item r.unicode p)
              (occupied "PK" _ item there (v.reservation_keyed _ item there)))),
    )

module _ (r : Runtime) (D : Dynamo) (doc : Documented D) (up : IsServing D doc) (p : Project)
    (w : World D.Db) where
  -- Where the service answers transactions by their conditions, and neither the name nor the id is
  -- taken, `create` returns the project.
  pub create-returns :
      doc.contents w.db (reservation_at (name_key r.unicode p.name)) ≡ none
      → doc.contents w.db (record_key p.project_id) ≡ none
      → (create r D p w).0 ≡ ok p
  create-returns h k =
      create_of_done r D doc p w
        (up.transact_answers (create_writes r p) w.db (allowed_of_free r p (doc.contents w.db) h k))

  -- Where the service answers transactions by their conditions and tells which failed, on a
  -- consistent table where a project holds the reservation of the name, `create` raises that the
  -- name is taken.
  pub create-taken :
      (id : Text)
      → IsConsistent r.unicode (doc.contents w.db)
      → Holds (doc.contents w.db) (name_key r.unicode p.name) id
      → (create r D p w).0 ≡ raise (project_name_taken p.name)
  create-taken id v held =
      let (e, d, code, tell) =
        up.transact_refuses (create_writes r p) w.db
          (refused_of_held r p (doc.contents w.db) held.item v held.at) in
      let (rs, first) = first_told r p (doc.contents w.db) held.item v held.at e.reasons tell in
      rw (create_of_failed r D doc p w e d) (ap raise (create_error_first p e rs code first))
