-- ===== src/Repository/Consistency/Writes.antt =====
-- What the three writes do to the records and to the reservations.
use projects_api.Common.{Text, ◌==◌, ◌≡◌, Option, none, some, if◌then◌else◌}
use projects_api.Dynamo.{Item}
use projects_api.Dynamo.Behaviour.{Contents, assign, write_all}
use projects_api.Domain.Validation.{name_key}
use projects_api.Domain.Models.{Project}
use projects_api.Repository.{create_writes, delete_writes}
use projects_api.Repository.Keys.{
  reservation_at, reservation_key-at, key_eq-record, key_eq-reservation, key_eq-record-reservation,
  key_eq-reservation-record, key_of-project_item, key_of-reservation_item,
}
use projects_api.Repository.Records.{Runtime, record_key, project_item, reservation_item}

module _ (r : Runtime) (contents : Contents) where
  pub create-record :
      (p : Project) (id : Text)
      → write_all (create_writes r p) contents (record_key id)
        ≡ (if p.project_id == id then some (project_item r.unicode p) else contents (record_key id))
  unfolding write_all create_writes assign
  create-record p id =
      rw (key_of-project_item, key_of-reservation_item, key_eq-record, key_eq-reservation-record)

  pub create-reservation :
      (p : Project) (k : Text)
      → write_all (create_writes r p) contents (reservation_at k) ≡ (
          if name_key r.unicode p.name == k
          then some (reservation_item r.unicode p)
          else contents (reservation_at k))
  unfolding write_all create_writes assign
  create-reservation p k =
      rw (
        key_of-project_item, key_of-reservation_item, key_eq-record-reservation, key_eq-reservation,
      )

  pub delete-record :
      (project_id owner_id name id : Text)
      → write_all (delete_writes r project_id owner_id name) contents (record_key id)
        ≡ (if project_id == id then none else contents (record_key id))
  unfolding write_all delete_writes assign
  delete-record project_id owner_id name id =
      rw (reservation_key-at, key_eq-record, key_eq-reservation-record)

  pub delete-reservation :
      (project_id owner_id name k : Text)
      → write_all (delete_writes r project_id owner_id name) contents (reservation_at k)
        ≡ (if name_key r.unicode name == k then none else contents (reservation_at k))
  unfolding write_all delete_writes assign
  delete-reservation project_id owner_id name k =
      rw (reservation_key-at, key_eq-record-reservation, key_eq-reservation)

module _ (contents : Contents) (project_id : Text) (value : Option Item) where
  pub assign-record :
      (id : Text)
      → assign (record_key project_id) value contents (record_key id)
        ≡ (if project_id == id then value else contents (record_key id))
  unfolding assign
  assign-record id = rw key_eq-record

  pub assign-reservation :
      (k : Text)
      → assign (record_key project_id) value contents (reservation_at k)
        ≡ contents (reservation_at k)
  unfolding assign
  assign-reservation k = rw key_eq-record-reservation
