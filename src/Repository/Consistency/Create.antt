-- ===== src/Repository/Consistency/Create.antt =====
-- The transaction of `create` keeps the invariant.
use projects_api.Common.{
  Text, ◌==◌, ==_iff, ==_refl, ==_sound, subst, ◌≡◌, refl, true, Option, none, some, arith,
  Bool-cases, inl, inr,
}
use projects_api.Dynamo.{text, attribute, attribute_not_exists, Item}
use projects_api.Dynamo.Behaviour.{Contents, is_some, attribute_of, meets, write_all, all_allowed}
use projects_api.Domain.Validation.{name_key}
use projects_api.Domain.Models.{Project}
use projects_api.Repository.{create_writes}
use projects_api.Repository.Keys.{reservation_at, key_of-project_item, key_of-reservation_item}
use projects_api.Repository.Records.{Runtime, record_key, project_item, reservation_item}
use projects_api.Repository.Consistency.{Named, Holds, IsConsistent}
use projects_api.Repository.Consistency.Writes.{create-record, create-reservation}

-- An item that has the key attribute does not meet `attribute_not_exists(PK)`.
absent :
    (o : Option Item)
    → ((item : Item) → o ≡ some item → is_some (attribute "PK" item) ≡ true)
    → meets (attribute_not_exists "PK") o ≡ true
    → o ≡ none
unfolding meets attribute_of
absent none keyed h = refl
absent (some item) keyed h = ground (arith, keyed item refl)

module _ (r : Runtime) (p : Project) where
  abbrev at_key : Text
  at_key = name_key r.unicode p.name

  -- The attributes that the invariant reads.
  name_written : attribute "name" (project_item r.unicode p) ≡ some (text p.name)
  unfolding attribute project_item
  name_written = refl

  id_written : attribute "projectId" (reservation_item r.unicode p) ≡ some (text p.project_id)
  unfolding attribute reservation_item
  id_written = refl

  pub project_keyed : is_some (attribute "PK" (project_item r.unicode p)) ≡ true
  unfolding attribute project_item
  project_keyed = refl

  reservation_keyed : is_some (attribute "PK" (reservation_item r.unicode p)) ≡ true
  unfolding attribute reservation_item
  reservation_keyed = refl

  -- The conditions hold exactly where neither the name nor the id is taken.
  pub create-vacant :
      (contents : Contents)
      → IsConsistent r.unicode contents
      → all_allowed (create_writes r p) contents ≡ true
      → (contents (reservation_at at_key) ≡ none) × (contents (record_key p.project_id) ≡ none)
  unfolding all_allowed create_writes
  create-vacant contents v h = (
    absent (contents (reservation_at at_key)) (v.reservation_keyed at_key)
        (rw (← key_of-reservation_item r.unicode p) (ground arith)),
    absent (contents (record_key p.project_id)) (v.record_keyed p.project_id)
        (rw (← key_of-project_item r.unicode p) (ground arith)),
  )

  module _ (contents : Contents) (v : IsConsistent r.unicode contents)
      (free_name : contents (reservation_at at_key) ≡ none)
      (free_id : contents (record_key p.project_id) ≡ none) where
    abbrev after : Contents
    after = write_all (create_writes r p) contents

    new-Holds : Holds after at_key p.project_id
    new-Holds = record {
      item = reservation_item r.unicode p;
      at = rw create-reservation (ground (arith, ==_refl at_key));
      id_at = id_written;
    }

    new-Named : Named after p.project_id p.name
    new-Named = record {
      item = project_item r.unicode p;
      at = rw create-record (ground (arith, ==_refl p.project_id));
      name_at = name_written;
    }

    old-Holds : (key id : Text) → Holds contents key id → Holds after key id
    old-Holds key id h = record {
      item = h.item;
      at = rw create-reservation (ground (arith, ==_iff at_key key, h.at));
      id_at = h.id_at;
    }

    old-Named : (id name : Text) → Named contents id name → Named after id name
    old-Named id name h = record {
      item = h.item;
      at = rw create-record (ground (arith, ==_iff p.project_id id, h.at));
      name_at = h.name_at;
    }

    reserved_after :
        (id : Text) (item : Item)
        → after (record_key id) ≡ some item
        → (name : Text) × (attribute "name" item ≡ some (text name))
          × Holds after (name_key r.unicode name) id
    reserved_after id item e = elim (Bool-cases (p.project_id == id)) [
      | inl s ↦
          let written : project_item r.unicode p ≡ item =
            ground (arith, create-record r contents p id) in
          (
            p.name,
            rw (← written) name_written,
            subst (λ i. Holds after at_key i) (==_sound p.project_id id s) new-Holds,
          )
      | inr s ↦
          let old : contents (record_key id) ≡ some item =
            ground (arith, create-record r contents p id) in
          let (name, f, h) = v.reserved id item old in (name, f, old-Holds _ id h)
    ]

    held_after :
        (key : Text) (item : Item)
        → after (reservation_at key) ≡ some item
        → (id : Text) × (name : Text) × (attribute "projectId" item ≡ some (text id))
          × Named after id name
          × (name_key r.unicode name ≡ key)
    held_after key item e = elim (Bool-cases (at_key == key)) [
      | inl s ↦
          let written : reservation_item r.unicode p ≡ item =
            ground (arith, create-reservation r contents p key) in
          (p.project_id, p.name, rw (← written) id_written, new-Named, ==_sound at_key key s)
      | inr s ↦
          let old : contents (reservation_at key) ≡ some item =
            ground (arith, create-reservation r contents p key) in
          let (id, name, f, n, k) = v.held key item old in (id, name, f, old-Named id name n, k)
    ]

    pub create-IsConsistent : IsConsistent r.unicode after
    create-IsConsistent = record {
      reserved = reserved_after;
      held = held_after;
      record_keyed = λ id item e.
          ground (arith, create-record r contents p id, project_keyed, v.record_keyed id item);
      reservation_keyed = λ key item e. ground (
        arith,
        create-reservation r contents p key,
        reservation_keyed,
        v.reservation_keyed key item,
      );
    }
