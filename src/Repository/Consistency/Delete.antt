-- ===== src/Repository/Consistency/Delete.antt =====
-- The transaction of `delete` keeps the invariant, whatever was read before it.
use projects_api.Common.{
  String, Text, ◌==◌, ==_iff, ==_sound, subst, sym, ap, ◌∙◌, ◌≡◌, refl, true, false, Option, none,
  some, arith, Bool-cases, inl, inr,
}
use projects_api.Dynamo.{text, other, Attribute, attribute, equals, Item}
use projects_api.Dynamo.Behaviour.{Contents, is_text, attribute_of, meets, write_all, all_allowed}
use projects_api.Domain.Validation.{name_key}
use projects_api.Repository.{delete_writes}
use projects_api.Repository.Keys.{reservation_at, reservation_key-at}
use projects_api.Repository.Records.{Runtime, record_key}
use projects_api.Repository.Consistency.{Named, Holds, Holds-unique, Named-unique, IsConsistent}
use projects_api.Repository.Consistency.Writes.{delete-record, delete-reservation}

-- An item that meets `name = :value` is there and has that attribute.
pub equals_sound :
    (name : String) (value : Text) (o : Option Item)
    → meets (equals name value) o ≡ true
    → (item : Item) × (o ≡ some item) × (attribute name item ≡ some (text value))
unfolding meets attribute_of is_text
equals_sound name value none h = cc
equals_sound name value (some item) h = (item, refl, of_attribute (attribute name item) h)
  where
    of_attribute : (o : Option Attribute) → is_text value o ≡ true → o ≡ some (text value)
    of_attribute none h = cc
    of_attribute (some (text t)) h = ground (arith, ==_sound t value)
    of_attribute (some other) h = cc

module _ (r : Runtime) (project_id owner_id name : Text) where
  abbrev at_key : Text
  at_key = name_key r.unicode name

  -- The conditions hold only where the project has the owner and holds the reservation.
  pub delete-owned :
      (contents : Contents)
      → all_allowed (delete_writes r project_id owner_id name) contents ≡ true
      → Holds contents at_key project_id
        × ((item : Item) × (contents (record_key project_id) ≡ some item)
            × (attribute "ownerId" item ≡ some (text owner_id)))
  unfolding all_allowed delete_writes
  delete-owned contents h =
      let (item, e, f) =
        equals_sound "projectId" project_id (contents (reservation_at at_key))
          (rw (← reservation_key-at r.unicode name) (ground arith)) in
      (
        record { item = item; at = e; id_at = f },
        equals_sound "ownerId" owner_id (contents (record_key project_id))
            (unfold meets in ground arith),
      )

  module _ (contents : Contents) (v : IsConsistent r.unicode contents)
      (held_here : Holds contents at_key project_id) where
    abbrev after : Contents
    after = write_all (delete_writes r project_id owner_id name) contents

    -- The name of the deleted project has the key of the reservation.
    name_at : (n : Text) → Named contents project_id n → name_key r.unicode n ≡ at_key
    name_at n named =
        let (id, m, f, other_named, k) = v.held at_key held_here.item held_here.at in
        let same : id ≡ project_id = cc (f, held_here.id_at) in
        let one : n ≡ m =
          Named-unique n m named (subst (λ i. Named contents i m) same other_named) in
        ap (name_key r.unicode) one ∙ k

    kept-Holds :
        (key id : Text) → (project_id == id) ≡ false → Holds contents key id → Holds after key id
    kept-Holds key id ne h = record {
      item = h.item;
      at = elim (Bool-cases (at_key == key)) [
        | inl s ↦
            let here = subst (λ k. Holds contents k project_id) (==_sound at_key key s) held_here in
            absurd (ground (arith, ==_iff project_id id, Holds-unique project_id id here h))
        | inr s ↦ ground (arith, delete-reservation r contents project_id owner_id name key, h.at)
      ];
      id_at = h.id_at;
    }

    kept-Named :
        (key id n : Text)
        → (at_key == key) ≡ false
        → name_key r.unicode n ≡ key
        → Named contents id n
        → Named after id n
    kept-Named key id n ne k named = record {
      item = named.item;
      at = elim (Bool-cases (project_id == id)) [
        | inl s ↦
            let here = subst (λ i. Named contents i n) (sym (==_sound project_id id s)) named in
            absurd (ground (arith, ==_iff at_key key, name_at n here))
        | inr s ↦ ground (arith, delete-record r contents project_id owner_id name id, named.at)
      ];
      name_at = named.name_at;
    }

    reserved_after :
        (id : Text) (item : Item)
        → after (record_key id) ≡ some item
        → (n : Text) × (attribute "name" item ≡ some (text n))
          × Holds after (name_key r.unicode n) id
    reserved_after id item e = elim (Bool-cases (project_id == id)) [
      | inl s ↦ absurd (ground (arith, delete-record r contents project_id owner_id name id, e))
      | inr s ↦
          let old : contents (record_key id) ≡ some item =
            ground (arith, delete-record r contents project_id owner_id name id) in
          let (n, f, h) = v.reserved id item old in (n, f, kept-Holds _ id s h)
    ]

    held_after :
        (key : Text) (item : Item)
        → after (reservation_at key) ≡ some item
        → (id : Text) × (n : Text) × (attribute "projectId" item ≡ some (text id))
          × Named after id n
          × (name_key r.unicode n ≡ key)
    held_after key item e = elim (Bool-cases (at_key == key)) [
      | inl s ↦ absurd (ground (arith, delete-reservation r contents project_id owner_id name key))
      | inr s ↦
          let old : contents (reservation_at key) ≡ some item =
            ground (arith, delete-reservation r contents project_id owner_id name key) in
          let (id, n, f, named, k) = v.held key item old in
          (id, n, f, kept-Named key id n s k named, k)
    ]

    pub delete-IsConsistent : IsConsistent r.unicode after
    delete-IsConsistent = record {
      reserved = reserved_after;
      held = held_after;
      record_keyed = λ id item e.
          ground
            (arith, delete-record r contents project_id owner_id name id, v.record_keyed id item);
      reservation_keyed = λ key item e. ground (
        arith,
        delete-reservation r contents project_id owner_id name key,
        v.reservation_keyed key item,
      );
    }
