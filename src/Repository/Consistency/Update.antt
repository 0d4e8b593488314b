-- ===== src/Repository/Consistency/Update.antt =====
-- The update of a status transition keeps the invariant.
use projects_api.Common.{
  String, Text, ◌==◌, ==_iff, ==_sound, subst, sym, ◌∙◌, ◌≡◌, refl, none, some, [], ◌∷◌, ◌++◌,
  arith, Bool-cases, inl, inr, str_eq,
}
use projects_api.Dynamo.{attribute, Item}
use projects_api.Dynamo.Behaviour.{Contents, assign}
use projects_api.Domain.Validation.{Unicode}
use projects_api.Repository.Records.{record_key}
use projects_api.Repository.Consistency.{Named, Holds, IsConsistent}
use projects_api.Repository.Consistency.Writes.{assign-record, assign-reservation}

-- Attributes that are not assigned keep their values.
pub attribute-append :
    (name : String) (sets item : Item)
    → attribute name sets ≡ none
    → attribute name (sets ++ item) ≡ attribute name item
unfolding attribute
attribute-append name [] item h = refl
attribute-append name ((k, v) ∷ sets) item h = elim (Bool-cases (str_eq k name)) [
  | inl s ↦ ground arith
  | inr s ↦ ground (arith, attribute-append name sets item)
]

module _ (u : Unicode) (contents : Contents) (v : IsConsistent u contents) (project_id : Text)
    (sets item : Item) (was : contents (record_key project_id) ≡ some item)
    (keeps_name : attribute "name" sets ≡ none) (keeps_key : attribute "PK" sets ≡ none) where
  abbrev after : Contents
  after = assign (record_key project_id) (some (sets ++ item)) contents

  kept-Holds : (key id : Text) → Holds contents key id → Holds after key id
  kept-Holds key id h = record {
    item = h.item;
    at = assign-reservation contents project_id _ key ∙ h.at;
    id_at = h.id_at;
  }

  kept-Named : (id n : Text) → Named contents id n → Named after id n
  kept-Named id n named = elim (Bool-cases (project_id == id)) [
    | inl s ↦ record {
      item = sets ++ item;
      at = rw assign-record (rw s);
      name_at =
          attribute-append "name" sets item keeps_name
          ∙ ground (arith, was, named.at, ==_iff project_id id, named.name_at);
    }
    | inr s ↦ record {
      item = named.item;
      at = rw assign-record (rw s named.at);
      name_at = named.name_at;
    }
  ]

  -- What stands at a record after the update stood there before, up to the assignments.
  origin :
      (id : Text) (now : Item)
      → after (record_key id) ≡ some now
      → (before : Item) × (contents (record_key id) ≡ some before)
        × (attribute "name" now ≡ attribute "name" before)
        × (attribute "PK" now ≡ attribute "PK" before)
  origin id now e = elim (Bool-cases (project_id == id)) [
    | inl s ↦
        let written : sets ++ item ≡ now =
          ground (arith, assign-record contents project_id (some (sets ++ item)) id) in
        (
          item,
          subst (λ i. contents (record_key i) ≡ some item) (==_sound project_id id s) was,
          rw (← written) (attribute-append "name" sets item keeps_name),
          rw (← written) (attribute-append "PK" sets item keeps_key),
        )
    | inr s ↦ (
      now,
      ground (arith, assign-record contents project_id (some (sets ++ item)) id),
      refl,
      refl,
    )
  ]

  pub update-IsConsistent : IsConsistent u after
  update-IsConsistent = record {
    reserved = λ id now e.
        let (before, at, same_name, same_key) = origin id now e in
        let (n, f, h) = v.reserved id before at in (n, same_name ∙ f, kept-Holds _ id h);
    held = λ key res e.
        let (id, n, f, named, k) =
          v.held key res (sym (assign-reservation contents project_id _ key) ∙ e) in
        (id, n, f, kept-Named id n named, k);
    record_keyed = λ id now e.
        let (before, at, same_name, same_key) = origin id now e in
        rw same_key (v.record_keyed id before at);
    reservation_keyed = λ key res e.
        v.reservation_keyed key res (sym (assign-reservation contents project_id _ key) ∙ e);
  }
