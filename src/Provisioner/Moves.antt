-- ===== src/Provisioner/Moves.antt =====
-- The status machine of a project, on the contents of the table.
use projects_api.Common.{
  String, Text, ◌==◌, ==_sound, subst, sym, ap, ◌∙◌, ◌≡◌, ◌⊎◌, inl, inr, refl, Option, none, some,
  [], ◌∷◌, ◌++◌, arith, Bool-cases, str_eq,
}
use projects_api.Dynamo.{text, Attribute, attribute, Item}
use projects_api.Dynamo.Behaviour.{Contents, assign, attribute_of}
use projects_api.Domain.Validation.{Unicode}
use projects_api.Domain.Models.{
  ProjectStatus, created, provisioning, ready, failed, status_value, status_of_value,
}
use projects_api.Domain.Models.Ids.{status_of_value-status_value}
use projects_api.Repository.Records.{record_key}
use projects_api.Repository.Consistency.{IsConsistent}
use projects_api.Repository.Consistency.Update.{update-IsConsistent}
use projects_api.Repository.Consistency.Writes.{assign-record}

-- CREATED -> PROVISIONING -> READY or FAILED
pub data Allowed : ProjectStatus → ProjectStatus → Type 0 where
  begins : Allowed created provisioning
  completes : Allowed provisioning ready
  fails : Allowed provisioning failed

-- Assignments to none of the attributes that the invariants read.
abbrev pub Untouched : Item → Type 0
Untouched sets =
    (attribute "name" sets ≡ none)
    × (attribute "PK" sets ≡ none)
    × (attribute "ownerId" sets ≡ none)
    × (attribute "GSI1PK" sets ≡ none)
    × (attribute "GSI1SK" sets ≡ none)
    × (attribute "createdAt" sets ≡ none)

-- One status transition of one project: its item has the old status, gets the new one, and keeps
-- its name, its key, its owner and its partition of the index; no other item changes.
pub record Move (c d : Contents) : Type 0 where
  pub id : Text
  pub from : ProjectStatus
  pub to : ProjectStatus
  pub allowed : Allowed from to
  pub sets : Item
  pub item : Item
  pub was : c (record_key id) ≡ some item
  pub status_was : attribute "status" item ≡ some (text (status_value from))
  pub status_set : attribute "status" sets ≡ some (text (status_value to))
  pub untouched : Untouched sets
  pub result : d ≡ assign (record_key id) (some (sets ++ item)) c

pub data Moves (c : Contents) : Contents → Type 0 where
  still : {d : Contents} → d ≡ c → Moves c d
  then_move : {d e : Contents} → Moves c d → Move d e → Moves c e

pub Moves-trans : {c d e : Contents} → Moves c d → Moves d e → Moves c e
Moves-trans {c} m (still h) = subst (λ x. Moves c x) (sym h) m
Moves-trans m (then_move n s) = then_move (Moves-trans m n) s

pub Moves-IsConsistent :
    (u : Unicode) {c d : Contents} → Moves c d → IsConsistent u c → IsConsistent u d
Moves-IsConsistent u (still h) v = rw h v
Moves-IsConsistent u (then_move {d = d} m s) v = rw s.result (
    update-IsConsistent u d (Moves-IsConsistent u m v) s.id s.sets s.item s.was s.untouched.0
      s.untouched.1)

-- The status attribute of a project.
abbrev pub status_of : Contents → Text → Option Attribute
status_of c id = attribute_of "status" (c (record_key id))

abbrev pub HasStatus : Contents → Text → ProjectStatus → Type 0
HasStatus c id s = status_of c id ≡ some (text (status_value s))

attribute-append_some :
    (name : String) (sets item : Item) {value : Attribute}
    → attribute name sets ≡ some value
    → attribute name (sets ++ item) ≡ some value
unfolding attribute
attribute-append_some name [] item h = cc
attribute-append_some name ((k, v) ∷ sets) item {value} h = elim (Bool-cases (str_eq k name)) [
  | inl s ↦ rw s (rw s at h)
  | inr s ↦ rw s (attribute-append_some name sets item (rw s at h))
]

-- A move changes the status of its own project, along the machine.
pub Move-status :
    {c d : Contents} (s : Move c d) (id : Text)
    → (HasStatus c id s.from × HasStatus d id s.to) ⊎ (status_of d id ≡ status_of c id)
unfolding attribute_of
Move-status {c} {d} s id =
    let read =
      ap (λ (f : Contents). f (record_key id)) s.result
      ∙ assign-record c s.id (some (s.sets ++ s.item)) id in
    elim (Bool-cases (s.id == id)) [
      | inl e ↦ inl (
        rw (← ==_sound s.id id e, s.was) s.status_was,
        ap (attribute_of "status") (rw e at read)
            ∙ (attribute-append_some "status" s.sets s.item s.status_set),
      )
      | inr e ↦ inr (ap (attribute_of "status") (rw e at read))
    ]

-- Later in the machine, or equal.
pub data Later (a : ProjectStatus) : ProjectStatus → Type 0 where
  same : Later a a
  next : {b c : ProjectStatus} → Later a b → Allowed b c → Later a c

status_value-injective : (a b : ProjectStatus) → status_value a ≡ status_value b → a ≡ b
status_value-injective a b h =
    cc (status_of_value-status_value a, status_of_value-status_value b, ap status_of_value h)

-- Along any moves, by whatever invocations, a status goes only forward in the machine.
pub Moves-Later :
    {c d : Contents} (id : Text) (a : ProjectStatus)
    → Moves c d
    → HasStatus c id a
    → (b : ProjectStatus) × HasStatus d id b × Later a b
Moves-Later id a (still h) k = (a, rw h k, same)
Moves-Later id a (then_move m s) k =
    let (b, at, later) = Moves-Later id a m k in
    elim (Move-status s id) [
      | inl (was, now) ↦
          let e : b ≡ s.from = status_value-injective b s.from (cc (at, was)) in
          (s.to, now, next (subst (λ x. Later a x) e later) s.allowed)
      | inr kept ↦ (b, kept ∙ at, later)
    ]

final_Later : {a b : ProjectStatus} → Later a b → (a ≡ ready) ⊎ (a ≡ failed) → a ≡ b
final_Later same f = refl
final_Later (next l begins) f = ground (arith, final_Later l f)
final_Later (next l completes) f = ground (arith, final_Later l f)
final_Later (next l fails) f = ground (arith, final_Later l f)

-- READY and FAILED are final.
pub Moves-final :
    {c d : Contents} (id : Text) (a : ProjectStatus)
    → Moves c d
    → (a ≡ ready) ⊎ (a ≡ failed)
    → HasStatus c id a
    → HasStatus d id a
Moves-final {d = d} id a m f k =
    let (b, at, later) = Moves-Later id a m k in
    subst (λ x. HasStatus d id x) (sym (final_Later later f)) at
