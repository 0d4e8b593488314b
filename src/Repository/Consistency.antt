-- ===== src/Repository/Consistency.antt =====
-- The invariant of the table, on its contents: every project holds the reservation of its name,
-- and every reservation is held by a project. The three writes that the program makes keep it.
pub mod Writes
pub mod Create
pub mod Delete
pub mod Update
use projects_api.Common.{
  Text, ◌≡◌, subst, ◌∙◌, sym, ap, true, Option, none, some, List, ◌++◌, arith,
}
use projects_api.Dynamo.{text, Item, attribute}
use projects_api.Dynamo.Behaviour.{Contents, is_some}
use projects_api.Domain.Validation.{Unicode, name_key}
use projects_api.Repository.Keys.{reservation_at}
use projects_api.Repository.Records.{record_key}

-- The project `id` with its display name, and what holds the reservation of a name key.
pub record Named (contents : Contents) (id name : Text) : Type 0 where
  pub item : Item
  pub at : contents (record_key id) ≡ some item
  pub name_at : attribute "name" item ≡ some (text name)

pub record Holds (contents : Contents) (key id : Text) : Type 0 where
  pub item : Item
  pub at : contents (reservation_at key) ≡ some item
  pub id_at : attribute "projectId" item ≡ some (text id)

pub Holds-unique :
    {contents : Contents} {key : Text} (a b : Text)
    → Holds contents key a
    → Holds contents key b
    → a ≡ b
Holds-unique a b h k = cc (h.at, k.at, h.id_at, k.id_at)

pub Named-unique :
    {contents : Contents} {id : Text} (m n : Text)
    → Named contents id m
    → Named contents id n
    → m ≡ n
Named-unique m n p q = cc (p.at, q.at, p.name_at, q.name_at)

module _ (u : Unicode) where
  pub record IsConsistent (contents : Contents) : Type 0 where
    -- Every project has a name, whose reservation it holds.
    pub reserved :
        (id : Text) (item : Item)
        → contents (record_key id) ≡ some item
        → (name : Text) × (attribute "name" item ≡ some (text name))
          × Holds contents (name_key u name) id
    -- Every reservation is held by a project of such a name.
    pub held :
        (key : Text) (item : Item)
        → contents (reservation_at key) ≡ some item
        → (id : Text) × (name : Text) × (attribute "projectId" item ≡ some (text id))
          × Named contents id name
          × (name_key u name ≡ key)
    -- Both have the key attribute.
    pub record_keyed :
        (id : Text) (item : Item)
        → contents (record_key id) ≡ some item
        → is_some (attribute "PK" item) ≡ true
    pub reservation_keyed :
        (key : Text) (item : Item)
        → contents (reservation_at key) ≡ some item
        → is_some (attribute "PK" item) ≡ true

  pub Named-Holds :
      {contents : Contents}
      → IsConsistent contents
      → (id name : Text) → Named contents id name
      → Holds contents (name_key u name) id
  Named-Holds {contents} v id name p =
      let (name', e, h) = v.reserved id p.item p.at in
      let same : name' ≡ name = cc (e, p.name_at) in
      subst (λ n. Holds contents (name_key u n) id) same h

  -- No two projects have names with one key.
  pub names_unique :
      {contents : Contents}
      → IsConsistent contents
      → (a b m n : Text) → Named contents a m
      → Named contents b n
      → name_key u m ≡ name_key u n
      → a ≡ b
  names_unique {contents} v a b m n p q same =
      Holds-unique a b (subst (λ k. Holds contents k a) same (Named-Holds v a m p))
        (Named-Holds v b n q)
