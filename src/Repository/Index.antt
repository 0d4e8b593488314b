-- ===== src/Repository/Index.antt =====
-- The index GSI1, from which owners list their projects. It follows the table with a delay: what
-- stands in it has stood in the table.
use projects_api.Common.{
  true, false, [], ◌∷◌, lit, ◌≤◌, Text, ◌≡◌, ◌⊎◌, inl, inr, refl, sym, subst, ◌∙◌, Option, none,
  some, List, ◌++◌, All, length, Bool-cases,
}
use projects_api.Dynamo.{
  text, Attribute, Item, attribute, Key, key_eq, Condition, Write, Dynamo, Query, Page, done,
}
use projects_api.Dynamo.Behaviour.{Contents, Documented, assign, write_all}
use projects_api.Domain.Validation.{Unicode}
use projects_api.Domain.Models.{Project, Datetime, isoformat}
use projects_api.Domain.Models.Times.{IsWhole}
use projects_api.Json.Print.{text_le}
use projects_api.Repository.{create_writes, delete_writes}
use projects_api.Repository.Records.{
  Runtime, gsi1_name, owner_gsi1pk, project_gsi1sk_prefix, project_item, reservation_item,
}

-- `item` may stand in the index of `after` if it did in that of `before`, or stands in either table.
abbrev pub Follows : {Db : Type 0} → (Db → Contents) → (Db → Item → Type 0) → Db → Db → Type 0
Follows contents Seen before after =
    (item : Item)
    → Seen after item
    → Seen before item
      ⊎ (((k : Key) × (contents before k ≡ some item))
          ⊎ ((k : Key) × (contents after k ≡ some item)))

-- By their sort keys, `later` may stand before `earlier`.
abbrev pub NotAfter : Item → Item → Type 0
NotAfter later earlier =
    (s t : Text)
    → attribute "GSI1SK" later ≡ some (text s)
    → attribute "GSI1SK" earlier ≡ some (text t)
    → text_le t s ≡ true

abbrev pub Descending : List Item → Type 0
Descending [] = Unit
Descending (item ∷ items) = All (NotAfter item) items × Descending items

-- What a query answers, and that each request lets the index follow the table. `Seen` are the items
-- of the index and those that are on their way there.
pub record Index (D : Dynamo) (doc : Documented D) : Type 1 where
  pub Seen : D.Db → Item → Type 0
  pub query_items :
      (q : Query) (db : D.Db) (page : Page)
      → q.index_name ≡ gsi1_name
      → (D.query q db).0 ≡ done page
      → All (λ item. Seen db item × (attribute "GSI1PK" item ≡ some (text q.partition))) page.items
  pub query_limit :
      (q : Query) (db : D.Db) (page : Page)
      → (D.query q db).0 ≡ done page
      → length page.items ≤ q.limit
  -- Where `ScanIndexForward` is false: by the sort key of the index, the greatest first.
  pub query_order :
      (q : Query) (db : D.Db) (page : Page)
      → q.index_name ≡ gsi1_name
      → q.scan_index_forward ≡ false
      → (D.query q db).0 ≡ done page
      → Descending page.items
  pub get_follows : (k : Key) (db : D.Db) → Follows doc.contents Seen db (D.get_item k db).1
  pub query_follows : (q : Query) (db : D.Db) → Follows doc.contents Seen db (D.query q db).1
  pub transact_follows :
      (ws : List Write) (db : D.Db) → Follows doc.contents Seen db (D.transact_write_items ws db).1
  pub update_follows :
      (k : Key) (c : Condition) (sets : Item) (db : D.Db)
      → Follows doc.contents Seen db (D.update_item k c sets db).1

-- The sort key of an item in the index starts with the text of its time.
abbrev pub gsi1sk : Datetime → Text → Text
gsi1sk t id = project_gsi1sk_prefix ++ (isoformat t ++ (lit "#" ++ id))

abbrev pub Dated : Item → Type 0
Dated item =
    (t : Datetime) × (id : Text) × IsWhole t
    × (attribute "createdAt" item ≡ some (text (isoformat t)))
    × (attribute "GSI1SK" item ≡ some (text (gsi1sk t id)))

-- An item of the index is in the partition of its owner, at its time.
abbrev pub Placed : Item → Type 0
Placed item =
    (p : Text)
    → attribute "GSI1PK" item ≡ some (text p)
    → ((owner_id : Text) × (attribute "ownerId" item ≡ some (text owner_id))
        × (p ≡ owner_gsi1pk owner_id))
      × Dated item

pub record IsPlaced (contents : Contents) : Type 0 where
  pub placed : (k : Key) (item : Item) → contents k ≡ some item → Placed item

abbrev pub PlacedValue : Option Item → Type 0
PlacedValue none = Unit
PlacedValue (some item) = Placed item

assign-IsPlaced :
    (k : Key) (value : Option Item) (contents : Contents)
    → PlacedValue value
    → IsPlaced contents
    → IsPlaced (assign k value contents)
unfolding assign
assign-IsPlaced k value contents h v = record {
  placed = λ j item e. elim (Bool-cases (key_eq k j)) [
    | inl s ↦ subst PlacedValue (rw s at e) h
    | inr s ↦ v.placed j item (rw s at e)
  ];
}

pub append-Placed :
    (sets item : Item)
    → attribute "ownerId" (sets ++ item) ≡ attribute "ownerId" item
    → attribute "GSI1PK" (sets ++ item) ≡ attribute "GSI1PK" item
    → attribute "GSI1SK" (sets ++ item) ≡ attribute "GSI1SK" item
    → attribute "createdAt" (sets ++ item) ≡ attribute "createdAt" item
    → Placed item
    → Placed (sets ++ item)
append-Placed sets item owner index sort_key created h p e =
    let ((o, a, b), (t, id, whole, at, key)) = h p (sym index ∙ e) in
    ((o, owner ∙ a, b), (t, id, whole, created ∙ at, sort_key ∙ key))

pub update-IsPlaced :
    (k : Key) (sets item : Item) (contents : Contents)
    → Placed (sets ++ item)
    → IsPlaced contents
    → IsPlaced (assign k (some (sets ++ item)) contents)
update-IsPlaced k sets item contents h v = assign-IsPlaced k (some (sets ++ item)) contents h v

text_cancel : (s t : Text) → ◌≡◌ {A = Option Attribute} (some (text s)) (some (text t)) → s ≡ t
text_cancel s t h = cc (h)

project_item-Placed : (u : Unicode) (p : Project) → IsWhole p.created_at → Placed (project_item u p)
unfolding project_item attribute
project_item-Placed u p whole q e =
    ((p.owner_id, refl, text_cancel _ _ (sym e)), (p.created_at, p.project_id, whole, refl, refl))

reservation_item-Placed : (u : Unicode) (p : Project) → Placed (reservation_item u p)
unfolding reservation_item attribute
reservation_item-Placed u p q e = cc (e)

module _ (r : Runtime) (contents : Contents) where
  pub create_writes-IsPlaced :
      (p : Project)
      → IsWhole p.created_at
      → IsPlaced contents
      → IsPlaced (write_all (create_writes r p) contents)
  unfolding write_all create_writes
  create_writes-IsPlaced p whole v =
      assign-IsPlaced _ _ _ (project_item-Placed r.unicode p whole)
        (assign-IsPlaced _ _ _ (reservation_item-Placed r.unicode p) v)

  pub delete_writes-IsPlaced :
      (id owner_id name : Text)
      → IsPlaced contents
      → IsPlaced (write_all (delete_writes r id owner_id name) contents)
  unfolding write_all delete_writes
  delete_writes-IsPlaced id owner_id name v =
      assign-IsPlaced _ none _ tt (assign-IsPlaced _ none _ tt v)
