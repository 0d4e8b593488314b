-- ===== src/Dynamo/Behaviour.antt =====
-- The documented behaviour of DynamoDB on which the code relies: what a condition means, that a
-- transaction is all or nothing, and which error reports what.
use package.text.Mathlib.Text.{find?}
use projects_api.Common.{
  ℕ, String, Text, ◌==◌, ◌≡◌, refl, ◌⊎◌, inl, inr, Bool, true, false, not, ◌&&◌, Option, none, some,
  List, [], ◌∷◌, ◌++◌, if◌then◌else◌,
}
use projects_api.Dynamo.{
  Attribute, text, other, Item, attribute, Key, key_eq, Condition, attribute_not_exists,
  attribute_exists, equals, both, Write, put, delete, ClientError, Query, Reply, done, failed,
  Dynamo,
}

-- The items of a table, by key.
abbrev pub Contents : Type 0
Contents = Key → Option Item

abbrev pub is_some {ℓ} : {A : Type ℓ} → Option A → Bool
is_some none = false
is_some (some _) = true

-- An absent item has no attributes.
unfoldable pub attribute_of : String → Option Item → Option Attribute
attribute_of name none = none
attribute_of name (some item) = attribute name item

unfoldable pub is_text : Text → Option Attribute → Bool
is_text t none = false
is_text t (some (text v)) = v == t
is_text t (some other) = false

unfoldable pub meets : Condition → Option Item → Bool
unfolding is_text
meets (attribute_not_exists name) item = not (is_some (attribute_of name item))
meets (attribute_exists name) item = is_some (attribute_of name item)
meets (equals name value) item = is_text value (attribute_of name item)
meets (both c d) item = meets c item && meets d item

unfoldable pub assign : Key → Option Item → Contents → Contents
assign k value contents j = if key_eq k j then value else contents j

abbrev pub text_or_empty : Option Attribute → Text
text_or_empty (some (text t)) = t
text_or_empty _ = []

-- The primary key is the attributes `PK` and `SK`.
unfoldable pub key_of : Item → Key
unfolding attribute
key_of item = record {
  pk = text_or_empty (attribute "PK" item);
  sk = text_or_empty (attribute "SK" item);
}

-- The key and the condition of a write, and its effect.
abbrev pub target : Write → Key
target (put item _) = key_of item
target (delete k _) = k

abbrev pub condition : Write → Condition
condition (put _ c) = c
condition (delete _ c) = c

abbrev pub new_value : Write → Option Item
new_value (put item _) = some item
new_value (delete _ _) = none

abbrev pub allowed : Write → Contents → Bool
allowed w contents = meets (condition w) (contents (target w))

unfoldable pub all_allowed : List Write → Contents → Bool
all_allowed [] contents = true
all_allowed (w ∷ ws) contents = allowed w contents && all_allowed ws contents

unfoldable pub write_all : List Write → Contents → Contents
write_all [] contents = contents
write_all (w ∷ ws) contents = write_all ws (assign (target w) (new_value w) contents)

-- Reason by reason: "ConditionalCheckFailed" is reported only for a condition that does not hold.
abbrev pub ReasonsFit : List (Option String) → List Write → Contents → Type 0
ReasonsFit [] [] contents = Unit
ReasonsFit (r ∷ rs) (w ∷ ws) contents =
    (r ≡ some "ConditionalCheckFailed" → allowed w contents ≡ false) × ReasonsFit rs ws contents
ReasonsFit _ _ contents = ⊥

-- What a cancelled transaction says of its conditions. Some libraries and emulators leave out the
-- reasons (docs/adr/0003 has them in mind): the message then tells whether some condition failed.
pub record TellsWhy (e : ClientError) (ws : List Write) (contents : Contents) : Type 0 where
  pub by_reasons :
      (r : Option String) (rs : List (Option String))
      → e.reasons ≡ r ∷ rs
      → ReasonsFit (r ∷ rs) ws contents
  pub by_message :
      (i : ℕ)
      → e.reasons ≡ []
      → find? e.message "ConditionalCheckFailed" ≡ some i
      → all_allowed ws contents ≡ false

-- `SET` of each assignment on the item, which is made from its key where there is none.
abbrev pub item_or_key : Key → Option Item → Item
item_or_key k none = ("PK", text k.pk) ∷ ("SK", text k.sk) ∷ []
item_or_key k (some item) = item

-- Contents are read by a consistent read. A write that failed may have been applied (a response with
-- a status from 500 on does not tell), and as a whole; one that failed for its conditions has not.
pub record Documented (D : Dynamo) : Type 0 where
  pub contents : D.Db → Contents
  pub get_reads :
      (k : Key) (db : D.Db) (found : Option Item)
      → (D.get_item k db).0 ≡ done found
      → contents db k ≡ found
  pub get_keeps : (k : Key) (db : D.Db) → contents (D.get_item k db).1 ≡ contents db
  pub query_keeps : (q : Query) (db : D.Db) → contents (D.query q db).1 ≡ contents db
  pub transact_done :
      (ws : List Write) (db : D.Db)
      → (D.transact_write_items ws db).0 ≡ done tt
      → (all_allowed ws (contents db) ≡ true)
        × (contents (D.transact_write_items ws db).1 ≡ write_all ws (contents db))
  pub transact_failed :
      (ws : List Write) (db : D.Db) (e : ClientError)
      → (D.transact_write_items ws db).0 ≡ failed e
      → (contents (D.transact_write_items ws db).1 ≡ contents db)
        ⊎ ((all_allowed ws (contents db) ≡ true)
            × (contents (D.transact_write_items ws db).1 ≡ write_all ws (contents db)))
  pub transact_cancelled :
      (ws : List Write) (db : D.Db) (e : ClientError)
      → (D.transact_write_items ws db).0 ≡ failed e
      → e.code ≡ some "TransactionCanceledException"
      → (contents (D.transact_write_items ws db).1 ≡ contents db) × TellsWhy e ws (contents db)
  pub update_done :
      (k : Key) (c : Condition) (sets : Item) (db : D.Db)
      → (D.update_item k c sets db).0 ≡ done tt
      → (meets c (contents db k) ≡ true)
        × (contents (D.update_item k c sets db).1
            ≡ assign k (some (sets ++ item_or_key k (contents db k))) (contents db))
  pub update_failed :
      (k : Key) (c : Condition) (sets : Item) (db : D.Db) (e : ClientError)
      → (D.update_item k c sets db).0 ≡ failed e
      → (contents (D.update_item k c sets db).1 ≡ contents db)
        ⊎ ((meets c (contents db k) ≡ true)
            × (contents (D.update_item k c sets db).1
                ≡ assign k (some (sets ++ item_or_key k (contents db k))) (contents db)))
  pub update_refused :
      (k : Key) (c : Condition) (sets : Item) (db : D.Db) (e : ClientError)
      → (D.update_item k c sets db).0 ≡ failed e
      → e.code ≡ some "ConditionalCheckFailedException"
      → (contents (D.update_item k c sets db).1 ≡ contents db) × (meets c (contents db k) ≡ false)

-- To split on a reply and keep the equation.
pub Reply-cases :
    {A : Type 0} (x : Reply A) → ((a : A) × (x ≡ done a)) ⊎ ((e : ClientError) × (x ≡ failed e))
Reply-cases (done a) = inl (a, refl)
Reply-cases (failed e) = inr (e, refl)

-- A service that is up: an update is refused only for its condition.
pub record IsUp (D : Dynamo) (doc : Documented D) : Type 0 where
  pub update_answers :
      (k : Key) (c : Condition) (sets : Item) (db : D.Db)
      → meets c (doc.contents db k) ≡ true
      → (D.update_item k c sets db).0 ≡ done tt
  pub update_refuses :
      (k : Key) (c : Condition) (sets : Item) (db : D.Db)
      → meets c (doc.contents db k) ≡ false
      → (e : ClientError) × ((D.update_item k c sets db).0 ≡ failed e)
        × (e.code ≡ some "ConditionalCheckFailedException")

-- Reason by reason, every condition that does not hold is reported.
abbrev pub ReasonsTell : List (Option String) → List Write → Contents → Type 0
ReasonsTell [] [] contents = Unit
ReasonsTell (r ∷ rs) (w ∷ ws) contents =
    (allowed w contents ≡ false → r ≡ some "ConditionalCheckFailed") × ReasonsTell rs ws contents
ReasonsTell _ _ contents = ⊥

-- A service that is up: a transaction is cancelled only for its conditions.
pub record IsServing (D : Dynamo) (doc : Documented D) : Type 0 where
  pub transact_answers :
      (ws : List Write) (db : D.Db)
      → all_allowed ws (doc.contents db) ≡ true
      → (D.transact_write_items ws db).0 ≡ done tt
  pub transact_refuses :
      (ws : List Write) (db : D.Db)
      → all_allowed ws (doc.contents db) ≡ false
      → (e : ClientError) × ((D.transact_write_items ws db).0 ≡ failed e)
        × (e.code ≡ some "TransactionCanceledException")
        × ReasonsTell e.reasons ws (doc.contents db)
