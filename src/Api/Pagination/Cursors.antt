-- ===== src/Api/Pagination/Cursors.antt =====
-- What `decode_cursor` accepts, and that it reads back what `encode_cursor` writes.
use package.text.Mathlib.TextEquality.{eq_iff}
use projects_api.Common.{
  ℕ, ◌≤◌, String, Text, lit, ◌==◌, ==_sound, ◌≡◌, ◌≢◌, ◌⊎◌, inl, inr, refl, ap, sym, ◌∙◌, true,
  false, ◌||◌, Option, none, some, List, [], ◌∷◌, All, length, ltb, str_eq, arith, Bool-cases,
}
use projects_api.Base64.{urlsafe_b64decode}
use projects_api.Json.{Json, Fields, null, bool, number, string, array, object, end, field}
use projects_api.Json.Scan.{Scanned, scanned, invalid, out_of_fuel}
use projects_api.Json.Scan.Fuel.{loads-ne-out_of_fuel}
use projects_api.Dynamo.{Attribute, text, Item, attribute}
use projects_api.Domain.Exceptions.{invalid_cursor, Result, ok, raise}
use projects_api.Repository.Records.{owner_gsi1pk}
use projects_api.Api.Pagination.{
  Decoder, max_token_length, cursor_key, is_empty, padded, bytes_text, loaded, decoded, has_field,
  only_cursor_keys, has_cursor_keys, attribute_text, with_text, key_item, is_partition, check_owner,
  check_key, check_loaded, decode_cursor,
}

-- A cursor was read, or it is invalid: nothing else is raised.
abbrev Answered : Result Item → Type 0
Answered r = (r ≡ raise invalid_cursor) ⊎ ((key : Item) × (r ≡ ok key))

check_owner-Answered : (owner_id : Text) (o : Option Item) → Answered (check_owner owner_id o)
check_owner-Answered owner_id none = inl refl
check_owner-Answered owner_id (some key) =
    elim (Bool-cases (is_partition (attribute "GSI1PK" key) (owner_gsi1pk owner_id))) [
      | inl e ↦ inr (key, rw e refl)
      | inr e ↦ inl (rw e refl)
    ]

check_key-Answered : (owner_id : Text) (v : Json) → Answered (check_key owner_id v)
unfolding check_key
check_key-Answered owner_id (object fs) = elim (Bool-cases (has_cursor_keys fs)) [
  | inl e ↦ rw e (check_owner-Answered owner_id (key_item fs))
  | inr e ↦ rw e (inl refl)
]
check_key-Answered owner_id null = inl refl
check_key-Answered owner_id _ = inl refl

check_loaded-Answered :
    (owner_id : Text) (r : Scanned Json) → r ≢ out_of_fuel → Answered (check_loaded owner_id r)
unfolding check_loaded
check_loaded-Answered owner_id (scanned v) h = check_key-Answered owner_id v
check_loaded-Answered owner_id invalid h = inl refl
check_loaded-Answered owner_id out_of_fuel h = absurd (h refl)

decoded-ne-out_of_fuel : (decode : Decoder) (o : Option (List ℕ)) → decoded decode o ≢ out_of_fuel
decoded-ne-out_of_fuel decode none h = cc (h)
decoded-ne-out_of_fuel decode (some bytes) h = of (bytes_text decode bytes) h
  where
    of : (o : Option Text) → loaded o ≢ out_of_fuel
    of none e = cc (e)
    of (some s) e = loads-ne-out_of_fuel s e

-- For any token, `decode_cursor` returns a key or raises that the cursor is invalid: nothing else
-- is raised, and the scanner of JSON never runs out of fuel.
pub decode_cursor_cases :
    (decode : Decoder) (token owner_id : Text)
    → (decode_cursor decode token owner_id ≡ raise invalid_cursor)
      ⊎ ((key : Item) × (decode_cursor decode token owner_id ≡ ok key))
unfolding decode_cursor
decode_cursor_cases decode token owner_id =
    elim (Bool-cases (is_empty token || ltb max_token_length (length token))) [
      | inl e ↦ inl (rw e refl)
      | inr e ↦ rw e (
          check_loaded-Answered owner_id (decoded decode (urlsafe_b64decode (padded token)))
            (decoded-ne-out_of_fuel decode (urlsafe_b64decode (padded token))))
    ]

-- One of the four key attributes, with a text.
abbrev pub IsKeyAttribute : String × Attribute → Type 0
IsKeyAttribute (name, value) = (cursor_key (lit name) ≡ some name) × ((t : Text) × (value ≡ text t))

abbrev pub HasText : Item → String → Type 0
HasText key name = (t : Text) × (attribute name key ≡ some (text t))

pub record IsCursor (owner_id : Text) (key : Item) : Type 0 where
  pub partition : attribute "GSI1PK" key ≡ some (text (owner_gsi1pk owner_id))
  pub pk : HasText key "PK"
  pub sk : HasText key "SK"
  pub gsi1sk : HasText key "GSI1SK"
  -- It has no other attribute.
  pub only : All IsKeyAttribute key

cursor_key_sound : (k : Text) (m : String) → cursor_key k ≡ some m → k ≡ lit m
unfolding cursor_key
cursor_key_sound k m h = ground (
  arith,
  ==_sound k (lit "PK"),
  ==_sound k (lit "SK"),
  ==_sound k (lit "GSI1PK"),
  ==_sound k (lit "GSI1SK"),
)

-- The parts of a loop step that went on.
with_text-some :
    (n : Option String) (t : Option Text) (o : Option Item) (item : Item)
    → with_text n t o ≡ some item
    → (m : String) × (s : Text) × (rest : Item) × (n ≡ some m)
      × (t ≡ some s)
      × (o ≡ some rest)
      × (item ≡ (m, text s) ∷ rest)
with_text-some (some m) (some s) (some rest) item h = (m, s, rest, refl, refl, refl, ground arith)
with_text-some (some m) (some s) none item h = cc (h)
with_text-some (some m) none o item h = cc (h)
with_text-some none t o item h = cc (h)

key_item-only : (fs : Fields) (item : Item) → key_item fs ≡ some item → All IsKeyAttribute item
unfolding key_item
key_item-only end item h = let e : item ≡ [] = ground arith in rw e tt
key_item-only (field k v fs) item h =
    let (m, s, rest, name, value, more, e) =
      with_text-some (cursor_key k) (attribute_text v) (key_item fs) item h in
    rw e (
      (ap cursor_key (sym (cursor_key_sound k m name)) ∙ name, (s, refl)),
      key_item-only fs rest more,
    )

unfolding_names :
    (cursor_key (lit "PK") ≡ some "PK")
    × (cursor_key (lit "SK") ≡ some "SK")
    × (cursor_key (lit "GSI1PK") ≡ some "GSI1PK")
    × (cursor_key (lit "GSI1SK") ≡ some "GSI1SK")
unfolding cursor_key lit ◌==◌
unfolding_names = (refl, refl, refl, refl)

key_item-HasText :
    (name : String) (fs : Fields) (item : Item)
    → cursor_key (lit name) ≡ some name
    → key_item fs ≡ some item
    → has_field (lit name) fs ≡ true
    → HasText item name
unfolding key_item has_field attribute
key_item-HasText name end item known h there = cc
key_item-HasText name (field k v fs) item known h there =
    let (m, s, rest, is_m, value, more, e) =
      with_text-some (cursor_key k) (attribute_text v) (key_item fs) item h in
    rw e (elim (Bool-cases (str_eq m name)) [
      | inl same ↦ (s, rw same refl)
      | inr other ↦ rw other (
          key_item-HasText name fs rest known more (elim (Bool-cases (k == lit name)) [
            | inl here ↦
                let one : cursor_key k ≡ some name =
                  ap cursor_key (==_sound k (lit name) here) ∙ known in
                let met : m ≡ name = cc (one, is_m) in ground (arith, eq_iff m name, met, other)
            | inr away ↦ ground (arith, away, there)
          ]))
    ])

partition_sound : (o : Option Attribute) (p : Text) → is_partition o p ≡ true → o ≡ some (text p)
partition_sound none p h = cc (h)
partition_sound (some (text t)) p h = ground (arith, ==_sound t p)
partition_sound (some Attribute.other) p h = cc (h)

check_owner-ok :
    (owner_id : Text) (o : Option Item) (key : Item)
    → check_owner owner_id o ≡ ok key
    → (o ≡ some key) × (attribute "GSI1PK" key ≡ some (text (owner_gsi1pk owner_id)))
check_owner-ok owner_id none key h = cc (h)
check_owner-ok owner_id (some item) key h =
    elim (Bool-cases (is_partition (attribute "GSI1PK" item) (owner_gsi1pk owner_id))) [
      | inl e ↦
          let same : item ≡ key = cc (rw e at h) in
          (ap some same, rw (← same) (partition_sound _ _ e))
      | inr e ↦ cc (rw e at h)
    ]

has_cursor_keys_all :
    (fs : Fields)
    → has_cursor_keys fs ≡ true
    → (only_cursor_keys fs ≡ true)
      × (has_field (lit "PK") fs ≡ true)
      × (has_field (lit "SK") fs ≡ true)
      × (has_field (lit "GSI1PK") fs ≡ true)
      × (has_field (lit "GSI1SK") fs ≡ true)
unfolding has_cursor_keys
has_cursor_keys_all fs h = ground arith

check_key-IsCursor :
    (owner_id : Text) (v : Json) (key : Item)
    → check_key owner_id v ≡ ok key
    → IsCursor owner_id key
unfolding check_key
check_key-IsCursor owner_id (object fs) key h = elim (Bool-cases (has_cursor_keys fs)) [
  | inr e ↦ cc (rw e at h)
  | inl e ↦
      let (read, owned) = check_owner-ok owner_id (key_item fs) key (rw e at h) in
      let (is_pk, is_sk, is_gsi1pk, is_gsi1sk) = unfolding_names in
      let (only, has_pk, has_sk, has_gsi1pk, has_gsi1sk) = has_cursor_keys_all fs e in
      record {
        partition = owned;
        pk = key_item-HasText "PK" fs key is_pk read has_pk;
        sk = key_item-HasText "SK" fs key is_sk read has_sk;
        gsi1sk = key_item-HasText "GSI1SK" fs key is_gsi1sk read has_gsi1sk;
        only = key_item-only fs key read;
      }
]
check_key-IsCursor owner_id null key h = cc (h)
check_key-IsCursor owner_id (bool b) key h = cc (h)
check_key-IsCursor owner_id (number n) key h = cc (h)
check_key-IsCursor owner_id (string t) key h = cc (h)
check_key-IsCursor owner_id (array xs) key h = cc (h)

-- A key that `decode_cursor` returns has the caller's partition, has a text for each of the other
-- three key attributes and has no other attribute; the token has 1 to 1024 characters.
pub decode_cursor-IsCursor :
    (decode : Decoder) (token owner_id : Text) (key : Item)
    → decode_cursor decode token owner_id ≡ ok key
    → IsCursor owner_id key × (1 ≤ length token) × (length token ≤ 1024)
unfolding decode_cursor check_loaded
decode_cursor-IsCursor decode token owner_id key h =
    elim (Bool-cases (is_empty token || ltb max_token_length (length token))) [
      | inl e ↦ cc (rw e at h)
      | inr e ↦
          let (long, short) = sized token e in
          (read (decoded decode (urlsafe_b64decode (padded token))) (rw e at h), long, short)
    ]
  where
    read : (r : Scanned Json) → check_loaded owner_id r ≡ ok key → IsCursor owner_id key
    read (scanned v) k = check_key-IsCursor owner_id v key k
    read invalid k = cc (k)
    read out_of_fuel k = cc (k)

    sized :
        (t : Text)
        → (is_empty t || ltb max_token_length (length t)) ≡ false
        → (1 ≤ length t) × (length t ≤ 1024)
    sized [] k = cc (k)
    sized (c ∷ t) k = ground arith
