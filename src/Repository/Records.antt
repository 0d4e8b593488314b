-- ===== src/Repository/Records.antt =====
-- src/projects_api/repositories/projects.py: the keys, the items and `_to_project`.
use projects_api.Common.{String, Text, lit, Option, none, some, [], ◌∷◌, ◌++◌}
use projects_api.Dynamo.{Attribute, text, other, Item, attribute, Key}
use projects_api.Domain.Exceptions.{Result, ok, raise, key_error, exception, ◌>>=◌}
use projects_api.Domain.Validation.{Unicode, name_key}
use projects_api.Domain.Models.{
  Datetime, Project, type_value, type_of_value, status_value, status_of_value, isoformat,
}

-- What the code takes from the Unicode database and from pydantic: how a `datetime` field reads a
-- text, and the text of the `ValidationError` for an item.
pub record Runtime : Type 0 where
  pub unicode : Unicode
  pub parse_datetime : Text → Option Datetime
  pub invalid_record : Item → Text

unfoldable pub project_pk : Text → Text
unfolding lit
project_pk project_id = lit "PROJECT#" ++ project_id

unfoldable pub name_pk : Unicode → Text → Text
unfolding lit
name_pk u name = lit "NAME#" ++ name_key u name

unfoldable pub owner_gsi1pk : Text → Text
unfolding lit
owner_gsi1pk owner_id = lit "OWNER#" ++ owner_id

abbrev pub gsi1_name : String
gsi1_name = "GSI1"

unfoldable pub project_gsi1sk_prefix : Text
unfolding lit
project_gsi1sk_prefix = lit "PROJECT#"

unfoldable pub record_key : Text → Key
unfolding project_pk lit
record_key project_id = record { pk = project_pk project_id; sk = lit "META" }

unfoldable pub reservation_key : Unicode → Text → Key
unfolding name_pk lit
reservation_key u name = record { pk = name_pk u name; sk = lit "RESERVATION" }

unfoldable pub project_item : Unicode → Project → Item
unfolding lit
project_item u project =
    ("PK", text (project_pk project.project_id))
    ∷ ("SK", text (lit "META"))
    ∷ ("entity", text (lit "PROJECT"))
    ∷ ("projectId", text project.project_id)
    ∷ ("name", text project.name)
    ∷ ("nameKey", text (name_key u project.name))
    ∷ ("type", text (type_value project.type))
    ∷ ("status", text (status_value project.status))
    ∷ ("ownerId", text project.owner_id)
    ∷ ("createdAt", text (isoformat project.created_at))
    ∷ ("updatedAt", text (isoformat project.updated_at))
    ∷ ("GSI1PK", text (owner_gsi1pk project.owner_id))
    ∷ (
      "GSI1SK",
      text (
          project_gsi1sk_prefix
          ++ (isoformat project.created_at ++ (lit "#" ++ project.project_id))),
    )
    ∷ []

unfoldable pub reservation_item : Unicode → Project → Item
unfolding lit
reservation_item u project =
    ("PK", text (name_pk u project.name))
    ∷ ("SK", text (lit "RESERVATION"))
    ∷ ("entity", text (lit "NAME_RESERVATION"))
    ∷ ("projectId", text project.project_id)
    ∷ ("ownerId", text project.owner_id)
    ∷ ("createdAt", text (isoformat project.created_at))
    ∷ []

-- `item[name]["S"]`
abbrev pub text_value : String → Option Attribute → Result Text
text_value name none = raise (key_error name)
text_value name (some (text t)) = ok t
text_value name (some other) = raise (key_error "S")

unfoldable pub text_field : String → Item → Result Text
unfolding attribute
text_field name item = text_value name (attribute name item)

abbrev pub and_then {ℓ κ} : {A : Type ℓ} {B : Type κ} → Option A → (A → Option B) → Option B
and_then none f = none
and_then (some a) f = f a

abbrev pub or_raise : {A : Type 0} → Text → Option A → Result A
or_raise message none = raise (exception message)
or_raise message (some a) = ok a

unfoldable pub to_project : Runtime → Item → Result Project
unfolding text_field type_of_value status_of_value
to_project r item = do
  project_id ← text_field "projectId" item
  name ← text_field "name" item
  type ← text_field "type" item
  status ← text_field "status" item
  owner_id ← text_field "ownerId" item
  created_at ← text_field "createdAt" item
  updated_at ← text_field "updatedAt" item
  or_raise (r.invalid_record item) (
      and_then (type_of_value type) λ type_. and_then (status_of_value status) λ status_.
        and_then (r.parse_datetime created_at) λ created.
          and_then (r.parse_datetime updated_at) λ updated. some (record {
            project_id = project_id;
            name = name;
            type = type_;
            status = status_;
            owner_id = owner_id;
            created_at = created;
            updated_at = updated;
          }))
