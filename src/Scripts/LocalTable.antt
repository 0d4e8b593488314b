-- ===== src/Scripts/LocalTable.antt =====
-- scripts/create_local_table.py: the table in DynamoDB Local.
use projects_api.Common.{
  String, Text, lit, ◌==◌, ◌≡◌, refl, Option, none, some, List, [], ◌∷◌, ◌++◌, All, map,
  if◌then◌else◌, str_eq,
}
use projects_api.Dynamo.{ClientError, Reply, done, failed, Item, attribute, text}
use projects_api.Domain.Exceptions.{Result, ok, raise, client_error, key_error}
use projects_api.Domain.Validation.{Unicode}
use projects_api.Domain.Models.{Project}
use projects_api.Repository.Records.{project_item, reservation_item}
use projects_api.Api.Pagination.{cursor_key}

pub record SecondaryIndex : Type 0 where
  pub index_name : String
  pub key_schema : List (String × String)
  pub projection_type : String

-- The arguments of `client.create_table`. An attribute has its name and its type, an element of a key
-- its attribute and its role.
pub record CreateTable : Type 0 where
  pub table_name : Text
  pub billing_mode : String
  pub attribute_definitions : List (String × String)
  pub key_schema : List (String × String)
  pub global_secondary_indexes : List SecondaryIndex

unfoldable pub request : (table : Text) → CreateTable
request table = record {
  table_name = table;
  billing_mode = "PAY_PER_REQUEST";
  attribute_definitions = ("PK", "S") ∷ ("SK", "S") ∷ ("GSI1PK", "S") ∷ ("GSI1SK", "S") ∷ [];
  key_schema = ("PK", "HASH") ∷ ("SK", "RANGE") ∷ [];
  global_secondary_indexes =
      record {
        index_name = "GSI1";
        key_schema = ("GSI1PK", "HASH") ∷ ("GSI1SK", "RANGE") ∷ [];
        projection_type = "ALL";
      }
      ∷ [];
}

-- The settings of the environment, with their defaults.
abbrev pub or_default : Option Text → String → Text
or_default none default = lit default
or_default (some value) default = value

-- The `except` block
abbrev refused : (table : Text) → ClientError → Option String → Result Text
refused table exc none = raise (key_error "Code")
refused table exc (some code) =
    if str_eq code "ResourceInUseException"
    then ok (lit "table " ++ (table ++ lit " already exists"))
    else raise (client_error exc)

abbrev answered : (table : Text) → (endpoint : Text) → Reply Unit → Result Text
answered table endpoint (done _) = ok (lit "created table " ++ (table ++ (lit " at " ++ endpoint)))
answered table endpoint (failed exc) = refused table exc exc.code

-- The script: the line that it prints, or what it raises. The two arguments in front are
-- `os.environ.get("TABLE_NAME")` and `os.environ.get("DYNAMODB_ENDPOINT")`.
unfoldable pub create_local_table :
    {S : Type 0}
    → (table_name : Option Text) → (endpoint : Option Text)
    → (client : (endpoint : Text) → CreateTable → S → Reply Unit × S) → S
    → Result Text × S
unfolding request lit
create_local_table table_name endpoint client s =
    let table = or_default table_name "projects-local" in
    let url = or_default endpoint "http://localhost:8000" in
    let (reply, next) = client url (request table) s in (answered table url reply, next)

-- The attributes of the keys of the table and of its index.
abbrev index_key_names : List SecondaryIndex → List String
index_key_names [] = []
index_key_names (index ∷ rest) =
    map (λ (k : String × String). k.0) index.key_schema ++ index_key_names rest

abbrev key_names : CreateTable → List String
key_names t =
    map (λ (k : String × String). k.0) t.key_schema ++ index_key_names t.global_secondary_indexes

abbrev IsText : String → Item → Type 0
IsText name item = (t : Text) × (attribute name item ≡ some (text t))

-- The attributes of the keys are the four of a cursor and all that the request defines; the item of
-- any project has a text for each, and its reservation for each of the table's own key.
request-fits :
    (table : Text) (u : Unicode) (p : Project)
    → All (λ name. cursor_key (lit name) ≡ some name) (key_names (request table))
      × (map (λ (a : String × String). a.0) (request table).attribute_definitions
          ≡ key_names (request table))
      × All (λ name. IsText name (project_item u p)) (key_names (request table))
      × All (λ (k : String × String). IsText k.0 (reservation_item u p)) (request table).key_schema
unfolding request cursor_key lit ◌==◌ attribute project_item reservation_item
request-fits table u p = (
  (refl, (refl, (refl, (refl, tt)))),
  refl,
  ((_, refl), ((_, refl), ((_, refl), ((_, refl), tt)))),
  ((_, refl), ((_, refl), tt)),
)
