-- ===== src/Api/Openapi/Document.antt =====
-- src/projects_api/api/openapi.py: the readable ids of the operations, the components, the examples
-- and `build_openapi`.
use projects_api.Common.{
  ◌-◌, String, Text, lit, ◌==◌, Bool, false, ◌&&◌, Option, none, some, List, [], ◌∷◌, ◌++◌, leb,
  nat_eq, map, if◌then◌else◌,
}
use projects_api.Json.{Json, Fields, string, object, end, field, put, dict_from}
use projects_api.Json.Dict.{get, pop}
use projects_api.Domain.Exceptions.{Result, ok, ◌>>=◌}
use projects_api.Domain.Validation.{lower_ascii}
use projects_api.Api.Openapi.{single, dict, dict_or_new, present, OperationIds, is_http_method}

-- `s.split("_")`
unfoldable pub split : Text → Text × List Text
split [] = ([], [])
split (c ∷ s) =
    let (word, words) = split s in if nat_eq c b'_' then ([], word ∷ words) else (c ∷ word, words)

-- `s.capitalize()`, of ASCII; the names of the routes are.
abbrev pub capitalize : Text → Text
capitalize [] = []
capitalize (c ∷ s) = (if leb b'a' c && leb c b'z' then c - 32 else c) ∷ map lower_ascii s

abbrev pub join_capitalized : List Text → Text
join_capitalized [] = []
join_capitalized (word ∷ words) = capitalize word ++ join_capitalized words

unfoldable pub lower_camel : Text → Text
unfolding split lower_ascii
lower_camel snake = (split snake).0 ++ join_capitalized (split snake).1

-- What `iter_route_contexts` gives of a route, with the path of the context, where it has one.
pub record Route : Type 0 where
  pub is_api_route : Bool
  pub include_in_schema : Bool
  pub context_path : Option Text
  pub path_format : Text
  pub operation_id : Option Text
  pub name : Text
  pub methods : List Text

-- `a or b`
abbrev pub or_text : Option Text → Text → Text
or_text (some (c ∷ s)) b = c ∷ s
or_text _ b = b

-- `OPERATION_IDS.get(name)`
abbrev pub known_id : Text → Option Text
known_id name = if name == lit "health" then some (lit "getHealth") else none

abbrev pub route_id : Route → Text
route_id route = or_text route.operation_id (or_text (known_id route.name) (lower_camel route.name))

abbrev pub add_methods :
    (path : Text) → (operation_id : Text) → List Text → OperationIds → OperationIds
add_methods path operation_id [] ids = ids
add_methods path operation_id (method ∷ methods) ids =
    add_methods path operation_id methods (((path, map lower_ascii method), operation_id) ∷ ids)

abbrev pub operation_ids_from : List Route → OperationIds → OperationIds
operation_ids_from [] ids = ids
operation_ids_from (route ∷ routes) ids = operation_ids_from routes (
    if route.is_api_route && route.include_in_schema
    then add_methods (or_text route.context_path route.path_format) (route_id route) route.methods
        ids
    else ids)

unfoldable pub operation_ids : List Route → OperationIds
unfolding lower_camel lower_ascii
operation_ids routes = operation_ids_from routes []

-- `problem` is the schema that pydantic gives for the model `Problem`.
unfoldable pub add_problem_schema : (problem : Fields) → (schemas : Fields) → Result Fields
unfolding get pop dict_from
add_problem_schema problem schemas = do
  definitions ← dict_or_new (get (lit "$defs") problem)
  ok (put (lit "Problem") (object (pop (lit "$defs") problem)) (dict_from schemas definitions))

-- A change of `d[name]`, a `dict`.
unfoldable pub update_at : String → (Fields → Result Fields) → Fields → Result Fields
unfolding get
update_at name change fs = do
  value ← present name (get (lit name) fs)
  inner ← dict value
  changed ← change inner
  ok (put (lit name) (object changed) fs)

abbrev pub set : Text → Json → Fields → Result Fields
set name value fs = ok (put name value fs)

abbrev pub texts : List (Text × Text) → Fields
texts [] = end
texts ((name, value) ∷ fs) = field name (string value) (texts fs)

abbrev pub example_request : Json
example_request =
    object (texts ((lit "name", lit "my-first-agent") ∷ (lit "type", lit "agent") ∷ []))

-- `_EXAMPLE_PROJECT`
abbrev pub example_project : Json
example_project = object (
    texts (
      (lit "projectId", lit "prj_9f1c2b3a4d5e6f708192a3b4c5d6e7f8")
      ∷ (lit "name", lit "my-first-agent")
      ∷ (lit "type", lit "agent")
      ∷ (lit "status", lit "CREATED")
      ∷ (lit "ownerId", lit "a1b2c3d4e5")
      ∷ (lit "createdAt", lit "2026-01-15T09:30:00Z")
      ∷ (lit "updatedAt", lit "2026-01-15T09:30:00Z")
      ∷ []))

abbrev pub location_header : Json
location_header = single (lit "Location") (
    object (
      field (lit "description") (string (lit "Path of the created project.")) (
        field (lit "schema") (single (lit "type") (string (lit "string"))) (
          field (lit "example") (string (lit "/v1/projects/prj_9f1c2b3a4d5e6f708192a3b4c5d6e7f8"))
            end))))

unfoldable pub add_examples : (operation : Fields) → Result Fields
unfolding update_at
add_examples operation = do
  requested ←
      update_at "requestBody"
        (update_at "content" (update_at "application/json" (set (lit "example") example_request)))
        operation
  update_at "responses"
      (update_at "201" λ created. do
        let with_description =
            put (lit "description")
              (string (lit "Project created. `Location` points at the new resource.")) created
        let with_headers = put (lit "headers") location_header with_description
        update_at "content" (update_at "application/json" (set (lit "example") example_project))
            with_headers)
      requested

-- `operation.get("operationId") == operation_id`
abbrev pub is_string : Option Json → Text → Bool
is_string (some (string s)) t = s == t
is_string _ t = false

abbrev pub behind_field : Text → Json → Option Fields → Option Fields
behind_field name value none = none
behind_field name value (some fs) = some (field name value fs)

-- A change of the operation that `_find_operation` returns; `none` where it returns `None`.
unfoldable pub change_method : Text → (Fields → Result Fields) → Fields → Result (Option Fields)
unfolding is_http_method get
change_method operation_id change end = ok none
change_method operation_id change (field method value fs) =
    let next = (do
      rest ← change_method operation_id change fs
      ok (behind_field method value rest)) in
    if is_http_method method
    then (do
      operation ← dict value
      (if is_string (get (lit "operationId") operation) operation_id
          then (do changed ← change operation; ok (some (field method (object changed) fs)))
          else next))
    else next

abbrev pub changed_path :
    Text → Json → Fields → Option Fields → Result (Option Fields) → Result (Option Fields)
changed_path path value fs (some path_item) next = ok (some (field path (object path_item) fs))
changed_path path value fs none next = do rest ← next; ok (behind_field path value rest)

unfoldable pub change_operation : Text → (Fields → Result Fields) → Fields → Result (Option Fields)
unfolding change_method
change_operation operation_id change end = ok none
change_operation operation_id change (field path value fs) =
    let next = change_operation operation_id change fs in
    (do
      path_item ← dict value
      changed ← change_method operation_id change path_item
      changed_path path value fs changed next)

abbrev pub with_paths : Fields → Option Fields → Fields
with_paths schema none = schema
with_paths schema (some paths) = put (lit "paths") (object paths) schema

unfoldable pub add_create_project_examples : (schema : Fields) → Result Fields
unfolding get change_operation add_examples
add_create_project_examples schema = do
  value ← present "paths" (get (lit "paths") schema)
  paths ← dict value
  found ← change_operation (lit "createProject") add_examples paths
  ok (with_paths schema found)
