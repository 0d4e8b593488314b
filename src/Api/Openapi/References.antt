-- ===== src/Api/Openapi/References.antt =====
-- src/projects_api/api/openapi.py: `_drop_unreferenced`, and `build_openapi`, which ends with it.
use projects_api.Common.{
  Text, lit, Bool, true, false, ◌&&◌, ◌||◌, Option, none, some, List, [], ◌∷◌, ◌++◌, nat_eq,
  if◌then◌else◌,
}
use projects_api.Json.{Json, Fields, array, object, nil, cons, put}
use projects_api.Json.Dict.{get, pop}
use projects_api.Json.Print.{print}
use projects_api.Domain.Exceptions.{Result, ok, ◌>>=◌}
use projects_api.Api.Openapi.{single, dict, dict_or_new, present, update_paths}
use projects_api.Api.Openapi.Document.{
  Route, operation_ids, add_problem_schema, add_create_project_examples, texts,
}

unfoldable pub starts_with : Text → Text → Bool
starts_with [] s = true
starts_with (c ∷ p) [] = false
starts_with (c ∷ p) (d ∷ s) = nat_eq c d && starts_with p s

-- `part in s`
unfoldable pub contains : Text → Text → Bool
unfolding starts_with
contains part [] = starts_with part []
contains part (c ∷ s) = starts_with part (c ∷ s) || contains part s

-- `json.dumps` with its own separators
abbrev pub dumps : Json → Text
dumps = print (lit ", ") (lit ": ")

abbrev pub reference : Text → Text
reference name = lit "#/components/schemas/" ++ name

abbrev pub pop_all : List Text → Fields → Fields
pop_all [] schemas = schemas
pop_all (name ∷ names) schemas = pop_all names (pop name schemas)

abbrev pub behind_removed : Text → Option Json → List (Text × Json) → List (Text × Json)
behind_removed name none rest = rest
behind_removed name (some v) rest = (name, v) ∷ rest

abbrev pub removed : List Text → Fields → List (Text × Json)
removed [] schemas = []
removed (name ∷ names) schemas =
    behind_removed name (get name schemas) (removed names (pop name schemas))

unfoldable pub restore : (dumped : Text) → List (Text × Json) → Fields → Fields
unfolding contains
restore dumped [] schemas = schemas
restore dumped ((name, definition) ∷ rest) schemas = restore dumped rest (
    if contains (b'"' ∷ (reference name ++ b'"' ∷ [])) dumped
    then put name definition schemas
    else schemas)

abbrev pub with_schemas : (schema : Fields) → (components : Fields) → (schemas : Fields) → Fields
with_schemas schema components schemas =
    put (lit "components") (object (put (lit "schemas") (object schemas) components)) schema

unfoldable pub drop_unreferenced : (names : List Text) → (schema : Fields) → Result Fields
unfolding get pop restore print
drop_unreferenced names schema = do
  value ← present "components" (get (lit "components") schema)
  components ← dict value
  inner ← present "schemas" (get (lit "schemas") components)
  schemas ← dict inner
  let kept = pop_all names schemas
  let dumped = dumps (object (with_schemas schema components kept))
  ok (with_schemas schema components (restore dumped (removed names schemas) kept))

-- `_FASTAPI_VALIDATION_SCHEMAS`
abbrev pub validation_schemas : List Text
validation_schemas = lit "HTTPValidationError" ∷ lit "ValidationError" ∷ []

abbrev pub security_schemes : Json
security_schemes = single (lit "ApiKeyAuth") (
    object (
      texts (
        (lit "type", lit "apiKey")
        ∷ (lit "in", lit "header")
        ∷ (lit "name", lit "x-api-key")
        ∷ (lit "description", lit "API Gateway API key attached to a usage plan.")
        ∷ [])))

-- The security scheme, and that it holds for all operations.
abbrev pub with_security : (schema : Fields) → (components : Fields) → (schemas : Fields) → Fields
with_security schema components schemas =
    put (lit "security") (array (cons (single (lit "ApiKeyAuth") (array nil)) nil)) (
      put (lit "components")
        (object (
          put (lit "securitySchemes") security_schemes
            (put (lit "schemas") (object schemas) components)))
        schema)

-- The loop of `build_openapi` and what follows it.
unfoldable pub rewritten : List Route → (schema : Fields) → Result Fields
unfolding get operation_ids update_paths add_create_project_examples drop_unreferenced
rewritten routes schema = do
  value ← present "paths" (get (lit "paths") schema)
  paths ← dict value
  updated ← update_paths (operation_ids routes) paths
  exemplified ← add_create_project_examples (put (lit "paths") (object updated) schema)
  drop_unreferenced validation_schemas exemplified

-- `generated` is what FastAPI's `get_openapi` makes of the application, `routes` are its routes.
unfoldable pub build_openapi :
    (generated : Json) → (problem : Fields) → (routes : List Route) → Result Fields
unfolding get add_problem_schema rewritten
build_openapi generated problem routes = do
  schema ← dict generated
  components ← dict_or_new (get (lit "components") schema)
  declared ← dict_or_new (get (lit "schemas") components)
  schemas ← add_problem_schema problem declared
  rewritten routes (with_security schema components schemas)
