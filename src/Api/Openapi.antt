-- ===== src/Api/Openapi.antt =====
-- src/projects_api/api/openapi.py: the rewriting of the OpenAPI document that FastAPI generates.
-- The document is a tree of JSON. No two parts of it are one object, so that what the code writes
-- through a reference is written at one place.
pub mod Document
pub mod References
pub mod Responses
pub mod Operations
pub mod Walks
pub mod Whole
pub mod Kept
use projects_api.Common.{
  ℕ, ◌-◌, String, Text, lit, ◌==◌, Bool, true, false, not, ◌&&◌, ◌||◌, Option, none, some, List, [],
  ◌∷◌, ◌++◌, leb, nat_eq, map, if◌then◌else◌,
}
use projects_api.Json.{
  Json, Items, Fields, null, bool, number, string, array, object, nil, cons, end, field, put,
  dict_from,
}
use projects_api.Json.Dict.{get, pop, setdefault}
use projects_api.Json.Print.{sort_fields, print}
use projects_api.Domain.Exceptions.{Result, ok, raise, ◌>>=◌, key_error, exception}
use projects_api.Domain.Validation.{lower_ascii}

-- `{name: value}`
abbrev pub single : Text → Json → Json
single name value = object (field name value end)

-- A value that is used as a `dict`. The text of the exception where it is none is abridged.
abbrev pub dict : Json → Result Fields
dict (object fs) = ok fs
dict _ = raise (exception (lit "not a dict"))

-- `d.setdefault(name, {})`, used as a `dict`
abbrev pub dict_or_new : Option Json → Result Fields
dict_or_new none = ok end
dict_or_new (some v) = dict v

-- `d[name]`
abbrev pub present : String → Option Json → Result Json
present name none = raise (key_error name)
present name (some v) = ok v

abbrev pub problem_content : Json
problem_content =
    single (lit "application/problem+json")
      (single (lit "schema") (single (lit "$ref") (string (lit "#/components/schemas/Problem"))))

-- `GATEWAY_RESPONSES` and `COMMON_RESPONSES`
abbrev pub gateway_responses : List (Text × Text)
gateway_responses =
    (lit "403", lit "Missing or invalid API key (rejected by API Gateway).")
    ∷ (lit "429", lit "Throttled by the usage plan; retry with back-off.")
    ∷ []

abbrev pub common_responses : List (Text × Text)
common_responses = (lit "500", lit "Unexpected error. Quote `requestId` when reporting it.") ∷ []

abbrev pub defaults : (public : Bool) → List (Text × Text)
defaults public = if public then common_responses else gateway_responses ++ common_responses

abbrev pub described : Text → Json
described description = single (lit "description") (string description)

unfoldable pub add_defaults : List (Text × Text) → Fields → Fields
unfolding setdefault
add_defaults [] responses = responses
add_defaults ((code, description) ∷ ds) responses =
    add_defaults ds (setdefault code (described description) responses)

-- `code.startswith("2")`
abbrev pub is_success : Text → Bool
is_success [] = false
is_success (c ∷ code) = nat_eq c b'2'

abbrev pub with_problem : Json → Result Json
with_problem (object response) = ok (object (put (lit "content") problem_content response))
with_problem _ = raise (exception (lit "not a dict"))

-- The loop that sets the content of each response that is no success.
unfoldable pub problem_contents : Fields → Result Fields
problem_contents end = ok end
problem_contents (field code response fs) = do
  changed ← (if is_success code then ok response else with_problem response)
  rest ← problem_contents fs
  ok (field code changed rest)

unfoldable pub problem_responses : (public : Bool) → (operation : Fields) → Result Fields
unfolding get pop add_defaults problem_contents sort_fields
problem_responses public operation = do
  responses ← dict_or_new (get (lit "responses") operation)
  contents ← problem_contents (add_defaults (defaults public) (pop (lit "422") responses))
  ok (put (lit "responses") (object (sort_fields contents)) operation)

-- `_HTTP_METHODS` and `PUBLIC_OPERATIONS`
unfoldable pub is_http_method : Text → Bool
is_http_method m =
    m == lit "get"
    || m == lit "put"
    || m == lit "post"
    || m == lit "delete"
    || m == lit "options"
    || m == lit "head"
    || m == lit "patch"
    || m == lit "trace"

unfoldable pub is_public : (path : Text) → (method : Text) → Bool
is_public path method = path == lit "/health" && method == lit "get"

-- The readable ids by path and method; of two with one key the first counts.
abbrev pub OperationIds : Type 0
OperationIds = List ((Text × Text) × Text)

unfoldable pub operation_id_or : OperationIds → (path : Text) → (method : Text) → Json → Json
operation_id_or [] path method old = old
operation_id_or (((p, m), id) ∷ ids) path method old =
    if p == path && m == method then string id else operation_id_or ids path method old

-- The body of the loop of `build_openapi`.
unfoldable pub update_operation :
    OperationIds → (path : Text) → (method : Text) → Json → Result Json
unfolding get is_public operation_id_or problem_responses
update_operation ids path method value = do
  operation ← dict value
  old ← present "operationId" (get (lit "operationId") operation)
  let named = put (lit "operationId") (operation_id_or ids path method old) operation
  let public = is_public path method
  let secured = if public then put (lit "security") (array nil) named else named
  done ← problem_responses public secured
  ok (object done)

unfoldable pub update_methods : OperationIds → (path : Text) → Fields → Result Fields
unfolding is_http_method update_operation
update_methods ids path end = ok end
update_methods ids path (field method value fs) = do
  changed ← (if is_http_method method then update_operation ids path method value else ok value)
  rest ← update_methods ids path fs
  ok (field method changed rest)

unfoldable pub update_paths : OperationIds → Fields → Result Fields
unfolding update_methods
update_paths ids end = ok end
update_paths ids (field path value fs) = do
  path_item ← dict value
  changed ← update_methods ids path path_item
  rest ← update_paths ids fs
  ok (field path (object changed) rest)
