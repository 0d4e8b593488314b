-- ===== src/Tests/Openapi.antt =====
-- The OpenAPI document of a small application.
use projects_api.Common.{Text, lit, ◌==◌, ◌≡◌, ◌≢◌, inl, refl, true, false, none, some, [], ◌∷◌}
use projects_api.Json.{Json, Fields, string, array, object, nil, cons, end, field, put, dict_from}
use projects_api.Json.Dict.{get, pop, setdefault}
use projects_api.Json.Print.{print}
use projects_api.Domain.Exceptions.{Result, ok, raise}
use projects_api.Api.Openapi.{dict_or_new, single, problem_responses, update_paths}
use projects_api.Api.Openapi.Document.{Route, lower_camel, operation_ids}
use projects_api.Api.Openapi.References.{
  build_openapi, reference, validation_schemas, with_schemas, drop_unreferenced,
}
use projects_api.Api.Openapi.Responses.{ProblemResponses, problem_responses-ok}
use projects_api.Api.Openapi.Walks.{AllFields, AllPaths}
use projects_api.Api.Openapi.Kept.{drop_unreferenced-keeps}
use projects_api.Api.Openapi.Whole.{FitsMethod, build_openapi-Fits}

program : Unit {0}
unfolding lit ◌==◌ get pop setdefault put dict_from print problem_responses update_paths lower_camel
    operation_ids build_openapi
program = tt

camel : lower_camel (lit "delete_project") ≡ lit "deleteProject"
unfolding program
camel = refl

abbrev health : Route
health = record {
  is_api_route = true;
  include_in_schema = true;
  context_path = none;
  path_format = lit "/health";
  operation_id = none;
  name = lit "health";
  methods = lit "GET" ∷ [];
}

abbrev post : Route
post = record health {
  context_path = some (lit "/v1/projects");
  name = lit "create_project";
  methods = lit "POST" ∷ [];
}

abbrev json_content : Json
json_content = single (lit "application/json") (object end)

abbrev generated : Json
generated = object (
    field (lit "paths")
      (object (
        field (lit "/health")
          (single (lit "get") (
            object (
              field (lit "operationId") (string (lit "health_health_get")) (
                field (lit "responses")
                  (single (lit "200") (single (lit "description") (string (lit "OK")))) end))))
          (field (lit "/v1/projects")
            (single (lit "post") (
              object (
                field (lit "operationId") (string (lit "create_project_v1_projects_post")) (
                  field (lit "requestBody") (single (lit "content") json_content) (
                    field (lit "responses")
                      (object (
                        field (lit "422")
                          (single (lit "description") (string (lit "Validation Error")))
                          (field (lit "409") (single (lit "description") (string (lit "Taken.")))
                            (field (lit "201") (single (lit "content") json_content) end))))
                      end)))))
            end)))
      (field (lit "components")
        (single (lit "schemas") (single (lit "ValidationError") (object end))) end))

abbrev problem : Fields
problem = field (lit "type") (string (lit "object")) end

abbrev document_of : Result Fields → Fields
document_of (ok fs) = fs
document_of (raise _) = end

abbrev document : Fields
document = document_of (build_openapi generated problem (health ∷ post ∷ []))

built : build_openapi generated problem (health ∷ post ∷ []) ≡ ok document
unfolding program
built = refl

build_openapi-Fits_example :
    ((paths : Fields) × (get (lit "paths") document ≡ some (object paths))
      × AllFields (AllPaths FitsMethod) paths)
    × (get (lit "security") document
        ≡ some (array (cons (single (lit "ApiKeyAuth") (array nil)) nil)))
build_openapi-Fits_example =
    build_openapi-Fits generated problem (health ∷ post ∷ []) document built

abbrev declared : Fields
declared =
    field (lit "422") (single (lit "description") (string (lit "Validation Error")))
      (field (lit "201") json_content end)

abbrev operation : Fields
operation = field (lit "responses") (object declared) end

abbrev answered : Fields
answered = document_of (problem_responses false operation)

problem_responses-ok_example :
    (before : Fields) × (after : Fields) × (dict_or_new (get (lit "responses") operation)
      ≡ ok before)
    × (get (lit "responses") answered ≡ some (object after))
    × ProblemResponses false before after
    × ((name : Text) → name ≢ lit "responses" → get name answered ≡ get name operation)
unfolding program
problem_responses-ok_example = problem_responses-ok false operation answered refl

abbrev paths_before : Fields
paths_before =
    field (lit "/health")
      (single (lit "get") (object (field (lit "operationId") (string (lit "h")) end))) end

abbrev paths_after : Fields
paths_after = document_of (update_paths (operation_ids (health ∷ [])) paths_before)

-- A document that refers to one of the schemas.
abbrev kept_components : Fields
kept_components = field (lit "schemas") (single (lit "ValidationError") (object end)) end

abbrev kept_schema : Fields
kept_schema =
    field (lit "x") (single (lit "$ref") (string (reference (lit "ValidationError"))))
      (field (lit "components") (object kept_components) end)

drop_unreferenced-keeps_example :
    (kept : Fields) × (document_of (drop_unreferenced validation_schemas kept_schema)
      ≡ with_schemas kept_schema kept_components kept)
    × (get (lit "ValidationError") kept ≡ some (object end))
unfolding program
drop_unreferenced-keeps_example =
    drop_unreferenced-keeps validation_schemas kept_schema
      (document_of (drop_unreferenced validation_schemas kept_schema)) kept_components
      (field (lit "ValidationError") (object end) end) (lit "ValidationError") (object end) refl
      refl refl refl refl (inl (inl refl))
