-- ===== src/Api/Application.antt =====
-- src/projects_api/main.py: what `create_app` sets on the application, and its `custom_openapi`.
use projects_api.Common.{Text, lit, ◌≡◌, refl, ap, ◌∙◌, Option, none, some, List, if◌then◌else◌}
use projects_api.Json.{Json, Fields}
use projects_api.Domain.Exceptions.{Result, ok, raise}
use projects_api.World.{Stateful}
use projects_api.Api.Deps.{Env, is_local}
use projects_api.Api.Openapi.Document.{Route}
use projects_api.Api.Openapi.References.{build_openapi}

pub record Application : Type 0 where
  pub openapi_url : Text
  pub docs_url : Option Text
  pub redoc_url : Option Text
  pub openapi_schema : Option Fields

unfoldable pub create_app : Env → Application
unfolding lit
create_app env = record {
  openapi_url = lit "/v1/openapi.json";
  docs_url = if is_local env then some (lit "/v1/docs") else none;
  redoc_url = none;
  openapi_schema = none;
}

-- The document is kept where `build_openapi` returns one.
abbrev built : Result Fields → Stateful Application Fields
built (ok schema) app = (ok schema, record app { openapi_schema = some schema })
built (raise e) app = (raise e, app)

abbrev served : Option Fields → Result Fields → Stateful Application Fields
served (some schema) build app = (ok schema, app)
served none build app = built build app

-- The arguments are what FastAPI makes of the application as it is.
unfoldable pub custom_openapi :
    (generated : Json) → (problem : Fields) → (routes : List Route) → Stateful Application Fields
unfolding build_openapi
custom_openapi generated problem routes app =
    served app.openapi_schema (build_openapi generated problem routes) app

fields_cancel : (s t : Fields) → ◌≡◌ {A = Result Fields} (ok s) (ok t) → s ≡ t
fields_cancel s t e = cc (e)

served_again :
    (kept : Option Fields) (build later : Result Fields) (app : Application) (schema : Fields)
    → app.openapi_schema ≡ kept
    → (served kept build app).0 ≡ ok schema
    → served (served kept build app).1.openapi_schema later (served kept build app).1
      ≡ (ok schema, (served kept build app).1)
served_again (some s) build later app schema is h =
    ap (λ (o : Option Fields). served o later app)
      (is ∙ ap (λ (t : Fields). some t) (fields_cancel _ _ h))
served_again none (ok s) later app schema is h =
    ap (λ t. (ok t, record app { openapi_schema = some s })) (fields_cancel _ _ h)
served_again none (raise e) later app schema is h = cc (h)

-- The document that a call returned, each later call returns, and it changes nothing more.
pub custom_openapi-custom_openapi :
    (generated again : Json) (problem then_problem : Fields) (routes then_routes : List Route)
    (app : Application) (schema : Fields)
    → (custom_openapi generated problem routes app).0 ≡ ok schema
    → custom_openapi again then_problem then_routes (custom_openapi generated problem routes app).1
      ≡ (ok schema, (custom_openapi generated problem routes app).1)
unfolding custom_openapi
custom_openapi-custom_openapi generated again problem then_problem routes then_routes app schema h =
    served_again app.openapi_schema (build_openapi generated problem routes)
      (build_openapi again then_problem then_routes) app schema refl h
