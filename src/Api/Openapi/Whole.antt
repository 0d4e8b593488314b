-- ===== src/Api/Openapi/Whole.antt =====
-- The whole document that `build_openapi` returns.
use projects_api.Common.{
  Text, lit, ◌==◌, ==_refl, ==_ne, ◌≡◌, refl, sym, ap, subst, ◌∙◌, Bool, true, false, Option, none,
  some, List, inl, inr,
}
use projects_api.Json.{Json, Fields, array, object, nil, cons, put}
use projects_api.Json.Dict.{get}
use projects_api.Json.Dict.Laws.{get-put}
use projects_api.Domain.Exceptions.{Result, ok, Result-cases, bound}
use projects_api.Api.Openapi.{
  single, dict, dict_or_new, present, is_success, is_http_method, is_public, OperationIds,
  update_paths,
}
use projects_api.Api.Openapi.Document.{
  Route, operation_ids, add_problem_schema, update_at, add_examples, change_operation,
  add_create_project_examples,
}
use projects_api.Api.Openapi.References.{
  validation_schemas, security_schemes, drop_unreferenced, with_security, rewritten, build_openapi,
}
use projects_api.Api.Openapi.Responses.{HasProblem, IsThere}
use projects_api.Api.Openapi.Operations.{Updated, UpdatedMethod, UpdatedPath, update_paths-ok}
use projects_api.Api.Openapi.Walks.{
  AllFields, Pointwise-AllFields, update_at-ok, AllPaths, change_operation-AllFields,
}

-- The responses of an operation are those that the service gives.
pub record FitsResponses (public : Bool) (responses : Fields) : Type 0 where
  pub problems :
      (code : Text) (response : Json)
      → is_success code ≡ false
      → get code responses ≡ some response
      → HasProblem response
  pub no_422 : get (lit "422") responses ≡ none
  pub error : IsThere (lit "500") responses
  pub gateway : public ≡ false → IsThere (lit "403") responses × IsThere (lit "429") responses

pub record FitsOperation (public : Bool) (operation : Fields) : Type 0 where
  pub responses :
      (answered : Fields) × (get (lit "responses") operation ≡ some (object answered))
      × FitsResponses public answered
  pub open_security : public ≡ true → get (lit "security") operation ≡ some (array nil)

-- Of an object of operations by method, other names are left out.
abbrev pub FitsMethod : (path : Text) → (method : Text) → Json → Type 0
FitsMethod path method v =
    is_http_method method ≡ true
    → (operation : Fields) × (v ≡ object operation)
      × FitsOperation (is_public path method) operation

Updated-Fits :
    (ids : OperationIds) (path method : Text) (before after : Fields)
    → Updated ids path method before after
    → FitsOperation (is_public path method) after
Updated-Fits ids path method before after u =
    let (_, answered, _, there, fits) = u.responses in
    record {
      responses = (
        answered,
        there,
        record {
          problems = fits.problems;
          no_422 = fits.no_422;
          error = fits.error;
          gateway = fits.gateway;
        },
      );
      open_security = λ public. u.security ∙ rw public refl;
    }

UpdatedMethod-Fits :
    (ids : OperationIds) (path method : Text) (v w : Json)
    → UpdatedMethod ids path method v w
    → FitsMethod path method w
UpdatedMethod-Fits ids path method v w (inl (e, (before, after, _, same, u))) h =
    (after, same, Updated-Fits ids path method before after u)
UpdatedMethod-Fits ids path method v w (inr (e, _)) h = cc (e, h)

codes_apart :
    ((lit "201" == lit "422") ≡ false)
    × ((lit "201" == lit "500") ≡ false)
    × ((lit "201" == lit "403") ≡ false)
    × ((lit "201" == lit "429") ≡ false)
    × (is_success (lit "201") ≡ true)
unfolding lit ◌==◌
codes_apart = (refl, refl, refl, refl, refl)

names_apart :
    ((lit "requestBody" == lit "responses") ≡ false)
    × ((lit "requestBody" == lit "security") ≡ false)
    × ((lit "responses" == lit "security") ≡ false)
    × ((lit "components" == lit "paths") ≡ false)
unfolding lit ◌==◌
names_apart = (refl, refl, refl, refl)

paths_apart : (lit "paths" == lit "security") ≡ false
unfolding lit ◌==◌
paths_apart = refl

components_apart : (lit "components" == lit "security") ≡ false
unfolding lit ◌==◌
components_apart = refl

object_cancel :
    (fs gs : Fields) → ◌≡◌ {A = Option Json} (some (object fs)) (some (object gs)) → fs ≡ gs
object_cancel fs gs h = cc (h)

json_cancel : (fs gs : Fields) → object fs ≡ object gs → fs ≡ gs
json_cancel fs gs h = cc (h)

fields_cancel : (fs gs : Fields) → ◌≡◌ {A = Result Fields} (ok fs) (ok gs) → fs ≡ gs
fields_cancel fs gs h = cc (h)

UpdatedPath-Fits :
    (ids : OperationIds) (path : Text) (v w : Json)
    → UpdatedPath ids path v w
    → AllPaths FitsMethod path w
UpdatedPath-Fits ids path v w (before, after, _, same, u) =
    (after, same, Pointwise-AllFields before after (UpdatedMethod-Fits ids path) u)

get-put_other :
    (k n : Text) (v : Json) (fs : Fields) → (n == k) ≡ false → get k (put n v fs) ≡ get k fs
get-put_other k n v fs h = get-put k n v fs ∙ rw h refl

get-put_same : (n : Text) (v : Json) (fs : Fields) → get n (put n v fs) ≡ some v
get-put_same n v fs = get-put n n v fs ∙ rw (==_refl n) refl

-- A change of the response 201 keeps what is said of the others.
put_201-Fits :
    (public : Bool) (v : Json) (responses : Fields)
    → FitsResponses public responses
    → FitsResponses public (put (lit "201") v responses)
put_201-Fits public v responses fits =
    let (a, b, c, d, success) = codes_apart in
    let still : (code : Text)
        → (lit "201" == code) ≡ false
        → IsThere code responses
        → IsThere code (put (lit "201") v responses) =
      λ code e (r, there). (r, get-put_other code (lit "201") v responses e ∙ there) in
    record {
      problems = λ code response s there. fits.problems code response s (
          sym (
            get-put_other code (lit "201") v responses
              (==_ne (lit "201") code (λ e. cc (e, s, success))))
          ∙ there);
      no_422 = get-put_other (lit "422") (lit "201") v responses a ∙ fits.no_422;
      error = still (lit "500") b fits.error;
      gateway = λ e. let (x, y) = fits.gateway e in (still (lit "403") c x, still (lit "429") d y);
    }

add_examples-Fits :
    (public : Bool) (before after : Fields)
    → add_examples before ≡ ok after
    → FitsOperation public before
    → FitsOperation public after
unfolding add_examples
add_examples-Fits public before after h fits =
    let (requested, h1, h2) = bound (update_at "requestBody" _ before) _ after h in
    let (_, body, _, _, r) = update_at-ok "requestBody" _ before requested h1 in
    let (answered, changed, there, g, s) = update_at-ok "responses" _ requested after h2 in
    let (created, new, _, _, t) = update_at-ok "201" _ answered changed g in
    let same =
      sym (get-put_other (lit "responses") (lit "requestBody") (object body) before names_apart.0)
      ∙ ap (get (lit "responses")) (sym r)
      ∙ there in
    let (first, at, fine) = fits.responses in
    let (_, a, b, _) = names_apart in
    rw (s, r, t)
      (record {
        responses = (
          put (lit "201") (object new) answered,
          get-put_same (lit "responses") _ _,
          put_201-Fits public (object new) answered
              (subst (FitsResponses public) (object_cancel first answered (sym at ∙ same)) fine),
        );
        open_security = λ e.
            get-put_other (lit "security") (lit "responses") _ _ b
            ∙ get-put_other (lit "security") (lit "requestBody") _ _ a
            ∙ fits.open_security e;
      })

kept_by_examples :
    (path method : Text) (before after : Fields)
    → add_examples before ≡ ok after
    → FitsMethod path method (object before)
    → FitsMethod path method (object after)
kept_by_examples path method before after h fits e =
    let (operation, same, f) = fits e in
    (
      after,
      refl,
      add_examples-Fits (is_public path method) before after h (
          subst (FitsOperation (is_public path method)) (json_cancel operation before (sym same))
            f),
    )

-- What the loop has made fit, the examples leave so.
exemplified_paths :
    (schema : Fields) (updated : Fields) (exemplified : Fields)
    → add_create_project_examples (put (lit "paths") (object updated) schema) ≡ ok exemplified
    → AllFields (AllPaths FitsMethod) updated
    → (paths : Fields) × (get (lit "paths") exemplified ≡ some (object paths))
      × AllFields (AllPaths FitsMethod) paths
      × (get (lit "security") exemplified ≡ get (lit "security") schema)
unfolding add_create_project_examples
exemplified_paths schema updated exemplified h fits =
    let there = get-put_same (lit "paths") (object updated) schema in
    let other = get-put_other (lit "security") (lit "paths") (object updated) schema paths_apart in
    elim (Result-cases (change_operation (lit "createProject") add_examples updated)) [
      | inr (x, d) ↦ cc (rw (there, d) at h)
      | inl (none, d) ↦
          rw (← fields_cancel _ exemplified (rw (there, d) at h)) (updated, there, fits, other)
      | inl (some paths, d) ↦ rw (← fields_cancel _ exemplified (rw (there, d) at h)) (
        paths,
        get-put_same (lit "paths") (object paths) (put (lit "paths") (object updated) schema),
        change_operation-AllFields FitsMethod (lit "createProject") add_examples kept_by_examples
            updated paths d fits,
        get-put_other (lit "security") (lit "paths") (object paths) _ paths_apart ∙ other,
      )
    ]

drop_unreferenced-put :
    (names : List Text) (schema document : Fields)
    → drop_unreferenced names schema ≡ ok document
    → (components : Json) × (document ≡ put (lit "components") components schema)
unfolding drop_unreferenced
drop_unreferenced-put names schema document h =
    let (value, _, h1) =
      bound (present "components" (get (lit "components") schema)) _ document h in
    let (components, _, h2) = bound (dict value) _ document h1 in
    let (inner, _, h3) = bound (present "schemas" (get (lit "schemas") components)) _ document h2 in
    let (schemas, _, h4) = bound (dict inner) _ document h3 in
    (_, sym (fields_cancel _ document h4))

security_there :
    (schema components schemas : Fields)
    → get (lit "security") (with_security schema components schemas)
      ≡ some (array (cons (single (lit "ApiKeyAuth") (array nil)) nil))
security_there schema components schemas =
    get-put_same (lit "security") (array (cons (single (lit "ApiKeyAuth") (array nil)) nil)) (
      put (lit "components")
        (object (
          put (lit "securitySchemes") security_schemes
            (put (lit "schemas") (object schemas) components)))
        schema)

rewritten-Fits :
    (routes : List Route) (schema document : Fields)
    → rewritten routes schema ≡ ok document
    → ((paths : Fields) × (get (lit "paths") document ≡ some (object paths))
        × AllFields (AllPaths FitsMethod) paths)
      × (get (lit "security") document ≡ get (lit "security") schema)
unfolding rewritten
rewritten-Fits routes schema document h =
    let (value, _, h1) = bound (present "paths" (get (lit "paths") schema)) _ document h in
    let (before, _, h2) = bound (dict value) _ document h1 in
    let (updated, e, h3) = bound (update_paths (operation_ids routes) before) _ document h2 in
    let (exemplified, g, h4) =
      bound (add_create_project_examples (put (lit "paths") (object updated) schema)) _ document
        h3 in
    let fits =
      Pointwise-AllFields before updated (UpdatedPath-Fits (operation_ids routes))
        (update_paths-ok (operation_ids routes) before updated e) in
    let (paths, there, fit, security) = exemplified_paths schema updated exemplified g fits in
    let (new, same) = drop_unreferenced-put validation_schemas exemplified document h4 in
    let (_, _, _, a) = names_apart in
    rw same (
      (paths, get-put_other (lit "paths") (lit "components") new exemplified a ∙ there, fit),
      get-put_other (lit "security") (lit "components") new exemplified components_apart ∙ security,
    )

-- In a document that `build_openapi` returns, every operation under an HTTP method has, for each
-- response that is no success, a problem as its content, no response 422, a response 500, and,
-- unless it is the public one, responses 403 and 429; the public one asks for no key, and the
-- document as a whole asks for the API key.
pub build_openapi-Fits :
    (generated : Json) (problem : Fields) (routes : List Route) (document : Fields)
    → build_openapi generated problem routes ≡ ok document
    → ((paths : Fields) × (get (lit "paths") document ≡ some (object paths))
        × AllFields (AllPaths FitsMethod) paths)
      × (get (lit "security") document
          ≡ some (array (cons (single (lit "ApiKeyAuth") (array nil)) nil)))
unfolding build_openapi
build_openapi-Fits generated problem routes document h =
    let (schema, _, h1) = bound (dict generated) _ document h in
    let (components, _, h2) = bound (dict_or_new (get (lit "components") schema)) _ document h1 in
    let (declared, _, h3) = bound (dict_or_new (get (lit "schemas") components)) _ document h2 in
    let (schemas, _, h4) = bound (add_problem_schema problem declared) _ document h3 in
    let (paths, security) =
      rewritten-Fits routes (with_security schema components schemas) document h4 in
    (paths, security ∙ security_there schema components schemas)
