-- ===== src/Api/Openapi/Operations.antt =====
-- The operations of the document after the loop of `build_openapi`.
use projects_api.Common.{
  Text, lit, ◌==◌, ==_refl, ==_ne, ◌≡◌, ◌≢◌, ◌⊎◌, inl, inr, refl, sym, ap, ◌∙◌, Bool, true, false,
  some, if◌then◌else◌, Bool-cases, Option-cases,
}
use projects_api.Json.{
  Json, Fields, null, bool, number, string, array, object, nil, end, field, put,
}
use projects_api.Json.Dict.{get}
use projects_api.Json.Dict.Laws.{get-put}
use projects_api.Domain.Exceptions.{Result, ok, Result-cases}
use projects_api.Api.Openapi.{
  dict, dict_or_new, problem_responses, is_http_method, is_public, OperationIds, operation_id_or,
  update_operation, update_methods, update_paths,
}
use projects_api.Api.Openapi.Responses.{ProblemResponses, problem_responses-ok}

-- Two objects with the same names in the same order, and their values.
abbrev pub Pointwise : (Text → Json → Json → Type 0) → Fields → Fields → Type 0
Pointwise P end end = Unit
Pointwise P (field k v fs) (field j w gs) = (k ≡ j) × P k v w × Pointwise P fs gs
Pointwise P _ _ = ⊥

pub record Updated (ids : OperationIds) (path method : Text) (before after : Fields) : Type 0 where
  pub responses :
      (declared : Fields) × (answered : Fields) × (dict_or_new (get (lit "responses") before)
        ≡ ok declared)
      × (get (lit "responses") after ≡ some (object answered))
      × ProblemResponses (is_public path method) declared answered
  pub operation_id :
      (old : Json) × (get (lit "operationId") before ≡ some old)
      × (get (lit "operationId") after ≡ some (operation_id_or ids path method old))
  pub security :
      get (lit "security") after
      ≡ (if is_public path method then some (array nil) else get (lit "security") before)
  pub kept :
      (name : Text)
      → name ≢ lit "responses"
      → name ≢ lit "operationId"
      → name ≢ lit "security"
      → get name after ≡ get name before

abbrev pub UpdatedValue : OperationIds → (path : Text) → (method : Text) → Json → Json → Type 0
UpdatedValue ids path method v w =
    (before : Fields) × (after : Fields) × (v ≡ object before)
    × (w ≡ object after)
    × Updated ids path method before after

-- What is no operation stays.
abbrev pub UpdatedMethod : OperationIds → (path : Text) → (method : Text) → Json → Json → Type 0
UpdatedMethod ids path method v w =
    ((is_http_method method ≡ true) × UpdatedValue ids path method v w)
    ⊎ ((is_http_method method ≡ false) × (v ≡ w))

abbrev pub UpdatedPath : OperationIds → (path : Text) → Json → Json → Type 0
UpdatedPath ids path v w =
    (before : Fields) × (after : Fields) × (v ≡ object before)
    × (w ≡ object after)
    × Pointwise (UpdatedMethod ids path) before after

pub dict_ok : (v : Json) (fs : Fields) → dict v ≡ ok fs → v ≡ object fs
dict_ok (object gs) fs h = cc (h)
dict_ok null fs h = cc (h)
dict_ok (bool b) fs h = cc (h)
dict_ok (number n) fs h = cc (h)
dict_ok (string s) fs h = cc (h)
dict_ok (array xs) fs h = cc (h)

json_cancel : (v w : Json) → ◌≡◌ {A = Result Json} (ok v) (ok w) → v ≡ w
json_cancel v w h = cc (h)

fields_cancel : (fs gs : Fields) → ◌≡◌ {A = Result Fields} (ok fs) (ok gs) → fs ≡ gs
fields_cancel fs gs h = cc (h)

pub apart : (s t : Text) → (s == t) ≡ false → s ≢ t
apart s t h e = cc (rw e at h, ==_refl t)

-- The three names that the loop writes.
names_apart :
    ((lit "security" == lit "responses") ≡ false)
    × ((lit "operationId" == lit "responses") ≡ false)
    × ((lit "security" == lit "operationId") ≡ false)
unfolding lit ◌==◌
names_apart = (refl, refl, refl)

id_security : (lit "operationId" == lit "security") ≡ false
unfolding lit ◌==◌
id_security = refl

module _ (ids : OperationIds) (path method : Text) where
  abbrev named : Json → Fields → Fields
  named old before = put (lit "operationId") (operation_id_or ids path method old) before

  abbrev secured : Bool → Json → Fields → Fields
  secured public old before =
      if public then put (lit "security") (array nil) (named old before) else named old before

  get-secured :
      (name : Text) (public : Bool) (old : Json) (before : Fields)
      → get name (secured public old before) ≡ (
          if lit "security" == name
          then (if public then some (array nil) else get name (named old before))
          else get name (named old before))
  get-secured name true old before = get-put name (lit "security") (array nil) (named old before)
  get-secured name false old before = elim (Bool-cases (lit "security" == name)) [
    | inl e ↦ rw e refl
    | inr e ↦ rw e refl
  ]

  unchanged :
      (name : Text) (public : Bool) (old : Json) (before : Fields)
      → (lit "security" == name) ≡ false
      → (lit "operationId" == name) ≡ false
      → get name (secured public old before) ≡ get name before
  unchanged name public old before a b =
      get-secured name public old before
      ∙ rw a (
          get-put name (lit "operationId") (operation_id_or ids path method old) before ∙ rw b refl)

  id_written :
      (public : Bool) (old : Json) (before : Fields)
      → get (lit "operationId") (secured public old before)
        ≡ some (operation_id_or ids path method old)
  id_written public old before =
      get-secured (lit "operationId") public old before
      ∙ rw names_apart.2 (
          get-put (lit "operationId") (lit "operationId") (operation_id_or ids path method old)
            before
          ∙ rw (==_refl (lit "operationId")) refl)

  security_written :
      (public : Bool) (old : Json) (before : Fields)
      → get (lit "security") (secured public old before)
        ≡ (if public then some (array nil) else get (lit "security") before)
  security_written true old before =
      get-secured (lit "security") true old before ∙ rw (==_refl (lit "security")) refl
  security_written false old before =
      get-put (lit "security") (lit "operationId") (operation_id_or ids path method old) before
      ∙ rw id_security refl

  secured-Updated :
      (old : Json) (before done : Fields)
      → get (lit "operationId") before ≡ some old
      → problem_responses (is_public path method) (secured (is_public path method) old before)
        ≡ ok done
      → Updated ids path method before done
  secured-Updated old before done there h =
      let public = is_public path method in
      let (declared, answered, read, written, fits, kept) =
        problem_responses-ok public (secured public old before) done h in
      let (a, b, c) = names_apart in
      let same = unchanged (lit "responses") public old before a b in
      record {
        responses = (declared, answered, ap dict_or_new (sym same) ∙ read, written, fits);
        operation_id =
            (old, there, kept (lit "operationId") (apart _ _ b) ∙ id_written public old before);
        security = kept (lit "security") (apart _ _ a) ∙ security_written public old before;
        kept = λ name x y z.
            kept name x
            ∙ unchanged name public old before (==_ne (lit "security") name (λ e. z (sym e)))
                (==_ne (lit "operationId") name (λ e. y (sym e)));
      }

  update_operation-ok :
      (v w : Json) → update_operation ids path method v ≡ ok w → UpdatedValue ids path method v w
  unfolding update_operation
  update_operation-ok v w h = elim (Result-cases (dict v)) [
    | inr (e, d) ↦ cc (rw d at h)
    | inl (before, d) ↦ elim (Option-cases (get (lit "operationId") before)) [
      | inl e ↦ cc (rw (d, e) at h)
      | inr (old, e) ↦
          elim (Result-cases (
            problem_responses (is_public path method)
              (secured (is_public path method) old before))) [
                | inr (x, f) ↦ cc (rw (d, e, f) at h)
                | inl (done, f) ↦ (
                  before,
                  done,
                  dict_ok v before d,
                  sym (json_cancel (object done) w (rw (d, e, f) at h)),
                  secured-Updated old before done e f,
                )
              ]
    ]
  ]

update_methods-ok :
    (ids : OperationIds) (path : Text) (fs gs : Fields)
    → update_methods ids path fs ≡ ok gs
    → Pointwise (UpdatedMethod ids path) fs gs
unfolding update_methods
update_methods-ok ids path end gs h = rw (← fields_cancel end gs h) tt
update_methods-ok ids path (field m v fs) gs h =
    elim (Result-cases (if is_http_method m then update_operation ids path m v else ok v)) [
      | inr (e, d) ↦ cc (rw d at h)
      | inl (w, d) ↦ elim (Result-cases (update_methods ids path fs)) [
        | inr (e, f) ↦ cc (rw (d, f) at h)
        | inl (rest, f) ↦
            rw (← fields_cancel (field m w rest) gs (rw (d, f) at h))
              (refl, one w d, update_methods-ok ids path fs rest f)
      ]
    ]
  where
    one :
        (w : Json)
        → (if is_http_method m then update_operation ids path m v else ok v) ≡ ok w
        → UpdatedMethod ids path m v w
    one w d = elim (Bool-cases (is_http_method m)) [
      | inl e ↦ inl (e, update_operation-ok ids path m v w (rw e at d))
      | inr e ↦ inr (e, json_cancel v w (rw e at d))
    ]

-- Where the loop of `build_openapi` returns, it has kept the paths and the methods in their order,
-- changed no value under another name than an HTTP method, and given each operation its readable
-- id, where there is one, its responses, and empty security if it is public.
pub update_paths-ok :
    (ids : OperationIds) (before after : Fields)
    → update_paths ids before ≡ ok after
    → Pointwise (UpdatedPath ids) before after
unfolding update_paths
update_paths-ok ids end gs h = rw (← fields_cancel end gs h) tt
update_paths-ok ids (field path v fs) gs h = elim (Result-cases (dict v)) [
  | inr (e, d) ↦ cc (rw d at h)
  | inl (item, d) ↦ elim (Result-cases (update_methods ids path item)) [
    | inr (e, f) ↦ cc (rw (d, f) at h)
    | inl (changed, f) ↦ elim (Result-cases (update_paths ids fs)) [
      | inr (e, g) ↦ cc (rw (d, f, g) at h)
      | inl (rest, g) ↦
          rw (← fields_cancel (field path (object changed) rest) gs (rw (d, f, g) at h)) (
            refl,
            (item, changed, dict_ok v item d, refl, update_methods-ok ids path item changed f),
            update_paths-ok ids fs rest g,
          )
    ]
  ]
]
