-- ===== src/Api/Openapi/Walks.antt =====
-- What holds of every operation is kept by a change of one of them that keeps it.
use projects_api.Common.{
  Text, lit, ◌≡◌, refl, Option, none, some, Bool-cases, Option-cases, inl, inr,
}
use projects_api.Json.{Json, Fields, object, end, field, put}
use projects_api.Json.Dict.{get}
use projects_api.Domain.Exceptions.{Result, ok, raise, Result-cases, ◌>>=◌}
use projects_api.Api.Openapi.{dict, is_http_method}
use projects_api.Api.Openapi.Document.{
  update_at, change_method, change_operation, is_string, behind_field, changed_path,
}
use projects_api.Api.Openapi.Operations.{Pointwise, dict_ok}

abbrev pub AllFields : (Text → Json → Type 0) → Fields → Type 0
AllFields P end = Unit
AllFields P (field k v fs) = P k v × AllFields P fs

pub Pointwise-AllFields :
    {R : Text → Json → Json → Type 0} {P : Text → Json → Type 0} (fs gs : Fields)
    → ((k : Text) (v w : Json) → R k v w → P k w)
    → Pointwise R fs gs
    → AllFields P gs
Pointwise-AllFields end end f h = tt
Pointwise-AllFields end (field j w gs) f h = absurd h
Pointwise-AllFields (field k v fs) end f h = absurd h
Pointwise-AllFields (field k v fs) (field j w gs) f (e, h, hs) =
    (rw (← e) (f k v w h), Pointwise-AllFields fs gs f hs)

pub update_at-ok :
    (name : _) (change : Fields → Result Fields) (fs gs : Fields)
    → update_at name change fs ≡ ok gs
    → (inner : Fields) × (changed : Fields) × (get (lit name) fs ≡ some (object inner))
      × (change inner ≡ ok changed)
      × (gs ≡ put (lit name) (object changed) fs)
unfolding update_at
update_at-ok name change fs gs h = elim (Option-cases (get (lit name) fs)) [
  | inl e ↦ cc (rw e at h)
  | inr (v, e) ↦ elim (Result-cases (dict v)) [
    | inr (x, d) ↦ cc (rw (e, d) at h)
    | inl (inner, d) ↦ elim (Result-cases (change inner)) [
      | inr (x, f) ↦ cc (rw (e, d, f) at h)
      | inl (changed, f) ↦
          let there = dict_ok v inner d in
          (inner, changed, rw there at e, f, cc (rw (e, d, f) at h))
    ]
  ]
]

some_cancel :
    (fs gs : Fields) → ◌≡◌ {A = Result (Option Fields)} (ok (some fs)) (ok (some gs)) → fs ≡ gs
some_cancel fs gs h = cc (h)

behind_All :
    (P : Text → Json → Type 0) (m : Text) (v : Json) (r : Result (Option Fields)) (gs : Fields)
    → ((rest : Fields) → r ≡ ok (some rest) → AllFields P rest)
    → P m v
    → (r >>= λ rest. ok (behind_field m v rest)) ≡ ok (some gs)
    → AllFields P gs
behind_All P m v (raise e) gs k p h = cc (h)
behind_All P m v (ok none) gs k p h = cc (h)
behind_All P m v (ok (some rest)) gs k p h =
    rw (← some_cancel (field m v rest) gs h) (p, k rest refl)

module _ (P : Text → Json → Type 0) (operation_id : Text) (change : Fields → Result Fields)
    (keeps : (m : Text) (before after : Fields)
      → change before ≡ ok after
      → P m (object before)
      → P m (object after)) where
  pub change_method-AllFields :
      (fs gs : Fields)
      → change_method operation_id change fs ≡ ok (some gs)
      → AllFields P fs
      → AllFields P gs
  unfolding change_method
  change_method-AllFields end gs h v = cc (h)
  change_method-AllFields (field m v fs) gs h (p, ps) = elim (Bool-cases (is_http_method m)) [
    | inr e ↦ behind_All P m v _ gs (λ rest k. change_method-AllFields fs rest k ps) p (rw e at h)
    | inl e ↦ elim (Result-cases (dict v)) [
      | inr (x, d) ↦ cc (rw (e, d) at h)
      | inl (operation, d) ↦
          elim (Bool-cases (is_string (get (lit "operationId") operation) operation_id)) [
            | inr i ↦
                behind_All P m v _ gs (λ rest k. change_method-AllFields fs rest k ps) p
                  (rw (e, d, i) at h)
            | inl i ↦ elim (Result-cases (change operation)) [
              | inr (x, c) ↦ cc (rw (e, d, i, c) at h)
              | inl (changed, c) ↦
                  rw (← some_cancel (field m (object changed) fs) gs (rw (e, d, i, c) at h))
                    (keeps m operation changed c (rw (dict_ok v operation d) at p), ps)
            ]
          ]
    ]
  ]

-- Every operation of every path.
abbrev pub AllPaths : (Text → Text → Json → Type 0) → Text → Json → Type 0
AllPaths Q path v = (item : Fields) × (v ≡ object item) × AllFields (Q path) item

module _ (Q : Text → Text → Json → Type 0) (operation_id : Text) (change : Fields → Result Fields)
    (keeps : (path m : Text) (before after : Fields)
      → change before ≡ ok after
      → Q path m (object before)
      → Q path m (object after)) where
  changed_path_All :
      (path : Text) (v : Json) (fs : Fields) (item : Fields) (changed : Option Fields)
      (r : Result (Option Fields)) (gs : Fields)
      → change_method operation_id change item ≡ ok changed
      → AllFields (Q path) item
      → AllPaths Q path v
      → AllFields (AllPaths Q) fs
      → ((rest : Fields) → r ≡ ok (some rest) → AllFields (AllPaths Q) rest)
      → changed_path path v fs changed r ≡ ok (some gs)
      → AllFields (AllPaths Q) gs
  changed_path_All path v fs item none r gs c q p ps k h = behind_All (AllPaths Q) path v r gs k p h
  changed_path_All path v fs item (some new) r gs c q p ps k h =
      rw (← some_cancel (field path (object new) fs) gs h) (
        (new, refl, change_method-AllFields (Q path) operation_id change (keeps path) item new c q),
        ps,
      )

  pub change_operation-AllFields :
      (fs gs : Fields)
      → change_operation operation_id change fs ≡ ok (some gs)
      → AllFields (AllPaths Q) fs
      → AllFields (AllPaths Q) gs
  unfolding change_operation
  change_operation-AllFields end gs h v = cc (h)
  change_operation-AllFields (field path v fs) gs h ((item, same, q), ps) =
      elim (Result-cases (change_method operation_id change item)) [
        | inr (x, d) ↦ cc (rw (same, d) at h)
        | inl (changed, d) ↦
            changed_path_All path (object item) fs item changed
              (change_operation operation_id change fs) gs d q (item, refl, q) ps
              (λ rest k. change_operation-AllFields fs rest k ps) (rw (same, d) at h)
      ]
