-- ===== src/Repository/Refusals.antt =====
-- What `create` tells of a transaction that has failed.
use projects_api.Common.{
  ℕ, String, Text, ◌≡◌, ◌⊎◌, refl, Bool, ◌&&◌, true, false, Option, none, some, List, [], ◌∷◌,
  arith, inl, inr, Bool-cases, Option-cases,
}
use package.text.Mathlib.Text.{find?}
use package.text.Mathlib.TextEquality.{eq_iff}
use projects_api.Dynamo.{attribute_not_exists, Item, ClientError, Dynamo, failed}
use projects_api.Dynamo.Behaviour.{
  Reply-cases, Contents, Documented, TellsWhy, all_allowed, ReasonsFit, meets, attribute_of,
}
use projects_api.Domain.Exceptions.{project_name_taken, raise}
use projects_api.Domain.Validation.{name_key}
use projects_api.Domain.Models.{Project}
use projects_api.World.{World}
use projects_api.Repository.{
  is_code, contains, is_empty, reason, is_cancelled, create_writes, create_error, create,
}
use projects_api.Repository.Keys.{reservation_at, key_of-reservation_item, key_of-project_item}
use projects_api.Repository.Records.{Runtime, record_key}
use projects_api.Repository.Consistency.{Named, IsConsistent}
use projects_api.Repository.Create.{create_of_done, create_of_failed}

pub is_code_sound : (code : Option String) (s : String) → is_code code s ≡ true → code ≡ some s
is_code_sound none s h = cc
is_code_sound (some c) s h = ground (arith, eq_iff c s)

-- What makes `create` say that the name is taken.
create_error_taken :
    (p : Project) (e : ClientError) (n : Text)
    → create_error p e ≡ project_name_taken n
    → (n ≡ p.name)
      × (is_cancelled e ≡ true)
      × ((is_code (reason 0 e.reasons) "ConditionalCheckFailed" ≡ true)
          ⊎ ((is_empty e.reasons ≡ true) × (contains e.message "ConditionalCheckFailed" ≡ true)))
unfolding create_error
create_error_taken p e n h = ground arith

present :
    (name : String) (o : Option Item)
    → meets (attribute_not_exists name) o ≡ false
    → (item : Item) × (o ≡ some item)
unfolding meets attribute_of
present name none h = cc
present name (some item) h = (item, refl)

and_true : (b : Bool) → b && true ≡ false → b ≡ false
and_true true h = h
and_true false h = refl

List-cases :
    (l : List (Option String))
    → (l ≡ []) ⊎ ((c : Option String) × (rs : List (Option String)) × (l ≡ c ∷ rs))
List-cases [] = inl refl
List-cases (c ∷ rs) = inr (c, rs, refl)

contains-find : (s part : String) → contains s part ≡ true → (i : ℕ) × (find? s part ≡ some i)
contains-find s part h = elim (Option-cases (find? s part)) [
  | inl missing ↦ cc (rw (contains, missing) at h)
  | inr (i, at) ↦ (i, at)
]

module _ (r : Runtime) (p : Project) (contents : Contents) where
  abbrev Reserved : Type 0
  Reserved = (item : Item) × (contents (reservation_at (name_key r.unicode p.name)) ≡ some item)

  abbrev Recorded : Type 0
  Recorded = (item : Item) × (contents (record_key p.project_id) ≡ some item)

  first_refused :
      (reasons : List (Option String))
      → ReasonsFit reasons (create_writes r p) contents
      → is_code (reason 0 reasons) "ConditionalCheckFailed" ≡ true
      → Reserved
  unfolding create_writes
  first_refused [] fit h = absurd fit
  first_refused (c ∷ rs) fit h =
      present "PK" (contents (reservation_at (name_key r.unicode p.name))) (
        rw (← key_of-reservation_item r.unicode p)
          (fit.0 (is_code_sound c "ConditionalCheckFailed" h)))

  some_refused : all_allowed (create_writes r p) contents ≡ false → Reserved ⊎ Recorded
  unfolding create_writes all_allowed
  some_refused h =
      let reserved = contents (reservation_at (name_key r.unicode p.name)) in
      let recorded = contents (record_key p.project_id) in
      elim (Bool-cases (meets (attribute_not_exists "PK") reserved)) [
        | inr first ↦ inl (present "PK" reserved first)
        | inl first ↦ inr (
            present "PK" recorded (
              and_true (meets (attribute_not_exists "PK") recorded) (
                rw first at (
                  rw (key_of-reservation_item r.unicode p, key_of-project_item r.unicode p) at h))))
      ]

module _ (r : Runtime) (D : Dynamo) (doc : Documented D) (p : Project) (w : World D.Db) where
  -- Where the transaction was cancelled and `create` says that the name is taken, the reservation
  -- is there; or else the service gave no reasons, and the record is there.
  taken_tells :
      (e : ClientError)
      → TellsWhy e (create_writes r p) (doc.contents w.db)
      → ((is_code (reason 0 e.reasons) "ConditionalCheckFailed" ≡ true)
          ⊎ ((is_empty e.reasons ≡ true) × (contains e.message "ConditionalCheckFailed" ≡ true)))
      → Reserved r p (doc.contents w.db) ⊎ ((e.reasons ≡ []) × Recorded r p (doc.contents w.db))
  taken_tells e tells h = elim (List-cases e.reasons) [
    | inl none_given ↦ elim h [
      | inl first ↦ cc (rw none_given at first)
      | inr (_, said) ↦
          let (i, at) = contains-find e.message "ConditionalCheckFailed" said in
          elim (some_refused r p (doc.contents w.db) (tells.by_message i none_given at)) [
            | inl reserved ↦ inl reserved
            | inr recorded ↦ inr (none_given, recorded)
          ]
    ]
    | inr (c, rs, given) ↦ elim h [
      | inl first ↦ inl (
          first_refused r p (doc.contents w.db) (c ∷ rs) (tells.by_reasons c rs given)
            (rw given at first))
      | inr (empty, _) ↦ cc (rw given at empty)
    ]
  ]

  -- On a consistent table, `create` raises that a name is taken only for the name that it was
  -- given, and only where a project has a name with the same key or, where the service failed the
  -- transaction with no reasons, the id is taken.
  pub create-name_taken :
      (n : Text)
      → IsConsistent r.unicode (doc.contents w.db)
      → (create r D p w).0 ≡ raise (project_name_taken n)
      → (n ≡ p.name)
        × (((id : Text) × (name : Text) × Named (doc.contents w.db) id name
              × (name_key r.unicode name ≡ name_key r.unicode p.name))
            ⊎ (((e : ClientError) × ((D.transact_write_items (create_writes r p) w.db).0 ≡ failed e)
                  × (e.reasons ≡ []))
                × ((item : Item) × (doc.contents w.db (record_key p.project_id) ≡ some item))))
  create-name_taken n v h = elim (Reply-cases (D.transact_write_items (create_writes r p) w.db).0) [
    | inl (_, d) ↦ cc (h, create_of_done r D doc p w d)
    | inr (e, d) ↦
        let (same, cancelled, first) =
          create_error_taken p e n (cc (h, create_of_failed r D doc p w e d)) in
        let (_, tells) =
          doc.transact_cancelled (create_writes r p) w.db e d
            (is_code_sound e.code "TransactionCanceledException" cancelled) in
        elim (taken_tells e tells first) [
          | inl (item, there) ↦
              let (id, name, _, named, k) = v.held (name_key r.unicode p.name) item there in
              (same, inl (id, name, named, k))
          | inr (none_given, recorded) ↦ (same, inr ((e, d, none_given), recorded))
        ]
  ]
