-- ===== src/Provisioner/Transition.antt =====
-- What one conditional transition does, and the three that the store has.
use projects_api.Common.{
  Text, lit, ap, ◌∙◌, ◌≡◌, ◌≢◌, ◌⊎◌, ◌≤◌, inl, inr, refl, true, false, some, [], ◌∷◌, ◌++◌, arith,
  length, length-take-le, take, ==_refl, Bool-cases,
}
use projects_api.Dynamo.{text, attribute, Item, ClientError, Condition, Dynamo, equals}
use projects_api.Dynamo
use projects_api.Dynamo.Behaviour.{Reply-cases, Contents, Documented, assign, meets, item_or_key}
use projects_api.Domain.Exceptions.{ok}
use projects_api.Domain.Models.{ProjectStatus, provisioning, failed, status_value}
use projects_api.World.{World}
use projects_api.Repository.{is_code}
use projects_api.Repository.Records.{record_key}
use projects_api.Repository.Refusals.{is_code_sound}
use projects_api.Repository.Consistency.Writes.{assign-record}
use projects_api.Repository.Consistency.Delete.{equals_sound}
use projects_api.Provisioner.{transition, transition_failed, fail, failure_reason}
use projects_api.Provisioner.Moves.{Allowed, Untouched, Moves, still, then_move}

abbrev pub assignments : ProjectStatus → Item → Text → Item
assignments to extra now = ("status", text (status_value to)) ∷ ("updatedAt", text now) ∷ extra

module _ (D : Dynamo) (doc : Documented D) (id : Text) (from to : ProjectStatus) (extra : Item)
    (now : Text) (w : World D.Db) where
  abbrev before : Contents
  before = doc.contents w.db

  abbrev after : Contents
  after = doc.contents (transition D id from to extra now w).1.db

  abbrev sets : Item
  sets = assignments to extra now

  transition_failed_lem :
      (e : ClientError) (v : World D.Db)
      → ((transition_failed D e v).1 ≡ v) × ((transition_failed D e v).0 ≢ ok true)
  unfolding transition_failed
  transition_failed_lem e v = (ground arith, ground arith)

  abbrev expected : Condition
  expected = equals "status" (status_value from)

  abbrev Applied : Type 0
  Applied =
      (item : Item) × (before (record_key id) ≡ some item)
      × (attribute "status" item ≡ some (text (status_value from)))
      × (after ≡ assign (record_key id) (some (sets ++ item)) before)

  abbrev updated : D.Db
  updated = (D.update_item (record_key id) expected sets w.db).1

  applied :
      after ≡ doc.contents updated
      → meets expected (before (record_key id)) ≡ true
      → doc.contents updated
        ≡ assign
            (record_key id)
            (some (sets ++ item_or_key (record_key id) (before (record_key id))))
            before
      → Applied
  applied same met written =
      let (item, there, status) =
        equals_sound "status" (status_value from) (before (record_key id)) met in
      (item, there, status, same ∙ written ∙ rw there refl)

  failed_raises :
      (e : ClientError) (v : World D.Db)
      → is_code e.code "ConditionalCheckFailedException" ≡ false
      → (transition_failed D e v).0 ≢ ok false
  unfolding transition_failed
  failed_raises e v h = rw h (λ x. cc x)

  -- The table after a failed request, whose `except` block leaves the table alone.
  table_of_failed :
      (e : ClientError)
      → (D.update_item (record_key id) expected sets w.db).0 ≡ Dynamo.failed e
      → (after ≡ doc.contents updated)
        × ((transition D id from to extra now w).0 ≢ ok true)
        × ((is_code e.code "ConditionalCheckFailedException" ≡ true)
            ⊎ ((transition D id from to extra now w).0 ≢ ok false))
  unfolding transition
  table_of_failed e d =
      let v = record w { db = updated } in
      let (kept, never) = transition_failed_lem e v in
      (
        rw (d, after) (ap (λ (v : World D.Db). doc.contents v.db) kept),
        rw d never,
        elim (Bool-cases (is_code e.code "ConditionalCheckFailedException")) [
          | inl refused ↦ inl refused
          | inr not_refused ↦ inr (rw d (failed_raises e v not_refused))
        ],
      )

  -- A transition either has made its assignments to the item, which had the expected status, and
  -- does not return `False`; or it has changed nothing, and does not return `True`.
  pub transition_cases :
      (((transition D id from to extra now w).0 ≢ ok false) × Applied)
      ⊎ (((transition D id from to extra now w).0 ≢ ok true) × (after ≡ before))
  unfolding transition
  transition_cases = elim (Reply-cases (D.update_item (record_key id) expected sets w.db).0) [
    | inl (_, d) ↦
        let (met, written) = doc.update_done (record_key id) expected sets w.db d in
        inl (rw d (λ x. cc x), applied (rw (d, after) refl) met written)
    | inr (e, d) ↦
        let (same, never, told) = table_of_failed e d in
        elim told [
          | inl refused ↦ inr (
            never,
            same
                ∙ (doc.update_refused (record_key id) expected sets w.db e d
                    (is_code_sound e.code "ConditionalCheckFailedException" refused)).0,
          )
          | inr raised ↦ elim (doc.update_failed (record_key id) expected sets w.db e d) [
            | inl kept ↦ inr (never, same ∙ kept)
            | inr (met, written) ↦ inl (raised, applied same met written)
          ]
        ]
  ]

  pub transition-Moves : Allowed from to → Untouched extra → Moves before after
  unfolding attribute
  transition-Moves a u = elim transition_cases [
    | inl (_, (item, there, status, written)) ↦ then_move (still refl) (record {
      id = id;
      from = from;
      to = to;
      allowed = a;
      sets = sets;
      item = item;
      was = there;
      status_was = status;
      status_set = refl;
      untouched = u;
      result = written;
    })
    | inr (_, kept) ↦ still kept
  ]

failure_reason_bounds :
    (reason : Text) → (1 ≤ length (failure_reason reason)) × (length (failure_reason reason) ≤ 500)
unfolding failure_reason
failure_reason_bounds [] = omega arith
failure_reason_bounds (c ∷ reason) = omega (arith, length-take-le 499 reason)

failure_reason_cases :
    (reason : Text)
    → ((reason ≡ []) × (failure_reason reason ≡ lit "unknown error"))
      ⊎ ((reason ≢ []) × (failure_reason reason ≡ take 500 reason))
unfolding failure_reason
failure_reason_cases [] = inl (refl, refl)
failure_reason_cases (c ∷ reason) = inr (λ x. cc x, refl)

-- Where `fail` returns `True`, the stored record is FAILED and has a failure reason of 1 to 500
-- characters: the first 500 of the given reason, or "unknown error" where that is empty.
pub fail_stores :
    (D : Dynamo) (doc : Documented D) (id reason now : Text) (w : World D.Db)
    → (fail D id reason now w).0 ≡ ok true
    → (item : Item) × (t : Text) × (doc.contents (fail D id reason now w).1.db (record_key id)
        ≡ some item)
      × (attribute "status" item ≡ some (text (status_value failed)))
      × (attribute "failureReason" item ≡ some (text t))
      × (1 ≤ length t)
      × (length t ≤ 500)
      × (((reason ≡ []) × (t ≡ lit "unknown error")) ⊎ ((reason ≢ []) × (t ≡ take 500 reason)))
unfolding fail attribute
fail_stores D doc id reason now w returned =
    let extra : Item = ("failureReason", text (failure_reason reason)) ∷ [] in
    elim (transition_cases D doc id provisioning failed extra now w) [
      | inl (_, (item, _, _, written)) ↦
          let stands =
            ap (λ (c : Contents). c (record_key id)) written
            ∙ assign-record (doc.contents w.db) id (some (assignments failed extra now ++ item))
                id in
          let (some_text, bounded) = failure_reason_bounds reason in
          (
            assignments failed extra now ++ item,
            failure_reason reason,
            rw (==_refl id) at stands,
            refl,
            refl,
            some_text,
            bounded,
            failure_reason_cases reason,
          )
      | inr (never, _) ↦ absurd (never returned)
    ]
