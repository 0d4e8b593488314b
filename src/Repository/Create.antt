-- ===== src/Repository/Create.antt =====
-- What `create` does to the table, and when it raises.
use projects_api.Common.{Text, ap, ◌∙◌, ◌≡◌, ◌⊎◌, true, none, inl, inr}
use projects_api.Dynamo.{ClientError, Dynamo, Reply, done, failed}
use projects_api.Dynamo.Behaviour.{Reply-cases, Contents, Documented, all_allowed, write_all}
use projects_api.Domain.Exceptions.{Error, ok, raise}
use projects_api.Domain.Validation.{name_key}
use projects_api.Domain.Models.{Project}
use projects_api.World.{World, continue}
use projects_api.Repository.{create_writes, create_error, create}
use projects_api.Repository.Keys.{reservation_at}
use projects_api.Repository.Records.{Runtime, record_key}
use projects_api.Repository.Consistency.{Holds, IsConsistent}
use projects_api.Repository.Consistency.Create.{create-vacant, create-IsConsistent}

module _ (r : Runtime) (D : Dynamo) (doc : Documented D) (p : Project) (w : World D.Db) where
  abbrev before : Contents
  before = doc.contents w.db

  abbrev after : Contents
  after = doc.contents (create r D p w).1.db

  abbrev reply : Reply Unit
  reply = (D.transact_write_items (create_writes r p) w.db).0

  pub create_db : (create r D p w).1.db ≡ (D.transact_write_items (create_writes r p) w.db).1
  unfolding create
  create_db = elim (Reply-cases reply) [ inl (_, h) ↦ rw (h, continue) | inr (e, h) ↦ rw h ]

  pub create_of_done : reply ≡ done tt → (create r D p w).0 ≡ ok p
  unfolding create
  create_of_done h = rw h

  pub create_of_failed :
      (e : ClientError) → reply ≡ failed e → (create r D p w).0 ≡ raise (create_error p e)
  unfolding create
  create_of_failed e h = rw h

  -- On a consistent table, a call of `create` that returns has returned the project it was given,
  -- found neither its name nor its id taken, and written its two items; nothing else has changed.
  pub create-ok :
      (q : Project)
      → IsConsistent r.unicode before
      → (create r D p w).0 ≡ ok q
      → (q ≡ p)
        × (before (reservation_at (name_key r.unicode p.name)) ≡ none)
        × (before (record_key p.project_id) ≡ none)
        × (after ≡ write_all (create_writes r p) before)
  create-ok q v h = elim (Reply-cases reply) [
    | inl (_, d) ↦
        let (met, written) = doc.transact_done (create_writes r p) w.db d in
        let (free_name, free_id) = create-vacant r p before v met in
        (cc (h, create_of_done d), free_name, free_id, ap doc.contents create_db ∙ written)
    | inr (e, d) ↦ cc (h, create_of_failed e d)
  ]

  -- A failed transaction has changed nothing, or was applied where its conditions held.
  create_failed :
      (e : ClientError)
      → reply ≡ failed e
      → (after ≡ before)
        ⊎ ((all_allowed (create_writes r p) before ≡ true)
            × (after ≡ write_all (create_writes r p) before))
  create_failed e d = elim (doc.transact_failed (create_writes r p) w.db e d) [
    | inl kept ↦ inl (ap doc.contents create_db ∙ kept)
    | inr (met, written) ↦ inr (met, ap doc.contents create_db ∙ written)
  ]

  -- Whatever the service answers, the two items are written or nothing is.
  pub create_cases : (after ≡ write_all (create_writes r p) before) ⊎ (after ≡ before)
  create_cases = elim (Reply-cases reply) [
    | inl (_, d) ↦
        inl (ap doc.contents create_db ∙ (doc.transact_done (create_writes r p) w.db d).1)
    | inr (e, d) ↦ elim (create_failed e d) [ inl kept ↦ inr kept | inr (_, written) ↦ inl written ]
  ]

  -- Whatever the service answers, `create` keeps a consistent table consistent.
  pub create-keeps : IsConsistent r.unicode before → IsConsistent r.unicode after
  create-keeps v = elim (Reply-cases reply) [
    | inl (_, d) ↦
        let (_, free_name, free_id, written) = create-ok p v (create_of_done d) in
        rw written (create-IsConsistent r p before v free_name free_id)
    | inr (e, d) ↦ elim (create_failed e d) [
      | inl kept ↦ rw kept v
      | inr (met, written) ↦
          let (free_name, free_id) = create-vacant r p before v met in
          rw written (create-IsConsistent r p before v free_name free_id)
    ]
  ]

  -- On a consistent table where a project holds the reservation of the name, a call of `create`
  -- raises and changes nothing.
  pub create-held :
      (id : Text)
      → IsConsistent r.unicode before
      → Holds before (name_key r.unicode p.name) id
      → (x : Error) × ((create r D p w).0 ≡ raise x) × (after ≡ before)
  create-held id v held = elim (Reply-cases reply) [
    | inl (_, d) ↦
        let (_, free_name, _, _) = create-ok p v (create_of_done d) in
        absurd (cc (free_name, held.at))
    | inr (e, d) ↦ elim (create_failed e d) [
      | inl kept ↦ (create_error p e, create_of_failed e d, kept)
      | inr (met, _) ↦ absurd (cc ((create-vacant r p before v met).0, held.at))
    ]
  ]
