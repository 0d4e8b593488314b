-- ===== src/System/Listed.antt =====
-- Every item of the index is in the partition of its owner, after any steps.
use projects_api.Common.{
  ℕ, Text, ◌==◌, ◌≡◌, ◌⊎◌, inl, inr, refl, Option, none, some, [], ◌∷◌, arith, Bool-cases,
}
use projects_api.Dynamo.{Item, Key, Dynamo, attribute, equals}
use projects_api.Dynamo.Behaviour.{Documented, Reply-cases}
use projects_api.Domain.Models.Times.{IsWhole}
use projects_api.Domain.Models.{Project, ProjectStatus, status_value}
use projects_api.World.{World}
use projects_api.Repository.{
  create, create_writes, get, get_found, list_by_owner, delete_read, delete_writes, delete_failed,
}
use projects_api.Repository.Records.{Runtime, record_key}
use projects_api.Repository.Consistency.Update.{attribute-append}
use projects_api.Repository.Create.{create_db, create_cases}
use projects_api.Repository.Transacted.{delete_read_cases, get-keeps}
use projects_api.Repository.Index.{
  Index, Follows, Placed, IsPlaced, append-Placed, update-IsPlaced, create_writes-IsPlaced,
  delete_writes-IsPlaced,
}
use projects_api.Repository.Listing.{owner_query, list_by_owner_db}
use projects_api.Provisioner.{transition, transition_failed, begin, complete, fail, endpoint_extra}
use projects_api.Provisioner.Moves.{Untouched}
use projects_api.Provisioner.Runs.{endpoint_extra-Untouched}
use projects_api.Provisioner.Transition.{assignments, transition_cases}
use projects_api.System.{
  Step, create_step, get_step, list_step, delete_step, begin_step, complete_step, fail_step, Reach,
  here, next,
}

module _ (r : Runtime) (D : Dynamo) (doc : Documented D) (index : Index D doc) where
  pub record IsListed (db : D.Db) : Type 0 where
    pub in_table : IsPlaced (doc.contents db)
    pub in_index : (item : Item) → index.Seen db item → Placed item

  follow :
      (before after : D.Db)
      → Follows doc.contents index.Seen before after
      → IsPlaced (doc.contents after)
      → IsListed before
      → IsListed after
  follow before after f now v = record {
    in_table = now;
    in_index = λ item seen. of item (f item seen);
  }
    where
      of :
          (item : Item)
          → index.Seen before item
            ⊎ (((k : Key) × (doc.contents before k ≡ some item))
                ⊎ ((k : Key) × (doc.contents after k ≡ some item)))
          → Placed item
      of item (inl seen) = v.in_index item seen
      of item (inr (inl (k, e))) = v.in_table.placed k item e
      of item (inr (inr (k, e))) = now.placed k item e

  create-IsListed :
      (p : Project) (w : World D.Db)
      → IsWhole p.created_at
      → IsListed w.db
      → IsListed (create r D p w).1.db
  create-IsListed p w t v =
      let next_db = create_db r D doc p w in
      let now : IsPlaced (doc.contents (create r D p w).1.db) = elim (create_cases r D doc p w) [
        | inl e ↦ rw e (create_writes-IsPlaced r (doc.contents w.db) p t v.in_table)
        | inr e ↦ rw e v.in_table
      ] in
      rw next_db
        (follow w.db _ (index.transact_follows (create_writes r p) w.db) (rw (← next_db) now) v)

  get_db : (id : Text) (w : World D.Db) → (get r D id w).1.db ≡ (D.get_item (record_key id) w.db).1
  unfolding get
  get_db id w = elim (Reply-cases (D.get_item (record_key id) w.db).0) [
    | inl (found, d) ↦ rw d (same found (record w { db = (D.get_item (record_key id) w.db).1 }))
    | inr (e, d) ↦ rw d refl
  ]
    where
      same : (found : Option Item) (u : World D.Db) → (get_found r D id found u).1.db ≡ u.db
      same none u = unfold get_found in refl
      same (some []) u = unfold get_found in refl
      same (some (b ∷ item)) u = unfold get_found in refl

  get-IsListed : (id : Text) (w : World D.Db) → IsListed w.db → IsListed (get r D id w).1.db
  get-IsListed id w v =
      let next_db = get_db id w in
      let now : IsPlaced (doc.contents (get r D id w).1.db) =
        rw (get-keeps r D doc id w) v.in_table in
      rw next_db (follow w.db _ (index.get_follows (record_key id) w.db) (rw (← next_db) now) v)

  list-IsListed :
      (owner_id : Text) (limit : ℕ) (cursor : Option Item) (w : World D.Db)
      → IsListed w.db
      → IsListed (list_by_owner r D owner_id limit cursor w).1.db
  list-IsListed owner_id limit cursor w v =
      let q = owner_query owner_id limit cursor in
      rw (list_by_owner_db r D owner_id limit cursor w)
        (follow w.db _ (index.query_follows q w.db) (rw (doc.query_keeps q w.db) v.in_table) v)

  module _ (id owner_id : Text) (read : Project) (w : World D.Db) where
    delete_db :
        ((delete_read r D id owner_id read w).1.db ≡ w.db)
        ⊎ ((delete_read r D id owner_id read w).1.db
            ≡ (D.transact_write_items (delete_writes r id owner_id read.name) w.db).1)
    unfolding delete_read delete_failed
    delete_db = elim (Bool-cases (read.owner_id == owner_id)) [
      | inr other ↦ inl (rw other refl)
      | inl same ↦
          elim (Reply-cases
            (D.transact_write_items (delete_writes r id owner_id read.name) w.db).0) [
              | inl (_, d) ↦ inr (rw same (rw d refl))
              | inr (e, d) ↦ inr (rw same (rw d (ground arith)))
            ]
    ]

    delete-IsListed : IsListed w.db → IsListed (delete_read r D id owner_id read w).1.db
    delete-IsListed v =
        let now : IsPlaced (doc.contents (delete_read r D id owner_id read w).1.db) =
          elim (delete_read_cases r D doc id owner_id read w) [
            | inl (_, _, e) ↦
                rw e (delete_writes-IsPlaced r (doc.contents w.db) id owner_id read.name v.in_table)
            | inr (_, e) ↦ rw e v.in_table
          ] in
        elim delete_db [
          | inl e ↦ rw e v
          | inr e ↦ rw e (
              follow w.db _ (index.transact_follows (delete_writes r id owner_id read.name) w.db)
                (rw (← e) now) v)
        ]

  module _ (id : Text) (from to : ProjectStatus) (extra : Item) (now : Text) (w : World D.Db) where
    transition_db :
        (transition D id from to extra now w).1.db
        ≡ (D.update_item
            (record_key id)
            (equals "status" (status_value from))
            (assignments to extra now)
            w.db).1
    unfolding transition transition_failed
    transition_db =
        elim (Reply-cases
          (D.update_item (record_key id) (equals "status" (status_value from))
            (assignments to extra now) w.db).0) [
              | inl (_, d) ↦ rw d refl
              | inr (e, d) ↦ rw d (ground arith)
            ]

    transition-IsListed :
        Untouched extra → IsListed w.db → IsListed (transition D id from to extra now w).1.db
    unfolding attribute
    transition-IsListed (_, _, owner, partition, sort_key, at) v =
        let sets = assignments to extra now in
        let placed : IsPlaced (doc.contents (transition D id from to extra now w).1.db) =
          elim (transition_cases D doc id from to extra now w) [
            | inr (_, e) ↦ rw e v.in_table
            | inl (_, (item, there, _, e)) ↦ rw e (
                update-IsPlaced (record_key id) sets item (doc.contents w.db)
                  (append-Placed sets item (attribute-append "ownerId" sets item owner)
                    (attribute-append "GSI1PK" sets item partition)
                    (attribute-append "GSI1SK" sets item sort_key)
                    (attribute-append "createdAt" sets item at)
                    (v.in_table.placed (record_key id) item there))
                  v.in_table)
          ] in
        rw transition_db (
          follow w.db _
            (index.update_follows (record_key id) (equals "status" (status_value from)) sets w.db)
            (rw (← transition_db) placed) v)

  Step-IsListed : {s t : World D.Db} → Step r D s t → IsListed s.db → IsListed t.db
  unfolding begin complete fail attribute
  Step-IsListed (create_step p w t) v = create-IsListed p w t v
  Step-IsListed (get_step id w) v = get-IsListed id w v
  Step-IsListed (list_step owner_id limit cursor w) v = list-IsListed owner_id limit cursor w v
  Step-IsListed (delete_step id owner_id read w) v = delete-IsListed id owner_id read w v
  Step-IsListed (begin_step id now w) v =
      transition-IsListed id _ _ [] now w (refl, refl, refl, refl, refl, refl) v
  Step-IsListed (complete_step id result now w) v =
      transition-IsListed id _ _ (endpoint_extra result.endpoint) now w
        (endpoint_extra-Untouched result.endpoint) v
  Step-IsListed (fail_step id reason now w) v =
      transition-IsListed id _ _ _ now w (refl, refl, refl, refl, refl, refl) v

  -- From such a start, after any such steps in any order, every item of the table and of the index
  -- with an index partition is in that of its owner and has the sort key of its time, if the index
  -- follows the table.
  pub Reach-IsListed : (s t : World D.Db) → IsListed s.db → Reach r D s t → IsListed t.db
  Reach-IsListed s t v here = v
  Reach-IsListed s t v (next {t = m} path step) = Step-IsListed step (Reach-IsListed s m v path)
