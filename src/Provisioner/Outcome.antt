-- ===== src/Provisioner/Outcome.antt =====
-- What `record_handler` makes of the record of a new project, where the service is up.
use projects_api.Common.{
  Text, lit, ◌==◌, ==_refl, ==_ne, sym, subst, ap, ◌∙◌, ◌≡◌, ◌≢◌, inl, inr, refl, true, false,
  Option, none, some, [], ◌∷◌, ◌++◌,
}
use projects_api.Dynamo.{text, other, Attribute, attribute, Item, Dynamo, equals}
use projects_api.Dynamo.Behaviour.{Contents, Documented, IsUp, meets, attribute_of, is_text}
use projects_api.Domain.Exceptions.{str, Result, ok, raise}
use projects_api.Domain.Validation.{Unicode}
use projects_api.Domain.Models.{
  Project, ProjectType, ProjectStatus, created, provisioning, ready, failed, status_value,
  type_value,
}
use projects_api.Domain.Models.Ids.{type_of_value-type_value}
use projects_api.World as Worlds
use projects_api.World.{World, Exec, exception, pure, throw, lift, continue, ◌>>=◌, add_metric, log}
use projects_api.Repository.Records.{record_key, project_item}
use projects_api.Provisioner.{
  transition, transition_failed, begin, complete, fail, endpoint_extra, StreamRecord,
  provision_failed, provision_succeeded, settle, run_provisioner, handle_image, record_handler,
  str_field,
}
use projects_api.Provisioner.Provisioners.{Provisioner, ProvisionRequest, ProvisionResult}
use projects_api.Provisioner.Moves.{HasStatus, status_of}
use projects_api.Provisioner.Transition.{transition_cases, assignments}
use projects_api.Repository.Consistency.Writes.{assign-record}

meets_status :
    (c : Contents) (id : Text) (s : ProjectStatus)
    → HasStatus c id s
    → meets (equals "status" (status_value s)) (c (record_key id)) ≡ true
unfolding meets
meets_status c id s h = rw h (==_refl (status_value s))

misses_status :
    (c : Contents) (id : Text) (s : ProjectStatus)
    → ¬ HasStatus c id s
    → meets (equals "status" (status_value s)) (c (record_key id)) ≡ false
unfolding meets
misses_status c id s h = other_text (status_of c id) h
  where
    other_text :
        (o : Option Attribute)
        → o ≢ some (text (status_value s))
        → is_text (status_value s) o ≡ false
    other_text none n = refl
    other_text (some (text t)) n =
        ==_ne t (status_value s) (λ e. n (ap (λ (x : Text). some (text x)) e))
    other_text (some other) n = refl

assigned_status :
    (to : ProjectStatus) (extra : Item) (now : Text) (item : Item)
    → attribute_of "status" (some (assignments to extra now ++ item))
      ≡ some (text (status_value to))
unfolding attribute_of attribute
assigned_status to extra now item = refl

-- READY after a result, FAILED after an exception.
abbrev pub outcome : Result ProvisionResult → ProjectStatus
outcome (ok _) = ready
outcome (raise _) = failed

-- What the provisioner is asked for a project.
abbrev pub request_of : Project → ProvisionRequest
request_of p = record {
  project_id = p.project_id;
  name = p.name;
  type = p.type;
  owner_id = p.owner_id;
}

-- The stream record of the item that `create` has written for a project.
abbrev pub insert_of : Unicode → Project → StreamRecord
insert_of u p = record { event_name = some (lit "INSERT"); new_image = some (project_item u p) }

module _ (D : Dynamo) (doc : Documented D) (up : IsUp D doc) where
  module _ (id : Text) (from to : ProjectStatus) (extra : Item) (now : Text) (w : World D.Db) where
    abbrev stepped : Contents
    stepped = doc.contents (transition D id from to extra now w).1.db

    transition_of_met :
        HasStatus (doc.contents w.db) id from → (transition D id from to extra now w).0 ≡ ok true
    unfolding transition
    transition_of_met h =
        rw
          (up.update_answers (record_key id) (equals "status" (status_value from))
            (assignments to extra now) w.db (meets_status (doc.contents w.db) id from h))
          refl

    transition_of_missed :
        ¬ HasStatus (doc.contents w.db) id from → (transition D id from to extra now w).0 ≡ ok false
    unfolding transition transition_failed
    transition_of_missed h =
        let (e, d, code) =
          up.update_refuses (record_key id) (equals "status" (status_value from))
            (assignments to extra now) w.db (misses_status (doc.contents w.db) id from h) in
        rw d (rw code refl)

    transition_met :
        HasStatus (doc.contents w.db) id from
        → ((transition D id from to extra now w).0 ≡ ok true) × HasStatus stepped id to
    transition_met h = elim (transition_cases D doc id from to extra now w) [
      | inl (_, (item, there, _, written)) ↦
          let stands =
            ap (λ (c : Contents). c (record_key id)) written
            ∙ assign-record (doc.contents w.db) id (some (assignments to extra now ++ item)) id in
          (
            transition_of_met h,
            ap (attribute_of "status") (rw (==_refl id) at stands)
                ∙ assigned_status to extra now item,
          )
      | inr (never, _) ↦ absurd (never (transition_of_met h))
    ]

    transition_missed :
        ¬ HasStatus (doc.contents w.db) id from
        → ((transition D id from to extra now w).0 ≡ ok false) × (stepped ≡ doc.contents w.db)
    transition_missed h = elim (transition_cases D doc id from to extra now w) [
      | inl (never, _) ↦ absurd (never (transition_of_missed h))
      | inr (_, kept) ↦ (transition_of_missed h, kept)
    ]

  complete_met :
      (id : Text) (result : ProvisionResult) (now : Text) (w : World D.Db)
      → HasStatus (doc.contents w.db) id provisioning
      → ((complete D id result now w).0 ≡ ok true)
        × HasStatus (doc.contents (complete D id result now w).1.db) id ready
  unfolding complete
  complete_met id result now w =
      transition_met id provisioning ready (endpoint_extra result.endpoint) now w

  fail_met :
      (id reason now : Text) (w : World D.Db)
      → HasStatus (doc.contents w.db) id provisioning
      → ((fail D id reason now w).0 ≡ ok true)
        × HasStatus (doc.contents (fail D id reason now w).1.db) id failed
  unfolding fail
  fail_met id reason now w = transition_met id provisioning failed _ now w

  begin_met :
      (id now : Text) (w : World D.Db)
      → HasStatus (doc.contents w.db) id created
      → ((begin D id now w).0 ≡ ok true)
        × HasStatus (doc.contents (begin D id now w).1.db) id provisioning
  unfolding begin
  begin_met id now w = transition_met id created provisioning [] now w

  begin_missed :
      (id now : Text) (w : World D.Db)
      → ¬ HasStatus (doc.contents w.db) id created
      → ((begin D id now w).0 ≡ ok false)
        × (doc.contents (begin D id now w).1.db ≡ doc.contents w.db)
  unfolding begin
  begin_missed id now w = transition_missed id created provisioning [] now w

  module _ (other_text : Text) (provision : ProjectType → Provisioner) (now later : Text) where
    settle-outcome :
        (id : Text) (t : ProjectType) (r : Result ProvisionResult) (w : World D.Db)
        → HasStatus (doc.contents w.db) id provisioning
        → ((settle D other_text provision now later id t r w).0 ≡ ok tt)
          × HasStatus
              (doc.contents (settle D other_text provision now later id t r w).1.db)
              id
              (outcome r)
    unfolding provision_succeeded provision_failed ◌>>=◌
    settle-outcome id t (ok result) w h =
        let (returned, now_ready) = complete_met id result later w h in
        (rw (◌>>=◌, returned) refl, rw (◌>>=◌, returned) now_ready)
    settle-outcome id t (raise exc) w h =
        let v =
          ((log exception "provisioning failed"
                (("project_id", Worlds.str id) ∷ ("type", Worlds.str (type_value t)) ∷ [])
              >>= λ _. add_metric "ProjectsProvisioningFailed")
            w).1 in
        let (returned, now_failed) = fail_met id (str exc) later v h in
        (rw (◌>>=◌, returned) refl, rw (◌>>=◌, returned) now_failed)

    abbrev handled : Unicode → Project → World D.Db → Result Unit × World D.Db
    handled u p w = record_handler D other_text provision now later (insert_of u p) w

    -- The handler accepts what `create` has written.
    handler_accepts :
        (u : Unicode) (p : Project) (w : World D.Db)
        → p.status ≡ created
        → handled u p w
          ≡ run_provisioner D other_text provision now later p.project_id p.type
              (project_item u p)
              w
    unfolding record_handler handle_image project_item str_field attribute ◌>>=◌
    handler_accepts u p w fresh =
        let is_new =
          subst (λ s. (status_value s == status_value created) ≡ true) (sym fresh)
            (==_refl (status_value created)) in
        rw (is_new, ◌>>=◌, type_of_value-type_value) refl

    run-outcome :
        (u : Unicode) (p : Project) (w : World D.Db)
        → HasStatus (doc.contents w.db) p.project_id created
        → let end =
            run_provisioner D other_text provision now later p.project_id p.type
              (project_item u p)
              w in
          (end.0 ≡ ok tt)
          × HasStatus
              (doc.contents end.1.db)
              p.project_id
              (outcome (provision p.type (request_of p)))
    unfolding run_provisioner str_field project_item attribute ◌>>=◌
    run-outcome u p w h =
        let (returned, begun) = begin_met p.project_id now w h in
        let (fine, status) =
          settle-outcome p.project_id p.type (provision p.type (request_of p))
            (begin D p.project_id now w).1 begun in
        (rw (returned, ◌>>=◌) fine, rw (returned, ◌>>=◌) status)

    -- Where the service answers updates, the record of a new project whose item has the status
    -- CREATED: the handler returns, and the project is READY if its provisioner returned and FAILED
    -- if it raised.
    pub record_handler-outcome :
        (u : Unicode) (p : Project) (w : World D.Db)
        → p.status ≡ created
        → HasStatus (doc.contents w.db) p.project_id created
        → ((handled u p w).0 ≡ ok tt)
          × HasStatus
              (doc.contents (handled u p w).1.db)
              p.project_id
              (outcome (provision p.type (request_of p)))
    record_handler-outcome u p w fresh h = rw (handler_accepts u p w fresh) (run-outcome u p w h)

    run-replay :
        (u : Unicode) (p : Project) (w : World D.Db)
        → ¬ HasStatus (doc.contents w.db) p.project_id created
        → let end =
            run_provisioner D other_text provision now later p.project_id p.type
              (project_item u p)
              w in
          (end.0 ≡ ok tt) × (doc.contents end.1.db ≡ doc.contents w.db)
    unfolding run_provisioner ◌>>=◌
    run-replay u p w h =
        let (returned, kept) = begin_missed p.project_id now w h in
        (rw (returned, ◌>>=◌) refl, rw (returned, ◌>>=◌) kept)

    -- Where the service answers updates, a replay of the record of a project whose item no longer
    -- has the status CREATED, or is gone: the handler returns and changes nothing.
    pub record_handler-replay :
        (u : Unicode) (p : Project) (w : World D.Db)
        → p.status ≡ created
        → ¬ HasStatus (doc.contents w.db) p.project_id created
        → ((handled u p w).0 ≡ ok tt) × (doc.contents (handled u p w).1.db ≡ doc.contents w.db)
    record_handler-replay u p w fresh h = rw (handler_accepts u p w fresh) (run-replay u p w h)
