-- ===== src/Provisioner/Runs.antt =====
-- Every run of `record_handler` is a series of moves of the status machine: one rule for each way to
-- build an action, and `search` over them.
use projects_api.Common.{
  String, Text, ◌⊎◌, ◌≡◌, refl, Bool, true, false, Option, none, some, List, [], ◌∷◌, if◌then◌else◌,
}
use projects_api.Dynamo.{attribute, Item, Dynamo}
use projects_api.Dynamo.Behaviour.{Documented}
use projects_api.Domain.Exceptions.{Error, Result, ok, raise}
use projects_api.Domain.Models.{ProjectType, ProjectStatus, ready, failed}
use projects_api.World.{
  World, Exec, Level, LogValue, pure, throw, lift, continue, ◌>>=◌, add_metric, log,
}
use projects_api.Provisioner.{
  begin, complete, fail, endpoint_extra, StreamRecord, provision_failed, provision_succeeded,
  settle, run_provisioner, handle_image, handle_new_image, record_handler,
}
use projects_api.Provisioner.Provisioners.{Provisioner, ProvisionResult}
use projects_api.Provisioner.Moves.{
  begins, completes, fails, Untouched, Moves, still, Moves-trans, HasStatus, Later, Moves-Later,
  Moves-final,
}
use projects_api.Provisioner.Transition.{transition-Moves}

pub endpoint_extra-Untouched : (e : Option Text) → Untouched (endpoint_extra e)
unfolding attribute
endpoint_extra-Untouched none = (refl, refl, refl, refl, refl, refl)
endpoint_extra-Untouched (some []) = (refl, refl, refl, refl, refl, refl)
endpoint_extra-Untouched (some (c ∷ s)) = (refl, refl, refl, refl, refl, refl)

module _ (D : Dynamo) (doc : Documented D) where
  pub record Runs {A : Type 0} (m : Exec D.Db A) : Type 0 where
    pub at : (w : World D.Db) → Moves (doc.contents w.db) (doc.contents (m w).1.db)

  module _ {A : Type 0} where
    Runs-lift : (r : Result A) → Runs (lift r)
    Runs-lift r = record { at = λ w. still refl }

    Runs-throw : (e : Error) → Runs (throw {A = A} e)
    Runs-throw e = record { at = λ w. still refl }

    Runs-pure : (a : A) → Runs (pure a)
    Runs-pure a = record { at = λ w. still refl }

    Runs-if : (b : Bool) (m n : Exec D.Db A) → Runs m → Runs n → Runs (if b then m else n)
    Runs-if true m n km kn = km
    Runs-if false m n km kn = kn

  Runs-log :
      (level : Level) (message : String) (fields : List (String × LogValue))
      → Runs (log level message fields)
  Runs-log level message fields = record { at = λ w. still refl }

  Runs-add_metric : (name : String) → Runs (add_metric name)
  Runs-add_metric name = record { at = λ w. still refl }

  Runs-continue :
      {A B : Type 0} (r : Result A) (f : A → Exec D.Db B)
      → ((a : A) → Runs (f a))
      → Runs (continue r f)
  Runs-continue (ok a) f kf = kf a
  Runs-continue (raise e) f kf = Runs-throw e

  Runs-bind :
      {A B : Type 0} (m : Exec D.Db A) (f : A → Exec D.Db B)
      → Runs m
      → ((a : A) → Runs (f a))
      → Runs (m >>= f)
  unfolding ◌>>=◌
  Runs-bind m f km kf = record {
    at = λ w. Moves-trans (km.at w) ((Runs-continue (m w).0 f kf).at (m w).1);
  }

  ruleset runs_rules =
      (Runs-lift, Runs-throw, Runs-pure, Runs-if, Runs-log, Runs-add_metric, Runs-bind)

  pub begin-Runs : (id now : Text) → Runs (begin D id now)
  unfolding begin attribute
  begin-Runs id now = record {
    at = λ w. transition-Moves D doc id _ _ [] now w begins (refl, refl, refl, refl, refl, refl);
  }

  pub complete-Runs :
      (id : Text) (result : ProvisionResult) (now : Text) → Runs (complete D id result now)
  unfolding complete attribute
  complete-Runs id result now = record {
    at = λ w.
        transition-Moves D doc id _ _ (endpoint_extra result.endpoint) now w completes
          (endpoint_extra-Untouched result.endpoint);
  }

  pub fail-Runs : (id reason now : Text) → Runs (fail D id reason now)
  unfolding fail attribute
  fail-Runs id reason now = record {
    at = λ w. transition-Moves D doc id _ _ _ now w fails (refl, refl, refl, refl, refl, refl);
  }

  module _ (other_text : Text) (provision : ProjectType → Provisioner) (now later : Text) where
    provision_failed-Runs :
        (id : Text) (t : ProjectType) (exc : Error)
        → Runs (provision_failed D other_text provision now later id t exc)
    unfolding provision_failed
    provision_failed-Runs id t exc = search (runs_rules, fail-Runs)

    provision_succeeded-Runs :
        (id : Text) (t : ProjectType) (result : ProvisionResult)
        → Runs (provision_succeeded D other_text provision now later id t result)
    unfolding provision_succeeded
    provision_succeeded-Runs id t result = search (runs_rules, complete-Runs)

    settle-Runs :
        (id : Text) (t : ProjectType) (r : Result ProvisionResult)
        → Runs (settle D other_text provision now later id t r)
    settle-Runs id t (ok result) = provision_succeeded-Runs id t result
    settle-Runs id t (raise exc) = provision_failed-Runs id t exc

    run_provisioner-Runs :
        (id : Text) (t : ProjectType) (image : Item)
        → Runs (run_provisioner D other_text provision now later id t image)
    unfolding run_provisioner
    run_provisioner-Runs id t image = search (runs_rules, begin-Runs, settle-Runs)

    handle_image-Runs : (image : Item) → Runs (handle_image D other_text provision now later image)
    unfolding handle_image
    handle_image-Runs image = search (runs_rules, run_provisioner-Runs) depth 9

    handle_new_image-Runs :
        (image : Option Item) → Runs (handle_new_image D other_text provision now later image)
    handle_new_image-Runs none = search runs_rules
    handle_new_image-Runs (some []) = search runs_rules
    handle_new_image-Runs (some (b ∷ image)) = handle_image-Runs (b ∷ image)

    record_handler-Runs :
        (rec : StreamRecord) → Runs (record_handler D other_text provision now later rec)
    unfolding record_handler
    record_handler-Runs rec = search (runs_rules, handle_new_image-Runs)

    -- Whatever the record and the provisioner are and whatever the service answers, a run of
    -- `record_handler` changes the table only by moves of the status machine.
    pub record_handler-Moves :
        (rec : StreamRecord) (w : World D.Db)
        → Moves
            (doc.contents w.db)
            (doc.contents (record_handler D other_text provision now later rec w).1.db)
    record_handler-Moves rec w = (record_handler-Runs rec).at w

    -- A run of `record_handler`, whatever the record, takes the status of a project only forward: a
    -- status of the machine becomes an equal or a later one, and READY and FAILED stay.
    pub record_handler-Later :
        (rec : StreamRecord) (w : World D.Db) (id : Text) (a : ProjectStatus)
        → HasStatus (doc.contents w.db) id a
        → let end = doc.contents (record_handler D other_text provision now later rec w).1.db in
          ((b : ProjectStatus) × HasStatus end id b × Later a b)
          × ((a ≡ ready) ⊎ (a ≡ failed) → HasStatus end id a)
    record_handler-Later rec w id a h = (
      Moves-Later id a (record_handler-Moves rec w) h,
      λ f. Moves-final id a (record_handler-Moves rec w) f h,
    )
