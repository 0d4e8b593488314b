-- ===== src/System.antt =====
-- Requests and stream records as steps on one table, in any order. A step makes at most one write
-- request, so that a sequence of steps is any interleaving of `create`, `get`, `list_by_owner`, `delete` and
-- `record_handler` in any number of processes: a `delete` may act on a project that it read long ago.
-- A project that is created has a time in whole seconds, as `Project.new` makes it.
pub mod Listed
use projects_api.Common.{ℕ, Text, ◌≡◌, Option}
use projects_api.Dynamo.{Item, Dynamo}
use projects_api.Dynamo.Behaviour.{Documented}
use projects_api.Domain.Validation.{name_key}
use projects_api.Domain.Models.{Project}
use projects_api.Domain.Models.Times.{IsWhole}
use projects_api.World.{World}
use projects_api.Repository.{create, get, list_by_owner, delete_read}
use projects_api.Repository.Listing.{owner_query, list_by_owner_db}
use projects_api.Repository.Records.{Runtime}
use projects_api.Repository.Consistency.{IsConsistent, Named, names_unique}
use projects_api.Repository.Create.{create-keeps}
use projects_api.Repository.Transacted.{get-keeps, delete_read-keeps}
use projects_api.Provisioner.{begin, complete, fail}
use projects_api.Provisioner.Provisioners.{ProvisionResult}
use projects_api.Provisioner.Moves.{Moves-IsConsistent}
use projects_api.Provisioner.Runs.{begin-Runs, complete-Runs, fail-Runs}

module _ (r : Runtime) (D : Dynamo) where
  pub data Step : World D.Db → World D.Db → Type 0 where
    create_step : (p : Project) (w : World D.Db) → IsWhole p.created_at → Step w (create r D p w).1
    get_step : (id : Text) (w : World D.Db) → Step w (get r D id w).1
    list_step :
        (owner_id : Text) (limit : ℕ) (cursor : Option Item) (w : World D.Db)
        → Step w (list_by_owner r D owner_id limit cursor w).1
    delete_step :
        (id owner_id : Text) (read : Project) (w : World D.Db)
        → Step w (delete_read r D id owner_id read w).1
    begin_step : (id now : Text) (w : World D.Db) → Step w (begin D id now w).1
    complete_step :
        (id : Text) (result : ProvisionResult) (now : Text) (w : World D.Db)
        → Step w (complete D id result now w).1
    fail_step : (id reason now : Text) (w : World D.Db) → Step w (fail D id reason now w).1

  pub data Reach (s : World D.Db) : World D.Db → Type 0 where
    here : Reach s s
    next : {t u : World D.Db} → Reach s t → Step t u → Reach s u

  module _ (doc : Documented D) where
    Step-IsConsistent :
        {t u : World D.Db}
        → Step t u
        → IsConsistent r.unicode (doc.contents t.db)
        → IsConsistent r.unicode (doc.contents u.db)
    Step-IsConsistent (create_step p w _) v = create-keeps r D doc p w v
    Step-IsConsistent (get_step id w) v = rw (get-keeps r D doc id w) v
    Step-IsConsistent (list_step owner_id limit cursor w) v =
        rw
          (
            list_by_owner_db r D owner_id limit cursor w,
            doc.query_keeps (owner_query owner_id limit cursor) w.db,
          )
          v
    Step-IsConsistent (delete_step id owner_id read w) v =
        delete_read-keeps r D doc id owner_id read w v
    Step-IsConsistent (begin_step id now w) v =
        Moves-IsConsistent r.unicode ((begin-Runs D doc id now).at w) v
    Step-IsConsistent (complete_step id result now w) v =
        Moves-IsConsistent r.unicode ((complete-Runs D doc id result now).at w) v
    Step-IsConsistent (fail_step id reason now w) v =
        Moves-IsConsistent r.unicode ((fail-Runs D doc id reason now).at w) v

    -- From a consistent table, after any steps of any requests in any order (a create of a project
    -- with a time in whole seconds, the two halves of a delete with other steps between them, a
    -- status transition), every project holds the reservation of its name and every reservation is
    -- held by a project of that name.
    pub Reach-IsConsistent :
        (s t : World D.Db)
        → IsConsistent r.unicode (doc.contents s.db)
        → Reach s t
        → IsConsistent r.unicode (doc.contents t.db)
    Reach-IsConsistent s t v here = v
    Reach-IsConsistent s t v (next {t = m} path step) =
        Step-IsConsistent step (Reach-IsConsistent s m v path)

    -- From a consistent table, after any such steps in any order, no two projects have names with
    -- one key: names stay unique up to case and whitespace.
    pub Reach-names_unique :
        (s t : World D.Db)
        → IsConsistent r.unicode (doc.contents s.db)
        → Reach s t
        → (a b m n : Text) → Named (doc.contents t.db) a m
        → Named (doc.contents t.db) b n
        → name_key r.unicode m ≡ name_key r.unicode n
        → a ≡ b
    Reach-names_unique s t v path = names_unique r.unicode (Reach-IsConsistent s t v path)
