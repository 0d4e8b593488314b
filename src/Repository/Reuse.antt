-- ===== src/Repository/Reuse.antt =====
-- What `delete` releases, `create` can take again.
use projects_api.Common.{
  Text, ◌==◌, ==_refl, sym, ap, ◌∙◌, ◌≡◌, subst, refl, true, Option, none, Bool, false,
  if◌then◌else◌,
}
use projects_api.Dynamo.{Item, Dynamo}
use projects_api.Dynamo.Behaviour.{Contents, Documented, IsServing, write_all}
use projects_api.Domain.Exceptions.{ok}
use projects_api.Domain.Validation.{name_key}
use projects_api.Domain.Models.{Project}
use projects_api.World.{World}
use projects_api.Repository.{create, delete_project, delete_writes, get}
use projects_api.Repository.Keys.{reservation_at}
use projects_api.Repository.Records.{Runtime, record_key}
use projects_api.Repository.Consistency.Writes.{delete-record, delete-reservation}
use projects_api.Repository.Delete.{delete-ok}
use projects_api.Repository.Answers.{create-returns}

removed : (a b : Text) (o : Option Item) → a ≡ b → (if a == b then none else o) ≡ none
removed a b o h = rw (h, ==_refl b) refl

still_none : (b : Bool) (o : Option Item) → o ≡ none → (if b then none else o) ≡ none
still_none true o h = refl
still_none false o h = h

module _ (r : Runtime) (D : Dynamo) (doc : Documented D) (project_id owner_id : Text)
    (project : Project) (w : World D.Db) where
  abbrev rest : World D.Db
  rest = (delete_project r D project_id owner_id w).1

  emptied :
      (delete_project r D project_id owner_id w).0 ≡ ok tt
      → (get r D project_id w).0 ≡ ok project
      → doc.contents rest.db
        ≡ write_all (delete_writes r project_id owner_id project.name) (doc.contents w.db)
  emptied deleted found =
      let (read, h, _, _, _, written) = delete-ok r D doc project_id owner_id w deleted in
      let same : read ≡ project = cc (h, found) in
      subst
        (λ (x : Project).
          doc.contents rest.db
          ≡ write_all (delete_writes r project_id owner_id x.name) (doc.contents w.db))
        same written

  -- After a call of `delete` that returns, for the project that it read, the record is gone, and
  -- where the service answers transactions by their conditions, `create` returns for a project
  -- whose name has the released key and whose id was not in the table.
  pub create-delete :
      (q : Project)
      → IsServing D doc
      → (delete_project r D project_id owner_id w).0 ≡ ok tt
      → (get r D project_id w).0 ≡ ok project
      → name_key r.unicode q.name ≡ name_key r.unicode project.name
      → doc.contents w.db (record_key q.project_id) ≡ none
      → (doc.contents rest.db (record_key project_id) ≡ none) × ((create r D q rest).0 ≡ ok q)
  create-delete q up deleted found same fresh =
      let writes = emptied deleted found in
      (
        ap (λ (c : Contents). c (record_key project_id)) writes
            ∙ delete-record r (doc.contents w.db) project_id owner_id project.name project_id
            ∙ removed _ _ _ refl,
        create-returns r D doc up q rest
            (ap (λ (c : Contents). c (reservation_at (name_key r.unicode q.name))) writes
              ∙ delete-reservation r (doc.contents w.db) project_id owner_id project.name
                  (name_key r.unicode q.name)
              ∙ removed _ _ _ (sym same))
            (ap (λ (c : Contents). c (record_key q.project_id)) writes
              ∙ delete-record r (doc.contents w.db) project_id owner_id project.name q.project_id
              ∙ still_none _ _ fresh),
      )
