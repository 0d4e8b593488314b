-- ===== src/Repository.antt =====
-- src/projects_api/repositories/projects.py: the methods of `ProjectRepository`. The client of a
-- repository is bound to the table that its settings name.
pub mod Records
pub mod Keys
pub mod Consistency
pub mod Create
pub mod Refusals
pub mod Answers
pub mod Reading
pub mod Transacted
pub mod Delete
pub mod Stored
pub mod Owners
pub mod Reuse
pub mod Index
pub mod Listing
pub mod Order
use text.Mathlib.Text.{find?}
use projects_api.Common.{
  ℕ, zero, suc, String, Text, lit, ◌==◌, Bool, true, false, not, ◌&&◌, ◌||◌, Option, none, some,
  List, [], ◌∷◌, str_eq, if◌then◌else◌,
}
use projects_api.Dynamo.{
  Item, Key, attribute_not_exists, attribute_exists, equals, both, Write, put, delete, ClientError,
  Page, Dynamo,
}
use projects_api.Domain.Exceptions.{
  Error, project_name_taken, project_not_found, invalid_cursor, client_error, Result, ok, raise,
}
use projects_api.Domain.Validation.{name_key}
use projects_api.Domain.Models.{Project}
use projects_api.World.{
  World, Exec, error, str, pure, throw, lift, ◌>>=◌, ◌>>◌, send, catch_client, log,
}
use Records.{
  Runtime, record_key, reservation_key, owner_gsi1pk, gsi1_name, project_gsi1sk_prefix,
  project_item, reservation_item, to_project,
}

-- `code == text`, where the code may be missing
abbrev pub is_code : Option String → String → Bool
is_code none text = false
is_code (some code) text = str_eq code text

-- `part in s`
abbrev pub contains : String → String → Bool
contains s part = elim (find? s part) [ none ↦ false | some _ ↦ true ]

-- The code of an entry of a list of cancellation reasons, `none` out of range.
abbrev pub reason : ℕ → List (Option String) → Option String
reason i [] = none
reason zero (r ∷ rs) = r
reason (suc i) (r ∷ rs) = reason i rs

abbrev pub is_empty : List (Option String) → Bool
is_empty [] = true
is_empty (_ ∷ _) = false

abbrev pub is_cancelled : ClientError → Bool
is_cancelled exc = is_code exc.code "TransactionCanceledException"

module _ (r : Runtime) where
  -- The `TransactItems` of `create` and of `delete`.
  unfoldable pub create_writes : Project → List Write
  create_writes project =
      put (reservation_item r.unicode project) (attribute_not_exists "PK")
      ∷ put (project_item r.unicode project) (attribute_not_exists "PK")
      ∷ []

  unfoldable pub delete_writes :
      (project_id : Text) → (owner_id : Text) → (name : Text) → List Write
  delete_writes project_id owner_id name =
      delete (record_key project_id) (both (attribute_exists "PK") (equals "ownerId" owner_id))
      ∷ delete (reservation_key r.unicode name) (equals "projectId" project_id)
      ∷ []

-- The exception that the `except` block of `create` raises. The first reason is that of the name
-- reservation.
unfoldable pub create_error : Project → ClientError → Error
create_error project exc =
    if is_cancelled exc
    then (if not (is_empty exc.reasons) && is_code (reason 0 exc.reasons) "ConditionalCheckFailed"
        then project_name_taken project.name
        else if is_empty exc.reasons && contains exc.message "ConditionalCheckFailed"
        then project_name_taken project.name
        else client_error exc)
    else client_error exc

-- A list whose head raises before its tail.
abbrev pub joined : Result Project → Result (List Project) → Result (List Project)
joined (ok project) (ok rest) = ok (project ∷ rest)
joined (ok project) (raise e) = raise e
joined (raise e) rest = raise e

module _ (r : Runtime) (D : Dynamo) where
  unfoldable pub create : Project → Exec D.Db Project
  unfolding create_writes create_error ◌>>=◌
  create project = do
    catch_client (send (D.transact_write_items (create_writes r project)))
        (λ exc. throw (create_error project exc))
    pure project

  -- `item = response.get("Item")` and what follows it; an empty item counts as none.
  unfoldable pub get_found : Text → Option Item → Exec D.Db Project
  get_found project_id none = throw (project_not_found project_id)
  get_found project_id (some []) = throw (project_not_found project_id)
  get_found project_id (some (b ∷ item)) = lift (to_project r (b ∷ item))

  unfoldable pub get : Text → Exec D.Db Project
  unfolding get_found ◌>>=◌
  get project_id = do found ← send (D.get_item (record_key project_id)); get_found project_id found

  -- The `except` block of `delete`.
  unfoldable pub delete_failed : Text → Text → ClientError → Exec D.Db Unit
  unfolding ◌>>=◌
  delete_failed project_id name exc =
      if is_cancelled exc
      then (if is_code (reason 0 exc.reasons) "ConditionalCheckFailed"
          then throw (project_not_found project_id)
          else if is_code (reason 1 exc.reasons) "ConditionalCheckFailed"
          then (do
            log error "name reservation does not point at the project being deleted" (
                ("project_id", str project_id)
                ∷ ("record_key", str (record_key project_id).pk)
                ∷ ("reservation_key", str (reservation_key r.unicode name).pk)
                ∷ [])
            throw (client_error exc))
          else throw (client_error exc))
      else throw (client_error exc)

  -- The transaction of `delete` and what follows it.
  unfoldable pub delete_read : Text → Text → Project → Exec D.Db Unit
  unfolding delete_writes delete_failed
  delete_read project_id owner_id project =
      if not (project.owner_id == owner_id)
      then throw (project_not_found project_id)
      else catch_client
          (send (D.transact_write_items (delete_writes r project_id owner_id project.name)))
          (delete_failed project_id project.name)

  unfoldable pub delete_project : (project_id : Text) → (owner_id : Text) → Exec D.Db Unit
  unfolding ◌>>=◌
  delete_project project_id owner_id = do
    project ← get project_id
    delete_read project_id owner_id project

  unfoldable pub to_projects : List Item → Result (List Project)
  to_projects [] = ok []
  to_projects (item ∷ items) = joined (to_project r item) (to_projects items)

  -- The `except` block of `list_by_owner`.
  unfoldable pub query_failed : Option Item → ClientError → Exec D.Db Page
  query_failed none exc = throw (client_error exc)
  query_failed (some _) exc =
      if is_code exc.code "ValidationException"
      then throw invalid_cursor
      else throw (client_error exc)

  unfoldable pub list_by_owner :
      (owner_id : Text)
      → (limit : ℕ) → (cursor : Option Item) → Exec D.Db (List Project × Option Item)
  unfolding query_failed to_projects ◌>>=◌
  list_by_owner owner_id limit cursor = do
    response ←
        catch_client
          (send (
            D.query (record {
              index_name = gsi1_name;
              partition = owner_gsi1pk owner_id;
              prefix = project_gsi1sk_prefix;
              scan_index_forward = false;
              limit = limit;
              start = cursor;
            })))
          (query_failed cursor)
    items ← lift (to_projects response.items)
    pure (items, response.last_key)
