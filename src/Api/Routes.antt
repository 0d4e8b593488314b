-- ===== src/Api/Routes.antt =====
-- src/projects_api/api/routes: the routes.
pub mod Ownership
pub mod Listing
use projects_api.Common.{
  Text, lit, ◌==◌, Bool, true, false, not, List, [], ◌∷◌, ◌++◌, if◌then◌else◌, ℕ, Option, none,
  some, length,
}
use projects_api.Dynamo.{Item, Dynamo}
use projects_api.Dynamo.Behaviour.{is_some}
use projects_api.Domain.Exceptions.{Error, project_not_found, Result, ok, raise}
use projects_api.Domain.Models.{
  Project, ProjectType, Datetime, type_value, new_project, is_valid_project_id,
}
use projects_api.World.{
  World, Exec, debug, info, str, number, flag, pure, lift, throw, ◌>>=◌, ◌>>◌, add_metric, log,
}
use projects_api.Repository
use projects_api.Repository.Records.{Runtime}
use projects_api.Json.{Json}
use projects_api.Api.Pagination.{Decoder, encode_cursor, decode_cursor}

-- The cursor of a `nextToken`, where there is one, and the other way.
abbrev pub some_key : Result Item → Result (Option Item)
some_key (ok key) = ok (some key)
some_key (raise e) = raise e

abbrev pub cursor_of :
    Decoder → (next_token : Option Text) → (owner_id : Text) → Result (Option Item)
cursor_of decode none owner_id = ok none
cursor_of decode (some token) owner_id = some_key (decode_cursor decode token owner_id)

abbrev pub token_of : Json → (last_key : Option Item) → Option Text
token_of unknown none = none
token_of unknown (some key) = some (encode_cursor unknown key)

module _ (r : Runtime) (D : Dynamo) where
  -- `create_project`, with the `Location` header; `name` and `type` are those of the validated body.
  unfoldable pub create_project :
      (name : Text)
      → ProjectType
      → (owner_id : Text) → (now : Datetime) → (hex : Text) → Exec D.Db (Project × Text)
  unfolding ◌>>=◌ lit
  create_project name type_ owner_id now hex = do
    let project = new_project name type_ owner_id now hex
    Repository.create r D project
    add_metric "ProjectsCreated"
    log info "project created"
        (("project_id", str project.project_id) ∷ ("type", str (type_value project.type)) ∷ [])
    pure (project, lit "/v1/projects/" ++ project.project_id)

  -- `get_project` after its `repo.get`
  unfoldable pub owned : (project_id : Text) → (owner_id : Text) → Project → Exec D.Db Project
  owned project_id owner_id project =
      if not (project.owner_id == owner_id)
      then throw (project_not_found project_id)
      else pure project

  unfoldable pub get_project : (project_id : Text) → (owner_id : Text) → Exec D.Db Project
  unfolding ◌>>=◌ owned
  get_project project_id owner_id =
      if not (is_valid_project_id project_id)
      then throw (project_not_found project_id)
      else (do project ← Repository.get r D project_id; owned project_id owner_id project)

  -- `delete_project`; the response is 204 with no body.
  unfoldable pub delete_project : (project_id : Text) → (owner_id : Text) → Exec D.Db Unit
  unfolding ◌>>=◌
  delete_project project_id owner_id =
      if not (is_valid_project_id project_id) then throw (project_not_found project_id) else (do
        Repository.delete_project r D project_id owner_id
        add_metric "ProjectsDeleted"
        log info "project deleted" (("project_id", str project_id) ∷ []))

  -- `list_projects`; FastAPI has checked that `limit` is from 1 to 100.
  unfoldable pub list_projects :
      Decoder
      → (unknown : Json) → (owner_id : Text) → (limit : ℕ) → (next_token : Option Text)
      → Exec D.Db (List Project × Option Text)
  unfolding ◌>>=◌
  list_projects decode unknown owner_id limit next_token = do
    cursor ← lift (cursor_of decode next_token owner_id)
    page ← Repository.list_by_owner r D owner_id limit cursor
    log debug "projects listed"
        (("count", number (length page.0)) ∷ ("has_more", flag (is_some page.1)) ∷ [])
    pure (page.0, token_of unknown page.1)
