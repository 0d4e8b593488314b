-- ===== src/Provisioner.antt =====
-- src/projects_provisioner/handler.py: the status store and the handler of one stream record.
pub mod Provisioners
pub mod Moves
pub mod Transition
pub mod Runs
pub mod Outcome
use projects_api.Common.{
  ℕ, String, Text, lit, ◌==◌, Bool, true, false, not, ◌&&◌, ◌||◌, Option, none, some, List, [], ◌∷◌,
  ◌++◌, take, if◌then◌else◌,
}
use projects_api.Dynamo.{Attribute, text, Item, attribute, equals, ClientError, Dynamo}
use projects_api.Dynamo
use projects_api.Domain.Exceptions
use projects_api.Domain.Exceptions.{Error, client_error, value_error, key_error, Result, ok, raise}
use projects_api.Domain.Models.{
  ProjectType, ProjectStatus, created, provisioning, ready, failed, type_value, type_of_value,
  status_value,
}
use projects_api.World as Worlds
use projects_api.World.{
  World, Exec, debug, info, warning, LogValue, nothing, other, str, dict, pure, throw, lift,
  continue, ◌>>=◌, ◌>>◌, send, catch_client, add_metric, log,
}
use projects_api.Repository.{is_code}
use projects_api.Repository.Records.{record_key}
use Provisioners.{ProvisionRequest, ProvisionResult, Provisioner}

abbrev pub max_failure_reason_length : ℕ
max_failure_reason_length = 500

-- `s or default`
abbrev pub text_or : Text → Text → Text
text_or [] default = default
text_or (c ∷ s) default = c ∷ s

-- A record of the stream: `eventName`, and `dynamodb.NewImage` with its values deserialised.
pub record StreamRecord : Type 0 where
  pub event_name : Option Text
  pub new_image : Option Item

-- `extra` of `complete`: an empty endpoint counts as none.
abbrev pub endpoint_extra : Option Text → Item
endpoint_extra none = []
endpoint_extra (some []) = []
endpoint_extra (some (c ∷ s)) = ("endpoint", text (c ∷ s)) ∷ []

-- `reason[:MAX_FAILURE_REASON_LENGTH] or "unknown error"`
unfoldable pub failure_reason : Text → Text
unfolding lit
failure_reason reason = text_or (take max_failure_reason_length reason) (lit "unknown error")

-- The value of a log keyword.
abbrev pub log_value : Option Attribute → LogValue
log_value none = nothing
log_value (some (text t)) = str t
log_value (some Dynamo.other) = other

abbrev pub log_text : Option Text → LogValue
log_text none = nothing
log_text (some t) = str t

-- `ProjectStatusStore`. The times are what `_now()` gives.
module _ (D : Dynamo) where
  -- The `except` block of `_transition`.
  unfoldable pub transition_failed : ClientError → Exec D.Db Bool
  transition_failed exc =
      if is_code exc.code "ConditionalCheckFailedException"
      then pure false
      else throw (client_error exc)

  -- The assignments have the expression's placeholders put in.
  unfoldable pub transition : Text → ProjectStatus → ProjectStatus → Item → Text → Exec D.Db Bool
  unfolding transition_failed ◌>>=◌
  transition project_id expected target extra now =
      catch_client
        (do
          send (
              D.update_item (record_key project_id) (equals "status" (status_value expected))
                (("status", text (status_value target)) ∷ ("updatedAt", text now) ∷ extra))
          pure true)
        transition_failed

  unfoldable pub begin : Text → Text → Exec D.Db Bool
  begin project_id now = transition project_id created provisioning [] now

  unfoldable pub complete : Text → ProvisionResult → Text → Exec D.Db Bool
  complete project_id result now =
      transition project_id provisioning ready (endpoint_extra result.endpoint) now

  unfoldable pub fail : Text → Text → Text → Exec D.Db Bool
  unfolding failure_reason
  fail project_id reason now =
      transition project_id provisioning failed
        (("failureReason", text (failure_reason reason)) ∷ []) now

-- `event_name != "INSERT"`, where the name may be missing
abbrev pub is_text : Option Text → Text → Bool
is_text none t = false
is_text (some s) t = s == t

abbrev pub is_attribute : Option Attribute → Text → Bool
is_attribute none t = false
is_attribute (some (text s)) t = s == t
is_attribute (some Dynamo.other) t = false

-- `str(image[name])`; `other_text` stands for the text of a value that is no `str`.
abbrev pub str_value : Text → String → Option Attribute → Result Text
str_value other_text name none = raise (key_error name)
str_value other_text name (some (text t)) = ok t
str_value other_text name (some Dynamo.other) = ok other_text

unfoldable pub str_field : Text → String → Item → Result Text
unfolding attribute
str_field other_text name image = str_value other_text name (attribute name image)

-- `ProjectType(value)`
abbrev pub type_or_raise : Option ProjectType → Result ProjectType
type_or_raise none = raise (value_error "not a valid ProjectType")
type_or_raise (some t) = ok t

-- `record_handler`. `other_text` is `str` of a deserialised value that is no `str`, `provision` is
-- `PROVISIONERS[type].provision`, and `now` and `later` are the times of the two transitions.
module _ (D : Dynamo) (other_text : Text) (provision : ProjectType → Provisioner)
    (now later : Text) where
  -- From the `except` block on: record FAILED.
  unfoldable pub provision_failed : Text → ProjectType → Error → Exec D.Db Unit
  unfolding fail lit
  provision_failed project_id project_type exc = do
    log Worlds.exception "provisioning failed"
        (("project_id", str project_id) ∷ ("type", str (type_value project_type)) ∷ [])
    add_metric "ProjectsProvisioningFailed"
    recorded ← fail D project_id (Exceptions.str exc) later
    if recorded
        then pure tt
        else log warning "status changed during provisioning; FAILED not recorded"
            (("project_id", str project_id) ∷ [])

  -- After the `try`: record READY.
  unfoldable pub provision_succeeded : Text → ProjectType → ProvisionResult → Exec D.Db Unit
  unfolding complete
  provision_succeeded project_id project_type result = do
    recorded ← complete D project_id result later
    if recorded
        then (do
          add_metric "ProjectsProvisioned"
          log info "project provisioned" (
              ("project_id", str project_id)
              ∷ ("type", str (type_value project_type))
              ∷ ("endpoint", log_text result.endpoint)
              ∷ ("details", dict result.details)
              ∷ []))
        else log warning "status changed during provisioning; READY not recorded"
            (("project_id", str project_id) ∷ [])

  abbrev pub settle : Text → ProjectType → Result ProvisionResult → Exec D.Db Unit
  settle project_id project_type (raise exc) = provision_failed project_id project_type exc
  settle project_id project_type (ok result) = provision_succeeded project_id project_type result

  -- From `store.begin` on.
  unfoldable pub run_provisioner : Text → ProjectType → Item → Exec D.Db Unit
  unfolding begin str_field provision_failed provision_succeeded
  run_provisioner project_id project_type image = do
    begun ← begin D project_id now
    if not begun
        then log info "project already handled; skipping" (("project_id", str project_id) ∷ [])
        else (do
          name ← lift (str_field other_text "name" image)
          owner_id ← lift (str_field other_text "ownerId" image)
          settle project_id project_type (
              provision project_type (record {
                project_id = project_id;
                name = name;
                type = project_type;
                owner_id = owner_id;
              })))

  -- The tests on the image.
  unfoldable pub handle_image : Item → Exec D.Db Unit
  unfolding run_provisioner type_of_value
  handle_image image =
      if not (is_attribute (attribute "entity" image) (lit "PROJECT"))
      then log debug "skipping record" (
          ("reason", str (lit "not a project"))
          ∷ ("entity", log_value (attribute "entity" image))
          ∷ [])
      else if not (is_attribute (attribute "status" image) (status_value created))
      then log debug "skipping record" (
          ("reason", str (lit "not CREATED"))
          ∷ ("status", log_value (attribute "status" image))
          ∷ [])
      else (do
        project_id ← lift (str_field other_text "projectId" image)
        type_text ← lift (str_field other_text "type" image)
        project_type ← lift (type_or_raise (type_of_value type_text))
        run_provisioner project_id project_type image)

  abbrev pub handle_new_image : Option Item → Exec D.Db Unit
  handle_new_image none = log debug "skipping record" (("reason", str (lit "no NewImage")) ∷ [])
  handle_new_image (some []) =
      log debug "skipping record" (("reason", str (lit "no NewImage")) ∷ [])
  handle_new_image (some (b ∷ image)) = handle_image (b ∷ image)

  unfoldable pub record_handler : StreamRecord → Exec D.Db Unit
  unfolding handle_image
  record_handler rec =
      if not (is_text rec.event_name (lit "INSERT"))
      then log debug "skipping record"
          (("reason", str (lit "not an INSERT")) ∷ ("event_name", log_text rec.event_name) ∷ [])
      else handle_new_image rec.new_image
