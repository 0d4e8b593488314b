-- ===== src/Tests/Provisioning.antt =====
-- The provisioner on the table in memory.
use projects_api.Common.{
  Text, lit, ◌==◌, ==_iff, ◌≡◌, ◌≢◌, ◌⊎◌, ◌≤◌, refl, true, some, [], ◌∷◌, arith, length, take,
}
use projects_api.Dynamo.{Item, text, attribute, key_eq}
use projects_api.Dynamo.Behaviour.{
  Contents, attribute_of, is_text, meets, assign, key_of, all_allowed, write_all,
}
use projects_api.Domain.Exceptions.{Result, ok}
use projects_api.Domain.Validation.{name_key}
use projects_api.Domain.Models.{
  isoformat, ProjectStatus, created, ready, failed, status_value, type_value,
}
use projects_api.World.{World, ◌>>=◌}
use projects_api.Repository.{create_writes, create}
use projects_api.Repository.Records.{record_key, reservation_key, project_item, reservation_item}
use projects_api.Provisioner.{transition, begin, complete, fail, failure_reason, record_handler}
use projects_api.Provisioner.Provisioners.{provisioners}
use projects_api.Provisioner.Moves.{HasStatus, Moves, Later}
use projects_api.Provisioner.Transition.{fail_stores}
use projects_api.Provisioner.Runs.{record_handler-Moves, record_handler-Later}
use projects_api.Provisioner.Outcome.{insert_of, record_handler-outcome, record_handler-replay}
use projects_api.Tests.Memory.{memory, memory_documented, memory_up}
use projects_api.Tests.Data.{unicode, runtime, demo, start}

program : Unit {0}
unfolding lit ◌==◌ attribute key_eq attribute_of is_text meets assign key_of all_allowed write_all
    name_key isoformat ◌>>=◌ create_writes create record_key reservation_key project_item
    reservation_item transition begin complete fail failure_reason record_handler provisioners
    status_value type_value
program = tt

abbrev stored : World Contents
stored = (create runtime memory demo start).1

abbrev handled : Result Unit × World Contents
handled =
    record_handler memory (lit "?") provisioners (lit "t1") (lit "t2") (insert_of unicode demo)
      stored

is_created : HasStatus stored.db demo.project_id created
unfolding program
is_created = refl

provisioned :
    (handled.0 ≡ ok tt)
    × (handled.1.metrics ≡ "ProjectsProvisioned" ∷ [])
    × HasStatus handled.1.db demo.project_id ready
unfolding program
provisioned = (refl, refl, refl)

record_handler-outcome_example : (handled.0 ≡ ok tt) × HasStatus handled.1.db demo.project_id ready
unfolding provisioners
record_handler-outcome_example =
    record_handler-outcome memory memory_documented memory_up (lit "?") provisioners (lit "t1")
      (lit "t2") unicode demo stored refl is_created

not_created : ¬ HasStatus handled.1.db demo.project_id created
unfolding program
not_created e = ground (arith, ==_iff (status_value ready) (status_value created), e)

record_handler-replay_example :
    ((record_handler memory
        (lit "?")
        provisioners
        (lit "t1")
        (lit "t2")
        (insert_of unicode demo)
        handled.1).0
      ≡ ok tt)
    × ((record_handler memory
          (lit "?")
          provisioners
          (lit "t1")
          (lit "t2")
          (insert_of unicode demo)
          handled.1).1.db
        ≡ handled.1.db)
record_handler-replay_example =
    record_handler-replay memory memory_documented memory_up (lit "?") provisioners (lit "t1")
      (lit "t2") unicode demo handled.1 refl not_created

record_handler-Moves_example : Moves stored.db handled.1.db
record_handler-Moves_example =
    record_handler-Moves memory memory_documented (lit "?") provisioners (lit "t1") (lit "t2")
      (insert_of unicode demo) stored

record_handler-Later_example :
    ((b : ProjectStatus) × HasStatus handled.1.db demo.project_id b × Later created b)
    × ((created ≡ ready) ⊎ (created ≡ failed) → HasStatus handled.1.db demo.project_id created)
record_handler-Later_example =
    record_handler-Later memory memory_documented (lit "?") provisioners (lit "t1") (lit "t2")
      (insert_of unicode demo) stored demo.project_id created is_created

-- A project that is PROVISIONING, whose provisioner fails without a text.
abbrev begun : World Contents
begun = (begin memory demo.project_id (lit "t1") stored).1

failed_demo : (fail memory demo.project_id (lit "") (lit "t2") begun).0 ≡ ok true
unfolding program
failed_demo = refl

fail_stores_example :
    (item : Item) × (t : Text) × ((fail memory demo.project_id (lit "") (lit "t2") begun).1.db
        (record_key demo.project_id)
      ≡ some item)
    × (attribute "status" item ≡ some (text (status_value failed)))
    × (attribute "failureReason" item ≡ some (text t))
    × (1 ≤ length t)
    × (length t ≤ 500)
    × (((lit "" ≡ []) × (t ≡ lit "unknown error")) ⊎ ((lit "" ≢ []) × (t ≡ take 500 (lit ""))))
fail_stores_example =
    fail_stores memory memory_documented demo.project_id (lit "") (lit "t2") begun failed_demo
