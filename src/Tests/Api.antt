-- ===== src/Tests/Api.antt =====
-- The routes, identities and responses of the API on concrete requests.
use projects_api.Common.{
  Text, lit, ◌==◌, ==_iff, ◌≡◌, ◌≢◌, ◌↔◌, ◌++◌, inr, refl, true, none, some, arith,
}
use projects_api.Dynamo.{attribute, key_eq}
use projects_api.Dynamo.Behaviour.{
  Contents, attribute_of, is_text, meets, assign, key_of, all_allowed, write_all,
}
use projects_api.Domain.Exceptions.{project_not_found, ok, raise}
use projects_api.Domain.Validation.{name_key}
use projects_api.Domain.Models.{
  isoformat, type_value, status_value, is_valid_project_id, new_project, project_id_prefix, is_hex,
}
use projects_api.World.{World, ◌>>=◌}
use projects_api.Repository
use projects_api.Repository.Records.{
  record_key, reservation_key, project_item, reservation_item, to_project,
}
use projects_api.Repository.Reading.{ReadsTimes}
use projects_api.Api.Context.{Scope, resolve, owner_id}
use projects_api.Api.Deps.{prod, current_user, caller, current_user-owner_id}
use projects_api.Api.Errors.{http_exception, respond}
use projects_api.Api.Errors.Responses.{FitsSchema, respond-FitsSchema}
use projects_api.Api.Routes.{create_project, owned, get_project}
use projects_api.Api.Routes.Ownership.{
  get_project-owned, get_project-hides, get_project-create_project,
}
use projects_api.Tests.Memory.{memory, memory_documented}
use projects_api.Tests.Data.{unicode, runtime, demo, rival, noon, hex, start}
use projects_api.Tests.Table.{stored, no_items-IsConsistent}

program : Unit {0}
unfolding lit ◌==◌ attribute key_eq attribute_of is_text meets assign key_of all_allowed write_all
    name_key isoformat ◌>>=◌ Repository.create_writes Repository.create Repository.get record_key
    reservation_key project_item reservation_item to_project type_value status_value create_project
    owned get_project is_valid_project_id new_project project_id_prefix is_hex
program = tt

-- A request through the gateway, whose context has no request id.
abbrev gateway : Scope
gateway = record {
  event = some (record {
    request_context = some (record {
      request_id = none;
      identity = some (record { api_key_id = some (lit "key-1") });
    });
  });
  aws_request_id = none;
}

abbrev mine : Text
mine = resolve unicode gateway (some (lit "mine")) (lit "uuid-1")

current_user-owner_id_example :
    (current_user prod gateway (some (lit "forged")) ≡ caller (lit "key-1"))
    ↔ (owner_id gateway ≡ some (lit "key-1"))
current_user-owner_id_example =
    current_user-owner_id prod gateway (some (lit "forged")) (lit "key-1") refl

respond-FitsSchema_example :
    FitsSchema
      (lit "/v1/projects")
      (lit "rid")
      (respond (lit "/v1/projects") (lit "rid") (http_exception 401 (lit "Unauthorized")))
respond-FitsSchema_example =
    respond-FitsSchema (lit "/v1/projects") (lit "rid") (http_exception 401 (lit "Unauthorized"))
      (omega arith, omega arith)

shown : (get_project runtime memory demo.project_id demo.owner_id stored).0 ≡ ok demo
unfolding program
shown = refl

get_project-owned_example :
    (is_valid_project_id demo.project_id ≡ true)
    × ((Repository.get runtime memory demo.project_id stored).0 ≡ ok demo)
    × (demo.owner_id ≡ demo.owner_id)
get_project-owned_example =
    get_project-owned runtime memory demo.project_id demo.owner_id stored demo shown

found_demo : (Repository.get runtime memory demo.project_id stored).0 ≡ ok demo
unfolding program
found_demo = refl

other_owner : demo.owner_id ≢ rival.owner_id
unfolding program
other_owner e = ground (arith, ==_iff demo.owner_id rival.owner_id, e)

get_project-hides_example :
    (get_project runtime memory demo.project_id rival.owner_id stored).0
    ≡ raise (project_not_found demo.project_id)
get_project-hides_example =
    get_project-hides runtime memory memory_documented demo.project_id rival.owner_id stored
      (inr (inr (demo, found_demo, other_owner)))

abbrev after : World Contents
after = (create_project runtime memory demo.name demo.type demo.owner_id noon hex start).1

posted :
    (create_project runtime memory demo.name demo.type demo.owner_id noon hex start).0
    ≡ ok (demo, lit "/v1/projects/" ++ demo.project_id)
unfolding program
posted = refl

demo_times : ReadsTimes runtime demo
unfolding program
demo_times = record { created = refl; updated = refl }

get_project-create_project_example :
    ((get_project runtime memory demo.project_id demo.owner_id after).0 ≡ ok demo)
    × (lit "/v1/projects/" ++ demo.project_id ≡ lit "/v1/projects/" ++ demo.project_id)
unfolding program
get_project-create_project_example =
    get_project-create_project runtime memory memory_documented demo.name demo.type demo.owner_id
      noon hex start (after.db (record_key demo.project_id)) demo
      (lit "/v1/projects/" ++ demo.project_id) demo_times refl refl no_items-IsConsistent posted
      refl
