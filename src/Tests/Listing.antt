-- ===== src/Tests/Listing.antt =====
-- The list route on the table in memory.
use projects_api.Common.{
  ◌≤◌, lit, ◌==◌, ==_iff, ◌≡◌, ◌≢◌, refl, none, some, [], ◌∷◌, All, length, arith,
}
use projects_api.Json.{null}
use projects_api.Dynamo.{attribute, key_eq}
use projects_api.Dynamo.Behaviour.{
  attribute_of, is_text, meets, assign, key_of, all_allowed, write_all,
}
use projects_api.Domain.Exceptions.{invalid_cursor, ok, raise}
use projects_api.Domain.Validation.{name_key}
use projects_api.Domain.Models.{Project, isoformat, type_value, status_value}
use projects_api.World.{◌>>=◌}
use projects_api.Repository.{create_writes, create, list_by_owner, to_projects}
use projects_api.Repository.Records.{
  owner_gsi1pk, record_key, reservation_key, project_item, reservation_item, to_project,
}
use projects_api.Api.Routes.{list_projects}
use projects_api.Api.Routes.Listing.{list_projects-owned, list_projects-rejects}
use projects_api.System.{create_step, Reach, here, next}
use projects_api.System.Listed.{IsListed, Reach-IsListed}
use projects_api.Tests.Memory.{memory, memory_documented, memory_index}
use projects_api.Tests.Data.{noon-IsWhole, runtime, demo, start}
use projects_api.Tests.Table.{stored}
use projects_api.Tests.Pagination.{decoder, last_key, token, scalars, sorted_key, short_token}

program : Unit {0}
unfolding lit ◌==◌ attribute key_eq attribute_of is_text meets assign key_of all_allowed write_all
    name_key isoformat ◌>>=◌ create_writes create list_by_owner to_projects owner_gsi1pk record_key
    reservation_key project_item reservation_item to_project type_value status_value list_projects
program = tt

start-IsListed : IsListed runtime memory memory_documented memory_index start.db
start-IsListed = record {
  in_table = record { placed = λ k item e. cc (e) };
  in_index = λ item e. cc (e);
}

path : Reach runtime memory start stored
path = next here (create_step demo start noon-IsWhole)

Reach-IsListed_example : IsListed runtime memory memory_documented memory_index stored.db
Reach-IsListed_example =
    Reach-IsListed runtime memory memory_documented memory_index start stored start-IsListed path

listed :
    (list_projects runtime memory decoder null demo.owner_id 20 none stored).0
    ≡ ok (demo ∷ [], none)
unfolding program
listed = refl

list_projects-owned_example :
    All (λ (p : Project). p.owner_id ≡ demo.owner_id) (demo ∷ []) × (length (demo ∷ []) ≤ 20)
list_projects-owned_example =
    list_projects-owned runtime memory memory_documented memory_index start stored decoder null
      demo.owner_id 20 none (demo ∷ []) none start-IsListed path listed

other_owner : lit "key-1" ≢ lit "key-2"
unfolding program
other_owner e = ground (arith, ==_iff (lit "key-1") (lit "key-2"), e)

list_projects-rejects_example :
    list_projects runtime memory decoder null (lit "key-2") 20 (some token) stored
    ≡ (raise invalid_cursor, stored)
unfolding program
list_projects-rejects_example =
    list_projects-rejects runtime memory stored decoder null last_key (lit "key-2") (lit "key-1")
      (lit "PROJECT#2026#p") (lit "PROJECT#p") (lit "META") 20 sorted_key
      (scalars (lit "OWNER#key-1") refl) (scalars (lit "PROJECT#2026#p") refl)
      (scalars (lit "PROJECT#p") refl) (scalars (lit "META") refl) (omega (arith, short_token))
      other_owner
