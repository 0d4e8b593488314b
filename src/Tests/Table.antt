-- ===== src/Tests/Table.antt =====
-- The repository on the table in memory.
use projects_api.Common.{Text, lit, ◌==◌, ==_iff, ◌≡◌, ◌≢◌, ◌⊎◌, [], refl, none, some, arith}
use projects_api.Dynamo.{Item, ClientError, failed, text, attribute, key_eq}
use projects_api.Dynamo.Behaviour.{
  Contents, attribute_of, is_text, meets, assign, key_of, all_allowed, write_all,
}
use projects_api.Domain.Exceptions.{project_name_taken, project_not_found, ok, raise}
use projects_api.Domain.Validation.{name_key}
use projects_api.Domain.Models.{Project, isoformat, type_value, status_value}
use projects_api.World.{World, ◌>>=◌}
use projects_api.Repository.{
  create_writes, delete_writes, create, get, delete_read, delete_failed, delete_project,
}
use projects_api.Repository.Records.{
  record_key, reservation_key, project_item, reservation_item, to_project,
}
use projects_api.Repository.Keys.{reservation_at}
use projects_api.Repository.Consistency.{IsConsistent, Named, Holds}
use projects_api.Repository.Create.{create-ok, create-keeps}
use projects_api.Repository.Refusals.{create-name_taken}
use projects_api.Repository.Answers.{create-returns, create-taken}
use projects_api.Repository.Reading.{ReadsTimes, get-create}
use projects_api.Repository.Delete.{delete-ok, delete-raise, delete-hides}
use projects_api.Repository.Owners.{delete-returns}
use projects_api.Repository.Reuse.{create-delete}
use projects_api.System.{
  create_step, delete_step, Reach, here, next, Reach-IsConsistent, Reach-names_unique,
}
use projects_api.Tests.Memory.{memory, memory_documented, memory_serving, reasons_of}
use projects_api.Tests.Data.{noon-IsWhole, unicode, runtime, demo, rival, no_items, start}

program : Unit {0}
unfolding lit ◌==◌ attribute key_eq attribute_of is_text meets assign key_of all_allowed write_all
    name_key isoformat ◌>>=◌ create_writes delete_writes create get delete_read delete_failed
    delete_project record_key reservation_key project_item reservation_item to_project
    reservation_at reasons_of type_value status_value
program = tt

abbrev pub stored : World Contents
stored = (create runtime memory demo start).1

created_demo : (create runtime memory demo start).0 ≡ ok demo
unfolding program
created_demo = refl

taken : (create runtime memory rival stored).0 ≡ raise (project_name_taken rival.name)
unfolding program
taken = refl

pub no_items-IsConsistent : IsConsistent unicode no_items
no_items-IsConsistent = record {
  reserved = λ id item e. cc (e);
  held = λ key item e. cc (e);
  record_keyed = λ id item e. cc (e);
  reservation_keyed = λ key item e. cc (e);
}

stored-IsConsistent : IsConsistent unicode stored.db
stored-IsConsistent = create-keeps runtime memory memory_documented demo start no_items-IsConsistent

create-ok_example :
    (demo ≡ demo)
    × (no_items (reservation_at (name_key unicode demo.name)) ≡ none)
    × (no_items (record_key demo.project_id) ≡ none)
    × (stored.db ≡ write_all (create_writes runtime demo) no_items)
create-ok_example =
    create-ok runtime memory memory_documented demo start demo no_items-IsConsistent created_demo

held_by_demo : Holds stored.db (name_key unicode rival.name) demo.project_id
unfolding program
held_by_demo = record { item = reservation_item unicode demo; at = refl; id_at = refl }

create-returns_example : (create runtime memory demo start).0 ≡ ok demo
create-returns_example =
    create-returns runtime memory memory_documented memory_serving demo start refl refl

create-taken_example :
    (create runtime memory rival stored).0 ≡ raise (project_name_taken rival.name)
create-taken_example =
    create-taken runtime memory memory_documented memory_serving rival stored demo.project_id
      stored-IsConsistent held_by_demo

create-name_taken_example :
    (rival.name ≡ rival.name)
    × (((id : Text) × (name : Text) × Named stored.db id name
          × (name_key unicode name ≡ name_key unicode rival.name))
        ⊎ (((e : ClientError) × ((memory.transact_write_items
                  (create_writes runtime rival)
                  stored.db).0
                ≡ failed e)
              × (e.reasons ≡ []))
            × ((item : Item) × (stored.db (record_key rival.project_id) ≡ some item))))
create-name_taken_example =
    create-name_taken runtime memory memory_documented rival stored rival.name stored-IsConsistent
      taken

demo-ReadsTimes : ReadsTimes runtime demo
unfolding program
demo-ReadsTimes = record { created = refl; updated = refl }

get-create_example : (get runtime memory demo.project_id stored).0 ≡ ok demo
get-create_example =
    get-create runtime memory memory_documented demo demo start
      (stored.db (record_key demo.project_id)) demo-ReadsTimes no_items-IsConsistent created_demo
      refl

deleted_demo : (delete_project runtime memory demo.project_id demo.owner_id stored).0 ≡ ok tt
unfolding program
deleted_demo = refl

found_demo : (get runtime memory demo.project_id stored).0 ≡ ok demo
unfolding program
found_demo = refl

delete-ok_example :
    (project : Project) × ((get runtime memory demo.project_id stored).0 ≡ ok project)
    × (project.owner_id ≡ demo.owner_id)
    × Holds stored.db (name_key unicode project.name) demo.project_id
    × ((item : Item) × (stored.db (record_key demo.project_id) ≡ some item)
        × (attribute "ownerId" item ≡ some (text demo.owner_id)))
    × ((delete_project runtime memory demo.project_id demo.owner_id stored).1.db
        ≡ write_all (delete_writes runtime demo.project_id demo.owner_id project.name) stored.db)
delete-ok_example =
    delete-ok runtime memory memory_documented demo.project_id demo.owner_id stored deleted_demo

delete-returns_example :
    (delete_project runtime memory demo.project_id demo.owner_id stored).0 ≡ ok tt
delete-returns_example =
    delete-returns runtime memory memory_documented demo.project_id demo.owner_id demo stored
      memory_serving stored-IsConsistent found_demo refl

create-delete_example :
    ((delete_project runtime memory demo.project_id demo.owner_id stored).1.db
        (record_key demo.project_id)
      ≡ none)
    × ((create runtime memory rival
          (delete_project runtime memory demo.project_id demo.owner_id stored).1).0
        ≡ ok rival)
unfolding program
create-delete_example =
    create-delete runtime memory memory_documented demo.project_id demo.owner_id demo stored rival
      memory_serving deleted_demo found_demo refl refl

other_owner : demo.owner_id ≢ rival.owner_id
unfolding program
other_owner e = ground (arith, ==_iff demo.owner_id rival.owner_id, e)

hidden :
    (delete_project runtime memory demo.project_id rival.owner_id stored).0
    ≡ raise (project_not_found demo.project_id)
unfolding program
hidden = refl

delete-raise_example :
    (((delete_project runtime memory demo.project_id rival.owner_id stored).1.db ≡ stored.db)
      ⊎ ((project : Project) × ((get runtime memory demo.project_id stored).0 ≡ ok project)
          × (project.owner_id ≡ rival.owner_id)
          × ((delete_project runtime memory demo.project_id rival.owner_id stored).1.db
              ≡ write_all
                  (delete_writes runtime demo.project_id rival.owner_id project.name)
                  stored.db)))
    × (project_not_found demo.project_id ≡ project_not_found demo.project_id
        → (delete_project runtime memory demo.project_id rival.owner_id stored).1.db ≡ stored.db)
delete-raise_example =
    delete-raise runtime memory memory_documented demo.project_id rival.owner_id stored
      (project_not_found demo.project_id) hidden

delete-hides_example :
    ((delete_project runtime memory demo.project_id rival.owner_id stored).0
      ≡ (delete_project runtime memory demo.project_id rival.owner_id start).0)
    × ((delete_project runtime memory demo.project_id rival.owner_id stored).0
        ≡ raise (project_not_found demo.project_id))
    × ((delete_project runtime memory demo.project_id rival.owner_id stored).1.db ≡ stored.db)
    × ((delete_project runtime memory demo.project_id rival.owner_id start).1.db ≡ start.db)
delete-hides_example =
    delete-hides runtime memory memory_documented demo.project_id rival.owner_id stored start demo
      none found_demo other_owner refl refl

-- Two creates, and a delete that acts on what it read before them.
abbrev late : World Contents
late =
    (delete_read runtime memory demo.project_id demo.owner_id demo
      (create runtime memory rival stored).1).1

path : Reach runtime memory start late
path =
    next
      (next (next here (create_step demo start noon-IsWhole))
        (create_step rival stored noon-IsWhole))
      (delete_step demo.project_id demo.owner_id demo (create runtime memory rival stored).1)

Reach-IsConsistent_example : IsConsistent unicode late.db
Reach-IsConsistent_example =
    Reach-IsConsistent runtime memory memory_documented start late no_items-IsConsistent path

demo-Named : Named stored.db demo.project_id demo.name
unfolding program
demo-Named = record { item = project_item unicode demo; at = refl; name_at = refl }

Reach-names_unique_example : demo.project_id ≡ demo.project_id
Reach-names_unique_example =
    Reach-names_unique runtime memory memory_documented start stored no_items-IsConsistent
      (next here (create_step demo start noon-IsWhole)) demo.project_id demo.project_id demo.name
      demo.name demo-Named demo-Named refl
