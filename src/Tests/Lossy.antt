-- ===== src/Tests/Lossy.antt =====
-- A table in memory that loses the answer of each transaction that it makes, and gives no reasons
-- for one that it cancels: the errors that the documented behaviour leaves open can arise.
use package.text.Mathlib.TextEquality.{eq_iff}
use projects_api.Common.{
  String, lit, ◌==◌, ◌≡◌, refl, true, false, Option, none, some, List, [], arith, if◌then◌else◌,
  Bool-cases, inl, inr, ◌⊎◌,
}
use projects_api.Dynamo.{attribute, key_eq, Write, ClientError, Reply, failed, done, Dynamo}
use projects_api.Dynamo.Behaviour.{
  Contents, Documented, attribute_of, is_text, meets, assign, key_of, all_allowed, write_all,
}
use projects_api.Domain.Exceptions.{client_error, project_name_taken, raise}
use projects_api.Domain.Validation.{name_key}
use projects_api.Domain.Models.{Project, isoformat, type_value, status_value}
use projects_api.World.{World, ◌>>=◌}
use projects_api.Repository.{
  create_writes, create_error, create, delete_writes, get, delete_read, delete_failed,
  delete_project,
}
use projects_api.Repository.Records.{
  record_key, reservation_key, project_item, reservation_item, to_project,
}
use projects_api.Tests.Memory.{memory, memory_documented}
use projects_api.Tests.Data.{runtime, demo, start}

abbrev lost : ClientError
lost = record { code = some "InternalServerError"; reasons = []; message = "" }

abbrev cancelled : ClientError
cancelled = record {
  code = some "TransactionCanceledException";
  reasons = [];
  message = "Transaction cancelled: [ConditionalCheckFailed, None]";
}

abbrev transact : List Write → Contents → Reply Unit × Contents
transact ws c = if all_allowed ws c then (failed lost, write_all ws c) else (failed cancelled, c)

abbrev lossy : Dynamo
lossy = record memory { transact_write_items = transact }

other_code :
    ◌≡◌ {A = Option String} (some "InternalServerError") (some "TransactionCanceledException") → ⊥
other_code h = ground (arith, eq_iff "InternalServerError" "TransactionCanceledException")

never_done : (ws : List Write) (c : Contents) → (transact ws c).0 ≡ done tt → ⊥
never_done ws c h = elim (Bool-cases (all_allowed ws c)) [
  | inl e ↦ cc (rw e at h)
  | inr e ↦ cc (rw e at h)
]

made_or_not :
    (ws : List Write) (c : Contents)
    → ((transact ws c).1 ≡ c) ⊎ ((all_allowed ws c ≡ true) × ((transact ws c).1 ≡ write_all ws c))
made_or_not ws c = elim (Bool-cases (all_allowed ws c)) [
  | inl e ↦ inr (e, rw e refl)
  | inr e ↦ inl (rw e refl)
]

refused :
    (ws : List Write) (c : Contents) (e : ClientError)
    → (transact ws c).0 ≡ failed e
    → e.code ≡ some "TransactionCanceledException"
    → ((transact ws c).1 ≡ c) × (all_allowed ws c ≡ false) × (cancelled ≡ e)
refused ws c e h code = elim (Bool-cases (all_allowed ws c)) [
  | inl b ↦ let same : lost ≡ e = cc (rw b at h) in absurd (other_code (rw (← same) at code))
  | inr b ↦ (rw b refl, b, cc (rw b at h))
]

lossy_documented : Documented lossy
lossy_documented = record {
  contents = λ c. c;
  get_reads = memory_documented.get_reads;
  get_keeps = memory_documented.get_keeps;
  query_keeps = memory_documented.query_keeps;
  update_done = memory_documented.update_done;
  update_failed = memory_documented.update_failed;
  update_refused = memory_documented.update_refused;
  transact_done = λ ws c h. absurd (never_done ws c h);
  transact_failed = λ ws c e h. made_or_not ws c;
  transact_cancelled = λ ws c e h code.
      let (kept, b, same) = refused ws c e h code in
      (
        kept,
        record { by_reasons = λ r rs given. cc (same, given); by_message = λ i given found. b },
      );
}

program : Unit {0}
unfolding lit ◌==◌ attribute key_eq attribute_of is_text meets assign key_of all_allowed write_all
    name_key isoformat ◌>>=◌ create_writes create_error create delete_writes get delete_read
    delete_failed delete_project record_key reservation_key project_item reservation_item to_project
    type_value status_value
program = tt

abbrev stored : World Contents
stored = (create runtime lossy demo start).1

-- The two items are written, and `create` raises all the same.
unanswered_write :
    ((create runtime lossy demo start).0 ≡ raise (client_error lost))
    × (stored.db (record_key demo.project_id) ≡ some (project_item runtime.unicode demo))
unfolding program
unanswered_write = (refl, refl)

-- The id of `demo`, with a name that nobody has.
abbrev twin : Project
twin = record demo { name = lit "Twin" }

-- With no reasons, an id that is taken is reported as a name that is taken.
id_taken : (create runtime lossy twin stored).0 ≡ raise (project_name_taken twin.name)
unfolding program
id_taken = refl

-- The two items are gone, and `delete` raises all the same.
unanswered_removal :
    ((delete_project runtime lossy demo.project_id demo.owner_id stored).0
      ≡ raise (client_error lost))
    × ((delete_project runtime lossy demo.project_id demo.owner_id stored).1.db
          (record_key demo.project_id)
        ≡ none)
unfolding program
unanswered_removal = (refl, refl)
