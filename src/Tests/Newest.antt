-- ===== src/Tests/Newest.antt =====
-- Two projects of one owner, listed by times that a calendar reads.
use projects_api.Common.{
  ℕ, ◌+◌, ◌*◌, ◌-◌, ◌/◌, ◌≤◌, ◌<◌, Text, lit, ◌==◌, ◌≡◌, refl, Option, none, some, [], ◌∷◌, arith,
  inl, inr,
}
use projects_api.Json.Print.{text_le}
use projects_api.Dynamo.{attribute, key_eq}
use projects_api.Dynamo.Behaviour.{
  Contents, attribute_of, is_text, meets, assign, key_of, all_allowed, write_all,
}
use projects_api.Json.{null}
use projects_api.Domain.Exceptions.{ok}
use projects_api.Domain.Validation.{name_key}
use projects_api.World.{World, ◌>>=◌}
use projects_api.Repository.{create_writes, create, list_by_owner, to_projects}
use projects_api.Api.Routes.{list_projects}
use projects_api.Api.Routes.Listing.{list_projects-NewestFirst}
use projects_api.System.{create_step, Reach, here, next}
use projects_api.System.Listed.{IsListed}
use projects_api.Tests.Pagination.{decoder}
use projects_api.Domain.Models.{Datetime, digit, isoformat, type_value, status_value}
use projects_api.Domain.Models.Times.{days_in_month}
use projects_api.Repository.Records.{
  Runtime, project_gsi1sk_prefix, record_key, owner_gsi1pk, reservation_key, project_item,
  reservation_item, to_project,
}
use projects_api.Repository.Order.{ReadsWhole, NewestFirst}
use projects_api.Tests.Data.{noon-IsWhole, runtime, demo, start}
use projects_api.Tests.Paired.{later, morning-IsWhole, paired, paired_documented, paired_index}

abbrev two : ℕ → ℕ → ℕ
two a b = (a - b'0') * 10 + (b - b'0')

-- `datetime.fromisoformat` on whole seconds.
abbrev read_datetime : Text → Option Datetime
read_datetime
      (y1 ∷ y2 ∷ y3 ∷ y4 ∷ _ ∷ m1 ∷ m2 ∷ _ ∷ d1 ∷ d2 ∷ _ ∷ h1 ∷ h2 ∷ _ ∷ n1 ∷ n2 ∷ _ ∷ s1 ∷ s2
        ∷ _) =
    some (record {
      year = two y1 y2 * 100 + two y3 y4;
      month = two m1 m2;
      day = two d1 d2;
      hour = two h1 h2;
      minute = two n1 n2;
      second = two s1 s2;
      microsecond = 0;
    })
read_datetime _ = none

abbrev calendar : Runtime
calendar = record runtime { parse_datetime = read_datetime }

two_of : (n : ℕ) → n < 100 → two (digit (n / 10)) (digit n) ≡ n
two_of n h = omega arith

four_of :
    (n : ℕ)
    → n < 10000
    → two (digit (n / 100 / 10)) (digit (n / 100)) * 100 + two (digit (n / 10)) (digit n) ≡ n
four_of n h = omega arith

days : (y m : ℕ) → days_in_month y m ≤ 31
unfolding days_in_month
days y m = ground arith

calendar-ReadsWhole : ReadsWhole calendar
unfolding isoformat
calendar-ReadsWhole t v =
    rw
      (
        four_of t.year (omega (arith, v.year)),
        two_of t.month (omega (arith, v.month)),
        two_of t.day (omega (arith, v.day, days t.year t.month)),
        two_of t.hour (omega (arith, v.hour)),
        two_of t.minute (omega (arith, v.minute)),
        two_of t.second (omega (arith, v.second)),
        v.whole,
      )
      refl

program : Unit {0}
unfolding lit ◌==◌ attribute key_eq attribute_of is_text meets assign key_of all_allowed write_all
    name_key isoformat ◌>>=◌ create_writes create list_by_owner to_projects owner_gsi1pk record_key
    reservation_key project_item reservation_item to_project type_value status_value list_projects
    project_gsi1sk_prefix text_le NewestFirst
program = tt

abbrev one_stored : World Contents
one_stored = (create calendar paired demo start).1

abbrev both_stored : World Contents
both_stored = (create calendar paired later one_stored).1

start-IsListed : IsListed calendar paired paired_documented paired_index start.db
start-IsListed = record {
  in_table = record { placed = λ k item e. cc (e) };
  in_index = λ item e. elim e [ inl f ↦ cc (f) | inr f ↦ cc (f) ];
}

path : Reach calendar paired start both_stored
path =
    next (next here (create_step demo start noon-IsWhole))
      (create_step later one_stored morning-IsWhole)

listed :
    (list_projects calendar paired decoder null demo.owner_id 20 none both_stored).0
    ≡ ok (later ∷ demo ∷ [], none)
unfolding program
listed = refl

list_projects-NewestFirst_example : NewestFirst (later ∷ demo ∷ [])
list_projects-NewestFirst_example =
    list_projects-NewestFirst calendar paired paired_documented paired_index start both_stored
      decoder null demo.owner_id 20 none (later ∷ demo ∷ []) none start-IsListed path
      calendar-ReadsWhole listed
