-- ===== src/Tests/Seeding.antt =====
-- The script on the repository of Desk, with one ticket.
use projects_api.Common.{
  not, nat_eq, all, ◌++◌, Text, lit, ◌==◌, ◌≡◌, refl, true, false, none, some, List, [], ◌∷◌, arith,
}
use projects_api.Json.{dict_from}
use projects_api.Json.Scan.{loads}
use projects_api.Domain.Exceptions.{ok, raise, value_error}
use projects_api.Domain.Validation.{strip, is_empty, is_space}
use projects_api.World.{◌>>=◌}
use projects_api.Scripts.Integers.{int, str_int}
use projects_api.Scripts.SeedIssues.{Python, Session, Args, main}
use projects_api.Scripts.SeedIssues.Tables.{labels, milestones}
use projects_api.Scripts.SeedIssues.DryRun.{main-dry_run}
use projects_api.Scripts.SeedIssues.Seeded.{IsSeeded, main-IsSeeded}
use projects_api.Scripts.SeedIssues.Again.{IsShown, main-main}
use projects_api.Scripts.SeedIssues.Tickets.{
  closing, lines_from, lstrip_quotes, rstrip_quotes, parse, slice_label, with_slice,
}
use projects_api.Scripts.SeedIssues.Tickets.Labels.{IsLabel, label_list}
use projects_api.Scripts.SeedIssues.TicketFile.{front, parse-front}
use projects_api.Tests.Desk.{Stage, fresh, issued, desk, desk_reads, answer}
use projects_api.Tests.Documented.{desk_documented, desk_up}

abbrev python : Python
python = record { str_json = λ v. lit "json"; int_beyond = λ s. raise (value_error "not ASCII") }

abbrev root : Text
root = lit "/srv/projects-api"

abbrev files : List (Text × Text)
files =
    (
      lit "S0-01-skeleton.md",
      lit
          "---\ntitle: \"S0-01: Repository skeleton\"\nlabels: type:chore, pillar:operations\nmilestone: S0 Foundation\nstatus: done\n---\n\nThe layout.\n",
    )
    ∷ []

abbrev args : Args
args = record { repo = some (lit "o/n"); done_sha = some (lit "1a2b3c"); dry_run = false }

abbrev session : Session Stage
session = record { github = fresh; printed = []; written = [] }

abbrev after : Session Stage
after = (main desk python root args files session).1

program : Unit {0}
unfolding main answer labels milestones lit strip is_space dict_from loads ◌==◌ ◌>>=◌ int str_int
    lines_from
program = tt

returned : (main desk python root args files session).0 ≡ ok 0
unfolding program
returned = refl

now_issued : after.github ≡ issued
unfolding program
now_issued = refl

printed_lines :
    after.printed
    ≡ lit "repo: o/n"
      ∷ lit "label     + status:blocked"
      ∷ lit "issue     + #12 S0-01: Repository skeleton"
      ∷ lit "            closed (done)"
      ∷ []
unfolding program
printed_lines = refl

abbrev dry_args : Args
dry_args = record { repo = none; done_sha = none; dry_run = true }

main-dry_run_example : (main desk python root dry_args files session).1.github ≡ fresh
main-dry_run_example = main-dry_run desk python root desk_reads dry_args files session refl

-- The dry run says what it would do.
dry_lines :
    (main desk python root dry_args files session).1.printed
    ≡ lit "repo: o/n"
      ∷ lit
          "DRY: gh label create status:blocked --repo o/n --color 000000 --description Cannot proceed; see the issue for what unblocks it"
      ∷ lit "label     + status:blocked"
      ∷ lit
          "DRY: gh issue create --repo o/n --title S0-01: Repository skeleton --body-file /srv/projects-api/build/issue_bodies/S0-01-skeleton.md --milestone S0 Foundation --label type:chore --label pillar:operations --label slice:S0"
      ∷ lit "issue     + #-1 S0-01: Repository skeleton"
      ∷ lit "            closed (done)"
      ∷ []
unfolding program
dry_lines = refl

main-IsSeeded_example : IsSeeded root files (desk_documented.names (lit "o/n") after.github)
unfolding lit
main-IsSeeded_example =
    main-IsSeeded desk python root desk_documented args files b'o' (b'/' ∷ b'n' ∷ []) session 0 refl
      refl returned

issued-IsShown : IsShown (desk_documented.names (lit "o/n") after.github)
unfolding program desk_documented
issued-IsShown = record { labels = omega arith; milestones = omega arith; issues = omega arith }

main-main_example :
    ((main desk python root args files after).0 ≡ ok 0)
    × ((main desk python root args files after).1.github ≡ after.github)
unfolding lit
main-main_example =
    main-main desk python root desk_documented desk_up args args files b'o' (b'/' ∷ b'n' ∷ [])
      session after 0 refl refl returned refl refl issued-IsShown

no_comma :
    (s : Text)
    → strip s ≡ s
    → is_empty s ≡ false
    → all (λ c. not (nat_eq c b',')) s ≡ true
    → IsLabel s
no_comma s h k e = record { no_comma = e; stripped = h; not_empty = k }

parse-front_example :
    parse root (lit "S1-02-conflict.md") (
      lit "---\n"
      ++ front
          (lit "S1-02: Name conflict")
          (label_list (lit "type:feature") (lit "slice:S1" ∷ []))
          (lit "S1 Create project")
          (lit "open")
          (closing ++ lit "\nA 409.\n"))
    ≡ ok (record {
      name = lit "S1-02-conflict.md";
      title = lit "S1-02: Name conflict";
      labels =
          with_slice
            (slice_label (lit "S1-02-conflict.md"))
            (lit "type:feature" ∷ lit "slice:S1" ∷ []);
      milestone = lit "S1 Create project";
      status = lit "open";
      body = strip (lit "\nA 409.\n");
    })
unfolding lit strip is_space lstrip_quotes rstrip_quotes
parse-front_example =
    parse-front root (lit "S1-02-conflict.md") (lit "S1-02: Name conflict") (lit "type:feature")
      (lit "slice:S1" ∷ []) (lit "S1 Create project") (lit "open") (lit "\nA 409.\n")
      (no_comma (lit "type:feature") refl refl refl, (no_comma (lit "slice:S1") refl refl refl, tt))
      (record { line = refl; bare = refl }) (record { line = refl; bare = refl })
      (record { line = refl; bare = refl }) (record { line = refl; bare = refl })
