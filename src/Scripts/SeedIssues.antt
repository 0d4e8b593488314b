-- ===== src/Scripts/SeedIssues.antt =====
-- scripts/seed_issues.py: labels, milestones and issues made from the files of docs/tickets.
pub mod Commands
pub mod Known
pub mod Tables
pub mod Tickets
pub mod DryRun
pub mod Github
pub mod Ends
pub mod Ensured
pub mod Issued
pub mod Seeded
pub mod Idle
pub mod Again
pub mod TicketFile
use projects_api.Common.{
  ℕ, suc, Text, lit, ◌==◌, Bool, true, false, ◌&&◌, Option, none, some, List, [], ◌∷◌, ◌++◌, all,
  nat_eq, if◌then◌else◌,
}
use projects_api.Json.{Json, null, bool, number, string}
use projects_api.Json.Numbers.{is_digit}
use projects_api.Domain.Exceptions.{Result, ok}
use projects_api.Domain.Validation.{strip}
use projects_api.World.{Stateful, pure, lift, continue, ◌>>=◌, ◌>>◌}
use projects_api.Scripts.Integers.{ℤ, pos, negsuc, int, str_int}
use projects_api.Scripts.SeedIssues.Commands.{
  label_list, label_create, milestone_list, milestone_create, issue_list, issue_create, issue_close,
  repo_view, spaced,
}
use projects_api.Scripts.SeedIssues.Known.{existing_at, contains, numbered, known_number}
use projects_api.Scripts.SeedIssues.Tables.{labels, milestones}
use projects_api.Scripts.SeedIssues.Tickets.{Ticket, parse}

-- The GitHub CLI: a command has its standard output, or raises a `CalledProcessError`.
pub record Gh : Type 1 where
  pub State : Type 0
  pub call : List Text → State → Result Text × State

-- What Python does beyond the model: the text of a JSON value that is neither a text nor a natural
-- number, and `int` of a text that is not ASCII.
pub record Python : Type 0 where
  pub str_json : Json → Text
  pub int_beyond : Text → Result ℤ

-- The repository behind the CLI, what was printed and the files that were written.
pub record Session (State : Type 0) : Type 0 where
  pub github : State
  pub printed : List Text
  pub written : List (Text × Text)

-- The arguments of the command line.
pub record Args : Type 0 where
  pub repo : Option Text
  pub done_sha : Option Text
  pub dry_run : Bool

-- `str(value)` of a value that json.loads returned
unfoldable pub str_known : Python → Json → Text
str_known y (string s) = s
str_known y (number n) = if all is_digit n then n else y.str_json (number n)
str_known y v = y.str_json v

abbrev after_slash : Text → Text → Text
after_slash last [] = last
after_slash last (c ∷ s) = after_slash (if nat_eq c b'/' then s else last) s

-- `url.rsplit("/", 1)[-1]`
unfoldable pub last_segment : Text → Text
last_segment url = after_slash url url

abbrev is_positive : ℤ → Bool
is_positive (pos (suc n)) = true
is_positive _ = false

abbrev pub note_of : (done_sha : Option Text) → Text
note_of none = lit "Implemented in the initial commit."
note_of (some []) = lit "Implemented in the initial commit."
note_of (some (c ∷ sha)) = lit "Implemented in " ++ ((c ∷ sha) ++ lit ".")

abbrev pub body_file : (root : Text) → Ticket → Text
body_file root t = root ++ (lit "/build/issue_bodies/" ++ t.name)

abbrev pub body_text : Ticket → Text
body_text t = t.body ++ (lit "\n\n---\n_Seed: `docs/tickets/" ++ (t.name ++ lit "`_\n"))

abbrev pub issue_line : (number : Text) → Ticket → Text
issue_line n t = lit "issue     + #" ++ (n ++ (lit " " ++ t.title))

module _ (G : Gh) (y : Python) (root : Text) where
  abbrev pub Run : Type 0 → Type 0
  Run A = Stateful (Session G.State) A

  abbrev pub print : Text → Run Unit
  print line w = (ok tt, record w { printed = w.printed ++ line ∷ [] })

  abbrev pub write_file : Text → Text → Run Unit
  write_file path text w = (ok tt, record w { written = w.written ++ (path, text) ∷ [] })

  abbrev pub call : List Text → Run Text
  call cmd w = ((G.call cmd w.github).0, record w { github = (G.call cmd w.github).1 })

  unfoldable pub run : List Text → (dry_run : Bool) → (mutating : Bool) → Run Text
  unfolding ◌>>=◌ lit strip
  run cmd dry_run mutating =
      if dry_run && mutating
      then (do print (lit "DRY: " ++ spaced cmd); pure [])
      else (do stdout ← call cmd; pure (strip stdout))

  unfoldable pub add_label :
      (repo : Text) → (dry_run : Bool) → (existing : List Json) → Text × Text × Text → Run Unit
  unfolding ◌>>=◌ run label_create contains lit
  add_label repo dry_run existing (name, color, desc) =
      if contains name existing then pure tt else (do
        run (label_create repo name color desc) dry_run true
        print (lit "label     + " ++ name))

  unfoldable pub add_labels :
      (repo : Text)
      → (dry_run : Bool) → (existing : List Json) → List (Text × Text × Text)
      → Run Unit
  unfolding ◌>>=◌ add_label
  add_labels repo dry_run existing [] = pure tt
  add_labels repo dry_run existing (label ∷ rest) = do
    add_label repo dry_run existing label
    add_labels repo dry_run existing rest

  unfoldable pub ensure_labels : (repo : Text) → (dry_run : Bool) → Run Unit
  unfolding ◌>>=◌ run label_list existing_at add_labels labels
  ensure_labels repo dry_run = do
    raw ← run (label_list repo) false false
    existing ← lift (existing_at "name" raw)
    add_labels repo dry_run existing labels

  unfoldable pub add_milestone :
      (repo : Text) → (dry_run : Bool) → (existing : List Json) → Text × Text → Run Unit
  unfolding ◌>>=◌ run milestone_create contains lit
  add_milestone repo dry_run existing (title, desc) =
      if contains title existing then pure tt else (do
        run (milestone_create repo title desc) dry_run true
        print (lit "milestone + " ++ title))

  unfoldable pub add_milestones :
      (repo : Text) → (dry_run : Bool) → (existing : List Json) → List (Text × Text) → Run Unit
  unfolding ◌>>=◌ add_milestone
  add_milestones repo dry_run existing [] = pure tt
  add_milestones repo dry_run existing (milestone ∷ rest) = do
    add_milestone repo dry_run existing milestone
    add_milestones repo dry_run existing rest

  unfoldable pub ensure_milestones : (repo : Text) → (dry_run : Bool) → Run Unit
  unfolding ◌>>=◌ run milestone_list existing_at add_milestones milestones
  ensure_milestones repo dry_run = do
    raw ← run (milestone_list repo) false false
    existing ← lift (existing_at "title" raw)
    add_milestones repo dry_run existing milestones

  unfoldable pub existing_issues : (repo : Text) → Run (List (Json × Json))
  unfolding ◌>>=◌ run issue_list numbered
  existing_issues repo = do raw ← run (issue_list repo) false false; lift (numbered raw)

  -- `int(url.rsplit("/", 1)[-1]) if url else -1`
  unfoldable pub issue_number : (url : Text) → Result ℤ
  unfolding int last_segment
  issue_number [] = ok (negsuc 0)
  issue_number (c ∷ url) = int y.int_beyond (last_segment (c ∷ url))

  -- `if number > 0`
  unfoldable pub close_issue : Args → (repo : Text) → ℤ → Run Text
  unfolding run issue_close str_int lit
  close_issue args repo n =
      if is_positive n
      then run (issue_close repo (str_int n) (note_of args.done_sha)) args.dry_run true
      else pure []

  -- The end of the loop's body, for a ticket with the status `done`.
  unfoldable pub close_done : Args → (repo : Text) → ℤ → Run Unit
  unfolding ◌>>=◌ close_issue lit
  close_done args repo n = do close_issue args repo n; print (lit "            closed (done)")

  -- `if t.status == "done"`
  unfoldable pub end_issue : Args → (repo : Text) → (status : Text) → ℤ → Run Unit
  unfolding close_done lit ◌==◌
  end_issue args repo status n = if status == lit "done" then close_done args repo n else pure tt

  -- A ticket that has no issue yet.
  unfoldable pub create_issue : Args → (repo : Text) → Ticket → Run Unit
  unfolding ◌>>=◌ run issue_create issue_number str_int end_issue lit
  create_issue args repo t = do
    write_file (body_file root t) (body_text t)
    url ← run (issue_create repo t.title (body_file root t) t.milestone t.labels) args.dry_run true
    n ← lift (issue_number url)
    print (issue_line (str_int n) t)
    end_issue args repo t.status n

  -- The body of the loop, for the number that `known` has of the title.
  unfoldable pub seed_ticket : Args → (repo : Text) → Option Json → Ticket → Run Unit
  unfolding create_issue str_known lit
  seed_ticket args repo (some n) t =
      print (lit "issue     = #" ++ (str_known y n ++ (lit " " ++ t.title)))
  seed_ticket args repo none t = create_issue args repo t

  -- The loop of `main`. A file of docs/tickets is its name and its text.
  unfoldable pub seed_tickets :
      Args → (repo : Text) → (known : List (Json × Json)) → List (Text × Text) → Run Unit
  unfolding ◌>>=◌ parse seed_ticket known_number
  seed_tickets args repo known [] = pure tt
  seed_tickets args repo known ((name, text) ∷ files) = do
    t ← lift (parse root name text)
    seed_ticket args repo (known_number t.title known) t
    seed_tickets args repo known files

  -- `args.repo or run(...)`
  abbrev repo_of : Option Text → Run Text
  repo_of none = run repo_view false false
  repo_of (some []) = run repo_view false false
  repo_of (some (c ∷ repo)) = pure (c ∷ repo)

  -- `main` behind its first line, with the files of `TICKETS`
  unfoldable pub seed : Args → List (Text × Text) → (repo : Text) → Run ℕ
  unfolding ◌>>=◌ ensure_labels ensure_milestones existing_issues seed_tickets lit
  seed args tickets repo = do
    print (lit "repo: " ++ repo)
    ensure_labels repo args.dry_run
    ensure_milestones repo args.dry_run
    known ← existing_issues repo
    seed_tickets args repo known tickets
    pure 0

  unfoldable pub main : Args → List (Text × Text) → Run ℕ
  unfolding ◌>>=◌ run repo_view seed
  main args tickets = do repo ← repo_of args.repo; seed args tickets repo
