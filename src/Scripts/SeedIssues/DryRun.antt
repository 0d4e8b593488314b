-- ===== src/Scripts/SeedIssues/DryRun.antt =====
-- A dry run leaves the repository as it is.
use projects_api.Common.{
  Text, ◌==◌, lit, ◌≡◌, refl, ◌∙◌, Bool, true, false, ◌&&◌, Option, none, some, List, [], ◌∷◌, ◌++◌,
  if◌then◌else◌,
}
use projects_api.Json.{Json}
use projects_api.Domain.Exceptions.{Result, ok, raise}
use projects_api.Domain.Validation.{strip}
use projects_api.World.{pure, lift, continue, ◌>>=◌}
use projects_api.Scripts.Integers.{ℤ, str_int}
use projects_api.Scripts.SeedIssues.{
  Gh, Python, Session, Args, Run, print, write_file, run, add_label, add_labels, ensure_labels,
  add_milestone, add_milestones, ensure_milestones, existing_issues, close_issue, close_done,
  end_issue, note_of, body_file, body_text, issue_line, create_issue, seed_ticket, seed_tickets,
  repo_of, seed, main, is_positive, issue_number,
}
use projects_api.Scripts.SeedIssues.Commands.{
  spaced, issue_create, issue_close, label_create, milestone_create, repo_view, label_list,
  milestone_list, issue_list,
}
use projects_api.Scripts.SeedIssues.Known.{existing_at, contains, numbered, known_number}
use projects_api.Scripts.SeedIssues.Tables.{labels, milestones}
use projects_api.Scripts.SeedIssues.Tickets.{Ticket, parse}

-- The commands that only read change nothing.
pub record Reading (G : Gh) : Type 0 where
  pub repo_view_keeps : (s : G.State) → (G.call repo_view s).1 ≡ s
  pub label_list_keeps : (repo : Text) (s : G.State) → (G.call (label_list repo) s).1 ≡ s
  pub milestone_list_keeps : (repo : Text) (s : G.State) → (G.call (milestone_list repo) s).1 ≡ s
  pub issue_list_keeps : (repo : Text) (s : G.State) → (G.call (issue_list repo) s).1 ≡ s

module _ (G : Gh) (y : Python) (root : Text) (reading : Reading G) where
  abbrev R : Type 0 → Type 0
  R A = Run G y root A

  record Still {A : Type 0} (m : R A) : Type 0 where
    keeps : (w : Session G.State) → (m w).1.github ≡ w.github

  then_keeps :
      {A B : Type 0} {m : R A} {f : A → R B} → Still m → ((a : A) → Still (f a)) → Still (m >>= f)
  unfolding ◌>>=◌
  then_keeps {A = A} {m = m} {f = f} h k = record { keeps = λ w. of (m w).0 (m w).1 ∙ h.keeps w }
    where
      of : (x : Result A) (v : Session G.State) → (continue x f v).1.github ≡ v.github
      of (ok a) v = (k a).keeps v
      of (raise e) v = refl

  pure_keeps : {A : Type 0} (a : A) → Still (pure a)
  pure_keeps a = record { keeps = λ w. refl }

  lift_keeps : {A : Type 0} (x : Result A) → Still (lift x)
  lift_keeps x = record { keeps = λ w. refl }

  print_keeps : (line : Text) → Still (print G y root line)
  print_keeps line = record { keeps = λ w. refl }

  write_keeps : (path text : Text) → Still (write_file G y root path text)
  write_keeps path text = record { keeps = λ w. refl }

  if_keeps : {A : Type 0} (b : Bool) {m k : R A} → Still m → Still k → Still (if b then m else k)
  if_keeps true h g = h
  if_keeps false h g = g

  run_dry : (cmd : List Text) → Still (run G y root cmd true true)
  unfolding run ◌>>=◌
  run_dry cmd = record { keeps = λ w. refl }

  run_reading :
      (cmd : List Text) (dry : Bool)
      → ((s : G.State) → (G.call cmd s).1 ≡ s)
      → Still (run G y root cmd dry false)
  unfolding run
  run_reading cmd dry h =
      if_keeps (dry && false)
        (then_keeps (print_keeps (lit "DRY: " ++ spaced cmd)) (λ _. pure_keeps []))
        (then_keeps (record { keeps = λ w. h w.github }) (λ out. pure_keeps (strip out)))

  add_label_keeps :
      (repo : Text) (existing : List Json) (row : Text × Text × Text)
      → Still (add_label G y root repo true existing row)
  unfolding add_label
  add_label_keeps repo existing (name, color, desc) =
      if_keeps (contains name existing) (pure_keeps tt) (
        then_keeps (run_dry (label_create repo name color desc))
          (λ _. print_keeps (lit "label     + " ++ name)))

  add_labels_keeps :
      (repo : Text) (existing : List Json) (rows : List (Text × Text × Text))
      → Still (add_labels G y root repo true existing rows)
  unfolding add_labels
  add_labels_keeps repo existing [] = pure_keeps tt
  add_labels_keeps repo existing (row ∷ rows) =
      then_keeps (add_label_keeps repo existing row) (λ _. add_labels_keeps repo existing rows)

  ensure_labels_keeps : (repo : Text) → Still (ensure_labels G y root repo true)
  unfolding ensure_labels
  ensure_labels_keeps repo =
      then_keeps (run_reading (label_list repo) false (reading.label_list_keeps repo)) (λ raw.
        then_keeps (lift_keeps (existing_at "name" raw))
          (λ existing. add_labels_keeps repo existing labels))

  add_milestone_keeps :
      (repo : Text) (existing : List Json) (row : Text × Text)
      → Still (add_milestone G y root repo true existing row)
  unfolding add_milestone
  add_milestone_keeps repo existing (title, desc) =
      if_keeps (contains title existing) (pure_keeps tt) (
        then_keeps (run_dry (milestone_create repo title desc))
          (λ _. print_keeps (lit "milestone + " ++ title)))

  add_milestones_keeps :
      (repo : Text) (existing : List Json) (rows : List (Text × Text))
      → Still (add_milestones G y root repo true existing rows)
  unfolding add_milestones
  add_milestones_keeps repo existing [] = pure_keeps tt
  add_milestones_keeps repo existing (row ∷ rows) =
      then_keeps (add_milestone_keeps repo existing row)
        (λ _. add_milestones_keeps repo existing rows)

  ensure_milestones_keeps : (repo : Text) → Still (ensure_milestones G y root repo true)
  unfolding ensure_milestones
  ensure_milestones_keeps repo =
      then_keeps (run_reading (milestone_list repo) false (reading.milestone_list_keeps repo))
        (λ raw.
          then_keeps (lift_keeps (existing_at "title" raw))
            (λ existing. add_milestones_keeps repo existing milestones))

  existing_issues_keeps : (repo : Text) → Still (existing_issues G y root repo)
  unfolding existing_issues
  existing_issues_keeps repo =
      then_keeps (run_reading (issue_list repo) false (reading.issue_list_keeps repo))
        (λ raw. lift_keeps (numbered raw))

  module _ (args : Args) (dry : args.dry_run ≡ true) (repo : Text) where
    run_keeps : (cmd : List Text) → Still (run G y root cmd args.dry_run true)
    run_keeps cmd = rw dry (run_dry cmd)

    close_issue_keeps : (n : ℤ) → Still (close_issue G y root args repo n)
    unfolding close_issue
    close_issue_keeps n =
        if_keeps (is_positive n) (run_keeps (issue_close repo (str_int n) (note_of args.done_sha)))
          (pure_keeps [])

    close_done_keeps : (n : ℤ) → Still (close_done G y root args repo n)
    unfolding close_done
    close_done_keeps n =
        then_keeps (close_issue_keeps n) (λ _. print_keeps (lit "            closed (done)"))

    end_issue_keeps : (status : Text) (n : ℤ) → Still (end_issue G y root args repo status n)
    unfolding end_issue
    end_issue_keeps status n = if_keeps (status == lit "done") (close_done_keeps n) (pure_keeps tt)

    create_issue_keeps : (t : Ticket) → Still (create_issue G y root args repo t)
    unfolding create_issue
    create_issue_keeps t = then_keeps (write_keeps (body_file root t) (body_text t)) (λ _.
        then_keeps (run_keeps (issue_create repo t.title (body_file root t) t.milestone t.labels))
          (λ url. then_keeps (lift_keeps (issue_number G y root url)) (λ n.
            then_keeps (print_keeps (issue_line (str_int n) t)) (λ _. end_issue_keeps t.status n))))

    seed_ticket_keeps :
        (known : Option Json) (t : Ticket) → Still (seed_ticket G y root args repo known t)
    unfolding seed_ticket
    seed_ticket_keeps (some n) t = print_keeps _
    seed_ticket_keeps none t = create_issue_keeps t

    seed_tickets_keeps :
        (known : List (Json × Json)) (files : List (Text × Text))
        → Still (seed_tickets G y root args repo known files)
    unfolding seed_tickets
    seed_tickets_keeps known [] = pure_keeps tt
    seed_tickets_keeps known ((name, text) ∷ files) =
        then_keeps (lift_keeps (parse root name text)) (λ t.
          then_keeps (seed_ticket_keeps (known_number t.title known) t)
            (λ _. seed_tickets_keeps known files))

    labels_keep : Still (ensure_labels G y root repo args.dry_run)
    labels_keep = rw dry (ensure_labels_keeps repo)

    milestones_keep : Still (ensure_milestones G y root repo args.dry_run)
    milestones_keep = rw dry (ensure_milestones_keeps repo)

    seed_keeps : (files : List (Text × Text)) → Still (seed G y root args files repo)
    unfolding seed
    seed_keeps files = then_keeps (print_keeps (lit "repo: " ++ repo)) (λ _.
        then_keeps labels_keep (λ _. then_keeps milestones_keep (λ _.
          then_keeps (existing_issues_keeps repo)
            (λ known. then_keeps (seed_tickets_keeps known files) (λ _. pure_keeps 0)))))

  repo_of_keeps : (o : Option Text) → Still (repo_of G y root o)
  repo_of_keeps none = run_reading repo_view false reading.repo_view_keeps
  repo_of_keeps (some []) = run_reading repo_view false reading.repo_view_keeps
  repo_of_keeps (some (c ∷ repo)) = pure_keeps (c ∷ repo)

  -- A dry run of `main`, however it ends, leaves the repository as it was, if the commands that
  -- list and view change nothing.
  pub main-dry_run :
      (args : Args) (files : List (Text × Text)) (w : Session G.State)
      → args.dry_run ≡ true
      → (main G y root args files w).1.github ≡ w.github
  main-dry_run args files w dry = of.keeps w
    where
      of : Still (main G y root args files)
      of =
          unfold main in
          then_keeps (repo_of_keeps args.repo) (λ repo. seed_keeps args dry repo files)
