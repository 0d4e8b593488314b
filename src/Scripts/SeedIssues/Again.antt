-- ===== src/Scripts/SeedIssues/Again.antt =====
-- A run on a repository that is seeded already.
use projects_api.Common.{
  length, ◌≤◌, ℕ, Text, lit, ◌≡◌, refl, sym, ◌∙◌, ap, subst, Bool, true, false, Option, none, some,
  List, [], ◌∷◌, ◌++◌, All, All-map,
}
use projects_api.Json.{Json}
use projects_api.Domain.Exceptions.{ok}
use projects_api.World.{◌>>=◌}
use projects_api.Scripts.SeedIssues.{
  Gh, Python, Session, Args, add_label, add_labels, ensure_labels, add_milestone, add_milestones,
  ensure_milestones, existing_issues, seed_ticket, seed_tickets, seed, main,
}
use projects_api.Scripts.SeedIssues.Commands.{label_list, milestone_list, issue_list}
use projects_api.Scripts.SeedIssues.Github.{Names, Github, is_known}
use projects_api.Scripts.SeedIssues.Known.{existing_at, contains, numbered, known_number}
use projects_api.Scripts.SeedIssues.Tables.{labels, milestones}
use projects_api.Scripts.SeedIssues.Tickets.{Ticket, parse, mem}
use projects_api.Scripts.SeedIssues.Github.{IsUp}
use projects_api.Scripts.SeedIssues.Issued.{Present}
use projects_api.Scripts.SeedIssues.Idle.{
  Idle, then_quiet, pure_quiet, zero_quiet, lift_quiet, print_quiet, run_quiet,
}
use projects_api.Scripts.SeedIssues.Seeded.{IsSeeded, main-IsSeeded}

-- The lists show all that there is.
pub record IsShown (n : Names) : Type 0 where
  pub labels : length n.labels ≤ 200
  pub milestones : length n.milestones ≤ 100
  pub issues : length n.issues ≤ 500

module _ (G : Gh) (y : Python) (root : Text) where
  module _ (repo : Text) (dry : Bool) (s : G.State) where
    add_label_quiet :
        (existing : List Json) (row : Text × Text × Text)
        → contains row.0 existing ≡ true
        → Idle G y root (add_label G y root repo dry existing row) s (λ b. Unit)
    unfolding add_label
    add_label_quiet existing (name, color, desc) e = rw e (pure_quiet G y root tt s)

    add_labels_quiet :
        (existing : List Json) (rows : List (Text × Text × Text))
        → All (λ (row : Text × Text × Text). contains row.0 existing ≡ true) rows
        → Idle G y root (add_labels G y root repo dry existing rows) s (λ b. Unit)
    unfolding add_labels
    add_labels_quiet existing [] h = pure_quiet G y root tt s
    add_labels_quiet existing (row ∷ rows) (e, h) =
        then_quiet G y root (add_label_quiet existing row e)
          (λ _ _. add_labels_quiet existing rows h)

    add_milestone_quiet :
        (existing : List Json) (row : Text × Text)
        → contains row.0 existing ≡ true
        → Idle G y root (add_milestone G y root repo dry existing row) s (λ b. Unit)
    unfolding add_milestone
    add_milestone_quiet existing (title, desc) e = rw e (pure_quiet G y root tt s)

    add_milestones_quiet :
        (existing : List Json) (rows : List (Text × Text))
        → All (λ (row : Text × Text). contains row.0 existing ≡ true) rows
        → Idle G y root (add_milestones G y root repo dry existing rows) s (λ b. Unit)
    unfolding add_milestones
    add_milestones_quiet existing [] h = pure_quiet G y root tt s
    add_milestones_quiet existing (row ∷ rows) (e, h) =
        then_quiet G y root (add_milestone_quiet existing row e)
          (λ _ _. add_milestones_quiet existing rows h)

  module _ (doc : Github G) (up : IsUp G) (repo : Text) (args : Args) (s : G.State)
      (shown : IsShown (doc.names repo s)) where
    ensure_labels_quiet :
        All (λ (row : Text × Text × Text). mem row.0 (doc.names repo s).labels ≡ true) labels
        → Idle G y root (ensure_labels G y root repo args.dry_run) s (λ b. Unit)
    unfolding ensure_labels
    ensure_labels_quiet there =
        let (raw, e) = up.labels repo s in
        let (existing, read, lists) = doc.labels_listed repo s raw e in
        let found =
          All-map (λ (row : Text × Text × Text) m. lists.complete shown.labels row.0 m) labels
            there in
        then_quiet G y root
          (run_quiet G y root (label_list repo) raw s e (doc.reading.label_list_keeps repo s))
          (λ out same.
            then_quiet G y root
              (lift_quiet G y root (existing_at "name" out) existing s
                (ap (λ t. existing_at "name" t) same ∙ read))
              (λ l is. add_labels_quiet repo args.dry_run s l labels (
                subst (λ l. All (λ (row : Text × Text × Text). contains row.0 l ≡ true) labels)
                  (sym is) found)))

    ensure_milestones_quiet :
        All (λ (row : Text × Text). mem row.0 (doc.names repo s).milestones ≡ true) milestones
        → Idle G y root (ensure_milestones G y root repo args.dry_run) s (λ b. Unit)
    unfolding ensure_milestones
    ensure_milestones_quiet there =
        let (raw, e) = up.milestones repo s in
        let (existing, read, lists) = doc.milestones_listed repo s raw e in
        let found =
          All-map (λ (row : Text × Text) m. lists.complete shown.milestones row.0 m) milestones
            there in
        then_quiet G y root
          (run_quiet G y root (milestone_list repo) raw s e
            (doc.reading.milestone_list_keeps repo s))
          (λ out same.
            then_quiet G y root
              (lift_quiet G y root (existing_at "title" out) existing s
                (ap (λ t. existing_at "title" t) same ∙ read))
              (λ l is. add_milestones_quiet repo args.dry_run s l milestones (
                subst (λ l. All (λ (row : Text × Text). contains row.0 l ≡ true) milestones)
                  (sym is) found)))

    abbrev Knows : List (Json × Json) → Type 0
    Knows known =
        (name : Text)
        → mem name (doc.names repo s).issues ≡ true
        → is_known (known_number name known) ≡ true

    existing_issues_quiet : Idle G y root (existing_issues G y root repo) s Knows
    unfolding existing_issues
    existing_issues_quiet =
        let (raw, e) = up.issues repo s in
        let (known, read, lists) = doc.issues_listed repo s raw e in
        then_quiet G y root
          (run_quiet G y root (issue_list repo) raw s e (doc.reading.issue_list_keeps repo s))
          (λ out same. record {
            quiet = λ w here. (known, ap numbered same ∙ read, here, lists.complete shown.issues);
          })

    seed_ticket_quiet :
        (known : Option Json) (t : Ticket)
        → is_known known ≡ true
        → Idle G y root (seed_ticket G y root args repo known t) s (λ b. Unit)
    unfolding seed_ticket
    seed_ticket_quiet none t h = cc (h)
    seed_ticket_quiet (some n) t h = print_quiet G y root _ s

    seed_tickets_quiet :
        (known : List (Json × Json)) (files : List (Text × Text))
        → Knows known
        → Present root files (doc.names repo s)
        → Idle G y root (seed_tickets G y root args repo known files) s (λ b. Unit)
    unfolding seed_tickets
    seed_tickets_quiet known [] k there = pure_quiet G y root tt s
    seed_tickets_quiet known ((name, text) ∷ files) k ((t, read, has), there) =
        then_quiet G y root (lift_quiet G y root (parse root name text) t s read) (λ u is.
          then_quiet G y root
            (seed_ticket_quiet (known_number u.title known) u (
              k u.title (
                subst (λ (x : Ticket). mem x.title (doc.names repo s).issues ≡ true) (sym is) has)))
            (λ _ _. seed_tickets_quiet known files k there))

    seed_quiet :
        (files : List (Text × Text))
        → IsSeeded root files (doc.names repo s)
        → Idle G y root (seed G y root args files repo) s (λ n. n ≡ 0)
    unfolding seed
    seed_quiet files v = then_quiet G y root (print_quiet G y root (lit "repo: " ++ repo) s) (λ _ _.
        then_quiet G y root (ensure_labels_quiet v.labels_there) (λ _ _.
          then_quiet G y root (ensure_milestones_quiet v.milestones_there) (λ _ _.
            then_quiet G y root existing_issues_quiet (λ known k.
              then_quiet G y root (seed_tickets_quiet known files k v.issues_there)
                (λ _ _. zero_quiet G y root s)))))

-- A run on a seeded repository, of which the lists show everything, returns and changes nothing.
main_again :
    (G : Gh) (y : Python) (root : Text) (doc : Github G) (up : IsUp G) (args : Args)
    (files : List (Text × Text)) (c : ℕ) (repo : Text) (w : Session G.State)
    → args.repo ≡ some (c ∷ repo)
    → IsShown (doc.names (c ∷ repo) w.github)
    → IsSeeded root files (doc.names (c ∷ repo) w.github)
    → ((main G y root args files w).0 ≡ ok 0) × ((main G y root args files w).1.github ≡ w.github)
unfolding main ◌>>=◌
main_again G y root doc up args files c repo w named shown v =
    let (n, returned, same, zero_is) =
      (seed_quiet G y root doc up (c ∷ repo) args w.github shown files v).quiet w refl in
    rw named (returned ∙ ap (λ (k : ℕ). ok k) zero_is, same)

-- The script is idempotent: after a run of `main` for a repository that was no dry run and
-- returned, a run on the same ticket files, whatever its other arguments, returns 0 and leaves the
-- repository as it is, if the lists of labels, milestones and issues are answered and there are at
-- most 200, 100 and 500 of them.
pub main-main :
    (G : Gh) (y : Python) (root : Text) (doc : Github G) (up : IsUp G) (args later : Args)
    (files : List (Text × Text)) (c : ℕ) (repo : Text) (w u : Session G.State) (status : ℕ)
    → args.repo ≡ some (c ∷ repo)
    → args.dry_run ≡ false
    → (main G y root args files w).0 ≡ ok status
    → later.repo ≡ some (c ∷ repo)
    → u.github ≡ (main G y root args files w).1.github
    → IsShown (doc.names (c ∷ repo) u.github)
    → ((main G y root later files u).0 ≡ ok 0) × ((main G y root later files u).1.github ≡ u.github)
main-main G y root doc up args later files c repo w u status named real h again from shown =
    main_again G y root doc up later files c repo u again shown
      (rw from (main-IsSeeded G y root doc args files c repo w status named real h))
