-- ===== src/Scripts/SeedIssues/Issued.antt =====
-- The issue of each ticket is there once the loop has returned.
use projects_api.Common.{
  Text, lit, ◌==◌, ◌≡◌, refl, sym, ◌∙◌, subst, Bool, true, false, Option, none, some, List, [], ◌∷◌,
  if◌then◌else◌, All,
}
use projects_api.Json.{Json}
use projects_api.Domain.Exceptions.{Result, ok}
use projects_api.World.{pure}
use projects_api.Scripts.Integers.{ℤ, str_int}
use projects_api.Scripts.SeedIssues.{
  Gh, Python, Session, Args, run, existing_issues, close_issue, close_done, end_issue, create_issue,
  seed_ticket, seed_tickets, is_positive, issue_number, body_file, body_text, issue_line, note_of,
}
use projects_api.Scripts.SeedIssues.Commands.{issue_list, issue_create, issue_close}
use projects_api.Scripts.SeedIssues.Github.{Names, Github, is_known}
use projects_api.Scripts.SeedIssues.Known.{numbered, known_number}
use projects_api.Scripts.SeedIssues.Tickets.{Ticket, parse, mem}
use projects_api.Scripts.SeedIssues.Ends.{
  Kept-refl, at, Returns, then_ends, weaken, lift_ends, pure_ends, print_ends, write_ends, run_ends,
}

known_cancel :
    (s t : List (Json × Json)) → ◌≡◌ {A = Result (List (Json × Json))} (ok s) (ok t) → s ≡ t
known_cancel s t e = cc (e)

-- The ticket of each file has an issue.
abbrev pub Present : (root : Text) → List (Text × Text) → Names → Type 0
Present root files n =
    All
      (λ (file : Text × Text).
        (t : Ticket) × (parse root file.0 file.1 ≡ ok t) × (mem t.title n.issues ≡ true))
      files

module _ (G : Gh) (y : Python) (root : Text) (doc : Github G) (repo : Text) (args : Args)
    (real : args.dry_run ≡ false) where
  abbrev pub Known : List (Json × Json) → Names → Type 0
  Known known n =
      (name : Text) → is_known (known_number name known) ≡ true → mem name n.issues ≡ true

  abbrev Has : Text → Names → Type 0
  Has title n = mem title n.issues ≡ true

  close_issue_ends :
      (n : ℤ) (title : Text) (w : Session G.State)
      → Has title (at G y root doc repo w)
      → Returns G y root doc repo (close_issue G y root args repo n) w (λ _ names. Has title names)
  unfolding close_issue
  close_issue_ends n title w h = of (is_positive n)
    where
      closed :
          Returns G y root doc repo
            (run G y root (issue_close repo (str_int n) (note_of args.done_sha)) args.dry_run true)
            w
            (λ _ names. Has title names)
      closed = rw real (
          run_ends G y root doc repo (issue_close repo (str_int n) (note_of args.done_sha)) true w
            (λ _ names. Has title names)
            (λ raw e.
              let kept = doc.issue_closed repo (str_int n) (note_of args.done_sha) w.github raw e in
              (kept, kept.issues title h)))

      of :
          (b : Bool)
          → Returns G y root doc repo
              (if b
                then run G y root
                    (issue_close repo (str_int n) (note_of args.done_sha))
                    args.dry_run
                    true
                else pure [])
              w
              (λ _ names. Has title names)
      of true = closed
      of false = pure_ends G y root doc repo [] w (Has title) h

  end_issue_ends :
      (status : Text) (n : ℤ) (title : Text) (w : Session G.State)
      → Has title (at G y root doc repo w)
      → Returns G y root doc repo
          (end_issue G y root args repo status n)
          w
          (λ _ names. Has title names)
  unfolding end_issue close_done
  end_issue_ends status n title w h = of (status == lit "done")
    where
      of :
          (b : Bool)
          → Returns G y root doc repo
              (if b then close_done G y root args repo n else pure tt)
              w
              (λ _ names. Has title names)
      of true = then_ends G y root doc repo (close_issue_ends n title w h) (λ _ v kept g.
          print_ends G y root doc repo (lit "            closed (done)") v (Has title) g)
      of false = pure_ends G y root doc repo tt w (Has title) h

  create_issue_ends :
      (t : Ticket) (w : Session G.State)
      → Returns G y root doc repo (create_issue G y root args repo t) w (λ _ n. Has t.title n)
  unfolding create_issue
  create_issue_ends t w =
      then_ends G y root doc repo (write_ends G y root doc repo (body_file root t) (body_text t) w)
        (λ _ v _ _. then_ends G y root doc repo (created v) (λ url u _ h.
          then_ends G y root doc repo (lift_ends G y root doc repo (issue_number G y root url) u)
            (λ n z kept _.
              then_ends G y root doc repo
                (print_ends G y root doc repo (issue_line (str_int n) t) z (Has t.title)
                  (kept.issues t.title h))
                (λ _ x _ g. end_issue_ends t.status n t.title x g))))
    where
      created :
          (v : Session G.State)
          → Returns G y root doc repo
              (run G y root
                (issue_create repo t.title (body_file root t) t.milestone t.labels)
                args.dry_run
                true)
              v
              (λ _ n. Has t.title n)
      created v = rw real (
          run_ends G y root doc repo
            (issue_create repo t.title (body_file root t) t.milestone t.labels) true v
            (λ _ n. Has t.title n)
            (λ raw e.
              doc.issue_created repo t.title (body_file root t) t.milestone t.labels v.github raw
                e))

  seed_ticket_ends :
      (known : List (Json × Json)) (t : Ticket) (w : Session G.State)
      → Known known (at G y root doc repo w)
      → Returns G y root doc repo
          (seed_ticket G y root args repo (known_number t.title known) t)
          w
          (λ _ n. Has t.title n)
  unfolding seed_ticket
  seed_ticket_ends known t w sound = of (known_number t.title known) (sound t.title)
    where
      of :
          (o : Option Json)
          → (is_known o ≡ true → Has t.title (at G y root doc repo w))
          → Returns G y root doc repo (seed_ticket G y root args repo o t) w (λ _ n. Has t.title n)
      of none h = create_issue_ends t w
      of (some n) h = print_ends G y root doc repo _ w (Has t.title) (h refl)

  pub seed_tickets_ends :
      (known : List (Json × Json)) (files : List (Text × Text)) (w : Session G.State)
      → Known known (at G y root doc repo w)
      → Returns G y root doc repo
          (seed_tickets G y root args repo known files)
          w
          (λ _ n. Present root files n)
  unfolding seed_tickets
  seed_tickets_ends known [] w sound = pure_ends G y root doc repo tt w (λ n. Unit) tt
  seed_tickets_ends known ((name, text) ∷ files) w sound =
      then_ends G y root doc repo (lift_ends G y root doc repo (parse root name text) w)
        (λ t v kept e.
          then_ends G y root doc repo
            (seed_ticket_ends known t v (λ x h. kept.issues x (sound x h)))
            (λ _ u more has.
              weaken G y root doc repo
                (seed_tickets_ends known files u (λ x h. more.issues x (kept.issues x (sound x h))))
                (λ _ n last all. ((t, e, last.issues t.title has), all))))

  pub existing_issues_ends :
      (w : Session G.State)
      → Returns G y root doc repo (existing_issues G y root repo) w (λ known n. Known known n)
  unfolding existing_issues
  existing_issues_ends w =
      then_ends G y root doc repo
        (run_ends G y root doc repo (issue_list repo) false w
          (λ out n. (found : List (Json × Json)) → numbered out ≡ ok found → Known found n)
          (λ raw e.
            let (known, read, lists) = doc.issues_listed repo w.github raw e in
            rw (doc.reading.issue_list_keeps repo w.github) (
              Kept-refl _,
              λ found f.
                  subst (λ l. Known l (at G y root doc repo w)) (known_cancel _ _ (sym read ∙ f))
                    lists.sound,
            )))
        (λ out v kept sound.
          weaken G y root doc repo (lift_ends G y root doc repo (numbered out) v)
            (λ known n more e x h. more.issues x (sound known e x h)))
