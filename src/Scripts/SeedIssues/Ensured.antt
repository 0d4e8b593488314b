-- ===== src/Scripts/SeedIssues/Ensured.antt =====
-- The labels and milestones of the tables are there once `ensure_labels` and `ensure_milestones` have
-- returned.
use projects_api.Common.{
  Text, lit, ◌≡◌, refl, sym, ◌∙◌, subst, Bool, true, false, List, [], ◌∷◌, ◌++◌, if◌then◌else◌, All,
}
use projects_api.Json.{Json}
use projects_api.Domain.Exceptions.{Result, ok}
use projects_api.World.{pure, ◌>>◌}
use projects_api.Scripts.SeedIssues.{
  Gh, Python, Session, print, run, add_label, add_labels, ensure_labels, add_milestone,
  add_milestones, ensure_milestones,
}
use projects_api.Scripts.SeedIssues.Commands.{
  label_list, label_create, milestone_list, milestone_create,
}
use projects_api.Scripts.SeedIssues.Github.{Names, Github}
use projects_api.Scripts.SeedIssues.Known.{existing_at, contains}
use projects_api.Scripts.SeedIssues.Tables.{labels, milestones}
use projects_api.Scripts.SeedIssues.Tickets.{mem}
use projects_api.Scripts.SeedIssues.Ends.{
  Kept-refl, at, Returns, then_ends, weaken, lift_ends, pure_ends, print_ends, run_ends,
}

ok_cancel : (s t : List Json) → ◌≡◌ {A = Result (List Json)} (ok s) (ok t) → s ≡ t
ok_cancel s t e = cc (e)

module _ (G : Gh) (y : Python) (root : Text) (doc : Github G) (repo : Text) where
  abbrev Labelled : List Json → Names → Type 0
  Labelled existing n = (name : Text) → contains name existing ≡ true → mem name n.labels ≡ true

  add_label_ends :
      (existing : List Json) (name color desc : Text) (w : Session G.State)
      → Labelled existing (at G y root doc repo w)
      → Returns G y root doc repo
          (add_label G y root repo false existing (name, color, desc))
          w
          (λ _ n. mem name n.labels ≡ true)
  unfolding add_label
  add_label_ends existing name color desc w sound = of (contains name existing) (sound name)
    where
      of :
          (b : Bool)
          → (b ≡ true → mem name (at G y root doc repo w).labels ≡ true)
          → Returns G y root doc repo
              (if b then pure tt else (do
                run G y root (label_create repo name color desc) false true
                print G y root (lit "label     + " ++ name)))
              w
              (λ _ n. mem name n.labels ≡ true)
      of true h = pure_ends G y root doc repo tt w (λ n. mem name n.labels ≡ true) (h refl)
      of false h =
          then_ends G y root doc repo
            (run_ends G y root doc repo (label_create repo name color desc) true w
              (λ _ n. mem name n.labels ≡ true)
              (λ raw e. doc.label_created repo name color desc w.github raw e))
            (λ out v kept m. print_ends G y root doc repo _ v (λ n. mem name n.labels ≡ true) m)

  add_labels_ends :
      (existing : List Json) (rows : List (Text × Text × Text)) (w : Session G.State)
      → Labelled existing (at G y root doc repo w)
      → Returns G y root doc repo
          (add_labels G y root repo false existing rows)
          w
          (λ _ n. All (λ (row : Text × Text × Text). mem row.0 n.labels ≡ true) rows)
  unfolding add_labels
  add_labels_ends existing [] w sound = pure_ends G y root doc repo tt w (λ n. Unit) tt
  add_labels_ends existing ((name, color, desc) ∷ rows) w sound =
      then_ends G y root doc repo (add_label_ends existing name color desc w sound) (λ _ v kept m.
        weaken G y root doc repo
          (add_labels_ends existing rows v (λ x c. kept.labels x (sound x c)))
          (λ _ n more all. (more.labels name m, all)))

  abbrev Planned : List Json → Names → Type 0
  Planned existing n = (name : Text) → contains name existing ≡ true → mem name n.milestones ≡ true

  add_milestone_ends :
      (existing : List Json) (name desc : Text) (w : Session G.State)
      → Planned existing (at G y root doc repo w)
      → Returns G y root doc repo
          (add_milestone G y root repo false existing (name, desc))
          w
          (λ _ n. mem name n.milestones ≡ true)
  unfolding add_milestone
  add_milestone_ends existing name desc w sound = of (contains name existing) (sound name)
    where
      of :
          (b : Bool)
          → (b ≡ true → mem name (at G y root doc repo w).milestones ≡ true)
          → Returns G y root doc repo
              (if b then pure tt else (do
                run G y root (milestone_create repo name desc) false true
                print G y root (lit "milestone + " ++ name)))
              w
              (λ _ n. mem name n.milestones ≡ true)
      of true h = pure_ends G y root doc repo tt w (λ n. mem name n.milestones ≡ true) (h refl)
      of false h =
          then_ends G y root doc repo
            (run_ends G y root doc repo (milestone_create repo name desc) true w
              (λ _ n. mem name n.milestones ≡ true)
              (λ raw e. doc.milestone_created repo name desc w.github raw e))
            (λ out v kept m. print_ends G y root doc repo _ v (λ n. mem name n.milestones ≡ true) m)

  add_milestones_ends :
      (existing : List Json) (rows : List (Text × Text)) (w : Session G.State)
      → Planned existing (at G y root doc repo w)
      → Returns G y root doc repo
          (add_milestones G y root repo false existing rows)
          w
          (λ _ n. All (λ (row : Text × Text). mem row.0 n.milestones ≡ true) rows)
  unfolding add_milestones
  add_milestones_ends existing [] w sound = pure_ends G y root doc repo tt w (λ n. Unit) tt
  add_milestones_ends existing ((name, desc) ∷ rows) w sound =
      then_ends G y root doc repo (add_milestone_ends existing name desc w sound) (λ _ v kept m.
        weaken G y root doc repo
          (add_milestones_ends existing rows v (λ x c. kept.milestones x (sound x c)))
          (λ _ n more all. (more.milestones name m, all)))

  pub ensure_labels_ends :
      (w : Session G.State)
      → Returns G y root doc repo
          (ensure_labels G y root repo false)
          w
          (λ _ n. All (λ (row : Text × Text × Text). mem row.0 n.labels ≡ true) labels)
  unfolding ensure_labels
  ensure_labels_ends w =
      then_ends G y root doc repo
        (run_ends G y root doc repo (label_list repo) false w
          (λ out n. (found : List Json) → existing_at "name" out ≡ ok found → Labelled found n)
          (λ raw e.
            let (existing, read, lists) = doc.labels_listed repo w.github raw e in
            rw (doc.reading.label_list_keeps repo w.github) (
              Kept-refl _,
              λ found f.
                  subst (λ l. Labelled l (at G y root doc repo w)) (ok_cancel _ _ (sym read ∙ f))
                    lists.sound,
            )))
        (λ out v kept sound.
          then_ends G y root doc repo (lift_ends G y root doc repo (existing_at "name" out) v)
            (λ found u more f.
              add_labels_ends found labels u (λ x c. more.labels x (sound found f x c))))

  pub ensure_milestones_ends :
      (w : Session G.State)
      → Returns G y root doc repo
          (ensure_milestones G y root repo false)
          w
          (λ _ n. All (λ (row : Text × Text). mem row.0 n.milestones ≡ true) milestones)
  unfolding ensure_milestones
  ensure_milestones_ends w =
      then_ends G y root doc repo
        (run_ends G y root doc repo (milestone_list repo) false w
          (λ out n. (found : List Json) → existing_at "title" out ≡ ok found → Planned found n)
          (λ raw e.
            let (existing, read, lists) = doc.milestones_listed repo w.github raw e in
            rw (doc.reading.milestone_list_keeps repo w.github) (
              Kept-refl _,
              λ found f.
                  subst (λ l. Planned l (at G y root doc repo w)) (ok_cancel _ _ (sym read ∙ f))
                    lists.sound,
            )))
        (λ out v kept sound.
          then_ends G y root doc repo (lift_ends G y root doc repo (existing_at "title" out) v)
            (λ found u more f.
              add_milestones_ends found milestones u
                (λ x c. more.milestones x (sound found f x c))))
