-- ===== src/Scripts/SeedIssues/Seeded.antt =====
-- A run that returns has seeded the repository: each label, each milestone and an issue of each
-- ticket is there.
use projects_api.Common.{ℕ, Text, lit, ◌≡◌, true, false, some, List, ◌∷◌, ◌++◌, All, All-map}
use projects_api.Domain.Exceptions.{ok}
use projects_api.World.{◌>>=◌}
use projects_api.Scripts.SeedIssues.{
  Gh, Python, Session, Args, ensure_labels, ensure_milestones, seed, main,
}
use projects_api.Scripts.SeedIssues.Github.{Names, Kept, Github}
use projects_api.Scripts.SeedIssues.Tables.{labels, milestones}
use projects_api.Scripts.SeedIssues.Tickets.{mem}
use projects_api.Scripts.SeedIssues.Ends.{Returns, then_ends, pure_ends, print_ends}
use projects_api.Scripts.SeedIssues.Ensured.{ensure_labels_ends, ensure_milestones_ends}
use projects_api.Scripts.SeedIssues.Issued.{Present, seed_tickets_ends, existing_issues_ends}

pub record IsSeeded (root : Text) (files : List (Text × Text)) (n : Names) : Type 0 where
  pub labels_there : All (λ (row : Text × Text × Text). mem row.0 n.labels ≡ true) labels
  pub milestones_there : All (λ (row : Text × Text). mem row.0 n.milestones ≡ true) milestones
  pub issues_there : Present root files n

labels_carry :
    (rows : List (Text × Text × Text)) (a b : Names)
    → Kept a b
    → All (λ (row : Text × Text × Text). mem row.0 a.labels ≡ true) rows
    → All (λ (row : Text × Text × Text). mem row.0 b.labels ≡ true) rows
labels_carry rows a b k = All-map (λ row m. k.labels row.0 m) rows

milestones_carry :
    (rows : List (Text × Text)) (a b : Names)
    → Kept a b
    → All (λ (row : Text × Text). mem row.0 a.milestones ≡ true) rows
    → All (λ (row : Text × Text). mem row.0 b.milestones ≡ true) rows
milestones_carry rows a b k = All-map (λ row m. k.milestones row.0 m) rows

module _ (G : Gh) (y : Python) (root : Text) (doc : Github G) (repo : Text) (args : Args)
    (real : args.dry_run ≡ false) where
  labels_end :
      (w : Session G.State)
      → Returns G y root doc repo
          (ensure_labels G y root repo args.dry_run)
          w
          (λ _ n. All (λ (row : Text × Text × Text). mem row.0 n.labels ≡ true) labels)
  labels_end w = rw real (ensure_labels_ends G y root doc repo w)

  milestones_end :
      (w : Session G.State)
      → Returns G y root doc repo
          (ensure_milestones G y root repo args.dry_run)
          w
          (λ _ n. All (λ (row : Text × Text). mem row.0 n.milestones ≡ true) milestones)
  milestones_end w = rw real (ensure_milestones_ends G y root doc repo w)

  seed_ends :
      (files : List (Text × Text)) (w : Session G.State)
      → Returns G y root doc repo (seed G y root args files repo) w (λ _ n. IsSeeded root files n)
  unfolding seed
  seed_ends files w =
      then_ends G y root doc repo
        (print_ends G y root doc repo (lit "repo: " ++ repo) w (λ n. Unit) tt)
        (λ _ v _ _. then_ends G y root doc repo (labels_end v) (λ _ u _ all_labels.
          then_ends G y root doc repo (milestones_end u) (λ _ z k all_milestones.
            then_ends G y root doc repo (existing_issues_ends G y root doc repo args real z)
              (λ known x m sound.
                then_ends G y root doc repo
                  (seed_tickets_ends G y root doc repo args real known files x sound)
                  (λ _ a l present. pure_ends G y root doc repo 0 a (IsSeeded root files) (record {
                    labels_there =
                        labels_carry labels _ _ l
                          (labels_carry labels _ _ m (labels_carry labels _ _ k all_labels));
                    milestones_there =
                        milestones_carry milestones _ _ l
                          (milestones_carry milestones _ _ m all_milestones);
                    issues_there = present;
                  }))))))

-- After a run of `main` for a repository that was no dry run and returned, each label and milestone
-- of the tables is there, and each ticket file parses as a ticket whose title an issue has.
pub main-IsSeeded :
    (G : Gh) (y : Python) (root : Text) (doc : Github G) (args : Args) (files : List (Text × Text))
    (c : ℕ) (repo : Text) (w : Session G.State) (status : ℕ)
    → args.repo ≡ some (c ∷ repo)
    → args.dry_run ≡ false
    → (main G y root args files w).0 ≡ ok status
    → IsSeeded root files (doc.names (c ∷ repo) (main G y root args files w).1.github)
unfolding main ◌>>=◌
main-IsSeeded G y root doc args files c repo w status named real h =
    rw named (((seed_ends G y root doc (c ∷ repo) args real files w).ends status (rw named at h)).1)
