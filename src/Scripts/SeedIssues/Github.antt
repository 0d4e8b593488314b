-- ===== src/Scripts/SeedIssues/Github.antt =====
-- What the script relies on of the GitHub CLI: its lists, which are cut at 200 labels, 100 milestones
-- and 500 issues, and what its other commands change.
use projects_api.Common.{ℕ, ◌≤◌, Text, ◌≡◌, Bool, true, false, Option, none, some, List, length}
use projects_api.Json.{Json}
use projects_api.Domain.Exceptions.{ok}
use projects_api.Domain.Validation.{strip}
use projects_api.Scripts.SeedIssues.{Gh}
use projects_api.Scripts.SeedIssues.Commands.{
  label_list, label_create, milestone_list, milestone_create, issue_list, issue_create, issue_close,
}
use projects_api.Scripts.SeedIssues.DryRun.{Reading}
use projects_api.Scripts.SeedIssues.Known.{existing_at, contains, numbered, known_number}
use projects_api.Scripts.SeedIssues.Tickets.{mem}

-- What a repository has: the names of its labels and the titles of its milestones and issues.
pub record Names : Type 0 where
  pub labels : List Text
  pub milestones : List Text
  pub issues : List Text

-- The list has the names that stand in the repository, all of them if they are at most `limit`.
pub record Lists (limit : ℕ) (names : List Text) (found : Text → Bool) : Type 0 where
  pub sound : (name : Text) → found name ≡ true → mem name names ≡ true
  pub complete : length names ≤ limit → (name : Text) → mem name names ≡ true → found name ≡ true

abbrev pub is_known : Option Json → Bool
is_known none = false
is_known (some _) = true

-- What was there is there still.
pub record Kept (before after : Names) : Type 0 where
  pub labels : (name : Text) → mem name before.labels ≡ true → mem name after.labels ≡ true
  pub milestones :
      (name : Text) → mem name before.milestones ≡ true → mem name after.milestones ≡ true
  pub issues : (name : Text) → mem name before.issues ≡ true → mem name after.issues ≡ true

pub record Github (G : Gh) : Type 0 where
  pub names : (repo : Text) → G.State → Names
  pub reading : Reading G
  pub labels_listed :
      (repo : Text) (s : G.State) (raw : Text)
      → (G.call (label_list repo) s).0 ≡ ok raw
      → (existing : List Json) × (existing_at "name" (strip raw) ≡ ok existing)
        × Lists 200 (names repo s).labels (λ name. contains name existing)
  pub milestones_listed :
      (repo : Text) (s : G.State) (raw : Text)
      → (G.call (milestone_list repo) s).0 ≡ ok raw
      → (existing : List Json) × (existing_at "title" (strip raw) ≡ ok existing)
        × Lists 100 (names repo s).milestones (λ name. contains name existing)
  pub issues_listed :
      (repo : Text) (s : G.State) (raw : Text)
      → (G.call (issue_list repo) s).0 ≡ ok raw
      → (known : List (Json × Json)) × (numbered (strip raw) ≡ ok known)
        × Lists 500 (names repo s).issues (λ name. is_known (known_number name known))
  pub label_created :
      (repo name color desc : Text) (s : G.State) (raw : Text)
      → (G.call (label_create repo name color desc) s).0 ≡ ok raw
      → Kept (names repo s) (names repo (G.call (label_create repo name color desc) s).1)
        × (mem name (names repo (G.call (label_create repo name color desc) s).1).labels ≡ true)
  pub milestone_created :
      (repo title desc : Text) (s : G.State) (raw : Text)
      → (G.call (milestone_create repo title desc) s).0 ≡ ok raw
      → Kept (names repo s) (names repo (G.call (milestone_create repo title desc) s).1)
        × (mem title (names repo (G.call (milestone_create repo title desc) s).1).milestones ≡ true)
  pub issue_created :
      (repo title body_file milestone : Text) (labels : List Text) (s : G.State) (raw : Text)
      → (G.call (issue_create repo title body_file milestone labels) s).0 ≡ ok raw
      → Kept
          (names repo s)
          (names repo (G.call (issue_create repo title body_file milestone labels) s).1)
        × (mem title
              (names repo (G.call (issue_create repo title body_file milestone labels) s).1).issues
            ≡ true)
  pub issue_closed :
      (repo number note : Text) (s : G.State) (raw : Text)
      → (G.call (issue_close repo number note) s).0 ≡ ok raw
      → Kept (names repo s) (names repo (G.call (issue_close repo number note) s).1)

-- The lists are answered.
pub record IsUp (G : Gh) : Type 0 where
  pub labels :
      (repo : Text) (s : G.State) → (raw : Text) × ((G.call (label_list repo) s).0 ≡ ok raw)
  pub milestones :
      (repo : Text) (s : G.State) → (raw : Text) × ((G.call (milestone_list repo) s).0 ≡ ok raw)
  pub issues :
      (repo : Text) (s : G.State) → (raw : Text) × ((G.call (issue_list repo) s).0 ≡ ok raw)
