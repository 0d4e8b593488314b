-- ===== src/Scripts/SeedIssues/Commands.antt =====
-- The commands of the GitHub CLI that the script runs.
use projects_api.Common.{Text, lit, List, [], ◌∷◌, ◌++◌}

-- `" ".join(cmd)`
abbrev pub spaced : List Text → Text
spaced [] = []
spaced (word ∷ []) = word
spaced (word ∷ next ∷ words) = word ++ (b' ' ∷ spaced (next ∷ words))

unfoldable pub repo_view : List Text
unfolding lit
repo_view =
    lit "gh"
    ∷ lit "repo"
    ∷ lit "view"
    ∷ lit "--json"
    ∷ lit "nameWithOwner"
    ∷ lit "-q"
    ∷ lit ".nameWithOwner"
    ∷ []

unfoldable pub label_list : (repo : Text) → List Text
unfolding lit
label_list repo =
    lit "gh"
    ∷ lit "label"
    ∷ lit "list"
    ∷ lit "--repo"
    ∷ repo
    ∷ lit "--limit"
    ∷ lit "200"
    ∷ lit "--json"
    ∷ lit "name"
    ∷ []

unfoldable pub label_create :
    (repo : Text) → (name : Text) → (color : Text) → (desc : Text) → List Text
unfolding lit
label_create repo name color desc =
    lit "gh"
    ∷ lit "label"
    ∷ lit "create"
    ∷ name
    ∷ lit "--repo"
    ∷ repo
    ∷ lit "--color"
    ∷ color
    ∷ lit "--description"
    ∷ desc
    ∷ []

unfoldable pub milestone_list : (repo : Text) → List Text
unfolding lit
milestone_list repo =
    lit "gh" ∷ lit "api" ∷ (lit "repos/" ++ (repo ++ lit "/milestones?state=all&per_page=100")) ∷ []

unfoldable pub milestone_create : (repo : Text) → (title : Text) → (desc : Text) → List Text
unfolding lit
milestone_create repo title desc =
    lit "gh"
    ∷ lit "api"
    ∷ (lit "repos/" ++ (repo ++ lit "/milestones"))
    ∷ lit "-f"
    ∷ (lit "title=" ++ title)
    ∷ lit "-f"
    ∷ (lit "description=" ++ desc)
    ∷ []

unfoldable pub issue_list : (repo : Text) → List Text
unfolding lit
issue_list repo =
    lit "gh"
    ∷ lit "issue"
    ∷ lit "list"
    ∷ lit "--repo"
    ∷ repo
    ∷ lit "--state"
    ∷ lit "all"
    ∷ lit "--limit"
    ∷ lit "500"
    ∷ lit "--json"
    ∷ lit "title,number"
    ∷ []

-- `cmd += ["--label", label]` for each label
abbrev label_words : List Text → List Text
label_words [] = []
label_words (label ∷ labels) = lit "--label" ∷ label ∷ label_words labels

unfoldable pub issue_create :
    (repo : Text)
    → (title : Text) → (body_file : Text) → (milestone : Text) → (labels : List Text) → List Text
unfolding lit
issue_create repo title body_file milestone labels =
    (lit "gh"
      ∷ lit "issue"
      ∷ lit "create"
      ∷ lit "--repo"
      ∷ repo
      ∷ lit "--title"
      ∷ title
      ∷ lit "--body-file"
      ∷ body_file
      ∷ lit "--milestone"
      ∷ milestone
      ∷ [])
    ++ label_words labels

unfoldable pub issue_close : (repo : Text) → (number : Text) → (note : Text) → List Text
unfolding lit
issue_close repo number note =
    lit "gh"
    ∷ lit "issue"
    ∷ lit "close"
    ∷ number
    ∷ lit "--repo"
    ∷ repo
    ∷ lit "--comment"
    ∷ note
    ∷ lit "--reason"
    ∷ lit "completed"
    ∷ []
