-- ===== src/Tests/Desk.antt =====
-- A repository behind the CLI that lacks one label and the issue of one ticket.
use projects_api.Common.{Text, lit, ◌==◌, refl, ◌&&◌, List, [], ◌∷◌, ◌++◌, map, if◌then◌else◌}
use projects_api.Domain.Exceptions.{Result, ok, raise, exception}
use projects_api.Scripts.SeedIssues.{Gh}
use projects_api.Scripts.SeedIssues.Commands.{repo_view, label_list, milestone_list, issue_list}
use projects_api.Scripts.SeedIssues.DryRun.{Reading}
use projects_api.Scripts.SeedIssues.Github.{Names}
use projects_api.Scripts.SeedIssues.Tables.{labels, milestones}

pub data Stage : Type 0 where
  fresh labelled issued : Stage

abbrev pub ticket_title : Text
ticket_title = lit "S0-01: Repository skeleton"

abbrev pub refusal : Result Text
refusal = raise (exception (lit "CalledProcessError"))

abbrev pub label_names : List Text
label_names = map (λ (row : Text × Text × Text). row.0) labels

abbrev pub milestone_titles : List Text
milestone_titles = map (λ (row : Text × Text). row.0) milestones

abbrev pub drop_last : List Text → List Text
drop_last [] = []
drop_last (x ∷ []) = []
drop_last (x ∷ z ∷ xs) = x ∷ drop_last (z ∷ xs)

abbrev pub labels_at : Stage → List Text
labels_at fresh = drop_last label_names
labels_at labelled = label_names
labels_at issued = label_names

abbrev pub issues_at : Stage → List Text
issues_at issued = ticket_title ∷ []
issues_at _ = []

abbrev pub rows_text : (before : Text) → (after : Text) → List Text → Text
rows_text before after [] = []
rows_text before after (x ∷ []) = before ++ (x ++ after)
rows_text before after (x ∷ z ∷ xs) =
    before ++ (x ++ (after ++ (lit "," ++ rows_text before after (z ∷ xs))))

abbrev pub list_text : (before : Text) → (after : Text) → List Text → Text
list_text before after xs = lit "[" ++ (rows_text before after xs ++ lit "]\n")

abbrev pub label_created_at : Text → Stage → Result Text × Stage
label_created_at name fresh =
    if name == lit "status:blocked" then (ok [], labelled) else (refusal, fresh)
label_created_at name s = (refusal, s)

abbrev pub issue_created_at : Text → Stage → Result Text × Stage
issue_created_at title labelled =
    if title == ticket_title
    then (ok (lit "https://github.com/o/n/issues/12\n"), issued)
    else (refusal, labelled)
issue_created_at title s = (refusal, s)

unfoldable pub change : Text → Text → List Text → Stage → Result Text × Stage
unfolding lit ◌==◌
change noun verb [] s = (ok (list_text (lit "{\"title\":\"") (lit "\"}") milestone_titles), s)
change noun verb (name ∷ a ∷ b ∷ title ∷ rest) s =
    if noun == lit "label"
    then label_created_at name s
    else if noun == lit "issue" && verb == lit "create"
    then issue_created_at title s
    else if noun == lit "issue"
    then (ok [], s)
    else (refusal, s)
change noun verb words s = (refusal, s)

unfoldable pub answer : List Text → Stage → Result Text × Stage
unfolding lit ◌==◌ change
answer (gh ∷ noun ∷ verb ∷ words) s =
    if noun == lit "label" && verb == lit "list"
    then (ok (list_text (lit "{\"name\":\"") (lit "\"}") (labels_at s)), s)
    else if noun == lit "issue" && verb == lit "list"
    then (ok (list_text (lit "{\"number\":12,\"title\":\"") (lit "\"}") (issues_at s)), s)
    else if noun == lit "repo"
    then (ok (lit "o/n\n"), s)
    else change noun verb words s
answer words s = (refusal, s)

abbrev pub desk : Gh
desk = record { State = Stage; call = answer }

abbrev pub names_at : Stage → Names
names_at s = record { labels = labels_at s; milestones = milestone_titles; issues = issues_at s }

pub desk_reads : Reading desk
unfolding answer repo_view label_list milestone_list issue_list lit ◌==◌ change
desk_reads = record {
  repo_view_keeps = λ s. refl;
  label_list_keeps = λ repo s. refl;
  milestone_list_keeps = λ repo s. refl;
  issue_list_keeps = λ repo s. refl;
}
