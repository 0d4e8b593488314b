-- ===== src/Tests/Documented.antt =====
-- The repository of Desk does what the script relies on.
use projects_api.Common.{
  ℕ, Text, lit, ◌==◌, ==_refl, ==_sound, ◌≡◌, refl, subst, sym, ap, ◌∙◌, Bool, true, ◌||◌, List, [],
  ◌∷◌, ◌++◌, map, arith, Bool-cases, inl, inr,
}
use projects_api.Json.{dict_from, Json, string, number}
use projects_api.Domain.Exceptions.{Result, ok}
use projects_api.Domain.Validation.{strip, is_space}
use projects_api.Json.Scan.{loads}
use projects_api.Scripts.SeedIssues.Commands.{
  label_list, label_create, milestone_list, milestone_create, issue_list, issue_create, issue_close,
}
use projects_api.Scripts.SeedIssues.Github.{Names, Lists, Kept, Github, IsUp, is_known}
use projects_api.Scripts.SeedIssues.Known.{existing_at, contains, numbered, known_number}
use projects_api.Scripts.SeedIssues.Tables.{labels, milestones}
use projects_api.Scripts.SeedIssues.Tickets.{mem}
use projects_api.Tests.Desk.{
  Stage, answer, change, desk, desk_reads, fresh, issue_created_at, issued, issues_at,
  label_created_at, labelled, labels_at, list_text, milestone_titles, names_at, ticket_title,
}

abbrev strings : List Text → List Json
strings names = map (λ (t : Text). string t) names

pub labels_read :
    (s : Stage)
    → existing_at "name" (strip (list_text (lit "{\"name\":\"") (lit "\"}") (labels_at s)))
      ≡ ok (strings (labels_at s))
unfolding existing_at strip lit labels loads is_space dict_from
labels_read fresh = refl
labels_read labelled = refl
labels_read issued = refl

pub milestones_read :
    existing_at "title" (strip (list_text (lit "{\"title\":\"") (lit "\"}") milestone_titles))
    ≡ ok (strings milestone_titles)
unfolding existing_at strip lit milestones loads is_space dict_from
milestones_read = refl

abbrev known_at : Stage → List (Json × Json)
known_at s = map (λ (t : Text). (string t, number (lit "12"))) (issues_at s)

pub issues_read :
    (s : Stage)
    → numbered (strip (list_text (lit "{\"number\":12,\"title\":\"") (lit "\"}") (issues_at s)))
      ≡ ok (known_at s)
unfolding numbered strip lit loads is_space dict_from
issues_read fresh = refl
issues_read labelled = refl
issues_read issued = refl

contains-strings : (name : Text) (xs : List Text) → contains name (strings xs) ≡ mem name xs
unfolding contains mem
contains-strings name [] = refl
contains-strings name (x ∷ xs) = ap (λ (b : Bool). x == name || b) (contains-strings name xs)

pub strings-Lists :
    (limit : ℕ) (xs : List Text) → Lists limit xs (λ name. contains name (strings xs))
strings-Lists limit xs = record {
  sound = λ name h. sym (contains-strings name xs) ∙ h;
  complete = λ small name h. contains-strings name xs ∙ h;
}

pub known-mem :
    (name : Text) (xs : List Text)
    → is_known (known_number name (map (λ (t : Text). (string t, number (lit "12"))) xs))
      ≡ mem name xs
unfolding known_number mem
known-mem name [] = refl
known-mem name (x ∷ xs) = ground (arith, known-mem name xs)

pub Kept-same : (n : Names) → Kept n n
Kept-same n = record { labels = λ x h. h; milestones = λ x h. h; issues = λ x h. h }

pub raw_cancel : (a b : Text) → ◌≡◌ {A = Result Text} (ok a) (ok b) → a ≡ b
raw_cancel a b e = cc (e)

mem-append : (t : Text) (xs ys : List Text) → mem t xs ≡ true → mem t (xs ++ ys) ≡ true
unfolding mem
mem-append t [] ys h = cc (h)
mem-append t (x ∷ xs) ys h = ground (arith, mem-append t xs ys)

pub label_added :
    (name : Text) (s : Stage) (raw : Text)
    → (label_created_at name s).0 ≡ ok raw
    → Kept (names_at s) (names_at (label_created_at name s).1)
      × (mem name (labels_at (label_created_at name s).1) ≡ true)
unfolding mem labels lit ◌==◌
label_added name fresh raw h = elim (Bool-cases (name == lit "status:blocked")) [
  | inr e ↦ cc (rw e at h)
  | inl e ↦ rw e (
    record {
      labels = λ x m. mem-append x (labels_at fresh) (lit "status:blocked" ∷ []) m;
      milestones = λ x m. m;
      issues = λ x m. m;
    },
    rw (==_sound name (lit "status:blocked") e) refl,
  )
]
label_added name labelled raw h = cc (h)
label_added name issued raw h = cc (h)

pub issue_added :
    (title : Text) (s : Stage) (raw : Text)
    → (issue_created_at title s).0 ≡ ok raw
    → Kept (names_at s) (names_at (issue_created_at title s).1)
      × (mem title (issues_at (issue_created_at title s).1) ≡ true)
unfolding mem
issue_added title fresh raw h = cc (h)
issue_added title issued raw h = cc (h)
issue_added title labelled raw h = elim (Bool-cases (title == ticket_title)) [
  | inr e ↦ cc (rw e at h)
  | inl e ↦ rw e (
    record { labels = λ x m. m; milestones = λ x m. m; issues = λ x m. cc (m) },
    rw (==_sound title ticket_title e) (ground (arith, ==_refl ticket_title)),
  )
]

unfoldable pub desk_documented : Github desk
unfolding answer change label_list label_create milestone_list milestone_create issue_list
    issue_create issue_close lit ◌==◌
desk_documented = record {
  names = λ repo s. names_at s;
  reading = desk_reads;
  labels_listed = λ repo s raw e. (
    strings (labels_at s),
    subst (λ x. existing_at "name" (strip x) ≡ ok (strings (labels_at s))) (raw_cancel _ _ e)
        (labels_read s),
    strings-Lists 200 (labels_at s),
  );
  milestones_listed = λ repo s raw e. (
    strings milestone_titles,
    subst (λ x. existing_at "title" (strip x) ≡ ok (strings milestone_titles)) (raw_cancel _ _ e)
        milestones_read,
    strings-Lists 100 milestone_titles,
  );
  issues_listed = λ repo s raw e. (
    known_at s,
    subst (λ x. numbered (strip x) ≡ ok (known_at s)) (raw_cancel _ _ e) (issues_read s),
    record {
      sound = λ name h. sym (known-mem name (issues_at s)) ∙ h;
      complete = λ small name h. known-mem name (issues_at s) ∙ h;
    },
  );
  label_created = λ repo name color desc s raw e. label_added name s raw e;
  milestone_created = λ repo title desc s raw e. cc (e);
  issue_created = λ repo title body_file milestone words s raw e. issue_added title s raw e;
  issue_closed = λ repo n note s raw e. Kept-same (names_at s);
}

pub desk_up : IsUp desk
unfolding answer change label_list milestone_list issue_list lit ◌==◌
desk_up = record {
  labels = λ repo s. (_, refl);
  milestones = λ repo s. (_, refl);
  issues = λ repo s. (_, refl);
}
