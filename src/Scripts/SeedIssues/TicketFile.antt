-- ===== src/Scripts/SeedIssues/TicketFile.antt =====
-- A ticket file as docs/tickets has it, and what `parse` reads of it.
use projects_api.Common.{Text, lit, ◌==◌, ◌≡◌, refl, ◌∙◌, ap, false, some, List, [], ◌∷◌, ◌++◌, All}
use projects_api.Json.Scan.{strip_prefix}
use projects_api.Domain.Exceptions.{ok}
use projects_api.Domain.Validation.{strip, is_space}
use projects_api.Scripts.SeedIssues.Tickets.{
  front_matter, lines_from, splitlines, partition, strip_quotes, meta_of, lookup, ticket_of, parse,
  closing, with_slice, slice_label,
}
use projects_api.Scripts.SeedIssues.Tickets.Lines.{
  IsLine, split_closing-line, split_closing-closing, split_closing-next, lines_from-line,
  lines_from-last,
}
use projects_api.Scripts.SeedIssues.Tickets.Labels.{IsLabel, label_list, labels_of-label_list}

-- A value of the front matter: one line, without whitespace or quotes at its ends.
pub record IsValue (s : Text) : Type 0 where
  pub line : IsLine s
  pub bare : strip_quotes (strip s) ≡ s

abbrev status_on : (status : Text) → Text → Text
status_on status s = (lit "status: " ++ status) ++ s

abbrev milestone_on : (milestone : Text) → (status : Text) → Text → Text
milestone_on milestone status s = (lit "milestone: " ++ milestone) ++ (b'\n' ∷ status_on status s)

abbrev labels_on : (value : Text) → (milestone : Text) → (status : Text) → Text → Text
labels_on value milestone status s =
    (lit "labels: " ++ value) ++ (b'\n' ∷ milestone_on milestone status s)

-- Four lines, and a text behind them.
abbrev pub front :
    (title : Text) → (value : Text) → (milestone : Text) → (status : Text) → Text → Text
front title value milestone status s =
    (lit "title: " ++ title) ++ (b'\n' ∷ labels_on value milestone status s)

append_nil : (s : Text) → s ++ [] ≡ s
append_nil [] = refl
append_nil (c ∷ s) = ap (λ (t : Text). c ∷ t) (append_nil s)

module _ (title value milestone status : Text) (t : IsValue title) (l : IsValue value)
    (m : IsValue milestone) (u : IsValue status) where
  front_matter-front :
      (rest : Text)
      → front_matter (lit "---\n" ++ front title value milestone status (closing ++ rest))
        ≡ some (front title value milestone status [], rest)
  unfolding front_matter strip_prefix lit
  front_matter-front rest =
      split_closing-line (lit "title: " ++ title)
        (b'\n' ∷ labels_on value milestone status (closing ++ rest))
        (b'\n' ∷ labels_on value milestone status []) rest t.line
        (split_closing-next b'l' (lit "abels: " ++ value)
          (b'\n' ∷ milestone_on milestone status (closing ++ rest))
          (b'\n' ∷ milestone_on milestone status []) rest refl l.line
          (split_closing-next b'm' (lit "ilestone: " ++ milestone)
            (b'\n' ∷ status_on status (closing ++ rest)) (b'\n' ∷ status_on status []) rest refl
            m.line
            (split_closing-next b's' (lit "tatus: " ++ status) (closing ++ rest) [] rest refl u.line
              (split_closing-closing rest))))

  splitlines-front :
      splitlines (front title value milestone status [])
      ≡ (lit "title: " ++ title)
        ∷ (lit "labels: " ++ value)
        ∷ (lit "milestone: " ++ milestone)
        ∷ (lit "status: " ++ status)
        ∷ []
  unfolding lit
  splitlines-front =
      lines_from-line (lit "title: " ++ title) _ t.line
      ∙ ap (λ (ls : List Text). (lit "title: " ++ title) ∷ ls)
          (lines_from-line (lit "labels: " ++ value) _ l.line
            ∙ ap (λ (ls : List Text). (lit "labels: " ++ value) ∷ ls)
                (lines_from-line (lit "milestone: " ++ milestone) _ m.line
                  ∙ ap (λ (ls : List Text). (lit "milestone: " ++ milestone) ∷ ls)
                      (ap (λ s. lines_from false s) (append_nil (lit "status: " ++ status))
                        ∙ lines_from-last b's' (lit "tatus: " ++ status) u.line)))

  meta_of-front :
      meta_of (splitlines (front title value milestone status []))
      ≡ (lit "title", title)
        ∷ (lit "labels", value)
        ∷ (lit "milestone", milestone)
        ∷ (lit "status", status)
        ∷ []
  unfolding meta_of partition strip is_space lit
  meta_of-front = rw splitlines-front (rw (t.bare, l.bare, m.bare, u.bare) refl)

-- `parse` reads a ticket file back that is written with the four lines of its title, its labels,
-- its milestone and its status, whatever follows the front matter: it gives these values, the
-- labels with that of the slice, and the rest stripped, if the labels are not empty and have no
-- commas and no value has an end of a line, or whitespace or quotes at its ends.
pub parse-front :
    (root name title label : Text) (more : List Text) (milestone status rest : Text)
    → All IsLabel (label ∷ more)
    → IsValue title
    → IsValue (label_list label more)
    → IsValue milestone
    → IsValue status
    → parse root name
        (lit "---\n" ++ front title (label_list label more) milestone status (closing ++ rest))
      ≡ ok (record {
        name = name;
        title = title;
        labels = with_slice (slice_label name) (label ∷ more);
        milestone = milestone;
        status = status;
        body = strip rest;
      })
unfolding parse ticket_of lookup lit ◌==◌
parse-front root name title label more milestone status rest v t l m u =
    rw
      (
        front_matter-front title (label_list label more) milestone status t l m u rest,
        meta_of-front title (label_list label more) milestone status t l m u,
        labels_of-label_list label more v,
      )
      refl
