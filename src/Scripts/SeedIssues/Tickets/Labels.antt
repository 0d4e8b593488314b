-- ===== src/Scripts/SeedIssues/Tickets/Labels.antt =====
-- The labels of a ticket, written as a list with commas.
use projects_api.Common.{
  Text, ◌≡◌, refl, true, false, not, List, [], ◌∷◌, ◌++◌, all, All, nat_eq, arith,
}
use projects_api.Domain.Validation.{strip, is_empty, is_space}
use projects_api.Scripts.SeedIssues.Tickets.{split, present, labels_of}

-- A label: not empty, without commas, without whitespace at its ends.
pub record IsLabel (s : Text) : Type 0 where
  pub no_comma : all (λ c. not (nat_eq c b',')) s ≡ true
  pub stripped : strip s ≡ s
  pub not_empty : is_empty s ≡ false

-- `label, label, label`
abbrev pub label_list : Text → List Text → Text
label_list l [] = l
label_list l (m ∷ ms) = l ++ (b',' ∷ b' ' ∷ label_list m ms)

abbrev after_space : List Text → List Text
after_space [] = []
after_space (m ∷ ms) = (b' ' ∷ m) ∷ after_space ms

split-word : (l : Text) → all (λ c. not (nat_eq c b',')) l ≡ true → split b',' l ≡ (l, [])
unfolding split
split-word [] h = refl
split-word (c ∷ l) h = rw (split-word l (ground arith)) (ground arith)

split-comma :
    (l s word : Text) (words : List Text)
    → all (λ c. not (nat_eq c b',')) l ≡ true
    → split b',' s ≡ (word, words)
    → split b',' (l ++ (b',' ∷ s)) ≡ (l, word ∷ words)
unfolding split
split-comma [] s word words h e = rw e refl
split-comma (c ∷ l) s word words h e =
    rw (split-comma l s word words (ground arith) e) (ground arith)

split-label_list :
    (l : Text) (ms : List Text)
    → All IsLabel (l ∷ ms)
    → split b',' (label_list l ms) ≡ (l, after_space ms)
unfolding split
split-label_list l [] (v, _) = split-word l v.no_comma
split-label_list l (m ∷ ms) (v, vs) =
    split-comma l (b' ' ∷ label_list m ms) (b' ' ∷ m) (after_space ms) v.no_comma
      (rw (split-label_list m ms vs) refl)

present-after_space : (ms : List Text) → All IsLabel ms → present (after_space ms) ≡ ms
unfolding present strip is_space
present-after_space [] _ = refl
present-after_space (m ∷ ms) (v, vs) = rw (v.stripped, v.not_empty, present-after_space ms vs) refl

pub labels_of-label_list :
    (l : Text) (ms : List Text) → All IsLabel (l ∷ ms) → labels_of (label_list l ms) ≡ l ∷ ms
unfolding labels_of present
labels_of-label_list l ms (v, vs) =
    rw (split-label_list l ms (v, vs), v.stripped, v.not_empty, present-after_space ms vs) refl
