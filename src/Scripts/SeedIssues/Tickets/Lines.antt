-- ===== src/Scripts/SeedIssues/Tickets/Lines.antt =====
-- The lines of a front matter, and its end.
use projects_api.Common.{
  ℕ, Text, lit, ◌≡◌, refl, ap, true, false, not, none, some, [], ◌∷◌, ◌++◌, all, nat_eq, arith,
}
use projects_api.Json.Scan.{strip_prefix}
use projects_api.Scripts.SeedIssues.Tickets.{
  in_front, split_closing, is_break, on_first, lines_from, closing,
}

-- No character ends a line.
abbrev pub IsLine : Text → Type 0
IsLine s = all (λ c. not (is_break c)) s ≡ true

no_break : (c : ℕ) (s : Text) → is_break c ≡ false → strip_prefix closing (c ∷ s) ≡ none
unfolding strip_prefix lit
no_break c s h = ground arith

no_dash : (c : ℕ) (s : Text) → nat_eq b'-' c ≡ false → strip_prefix closing (b'\n' ∷ c ∷ s) ≡ none
unfolding strip_prefix lit
no_dash c s h = ground arith

split_closing-cons :
    (c : ℕ) (s front body : Text)
    → strip_prefix closing (c ∷ s) ≡ none
    → split_closing s ≡ some (front, body)
    → split_closing (c ∷ s) ≡ some (c ∷ front, body)
unfolding split_closing
split_closing-cons c s front body h e = rw (split_closing, h) (ap (in_front c) e)

-- A character that ends no line stays in the front matter.
split_closing-char :
    (c : ℕ) (s front body : Text)
    → is_break c ≡ false
    → split_closing s ≡ some (front, body)
    → split_closing (c ∷ s) ≡ some (c ∷ front, body)
split_closing-char c s front body h e = split_closing-cons c s front body (no_break c s h) e

pub split_closing-line :
    (line rest front body : Text)
    → IsLine line
    → split_closing rest ≡ some (front, body)
    → split_closing (line ++ rest) ≡ some (line ++ front, body)
split_closing-line [] rest front body h e = e
split_closing-line (c ∷ line) rest front body h e =
    split_closing-char c (line ++ rest) (line ++ front) body (ground arith)
      (split_closing-line line rest front body (ground arith) e)

-- An end of a line that is not followed by a dash is not the end of the front matter.
split_closing-break :
    (c : ℕ) (s front body : Text)
    → nat_eq b'-' c ≡ false
    → split_closing (c ∷ s) ≡ some (front, body)
    → split_closing (b'\n' ∷ c ∷ s) ≡ some (b'\n' ∷ front, body)
split_closing-break c s front body h e =
    split_closing-cons b'\n' (c ∷ s) front body (no_dash c s h) e

pub split_closing-closing : (body : Text) → split_closing (closing ++ body) ≡ some ([], body)
unfolding split_closing strip_prefix lit
split_closing-closing body = refl

pub split_closing-next :
    (c : ℕ) (line rest front body : Text)
    → nat_eq b'-' c ≡ false
    → IsLine (c ∷ line)
    → split_closing rest ≡ some (front, body)
    → split_closing (b'\n' ∷ ((c ∷ line) ++ rest)) ≡ some (b'\n' ∷ ((c ∷ line) ++ front), body)
split_closing-next c line rest front body h v e =
    split_closing-break c (line ++ rest) ((c ∷ line) ++ front) body h
      (split_closing-line (c ∷ line) rest front body v e)

at_char : (c : ℕ) (line : Text) → IsLine (c ∷ line) → is_break c ≡ false
at_char c line h = ground arith

not_return : (c : ℕ) (line : Text) → IsLine (c ∷ line) → nat_eq c 13 ≡ false
not_return c line h = ground arith

pub lines_from-line :
    (line rest : Text)
    → IsLine line
    → lines_from false (line ++ (b'\n' ∷ rest)) ≡ line ∷ lines_from false rest
unfolding lines_from
lines_from-line [] rest h = refl
lines_from-line (c ∷ line) rest h =
    rw (at_char c line h, not_return c line h)
      (ap (on_first c) (lines_from-line line rest (ground arith)))

pub lines_from-last :
    (c : ℕ) (line : Text) → IsLine (c ∷ line) → lines_from false (c ∷ line) ≡ (c ∷ line) ∷ []
unfolding lines_from
lines_from-last c [] h = rw (at_char c [] h) refl
lines_from-last c (d ∷ line) h =
    rw (at_char c (d ∷ line) h, not_return c (d ∷ line) h)
      (ap (on_first c) (lines_from-last d line (ground arith)))
