-- ===== src/Domain/Validation/Normal.antt =====
-- `normalise_name`: trimming and collapsing.
use projects_api.Common.{Text, ◌≡◌, refl, ap, ◌∙◌, Bool, true, false, not, [], ◌∷◌, arith}
use projects_api.Domain.Validation.{
  is_space, lstrip, rstrip, strip, collapse, is_empty, normalise_name,
}

space-IsSpace : is_space b' ' ≡ true
unfolding is_space
space-IsSpace = refl

-- There is no whitespace at the front.
abbrev starts_clean : Text → Bool
starts_clean [] = true
starts_clean (c ∷ _) = not (is_space c)

lstrip_clean : (s : Text) → starts_clean (lstrip s) ≡ true
unfolding lstrip
lstrip_clean [] = refl
lstrip_clean (c ∷ s) = ground (arith, lstrip_clean s)

rstrip_clean : (s : Text) → starts_clean s ≡ true → starts_clean (rstrip s) ≡ true
unfolding rstrip
rstrip_clean [] h = refl
rstrip_clean (c ∷ s) h = ground arith

collapse_clean : (s : Text) → starts_clean s ≡ true → starts_clean (collapse false s) ≡ true
unfolding collapse
collapse_clean [] h = refl
collapse_clean (c ∷ s) h = ground arith

lstrip_of_clean : (s : Text) → starts_clean s ≡ true → lstrip s ≡ s
unfolding lstrip
lstrip_of_clean [] h = refl
lstrip_of_clean (c ∷ s) h = ground arith

rstrip-rstrip : (s : Text) → rstrip (rstrip s) ≡ rstrip s
unfolding rstrip
rstrip-rstrip [] = refl
rstrip-rstrip (c ∷ s) = ground (arith, rstrip-rstrip s)

collapse-collapse : (b : Bool) (s : Text) → collapse b (collapse b s) ≡ collapse b s
unfolding collapse
collapse-collapse b [] = refl
collapse-collapse b (c ∷ s) =
    ground (arith, collapse-collapse true s, collapse-collapse false s, space-IsSpace)

-- Collapsing a text that ends in no whitespace does not lose it.
is_empty-collapse-rstrip :
    (b : Bool) (s : Text) → is_empty (collapse b (rstrip s)) ≡ is_empty (rstrip s)
unfolding collapse rstrip
is_empty-collapse-rstrip b [] = refl
is_empty-collapse-rstrip b (c ∷ s) =
    ground (arith, is_empty-collapse-rstrip true s, is_empty-collapse-rstrip false s)

rstrip-collapse : (b : Bool) (s : Text) → rstrip (collapse b s) ≡ collapse b (rstrip s)
unfolding collapse rstrip
rstrip-collapse b [] = refl
rstrip-collapse b (c ∷ s) = ground (
  arith,
  rstrip-collapse true s,
  rstrip-collapse false s,
  is_empty-collapse-rstrip true s,
  is_empty-collapse-rstrip false s,
  space-IsSpace,
)

strip-normalise_name : (s : Text) → strip (normalise_name s) ≡ normalise_name s
unfolding strip normalise_name
strip-normalise_name s =
    let front = collapse_clean (strip s) (rstrip_clean (lstrip s) (lstrip_clean s)) in
    rw (lstrip_of_clean _ front, rstrip-collapse) (ap (collapse false) (rstrip-rstrip (lstrip s)))

-- Normalising a name that is already normalised changes nothing.
pub normalise_name-normalise_name :
    (s : Text) → normalise_name (normalise_name s) ≡ normalise_name s
unfolding normalise_name
normalise_name-normalise_name s =
    ap (collapse false) (strip-normalise_name s) ∙ collapse-collapse false (strip s)
