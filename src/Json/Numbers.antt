-- ===== src/Json/Numbers.antt =====
-- `json.loads`: the scanner of numbers.
use projects_api.Common.{
  ℕ, Text, Bool, ◌&&◌, ◌||◌, Option, none, some, [], ◌∷◌, ◌++◌, leb, nat_eq, if◌then◌else◌,
}

-- A number is `-?(0|[1-9][0-9]*)(\.[0-9]+)?([eE][+-]?[0-9]+)?`, as far as it fits.
abbrev pub is_digit : ℕ → Bool
is_digit c = leb b'0' c && leb c b'9'

abbrev pub behind : Text → Text × Text → Text × Text
behind s (t, rest) = (s ++ t, rest)

unfoldable pub scan_digits : Text → Text × Text
scan_digits [] = ([], [])
scan_digits (c ∷ s) =
    let more = behind (c ∷ []) (scan_digits s) in if is_digit c then more else ([], c ∷ s)

unfoldable pub scan_int : Text → Option (Text × Text)
unfolding scan_digits
scan_int [] = none
scan_int (c ∷ s) =
    if nat_eq c b'0'
    then some (c ∷ [], s)
    else if is_digit c
    then some (scan_digits (c ∷ s))
    else none

-- A part of a number that starts with `lead` and has a digit at least, if it is there.
abbrev pub part : Text → Text × Text → Text → Text × Text
part lead ([], _) whole = ([], whole)
part lead (d ∷ ds, rest) whole = (lead ++ d ∷ ds, rest)

unfoldable pub scan_fraction : Text → Text × Text
unfolding scan_digits
scan_fraction [] = ([], [])
scan_fraction (c ∷ s) = if nat_eq c b'.' then part (c ∷ []) (scan_digits s) (c ∷ s) else ([], c ∷ s)

unfoldable pub scan_sign : Text → Text × Text
scan_sign [] = ([], [])
scan_sign (c ∷ s) = if nat_eq c b'+' || nat_eq c b'-' then (c ∷ [], s) else ([], c ∷ s)

unfoldable pub scan_exponent : Text → Text × Text
unfolding scan_digits scan_sign
scan_exponent [] = ([], [])
scan_exponent (c ∷ s) =
    if nat_eq c b'e' || nat_eq c b'E'
    then part (c ∷ (scan_sign s).0) (scan_digits (scan_sign s).1) (c ∷ s)
    else ([], c ∷ s)

-- The fraction and the exponent behind an integer.
abbrev pub scan_rest : Text → Text × Text → Text × Text
scan_rest sign (int, s) =
    let fraction = scan_fraction s in
    behind (sign ++ (int ++ fraction.0)) (scan_exponent fraction.1)

unfoldable pub scan_number : Text → Option (Text × Text)
unfolding scan_int scan_fraction scan_exponent
scan_number [] = none
scan_number (c ∷ s) =
    if nat_eq c b'-'
    then elim (scan_int s) [ none ↦ none | some i ↦ some (scan_rest (c ∷ []) i) ]
    else elim (scan_int (c ∷ s)) [ none ↦ none | some i ↦ some (scan_rest [] i) ]
