-- ===== src/Json/Scan/Shorter.antt =====
-- What the scanners of strings, numbers and words leave of their input is shorter.
use projects_api.Common.{
  ℕ, zero, suc, ◌+◌, ◌*◌, ◌≤◌, ◌<◌, Text, lit, ◌≡◌, inl, inr, Bool, true, false, ◌||◌, Option, none,
  some, List, [], ◌∷◌, length, nat_eq, ltb, arith, if◌then◌else◌, Bool-cases,
}
use projects_api.Json.{Json}
use projects_api.Json.Scan.{
  Scanned, scanned, invalid, out_of_fuel, skip, strip_prefix, or_number, words, scan_word,
}
use projects_api.Json.Numbers.{
  scan_digits, scan_int, part, scan_fraction, scan_sign, scan_exponent, scan_rest, scan_number,
}
use projects_api.Json.Strings.{
  StringUnit, Mode, plain, backslash, hex, hex_value, escape_value, before, scan_units, join,
  scan_string,
}

-- What is left has fewer than `n` characters.
abbrev pub Shorter : {A : Type 0} → ℕ → Option (A × Text) → Type 0
Shorter n none = Unit
Shorter n (some (_, rest)) = length rest < n

-- The run kept within its fuel, and left fewer than `n` characters.
abbrev pub Within : {A : Type 0} → ℕ → Scanned (A × Text) → Type 0
Within n (scanned (_, rest)) = length rest < n
Within n invalid = Unit
Within n out_of_fuel = ⊥

pub skip-le : (s : Text) → length (skip s) ≤ length s
unfolding skip
skip-le [] = omega arith
skip-le (c ∷ s) = ground (arith, skip-le s)

before-Shorter :
    (n : ℕ) (u : StringUnit) (o : Option (List StringUnit × Text))
    → Shorter n o
    → Shorter (suc n) (before u o)
before-Shorter n u none h = tt
before-Shorter n u (some (us, rest)) h = omega arith

weaken : {A : Type 0} (n : ℕ) (o : Option (A × Text)) → Shorter n o → Shorter (suc n) o
weaken n none h = tt
weaken n (some (a, rest)) h = omega arith

Shorter-if :
    {A : Type 0} (n : ℕ) (b : Bool) (x y : Option (A × Text))
    → Shorter n x
    → Shorter n y
    → Shorter n (if b then x else y)
Shorter-if n true x y h k = h
Shorter-if n false x y h k = k

-- `elim o [ none ↦ none | some d ↦ f d ]`
Shorter-elim :
    {A : Type 0} (n : ℕ) (o : Option ℕ) (f : ℕ → Option (A × Text))
    → ((d : ℕ) → Shorter n (f d))
    → Shorter n (elim o [ none ↦ none | some d ↦ f d ])
Shorter-elim n none f h = tt
Shorter-elim n (some d) f h = h d

scan_units-Shorter : (mode : Mode) (s : Text) → Shorter (length s) (scan_units mode s)
unfolding scan_units
scan_units-Shorter mode [] = tt
scan_units-Shorter plain (c ∷ s) = Shorter-if _ (nat_eq c b'"') _ _ (omega arith) (
    Shorter-if _ (nat_eq c b'\\') _ _ (weaken _ _ (scan_units-Shorter backslash s))
      (Shorter-if _ (ltb c 32) _ _ tt (before-Shorter _ _ _ (scan_units-Shorter plain s))))
scan_units-Shorter backslash (c ∷ s) =
    Shorter-if _ (nat_eq c b'u') _ _ (weaken _ _ (scan_units-Shorter (hex 3 0) s))
      (Shorter-elim _ (escape_value c) _ λ d. before-Shorter _ _ _ (scan_units-Shorter plain s))
scan_units-Shorter (hex zero value) (c ∷ s) =
    Shorter-elim _ (hex_value c) _ λ d. before-Shorter _ _ _ (scan_units-Shorter plain s)
scan_units-Shorter (hex (suc left) value) (c ∷ s) =
    Shorter-elim _ (hex_value c) _
      λ d. weaken _ _ (scan_units-Shorter (hex left (value * 16 + d)) s)

pub scan_string-Shorter : (s : Text) → Shorter (length s) (scan_string s)
unfolding scan_string
scan_string-Shorter s = of (scan_units plain s) (scan_units-Shorter plain s)
  where
    of :
        (o : Option (List StringUnit × Text))
        → Shorter (length s) o
        → Shorter (length s) (elim o [ none ↦ none | some (us, rest) ↦ some (join us, rest) ])
    of none h = tt
    of (some (us, rest)) h = h

scan_digits-le : (s : Text) → length (scan_digits s).1 ≤ length s
unfolding scan_digits
scan_digits-le [] = omega arith
scan_digits-le (c ∷ s) = ground (arith, scan_digits-le s)

scan_int-Shorter : (s : Text) → Shorter (length s) (scan_int s)
unfolding scan_int scan_digits
scan_int-Shorter [] = tt
scan_int-Shorter (c ∷ s) = ground (arith, scan_digits-le s)

part-le :
    (lead : Text) (p : Text × Text) (s : Text)
    → length p.1 ≤ length s
    → length (part lead p s).1 ≤ length s
part-le lead ([], rest) s h = omega arith
part-le lead (d ∷ ds, rest) s h = h

scan_fraction-le : (s : Text) → length (scan_fraction s).1 ≤ length s
unfolding scan_fraction
scan_fraction-le [] = omega arith
scan_fraction-le (c ∷ s) = elim (Bool-cases (nat_eq c b'.')) [
  | inl e ↦ rw e (part-le (c ∷ []) (scan_digits s) (c ∷ s) (omega (arith, scan_digits-le s)))
  | inr e ↦ rw e (omega arith)
]

scan_sign-le : (s : Text) → length (scan_sign s).1 ≤ length s
unfolding scan_sign
scan_sign-le [] = omega arith
scan_sign-le (c ∷ s) = ground arith

scan_exponent-le : (s : Text) → length (scan_exponent s).1 ≤ length s
unfolding scan_exponent
scan_exponent-le [] = omega arith
scan_exponent-le (c ∷ s) = elim (Bool-cases (nat_eq c b'e' || nat_eq c b'E')) [
  | inl e ↦ rw e (
      part-le (c ∷ (scan_sign s).0) (scan_digits (scan_sign s).1) (c ∷ s)
        (omega (arith, scan_digits-le (scan_sign s).1, scan_sign-le s)))
  | inr e ↦ rw e (omega arith)
]

number_of-Shorter :
    (sign : Text) (n : ℕ) (o : Option (Text × Text))
    → Shorter n o
    → Shorter n (elim o [ none ↦ none | some i ↦ some (scan_rest sign i) ])
number_of-Shorter sign n none h = tt
number_of-Shorter sign n (some (int, t)) h =
    omega (arith, scan_fraction-le t, scan_exponent-le (scan_fraction t).1)

scan_number-Shorter : (s : Text) → Shorter (length s) (scan_number s)
unfolding scan_number
scan_number-Shorter [] = tt
scan_number-Shorter (c ∷ s) =
    Shorter-if _ (nat_eq c b'-') _ _
      (number_of-Shorter (c ∷ []) _ (scan_int s) (weaken _ _ (scan_int-Shorter s)))
      (number_of-Shorter [] _ (scan_int (c ∷ s)) (scan_int-Shorter (c ∷ s)))

-- `strip_prefix` takes the word's characters.
abbrev Stripped : Text → Text → Option Text → Type 0
Stripped word s none = Unit
Stripped word s (some rest) = length rest + length word ≡ length s

strip_prefix-Stripped : (word s : Text) → Stripped word s (strip_prefix word s)
unfolding strip_prefix
strip_prefix-Stripped [] s = omega arith
strip_prefix-Stripped (c ∷ word) [] = tt
strip_prefix-Stripped (c ∷ word) (d ∷ s) = elim (Bool-cases (nat_eq c d)) [
  | inl e ↦ rw e (longer word s c d (strip_prefix word s) (strip_prefix-Stripped word s))
  | inr e ↦ rw e tt
]
  where
    longer :
        (word s : Text) (c d : ℕ) (o : Option Text)
        → Stripped word s o
        → Stripped (c ∷ word) (d ∷ s) o
    longer word s c d none h = tt
    longer word s c d (some rest) h = omega arith

abbrev AllWords : List (Text × Json) → Type 0
AllWords [] = Unit
AllWords ((word, _) ∷ ws) = (1 ≤ length word) × AllWords ws

or_number-Within : (n : ℕ) (o : Option (Text × Text)) → Shorter n o → Within n (or_number o)
or_number-Within n none h = tt
or_number-Within n (some (literal, rest)) h = h

pub scan_word-Within :
    (ws : List (Text × Json)) (s : Text) → AllWords ws → Within (length s) (scan_word ws s)
unfolding scan_word
scan_word-Within [] s h = or_number-Within _ _ (scan_number-Shorter s)
scan_word-Within ((word, v) ∷ ws) s (h, hs) =
    of (strip_prefix word s) (strip_prefix-Stripped word s) (scan_word-Within ws s hs)
  where
    of :
        (o : Option Text)
        → Stripped word s o
        → Within (length s) (scan_word ws s)
        → Within (length s) (elim o [ some rest ↦ scanned (v, rest) | none ↦ scan_word ws s ])
    of none k more = more
    of (some rest) k more = omega arith

pub words-AllWords : AllWords words
unfolding lit
words-AllWords = omega arith
