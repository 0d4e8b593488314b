-- ===== src/Json/Scan.antt =====
-- `json.loads`: the scanner of CPython's json module. A call that would fail raises
-- `JSONDecodeError`, here `invalid`; `out_of_fuel` has no counterpart in the program.
pub mod Fuel
pub mod Shorter
use projects_api.Common.{
  ℕ, zero, suc, ◌+◌, ◌-◌, ◌*◌, ◌≤◌, Text, lit, Bool, true, false, ◌&&◌, ◌||◌, Option, none, some,
  List, [], ◌∷◌, ◌++◌, length, ltb, leb, nat_eq, if◌then◌else◌,
}
use projects_api.Json.{
  Json, Items, Fields, null, bool, number, string, array, object, nil, cons, end, field, dict_of,
}
use projects_api.Json.Strings.{scan_string}
use projects_api.Json.Numbers.{scan_number}

pub data Scanned (A : Type 0) : Type 0 where
  scanned : A → Scanned A
  invalid out_of_fuel : Scanned A

infixl 5 ◌>>=◌
abbrev pub ◌>>=◌ : {A B : Type 0} → Scanned A → (A → Scanned B) → Scanned B
scanned a >>= f = f a
invalid >>= f = invalid
out_of_fuel >>= f = out_of_fuel

abbrev pub or_invalid : {A : Type 0} → Option A → Scanned A
or_invalid none = invalid
or_invalid (some a) = scanned a

abbrev pub is_blank : ℕ → Bool
is_blank c = nat_eq c b' ' || nat_eq c b'\t' || nat_eq c b'\n' || nat_eq c b'\r'

unfoldable pub skip : Text → Text
skip [] = []
skip (c ∷ s) = let rest = skip s in if is_blank c then rest else c ∷ s

-- The input behind a character that must stand next.
unfoldable pub expect : ℕ → Text → Option Text
expect c [] = none
expect c (d ∷ s) = if nat_eq d c then some s else none

-- Words, and numbers where no word fits.
unfoldable pub strip_prefix : Text → Text → Option Text
strip_prefix [] s = some s
strip_prefix (c ∷ p) [] = none
strip_prefix (c ∷ p) (d ∷ s) = if nat_eq c d then strip_prefix p s else none

abbrev pub or_number : Option (Text × Text) → Scanned (Json × Text)
or_number none = invalid
or_number (some (literal, rest)) = scanned (number literal, rest)

abbrev pub words : List (Text × Json)
words =
    (lit "null", null)
    ∷ (lit "true", bool true)
    ∷ (lit "false", bool false)
    ∷ (lit "NaN", number (lit "NaN"))
    ∷ (lit "Infinity", number (lit "Infinity"))
    ∷ (lit "-Infinity", number (lit "-Infinity"))
    ∷ []

unfoldable pub scan_word : List (Text × Json) → Text → Scanned (Json × Text)
unfolding lit strip_prefix scan_number
scan_word [] s = or_number (scan_number s)
scan_word ((word, v) ∷ ws) s = elim (strip_prefix word s) [
  | some rest ↦ scanned (v, rest)
  | none ↦ scan_word ws s
]

-- What ends at a closing bracket, with the input behind it where the bracket is next, and goes on
-- otherwise.
abbrev pub unless_closed : {A : Type 0} → Option Text → A → Scanned (A × Text) → Scanned (A × Text)
unless_closed (some rest) a more = scanned (a, rest)
unless_closed none a more = more

-- Values. What a call leaves of the input is no structural part of it, so each call costs a unit
-- of fuel.
unfoldable mutual
  unfolding skip expect scan_string scan_word

  pub scan_once : ℕ → Text → Scanned (Json × Text)
  scan_once zero s = out_of_fuel
  scan_once (suc f) [] = invalid
  scan_once (suc f) (c ∷ s) =
      let text = (do (t, rest) ← or_invalid (scan_string s); scanned (string t, rest)) in
      let members = (do (fs, rest) ← scan_pairs f (skip s); scanned (object (dict_of fs), rest)) in
      let elements = (do (xs, rest) ← scan_values f (skip s); scanned (array xs, rest)) in
      if nat_eq c b'"'
      then text
      else if nat_eq c b'{'
      then unless_closed (expect b'}' (skip s)) (object end) members
      else if nat_eq c b'['
      then unless_closed (expect b']' (skip s)) (array nil) elements
      else scan_word words (c ∷ s)

  pub scan_pairs : ℕ → Text → Scanned (Fields × Text)
  scan_pairs zero s = out_of_fuel
  scan_pairs (suc f) s = do
    quote ← or_invalid (expect b'"' s)
    (k, behind_key) ← or_invalid (scan_string quote)
    colon ← or_invalid (expect b':' (skip behind_key))
    (v, behind_value) ← scan_once f (skip colon)
    let more = (do
      comma ← or_invalid (expect b',' (skip behind_value))
      (fs, rest) ← scan_pairs f (skip comma)
      scanned (field k v fs, rest))
    unless_closed (expect b'}' (skip behind_value)) (field k v end) more

  pub scan_values : ℕ → Text → Scanned (Items × Text)
  scan_values zero s = out_of_fuel
  scan_values (suc f) s = do
    (v, behind_value) ← scan_once f s
    let more = (do
      comma ← or_invalid (expect b',' (skip behind_value))
      (xs, rest) ← scan_values f (skip comma)
      scanned (cons v xs, rest))
    unless_closed (expect b']' (skip behind_value)) (cons v nil) more

abbrev pub whole : Json × Text → Scanned Json
whole (v, []) = scanned v
whole (v, c ∷ s) = invalid

-- `json.loads` of a text
unfoldable pub loads : Text → Scanned Json
unfolding scan_once
loads s = do (v, rest) ← scan_once (2 * length s + 1) (skip s); whole (v, skip rest)
