-- ===== src/Json/Strings.antt =====
-- `json.loads`: the scanner of strings.
use projects_api.Common.{
  ℕ, zero, suc, ◌+◌, ◌-◌, ◌*◌, Text, Bool, ◌&&◌, ◌||◌, Option, none, some, List, [], ◌∷◌, ltb, leb,
  nat_eq, if◌then◌else◌,
}

-- What stands in a string is a character or a unit of a `\u` escape, of which two
-- surrogates in a row make a character.
pub data StringUnit : Type 0 where
  char escaped : ℕ → StringUnit

pub data Mode : Type 0 where
  plain backslash : Mode
  hex : (left : ℕ) → (value : ℕ) → Mode

abbrev pub hex_value : ℕ → Option ℕ
hex_value c =
    if leb b'0' c && leb c b'9'
    then some (c - b'0')
    else if leb b'a' c && leb c b'f'
    then some (c - b'a' + 10)
    else if leb b'A' c && leb c b'F'
    then some (c - b'A' + 10)
    else none

abbrev pub escape_value : ℕ → Option ℕ
escape_value c =
    if nat_eq c b'"' || nat_eq c b'\\' || nat_eq c b'/'
    then some c
    else if nat_eq c b'b'
    then some 8
    else if nat_eq c b'f'
    then some 12
    else if nat_eq c b'n'
    then some b'\n'
    else if nat_eq c b'r'
    then some b'\r'
    else if nat_eq c b't'
    then some b'\t'
    else none

abbrev pub before : StringUnit → Option (List StringUnit × Text) → Option (List StringUnit × Text)
before u none = none
before u (some (us, rest)) = some (u ∷ us, rest)

-- The units up to the closing quote, and the input behind it. `strict` refuses control characters.
unfoldable pub scan_units : Mode → Text → Option (List StringUnit × Text)
scan_units mode [] = none
scan_units plain (c ∷ s) =
    let escape = scan_units backslash s in
    let more = before (char c) (scan_units plain s) in
    if nat_eq c b'"'
    then some ([], s)
    else if nat_eq c b'\\'
    then escape
    else if ltb c 32
    then none
    else more
scan_units backslash (c ∷ s) =
    let digits = scan_units (hex 3 0) s in
    let more = λ (d : ℕ). before (char d) (scan_units plain s) in
    if nat_eq c b'u' then digits else elim (escape_value c) [ none ↦ none | some d ↦ more d ]
scan_units (hex zero value) (c ∷ s) =
    let more = λ (d : ℕ). before (escaped (value * 16 + d)) (scan_units plain s) in
    elim (hex_value c) [ none ↦ none | some d ↦ more d ]
scan_units (hex (suc left) value) (c ∷ s) =
    let more = λ (d : ℕ). scan_units (hex left (value * 16 + d)) s in
    elim (hex_value c) [ none ↦ none | some d ↦ more d ]

abbrev pub is_high : ℕ → Bool
is_high c = leb 0xd800 c && leb c 0xdbff

abbrev pub is_low : ℕ → Bool
is_low c = leb 0xdc00 c && leb c 0xdfff

unfoldable pub join : List StringUnit → Text
join [] = []
join (char c ∷ us) = c ∷ join us
join (escaped h ∷ []) = h ∷ []
join (escaped h ∷ char c ∷ us) = h ∷ c ∷ join us
join (escaped h ∷ escaped l ∷ us) =
    let pair = (0x10000 + (h - 0xd800) * 1024 + (l - 0xdc00)) ∷ join us in
    let apart = h ∷ join (escaped l ∷ us) in if is_high h && is_low l then pair else apart

-- `scanstring`, behind the opening quote
unfoldable pub scan_string : Text → Option (Text × Text)
unfolding scan_units join
scan_string s = elim (scan_units plain s) [ none ↦ none | some (us, rest) ↦ some (join us, rest) ]
