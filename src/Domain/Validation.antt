-- ===== src/Domain/Validation.antt =====
-- src/projects_api/domain/validation.py. A `str` is the list of its code points.
pub mod Normal
pub mod Pattern
pub mod Names
use projects_api.Common.{
  ℕ, ◌+◌, Text, Bool, true, false, not, ◌&&◌, ◌||◌, List, [], ◌∷◌, map, length, all, ltb, leb,
  nat_eq, if◌then◌else◌,
}
use projects_api.Regex.{Regex, class, empty, seq, star, optional, fullmatch}
use projects_api.Domain.Exceptions.{Result, ok, raise, value_error}

abbrev pub name_min_length : ℕ
name_min_length = 3

abbrev pub name_max_length : ℕ
name_max_length = 63

-- `str.isspace`, which is also the class `\s` of `re` and what `str.strip` strips.
unfoldable pub is_space : ℕ → Bool
is_space c =
    leb 9 c && leb c 13
    || leb 28 c && leb c 32
    || nat_eq c 133
    || nat_eq c 160
    || nat_eq c 5760
    || leb 8192 c && leb c 8202
    || nat_eq c 8232
    || nat_eq c 8233
    || nat_eq c 8239
    || nat_eq c 8287
    || nat_eq c 12288

-- `[A-Za-z0-9]`
unfoldable pub is_alnum : ℕ → Bool
is_alnum c = leb b'A' c && leb c b'Z' || leb b'a' c && leb c b'z' || leb b'0' c && leb c b'9'

-- `[A-Za-z0-9 _-]`
unfoldable pub is_name_char : ℕ → Bool
unfolding is_alnum
is_name_char c = is_alnum c || nat_eq c b' ' || nat_eq c b'_' || nat_eq c b'-'

-- `^[A-Za-z0-9](?:[A-Za-z0-9 _-]*[A-Za-z0-9])?$`; `fullmatch` makes the anchors idle.
unfoldable pub name_pattern : Regex
name_pattern = seq (class is_alnum) (optional (seq (star (class is_name_char)) (class is_alnum)))

unfoldable pub lstrip : Text → Text
lstrip [] = []
lstrip (c ∷ s) = if is_space c then lstrip s else c ∷ s

abbrev pub is_empty : Text → Bool
is_empty [] = true
is_empty (_ ∷ _) = false

unfoldable pub rstrip : Text → Text
rstrip [] = []
rstrip (c ∷ s) = let rest = rstrip s in if is_empty rest && is_space c then [] else c ∷ rest

-- `raw.strip()`
unfoldable pub strip : Text → Text
unfolding lstrip rstrip
strip s = rstrip (lstrip s)

-- `re.compile(r"\s+").sub(" ", s)`: the flag says that the character before was whitespace.
unfoldable pub collapse : Bool → Text → Text
collapse in_run [] = []
collapse in_run (c ∷ s) =
    let rest = collapse (is_space c) s in
    if is_space c then (if in_run then rest else b' ' ∷ rest) else c ∷ rest

unfoldable pub normalise_name : Text → Text
unfolding strip collapse is_space
normalise_name raw = collapse false (strip raw)

unfoldable pub validate_name : Text → Result Text
unfolding normalise_name name_pattern fullmatch is_name_char
validate_name raw =
    let name = normalise_name raw in
    if ltb (length name) name_min_length
    then raise (value_error "Project name must be at least 3 characters.")
    else if ltb name_max_length (length name)
    then raise (value_error "Project name must be at most 63 characters.")
    else if not (fullmatch name_pattern name)
    then raise (
        value_error
          "Project name may only contain letters, digits, spaces, hyphens and underscores, and must start and end with a letter or digit.")
    else ok name

-- What the program leaves to the Unicode character database: `str.lower` of a text that is not all
-- ASCII, and `str.isprintable` of a character outside Latin-1.
pub record Unicode : Type 0 where
  pub lower : Text → Text
  pub printable : ℕ → Bool

unfoldable pub lower_ascii : ℕ → ℕ
lower_ascii c = if leb b'A' c && leb c b'Z' then c + 32 else c

abbrev pub is_ascii : ℕ → Bool
is_ascii c = ltb c 128

-- `s.lower()`
unfoldable pub lower : Unicode → Text → Text
unfolding lower_ascii
lower u s = if all is_ascii s then map lower_ascii s else u.lower s

unfoldable pub name_key : Unicode → Text → Text
unfolding normalise_name lower
name_key u name = lower u (normalise_name name)
