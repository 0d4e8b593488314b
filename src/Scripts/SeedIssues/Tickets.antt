-- ===== src/Scripts/SeedIssues/Tickets.antt =====
-- `Ticket` and `parse`: a ticket file is its front matter and its body.
pub mod Lines
pub mod Labels
use projects_api.Common.{
  ℕ, Text, lit, ◌==◌, Bool, false, ◌&&◌, ◌||◌, Option, none, some, List, [], ◌∷◌, ◌++◌, leb, nat_eq,
  if◌then◌else◌,
}
use projects_api.Json.Scan.{strip_prefix}
use projects_api.Domain.Exceptions.{Result, ok, raise, Error, exception, key_error, ◌>>=◌}
use projects_api.Domain.Validation.{strip, is_empty}

-- The path of a ticket is that of docs/tickets with its name.
pub record Ticket : Type 0 where
  pub name : Text
  pub title : Text
  pub labels : List Text
  pub milestone : Text
  pub status : Text
  pub body : Text

abbrev pub closing : Text
closing = lit "\n---\n"

abbrev pub in_front : ℕ → Option (Text × Text) → Option (Text × Text)
in_front c none = none
in_front c (some (front, body)) = some (c ∷ front, body)

-- `(.*?)\n---\n(.*)$` with `re.S`: the first end of the front matter counts.
unfoldable pub split_closing : Text → Option (Text × Text)
unfolding strip_prefix lit
split_closing [] = none
split_closing (c ∷ s) =
    let rest = in_front c (split_closing s) in
    elim (strip_prefix closing (c ∷ s)) [ some body ↦ some ([], body) | none ↦ rest ]

abbrev pub closed : Option Text → Option (Text × Text)
closed none = none
closed (some s) = split_closing s

-- `re.match(r"^---\n(.*?)\n---\n(.*)$", text, re.S)` and its two groups
unfoldable pub front_matter : Text → Option (Text × Text)
unfolding split_closing strip_prefix lit
front_matter s = closed (strip_prefix (lit "---\n") s)

-- The ends of lines of `str.splitlines`
abbrev pub is_break : ℕ → Bool
is_break c =
    leb 10 c && leb c 13 || leb 28 c && leb c 30 || nat_eq c 133 || nat_eq c 8232 || nat_eq c 8233

abbrev pub on_first : ℕ → List Text → List Text
on_first c [] = (c ∷ []) ∷ []
on_first c (line ∷ lines) = (c ∷ line) ∷ lines

-- The flag says that the character before was a carriage return.
unfoldable pub lines_from : Bool → Text → List Text
lines_from after_return [] = []
lines_from after_return (c ∷ s) =
    let rest = lines_from (nat_eq c 13) s in
    if after_return && nat_eq c 10 then rest else if is_break c then [] ∷ rest else on_first c rest

abbrev pub splitlines : Text → List Text
splitlines s = lines_from false s

-- `key, _, value = line.partition(":")`
unfoldable pub partition : Text → Text × Text
partition [] = ([], [])
partition (c ∷ s) =
    let (key, value) = partition s in if nat_eq c b':' then ([], s) else (c ∷ key, value)

unfoldable pub lstrip_quotes : Text → Text
lstrip_quotes [] = []
lstrip_quotes (c ∷ s) = if nat_eq c b'"' then lstrip_quotes s else c ∷ s

unfoldable pub rstrip_quotes : Text → Text
rstrip_quotes [] = []
rstrip_quotes (c ∷ s) =
    let rest = rstrip_quotes s in if is_empty rest && nat_eq c b'"' then [] else c ∷ rest

-- `value.strip('"')`
abbrev pub strip_quotes : Text → Text
strip_quotes s = rstrip_quotes (lstrip_quotes s)

-- The `dict` of the front matter: a key that comes again replaces the value before.
abbrev pub Meta : Type 0
Meta = List (Text × Text)

unfoldable pub meta_of : List Text → Meta
unfolding partition strip lstrip_quotes rstrip_quotes
meta_of [] = []
meta_of (line ∷ lines) =
    let (key, value) = partition line in (strip key, strip_quotes (strip value)) ∷ meta_of lines

abbrev pub or_value : Option Text → Option Text → Option Text
or_value none b = b
or_value (some a) b = some a

-- `meta.get(key)`: the last line of a key counts.
unfoldable pub lookup : Text → Meta → Option Text
unfolding ◌==◌
lookup key [] = none
lookup key ((k, v) ∷ meta) = or_value (lookup key meta) (if k == key then some v else none)

-- `s.split(separator)`, the first part apart
unfoldable pub split : ℕ → Text → Text × List Text
split separator [] = ([], [])
split separator (c ∷ s) =
    let (word, words) = split separator s in
    if nat_eq c separator then ([], word ∷ words) else (c ∷ word, words)

unfoldable pub present : List Text → List Text
unfolding strip
present [] = []
present (label ∷ labels) =
    let rest = present labels in let l = strip label in if is_empty l then rest else l ∷ rest

-- `[label.strip() for label in value.split(",") if label.strip()]`
unfoldable pub labels_of : Text → List Text
unfolding split present
labels_of value = let (label, labels) = split b',' value in present (label ∷ labels)

unfoldable pub mem : Text → List Text → Bool
unfolding ◌==◌
mem t [] = false
mem t (x ∷ xs) = x == t || mem t xs

-- `f"slice:{path.name.split('-')[0]}"`
unfoldable pub slice_label : Text → Text
unfolding lit split
slice_label name = lit "slice:" ++ (split b'-' name).0

-- `if slice_label not in labels: labels.append(slice_label)`
unfoldable pub with_slice : Text → List Text → List Text
unfolding mem
with_slice label labels = if mem label labels then labels else labels ++ label ∷ []

abbrev pub required : Option Text → Error → Result Text
required none e = raise e
required (some v) e = ok v

abbrev pub or_open : Option Text → Text
or_open none = lit "open"
or_open (some v) = v

-- What `parse` makes of the two groups.
unfoldable pub ticket_of : (name : Text) → Text × Text → Result Ticket
unfolding meta_of lookup labels_of slice_label with_slice strip lit
ticket_of name (front, body) =
    let meta = meta_of (splitlines front) in
    do
      value ← required (lookup (lit "labels") meta) (key_error "labels")
      title ← required (lookup (lit "title") meta) (key_error "title")
      milestone ← required (lookup (lit "milestone") meta) (key_error "milestone")
      ok (record {
        name = name;
        title = title;
        labels = with_slice (slice_label name) (labels_of value);
        milestone = milestone;
        status = or_open (lookup (lit "status") meta);
        body = strip body;
      })

abbrev parsed : (name : Text) → (path : Text) → Option (Text × Text) → Result Ticket
parsed name path none = raise (exception (path ++ lit ": missing front matter"))
parsed name path (some groups) = ticket_of name groups

-- `parse(path)` of a file with this text
unfoldable pub parse : (root : Text) → (name : Text) → (text : Text) → Result Ticket
unfolding front_matter ticket_of lit
parse root name text = parsed name (root ++ (lit "/docs/tickets/" ++ name)) (front_matter text)
