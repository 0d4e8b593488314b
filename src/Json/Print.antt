-- ===== src/Json/Print.antt =====
-- `json.dumps` with `ensure_ascii`, separators "," and ":", and `sort_keys`.
use projects_api.Common.{
  ℕ, ◌+◌, ◌-◌, ◌/◌, ◌%◌, Text, lit, Bool, true, false, ◌&&◌, ◌||◌, [], ◌∷◌, ◌++◌, ltb, leb, nat_eq,
  if◌then◌else◌,
}
use projects_api.Json.{
  Json, Items, Fields, null, bool, number, string, array, object, nil, cons, end, field,
}

unfoldable pub hex_digit : ℕ → ℕ
hex_digit d = if ltb d 10 then b'0' + d else b'a' + (d - 10)

-- `\uXXXX`
unfoldable pub unicode_escape : ℕ → Text
unfolding hex_digit
unicode_escape c =
    b'\\'
    ∷ b'u'
    ∷ hex_digit (c / 4096 % 16)
    ∷ hex_digit (c / 256 % 16)
    ∷ hex_digit (c / 16 % 16)
    ∷ hex_digit (c % 16)
    ∷ []

abbrev pub high_surrogate : ℕ → ℕ
high_surrogate c = 0xd800 + (c - 0x10000) / 1024

abbrev pub low_surrogate : ℕ → ℕ
low_surrogate c = 0xdc00 + (c - 0x10000) % 1024

-- A character of a string, escaped where it is not printable ASCII.
unfoldable pub escape_char : ℕ → Text
unfolding unicode_escape
escape_char c =
    if nat_eq c b'"' || nat_eq c b'\\'
    then b'\\' ∷ c ∷ []
    else if nat_eq c b'\n'
    then b'\\' ∷ b'n' ∷ []
    else if nat_eq c b'\r'
    then b'\\' ∷ b'r' ∷ []
    else if nat_eq c b'\t'
    then b'\\' ∷ b't' ∷ []
    else if nat_eq c 12
    then b'\\' ∷ b'f' ∷ []
    else if nat_eq c 8
    then b'\\' ∷ b'b' ∷ []
    else if leb 32 c && leb c 126
    then c ∷ []
    else if ltb c 0x10000
    then unicode_escape c
    else unicode_escape (high_surrogate c) ++ unicode_escape (low_surrogate c)

unfoldable pub escape_all : Text → Text
unfolding escape_char
escape_all [] = []
escape_all (c ∷ s) = escape_char c ++ escape_all s

unfoldable pub quoted : Text → Text
unfolding escape_all
quoted s = b'"' ∷ (escape_all s ++ (b'"' ∷ []))

-- Order of texts by their code points.
unfoldable pub text_le : Text → Text → Bool
text_le [] t = true
text_le (c ∷ s) [] = false
text_le (c ∷ s) (d ∷ t) = ltb c d || nat_eq c d && text_le s t

-- `sorted`, which is stable
unfoldable pub insert_field : Text → Json → Fields → Fields
unfolding text_le
insert_field k v end = field k v end
insert_field k v (field j w fs) =
    let rest = insert_field k v fs in
    if text_le k j then field k v (field j w fs) else field j w rest

unfoldable pub sort_fields : Fields → Fields
unfolding insert_field
sort_fields end = end
sort_fields (field k v fs) = insert_field k v (sort_fields fs)

-- `sort_keys` holds at each depth.
unfoldable mutual
  unfolding sort_fields

  pub sort_keys : Json → Json
  sort_keys (array xs) = array (sort_items xs)
  sort_keys (object fs) = object (sort_fields (sort_values fs))
  sort_keys v = v

  pub sort_items : Items → Items
  sort_items nil = nil
  sort_items (cons x xs) = cons (sort_keys x) (sort_items xs)

  pub sort_values : Fields → Fields
  sort_values end = end
  sort_values (field k v fs) = field k (sort_keys v) (sort_values fs)

module _ (comma colon : Text) where
  -- What stands before a further item or field.
  abbrev pub separator : Bool → Text
  separator true = []
  separator false = comma

  unfoldable mutual
    unfolding lit quoted

    pub print : Json → Text
    print null = lit "null"
    print (bool true) = lit "true"
    print (bool false) = lit "false"
    print (number literal) = literal
    print (string s) = quoted s
    print (array xs) = b'[' ∷ print_items true xs
    print (object fs) = b'{' ∷ print_fields true fs

    pub print_items : Bool → Items → Text
    print_items first nil = b']' ∷ []
    print_items first (cons x xs) = separator first ++ (print x ++ print_items false xs)

    pub print_fields : Bool → Fields → Text
    print_fields first end = b'}' ∷ []
    print_fields first (field k v fs) =
        separator first ++ (quoted k ++ (colon ++ (print v ++ print_fields false fs)))

-- `json.dumps(value, separators=(",", ":"), sort_keys=True)`
unfoldable pub dumps_sorted : Json → Text
unfolding sort_keys print
dumps_sorted v = print (b',' ∷ []) (b':' ∷ []) (sort_keys v)
