-- ===== src/Api/Pagination.antt =====
-- src/projects_api/api/pagination.py: the opaque cursors of the list endpoint.
pub mod Printed
pub mod Ascii
pub mod Tokens
pub mod Cursors
pub mod RoundTrip
use projects_api.Common.{
  ℕ, zero, suc, ◌+◌, ◌-◌, ◌%◌, String, Text, lit, ◌==◌, Bool, true, false, not, ◌&&◌, ◌||◌, Option,
  none, some, List, [], ◌∷◌, ◌++◌, all, length, ltb, leb, nat_eq, if◌then◌else◌,
}
use projects_api.Base64.{urlsafe_b64encode, urlsafe_b64decode}
use projects_api.Json.{Json, Fields, null, bool, number, string, array, object, end, field}
use projects_api.Json.Print.{dumps_sorted}
use projects_api.Json.Scan.{Scanned, scanned, invalid, out_of_fuel, loads}
use projects_api.Dynamo.{Attribute, text, Item, attribute}
use projects_api.Dynamo
use projects_api.Domain.Exceptions.{Error, invalid_cursor, exception, Result, ok, raise, ◌>>=◌}
use projects_api.Repository.Records.{owner_gsi1pk}

-- What `bytes.decode` makes of bytes that are not ASCII or have a NUL, by the encoding that
-- json.loads detects. `none` is a `UnicodeDecodeError`, which is a `ValueError`.
abbrev pub Decoder : Type 0
Decoder = List ℕ → Option Text

abbrev pub max_token_length : ℕ
max_token_length = 1024

-- `CURSOR_KEYS`, each with the attribute name that it is.
unfoldable pub cursor_key : Text → Option String
cursor_key name =
    if name == lit "PK"
    then some "PK"
    else if name == lit "SK"
    then some "SK"
    else if name == lit "GSI1PK"
    then some "GSI1PK"
    else if name == lit "GSI1SK"
    then some "GSI1SK"
    else none

-- The JSON of a key as boto3 gives it: `{"S": …}` for a text. `unknown` is that of an attribute
-- under any other descriptor.
abbrev pub text_json : Text → Json
text_json t = object (field (lit "S") (string t) end)

abbrev pub attribute_json : Json → Attribute → Json
attribute_json unknown (text t) = text_json t
attribute_json unknown Dynamo.other = unknown

unfoldable pub key_json : Json → Item → Fields
key_json unknown [] = end
key_json unknown ((name, value) ∷ item) =
    field (lit name) (attribute_json unknown value) (key_json unknown item)

-- `s.rstrip("=")`
abbrev pub is_empty : Text → Bool
is_empty [] = true
is_empty (c ∷ s) = false

unfoldable pub strip_pads : Text → Text
strip_pads [] = []
strip_pads (c ∷ s) =
    let rest = strip_pads s in if nat_eq c b'=' && is_empty rest then [] else c ∷ rest

unfoldable pub encode_cursor : Json → Item → Text
unfolding key_json strip_pads
encode_cursor unknown key =
    strip_pads (urlsafe_b64encode (dumps_sorted (object (key_json unknown key))))

-- `"=" * n` for the `n` that makes the length a multiple of 4
abbrev pub repeat_pad : ℕ → Text
repeat_pad zero = []
repeat_pad (suc n) = b'=' ∷ repeat_pad n

unfoldable pub padded : Text → Text
padded token = token ++ repeat_pad ((4 - length token % 4) % 4)

-- `json.loads` of bytes
abbrev pub is_ascii : ℕ → Bool
is_ascii b = leb 1 b && ltb b 128

abbrev pub bytes_text : Decoder → List ℕ → Option Text
bytes_text decode bytes = if all is_ascii bytes then some bytes else decode bytes

abbrev pub loaded : Option Text → Scanned Json
loaded none = invalid
loaded (some s) = loads s

abbrev pub decoded : Decoder → Option (List ℕ) → Scanned Json
decoded decode none = invalid
decoded decode (some bytes) = loaded (bytes_text decode bytes)

-- `set(key) == CURSOR_KEYS`
abbrev pub is_some : Option String → Bool
is_some none = false
is_some (some _) = true

unfoldable pub has_field : Text → Fields → Bool
has_field name end = false
has_field name (field k v fs) = k == name || has_field name fs

unfoldable pub only_cursor_keys : Fields → Bool
unfolding cursor_key
only_cursor_keys end = true
only_cursor_keys (field k v fs) = is_some (cursor_key k) && only_cursor_keys fs

unfoldable pub has_cursor_keys : Fields → Bool
unfolding has_field only_cursor_keys
has_cursor_keys fs =
    only_cursor_keys fs
    && has_field (lit "PK") fs
    && has_field (lit "SK") fs
    && has_field (lit "GSI1PK") fs
    && has_field (lit "GSI1SK") fs

-- A `dict` whose keys are `{"S"}` with a `str`.
unfoldable pub attribute_text : Json → Option Text
attribute_text (object (field k (string t) end)) = if k == lit "S" then some t else none
attribute_text _ = none

abbrev pub with_text : Option String → Option Text → Option Item → Option Item
with_text (some name) (some t) (some item) = some ((name, text t) ∷ item)
with_text _ _ _ = none

-- The loop over `key.values()`: the item that the `dict` is, if each of its values has a text.
unfoldable pub key_item : Fields → Option Item
unfolding cursor_key attribute_text
key_item end = some []
key_item (field k v fs) = with_text (cursor_key k) (attribute_text v) (key_item fs)

abbrev pub is_partition : Option Attribute → Text → Bool
is_partition (some (text t)) partition = t == partition
is_partition _ partition = false

abbrev pub check_owner : Text → Option Item → Result Item
check_owner owner_id none = raise invalid_cursor
check_owner owner_id (some key) =
    if is_partition (attribute "GSI1PK" key) (owner_gsi1pk owner_id)
    then ok key
    else raise invalid_cursor

unfoldable pub check_key : Text → Json → Result Item
unfolding has_cursor_keys key_item attribute owner_gsi1pk
check_key owner_id (object fs) =
    if has_cursor_keys fs then check_owner owner_id (key_item fs) else raise invalid_cursor
check_key owner_id _ = raise invalid_cursor

-- The `try` around `json.loads`. The scanner's fuel never runs out: `loads-ne-out_of_fuel`.
unfoldable pub check_loaded : Text → Scanned Json → Result Item
unfolding check_key lit
check_loaded owner_id (scanned v) = check_key owner_id v
check_loaded owner_id invalid = raise invalid_cursor
check_loaded owner_id out_of_fuel = raise (exception (lit "out of fuel"))

unfoldable pub decode_cursor : Decoder → (token : Text) → (owner_id : Text) → Result Item
unfolding check_loaded padded
decode_cursor decode token owner_id =
    if is_empty token || ltb max_token_length (length token)
    then raise invalid_cursor
    else check_loaded owner_id (decoded decode (urlsafe_b64decode (padded token)))
