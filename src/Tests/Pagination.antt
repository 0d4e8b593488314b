-- ===== src/Tests/Pagination.antt =====
-- The cursors on concrete tokens, and the list route on the table in memory.
use projects_api.Common.{
  ◌≤◌, Text, lit, ◌==◌, ◌≡◌, ◌≢◌, ◌⊎◌, refl, none, some, [], ◌∷◌, All, all, true, length, arith,
  if◌then◌else◌,
}
use projects_api.Json.{Json, end, field, null, object, dict_from}
use projects_api.Json.Print.{sort_keys, sort_fields, dumps_sorted}
use projects_api.Json.Scan.{loads, scanned, out_of_fuel, invalid}
use projects_api.Json.Scan.Fuel.{loads-ne-out_of_fuel}
use projects_api.Json.RoundTrip.{IsScalar}
use projects_api.Base64.{urlsafe_b64encode, urlsafe_b64decode}
use projects_api.Base64.RoundTrip.{urlsafe_b64decode-urlsafe_b64encode}
use projects_api.Dynamo.{Item, text, attribute}
use projects_api.Domain.Exceptions.{invalid_cursor, ok, raise}
use projects_api.Repository.Records.{owner_gsi1pk}
use projects_api.Api.Pagination.{Decoder, is_ascii, key_json, encode_cursor, padded, decode_cursor}
use projects_api.Api.Pagination.Printed.{cursor_fields}
use projects_api.Api.Pagination.Cursors.{IsCursor, decode_cursor_cases, decode_cursor-IsCursor}
use projects_api.Api.Pagination.RoundTrip.{cursor, decode_cursor-encode_cursor}

abbrev pub decoder : Decoder
decoder = λ bytes. none

-- The last key of a page, as DynamoDB orders it.
abbrev pub last_key : Item
last_key =
    ("PK", text (lit "PROJECT#p"))
    ∷ ("SK", text (lit "META"))
    ∷ ("GSI1PK", text (lit "OWNER#key-1"))
    ∷ ("GSI1SK", text (lit "PROJECT#2026#p"))
    ∷ []

abbrev pub token : Text
token = encode_cursor null last_key

decode_cursor_cases_example :
    (decode_cursor decoder (lit "e30") (lit "key-1") ≡ raise invalid_cursor)
    ⊎ ((key : Item) × (decode_cursor decoder (lit "e30") (lit "key-1") ≡ ok key))
decode_cursor_cases_example = decode_cursor_cases decoder (lit "e30") (lit "key-1")

abbrev read_key : Item
read_key = cursor (lit "OWNER#key-1") (lit "PROJECT#2026#p") (lit "PROJECT#p") (lit "META")

program : Unit {0}
unfolding decode_cursor encode_cursor lit ◌==◌ owner_gsi1pk attribute dumps_sorted urlsafe_b64encode
    urlsafe_b64decode loads padded dict_from sort_keys sort_fields key_json
program = tt

read_back : decode_cursor decoder token (lit "key-1") ≡ ok read_key
unfolding program
read_back = refl

foreign : decode_cursor decoder token (lit "key-2") ≡ raise invalid_cursor
unfolding program
foreign = refl

-- Escapes, blanks, numbers and a repeated key.
loaded_text :
    loads (lit " {\"a\": [1, -2.5e+3, true], \"b\\u0041\": null, \"a\": \"\\n\"} ")
    ≡ scanned (object (field (lit "a") (Json.string (10 ∷ [])) (field (lit "bA") null end)))
unfolding program
loaded_text = refl

rejected : loads (lit "[01]") ≡ invalid
unfolding program
rejected = refl

loads-ne-out_of_fuel_example : loads (lit "[[[{\"a\": []}]]]") ≢ out_of_fuel
loads-ne-out_of_fuel_example = loads-ne-out_of_fuel (lit "[[[{\"a\": []}]]]")

urlsafe_b64decode-urlsafe_b64encode_example :
    urlsafe_b64decode (urlsafe_b64encode (251 ∷ 255 ∷ 0 ∷ 1 ∷ [])) ≡ some (251 ∷ 255 ∷ 0 ∷ 1 ∷ [])
urlsafe_b64decode-urlsafe_b64encode_example =
    urlsafe_b64decode-urlsafe_b64encode (251 ∷ 255 ∷ 0 ∷ 1 ∷ [])
      (omega arith, (omega arith, (omega arith, (omega arith, tt))))

decode_cursor-IsCursor_example :
    IsCursor (lit "key-1") read_key × (1 ≤ length token) × (length token ≤ 1024)
decode_cursor-IsCursor_example =
    decode_cursor-IsCursor decoder token (lit "key-1") read_key read_back

pub scalars : (s : Text) → all is_ascii s ≡ true → All IsScalar s
scalars [] h = tt
scalars (c ∷ s) h = (ground arith, scalars s (ground arith))

pub sorted_key :
    sort_keys (object (key_json null last_key))
    ≡ object
        (cursor_fields (lit "OWNER#key-1") (lit "PROJECT#2026#p") (lit "PROJECT#p") (lit "META"))
unfolding program
sorted_key = refl

pub short_token : length token ≡ 138
unfolding program
short_token = refl

decode_cursor-encode_cursor_example : decode_cursor decoder token (lit "key-1") ≡ (
    if lit "OWNER#key-1" == owner_gsi1pk (lit "key-1") then ok read_key else raise invalid_cursor)
unfolding program
decode_cursor-encode_cursor_example =
    decode_cursor-encode_cursor decoder null last_key (lit "OWNER#key-1") (lit "PROJECT#2026#p")
      (lit "PROJECT#p") (lit "META") (lit "key-1") sorted_key (scalars (lit "OWNER#key-1") refl)
      (scalars (lit "PROJECT#2026#p") refl) (scalars (lit "PROJECT#p") refl)
      (scalars (lit "META") refl) (omega (arith, short_token))
