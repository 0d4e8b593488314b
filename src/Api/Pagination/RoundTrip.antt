-- ===== src/Api/Pagination/RoundTrip.antt =====
-- `decode_cursor` reads back what `encode_cursor` writes, for its owner.
use projects_api.Common.{
  ℕ, ◌≤◌, Text, lit, ◌==◌, ◌≡◌, ◌≢◌, refl, ap, sym, ◌∙◌, true, false, some, List, [], ◌∷◌, All, all,
  length, ltb, arith, if◌then◌else◌,
}
use projects_api.Base64.{urlsafe_b64encode, urlsafe_b64decode}
use projects_api.Base64.RoundTrip.{IsByte, urlsafe_b64decode-urlsafe_b64encode}
use projects_api.Json.{Json, object}
use projects_api.Json.Print.{print, sort_keys, dumps_sorted}
use projects_api.Json.Scan.{scanned}
use projects_api.Json.RoundTrip.{IsScalar}
use projects_api.Dynamo.{text, Item}
use projects_api.Domain.Exceptions.{invalid_cursor, ok, raise}
use projects_api.Repository.Records.{owner_gsi1pk}
use projects_api.Api.Pagination.{
  Decoder, max_token_length, key_json, is_empty, strip_pads, encode_cursor, padded, is_ascii,
  decoded, cursor_key, has_field, has_cursor_keys, attribute_text, key_item, check_key,
  check_loaded, decode_cursor,
}
use projects_api.Api.Pagination.Printed.{
  comma_text, colon_text, cursor_fields, print-object, loads-print,
}
use projects_api.Api.Pagination.Ascii.{print-is_ascii}
use projects_api.Api.Pagination.Tokens.{padded-strip_pads}

-- The key with these attributes, in the order of their names.
abbrev pub cursor : Text → Text → Text → Text → Item
cursor gsi1pk gsi1sk pk sk =
    ("GSI1PK", text gsi1pk) ∷ ("GSI1SK", text gsi1sk) ∷ ("PK", text pk) ∷ ("SK", text sk) ∷ []

all-IsByte : (bytes : List ℕ) → all is_ascii bytes ≡ true → All IsByte bytes
all-IsByte [] h = tt
all-IsByte (b ∷ bytes) h = (ground arith, all-IsByte bytes (ground arith))

encode-ne-nil : (b : ℕ) (bytes : List ℕ) → urlsafe_b64encode (b ∷ bytes) ≢ []
unfolding urlsafe_b64encode
encode-ne-nil b [] h = cc (h)
encode-ne-nil b (c ∷ []) h = cc (h)
encode-ne-nil b (c ∷ d ∷ bytes) h = cc (h)

token-is_empty :
    (b : ℕ) (bytes : List ℕ) → is_empty (strip_pads (urlsafe_b64encode (b ∷ bytes))) ≡ false
token-is_empty b bytes =
    of (strip_pads (urlsafe_b64encode (b ∷ bytes))) (padded-strip_pads (b ∷ bytes))
  where
    of : (t : Text) → padded t ≡ urlsafe_b64encode (b ∷ bytes) → is_empty t ≡ false
    of [] h = absurd (encode-ne-nil b bytes (sym h ∙ unfold padded in refl))
    of (c ∷ t) h = refl

module _ (a b c d : Text) where
  key_item-cursor : key_item (cursor_fields a b c d) ≡ some (cursor a b c d)
  unfolding key_item cursor_key attribute_text lit ◌==◌
  key_item-cursor = refl

  has_cursor_keys-cursor : has_cursor_keys (cursor_fields a b c d) ≡ true
  unfolding has_cursor_keys has_field cursor_key lit ◌==◌
  has_cursor_keys-cursor = refl

  check_key-cursor :
      (owner_id : Text)
      → check_key owner_id (object (cursor_fields a b c d))
        ≡ (if a == owner_gsi1pk owner_id then ok (cursor a b c d) else raise invalid_cursor)
  unfolding check_key
  check_key-cursor owner_id = rw (has_cursor_keys-cursor, key_item-cursor) refl

  abbrev printed : Text
  printed = print comma_text colon_text (object (cursor_fields a b c d))

  token : Text
  token = strip_pads (urlsafe_b64encode printed)

  module _ (decode : Decoder) (ha : All IsScalar a) (hb : All IsScalar b) (hc : All IsScalar c)
      (hd : All IsScalar d) where
    decoded-token :
        decoded decode (urlsafe_b64decode (padded token)) ≡ scanned (object (cursor_fields a b c d))
    unfolding token
    decoded-token =
        rw
          (
            padded-strip_pads printed,
            urlsafe_b64decode-urlsafe_b64encode printed
                (all-IsByte printed (print-is_ascii a b c d)),
            print-is_ascii a b c d,
          )
          (loads-print a b c d ha hb hc hd)

    decode_cursor-token :
        (owner_id : Text)
        → length token ≤ 1024
        → decode_cursor decode token owner_id
          ≡ (if a == owner_gsi1pk owner_id then ok (cursor a b c d) else raise invalid_cursor)
    unfolding decode_cursor check_loaded
    decode_cursor-token owner_id short =
        let filled : is_empty token ≡ false =
          unfold token in rw (print-object (cursor_fields a b c d)) (token-is_empty b'{' _) in
        let small : ltb max_token_length (length token) ≡ false = ground arith in
        rw (filled, small) (rw decoded-token (check_key-cursor owner_id))

-- For a token of at most 1024 characters that `encode_cursor` made from a key that is the four
-- texts of a cursor, without surrogates, in any order: `decode_cursor` gives that key to the owner
-- of its partition, and raises that the cursor is invalid for any other caller.
pub decode_cursor-encode_cursor :
    (decode : Decoder) (unknown : Json) (key : Item) (gsi1pk gsi1sk pk sk : Text) (owner_id : Text)
    → sort_keys (object (key_json unknown key)) ≡ object (cursor_fields gsi1pk gsi1sk pk sk)
    → All IsScalar gsi1pk
    → All IsScalar gsi1sk
    → All IsScalar pk
    → All IsScalar sk
    → length (encode_cursor unknown key) ≤ 1024
    → decode_cursor decode (encode_cursor unknown key) owner_id ≡ (
        if gsi1pk == owner_gsi1pk owner_id
        then ok (cursor gsi1pk gsi1sk pk sk)
        else raise invalid_cursor)
decode_cursor-encode_cursor decode unknown key a b c d owner_id sorted ha hb hc hd short =
    let same : encode_cursor unknown key ≡ token a b c d =
      unfold encode_cursor token dumps_sorted in
      ap (λ (v : Json). strip_pads (urlsafe_b64encode (print comma_text colon_text v))) sorted in
    rw same (decode_cursor-token a b c d decode ha hb hc hd owner_id (rw (← same) short))
