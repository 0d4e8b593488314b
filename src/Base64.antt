-- ===== src/Base64.antt =====
-- `urlsafe_b64encode` and `urlsafe_b64decode` of Python's base64 module, as
-- src/projects_api/api/pagination.py uses them. The encoding is ASCII: a text.
pub mod RoundTrip
use projects_api.Common.{
  ℕ, zero, suc, ◌+◌, ◌-◌, ◌*◌, ◌/◌, ◌%◌, Text, Bool, true, false, ◌&&◌, ◌||◌, Option, none, some,
  List, [], ◌∷◌, ◌++◌, all, ltb, leb, nat_eq, if◌then◌else◌,
}

-- The character of six bits.
unfoldable pub sextet_char : ℕ → ℕ
sextet_char d =
    if ltb d 26
    then b'A' + d
    else if ltb d 52
    then b'a' + (d - 26)
    else if ltb d 62
    then b'0' + (d - 52)
    else if nat_eq d 62
    then b'-'
    else b'_'

unfoldable pub urlsafe_b64encode : List ℕ → Text
unfolding sextet_char
urlsafe_b64encode [] = []
urlsafe_b64encode (a ∷ []) = sextet_char (a / 4) ∷ sextet_char (a % 4 * 16) ∷ b'=' ∷ b'=' ∷ []
urlsafe_b64encode (a ∷ b ∷ []) =
    sextet_char (a / 4) ∷ sextet_char (a % 4 * 16 + b / 16) ∷ sextet_char (b % 16 * 4) ∷ b'=' ∷ []
urlsafe_b64encode (a ∷ b ∷ c ∷ bytes) =
    sextet_char (a / 4)
    ∷ sextet_char (a % 4 * 16 + b / 16)
    ∷ sextet_char (b % 16 * 4 + c / 64)
    ∷ sextet_char (c % 64)
    ∷ urlsafe_b64encode bytes

-- Both alphabets are read: `-` and `_` are turned into `+` and `/` first.
unfoldable pub sextet_value : ℕ → Option ℕ
sextet_value c =
    if leb b'A' c && leb c b'Z'
    then some (c - b'A')
    else if leb b'a' c && leb c b'z'
    then some (c - b'a' + 26)
    else if leb b'0' c && leb c b'9'
    then some (c - b'0' + 52)
    else if nat_eq c b'+' || nat_eq c b'-'
    then some 62
    else if nat_eq c b'/' || nat_eq c b'_'
    then some 63
    else none

-- The place in a group of four characters.
pub data Place : Type 0 where
  first second third fourth : Place

abbrev pub emit : ℕ → Option (List ℕ) → Option (List ℕ)
emit b none = none
emit b (some bytes) = some (b ∷ bytes)

-- `binascii.a2b_base64` with `strict_mode=False`: what is not of the alphabet is passed over, and
-- the input ends at enough padding. `none` is `binascii.Error`.
unfoldable pub a2b_base64 : Place → (pads : ℕ) → (left : ℕ) → Text → Option (List ℕ)
unfolding sextet_value
a2b_base64 first pads left [] = some []
a2b_base64 second pads left [] = none
a2b_base64 third pads left [] = none
a2b_base64 fourth pads left [] = none
a2b_base64 first pads left (c ∷ s) =
    let same = a2b_base64 first pads left s in
    if nat_eq c b'='
    then same
    else elim (sextet_value c) [ none ↦ same | some d ↦ a2b_base64 second 0 d s ]
a2b_base64 second pads left (c ∷ s) =
    let same = a2b_base64 second pads left s in
    if nat_eq c b'=' then same else elim (sextet_value c) [
      | none ↦ same
      | some d ↦ emit (left * 4 + d / 16) (a2b_base64 third 0 (d % 16) s)
    ]
a2b_base64 third pads left (c ∷ s) =
    let same = a2b_base64 third pads left s in
    let padded = a2b_base64 third (pads + 1) left s in
    if nat_eq c b'=' then (if ltb 0 pads then some [] else padded) else elim (sextet_value c) [
      | none ↦ same
      | some d ↦ emit (left * 16 + d / 4) (a2b_base64 fourth 0 (d % 4) s)
    ]
a2b_base64 fourth pads left (c ∷ s) =
    let same = a2b_base64 fourth pads left s in
    if nat_eq c b'=' then some [] else elim (sextet_value c) [
      | none ↦ same
      | some d ↦ emit (left * 64 + d) (a2b_base64 first 0 0 s)
    ]

-- A `str` must be ASCII; otherwise it is a `ValueError` too.
unfoldable pub urlsafe_b64decode : Text → Option (List ℕ)
unfolding a2b_base64
urlsafe_b64decode s = if all (λ c. ltb c 128) s then a2b_base64 first 0 0 s else none
