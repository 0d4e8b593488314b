-- ===== src/Base64/RoundTrip.antt =====
-- What was encoded is decoded again, also where its padding was taken off and put on again.
use projects_api.Common.{
  ℕ, ◌+◌, ◌*◌, ◌/◌, ◌%◌, ◌<◌, Text, ◌≡◌, refl, ◌∙◌, true, false, Option, some, List, [], ◌∷◌, All,
  all, nat_eq, ltb, arith,
}
use projects_api.Base64.{
  sextet_char, urlsafe_b64encode, sextet_value, first, second, third, fourth, emit, a2b_base64,
  urlsafe_b64decode,
}

abbrev pub IsByte : ℕ → Type 0
IsByte b = b < 256

sextet_value-sextet_char : (d : ℕ) → d < 64 → sextet_value (sextet_char d) ≡ some d
unfolding sextet_value sextet_char
sextet_value-sextet_char d h = ground arith

pub sextet_char-ne-pad : (d : ℕ) → nat_eq (sextet_char d) b'=' ≡ false
unfolding sextet_char
sextet_char-ne-pad d = ground arith

sextet_char-ascii : (d : ℕ) → d < 64 → ltb (sextet_char d) 128 ≡ true
unfolding sextet_char
sextet_char-ascii d h = ground arith

-- One character of the alphabet, at each place of a group.
module _ (d : ℕ) (h : d < 64) (s : Text) (pads left : ℕ) where
  at_first : a2b_base64 first pads left (sextet_char d ∷ s) ≡ a2b_base64 second 0 d s
  unfolding a2b_base64
  at_first = rw (sextet_char-ne-pad d, sextet_value-sextet_char d h) refl

  at_second :
      a2b_base64 second pads left (sextet_char d ∷ s)
      ≡ emit (left * 4 + d / 16) (a2b_base64 third 0 (d % 16) s)
  unfolding a2b_base64
  at_second = rw (sextet_char-ne-pad d, sextet_value-sextet_char d h) refl

  at_third :
      a2b_base64 third pads left (sextet_char d ∷ s)
      ≡ emit (left * 16 + d / 4) (a2b_base64 fourth 0 (d % 4) s)
  unfolding a2b_base64
  at_third = rw (sextet_char-ne-pad d, sextet_value-sextet_char d h) refl

  at_fourth :
      a2b_base64 fourth pads left (sextet_char d ∷ s)
      ≡ emit (left * 64 + d) (a2b_base64 first 0 0 s)
  unfolding a2b_base64
  at_fourth = rw (sextet_char-ne-pad d, sextet_value-sextet_char d h) refl

emit_eq : (b c : ℕ) (o p : Option (List ℕ)) → b ≡ c → o ≡ p → emit b o ≡ emit c p
emit_eq b c o p h k = rw (h, k) refl

padded_twice : (left : ℕ) → a2b_base64 third 0 left (b'=' ∷ b'=' ∷ []) ≡ some []
unfolding a2b_base64
padded_twice left = refl

padded_once : (left : ℕ) → a2b_base64 fourth 0 left (b'=' ∷ []) ≡ some []
unfolding a2b_base64
padded_once left = refl

a2b-encode :
    (bytes : List ℕ) (pads left : ℕ)
    → All IsByte bytes
    → a2b_base64 first pads left (urlsafe_b64encode bytes) ≡ some bytes
unfolding urlsafe_b64encode
a2b-encode [] pads left h = unfold a2b_base64 in refl
a2b-encode (a ∷ []) pads left (h, _) =
    at_first (a / 4) (omega arith) _ pads left
    ∙ at_second (a % 4 * 16) (omega arith) _ 0 (a / 4)
    ∙ emit_eq _ a _ (some []) (omega arith) (padded_twice _)
a2b-encode (a ∷ b ∷ []) pads left (h, (k, _)) =
    at_first (a / 4) (omega arith) _ pads left
    ∙ at_second (a % 4 * 16 + b / 16) (omega arith) _ 0 (a / 4)
    ∙ emit_eq _ a _ (some (b ∷ [])) (omega arith) (
        at_third (b % 16 * 4) (omega arith) _ 0 ((a % 4 * 16 + b / 16) % 16)
        ∙ emit_eq _ b _ (some []) (omega arith) (padded_once _))
a2b-encode (a ∷ b ∷ c ∷ bytes) pads left (h, (k, (l, hs))) =
    at_first (a / 4) (omega arith) _ pads left
    ∙ at_second (a % 4 * 16 + b / 16) (omega arith) _ 0 (a / 4)
    ∙ emit_eq _ a _ (some (b ∷ c ∷ bytes)) (omega arith) (
        at_third (b % 16 * 4 + c / 64) (omega arith) _ 0 ((a % 4 * 16 + b / 16) % 16)
        ∙ emit_eq _ b _ (some (c ∷ bytes)) (omega arith) (
            at_fourth (c % 64) (omega arith) _ 0 ((b % 16 * 4 + c / 64) % 4)
            ∙ emit_eq _ c _ (some bytes) (omega arith) (a2b-encode bytes 0 0 hs)))

encode-ascii :
    (bytes : List ℕ) → All IsByte bytes → all (λ c. ltb c 128) (urlsafe_b64encode bytes) ≡ true
unfolding urlsafe_b64encode
encode-ascii [] h = refl
encode-ascii (a ∷ []) (h, _) =
    rw (sextet_char-ascii (a / 4) (omega arith), sextet_char-ascii (a % 4 * 16) (omega arith)) refl
encode-ascii (a ∷ b ∷ []) (h, (k, _)) =
    rw
      (
        sextet_char-ascii (a / 4) (omega arith),
        sextet_char-ascii (a % 4 * 16 + b / 16) (omega arith),
        sextet_char-ascii (b % 16 * 4) (omega arith),
      )
      refl
encode-ascii (a ∷ b ∷ c ∷ bytes) (h, (k, (l, hs))) =
    rw
      (
        sextet_char-ascii (a / 4) (omega arith),
        sextet_char-ascii (a % 4 * 16 + b / 16) (omega arith),
        sextet_char-ascii (b % 16 * 4 + c / 64) (omega arith),
        sextet_char-ascii (c % 64) (omega arith),
      )
      (encode-ascii bytes hs)

-- Decoding undoes encoding, for bytes.
pub urlsafe_b64decode-urlsafe_b64encode :
    (bytes : List ℕ) → All IsByte bytes → urlsafe_b64decode (urlsafe_b64encode bytes) ≡ some bytes
unfolding urlsafe_b64decode
urlsafe_b64decode-urlsafe_b64encode bytes h = rw (encode-ascii bytes h) (a2b-encode bytes 0 0 h)
