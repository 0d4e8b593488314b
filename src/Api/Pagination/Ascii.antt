-- ===== src/Api/Pagination/Ascii.antt =====
-- What is printed is ASCII, without a NUL.
use projects_api.Common.{
  ℕ, ◌/◌, ◌%◌, ◌<◌, Text, lit, ◌≡◌, refl, Bool, true, false, ◌&&◌, [], ◌∷◌, ◌++◌, all, all-append,
  ◌||◌, ltb, leb, nat_eq, arith, if◌then◌else◌,
}
use mathlib.Core.List.{append_assoc}
use projects_api.Json.{object}
use projects_api.Json.Print.{
  high_surrogate, low_surrogate, hex_digit, unicode_escape, escape_char, escape_all, print,
}
use projects_api.Api.Pagination.{is_ascii}
use projects_api.Api.Pagination.Printed.{
  comma_text, colon_text, cursor_fields, printed_pair, print-cursor,
}

hex_digit-is_ascii : (d : ℕ) → d < 16 → is_ascii (hex_digit d) ≡ true
unfolding hex_digit
hex_digit-is_ascii d h = ground arith

unicode_escape-is_ascii : (c : ℕ) → all is_ascii (unicode_escape c) ≡ true
unfolding unicode_escape
unicode_escape-is_ascii c =
    rw
      (
        hex_digit-is_ascii (c / 4096 % 16) (omega arith),
        hex_digit-is_ascii (c / 256 % 16) (omega arith),
        hex_digit-is_ascii (c / 16 % 16) (omega arith),
        hex_digit-is_ascii (c % 16) (omega arith),
      )
      refl

record IsAscii (t : Text) : Type 0 where
  holds : all is_ascii t ≡ true

IsAscii-if :
    (b : Bool) (x y : Text)
    → (b ≡ true → all is_ascii x ≡ true)
    → IsAscii y
    → IsAscii (if b then x else y)
IsAscii-if true x y h k = record { holds = h refl }
IsAscii-if false x y h k = k

escape_char-IsAscii : (c : ℕ) → IsAscii (escape_char c)
unfolding escape_char
escape_char-IsAscii c =
    IsAscii-if (nat_eq c b'"' || nat_eq c b'\\') (b'\\' ∷ c ∷ []) _ (λ e. ground arith)
      (IsAscii-if (nat_eq c b'\n') (b'\\' ∷ b'n' ∷ []) _ (λ e. refl)
        (IsAscii-if (nat_eq c b'\r') (b'\\' ∷ b'r' ∷ []) _ (λ e. refl)
          (IsAscii-if (nat_eq c b'\t') (b'\\' ∷ b't' ∷ []) _ (λ e. refl)
            (IsAscii-if (nat_eq c 12) (b'\\' ∷ b'f' ∷ []) _ (λ e. refl)
              (IsAscii-if (nat_eq c 8) (b'\\' ∷ b'b' ∷ []) _ (λ e. refl)
                (IsAscii-if (leb 32 c && leb c 126) (c ∷ []) _ (λ e. ground arith)
                  (IsAscii-if (ltb c 0x10000) (unicode_escape c) _ (λ e. unicode_escape-is_ascii c)
                    (record {
                      holds =
                          all-append is_ascii (unicode_escape (high_surrogate c))
                            (unicode_escape (low_surrogate c))
                            (unicode_escape-is_ascii (high_surrogate c))
                            (unicode_escape-is_ascii (low_surrogate c));
                    }))))))))

escape_all-is_ascii :
    (t rest : Text) → all is_ascii rest ≡ true → all is_ascii (escape_all t ++ rest) ≡ true
unfolding escape_all
escape_all-is_ascii [] rest h = h
escape_all-is_ascii (c ∷ t) rest h = rw append_assoc (
    all-append is_ascii (escape_char c) (escape_all t ++ rest) (escape_char-IsAscii c).holds
      (escape_all-is_ascii t rest h))

pair-is_ascii :
    (k t rest : Text) → all is_ascii rest ≡ true → all is_ascii (printed_pair k t rest) ≡ true
pair-is_ascii k t rest h =
    escape_all-is_ascii k _ (escape_all-is_ascii (lit "S") _ (escape_all-is_ascii t _ h))

pub print-is_ascii :
    (a b c d : Text)
    → all is_ascii (print comma_text colon_text (object (cursor_fields a b c d))) ≡ true
print-is_ascii a b c d = rw print-cursor (
    pair-is_ascii (lit "GSI1PK") a _ (
      pair-is_ascii (lit "GSI1SK") b _
        (pair-is_ascii (lit "PK") c _ (pair-is_ascii (lit "SK") d _ refl))))
