-- ===== src/Json/RoundTrip.antt =====
-- A text that is printed as a string is scanned back.
use projects_api.Common.{
  ℕ, ◌+◌, ◌-◌, ◌*◌, ◌/◌, ◌%◌, ◌≤◌, ◌<◌, Text, ◌≡◌, ◌⊎◌, inl, inr, refl, ap, ◌∙◌, true, false, ◌&&◌,
  ◌||◌, some, List, [], ◌∷◌, ◌++◌, All, nat_eq, ltb, leb, arith, Bool-cases,
}
use mathlib.Core.List.{append_assoc}
use projects_api.Json.Print.{
  hex_digit, unicode_escape, high_surrogate, low_surrogate, escape_char, escape_all,
}
use projects_api.Json.Strings.{
  StringUnit, char, escaped, plain, hex_value, escape_value, before, scan_units, join, scan_string,
  is_high, is_low,
}

-- A character that UTF-8 can encode.
abbrev pub IsScalar : ℕ → Type 0
IsScalar c = (c < 0xd800) ⊎ ((0xe000 ≤ c) × (c < 0x110000))

hex_value-hex_digit : (d : ℕ) → d < 16 → hex_value (hex_digit d) ≡ some d
unfolding hex_digit
hex_value-hex_digit d h = ground arith

scan_hex :
    (a b c d x y z w : ℕ) (s : Text)
    → hex_value a ≡ some x
    → hex_value b ≡ some y
    → hex_value c ≡ some z
    → hex_value d ≡ some w
    → scan_units plain (b'\\' ∷ b'u' ∷ a ∷ b ∷ c ∷ d ∷ s)
      ≡ before (escaped ((((0 * 16 + x) * 16 + y) * 16 + z) * 16 + w)) (scan_units plain s)
unfolding scan_units
scan_hex a b c d x y z w s ha hb hc hd = rw ha (rw hb (rw hc (rw hd refl)))

scan-unicode_escape :
    (c : ℕ) (s : Text)
    → c < 0x10000
    → scan_units plain (unicode_escape c ++ s) ≡ before (escaped c) (scan_units plain s)
unfolding unicode_escape
scan-unicode_escape c s h =
    scan_hex _ _ _ _ (c / 4096 % 16) (c / 256 % 16) (c / 16 % 16) (c % 16) s
      (hex_value-hex_digit _ (omega arith)) (hex_value-hex_digit _ (omega arith))
      (hex_value-hex_digit _ (omega arith)) (hex_value-hex_digit _ (omega arith))
    ∙ ap (λ (n : ℕ). before (escaped n) (scan_units plain s)) (omega arith)

-- The units `us` stand for the character.
record Reads (c : ℕ) (printed : Text) : Type 0 where
  us : List StringUnit
  joined : (vs : List StringUnit) → join (us ++ vs) ≡ c ∷ join vs
  read :
      (s : Text) (vs : List StringUnit) (rest : Text)
      → scan_units plain s ≡ some (vs, rest)
      → scan_units plain (printed ++ s) ≡ some (us ++ vs, rest)

one :
    (c : ℕ) (printed : Text)
    → ((s : Text) → scan_units plain (printed ++ s) ≡ before (char c) (scan_units plain s))
    → Reads c printed
unfolding join
one c printed h = record {
  us = char c ∷ [];
  joined = λ vs. refl;
  read = λ s vs rest e. h s ∙ ap (before (char c)) e;
}

not_high : (c : ℕ) → IsScalar c → is_high c ≡ false
not_high c h = ground arith

join_apart :
    (c : ℕ) (vs : List StringUnit) → is_high c ≡ false → join (escaped c ∷ vs) ≡ c ∷ join vs
unfolding join
join_apart c [] h = refl
join_apart c (char d ∷ vs) h = refl
join_apart c (escaped d ∷ vs) h = rw h refl

bmp : (c : ℕ) → c < 0x10000 → IsScalar c → Reads c (unicode_escape c)
bmp c h k = record {
  us = escaped c ∷ [];
  joined = λ vs. join_apart c vs (not_high c k);
  read = λ s vs rest e. scan-unicode_escape c s h ∙ ap (before (escaped c)) e;
}

join_pair :
    (h l : ℕ) (vs : List StringUnit)
    → is_high h ≡ true
    → is_low l ≡ true
    → join (escaped h ∷ escaped l ∷ vs) ≡ (0x10000 + (h - 0xd800) * 1024 + (l - 0xdc00)) ∷ join vs
unfolding join
join_pair h l vs a b = rw (a, b) refl

astral :
    (c : ℕ)
    → 0x10000 ≤ c
    → c < 0x110000
    → Reads c (unicode_escape (high_surrogate c) ++ unicode_escape (low_surrogate c))
astral c h k = record {
  us = escaped (high_surrogate c) ∷ escaped (low_surrogate c) ∷ [];
  joined = λ vs.
      join_pair (high_surrogate c) (low_surrogate c) vs (ground arith) (ground arith)
      ∙ ap (λ (n : ℕ). n ∷ join vs) (omega arith);
  read = λ s vs rest e. rw append_assoc (
      scan-unicode_escape (high_surrogate c) (unicode_escape (low_surrogate c) ++ s) (omega arith)
      ∙ ap (before (escaped (high_surrogate c))) (
          scan-unicode_escape (low_surrogate c) s (omega arith)
          ∙ ap (before (escaped (low_surrogate c))) e));
}

short_escape :
    (e c : ℕ) (s : Text)
    → nat_eq e b'u' ≡ false
    → escape_value e ≡ some c
    → scan_units plain (b'\\' ∷ e ∷ s) ≡ before (char c) (scan_units plain s)
unfolding scan_units
short_escape e c s h k = rw (h, k) refl

itself :
    (c : ℕ) (s : Text)
    → nat_eq c b'"' ≡ false
    → nat_eq c b'\\' ≡ false
    → ltb c 32 ≡ false
    → scan_units plain (c ∷ s) ≡ before (char c) (scan_units plain s)
unfolding scan_units
itself c s h k l = rw (h, k, l) refl

escape_char-Reads : (c : ℕ) → IsScalar c → Reads c (escape_char c)
unfolding escape_char
escape_char-Reads c k = elim (Bool-cases (nat_eq c b'"' || nat_eq c b'\\')) [
  | inl e ↦ rw e (one c _ (λ s. short_escape c c s (ground arith) (ground arith)))
  | inr e1 ↦ elim (Bool-cases (nat_eq c b'\n')) [
    | inl e ↦ rw (e1, e) (one c _ (λ s. short_escape b'n' c s refl (ground arith)))
    | inr e2 ↦ elim (Bool-cases (nat_eq c b'\r')) [
      | inl e ↦ rw (e1, e2, e) (one c _ (λ s. short_escape b'r' c s refl (ground arith)))
      | inr e3 ↦ elim (Bool-cases (nat_eq c b'\t')) [
        | inl e ↦ rw (e1, e2, e3, e) (one c _ (λ s. short_escape b't' c s refl (ground arith)))
        | inr e4 ↦ elim (Bool-cases (nat_eq c 12)) [
          | inl e ↦
              rw (e1, e2, e3, e4, e) (one c _ (λ s. short_escape b'f' c s refl (ground arith)))
          | inr e5 ↦ elim (Bool-cases (nat_eq c 8)) [
            | inl e ↦
                rw (e1, e2, e3, e4, e5, e)
                  (one c _ (λ s. short_escape b'b' c s refl (ground arith)))
            | inr e6 ↦ elim (Bool-cases (leb 32 c && leb c 126)) [
              | inl e ↦
                  rw (e1, e2, e3, e4, e5, e6, e)
                    (one c _ (λ s. itself c s (ground arith) (ground arith) (ground arith)))
              | inr e7 ↦ elim (Bool-cases (ltb c 0x10000)) [
                | inl e ↦ rw (e1, e2, e3, e4, e5, e6, e7, e) (bmp c (ground arith) k)
                | inr e ↦
                    rw (e1, e2, e3, e4, e5, e6, e7, e) (astral c (ground arith) (ground arith))
              ]
            ]
          ]
        ]
      ]
    ]
  ]
]

-- The units of an escaped text, before its closing quote.
scan-escape_all :
    (t : Text) (rest : Text)
    → All IsScalar t
    → (us : List StringUnit) × (scan_units plain (escape_all t ++ (b'"' ∷ rest)) ≡ some (us, rest))
      × (join us ≡ t)
unfolding escape_all
scan-escape_all [] rest h = ([], unfold scan_units in refl, unfold join in refl)
scan-escape_all (c ∷ t) rest (h, hs) =
    let (us, read, joined) = scan-escape_all t rest hs in
    let first = escape_char-Reads c h in
    (
      first.us ++ us,
      rw append_assoc (first.read (escape_all t ++ (b'"' ∷ rest)) us rest read),
      first.joined us ∙ ap (λ (x : Text). c ∷ x) joined,
    )

-- `scan_string` behind the opening quote of a printed text gives the text, and what follows it.
pub scan_string-quoted :
    (t : Text) (rest : Text)
    → All IsScalar t
    → scan_string (escape_all t ++ (b'"' ∷ rest)) ≡ some (t, rest)
unfolding scan_string
scan_string-quoted t rest h =
    let (us, read, joined) = scan-escape_all t rest h in rw (read, scan_string) (rw joined refl)
