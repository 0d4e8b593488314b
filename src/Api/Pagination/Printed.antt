-- ===== src/Api/Pagination/Printed.antt =====
-- The JSON of a cursor is scanned back.
use projects_api.Common.{
  ℕ, suc, ◌+◌, ◌-◌, ◌*◌, ◌≤◌, Text, lit, ◌==◌, ◌≡◌, inl, refl, ap, ◌∙◌, Bool, true, false, [], ◌∷◌,
  ◌++◌, All, length, arith,
}
use mathlib.Core.List.{append_assoc}
use projects_api.Json.{Json, Fields, string, object, end, field, put, dict_from, dict_of}
use projects_api.Json.Print.{escape_all, quoted, print, print_fields, separator}
use projects_api.Json.Scan.{scanned, skip, expect, scan_once, scan_pairs, loads}
use projects_api.Json.RoundTrip.{IsScalar, scan_string-quoted}
use projects_api.Api.Pagination.{text_json}

abbrev pub comma_text : Text
comma_text = b',' ∷ []

abbrev pub colon_text : Text
colon_text = b':' ∷ []

abbrev pub cursor_fields : Text → Text → Text → Text → Fields
cursor_fields gsi1pk gsi1sk pk sk = field (lit "GSI1PK") (text_json gsi1pk) (
    field (lit "GSI1SK") (text_json gsi1sk)
      (field (lit "PK") (text_json pk) (field (lit "SK") (text_json sk) end)))

-- `{"S":"…"}` and `"…":{"S":"…"}` with what follows them.
abbrev pub printed_attr : Text → Text → Text
printed_attr t rest =
    b'{'
    ∷ b'"'
    ∷ (escape_all (lit "S") ++ (b'"' ∷ b':' ∷ b'"' ∷ (escape_all t ++ (b'"' ∷ b'}' ∷ rest))))

abbrev pub printed_pair : Text → Text → Text → Text
printed_pair k t rest = b'"' ∷ (escape_all k ++ (b'"' ∷ b':' ∷ printed_attr t rest))

print-pair :
    (first : Bool) (k t : Text) (fs : Fields)
    → print_fields comma_text colon_text first (field k (text_json t) fs)
      ≡ separator comma_text colon_text first
        ++ printed_pair k t (print_fields comma_text colon_text false fs)
unfolding print quoted
print-pair first k t fs = simp append_assoc

scan_once-string :
    (f : ℕ) (t rest : Text)
    → All IsScalar t
    → scan_once (suc f) (b'"' ∷ (escape_all t ++ (b'"' ∷ rest))) ≡ scanned (string t, rest)
unfolding scan_once
scan_once-string f t rest h = rw (scan_string-quoted t rest h, scan_once) refl

S-IsScalar : All IsScalar (lit "S")
unfolding lit
S-IsScalar = (inl (omega arith), tt)

scan_once-attr :
    (f : ℕ) (t rest : Text)
    → All IsScalar t
    → scan_once (suc (suc (suc f))) (printed_attr t rest) ≡ scanned (text_json t, rest)
unfolding scan_once skip expect put dict_from
scan_once-attr f t rest h =
    rw
      (
        scan_string-quoted (lit "S") (b':' ∷ b'"' ∷ (escape_all t ++ (b'"' ∷ b'}' ∷ rest)))
            S-IsScalar,
        scan_once,
      )
      (rw (scan_string-quoted t (b'}' ∷ rest) h, scan_once) refl)

-- A field of a cursor, with a further field or the closing brace behind it.
last_pair :
    (f : ℕ) (k t rest : Text)
    → All IsScalar k
    → All IsScalar t
    → scan_pairs (suc (suc (suc (suc f)))) (printed_pair k t (b'}' ∷ rest))
      ≡ scanned (field k (text_json t) end, rest)
unfolding scan_pairs skip expect
last_pair f k t rest hk ht =
    rw (scan_string-quoted k (b':' ∷ printed_attr t (b'}' ∷ rest)) hk, scan_pairs)
      (rw (scan_once-attr f t (b'}' ∷ rest) ht) refl)

more_pairs :
    (f : ℕ) (k t tail : Text) (fs : Fields) (rest : Text)
    → All IsScalar k
    → All IsScalar t
    → scan_pairs (suc (suc (suc f))) (b'"' ∷ tail) ≡ scanned (fs, rest)
    → scan_pairs (suc (suc (suc (suc f)))) (printed_pair k t (b',' ∷ b'"' ∷ tail))
      ≡ scanned (field k (text_json t) fs, rest)
unfolding scan_pairs skip expect
more_pairs f k t tail fs rest hk ht h =
    rw (scan_string-quoted k (b':' ∷ printed_attr t (b',' ∷ b'"' ∷ tail)) hk, scan_pairs)
      (rw (scan_once-attr f t (b',' ∷ b'"' ∷ tail) ht) (rw h refl))

loads_of_fuel :
    (s : Text) (v : Json)
    → skip s ≡ s
    → 4 ≤ length s
    → ((n : ℕ) → scan_once (suc (suc (suc (suc (suc (suc (suc (suc n)))))))) s ≡ scanned (v, []))
    → loads s ≡ scanned v
unfolding loads skip
loads_of_fuel s v blank long h =
    let fuel : 2 * length s + 1 ≡ suc (suc (suc (suc (suc (suc (suc (suc (2 * length s - 7)))))))) =
      omega arith in
    rw (blank, fuel) (rw (h (2 * length s - 7)) refl)

pub print-object :
    (fs : Fields)
    → print comma_text colon_text (object fs) ≡ b'{' ∷ print_fields comma_text colon_text true fs
unfolding print
print-object fs = refl

print-end : print_fields comma_text colon_text false end ≡ b'}' ∷ []
unfolding print
print-end = refl

names-IsScalar :
    All IsScalar (lit "GSI1PK")
    × All IsScalar (lit "GSI1SK")
    × All IsScalar (lit "PK")
    × All IsScalar (lit "SK")
unfolding lit
names-IsScalar = omega arith

scan_once-object :
    (f : ℕ) (tail : Text) (fs : Fields) (rest : Text)
    → scan_pairs f (b'"' ∷ tail) ≡ scanned (fs, rest)
    → scan_once (suc f) (b'{' ∷ b'"' ∷ tail) ≡ scanned (object (dict_of fs), rest)
unfolding scan_once skip expect
scan_once-object f tail fs rest h = rw (h, scan_once) refl

module _ (a b c d : Text) where
  abbrev pub printed_cursor : Text
  printed_cursor =
      b'{'
      ∷ printed_pair (lit "GSI1PK") a (
          b','
          ∷ printed_pair (lit "GSI1SK") b
              (b',' ∷ printed_pair (lit "PK") c (b',' ∷ printed_pair (lit "SK") d (b'}' ∷ []))))

  pub print-cursor : print comma_text colon_text (object (cursor_fields a b c d)) ≡ printed_cursor
  print-cursor =
      rw
        (
          print-object,
          print-pair true (lit "GSI1PK"),
          print-pair false (lit "GSI1SK"),
          print-pair false (lit "PK"),
          print-pair false (lit "SK"),
          print-end,
        )
        refl

  dict_of-cursor : dict_of (cursor_fields a b c d) ≡ cursor_fields a b c d
  unfolding dict_from lit ◌==◌
  dict_of-cursor = refl

  printed_cursor-long : 4 ≤ length printed_cursor
  unfolding escape_all lit
  printed_cursor-long = omega arith

  module _ (ha : All IsScalar a) (hb : All IsScalar b) (hc : All IsScalar c)
      (hd : All IsScalar d) where
    scan_once-cursor :
        (n : ℕ)
        → scan_once (suc (suc (suc (suc (suc (suc (suc (suc n)))))))) printed_cursor
          ≡ scanned (object (cursor_fields a b c d), [])
    scan_once-cursor n =
        let (h1, h2, h3, h4) = names-IsScalar in
        scan_once-object _ _ (cursor_fields a b c d) [] (
          more_pairs (suc (suc (suc n))) (lit "GSI1PK") a _ _ [] h1 ha (
            more_pairs (suc (suc n)) (lit "GSI1SK") b _ _ [] h2 hb
              (more_pairs (suc n) (lit "PK") c _ _ [] h3 hc (last_pair n (lit "SK") d [] h4 hd))))
        ∙ ap (λ (fs : Fields). scanned (object fs, [])) dict_of-cursor

    -- `json.loads` gives the cursor that `json.dumps` has printed.
    pub loads-print :
        loads (print comma_text colon_text (object (cursor_fields a b c d)))
        ≡ scanned (object (cursor_fields a b c d))
    loads-print = rw print-cursor (
        loads_of_fuel printed_cursor (object (cursor_fields a b c d)) (unfold skip in refl)
          printed_cursor-long scan_once-cursor)
