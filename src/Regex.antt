-- ===== src/Regex.antt =====
-- The part of Python's `re` that the program uses: character classes, sequence, choice, star and
-- counted repetition under `fullmatch`, by Brzozowski's derivatives.
pub mod Matching
use projects_api.Common.{
  ℕ, zero, suc, Text, Bool, true, false, ◌&&◌, ◌||◌, List, [], ◌∷◌, nat_eq, if◌then◌else◌,
}

pub data Regex : Type 0 where
  never empty : Regex
  class : (ℕ → Bool) → Regex
  seq alt : Regex → Regex → Regex
  star : Regex → Regex

-- `r?` and `r{n}`
abbrev pub optional : Regex → Regex
optional r = alt empty r

abbrev pub repeat : ℕ → Regex → Regex
repeat zero r = empty
repeat (suc n) r = seq r (repeat n r)

-- A literal text.
abbrev pub literal : Text → Regex
literal [] = empty
literal (c ∷ s) = seq (class (nat_eq c)) (literal s)

unfoldable pub nullable : Regex → Bool
nullable never = false
nullable empty = true
nullable (class p) = false
nullable (seq r s) = nullable r && nullable s
nullable (alt r s) = nullable r || nullable s
nullable (star r) = true

-- What is left to match after the character `c`.
unfoldable pub derive : ℕ → Regex → Regex
unfolding nullable
derive c never = never
derive c empty = never
derive c (class p) = if p c then empty else never
derive c (seq r s) =
    let skip = derive c s in
    let keep = seq (derive c r) s in if nullable r then alt keep skip else keep
derive c (alt r s) = alt (derive c r) (derive c s)
derive c (star r) = seq (derive c r) (star r)

unfoldable pub fullmatch : Regex → Text → Bool
unfolding nullable derive
fullmatch r [] = nullable r
fullmatch r (c ∷ s) = fullmatch (derive c r) s
