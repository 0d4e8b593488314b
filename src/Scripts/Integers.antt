-- ===== src/Scripts/Integers.antt =====
-- `int(text)` and `str(number)` of Python, for scripts/seed_issues.py.
use projects_api.Common.{
  ℕ, zero, suc, ◌+◌, ◌-◌, ◌*◌, Text, Bool, false, ◌&&◌, ◌||◌, Option, none, some, [], ◌∷◌, all, leb,
  ltb, nat_eq, if◌then◌else◌,
}
use projects_api.Domain.Exceptions.{Result, ok, raise, value_error}
use projects_api.Json.Numbers.{is_digit}
use projects_api.Api.Errors.{decimal}

pub data ℤ : Type 0 where
  pos : ℕ → ℤ
  negsuc : ℕ → ℤ

-- `str(n)`
unfoldable pub str_int : ℤ → Text
unfolding decimal
str_int (pos n) = decimal (suc n) n
str_int (negsuc n) = b'-' ∷ decimal (suc (suc n)) (suc n)

abbrev negate : ℕ → ℤ
negate zero = pos zero
negate (suc n) = negsuc n

-- Whitespace of C, which `int` allows at both ends of an ASCII text.
abbrev is_c_space : ℕ → Bool
is_c_space c = leb 9 c && leb c 13 || nat_eq c b' '

-- Digits with single underscores between them, whitespace behind them; the flag says that the
-- character before was a digit.
unfoldable pub read_digits : Bool → ℕ → Text → Option ℕ
read_digits after_digit n [] = if after_digit then some n else none
read_digits after_digit n (c ∷ s) =
    let rest = read_digits (is_digit c) (if is_digit c then n * 10 + (c - b'0') else n) s in
    if is_digit c || nat_eq c b'_' && after_digit
    then rest
    else if after_digit && all is_c_space (c ∷ s)
    then some n
    else none

abbrev count_digits : Text → ℕ
count_digits [] = 0
count_digits (c ∷ s) = (if is_digit c then 1 else 0) + count_digits s

abbrev signed : (ℕ → ℤ) → Option ℕ → Result ℤ
signed sign none = raise (value_error "invalid literal for int() with base 10")
signed sign (some n) = ok (sign n)

unfoldable pub skip_c_space : Text → Text
skip_c_space [] = []
skip_c_space (c ∷ s) = if is_c_space c then skip_c_space s else c ∷ s

abbrev read_sign : Text → Result ℤ
read_sign [] = raise (value_error "invalid literal for int() with base 10")
read_sign (c ∷ s) =
    if nat_eq c b'-'
    then signed negate (read_digits false 0 s)
    else if nat_eq c b'+'
    then signed pos (read_digits false 0 s)
    else signed pos (read_digits false 0 (c ∷ s))

-- `int(s)`; `beyond` reads a text that is not ASCII. More than 4300 digits are refused.
unfoldable pub int : (beyond : Text → Result ℤ) → Text → Result ℤ
unfolding read_digits skip_c_space
int beyond s =
    if all (λ c. ltb c 128) s
    then (if leb (count_digits s) 4300
        then read_sign (skip_c_space s)
        else raise (value_error "Exceeds the limit for integer string conversion"))
    else beyond s
