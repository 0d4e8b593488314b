-- ===== src/Json/Scan/Fuel.antt =====
-- The scanner ends: `loads` has enough fuel for every text.
use projects_api.Common.{
  ℕ, zero, suc, ◌+◌, ◌*◌, ◌≤◌, ◌<◌, Text, ◌≢◌, inl, inr, Bool, true, false, Option, none, some, [],
  ◌∷◌, length, nat_eq, arith, if◌then◌else◌, Bool-cases,
}
use projects_api.Json.{Json}
use projects_api.Json.Scan.{
  Scanned, scanned, invalid, out_of_fuel, ◌>>=◌, or_invalid, skip, expect, words, unless_closed,
  scan_once, scan_pairs, scan_values, whole, loads,
}
use projects_api.Json.Strings.{scan_string}
use projects_api.Json.Scan.Shorter.{
  Shorter, Within, skip-le, scan_string-Shorter, scan_word-Within, words-AllWords,
}

module _ {A B : Type 0} where
  Within-bind :
      (n m : ℕ) (r : Scanned (A × Text)) (f : A × Text → Scanned (B × Text))
      → Within n r
      → ((a : A) (t : Text) → length t < n → Within m (f (a, t)))
      → Within m (r >>= f)
  Within-bind n m (scanned (a, t)) f h k = k a t h
  Within-bind n m invalid f h k = tt
  Within-bind n m out_of_fuel f h k = elim h [ ]

  Within-some :
      (n m : ℕ) (o : Option (A × Text)) (f : A × Text → Scanned (B × Text))
      → Shorter n o
      → ((a : A) (t : Text) → length t < n → Within m (f (a, t)))
      → Within m (or_invalid o >>= f)
  Within-some n m none f h k = tt
  Within-some n m (some (a, t)) f h k = k a t h

module _ {B : Type 0} where
  Within-expect :
      (m c : ℕ) (s : Text) (f : Text → Scanned (B × Text))
      → ((t : Text) → length t < length s → Within m (f t))
      → Within m (or_invalid (expect c s) >>= f)
  unfolding expect
  Within-expect m c [] f k = tt
  Within-expect m c (d ∷ s) f k = elim (Bool-cases (nat_eq d c)) [
    | inl e ↦ rw e (k s (omega arith))
    | inr e ↦ rw e tt
  ]

  Within-closed :
      (m c : ℕ) (s : Text) (b : B) (more : Scanned (B × Text))
      → length s ≤ m
      → Within m more
      → Within m (unless_closed (expect c s) b more)
  unfolding expect
  Within-closed m c [] b more h k = k
  Within-closed m c (d ∷ s) b more h k = elim (Bool-cases (nat_eq d c)) [
    | inl e ↦ rw e (omega arith)
    | inr e ↦ rw e k
  ]

  Within-if :
      (m : ℕ) (b : Bool) (x y : Scanned (B × Text))
      → Within m x
      → Within m y
      → Within m (if b then x else y)
  Within-if m true x y h k = h
  Within-if m false x y h k = k

mutual
  unfolding scan_once

  scan_once-Within : (f : ℕ) (s : Text) → 2 * length s < f → Within (length s) (scan_once f s)
  scan_once-Within zero s h = absurd (omega arith)
  scan_once-Within (suc f) [] h = tt
  scan_once-Within (suc f) (c ∷ s) h =
      Within-if _ (nat_eq c b'"') _ _
        (Within-some (length s) _ (scan_string s) _ (scan_string-Shorter s) λ t rest k. omega arith)
        (Within-if _ (nat_eq c b'{') _ _
          (Within-closed _ b'}' (skip s) _ _ (omega (arith, skip-le s)) (
            Within-bind (length (skip s)) _ (scan_pairs f (skip s)) _
              (scan_pairs-Within f (skip s) (omega (arith, skip-le s)))
              λ fs rest k. omega (arith, skip-le s)))
          (Within-if _ (nat_eq c b'[') _ _
            (Within-closed _ b']' (skip s) _ _ (omega (arith, skip-le s)) (
              Within-bind (length (skip s)) _ (scan_values f (skip s)) _
                (scan_values-Within f (skip s) (omega (arith, skip-le s)))
                λ xs rest k. omega (arith, skip-le s)))
            (scan_word-Within words (c ∷ s) words-AllWords)))

  scan_pairs-Within : (f : ℕ) (s : Text) → 2 * length s < f → Within (length s) (scan_pairs f s)
  scan_pairs-Within zero s h = absurd (omega arith)
  scan_pairs-Within (suc f) s h = Within-expect _ b'"' s _ λ quote a.
      Within-some (length quote) _ (scan_string quote) _ (scan_string-Shorter quote) λ key t b.
        Within-expect _ b':' (skip t) _ λ colon c.
          Within-bind (length (skip colon)) _ (scan_once f (skip colon)) _
            (scan_once-Within f (skip colon) (omega (arith, skip-le colon, skip-le t)))
            λ v u d.
              Within-closed _ b'}' (skip u) _ _ (omega (arith, skip-le u, skip-le colon, skip-le t))
                (Within-expect _ b',' (skip u) _ λ comma e.
                  Within-bind (length (skip comma)) _ (scan_pairs f (skip comma)) _
                    (scan_pairs-Within f (skip comma)
                      (omega (arith, skip-le comma, skip-le u, skip-le colon, skip-le t)))
                    λ fs rest k. omega (arith, skip-le comma, skip-le u, skip-le colon, skip-le t))

  scan_values-Within :
      (f : ℕ) (s : Text) → 2 * length s + 1 < f → Within (length s) (scan_values f s)
  scan_values-Within zero s h = absurd (omega arith)
  scan_values-Within (suc f) s h =
      Within-bind (length s) _ (scan_once f s) _ (scan_once-Within f s (omega arith)) λ v u d.
        Within-closed _ b']' (skip u) _ _ (omega (arith, skip-le u)) (
          Within-expect _ b',' (skip u) _ λ comma e.
            Within-bind (length (skip comma)) _ (scan_values f (skip comma)) _
              (scan_values-Within f (skip comma) (omega (arith, skip-le comma, skip-le u)))
              λ xs rest k. omega (arith, skip-le comma, skip-le u))

finished :
    (n : ℕ) (r : Scanned (Json × Text))
    → Within n r
    → (r >>= λ (v, rest). whole (v, skip rest)) ≢ out_of_fuel
finished n (scanned (v, rest)) h e = of v (skip rest) e
  where
    of : (v : Json) (s : Text) → whole (v, s) ≢ out_of_fuel
    of v [] e = cc (e)
    of v (c ∷ s) e = cc (e)
finished n invalid h e = cc (e)
finished n out_of_fuel h e = elim h [ ]

-- `loads` has enough fuel for every text: it ends with a value or with an error.
pub loads-ne-out_of_fuel : (s : Text) → loads s ≢ out_of_fuel
unfolding loads
loads-ne-out_of_fuel s =
    finished (length (skip s)) (scan_once (2 * length s + 1) (skip s))
      (scan_once-Within (2 * length s + 1) (skip s) (omega (arith, skip-le s)))
