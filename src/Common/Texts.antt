-- ===== src/Common/Texts.antt =====
-- Python's `str` as the list of its code points, where the program walks, joins or stores it.
-- A literal is `lit "…"`; `lit` is shut, so that a proof does not spell a literal out.
use Prim.Native.Nat.{ℕ}
use Prim.Native.Char.{code}
use Prim.Native.String.{String}
use mathlib.Core.Path.{◌≡◌, refl}
use mathlib.Core.Logic.{◌↔◌, ◌≢◌}
use mathlib.Core.Bool.{Bool, true, false, ◌&&◌}
use mathlib.Core.List.{List, [], ◌∷◌, ◌++◌}
use native.Mathlib.Omega.{arith}
use projects_api.Common.Logic.{nat_eq}

abbrev pub Text : Type 0
Text = List ℕ

-- The code points of a literal. `String` has its own `[]` and `∷`.
unfoldable pub lit : String → Text
lit String.[] = []
lit (String.◌∷◌ c s) = code c ∷ lit s

infix 50 ◌==◌
unfoldable pub ◌==◌ : Text → Text → Bool
[] == [] = true
(c ∷ s) == (d ∷ t) = nat_eq c d && s == t
_ == _ = false

pub ==_sound : (s t : Text) → (s == t) ≡ true → s ≡ t
unfolding ◌==◌
==_sound [] [] h = refl
==_sound [] (d ∷ t) h = cc
==_sound (c ∷ s) [] h = cc
==_sound (c ∷ s) (d ∷ t) h = ground (arith, ==_sound s t)

pub ==_refl : (s : Text) → (s == s) ≡ true
unfolding ◌==◌
==_refl [] = refl
==_refl (c ∷ s) = ground (arith, ==_refl s)

pub ==_iff : (s t : Text) → ((s == t) ≡ true) ↔ (s ≡ t)
==_iff s t = (==_sound s t, λ e. ground (arith, ==_refl s))

pub ==_ne : (s t : Text) → s ≢ t → (s == t) ≡ false
==_ne s t h = ground (arith, ==_iff s t)

pub append_cancel_left : (p s t : Text) → p ++ s ≡ p ++ t → s ≡ t
append_cancel_left [] s t h = h
append_cancel_left (c ∷ p) s t h = append_cancel_left p s t (ground arith)
