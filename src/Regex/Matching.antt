-- ===== src/Regex/Matching.antt =====
-- `fullmatch` decides the language of the expression.
use projects_api.Common.{
  ℕ, Text, ◌≡◌, refl, ap, ◌↔◌, ◌⊎◌, inl, inr, true, [], ◌∷◌, ◌++◌, arith, Bool-cases, and-eq-true,
}
use projects_api.Regex.{Regex, never, empty, class, seq, alt, star, nullable, derive, fullmatch}

-- Nonempty pieces in a row.
pub data Repeated (P : Text → Type 0) : Text → Type 0 where
  stop : {t : Text} → t ≡ [] → Repeated P t
  more :
      {t : Text} (c : ℕ) (u v : Text) → t ≡ c ∷ (u ++ v) → P (c ∷ u) → Repeated P v → Repeated P t

-- The texts that an expression stands for.
abbrev pub Matches : Regex → Text → Type 0
Matches never t = ⊥
Matches empty t = t ≡ []
Matches (class p) t = (c : ℕ) × (p c ≡ true) × (t ≡ c ∷ [])
Matches (seq r s) t = (u : Text) × (v : Text) × (t ≡ u ++ v) × Matches r u × Matches s v
Matches (alt r s) t = Matches r t ⊎ Matches s t
Matches (star r) t = Repeated (Matches r) t

nullable_sound : (r : Regex) → nullable r ≡ true → Matches r []
unfolding nullable
nullable_sound never h = cc
nullable_sound empty h = refl
nullable_sound (class p) h = cc
nullable_sound (seq r s) h =
    let (hr, hs) = and-eq-true (nullable r) (nullable s) h in
    ([], [], refl, nullable_sound r hr, nullable_sound s hs)
nullable_sound (alt r s) h = elim (Bool-cases (nullable r)) [
  | inl e ↦ inl (nullable_sound r e)
  | inr e ↦ inr (nullable_sound s (ground arith))
]
nullable_sound (star r) h = stop refl

nullable_complete : (r : Regex) (t : Text) → t ≡ [] → Matches r t → nullable r ≡ true
unfolding nullable
nullable_complete never t e m = absurd m
nullable_complete empty t e m = refl
nullable_complete (class p) t e (c, _, f) = ground arith
nullable_complete (seq r s) t e ([], [], f, m, n) =
    ground (arith, nullable_complete r [] refl m, nullable_complete s [] refl n)
nullable_complete (seq r s) t e ([], d ∷ v, f, m, n) = ground arith
nullable_complete (seq r s) t e (d ∷ u, v, f, m, n) = ground arith
nullable_complete (alt r s) t e (inl m) = ground (arith, nullable_complete r t e m)
nullable_complete (alt r s) t e (inr m) = ground (arith, nullable_complete s t e m)
nullable_complete (star r) t e m = refl

derive_sound : (r : Regex) (c : ℕ) (t : Text) → Matches (derive c r) t → Matches r (c ∷ t)
unfolding derive
derive_sound never c t m = absurd m
derive_sound empty c t m = absurd m
derive_sound (class p) c t m = elim (Bool-cases (p c)) [
  | inl e ↦ (c, e, ap (◌∷◌ c) (rw e at m))
  | inr e ↦ absurd (rw e at m)
]
derive_sound (seq r s) c t m = elim (Bool-cases (nullable r)) [
  | inl e ↦ elim (rw e at m) [
    | inl (u, v, f, a, b) ↦ (c ∷ u, v, ap (◌∷◌ c) f, derive_sound r c u a, b)
    | inr a ↦ ([], c ∷ t, refl, nullable_sound r e, derive_sound s c t a)
  ]
  | inr e ↦ let (u, v, f, a, b) = rw e at m in (c ∷ u, v, ap (◌∷◌ c) f, derive_sound r c u a, b)
]
derive_sound (alt r s) c t (inl m) = inl (derive_sound r c t m)
derive_sound (alt r s) c t (inr m) = inr (derive_sound s c t m)
derive_sound (star r) c t (u, v, f, a, b) = more c u v (ap (◌∷◌ c) f) (derive_sound r c u a) b

head_eq : {c d : ℕ} {s t : Text} → c ∷ s ≡ d ∷ t → c ≡ d
head_eq e = ground arith

tail_eq : {c d : ℕ} {s t : Text} → c ∷ s ≡ d ∷ t → s ≡ t
tail_eq e = ground arith

derive_complete : (r : Regex) (c : ℕ) (t : Text) → Matches r (c ∷ t) → Matches (derive c r) t
unfolding derive
derive_complete never c t m = absurd m
derive_complete empty c t m = absurd (ground arith)
derive_complete (class p) c t (d, h, f) = rw (head_eq f, h) (tail_eq f)
derive_complete (seq r s) c t ([], v, f, m, n) =
    rw (nullable_complete r [] refl m) (inr (derive_complete s c t (rw (← f) at n)))
derive_complete (seq r s) c t (d ∷ u, v, f, m, n) =
    let piece = derive_complete r c u (rw (← head_eq f) at m) in
    elim (Bool-cases (nullable r)) [
      | inl e ↦ rw e (inl (u, v, tail_eq f, piece, n))
      | inr e ↦ rw e (u, v, tail_eq f, piece, n)
    ]
derive_complete (alt r s) c t (inl m) = inl (derive_complete r c t m)
derive_complete (alt r s) c t (inr m) = inr (derive_complete s c t m)
derive_complete (star r) c t (stop f) = absurd (ground arith)
derive_complete (star r) c t (more d u v f m n) =
    (u, v, tail_eq f, derive_complete r c u (rw (← head_eq f) at m), n)

-- `fullmatch` accepts exactly the texts of the expression's language.
pub fullmatch-Matches : (r : Regex) (t : Text) → (fullmatch r t ≡ true) ↔ Matches r t
unfolding fullmatch
fullmatch-Matches r [] = (nullable_sound r, nullable_complete r [] refl)
fullmatch-Matches r (c ∷ t) = (
  λ h. derive_sound r c t ((fullmatch-Matches (derive c r) t).0 h),
  λ m. (fullmatch-Matches (derive c r) t).1 (derive_complete r c t m),
)
