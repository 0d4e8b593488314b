-- ===== src/Domain/Validation/Pattern.antt =====
-- What `NAME_PATTERN` accepts, without the regular expression.
use projects_api.Common.{
  ℕ, Text, ◌≡◌, refl, subst, ap, ◌∙◌, ◌↔◌, inl, inr, Bool, true, false, [], ◌∷◌, ◌++◌, all, arith,
  and-eq-true, all-append,
}
use projects_api.Regex.{fullmatch, class}
use projects_api.Regex.Matching.{Matches, Repeated, stop, more, fullmatch-Matches}
use projects_api.Domain.Validation.{is_alnum, is_name_char, name_pattern}

abbrev pub starts : (ℕ → Bool) → Text → Bool
starts p [] = false
starts p (c ∷ _) = p c

abbrev pub ends : (ℕ → Bool) → Text → Bool
ends p [] = false
ends p (c ∷ []) = p c
ends p (_ ∷ d ∷ s) = ends p (d ∷ s)

-- Only letters, digits, spaces, hyphens and underscores; a letter or digit at either end.
pub record HasNameShape (t : Text) : Type 0 where
  pub characters : all is_name_char t ≡ true
  pub first : starts is_alnum t ≡ true
  pub last : ends is_alnum t ≡ true

alnum_in_name : (c : ℕ) → is_alnum c ≡ true → is_name_char c ≡ true
unfolding is_name_char
alnum_in_name c h = ground arith

all_of_Repeated : (p : ℕ → Bool) (t : Text) → Repeated (Matches (class p)) t → all p t ≡ true
all_of_Repeated p t (stop e) = ground arith
all_of_Repeated p t (more c [] v e (d, h, f) m) = ground (arith, all_of_Repeated p v m)
all_of_Repeated p t (more c (_ ∷ _) v e (d, h, f) m) = ground arith

all-Repeated : (p : ℕ → Bool) (t : Text) → all p t ≡ true → Repeated (Matches (class p)) t
all-Repeated p [] h = stop refl
all-Repeated p (c ∷ t) h =
    more c [] t refl (c, (and-eq-true _ _ h).0, refl) (all-Repeated p t (and-eq-true _ _ h).1)

ends-append : (p : ℕ → Bool) (s : Text) (c : ℕ) → ends p (s ++ c ∷ []) ≡ p c
ends-append p [] c = refl
ends-append p (d ∷ []) c = refl
ends-append p (d ∷ e ∷ s) c = ends-append p (e ∷ s) c

-- The last character of a text that ends in `p`, and what stands before it.
split_last :
    (p : ℕ → Bool) (s : Text)
    → ends p s ≡ true
    → (u : Text) × (c : ℕ) × (s ≡ u ++ c ∷ []) × (p c ≡ true)
split_last p [] h = cc
split_last p (c ∷ []) h = ([], c, refl, h)
split_last p (d ∷ e ∷ s) h =
    let (u, c, f, k) = split_last p (e ∷ s) h in (d ∷ u, c, ap (◌∷◌ d) f, k)

all_left : (p : ℕ → Bool) (s t : Text) → all p (s ++ t) ≡ true → all p s ≡ true
all_left p [] t h = refl
all_left p (c ∷ s) t h = ground (arith, all_left p s t)

one_character : (c : ℕ) → is_alnum c ≡ true → HasNameShape (c ∷ [])
one_character c h = record { characters = ground (arith, alnum_in_name c h); first = h; last = h }

longer :
    (c d : ℕ) (w : Text)
    → is_alnum c ≡ true
    → is_alnum d ≡ true
    → all is_name_char w ≡ true
    → HasNameShape (c ∷ (w ++ d ∷ []))
longer c d w h k inner = record {
  characters = ground (
    arith,
    alnum_in_name c h,
    all-append is_name_char w (d ∷ []) inner (ground (arith, alnum_in_name d k)),
  );
  first = h;
  last = ends-append is_alnum (c ∷ w) d ∙ k;
}

sound : (t : Text) → Matches name_pattern t → HasNameShape t
unfolding name_pattern
sound t (u, v, e, (c, h, f), inl g) = rw (e, f, g) (one_character c h)
sound t (u, v, e, (c, h, f), inr (w, l, g, m, (d, k, i))) =
    rw (e, f, g, i) (longer c d w h k (all_of_Repeated is_name_char w m))

complete : (t : Text) → HasNameShape t → Matches name_pattern t
unfolding name_pattern
complete [] h = cc h.first
complete (c ∷ []) h = (c ∷ [], [], refl, (c, h.first, refl), inl refl)
complete (c ∷ d ∷ s) h =
    let (u, l, e, k) = split_last is_alnum (d ∷ s) h.last in
    let rest = (and-eq-true (is_name_char c) (all is_name_char (d ∷ s)) h.characters).1 in
    let inner = all_left is_name_char u (l ∷ []) (subst (λ t. all is_name_char t ≡ true) e rest) in
    (
      c ∷ [],
      d ∷ s,
      refl,
      (c, h.first, refl),
      inr (u, l ∷ [], e, all-Repeated is_name_char u inner, (l, k, refl)),
    )

-- `NAME_PATTERN` fully matches a text exactly when it has the shape of a name.
pub name_pattern_iff : (t : Text) → (fullmatch name_pattern t ≡ true) ↔ HasNameShape t
name_pattern_iff t = (
  λ h. sound t ((fullmatch-Matches name_pattern t).0 h),
  λ h. (fullmatch-Matches name_pattern t).1 (complete t h),
)
