-- ===== src/Domain/Validation/Names.antt =====
-- `validate_name` and `name_key`.
use projects_api.Common.{
  ℕ, Text, ◌≤◌, ◌≡◌, refl, sym, ap, ◌∙◌, ◌↔◌, true, [], ◌∷◌, map, length, all, arith,
}
use projects_api.Domain.Exceptions.{ok}
use projects_api.Domain.Validation.{
  is_name_char, normalise_name, validate_name, Unicode, lower, lower_ascii, is_ascii, name_key,
}
use projects_api.Domain.Validation.Normal.{normalise_name-normalise_name}
use projects_api.Domain.Validation.Pattern.{HasNameShape, name_pattern_iff}

-- A valid display name: 3 to 63 characters of the shape that the pattern asks for.
pub record IsName (name : Text) : Type 0 where
  pub long_enough : 3 ≤ length name
  pub short_enough : length name ≤ 63
  pub shape : HasNameShape name

-- `validate_name` returns a name exactly when it is the normalised text and has the shape and the
-- length of a name.
pub validate_name_iff :
    (raw name : Text) → (validate_name raw ≡ ok name) ↔ ((name ≡ normalise_name raw) × IsName name)
unfolding validate_name
validate_name_iff raw name = (
  λ h. (
    ground arith,
    record {
      long_enough = ground arith;
      short_enough = ground arith;
      shape = (name_pattern_iff name).0 (ground arith);
    },
  ),
  λ h. ground (arith, (name_pattern_iff name).1 h.1.shape, h.1.long_enough, h.1.short_enough),
)

-- A validated name is accepted again, unchanged.
pub validate_name-validate_name :
    (raw name : Text) → validate_name raw ≡ ok name → validate_name name ≡ ok name
validate_name-validate_name raw name h =
    let (e, n) = (validate_name_iff raw name).0 h in
    (validate_name_iff name name).1 (rw e (sym (normalise_name-normalise_name raw)), n)

name_char_ascii : (c : ℕ) → is_name_char c ≡ true → is_ascii c ≡ true
unfolding is_name_char
name_char_ascii c h = ground arith

name_ascii : (s : Text) → all is_name_char s ≡ true → all is_ascii s ≡ true
name_ascii [] h = refl
name_ascii (c ∷ s) h = ground (arith, name_char_ascii c, name_ascii s)

module _ (u : Unicode) where
  -- The key of a validated name is the name in lower case, and it is the key of the text that was
  -- validated.
  pub name_key-validate_name :
      (raw name : Text)
      → validate_name raw ≡ ok name
      → (name_key u name ≡ map lower_ascii name) × (name_key u raw ≡ name_key u name)
  unfolding name_key
  name_key-validate_name raw name h =
      let (e, n) = (validate_name_iff raw name).0 h in
      let same : normalise_name name ≡ name = rw e (normalise_name-normalise_name raw) in
      (rw same (rw (name_ascii name n.shape.characters)), ap (lower u) (sym e ∙ sym same))

  -- Two validated names have one key exactly when they differ at most in the case of letters.
  pub name_key-eq_iff :
      (a b m n : Text)
      → validate_name a ≡ ok m
      → validate_name b ≡ ok n
      → (name_key u m ≡ name_key u n) ↔ (map lower_ascii m ≡ map lower_ascii n)
  name_key-eq_iff a b m n h k =
      let (p, _) = name_key-validate_name a m h in
      let (q, _) = name_key-validate_name b n k in (λ e. sym p ∙ e ∙ q, λ e. p ∙ e ∙ sym q)
