-- ===== src/Domain/Models/Ids.antt =====
-- The ids that `Project.new` makes are the ids that `is_valid_project_id` accepts.
use projects_api.Common.{
  ℕ, zero, suc, Text, ◌≡◌, refl, ap, ◌↔◌, ◌∙◌, Bool, true, some, [], ◌∷◌, ◌++◌, length, all,
  nat_eq_iff, arith, and-eq-true,
}
use projects_api.Regex.{class, repeat, literal}
use projects_api.Regex.Matching.{Matches, fullmatch-Matches}
use projects_api.Domain.Models.{
  ProjectType, agent, mcp, web, ProjectStatus, created, provisioning, ready, failed, type_value,
  type_of_value, status_value, status_of_value, Datetime, project_id_prefix, is_hex,
  project_id_pattern, is_valid_project_id, new_project,
}

pub type_of_value-type_value : (t : ProjectType) → type_of_value (type_value t) ≡ some t
unfolding type_of_value type_value
type_of_value-type_value agent = refl
type_of_value-type_value mcp = refl
type_of_value-type_value web = refl

pub status_of_value-status_value : (s : ProjectStatus) → status_of_value (status_value s) ≡ some s
unfolding status_of_value status_value
status_of_value-status_value created = refl
status_of_value-status_value provisioning = refl
status_of_value-status_value ready = refl
status_of_value-status_value failed = refl

literal_iff : (s t : Text) → Matches (literal s) t ↔ (t ≡ s)
literal_iff [] t = (λ e. e, λ e. e)
literal_iff (c ∷ s) t = (
  λ m. let (u, v, e, (d, h, f), n) = m in ground (arith, (literal_iff s v).0 n, nat_eq_iff c d),
  λ e. (c ∷ [], s, e, (c, (nat_eq_iff c c).1 refl, refl), (literal_iff s s).1 refl),
)

repeat_sound :
    (n : ℕ) (p : ℕ → Bool) (t : Text)
    → Matches (repeat n (class p)) t
    → (length t ≡ n) × (all p t ≡ true)
repeat_sound zero p t e = rw e (refl, refl)
repeat_sound (suc n) p t (u, v, e, (c, h, f), m) =
    let (k, l) = repeat_sound n p v m in rw (e, f) (ap suc k, ground arith)

repeat_complete :
    (n : ℕ) (p : ℕ → Bool) (t : Text)
    → length t ≡ n
    → all p t ≡ true
    → Matches (repeat n (class p)) t
repeat_complete zero p [] k l = refl
repeat_complete zero p (c ∷ t) k l = absurd (omega arith)
repeat_complete (suc n) p [] k l = absurd (omega arith)
repeat_complete (suc n) p (c ∷ t) k l =
    let (here, rest) = and-eq-true (p c) (all p t) l in
    (c ∷ [], t, refl, (c, here, refl), repeat_complete n p t (omega arith) rest)

id_sound :
    (value : Text)
    → Matches project_id_pattern value
    → (hex : Text) × (value ≡ project_id_prefix ++ hex)
      × (length hex ≡ 32)
      × (all is_hex hex ≡ true)
unfolding project_id_pattern
id_sound value (u, v, e, m, n) =
    let (k, l) = repeat_sound 32 is_hex v n in
    (v, e ∙ ap (λ t. t ++ v) ((literal_iff project_id_prefix u).0 m), k, l)

id_complete :
    (value : Text)
    → ((hex : Text) × (value ≡ project_id_prefix ++ hex)
        × (length hex ≡ 32)
        × (all is_hex hex ≡ true))
    → Matches project_id_pattern value
unfolding project_id_pattern
id_complete value (hex, e, k, l) = (
  project_id_prefix,
  hex,
  e,
  (literal_iff project_id_prefix project_id_prefix).1 refl,
  repeat_complete 32 is_hex hex k l,
)

-- Exactly the prefix with 32 lower-case hexadecimal digits behind it is a valid id.
pub is_valid_project_id_iff :
    (value : Text)
    → (is_valid_project_id value ≡ true) ↔ (
        (hex : Text) × (value ≡ project_id_prefix ++ hex)
        × (length hex ≡ 32)
        × (all is_hex hex ≡ true))
unfolding is_valid_project_id
is_valid_project_id_iff value = (
  λ h. id_sound value ((fullmatch-Matches project_id_pattern value).0 h),
  λ h. (fullmatch-Matches project_id_pattern value).1 (id_complete value h),
)

-- An id made from 32 lower-case hexadecimal digits, as `uuid4().hex` has them, is valid.
pub new_project-IsValid :
    (name : Text) (type_ : ProjectType) (owner_id : Text) (now : Datetime) (hex : Text)
    → length hex ≡ 32
    → all is_hex hex ≡ true
    → is_valid_project_id (new_project name type_ owner_id now hex).project_id ≡ true
unfolding new_project
new_project-IsValid name type_ owner_id now hex n h =
    (is_valid_project_id_iff (project_id_prefix ++ hex)).1 (hex, refl, n, h)
