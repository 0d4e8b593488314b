-- ===== src/Tests/Names.antt =====
-- Names, ids and the regular expressions.
use projects_api.Common.{lit, ◌≡◌, ◌↔◌, refl, true, false, map}
use projects_api.Domain.Exceptions.{ok, raise, value_error}
use projects_api.Domain.Validation.{normalise_name, validate_name, lower_ascii, name_key}
use projects_api.Domain.Validation.Names.{IsName, validate_name_iff, name_key-eq_iff}
use projects_api.Domain.Models.{isoformat, is_valid_project_id}
use projects_api.Tests.Data.{unicode, noon}

accepted : validate_name (lit "  My \t first   App ") ≡ ok (lit "My first App")
unfolding validate_name lit
accepted = refl

accepted_upper : validate_name (lit "MY FIRST APP") ≡ ok (lit "MY FIRST APP")
unfolding validate_name lit
accepted_upper = refl

refused :
    (validate_name (lit "  a ") ≡ raise (value_error "Project name must be at least 3 characters."))
    × (validate_name (lit "a.b")
        ≡ raise (
            value_error
              "Project name may only contain letters, digits, spaces, hyphens and underscores, and must start and end with a letter or digit."))
unfolding validate_name lit
refused = (refl, refl)

stamp : isoformat noon ≡ lit "2026-01-15T12:30:00+00:00"
unfolding isoformat lit
stamp = refl

ids :
    (is_valid_project_id (lit "prj_9f1c2b3a4d5e6f708192a3b4c5d6e7f8") ≡ true)
    × (is_valid_project_id (lit "prj_9F1c2b3a4d5e6f708192a3b4c5d6e7f8") ≡ false)
    × (is_valid_project_id (lit "prj_") ≡ false)
unfolding is_valid_project_id lit
ids = (refl, refl, refl)

validate_name_iff_example :
    (validate_name (lit " a  b ") ≡ ok (lit "a b"))
    ↔ ((lit "a b" ≡ normalise_name (lit " a  b ")) × IsName (lit "a b"))
validate_name_iff_example = validate_name_iff (lit " a  b ") (lit "a b")

name_key-eq_iff_example :
    (name_key unicode (lit "My first App") ≡ name_key unicode (lit "MY FIRST APP"))
    ↔ (map lower_ascii (lit "My first App") ≡ map lower_ascii (lit "MY FIRST APP"))
name_key-eq_iff_example =
    name_key-eq_iff unicode (lit "  My \t first   App ") (lit "MY FIRST APP") (lit "My first App")
      (lit "MY FIRST APP") accepted accepted_upper
