-- ===== src/Domain/Exceptions.antt =====
-- src/projects_api/domain/exceptions.py, with the other exceptions that reach a handler: boto3's
-- `ClientError`, `ValueError`, the `KeyError` of a missing attribute, and any other with its text.
use projects_api.Common.{◌≡◌, ◌⊎◌, inl, inr, refl, String, Text, lit, ◌++◌}
use projects_api.Dynamo.{ClientError}

pub data Error : Type 0 where
  project_name_taken : (name : Text) → Error
  project_not_found : (project_id : Text) → Error
  invalid_cursor : Error
  client_error : ClientError → Error
  value_error : (message : String) → Error
  key_error : (key : String) → Error
  exception : (message : Text) → Error

-- `str(exc)`
unfoldable pub str : Error → Text
unfolding lit
str (project_name_taken name) = lit "A project named '" ++ name ++ lit "' already exists."
str (project_not_found project_id) = lit "Project '" ++ project_id ++ lit "' was not found."
str invalid_cursor = lit "nextToken is invalid or expired."
str (client_error exc) = lit exc.message
str (value_error message) = lit message
str (key_error key) = lit "'" ++ lit key ++ lit "'"
str (exception message) = message

-- A computation that may raise.
pub data Result (A : Type 0) : Type 0 where
  ok : A → Result A
  raise : Error → Result A

infixl 5 ◌>>=◌
abbrev pub ◌>>=◌ : {A B : Type 0} → Result A → (A → Result B) → Result B
ok a >>= f = f a
raise e >>= f = raise e

-- To split on a result and keep the equation.
pub Result-cases :
    {A : Type 0} (x : Result A) → ((a : A) × (x ≡ ok a)) ⊎ ((e : Error) × (x ≡ raise e))
Result-cases (ok a) = inl (a, refl)
Result-cases (raise e) = inr (e, refl)

-- What a chain that returns has returned on the way.
pub bound :
    {A B : Type 0} (x : Result A) (f : A → Result B) (b : B)
    → x >>= f ≡ ok b
    → (a : A) × (x ≡ ok a) × (f a ≡ ok b)
bound (ok a) f b h = (a, refl, h)
bound (raise e) f b h = cc
