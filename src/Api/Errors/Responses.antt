-- ===== src/Api/Errors/Responses.antt =====
-- Every problem response fits the schema that `Problem` documents.
use projects_api.Common.{ℕ, String, Text, ◌≡◌, ◌≤◌, refl, none, some, List, arith}
use projects_api.Domain.Exceptions.{project_name_taken, project_not_found, invalid_cursor}
use projects_api.Api.Errors.{
  Response, Failure, request_validation, http_exception, raised, FieldError, problem, respond,
}

-- A status that an error response can have. Starlette raises `HTTPException` with such a code.
abbrev pub IsErrorStatus : ℕ → Type 0
IsErrorStatus n = (400 ≤ n) × (n ≤ 599)

abbrev pub HasErrorStatus : Failure → Type 0
HasErrorStatus (http_exception code _) = IsErrorStatus code
HasErrorStatus _ = Unit

pub record FitsSchema (path rid : Text) (r : Response) : Type 0 where
  pub status : IsErrorStatus r.body.status
  pub repeated : r.status_code ≡ r.body.status
  pub path_of : r.body.instance_path ≡ path
  pub id_in_body : r.body.request_id ≡ rid
  pub id_in_header : r.request_id_header ≡ rid
  pub problem_json : r.media_type ≡ "application/problem+json"
  -- `errors` stands only in a 400.
  pub errors_only : (es : List FieldError) → r.body.errors ≡ some es → r.body.status ≡ 400

module _ (path rid : Text) where
  plain_fits :
      (n : ℕ) (title : String) (detail type : Text)
      → IsErrorStatus n
      → FitsSchema path rid (problem path rid n title detail type none)
  unfolding problem
  plain_fits n title detail type h = record {
    status = h;
    repeated = refl;
    path_of = refl;
    id_in_body = refl;
    id_in_header = refl;
    problem_json = refl;
    errors_only = λ es e. cc (e);
  }

  validation_fits :
      (title : String) (detail type : Text) (es : List FieldError)
      → FitsSchema path rid (problem path rid 400 title detail type (some es))
  unfolding problem
  validation_fits title detail type es = record {
    status = omega arith;
    repeated = refl;
    path_of = refl;
    id_in_body = refl;
    id_in_header = refl;
    problem_json = refl;
    errors_only = λ fs e. refl;
  }

-- Whatever fails, an HTTP exception having an error status, the response is a problem with a status
-- from 400 to 599, which the body repeats; it names the path, has the correlation id in body and
-- header alike, and lists field errors only with status 400.
pub respond-FitsSchema :
    (path rid : Text) (f : Failure) → HasErrorStatus f → FitsSchema path rid (respond path rid f)
unfolding respond
respond-FitsSchema path rid (request_validation errors) h = validation_fits path rid _ _ _ _
respond-FitsSchema path rid (http_exception code detail) h = plain_fits path rid code _ _ _ h
respond-FitsSchema path rid (raised invalid_cursor) h = plain_fits path rid 400 _ _ _ (omega arith)
respond-FitsSchema path rid (raised (project_name_taken n)) h =
    plain_fits path rid 409 _ _ _ (omega arith)
respond-FitsSchema path rid (raised (project_not_found id)) h =
    plain_fits path rid 404 _ _ _ (omega arith)
respond-FitsSchema path rid (raised _) h = plain_fits path rid 500 _ _ _ (omega arith)
