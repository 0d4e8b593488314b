-- ===== src/Api/Errors.antt =====
-- src/projects_api/api/errors.py: the problem responses.
pub mod Responses
use projects_api.Common.{
  ℕ, zero, suc, ◌+◌, ◌/◌, ◌%◌, String, Text, lit, ◌==◌, Bool, true, false, not, Option, none, some,
  List, [], ◌∷◌, ◌++◌, map, ltb, nat_eq, if◌then◌else◌,
}
use projects_api.Domain.Exceptions.{
  Error, project_name_taken, project_not_found, invalid_cursor, str,
}
use projects_api.World as Worlds
use projects_api.World.{World, exception, LogEntry}

-- One failing field: its dotted path and its message.
pub record FieldError : Type 0 where
  pub field : Text
  pub message : Text

-- The body of a problem, and the response around it. `errors` stands only in a validation problem.
pub record Problem : Type 0 where
  pub type : Text
  pub title : String
  pub status : ℕ
  pub detail : Text
  pub instance_path : Text
  pub request_id : Text
  pub errors : Option (List FieldError)

pub record Response : Type 0 where
  pub body : Problem
  pub status_code : ℕ
  pub media_type : String
  pub request_id_header : Text

-- The exceptions that have a handler: `RequestValidationError` with the `loc` and `msg` of each of
-- its errors, Starlette's `HTTPException`, and the program's own and all others.
pub data Failure : Type 0 where
  request_validation : List (List Text × Text) → Failure
  http_exception : (status_code : ℕ) → (detail : Text) → Failure
  raised : Error → Failure

-- `problem`, for a request of this path and with this correlation id
unfoldable pub problem :
    (path : Text) → (rid : Text) → ℕ → String → Text → Text → Option (List FieldError) → Response
unfolding lit
problem path rid status_code title detail problem_type extra = record {
  body = record {
    type = lit "https://projects-api.example/problems/" ++ problem_type;
    title = title;
    status = status_code;
    detail = detail;
    instance_path = path;
    request_id = rid;
    errors = extra;
  };
  status_code = status_code;
  media_type = "application/problem+json";
  request_id_header = rid;
}

-- `str(p) for p in loc if p != "body"`, joined by dots
unfoldable pub without_body : List Text → List Text
unfolding lit ◌==◌
without_body [] = []
without_body (p ∷ loc) = let rest = without_body loc in if p == lit "body" then rest else p ∷ rest

unfoldable pub join_dots : List Text → Text
join_dots [] = []
join_dots (p ∷ []) = p
join_dots (p ∷ q ∷ loc) = p ++ (b'.' ∷ join_dots (q ∷ loc))

abbrev pub field_error : List Text × Text → FieldError
field_error (loc, msg) = record { field = join_dots (without_body loc); message = msg }

-- The decimal digits of a status code.
unfoldable pub decimal : ℕ → ℕ → Text
decimal zero n = []
decimal (suc fuel) n =
    let rest = decimal fuel (n / 10) in
    if ltb n 10 then (b'0' + n) ∷ [] else rest ++ (b'0' + n % 10) ∷ []

-- `_TITLES.get(status, "Error")`
unfoldable pub http_title : ℕ → String
http_title n =
    if nat_eq n 400
    then "Bad request"
    else if nat_eq n 401
    then "Unauthorized"
    else if nat_eq n 403
    then "Forbidden"
    else if nat_eq n 404
    then "Not found"
    else if nat_eq n 405
    then "Method not allowed"
    else if nat_eq n 409
    then "Conflict"
    else if nat_eq n 413
    then "Payload too large"
    else if nat_eq n 415
    then "Unsupported media type"
    else if nat_eq n 429
    then "Too many requests"
    else "Error"

-- The handlers that `register_error_handlers` registers, in the order of the source; the last is
-- that of `Exception`.
unfoldable pub respond : Text → Text → Failure → Response
unfolding problem without_body join_dots decimal http_title lit
respond path rid (request_validation errors) =
    problem path rid 400 "Invalid request" (lit "One or more fields failed validation.")
      (lit "validation") (some (map field_error errors))
respond path rid (raised invalid_cursor) =
    problem path rid 400 "Invalid request" (str invalid_cursor) (lit "invalid-cursor") none
respond path rid (raised (project_name_taken name)) =
    problem path rid 409 "Project name already exists" (str (project_name_taken name))
      (lit "project-name-taken") none
respond path rid (raised (project_not_found id)) =
    problem path rid 404 "Project not found" (str (project_not_found id)) (lit "project-not-found")
      none
respond path rid (http_exception code detail) =
    problem path rid code (http_title code) detail (lit "http-" ++ decimal (suc code) code) none
respond path rid (raised _) =
    problem path rid 500 "Internal server error"
      (lit "An unexpected error occurred. Quote the requestId when reporting it.") (lit "internal")
      none

-- What a handler adds to the metrics and to the log.
unfoldable pub record_failure : {Db : Type 0} → Failure → World Db → World Db
record_failure (raised invalid_cursor) w = w
record_failure (raised (project_name_taken _)) w = record w {
  metrics = w.metrics ++ "ProjectNameConflicts" ∷ [];
}
record_failure (raised (project_not_found _)) w = w
record_failure (raised _) w = record w {
  log = w.log ++ record { level = exception; message = "Unhandled error"; fields = [] } ∷ [];
}
record_failure _ w = w
