-- ===== src/Tests/Middleware.antt =====
-- The middleware around an application that answers, and around one that raises.
use projects_api.Common.{
  ℕ, Text, lit, ◌==◌, ==_refl, ◌≡◌, refl, true, Option, none, some, [], ◌∷◌, ◌++◌, List, Bool-cases,
  inl, inr, if◌then◌else◌,
}
use projects_api.Domain.Exceptions.{exception, ok, raise}
use projects_api.Api.Context.{request_id}
use projects_api.Api.Context.Middleware.{
  Starlette, SetsDefault, start, body, Run, Request, completed, call,
}
use projects_api.Api.Context.Middleware.Messages.{
  AllStamped, LastStatus, call-AllStamped, call-completed,
}
use projects_api.Tests.Data.{unicode}

abbrev value_of : List (Text × Text) → Text → Option Text
value_of [] key = none
value_of ((name, value) ∷ headers) key = if name == key then some value else value_of headers key

abbrev with_default : Option Text → List (Text × Text) → Text → Text → List (Text × Text)
with_default none h key value = h ++ (key, value) ∷ []
with_default (some _) h key value = h

-- Headers as lists of names and values.
abbrev lists : Starlette
lists = record {
  Headers = List (Text × Text);
  raw = λ h. h;
  get = value_of;
  setdefault = λ h key value. with_default (value_of h key) h key value;
}

value_of-append :
    (h : List (Text × Text)) (key value : Text)
    → value_of h key ≡ none
    → value_of (h ++ (key, value) ∷ []) key ≡ some value
value_of-append [] key value e = rw (==_refl key) refl
value_of-append ((name, v) ∷ h) key value e = elim (Bool-cases (name == key)) [
  | inl s ↦ cc (rw s at e)
  | inr s ↦ rw s (value_of-append h key value (rw s at e))
]

lists-SetsDefault : SetsDefault lists
lists-SetsDefault = record {
  sets = λ h key value e. (rw e (value_of-append h key value e), (key, rw e refl));
  leaves = λ h key value old e. rw e refl;
}

abbrev request : Request
request = record {
  is_http = true;
  scope = record { event = none; aws_request_id = some (lit "lambda-1") };
  header = none;
  fresh = lit "uuid-1";
  state = none;
  method = lit "GET";
  path = lit "/health";
  route = none;
}

abbrev answers : Option Text → Run lists.Headers
answers state = record {
  sent = start 200 ((lit "content-type", lit "text/plain") ∷ []) ∷ body (lit "ok") ∷ [];
  log = [];
  outcome = ok tt;
}

abbrev raises : Option Text → Run lists.Headers
raises state = record { sent = []; log = []; outcome = raise (exception (lit "no")) }

abbrev identified : Text × Option Text
identified = request_id unicode request.scope request.header request.fresh request.state

call-AllStamped_example :
    AllStamped lists identified.0
      (answers identified.1).sent
      (call lists unicode answers request).sent
call-AllStamped_example = call-AllStamped lists unicode answers request lists-SetsDefault refl

call-completed_example :
    ((call lists unicode raises request).outcome ≡ raise (exception (lit "no")))
    × ((status : ℕ) × LastStatus lists 500 [] status
        × ((call lists unicode raises request).log ≡ completed request identified.0 status ∷ []))
call-completed_example = call-completed lists unicode raises request refl
