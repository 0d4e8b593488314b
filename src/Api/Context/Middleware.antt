-- ===== src/Api/Context/Middleware.antt =====
-- src/projects_api/api/context.py: RequestContextMiddleware.
pub mod Messages
use projects_api.Common.{
  ℕ, Text, lit, ◌≡◌, Bool, true, false, Option, none, some, List, [], ◌∷◌, ◌++◌,
}
use projects_api.Domain.Exceptions.{Result}
use projects_api.Domain.Validation.{Unicode}
use projects_api.World.{info, LogValue, nothing, other, str, number, LogEntry}
use projects_api.Api.Context.{Scope, request_id, owner_id}

-- The headers of a response, which are Starlette's: a parameter. `raw` is the list of names and
-- values that is sent.
pub record Starlette : Type 1 where
  pub Headers : Type 0
  pub raw : Headers → List (Text × Text)
  pub get : Headers → Text → Option Text
  pub setdefault : Headers → Text → Text → Headers

-- What the code relies on: `setdefault` adds a header that is missing behind the others, and changes
-- nothing where it is there. A name is sent as Starlette spells it.
pub record SetsDefault (S : Starlette) : Type 0 where
  pub sets :
      (h : S.Headers) (key value : Text)
      → S.get h key ≡ none
      → (S.get (S.setdefault h key value) key ≡ some value)
        × ((name : Text) × (S.raw (S.setdefault h key value) ≡ S.raw h ++ (name, value) ∷ []))
  pub leaves :
      (h : S.Headers) (key value old : Text) → S.get h key ≡ some old → S.setdefault h key value ≡ h

pub data Message (Headers : Type 0) : Type 0 where
  start : (status : ℕ) → Headers → Message Headers
  body : Text → Message Headers

-- What a call of an ASGI application does: the messages that it sends, its lines of log, and how it
-- ends.
pub record Run (Headers : Type 0) : Type 0 where
  pub sent : List (Message Headers)
  pub log : List LogEntry
  pub outcome : Result Unit

-- What the middleware reads of the scope beside the request's identity. `route` is the template of
-- the route that has matched, and `duration` is there only as a value of the log.
pub record Request : Type 0 where
  pub is_http : Bool
  pub scope : Scope
  pub header : Option Text
  pub fresh : Text
  pub state : Option Text
  pub method : Text
  pub path : Text
  pub route : Option Text

unfoldable pub request_id_header : Text
unfolding lit
request_id_header = lit "X-Request-Id"

abbrev pub route_or_path : Option Text → Text → Text
route_or_path none path = path
route_or_path (some []) path = path
route_or_path (some (c ∷ s)) path = c ∷ s

abbrev pub owner_value : Option Text → LogValue
owner_value none = nothing
owner_value (some key) = str key

-- The log line of the `finally` block.
unfoldable pub completed : Request → Text → ℕ → LogEntry
completed request rid status = record {
  level = info;
  message = "request completed";
  fields =
      ("route", str (route_or_path request.route request.path))
      ∷ ("method", str request.method)
      ∷ ("status", number status)
      ∷ ("owner_id", owner_value (owner_id request.scope))
      ∷ ("duration_ms", other)
      ∷ ("request_id", str rid)
      ∷ [];
}

module _ (S : Starlette) where
  -- `send_with_request_id`: the message that it sends, and `status` after it.
  unfoldable pub send_with_request_id : Text → ℕ → Message S.Headers → Message S.Headers × ℕ
  send_with_request_id rid status (start code headers) =
      (start code (S.setdefault headers request_id_header rid), code)
  send_with_request_id rid status (body chunk) = (body chunk, status)

  unfoldable pub send_all : Text → ℕ → List (Message S.Headers) → List (Message S.Headers) × ℕ
  unfolding send_with_request_id
  send_all rid status [] = ([], status)
  send_all rid status (m ∷ ms) =
      let (out, after) = send_with_request_id rid status m in
      let (rest, last) = send_all rid after ms in (out ∷ rest, last)

  abbrev pub finish : Request → Text → Run S.Headers → Run S.Headers
  finish request rid run =
      let (sent, status) = send_all rid 500 run.sent in
      record {
        sent = sent;
        log = run.log ++ completed request rid status ∷ [];
        outcome = run.outcome;
      }

  -- `__call__`. The application finds the id in `request.state`; without one, the request is none of
  -- HTTP.
  unfoldable pub call : Unicode → (app : Option Text → Run S.Headers) → Request → Run S.Headers
  unfolding send_all completed
  call u app request = elim request.is_http [
    | false ↦ app request.state
    | true ↦
        let (rid, state) = request_id u request.scope request.header request.fresh request.state in
        finish request rid (app state)
  ]
