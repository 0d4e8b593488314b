-- ===== src/Api/Context.antt =====
-- src/projects_api/api/context.py: the correlation id of a request.
pub mod Correlation
pub mod Middleware
use projects_api.Common.{
  ℕ, Text, Bool, true, false, ◌&&◌, ◌||◌, Option, none, some, List, [], ◌∷◌, length, all, ltb, leb,
  if◌then◌else◌,
}
use projects_api.Domain.Validation.{Unicode, strip}

-- What the code reads of API Gateway's event. `get(key, {})` makes an empty object of a missing one.
pub record Identity : Type 0 where
  pub api_key_id : Option Text

pub record RequestContext : Type 0 where
  pub request_id : Option Text
  pub identity : Option Identity

pub record Event : Type 0 where
  pub request_context : Option RequestContext

-- What the code reads of the ASGI scope: `aws.event`, and the `aws_request_id` of `aws.context`.
pub record Scope : Type 0 where
  pub event : Option Event
  pub aws_request_id : Option Text

-- A text that is there and is not empty.
abbrev pub truthy : Option Text → Option Text
truthy none = none
truthy (some []) = none
truthy (some (c ∷ s)) = some (c ∷ s)

abbrev pub context_request_id : Option RequestContext → Option Text
context_request_id none = none
context_request_id (some c) = c.request_id

abbrev pub event_request_id : Option Event → Option Text
event_request_id none = none
event_request_id (some e) = context_request_id e.request_context

abbrev pub identity_key_id : Option Identity → Option Text
identity_key_id none = none
identity_key_id (some i) = i.api_key_id

abbrev pub context_key_id : Option RequestContext → Option Text
context_key_id none = none
context_key_id (some c) = identity_key_id c.identity

abbrev pub event_key_id : Option Event → Option Text
event_key_id none = none
event_key_id (some e) = context_key_id e.request_context

abbrev pub max_client_request_id_length : ℕ
max_client_request_id_length = 128

-- `c.isprintable()`: exact for Latin-1, which is what a header is decoded from.
unfoldable pub is_printable : Unicode → ℕ → Bool
is_printable u c =
    if ltb c 256
    then leb 32 c && leb c 126 || leb 161 c && leb c 172 || leb 174 c
    else u.printable c

-- The header, if it is short and printable once it is stripped.
unfoldable pub client_id : Unicode → Option Text → Option Text
unfolding is_printable strip
client_id u header = elim (truthy header) [
  | none ↦ none
  | some h ↦
      let candidate = strip h in
      if ltb 0 (length candidate)
        && leb (length candidate) max_client_request_id_length
        && all (is_printable u) candidate
      then some candidate
      else none
]

abbrev pub or_else : Option Text → Text → Text
or_else none t = t
or_else (some s) t = s

-- `_resolve`; `fresh` is `str(uuid4())`.
unfoldable pub resolve : Unicode → Scope → (header : Option Text) → (fresh : Text) → Text
unfolding client_id
resolve u scope header fresh =
    or_else (truthy (event_request_id scope.event))
      (or_else (truthy scope.aws_request_id) (or_else (client_id u header) fresh))

-- `request_id`: the id, and `request.state.request_id` after the call.
unfoldable pub request_id : Unicode → Scope → Option Text → Text → Option Text → Text × Option Text
unfolding resolve
request_id u scope header fresh (some existing) = (existing, some existing)
request_id u scope header fresh none =
    let resolved = resolve u scope header fresh in (resolved, some resolved)

-- `_owner_id`
unfoldable pub owner_id : Scope → Option Text
owner_id scope = truthy (event_key_id scope.event)
