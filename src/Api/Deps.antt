-- ===== src/Api/Deps.antt =====
-- src/projects_api/api/deps.py and src/projects_api/config.py: the caller's identity.
use projects_api.Common.{Text, ◌≡◌, ◌↔◌, Bool, true, false, Option, none, some}
use projects_api.Api.Context.{Scope, truthy, event_key_id, owner_id}

pub data Env : Type 0 where
  local dev prod : Env

-- `Settings.is_local`
abbrev pub is_local : Env → Bool
is_local local = true
is_local _ = false

pub data Identified : Type 0 where
  caller : Text → Identified
  unauthorized : Identified

-- The fallback of `current_user` without a gateway.
abbrev pub local_caller : Bool → Option Text → Identified
local_caller false header = unauthorized
local_caller true none = unauthorized
local_caller true (some h) = caller h

abbrev pub gateway_caller : Option Text → Identified → Identified
gateway_caller none otherwise = otherwise
gateway_caller (some key) otherwise = caller key

-- `current_user`; `unauthorized` is its `HTTPException` with status 401. An event that is empty has
-- no `requestContext`.
unfoldable pub current_user : Env → Scope → (header : Option Text) → Identified
current_user env scope header =
    gateway_caller (truthy (event_key_id scope.event)) (local_caller (is_local env) (truthy header))

gateway_only :
    (o : Option Text) (b : Bool) (header : Option Text) (key : Text)
    → b ≡ false
    → (gateway_caller o (local_caller b header) ≡ caller key) ↔ (o ≡ some key)
gateway_only (some k) b header key h = (λ e. cc (e), λ e. cc (e))
gateway_only none false header key h = (λ e. cc (e), λ e. cc (e))
gateway_only none true header key h = cc (h)

-- Outside the local environment the header has no say: the caller is the key of the gateway's
-- event, which is the owner that the log names, or there is none.
pub current_user-owner_id :
    (env : Env) (scope : Scope) (header : Option Text) (key : Text)
    → is_local env ≡ false
    → (current_user env scope header ≡ caller key) ↔ (owner_id scope ≡ some key)
unfolding current_user owner_id
current_user-owner_id env scope header key h =
    gateway_only (truthy (event_key_id scope.event)) (is_local env) (truthy header) key h
