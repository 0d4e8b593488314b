-- ===== src/World.antt =====
-- What the code changes, and its exceptions: the database behind the client, the metrics and the
-- log (src/projects_api/observability.py has the two singletons).
use projects_api.Common.{ℕ, Bool, String, Text, List, [], ◌∷◌, ◌++◌}
use projects_api.Dynamo.{ClientError, Reply, done, failed}
use projects_api.Domain.Exceptions.{Error, client_error, Result, ok, raise}

pub data Level : Type 0 where
  debug info warning error exception : Level

-- The value of a keyword of a log call: `None`, a `str`, an `int`, a `dict` of texts, a `bool`, or
-- another value.
pub data LogValue : Type 0 where
  nothing other : LogValue
  str : Text → LogValue
  number : ℕ → LogValue
  flag : Bool → LogValue
  dict : List (Text × Text) → LogValue

-- One call of the logger: its level, its message and its keywords.
pub record LogEntry : Type 0 where
  pub level : Level
  pub message : String
  pub fields : List (String × LogValue)

-- `metrics` has the name of each metric that was added; all have the unit Count and the value 1.
pub record World (Db : Type 0) : Type 0 where
  pub db : Db
  pub metrics : List String
  pub log : List LogEntry

-- A computation that changes a state and may raise.
abbrev pub Stateful : Type 0 → Type 0 → Type 0
Stateful S A = S → Result A × S

abbrev pub Exec : Type 0 → Type 0 → Type 0
Exec Db A = Stateful (World Db) A

-- The result of a call of the client: an error response is raised as a `ClientError`.
abbrev pub answer : {A : Type 0} → Reply A → Result A
answer (done a) = ok a
answer (failed exc) = raise (client_error exc)

module _ {S : Type 0} where
  abbrev pub pure : {A : Type 0} → A → Stateful S A
  pure a w = (ok a, w)

  abbrev pub throw : {A : Type 0} → Error → Stateful S A
  throw e w = (raise e, w)

  abbrev pub lift : {A : Type 0} → Result A → Stateful S A
  lift r w = (r, w)

  abbrev pub continue : {A B : Type 0} → Result A → (A → Stateful S B) → Stateful S B
  continue (ok a) f = f a
  continue (raise e) f = throw e

  infixl 5 ◌>>=◌ ◌>>◌
  unfoldable pub ◌>>=◌ : {A B : Type 0} → Stateful S A → (A → Stateful S B) → Stateful S B
  ◌>>=◌ m f w = continue (m w).0 f (m w).1

  abbrev pub ◌>>◌ : {A B : Type 0} → Stateful S A → Stateful S B → Stateful S B
  m >> k = m >>= λ _. k

module _ {Db : Type 0} where
  -- A call of the client.
  abbrev pub send : {A : Type 0} → (Db → Reply A × Db) → Exec Db A
  send call w = (answer (call w.db).0, record w { db = (call w.db).1 })

  abbrev pub handle : {A : Type 0} → Result A → (ClientError → Exec Db A) → Exec Db A
  handle (raise (client_error exc)) handler = handler exc
  handle r handler = lift r

  -- `try: m` with `except ClientError as exc: handler`
  abbrev pub catch_client : {A : Type 0} → Exec Db A → (ClientError → Exec Db A) → Exec Db A
  catch_client m handler w = handle (m w).0 handler (m w).1

  abbrev pub add_metric : String → Exec Db Unit
  add_metric name w = (ok tt, record w { metrics = w.metrics ++ name ∷ [] })

  abbrev pub log : Level → String → List (String × LogValue) → Exec Db Unit
  log level message fields w = (
    ok tt,
    record w { log = w.log ++ record { level = level; message = message; fields = fields } ∷ [] },
  )
