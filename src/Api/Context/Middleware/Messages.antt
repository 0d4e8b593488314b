-- ===== src/Api/Context/Middleware/Messages.antt =====
-- The messages that pass through the middleware, and its line of log.
use projects_api.Common.{
  ℕ, Text, ◌≡◌, ◌⊎◌, inl, inr, refl, true, Option, none, some, List, [], ◌∷◌, ◌++◌, Option-cases,
}
use projects_api.Domain.Validation.{Unicode}
use projects_api.Api.Context.{request_id}
use projects_api.Api.Context.Middleware.{
  Starlette, SetsDefault, Message, start, body, Run, Request, request_id_header, completed,
  send_all, call,
}

module _ (S : Starlette) where
  -- A message that came in, and the one that went out: the same, but that a response with no
  -- correlation id has got it, behind its other headers.
  abbrev pub Stamped : Text → Message S.Headers → Message S.Headers → Type 0
  Stamped rid (start code h) (start code' h') =
      (code ≡ code')
      × (((S.get h request_id_header ≡ none)
            × (S.get h' request_id_header ≡ some rid)
            × ((name : Text) × (S.raw h' ≡ S.raw h ++ (name, rid) ∷ [])))
          ⊎ ((old : Text) × (S.get h request_id_header ≡ some old) × (h' ≡ h)))
  Stamped rid (body a) (body b) = a ≡ b
  Stamped rid _ _ = ⊥

  abbrev pub AllStamped : Text → List (Message S.Headers) → List (Message S.Headers) → Type 0
  AllStamped rid [] [] = Unit
  AllStamped rid (m ∷ ms) (n ∷ ns) = Stamped rid m n × AllStamped rid ms ns
  AllStamped rid _ _ = ⊥

  -- The status of a response is that of the last start, `status` where there is none.
  pub data LastStatus : ℕ → List (Message S.Headers) → ℕ → Type 0 where
    no_message : {status : ℕ} → LastStatus status [] status
    later_start :
        {status code last : ℕ} {h : S.Headers} {ms : List (Message S.Headers)}
        → LastStatus code ms last
        → LastStatus status (start code h ∷ ms) last
    later_body :
        {chunk : Text} {status last : ℕ} {ms : List (Message S.Headers)}
        → LastStatus status ms last
        → LastStatus status (body chunk ∷ ms) last

  send_all-AllStamped :
      SetsDefault S
      → (rid : Text) (status : ℕ) (ms : List (Message S.Headers))
      → AllStamped rid ms (send_all S rid status ms).0
  unfolding send_all
  send_all-AllStamped d rid status [] = tt
  send_all-AllStamped d rid status (start code h ∷ ms) = (
    (
      refl,
      elim (Option-cases (S.get h request_id_header)) [
        | inl e ↦ let (got, added) = d.sets h request_id_header rid e in inl (e, got, added)
        | inr (old, e) ↦ inr (old, e, d.leaves h request_id_header rid old e)
      ],
    ),
    send_all-AllStamped d rid code ms,
  )
  send_all-AllStamped d rid status (body chunk ∷ ms) = (refl, send_all-AllStamped d rid status ms)

  send_all-LastStatus :
      (rid : Text) (status : ℕ) (ms : List (Message S.Headers))
      → LastStatus status ms (send_all S rid status ms).1
  unfolding send_all
  send_all-LastStatus rid status [] = no_message
  send_all-LastStatus rid status (start code h ∷ ms) = later_start (send_all-LastStatus rid code ms)
  send_all-LastStatus rid status (body chunk ∷ ms) = later_body (send_all-LastStatus rid status ms)

  -- Where `setdefault` does what Starlette documents: of an HTTP request, the middleware sends on
  -- the application's messages in their order, unchanged but that a response with no `X-Request-Id`
  -- header gets one with the request's correlation id, which stands behind its other headers.
  pub call-AllStamped :
      (u : Unicode) (app : Option Text → Run S.Headers) (request : Request)
      → SetsDefault S
      → request.is_http ≡ true
      → let (rid, state) = request_id u request.scope request.header request.fresh request.state in
        AllStamped rid (app state).sent (call S u app request).sent
  unfolding call
  call-AllStamped u app request d h = rw h (send_all-AllStamped d _ 500 _)

  -- An HTTP request ends as the application ends, also where it raises, and adds one line to the
  -- log behind the application's, with the status of the last response that was started, or 500
  -- where none was.
  pub call-completed :
      (u : Unicode) (app : Option Text → Run S.Headers) (request : Request)
      → request.is_http ≡ true
      → let (rid, state) = request_id u request.scope request.header request.fresh request.state in
        ((call S u app request).outcome ≡ (app state).outcome)
        × ((status : ℕ) × LastStatus 500 (app state).sent status
            × ((call S u app request).log ≡ (app state).log ++ completed request rid status ∷ []))
  unfolding call
  call-completed u app request h = rw h (refl, (_, send_all-LastStatus _ 500 _, refl))
