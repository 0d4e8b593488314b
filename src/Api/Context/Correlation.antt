-- ===== src/Api/Context/Correlation.antt =====
-- Where the correlation id of a request comes from.
use projects_api.Common.{
  Text, ◌≡◌, ◌≤◌, ◌⊎◌, inl, inr, refl, true, Option, none, some, [], ◌∷◌, length, all, arith,
  Option-cases,
}
use projects_api.Domain.Validation.{Unicode}
use projects_api.Api.Context.{Scope, truthy, event_request_id, is_printable, client_id, resolve}

module _ (u : Unicode) where
  -- A header that is used has 1 to 128 characters, all printable.
  pub client_id_valid :
      (header : Option Text) (s : Text)
      → client_id u header ≡ some s
      → (1 ≤ length s) × (length s ≤ 128) × (all (is_printable u) s ≡ true)
  unfolding client_id
  client_id_valid none s h = cc
  client_id_valid (some []) s h = cc
  client_id_valid (some (c ∷ t)) s h = ground arith

  -- The resolved correlation id is the gateway's request id where there is one, else the Lambda's,
  -- else the client's header with 1 to 128 printable characters or the fresh UUID.
  pub resolve_cases :
      (scope : Scope) (header : Option Text) (fresh : Text)
      → let id = resolve u scope header fresh in
        (some id ≡ truthy (event_request_id scope.event))
        ⊎ ((truthy (event_request_id scope.event) ≡ none)
            × ((some id ≡ truthy scope.aws_request_id)
                ⊎ ((truthy scope.aws_request_id ≡ none)
                    × (((1 ≤ length id) × (length id ≤ 128) × (all (is_printable u) id ≡ true))
                        ⊎ (id ≡ fresh)))))
  unfolding resolve
  resolve_cases scope header fresh = elim (Option-cases (truthy (event_request_id scope.event))) [
    | inr (a, e) ↦ inl (rw e refl)
    | inl e ↦ inr (
      e,
      elim (Option-cases (truthy scope.aws_request_id)) [
        | inr (b, f) ↦ inl (rw (e, f) refl)
        | inl f ↦ inr (
          f,
          elim (Option-cases (client_id u header)) [
            | inr (s, g) ↦ inl (rw (e, f, g) (client_id_valid header s g))
            | inl g ↦ inr (rw (e, f, g) refl)
          ],
        )
      ],
    )
  ]
