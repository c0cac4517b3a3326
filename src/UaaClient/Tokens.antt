-- ===== src/UaaClient/Tokens.antt =====
-- The authentication of a request (auth_middleware.go) with the client of the UAA (client.go).
use cf_networking_release.Prelude.{
  ℕ, String, Bytes, ◌≡◌, refl, Bool, false, ◌==◌, List, ◌∷◌, Result, ok, err, ◌⊎◌, inl, inr,
  Bool-cases, arith, ==_iff, wrapping,
}
use cf_networking_release.Handlers.{TokenResponse}
use cf_networking_release.Handlers.Endpoints.{Response}
use cf_networking_release.Handlers.Auth.{Authenticator, token_of, wrap_handler}
use cf_networking_release.Handlers.Access.{Shared, wrap_handler-IsAdmitted}
use cf_networking_release.UaaClient.{
  Client, Request, HttpResponse, read_body, read_response, make_request, check_request, check_token,
}

module _ (send : Request → Result HttpResponse) (c : Client)
    (unmarshal : String → Result TokenResponse) where
  -- The UAA answered the check of the token with the status 200 and a body of the token's data.
  abbrev pub Vouches : Bytes → TokenResponse → Type 0
  Vouches token token_data =
      (response : HttpResponse) × (body : String) × (send (check_request send c token)
        ≡ ok response)
      × (response.status ≡ 200)
      × (response.body ≡ ok body)
      × (unmarshal body ≡ ok token_data)

  -- The authenticator over the client.
  abbrev pub over_uaa : List String → Bool → Authenticator
  over_uaa scopes scope_checking = record {
    check_token = check_token send c unmarshal;
    scopes = scopes;
    scope_checking = scope_checking;
  }

  unmarshalled :
      (body : String) (answer : Result TokenResponse) (token_data : TokenResponse)
      → unmarshal body ≡ answer
      → wrapping "unmarshal json" answer ≡ ok token_data
      → unmarshal body ≡ ok token_data
  unmarshalled body (err e) token_data got returned = cc
  unmarshalled body (ok d) token_data got returned = cc

  read_body-ok :
      (status : ℕ) (body : Result String) (token_data : TokenResponse)
      → read_body unmarshal status body ≡ ok token_data
      → (text : String) × (status ≡ 200) × (body ≡ ok text) × (unmarshal text ≡ ok token_data)
  read_body-ok status (err e) token_data returned = cc
  read_body-ok status (ok text) token_data returned = elim (Bool-cases (status == 200)) [
    | inr other ↦ absurd (ground arith)
    | inl same ↦ (
      text,
      ground (arith, ==_iff status 200),
      refl,
      unmarshalled text (unmarshal text) token_data refl (ground arith),
    )
  ]

  read_response-ok :
      (answer : Result HttpResponse) (token_data : TokenResponse)
      → read_response unmarshal answer ≡ ok token_data
      → (response : HttpResponse) × (body : String) × (answer ≡ ok response)
        × (response.status ≡ 200)
        × (response.body ≡ ok body)
        × (unmarshal body ≡ ok token_data)
  read_response-ok (err e) token_data returned = cc
  read_response-ok (ok response) token_data returned =
      let (body, status, read, data_of) =
        read_body-ok response.status response.body token_data returned in
      (response, body, refl, status, read, data_of)

  check_token-Vouches :
      (token : Bytes) (token_data : TokenResponse)
      → check_token send c unmarshal token ≡ ok token_data
      → Vouches token token_data
  unfolding check_token make_request
  check_token-Vouches token = read_response-ok (send (check_request send c token))

  Vouches-check_token :
      (token : Bytes) (token_data : TokenResponse)
      → Vouches token token_data
      → check_token send c unmarshal token ≡ ok token_data
  unfolding check_token make_request
  Vouches-check_token token token_data (response, body, answered, status, read, data_of) =
      rw (answered, status, read, data_of) refl

  -- The token's data may be let through: scopes are not checked, or one is allowed.
  abbrev pub InScope : List String → Bool → TokenResponse → Type 0
  InScope scopes scope_checking token_data =
      (scope_checking ≡ false) ⊎ Shared token_data.scope scopes

  -- Behind the authentication over the client of the UAA, a request with a token reaches its handler,
  -- with the data that the UAA gave, or the UAA did not answer the check of that token with 200 and
  -- data in scope; then it is answered the same whatever the handler is, and leaves the state alone.
  pub wrap_handler-Vouches :
      {Body S : Type 0} (scopes : List String) (scope_checking : Bool)
      (handle : TokenResponse → S → Response Body × S) (header : Bytes) (rest : List Bytes) (s : S)
      → ((token_data : TokenResponse) × Vouches (token_of header) token_data
          × InScope scopes scope_checking token_data
          × (wrap_handler (over_uaa scopes scope_checking) handle (header ∷ rest) s
              ≡ handle token_data s))
        ⊎ (((token_data : TokenResponse)
              → Vouches (token_of header) token_data
              → ¬ InScope scopes scope_checking token_data)
            × ((wrap_handler (over_uaa scopes scope_checking) handle (header ∷ rest) s).1 ≡ s)
            × ((other : TokenResponse → S → Response Body × S)
                → wrap_handler (over_uaa scopes scope_checking) other (header ∷ rest) s
                  ≡ wrap_handler (over_uaa scopes scope_checking) handle (header ∷ rest) s))
  wrap_handler-Vouches scopes scope_checking handle header rest s =
      elim (wrap_handler-IsAdmitted (over_uaa scopes scope_checking) handle (header ∷ rest) s) [
        | inl (d, (known, in_scope), ran) ↦
            inl (d, check_token-Vouches (token_of header) d known, in_scope, ran)
        | inr (refused, kept, same) ↦ inr (
          λ d vouched in_scope.
              refused d (Vouches-check_token (token_of header) d vouched, in_scope),
          kept,
          same,
        )
      ]
