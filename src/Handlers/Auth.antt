-- ===== src/Handlers/Auth.antt =====
-- src/policy-server/handlers/auth_middleware.go. The limit on the body's size is left out.
use cf_networking_release.Prelude.{
  String, Bool, true, false, ◌&&◌, not, List, [], ◌∷◌, Bytes, codes, bytes_eq, message, Result, ok,
  err, contains, if◌then◌else◌, length, take, drop,
}
use cf_networking_release.Handlers.{TokenResponse}
use cf_networking_release.Handlers.Endpoints.{Response, unauthorized, forbidden}

-- strings.TrimPrefix
unfoldable pub trim_prefix : Bytes → Bytes → Bytes
trim_prefix text prefix =
    if bytes_eq (take (length prefix) text) prefix then drop (length prefix) text else text

unfoldable pub is_authorized : List String → List String → Bool
unfolding contains
is_authorized [] allowed_scopes = false
is_authorized (scope ∷ scopes) allowed_scopes =
    let rest = is_authorized scopes allowed_scopes in
    if contains scope allowed_scopes then true else rest

pub record Authenticator : Type 0 where
  pub check_token : Bytes → Result TokenResponse
  pub scopes : List String
  pub scope_checking : Bool

abbrev pub token_of : Bytes → Bytes
token_of header = trim_prefix (trim_prefix header (codes "Bearer ")) (codes "bearer ")

module _ {Body S : Type 0} where
  unfoldable pub with_token :
      Authenticator
      → (TokenResponse → S → Response Body × S)
      → S
      → Result TokenResponse
      → Response Body × S
  unfolding is_authorized
  with_token a handle s (err e) = (forbidden (message "failed to verify token with uaa"), s)
  with_token a handle s (ok token_data) =
      if a.scope_checking && not (is_authorized token_data.scope a.scopes)
      then (forbidden (message "provided scopes do not include allowed scopes"), s)
      else handle token_data s

  -- Wrap, of the values of the header "Authorization"
  unfoldable pub wrap_handler :
      Authenticator → (TokenResponse → S → Response Body × S) → List Bytes → S → Response Body × S
  unfolding with_token trim_prefix
  wrap_handler a handle [] s =
      (unauthorized (message "no auth header") (message "missing authorization header"), s)
  wrap_handler a handle (authorization ∷ rest) s =
      with_token a handle s (a.check_token (token_of authorization))
