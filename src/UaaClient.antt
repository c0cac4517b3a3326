-- ===== src/UaaClient.antt =====
-- src/policy-server/uaa_client/client.go, the client of the UAA. HTTP and the decoding of JSON are
-- parameters; a URL that does not parse, at which Go panics, is left out.
pub mod Tokens
use cf_networking_release.Prelude.{
  ℕ, String, Bytes, codes, ◌++◌, ◌==◌, pos, [], ◌∷◌, if◌then◌else◌, Error, message, wrap, wrap_both,
  number_error, Result, ok, err, wrapping,
}
use cf_networking_release.Handlers.{TokenResponse}

pub record Client : Type 0 where
  pub base_url : String
  pub name : String
  pub secret : String

-- A POST with basic authentication and a body of form fields.
pub record Request : Type 0 where
  pub base_url : String
  pub path : String
  pub user : String
  pub password : String
  pub form : Bytes

-- The status, and the body or the error of reading it.
pub record HttpResponse : Type 0 where
  pub status : ℕ
  pub body : Result String

-- BadUaaResponse, an error of the status and the body
abbrev pub bad_uaa_response : ℕ → String → Error
bad_uaa_response status body =
    wrap_both "bad uaa response: %d: %s" (number_error "%d" (pos status ∷ [])) (message body)

module _ {A : Type 0} (unmarshal : String → Result A) where
  abbrev pub read_body : ℕ → Result String → Result A
  read_body status (err e) = err (wrap "read body" e)
  read_body status (ok body) =
      if status == 200
      then wrapping "unmarshal json" (unmarshal body)
      else err (bad_uaa_response status body)

  abbrev pub read_response : Result HttpResponse → Result A
  read_response (err e) = err (wrap "http client" e)
  read_response (ok r) = read_body r.status r.body

  -- makeRequest
  unfoldable pub make_request : (Request → Result HttpResponse) → Request → Result A
  make_request send request = read_response (send request)

module _ (send : Request → Result HttpResponse) (c : Client) where
  -- GetToken; the decoding gives the access token
  unfoldable pub get_token : (String → Result String) → Result String
  unfolding make_request
  get_token unmarshal = make_request unmarshal send (record {
    base_url = c.base_url;
    path = "/oauth/token";
    user = c.name;
    password = c.secret;
    form = codes "client_id=" ++ codes c.name ++ codes "&grant_type=client_credentials";
  })

  abbrev pub check_request : Bytes → Request
  check_request token = record {
    base_url = c.base_url;
    path = "/check_token";
    user = c.name;
    password = c.secret;
    form = codes "token=" ++ token;
  }

  -- CheckToken
  unfoldable pub check_token : (String → Result TokenResponse) → Bytes → Result TokenResponse
  unfolding make_request
  check_token unmarshal token = make_request unmarshal send (check_request token)
