-- ===== src/PolicyClient.antt =====
-- src/lib/policy_client/external_policy_client.go, the client of the policy server's external API. The
-- JSON client is outside: a call of it answers with the decoded policies or an error, and changes a
-- world. Policies are of any type, for both versions of the API. http.StatusText is a parameter.
pub mod Chunks
use cf_networking_release.Prelude.{
  ℕ, String, ℤ, pos, Option, none, some, List, [], ◌∷◌, ◌⊎◌, inl, inr, Error, Result, ok, err,
  number_error, wrap_both, external,
}
use cf_networking_release.CloudController.{ClientError, http_response_code, other_error}
use cf_networking_release.Chunk.{chunk}

-- The arguments of JsonClient.Do: method, route, policies and token; ids are joined into the route.
pub record Request (Policy : Type 0) : Type 0 where
  pub method : String
  pub route : String
  pub ids : List String
  pub policies : List Policy
  pub token : String

module _ {Policy World : Type 0} (status_text : ℕ → String)
    (call : Request Policy → World → (List Policy ⊎ ClientError) × World) where
  -- fmt.Errorf("%d %s: %s", code, text, message), or the error as it is
  abbrev pub parse_http_error : ClientError → Error
  parse_http_error (http_response_code status e) =
      wrap_both "%d %s: %s" (number_error (status_text status) (pos status ∷ [])) e
  parse_http_error (other_error e) = e

  abbrev pub decoded : (List Policy ⊎ ClientError) × World → Result (List Policy) × World
  decoded (inl policies, w) = (ok policies, w)
  decoded (inr e, w) = (err (parse_http_error e), w)

  abbrev pub completed : (List Policy ⊎ ClientError) × World → Result (Unit {0}) × World
  completed (inl policies, w) = (ok tt, w)
  completed (inr e, w) = (err (parse_http_error e), w)

  abbrev pub get_request : String → List String → String → Request Policy
  get_request route ids token = record {
    method = "GET";
    route = route;
    ids = ids;
    policies = [];
    token = token;
  }

  abbrev pub post_request : String → List Policy → String → Request Policy
  post_request route policies token = record {
    method = "POST";
    route = route;
    ids = [];
    policies = policies;
    token = token;
  }

  unfoldable pub get_policies : String → World → Result (List Policy) × World
  get_policies token w = decoded (call (get_request "/networking/v1/external/policies" [] token) w)

  unfoldable pub get_policies_by_id : String → List String → World → Result (List Policy) × World
  get_policies_by_id token ids w =
      decoded (call (get_request "/networking/v1/external/policies?id=" ids token) w)

  unfoldable pub get_policies_v0 : String → World → Result (List Policy) × World
  get_policies_v0 token w =
      decoded (call (get_request "/networking/v0/external/policies" [] token) w)

  unfoldable pub get_policies_v0_by_id : String → List String → World → Result (List Policy) × World
  get_policies_v0_by_id token ids w =
      decoded (call (get_request "/networking/v0/external/policies?id=" ids token) w)

  unfoldable pub add_policies : String → List Policy → World → Result (Unit {0}) × World
  add_policies token policies w =
      completed (call (post_request "/networking/v1/external/policies" policies token) w)

  unfoldable pub delete_policies : String → List Policy → World → Result (Unit {0}) × World
  delete_policies token policies w =
      completed (call (post_request "/networking/v1/external/policies/delete" policies token) w)

  -- `if err != nil { return parseHttpError(err) }`, and the next chunk
  abbrev pub unless_refused :
      (World → Result (Unit {0}) × World)
      → (List Policy ⊎ ClientError) × World
      → Result (Unit {0}) × World
  unless_refused next (inl policies, w) = next w
  unless_refused next (inr e, w) = (err (parse_http_error e), w)

  -- `for _, chunk := range chunks`
  unfoldable pub post_chunks :
      String → String → List (List Policy) → World → Result (Unit {0}) × World
  post_chunks route token [] w = (ok tt, w)
  post_chunks route token (c ∷ chunks) w =
      unless_refused (post_chunks route token chunks) (call (post_request route c token) w)

  unfoldable pub add_policies_v0 : ℤ → String → List Policy → World → Result (Unit {0}) × World
  add_policies_v0 chunk_size token policies w =
      post_chunks "/networking/v0/external/policies" token (chunk chunk_size policies) w

  unfoldable pub delete_policies_v0 : ℤ → String → List Policy → World → Result (Unit {0}) × World
  delete_policies_v0 chunk_size token policies w =
      post_chunks "/networking/v0/external/policies/delete" token (chunk chunk_size policies) w
