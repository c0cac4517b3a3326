-- ===== src/DnsAdapter.antt =====
-- src/bosh-dns-adapter: IPs of sdcclient/service_discovery_client.go, and the request handler and the
-- answers of main.go. HTTP is outside: a GET answers with an error, or with a status and a body, and
-- changes a world; the decoding of a body is a parameter, and so are the numbers of math/rand. JSON
-- that is null leaves the response nil, where Go panics.
pub mod Resolution
use cf_networking_release.Prelude.{
  ℕ, zero, suc, String, Bool, true, false, Option, none, some, List, [], ◌∷◌, map, length, ◌==◌,
  str_eq, if◌then◌else◌, Error, message, wrap, Result, ok, err,
}

module _ {ℓ} {A : Type ℓ} where
  -- xs[i], and xs[i] = v
  unfoldable pub element : A → List A → ℕ → A
  element default [] i = default
  element default (x ∷ xs) zero = x
  element default (x ∷ xs) (suc i) = element default xs i

  unfoldable pub set_element : A → List A → ℕ → List A
  set_element v [] i = []
  set_element v (x ∷ xs) zero = v ∷ xs
  set_element v (x ∷ xs) (suc i) = x ∷ set_element v xs i

-- vals[i], vals[j] = vals[j], vals[i]
unfoldable pub swap : ℕ → ℕ → List String → List String
unfolding element set_element
swap i j vals = set_element (element "" vals j) (set_element (element "" vals i) vals j) i

-- The loop over vals[:n], of the numbers that r.Intn gives for each n.
unfoldable pub shuffle_first : (ℕ → ℕ) → ℕ → List String → List String
unfolding swap
shuffle_first rand zero vals = vals
shuffle_first rand (suc n) vals = shuffle_first rand n (swap n (rand (suc n)) vals)

unfoldable pub shuffle : (ℕ → ℕ) → List String → List String
unfolding shuffle_first
shuffle rand vals = shuffle_first rand (length vals) vals

-- What IPs returns, if it does not panic.
pub data Ips : Type 0 where
  panicked : Ips
  no_ips : Error → Ips
  found_ips : List String → Ips

pub data Reply (Body : Type 0) : Type 0 where
  no_reply : Error → Reply Body
  replied : ℕ → Body → Reply Body

module _ {Body World : Type 0} (get : String → World → Reply Body × World)
    (decode : Body → Result (Option (List String))) where
  -- A try that failed ends the loop, and so does status 200.
  abbrev pub unless_done : (World → Reply Body × World) → Reply Body × World → Reply Body × World
  unless_done again (no_reply e, w) = (no_reply e, w)
  unless_done again (replied status body, w) =
      if status == 200 then (replied status body, w) else again w

  -- The loop, with this many tries left behind the first.
  unfoldable pub try_get : ℕ → String → World → Reply Body × World
  try_get zero name w = get name w
  try_get (suc tries) name w = unless_done (try_get tries name) (get name w)

  abbrev pub shown : (ℕ → ℕ) → Result (Option (List String)) → Ips
  shown rand (err e) = no_ips e
  shown rand (ok none) = panicked
  shown rand (ok (some hosts)) = found_ips (shuffle rand hosts)

  abbrev pub ips_of : (ℕ → ℕ) → Reply Body × World → Ips × World
  ips_of rand (no_reply e, w) = (no_ips e, w)
  ips_of rand (replied status body, w) =
      if status == 200
      then (shown rand (decode body), w)
      else (no_ips (message "Received non successful response from server: %+v"), w)

  unfoldable pub ips : (ℕ → ℕ) → String → World → Ips × World
  unfolding try_get
  ips rand name w = ips_of rand (try_get 3 name w)

-- dnsmessage.RCodeSuccess and RCodeServerFailure
pub data Rcode : Type 0 where
  success : Rcode
  server_failure : Rcode

pub record Answer : Type 0 where
  pub name : String
  pub rr_type : ℕ
  pub ttl : ℕ
  pub data_text : String

-- What is written: the HTTP status with the DNS status, question and answers, or an error's text.
pub data DnsResponse : Type 0 where
  crashed : DnsResponse
  error_response : Error → DnsResponse
  response : ℕ → Rcode → String → String → List Answer → DnsResponse

-- getQueryParam
abbrev pub or_default : String → String → String
or_default value default = if str_eq value "" then default else value

-- The loop of buildResponseBody; dnsmessage.TypeA is 1.
unfoldable pub answers_of : String → List String → List Answer
answers_of name ips = map (λ ip. record { name = name; rr_type = 1; ttl = 0; data_text = ip }) ips

abbrev pub answer_ips : String → String → Ips → DnsResponse
answer_ips name dns_type panicked = crashed
answer_ips name dns_type (no_ips e) =
    error_response (wrap "Error querying Service Discover Controller" e)
answer_ips name dns_type (found_ips ips) = response 200 success name dns_type (answers_of name ips)

module _ {Body World : Type 0} (get : String → World → Reply Body × World)
    (decode : Body → Result (Option (List String))) (rand : ℕ → ℕ) where
  -- The handler, of the query's "type" and "name"
  unfoldable pub serve : String → String → World → DnsResponse × World
  serve type_param name_param w =
      let dns_type = or_default type_param "1" in
      let name = or_default name_param "" in
      let (found, after) = ips get decode rand name w in
      if str_eq dns_type "1"
      then (if str_eq name ""
          then (response 400 server_failure name dns_type [], w)
          else (answer_ips name dns_type found, after))
      else (response 200 success name dns_type [], w)
