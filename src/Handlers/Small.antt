-- ===== src/Handlers/Small.antt =====
-- The smaller handlers of src/policy-server/handlers: tags_index.go, tags_create.go, health.go,
-- whoami_handler.go, check_version_wrapper.go and cors_options_handler.go; and the store with metrics
-- of src/policy-server/store/metrics_wrapper.go. JSON and regular expressions are parameters.
use cf_networking_release.Prelude.{
  ℕ, ◌-◌, String, Bool, ◌||◌, Option, none, some, List, [], ◌∷◌, ◌++◌, message, Result, ok, err,
  str_eq, if◌then◌else◌, ◌>>=◌,
}
use cf_networking_release.Assoc.{lookup, string_eq}
use cf_networking_release.Api.V1
use cf_networking_release.Store.Models.{Tag}
use cf_networking_release.Handlers.{TokenResponse, DataStore}
use cf_networking_release.Handlers.Endpoints.{
  Response, written, bad_request, internal_server_error, as_written, if_read,
}

module _ {Body S : Type 0} where
  abbrev pub show_tags : (List V1.Tag → Result Body) → Result (List Tag) × S → Response Body × S
  show_tags marshal (err e, s) = (internal_server_error e (message "database read failed"), s)
  show_tags marshal (ok tags, s) =
      (as_written "database marshalling failed" (marshal (V1.map_store_tags tags)), s)

  -- TagsIndex
  unfoldable pub tags_index : DataStore S → (List V1.Tag → Result Body) → S → Response Body × S
  tags_index store marshal s = show_tags marshal (store.tags s)

  -- Health, of the store's CheckDatabase; a response with no body is the empty one.
  abbrev pub show_health : Body → Result (Unit {0}) × S → Response Body × S
  show_health empty (err e, s) = (internal_server_error e (message "check database failed"), s)
  show_health empty (ok u, s) = (written empty, s)

  unfoldable pub health : (S → Result (Unit {0}) × S) → Body → S → Response Body × S
  health check_database empty s = show_health empty (check_database s)

-- Group of tags_create.go
pub record Group : Type 0 where
  pub group_type : String
  pub group_guid : String

module _ {Body S : Type 0} where
  abbrev pub show_created : (String → Body) → Result String × S → Response Body × S
  show_created show (err e, s) = (internal_server_error e (message "database create failed"), s)
  show_created show (ok tag, s) = (written (show tag), s)

  abbrev pub if_parsed : Result Group → S → (Group → Response Body × S) → Response Body × S
  if_parsed (err e) s next = (bad_request e (message "failed parsing request body"), s)
  if_parsed (ok group) s next = next group

  -- TagsCreate, over the interface that it declares: CreateTag of the guid and the type
  unfoldable pub tags_create :
      (String → String → S → Result String × S)
      → (Body → Result Group)
      → (String → Body)
      → Result Body
      → S
      → Response Body × S
  tags_create create_tag parse show request s =
      if_read "failed reading request body" request s λ body.
        if_parsed (parse body) s
          λ group. show_created show (create_tag group.group_guid group.group_type s)

-- WhoAmIHandler
unfoldable pub who_am_i : {Body : Type 0} → (String → Result Body) → TokenResponse → Response Body
who_am_i marshal token_data = as_written "marshaling response failed" (marshal token_data.user_name)

-- CheckVersion: the handler of the version, or the status NotAcceptable
pub data Versioned (Handler : Type 0) : Type 0 where
  handled_by : Handler → Versioned Handler
  not_acceptable : String → Versioned Handler

abbrev pub if_supported : {Handler : Type 0} → String → Option Handler → Versioned Handler
if_supported version none = not_acceptable version
if_supported version (some handler) = handled_by handler

unfoldable pub check_version :
    {Handler : Type 0} → List (String × Handler) → String → Versioned Handler
unfolding lookup
check_version handlers version = if_supported version (lookup version handlers)

-- A route of rata: its path's pattern and its method.
pub record Route : Type 0 where
  pub path : String
  pub method : String

-- The headers that the wrapper sets, where it does.
pub record CorsHeaders : Type 0 where
  pub allow_methods : Option (List String)
  pub allow_origin : Option String

-- The status 500, or the headers with which the wrapped handler is called.
pub data Cors : Type 0 where
  cors_failed : Cors
  cors_passed : CorsHeaders → Cors

-- The range over the allowed domains.
unfoldable pub allowed_domain : String → List String → Option String
allowed_domain origin [] = none
allowed_domain origin (domain ∷ domains) =
    if str_eq domain origin || str_eq domain "*" then some domain else allowed_domain origin domains

unfoldable pub allowed_origin : List String → List String → Option String
unfolding allowed_domain
allowed_origin domains [] = none
allowed_origin domains (origin ∷ origins) = allowed_domain origin domains

-- The methods of the routes whose path matches, or an error of the regular expression.
unfoldable pub matching_methods :
    (String → String → Result Bool) → String → List Route → Result (List String)
matching_methods match_route path [] = ok []
matching_methods match_route path (r ∷ routes) =
    let rest = matching_methods match_route path routes in
    do
      matches ← match_route r.path path
      methods ← rest
      ok (if matches then r.method ∷ methods else methods)

abbrev pub with_methods : Option String → Result (List String) → Cors
with_methods origin (err e) = cors_failed
with_methods origin (ok methods) =
    cors_passed (record { allow_methods = some methods; allow_origin = origin })

-- CORSOptionsWrapper.Wrap, of the request's method, path and Origin header
unfoldable pub cors_options :
    (String → String → Result Bool)
    → List Route
    → List String
    → String
    → String
    → List String
    → Cors
unfolding matching_methods allowed_origin
cors_options match_route routes domains method path origins =
    let origin = allowed_origin domains origins in
    if str_eq method "OPTIONS"
    then with_methods origin (matching_methods match_route path routes)
    else cors_passed (record { allow_methods = none; allow_origin = origin })

-- What the metrics sender was told.
pub data Metric : Type 0 where
  increment : String → Metric
  duration : String → ℕ → Metric

-- The names of the metrics of a call.
pub record MetricNames : Type 0 where
  pub error : String
  pub error_time : String
  pub success_time : String

module _ {S : Type 0} where
  -- One method of the wrapper: the call, between two readings of the clock.
  abbrev pub reported :
      {A : Type 0} → MetricNames → ℕ → List Metric → Result A × S → Result A × (S × List Metric)
  reported names taken metrics (err e, s) =
      (err e, (s, metrics ++ increment names.error ∷ duration names.error_time taken ∷ []))
  reported names taken metrics (ok a, s) =
      (ok a, (s, metrics ++ duration names.success_time taken ∷ []))

  abbrev pub measured :
      {A : Type 0}
      → MetricNames
      → (List Metric → ℕ × ℕ)
      → (S → Result A × S)
      → (S × List Metric)
      → Result A × (S × List Metric)
  measured names clock call (s, metrics) =
      reported names ((clock metrics).1 - (clock metrics).0) metrics (call s)

  -- MetricsWrapper; the clock's readings around a call go with the metrics sent before it, which each
  -- call adds to
  unfoldable pub metrics_wrapper : (List Metric → ℕ × ℕ) → DataStore S → DataStore (S × List Metric)
  metrics_wrapper clock store = record {
    all =
        measured
          (record {
            error = "StoreAllError";
            error_time = "StoreAllErrorTime";
            success_time = "StoreAllSuccessTime";
          })
          clock store.all;
    create = λ policies.
        measured
          (record {
            error = "StoreCreateError";
            error_time = "StoreCreateErrorTime";
            success_time = "StoreCreateSuccessTime";
          })
          clock (store.create policies);
    delete = λ policies.
        measured
          (record {
            error = "StoreDeleteError";
            error_time = "StoreDeleteErrorTime";
            success_time = "StoreDeleteSuccessTime";
          })
          clock (store.delete policies);
    tags =
        measured
          (record {
            error = "StoreTagsError";
            error_time = "StoreTagsErrorTime";
            success_time = "StoreTagsSuccessTime";
          })
          clock store.tags;
    by_guids = λ sources dests both.
        measured
          (record {
            error = "StoreByGuidsError";
            error_time = "StoreByGuidsErrorTime";
            success_time = "StoreByGuidsSuccessTime";
          })
          clock (store.by_guids sources dests both);
  }

  unfoldable pub measured_check_database :
      (List Metric → ℕ × ℕ)
      → (S → Result (Unit {0}) × S)
      → (S × List Metric)
      → Result (Unit {0}) × (S × List Metric)
  measured_check_database clock check_database =
      measured
        (record {
          error = "StoreCheckDatabaseError";
          error_time = "StoreCheckDatabaseErrorTime";
          success_time = "StoreCheckDatabaseSuccessTime";
        })
        clock check_database
