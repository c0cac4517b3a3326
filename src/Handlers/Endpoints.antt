-- ===== src/Handlers/Endpoints.antt =====
-- The ServeHTTP of policies_create.go, policies_delete.go, policies_index.go,
-- policies_index_internal.go and policies_cleanup.go in src/policy-server/handlers. A request is its
-- body, or the error of reading it, with the token data that the authentication left; a handler
-- returns the response and the store's new state.
use cf_networking_release.Prelude.{
  String, ℤ, Bool, true, false, List, [], ◌∷◌, map, Error, Result, ok, err, message, wrap,
}
use cf_networking_release.Store.Models.{Policy}
use cf_networking_release.Handlers.{TokenResponse, Clients, DataStore}
use cf_networking_release.Handlers.Guards.{check_access, check_quota}
use cf_networking_release.Handlers.Filter.{filter_policies}

-- What is written: a body with 200, or through ErrorResponse the error and its description.
pub data Response (Body : Type 0) : Type 0 where
  written : Body → Response Body
  bad_request : Error → Error → Response Body
  forbidden : Error → Response Body
  unauthorized : Error → Error → Response Body
  internal_server_error : Error → Error → Response Body

abbrev pub not_accessible : Error
not_accessible = message "one or more applications cannot be found or accessed"

abbrev pub quota_exceeded : Error
quota_exceeded = message "policy quota exceeded"

module _ {Body : Type 0} where
  abbrev pub as_written : String → Result Body → Response Body
  as_written failed (ok body) = written body
  as_written failed (err e) = internal_server_error e (message failed)

unfoldable pub without_tags : Policy → Policy
without_tags p = record {
  source = record p.source { tag = [] };
  destination = record p.destination { tag = [] };
}

module _ {Body S : Type 0} where
  -- The end of a request that changed the store.
  abbrev pub changed : Body → String → Result (Unit {0}) × S → Response Body × S
  changed body failed (ok u, s) = (written body, s)
  changed body failed (err e, s) = (internal_server_error e (message failed), s)

  abbrev pub if_authorized :
      String → Error → Result Bool × S → (S → Response Body × S) → Response Body × S
  if_authorized failed refused (err e, s) rest = (internal_server_error e (message failed), s)
  if_authorized failed refused (ok false, s) rest = (forbidden refused, s)
  if_authorized failed refused (ok true, s) rest = rest s

  abbrev pub if_mapped :
      Result (List Policy) → S → (List Policy → Response Body × S) → Response Body × S
  if_mapped (err e) s rest = (bad_request e (wrap "mapper" e), s)
  if_mapped (ok policies) s rest = rest policies

  abbrev pub if_read : String → Result Body → S → (Body → Response Body × S) → Response Body × S
  if_read failed (err e) s rest = (bad_request e (message failed), s)
  if_read failed (ok body) s rest = rest body

module _ {Body S : Type 0} (store : DataStore S) (clients : Clients)
    (visit : List String → List String) (as_store_policy : Body → Result (List Policy))
    (as_bytes : List Policy → Result Body) (empty_object : Body) where
  -- PoliciesCreate
  unfoldable pub policies_create : ℤ → Result Body → TokenResponse → S → Response Body × S
  policies_create max_policies request token_data s =
      if_read "failed reading request body" request s λ body.
        if_mapped (as_store_policy body) s λ policies.
          if_authorized "check access failed" not_accessible
            (check_access clients visit policies token_data, s)
            λ t.
              if_authorized "check quota failed" quota_exceeded
                (check_quota store max_policies visit policies token_data t)
                λ u. changed empty_object "database create failed" (store.create policies u)

  -- PoliciesDelete
  unfoldable pub policies_delete : Result Body → TokenResponse → S → Response Body × S
  policies_delete request token_data s = if_read "invalid request body" request s λ body.
      if_mapped (as_store_policy body) s λ policies.
        if_authorized "check access failed" not_accessible
          (check_access clients visit policies token_data, s)
          λ t. changed empty_object "database delete failed" (store.delete policies t)

  -- The query of the index: by either guid, by both, by one of the two, or all.
  unfoldable pub read_index : List String → List String → List String → S → Result (List Policy) × S
  read_index (id ∷ ids) source_ids dest_ids s = store.by_guids (id ∷ ids) (id ∷ ids) false s
  read_index [] (source ∷ source_ids) (dest ∷ dest_ids) s =
      store.by_guids (source ∷ source_ids) (dest ∷ dest_ids) true s
  read_index [] (source ∷ source_ids) [] s = store.by_guids (source ∷ source_ids) [] false s
  read_index [] [] (dest ∷ dest_ids) s = store.by_guids [] (dest ∷ dest_ids) false s
  read_index [] [] [] s = store.all s

  abbrev pub show_filtered : Result (List Policy) → Response Body
  show_filtered (err e) = internal_server_error e (message "filter policies failed")
  show_filtered (ok policies) =
      as_written "map policy as bytes failed" (as_bytes (map without_tags policies))

  abbrev pub show_index : ℤ → TokenResponse → Result (List Policy) × S → Response Body × S
  show_index chunk_size user_token (err e, s) =
      (internal_server_error e (message "database read failed"), s)
  show_index chunk_size user_token (ok policies, s) =
      (show_filtered (filter_policies clients visit chunk_size policies user_token), s)

  -- PoliciesIndex, of the ids in the query's "id", "source_id" and "dest_id"
  unfoldable pub policies_index :
      ℤ → List String → List String → List String → TokenResponse → S → Response Body × S
  policies_index chunk_size ids source_ids dest_ids user_token s =
      show_index chunk_size user_token (read_index ids source_ids dest_ids s)

  abbrev pub show_internal : Result (List Policy) × S → Response Body × S
  show_internal (err e, s) = (internal_server_error e (message "database read failed"), s)
  show_internal (ok policies, s) = (as_written "map policy as bytes failed" (as_bytes policies), s)

  -- PoliciesIndexInternal
  unfoldable pub policies_index_internal : List String → S → Response Body × S
  policies_index_internal [] s = show_internal (store.all s)
  policies_index_internal (id ∷ ids) s =
      show_internal (store.by_guids (id ∷ ids) (id ∷ ids) false s)

  abbrev pub show_cleaned : Result (List Policy) × S → Response Body × S
  show_cleaned (err e, s) = (internal_server_error e (message "policies cleanup failed"), s)
  show_cleaned (ok policies, s) =
      (as_written "map policy as bytes failed" (as_bytes (map without_tags policies)), s)

  -- PoliciesCleanup, of the cleaner's DeleteStalePolicies
  unfoldable pub policies_cleanup : (S → Result (List Policy) × S) → S → Response Body × S
  policies_cleanup delete_stale_policies s = show_cleaned (delete_stale_policies s)
