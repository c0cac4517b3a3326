-- ===== src/Handlers.antt =====
-- src/policy-server/handlers: the guards, the policy filter and the endpoints, over the interfaces
-- that they take. Request bodies and JSON are values of any type, with the coding a parameter. Go
-- visits a map in an order of its own; `visit` is that order, a parameter too.
pub mod Guards
pub mod Filter
pub mod Endpoints
pub mod Auth
pub mod Access
pub mod Quota
pub mod Visible
pub mod Requests
pub mod Small
pub mod Measured
use cf_networking_release.Prelude.{String, Bool, Option, List, [], ◌∷◌, Result, contains, add_text}
use cf_networking_release.Store.Models.{Policy, Tag}

-- CheckTokenResponse of src/policy-server/uaa_client/client.go.
pub record TokenResponse : Type 0 where
  pub scope : List String
  pub user_id : String
  pub user_name : String

-- Space of src/policy-server/api/api.go.
pub record Space : Type 0 where
  pub name : String
  pub org_guid : String

-- The interfaces uaaClient and ccClient of policy_filter.go; a map is an association list and a set
-- a list.
pub record Clients : Type 0 where
  pub get_token : Result String
  pub get_app_spaces : String → List String → Result (List (String × String))
  pub get_space : String → String → Result (Option Space)
  pub get_space_guids : String → List String → Result (List String)
  pub get_user_space : String → String → Space → Result (Option Space)
  pub get_user_spaces : String → String → Result (List String)

-- The interface dataStore of policies_index_internal.go, over the states of a store.
pub record DataStore (S : Type 0) : Type 0 where
  pub all : S → Result (List Policy) × S
  pub create : List Policy → S → Result (Unit {0}) × S
  pub delete : List Policy → S → Result (Unit {0}) × S
  pub tags : S → Result (List Tag) × S
  pub by_guids : List String → List String → Bool → S → Result (List Policy) × S

-- The keys of the set that uniqueAppGUIDs builds, in the order of their insertion.
unfoldable pub app_guid_set : List Policy → List String → List String
unfolding add_text
app_guid_set [] set = set
app_guid_set (p ∷ policies) set =
    app_guid_set policies (add_text p.destination.id (add_text p.source.id set))

unfoldable pub unique_app_guids : (List String → List String) → List Policy → List String
unfolding app_guid_set
unique_app_guids visit policies = visit (app_guid_set policies [])

unfoldable pub is_network_admin : List String → Bool
unfolding contains
is_network_admin scopes = contains "network.admin" scopes

unfoldable pub is_network_write : List String → Bool
unfolding contains
is_network_write scopes = contains "network.write" scopes
