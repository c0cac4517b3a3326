-- ===== src/Handlers/Guards.antt =====
-- src/policy-server/handlers/policy_guard.go and quota_guard.go.
use cf_networking_release.Prelude.{
  ℕ, ◌+◌, String, ℤ, pos, Bool, true, false, Option, none, some, List, [], ◌∷◌, Result, ok, err,
  wrap, wrap_text, wrapping, ◌>>=◌, if◌then◌else◌,
}
use cf_networking_release.Prelude.Int.{ltb_ℤ}
use cf_networking_release.Assoc.{lookup, put, string_eq}
use cf_networking_release.Store.Models.{Policy}
use cf_networking_release.Handlers.{
  TokenResponse, Clients, DataStore, unique_app_guids, is_network_admin,
}

abbrev pub wrapping_guid {ℓ} : {A : Type ℓ} → String → Result A → Result A
wrapping_guid guid (ok a) = ok a
wrapping_guid guid (err e) = err (wrap_text "getting space with guid %s: %s" guid e)

-- A space that is nil ends the loop with false.
abbrev pub if_found : {A : Type 0} → Option A → (A → Result Bool) → Result Bool
if_found none rest = ok false
if_found (some a) rest = rest a

module _ (clients : Clients) where
  unfoldable pub check_spaces : String → String → List String → Result Bool
  check_spaces token user_id [] = ok true
  check_spaces token user_id (guid ∷ guids) = do
    let rest = check_spaces token user_id guids
    space ← wrapping_guid guid (clients.get_space token guid)
    if_found space (λ found. do
      user_space ← wrapping_guid guid (clients.get_user_space token user_id found)
      if_found user_space (λ own. rest))

  -- PolicyGuard.CheckAccess
  unfoldable pub check_access :
      (List String → List String) → List Policy → TokenResponse → Result Bool
  check_access visit policies user_token = if is_network_admin user_token.scope then ok true else do
    token ← wrapping "getting token" clients.get_token
    guids ←
        wrapping "getting space guids"
          (clients.get_space_guids token (unique_app_guids visit policies))
    check_spaces token user_token.user_id guids

abbrev pub or_zero : Option ℕ → ℕ
or_zero none = 0
or_zero (some n) = n

unfoldable pub zero_counts : List String → List (String × ℕ) → List (String × ℕ)
zero_counts [] set = set
zero_counts (guid ∷ guids) set = zero_counts guids (put guid 0 set)

unfoldable pub count_sources : List Policy → List (String × ℕ) → List (String × ℕ)
count_sources [] set = set
count_sources (p ∷ policies) set =
    count_sources policies (put p.source.id (or_zero (lookup p.source.id set) + 1) set)

unfoldable pub source_counts : List Policy → List String → List (String × ℕ)
unfolding zero_counts count_sources
source_counts policies known_app_guids = count_sources policies (zero_counts known_app_guids [])

unfoldable pub check_counts : ℤ → List (String × ℕ) → List (String × ℕ) → List String → Bool
check_counts max_policies current to_add [] = true
check_counts max_policies current to_add (guid ∷ guids) =
    let rest = check_counts max_policies current to_add guids in
    if ltb_ℤ max_policies (pos (or_zero (lookup guid current) + or_zero (lookup guid to_add)))
    then false
    else rest

abbrev pub check_found :
    {S : Type 0} → ℤ → List String → List (String × ℕ) → Result (List Policy) × S → Result Bool × S
check_found max_policies app_guids to_add (err e, s) = (err (wrap "getting policies" e), s)
check_found max_policies app_guids to_add (ok source_policies, s) =
    (ok (check_counts max_policies (source_counts source_policies app_guids) to_add app_guids), s)

-- QuotaGuard.CheckAccess
unfoldable pub check_quota :
    {S : Type 0}
    → DataStore S
    → ℤ
    → (List String → List String)
    → List Policy
    → TokenResponse
    → S
    → Result Bool × S
check_quota store max_policies visit policies user_token s =
    if is_network_admin user_token.scope
    then (ok true, s)
    else let app_guids = unique_app_guids visit policies in
      check_found max_policies app_guids (source_counts policies app_guids)
        (store.by_guids app_guids [] false s)
