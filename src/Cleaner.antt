-- ===== src/Cleaner.antt =====
-- src/policy-server/cleaner/policy_cleaner.go: deletes the policies of apps that are gone, over the
-- interfaces that it takes. A set is a list; `visit` is the order in which Go visits the set of apps.
pub mod Laws
use cf_networking_release.Prelude.{
  String, ℤ, Bool, true, false, ◌||◌, not, List, [], ◌∷◌, ◌++◌, Error, wrap, Result, ok, err,
  contains, add_text, keep_if, if◌then◌else◌,
}
use cf_networking_release.Chunk.{get_chunks}
use cf_networking_release.Store.Models.{Policy}

-- The interface listDeleteStore.
pub record ListDeleteStore (S : Type 0) : Type 0 where
  pub all : S → Result (List Policy) × S
  pub delete : List Policy → S → Result (Unit {0}) × S

unfoldable pub get_stale_app_guids : List String → List String → List String
unfolding contains
get_stale_app_guids live_app_guids app_guids =
    keep_if (λ guid. not (contains guid live_app_guids)) app_guids

unfoldable pub get_stale_policies : List Policy → List String → List Policy
unfolding keep_if contains
get_stale_policies policy_list stale_app_guids =
    keep_if (λ p. contains p.source.id stale_app_guids || contains p.destination.id stale_app_guids)
      policy_list

unfoldable pub app_guid_set : List Policy → List String → List String
unfolding add_text
app_guid_set [] set = set
app_guid_set (p ∷ policies) set =
    app_guid_set policies (add_text p.destination.id (add_text p.source.id set))

unfoldable pub policy_app_guids : (List String → List String) → List Policy → List String
unfolding app_guid_set
policy_app_guids visit policy_list = visit (app_guid_set policy_list [])

module _ {S : Type 0} where
  abbrev pub deleted :
      List Policy
      → Result (Unit {0}) × S
      → (List Policy → S → Result (List Policy) × S)
      → Result (List Policy) × S
  deleted stale_policies (err e, s) rest = (err (wrap "database write failed" e), s)
  deleted stale_policies (ok u, s) rest = rest stale_policies s

  abbrev pub if_listed :
      Result (List String) → S → (List String → Result (List Policy) × S) → Result (List Policy) × S
  if_listed (err e) s rest = (err (wrap "get app guids from Cloud-Controller failed" e), s)
  if_listed (ok live) s rest = rest live

  abbrev pub if_token :
      Result String → S → (String → Result (List Policy) × S) → Result (List Policy) × S
  if_token (err e) s rest = (err (wrap "get UAA token failed" e), s)
  if_token (ok token) s rest = rest token

  abbrev pub if_read :
      Result (List Policy) × S
      → (List Policy → S → Result (List Policy) × S)
      → Result (List Policy) × S
  if_read (err e, s) rest = (err (wrap "database read failed" e), s)
  if_read (ok policies, s) rest = rest policies s

module _ {S : Type 0} (store : ListDeleteStore S)
    (get_live_app_guids : String → List String → Result (List String)) where
  -- The loop over the chunks, with the stale policies found so far.
  unfoldable pub delete_chunks :
      String → List Policy → List (List String) → List Policy → S → Result (List Policy) × S
  unfolding get_stale_app_guids get_stale_policies
  delete_chunks token policies [] stale_policies s = (ok stale_policies, s)
  delete_chunks token policies (chunk ∷ chunks) stale_policies s =
      if_listed (get_live_app_guids token chunk) s λ live_app_guids.
        let to_delete = get_stale_policies policies (get_stale_app_guids live_app_guids chunk) in
        deleted (stale_policies ++ to_delete) (store.delete to_delete s)
          (delete_chunks token policies chunks)

  -- DeleteStalePolicies
  unfoldable pub delete_stale_policies :
      Result String → (List String → List String) → ℤ → S → Result (List Policy) × S
  unfolding delete_chunks policy_app_guids
  delete_stale_policies get_token visit chunk_size s = if_read (store.all s) λ policies t.
      if_token get_token t λ token.
        delete_chunks token policies (get_chunks (policy_app_guids visit policies) chunk_size) [] t
