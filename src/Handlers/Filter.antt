-- ===== src/Handlers/Filter.antt =====
-- src/policy-server/handlers/policy_filter.go: the policies that a user may see.
use cf_networking_release.Prelude.{
  String, ℤ, ◌&&◌, Option, none, some, List, [], ◌∷◌, Result, ok, wrapping, ◌>>=◌, contains,
  keep_if, if◌then◌else◌,
}
use cf_networking_release.Assoc.{lookup, put, string_eq}
use cf_networking_release.Chunk.{get_chunks}
use cf_networking_release.Store.Models.{Policy}
use cf_networking_release.Handlers.{TokenResponse, Clients, unique_app_guids, is_network_admin}

unfoldable pub put_all : List (String × String) → List (String × String) → List (String × String)
put_all [] ret = ret
put_all ((k, v) ∷ m) ret = put_all m (put k v ret)

unfoldable pub flatten_into :
    List (List (String × String)) → List (String × String) → List (String × String)
unfolding put_all
flatten_into [] ret = ret
flatten_into (m ∷ list) ret = flatten_into list (put_all m ret)

unfoldable pub flatten : List (List (String × String)) → List (String × String)
unfolding flatten_into
flatten list = flatten_into list []

-- appSpaces[guid], the empty text where the guid is missing
abbrev pub or_empty_text : Option String → String
or_empty_text none = ""
or_empty_text (some space) = space

unfoldable pub space_of : List (String × String) → String → String
unfolding lookup
space_of app_spaces guid = or_empty_text (lookup guid app_spaces)

unfoldable pub filter : List Policy → List (String × String) → List String → List Policy
unfolding keep_if contains
filter policies app_spaces user_spaces =
    keep_if
      (λ p.
        contains (space_of app_spaces p.source.id) user_spaces
        && contains (space_of app_spaces p.destination.id) user_spaces)
      policies

module _ (clients : Clients) where
  unfoldable pub get_spaces_of_chunks :
      String → List (List String) → Result (List (List (String × String)))
  get_spaces_of_chunks token [] = ok []
  get_spaces_of_chunks token (chunk ∷ chunks) = do
    let rest = get_spaces_of_chunks token chunks
    spaces ← wrapping "getting app spaces" (clients.get_app_spaces token chunk)
    others ← rest
    ok (spaces ∷ others)

  unfoldable pub filter_policies :
      (List String → List String) → ℤ → List Policy → TokenResponse → Result (List Policy)
  filter_policies visit chunk_size policies user_token =
      if is_network_admin user_token.scope then ok policies else do
        token ← wrapping "getting token" clients.get_token
        app_spaces_list ←
            get_spaces_of_chunks token (get_chunks (unique_app_guids visit policies) chunk_size)
        user_spaces ←
            wrapping "getting user spaces" (clients.get_user_spaces token user_token.user_id)
        ok (filter policies (flatten app_spaces_list) user_spaces)
