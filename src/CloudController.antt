-- ===== src/CloudController.antt =====
-- src/policy-server/cc_client/client.go. The JSON client is outside: a call of it is an answer, which
-- is a decoded response or an error, and while pages are read each call may find the cloud controller
-- in another state. The query strings that net/url encodes are left to the answers' arguments.
pub mod Paging
pub mod Spaces
use cf_networking_release.Prelude.{
  ℕ, zero, suc, ◌+◌, String, Bytes, ℤ, pos, Bool, true, false, ◌&&◌, ◌||◌, Option, none, some, List,
  [], ◌∷◌, ◌++◌, map, ◌==◌, if◌then◌else◌, Error, message, wrap, Result, ok, err, wrapping, ◌>>=◌,
  add_text, ◌⊎◌, inl, inr,
}
use Prim.Native.Char.{code}
use cf_networking_release.Prelude.Int.{ltb_ℤ}
use cf_networking_release.Assoc.{put, string_eq}
use cf_networking_release.Handlers.{Space, Clients}

-- An element of Resources of AppsV3Response.
pub record App : Type 0 where
  pub guid : String
  pub space_href : String

pub record AppsV3Response : Type 0 where
  pub total_pages : ℤ
  pub next_href : Bytes
  pub resources : List App

-- An element of Resources of SpacesResponse.
pub record SpaceResource : Type 0 where
  pub guid : String
  pub name : String
  pub organization_guid : String

-- What GetAllAppGUIDs comes to; an index out of range is a panic.
pub data Listing : Type 0 where
  out_of_fuel : Listing
  panicked : Listing
  failed : Error → Listing
  listed : List String → Listing

abbrev pub with_first : ℕ → List Bytes → List Bytes
with_first c [] = (c ∷ []) ∷ []
with_first c (part ∷ parts) = (c ∷ part) ∷ parts

-- strings.Split, by a separator of one byte
unfoldable pub split : ℕ → Bytes → List Bytes
split separator [] = [] ∷ []
split separator (c ∷ s) =
    let parts = split separator s in if c == separator then [] ∷ parts else with_first c parts

-- strings.Split(nextPage, "?")[1]
unfoldable pub query_of : Bytes → Option Bytes
query_of page = elim (split b'?' page) [
  | [] ↦ none
  | (path ∷ []) ↦ none
  | (path ∷ query ∷ rest) ↦ some query
]

-- set[resource.GUID] = struct{}{}
unfoldable pub add_guids : List App → List String → List String
add_guids [] set = set
add_guids (app ∷ apps) set = add_guids apps (add_text app.guid set)

module _ {World : Type 0} (get_apps : Bytes → World → Result AppsV3Response × World) where
  -- makeAppsV3Request, of the query's text
  unfoldable pub make_apps_v3_request : Bytes → World → Result AppsV3Response × World
  make_apps_v3_request query w =
      let (r, after) = get_apps query w in (wrapping "json client do" r, after)

  abbrev pub page_read :
      (Bytes → List String → World → Listing × World)
      → List String
      → Result AppsV3Response × World
      → Listing × World
  page_read rest set (err e, w) = (failed e, w)
  page_read rest set (ok response, w) = rest response.next_href (add_guids response.resources set) w

  abbrev pub read_query :
      (Bytes → List String → World → Listing × World)
      → List String
      → Option Bytes
      → World
      → Listing × World
  read_query rest set none w = (panicked, w)
  read_query rest set (some query) w = page_read rest set (make_apps_v3_request query w)

  -- `for nextPage != ""`
  unfoldable pub read_pages : ℕ → Bytes → List String → World → Listing × World
  read_pages fuel [] set w = (listed set, w)
  read_pages zero (c ∷ page) set w = (out_of_fuel, w)
  read_pages (suc fuel) (c ∷ page) set w = read_query (read_pages fuel) set (query_of (c ∷ page)) w

  unfoldable pub get_all_app_guids : ℕ → World → Listing × World
  get_all_app_guids fuel w = read_pages fuel (b'?' ∷ []) [] w

abbrev pub unpaged : AppsV3Response → Result (List App)
unpaged response =
    if ltb_ℤ (pos 1) response.total_pages
    then err (message "pagination support not yet implemented")
    else ok response.resources

unfoldable pub get_live_app_guids : Result AppsV3Response → Result (List String)
get_live_app_guids answer = do
  response ← wrapping "json client do" answer
  apps ← unpaged response
  ok (add_guids apps [])

unfoldable pub has_slash : String → Bool
has_slash String.[] = false
has_slash (String.◌∷◌ c s) = (code c == b'/') || has_slash s

-- The last of strings.Split(href, "/"): what stands behind the last slash.
unfoldable pub last_part : String → String
unfolding has_slash
last_part String.[] = String.[]
last_part (String.◌∷◌ c s) =
    let later = last_part s in
    if has_slash s then later else if code c == b'/' then s else String.◌∷◌ c s

-- set[appID] = spaceID
unfoldable pub put_spaces : List App → List (String × String) → List (String × String)
unfolding last_part
put_spaces [] set = set
put_spaces (app ∷ apps) set = put_spaces apps (put app.guid (last_part app.space_href) set)

-- GetAppSpaces, which asks for nothing if no apps are given.
unfoldable pub get_app_spaces :
    List String → Result AppsV3Response → Result (List (String × String))
get_app_spaces [] answer = ok []
get_app_spaces (guid ∷ app_guids) answer = do
  response ← wrapping "json client do" answer
  apps ← unpaged response
  ok (put_spaces apps [])

unfoldable pub space_set : List (String × String) → List String → List String
space_set [] set = set
space_set ((app, space) ∷ mapping) set = space_set mapping (add_text space set)

-- GetSpaceGUIDs, in the order of the set's range
unfoldable pub get_space_guids :
    (List String → List String) → List String → Result AppsV3Response → Result (List String)
unfolding get_app_spaces space_set
get_space_guids visit app_guids answer = do
  mapping ← get_app_spaces app_guids answer
  ok (visit (space_set mapping []))

-- The JSON client's error for a status code, or another one.
pub data ClientError : Type 0 where
  http_response_code : ℕ → Error → ClientError
  other_error : Error → ClientError

unfoldable pub get_space : Space ⊎ ClientError → Result (Option Space)
get_space (inl response) = ok (some response)
get_space (inr (other_error e)) = err (wrap "json client do" e)
get_space (inr (http_response_code status e)) =
    if status == 404 then ok none else err (wrap "json client do" e)

abbrev pub space_of_resource : SpaceResource → Space
space_of_resource r = record { name = r.name; org_guid = r.organization_guid }

abbrev pub only_space : List SpaceResource → Result (Option Space)
only_space [] = ok none
only_space (r ∷ []) = ok (some (space_of_resource r))
only_space (r ∷ s ∷ rest) = err (message "found more than one matching space")

unfoldable pub get_user_space : Result (List SpaceResource) → Result (Option Space)
get_user_space answer = do resources ← wrapping "json client do" answer; only_space resources

unfoldable pub add_spaces : List SpaceResource → List String → List String
add_spaces [] set = set
add_spaces (r ∷ resources) set = add_spaces resources (add_text r.guid set)

unfoldable pub get_user_spaces : Result (List SpaceResource) → Result (List String)
unfolding add_spaces
get_user_spaces answer = do
  resources ← wrapping "json client do" answer
  ok (add_spaces resources [])

-- The answers of the cloud controller to the requests of one call of a handler, and the UAA's token.
pub record Server : Type 0 where
  pub token : Result String
  pub apps : String → List String → Result AppsV3Response
  pub space : String → String → Space ⊎ ClientError
  pub spaces_like : String → String → Space → Result (List SpaceResource)
  pub spaces_of : String → String → Result (List SpaceResource)

-- The client as the handlers' interface ccClient.
unfoldable pub client : (List String → List String) → Server → Clients
client visit server = record {
  get_token = server.token;
  get_app_spaces = λ token guids. get_app_spaces guids (server.apps token guids);
  get_space = λ token guid. get_space (server.space token guid);
  get_space_guids = λ token guids. get_space_guids visit guids (server.apps token guids);
  get_user_space = λ token user space. get_user_space (server.spaces_like token user space);
  get_user_spaces = λ token user. get_user_spaces (server.spaces_of token user);
}
