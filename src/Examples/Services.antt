-- ===== src/Examples/Services.antt =====
-- A cloud controller with two pages of apps, a policy server that takes one request, and a discovery
-- controller that is not warm at first.
use cf_networking_release.Prelude.{
  ℕ, zero, suc, ◌-◌, String, Bytes, ◌≡◌, All, map, refl, pos, Option, none, some, List, [], ◌∷◌,
  codes, ◌⊎◌, inl, inr, Error, Result, ok, message, arith, bytes_eq, if◌then◌else◌,
}
use cf_networking_release.Assoc.{string_eq}
use cf_networking_release.Chunk.{get_chunk_size}
use cf_networking_release.Chunk.Laws.{Fits}
use cf_networking_release.CloudController.{
  App, AppsV3Response, Listing, ClientError, other_error, split, query_of, get_all_app_guids,
}
use cf_networking_release.CloudController.Paging.{
  Pages, page, no_link, ListsPages, get_all_app_guids-ListsPages,
}
use cf_networking_release.PolicyClient.{Request, add_policies_v0, delete_policies_v0}
use cf_networking_release.PolicyClient.Chunks.{SendsChunks, add_and_delete_policies_v0-SendsChunks}
use cf_networking_release.DnsAdapter.{
  Answer, Reply, replied, serve, response, error_response, success,
}
use cf_networking_release.DnsAdapter.Resolution.{
  no_try, failed_try, count, serve-available, serve-Unavailable,
}

abbrev web : App
web = record { guid = "web"; space_href = "/v3/spaces/dev" }

abbrev db : App
db = record { guid = "db"; space_href = "/v3/spaces/prod" }

abbrev first_page : AppsV3Response
first_page = record {
  total_pages = pos 2;
  next_href = codes "/v3/apps?page=2";
  resources = web ∷ [];
}

abbrev second_page : AppsV3Response
second_page = record { total_pages = pos 2; next_href = []; resources = db ∷ [] }

-- The world counts the requests.
abbrev get_apps : Bytes → ℕ → Result AppsV3Response × ℕ
get_apps query w = (ok (if bytes_eq query [] then first_page else second_page), suc w)

both_read-Pages : Pages get_apps (codes "?") 0 (first_page ∷ second_page ∷ []) none 2
unfolding query_of split
both_read-Pages = page refl refl (page refl refl (no_link 2))

get_all_app_guids-ListsPages_example :
    (result : Listing) × (get_all_app_guids get_apps 3 0 ≡ (result, 2))
    × ListsPages get_apps (first_page ∷ second_page ∷ []) none [] result
get_all_app_guids-ListsPages_example =
    get_all_app_guids-ListsPages get_apps 2 both_read-Pages (omega arith)

abbrev one_page : AppsV3Response
one_page = record { total_pages = pos 1; next_href = []; resources = web ∷ db ∷ [] }

abbrev asked : List String
asked = "web" ∷ "db" ∷ []

-- Policies are texts; the server takes one request and then fails.
abbrev policy_server : Request String → ℕ → (List String ⊎ ClientError) × ℕ
policy_server request zero = (inr (other_error (message "connection refused")), zero)
policy_server request (suc left) = (inl [], left)

abbrev status_text : ℕ → String
status_text status = "status"

add_and_delete_policies_v0-SendsChunks_example :
    SendsChunks status_text policy_server "/networking/v0/external/policies" "token"
      (Fits (get_chunk_size (pos 2)))
      ("a" ∷ "b" ∷ "c" ∷ [])
      1
      (add_policies_v0 status_text policy_server (pos 2) "token" ("a" ∷ "b" ∷ "c" ∷ []) 1)
    × SendsChunks status_text policy_server "/networking/v0/external/policies/delete" "token"
        (Fits (get_chunk_size (pos 2)))
        ("a" ∷ "b" ∷ "c" ∷ [])
        1
        (delete_policies_v0 status_text policy_server (pos 2) "token" ("a" ∷ "b" ∷ "c" ∷ []) 1)
add_and_delete_policies_v0-SendsChunks_example =
    add_and_delete_policies_v0-SendsChunks status_text policy_server (pos 2) "token"
      ("a" ∷ "b" ∷ "c" ∷ []) 1

-- The world says how many replies come before the table is warm; a body is its hosts.
abbrev get_hosts : String → ℕ → Reply (List String) × ℕ
get_hosts name zero = (replied 200 ("10.255.1.2" ∷ "10.255.1.3" ∷ []), zero)
get_hosts name (suc cold) = (replied 500 [], cold)

abbrev decode : List String → Result (Option (List String))
decode hosts = ok (some hosts)

abbrev rand : ℕ → ℕ
rand n = n - 1

serve-available_example :
    (answers : List Answer) × (serve get_hosts decode rand "1" "app.apps.internal" 1
      ≡ (response 200 success "app.apps.internal" "1" answers, 0))
    × All (λ a. (a.name ≡ "app.apps.internal") × (a.rr_type ≡ 1) × (a.ttl ≡ 0)) answers
    × ((ip : String)
        → count ip (map (λ a. a.data_text) answers) ≡ count ip ("10.255.1.2" ∷ "10.255.1.3" ∷ []))
serve-available_example =
    serve-available get_hosts decode "app.apps.internal" rand {k = 1}
      ("10.255.1.2" ∷ "10.255.1.3" ∷ []) ("10.255.1.2" ∷ "10.255.1.3" ∷ []) (λ k. omega arith) refl
      (failed_try refl refl (no_try 0)) (omega arith) refl refl

serve-Unavailable_example :
    (e : Error) × (serve get_hosts decode rand "1" "app.apps.internal" 4 ≡ (error_response e, 0))
serve-Unavailable_example = serve-Unavailable get_hosts decode "app.apps.internal" rand refl (
    failed_try refl refl
      (failed_try refl refl (failed_try refl refl (failed_try refl refl (no_try 0)))))
