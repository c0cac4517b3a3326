-- ===== src/CloudController/Paging.antt =====
-- The paging loop of GetAllAppGUIDs (client.go).
use cf_networking_release.Prelude.{
  ℕ, zero, suc, ◌≤◌, String, Bytes, ◌≡◌, refl, ◌∙◌, Bool, false, ◌||◌, Option, none, some, List, [],
  ◌∷◌, Error, Result, ok, err, wrap, contains, contains-add_text, add_text, length, arith, str_eq,
}
use cf_networking_release.CloudController.{
  App, AppsV3Response, Listing, failed, listed, query_of, add_guids, make_apps_v3_request,
  read_pages, get_all_app_guids,
}

-- Some app has the guid.
abbrev pub has_app : String → List App → Bool
has_app guid [] = false
has_app guid (app ∷ apps) = str_eq app.guid guid || has_app guid apps

abbrev pub on_a_page : String → List AppsV3Response → Bool
on_a_page guid [] = false
on_a_page guid (r ∷ pages) = has_app guid r.resources || on_a_page guid pages

contains-add_guids :
    (guid : String) (apps : List App) (set : List String)
    → contains guid (add_guids apps set) ≡ (contains guid set || has_app guid apps)
unfolding add_guids
contains-add_guids guid [] set = ground arith
contains-add_guids guid (app ∷ apps) set =
    contains-add_guids guid apps (add_text app.guid set)
    ∙ ground (arith, contains-add_text guid app.guid set)

module _ {World : Type 0} (get_apps : Bytes → World → Result AppsV3Response × World) where
  -- What the cloud controller answers to the requests from a link on, up to the page whose link to
  -- the next one is empty, or to the first error.
  pub data Pages : Bytes → World → List AppsV3Response → Option Error → World → Type 0 where
    no_link : (w : World) → Pages [] w [] none w
    page :
        {c : ℕ} {link : Bytes} {w between last : World} {query : Bytes} {r : AppsV3Response}
        {pages : List AppsV3Response} {e : Option Error}
        → query_of (c ∷ link) ≡ some query
        → get_apps query w ≡ (ok r, between)
        → Pages r.next_href between pages e last
        → Pages (c ∷ link) w (r ∷ pages) e last
    refused :
        {c : ℕ} {link : Bytes} {w last : World} {query : Bytes} {e : Error}
        → query_of (c ∷ link) ≡ some query
        → get_apps query w ≡ (err e, last)
        → Pages (c ∷ link) w [] (some e) last

  -- What a loop over the pages comes to.
  abbrev pub ListsPages : List AppsV3Response → Option Error → List String → Listing → Type 0
  ListsPages pages none set result =
      (guids : List String) × (result ≡ listed guids)
      × ((guid : String) → contains guid guids ≡ (contains guid set || on_a_page guid pages))
  ListsPages pages (some e) set result = result ≡ failed (wrap "json client do" e)

  ListsPages-cons :
      (r : AppsV3Response) (pages : List AppsV3Response) (e : Option Error) (set : List String)
      (result : Listing)
      → ListsPages pages e (add_guids r.resources set) result
      → ListsPages (r ∷ pages) e set result
  ListsPages-cons r pages (some e) set result h = h
  ListsPages-cons r pages none set result (guids, same, members) =
      (guids, same, λ guid. ground (arith, members guid, contains-add_guids guid r.resources set))

  read_pages_round :
      (c : ℕ) (link : Bytes) {query : Bytes} {w between : World} {r : AppsV3Response} (fuel : ℕ)
      (set : List String)
      → query_of (c ∷ link) ≡ some query
      → get_apps query w ≡ (ok r, between)
      → read_pages get_apps (suc fuel) (c ∷ link) set w
        ≡ read_pages get_apps fuel r.next_href (add_guids r.resources set) between
  unfolding read_pages make_apps_v3_request
  read_pages_round c link fuel set q called = rw (q, called) refl

  read_pages-ListsPages :
      {link : Bytes} {w last : World} {pages : List AppsV3Response} {e : Option Error} (fuel : ℕ)
      (set : List String)
      → Pages link w pages e last
      → length pages ≤ fuel
      → (result : Listing) × (read_pages get_apps (suc fuel) link set w ≡ (result, last))
        × ListsPages pages e set result
  unfolding read_pages make_apps_v3_request
  read_pages-ListsPages fuel set (no_link w) enough =
      (listed set, refl, (set, refl, λ guid. ground arith))
  read_pages-ListsPages fuel set (refused q called) enough =
      (failed (wrap "json client do" _), rw (q, called) refl, refl)
  read_pages-ListsPages zero set (page q called rest) enough = absurd (omega (arith, enough))
  read_pages-ListsPages (suc fuel) set (page {r = r} {pages = pages} {e = e} q called rest) enough =
      let (result, ran, lists) =
        read_pages-ListsPages fuel (add_guids r.resources set) rest (omega (arith, enough)) in
      (
        result,
        read_pages_round _ _ (suc fuel) set q called ∙ ran,
        ListsPages-cons r pages e set result lists,
      )

  -- Where the links of the cloud controller's pages come to an end, or some request fails: the loop
  -- terminates, with fuel for one round more than there are pages; it fails with the error of the
  -- request that failed, or lists exactly the guids of the apps on all the pages.
  pub get_all_app_guids-ListsPages :
      {w last : World} {pages : List AppsV3Response} {e : Option Error} (fuel : ℕ)
      → Pages (b'?' ∷ []) w pages e last
      → length pages ≤ fuel
      → (result : Listing) × (get_all_app_guids get_apps (suc fuel) w ≡ (result, last))
        × ListsPages pages e [] result
  unfolding get_all_app_guids
  get_all_app_guids-ListsPages fuel run enough = read_pages-ListsPages fuel [] run enough
