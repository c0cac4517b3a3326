-- ===== src/Handlers/Visible.antt =====
-- Which policies the filter shows, whatever the chunks of its requests.
use cf_networking_release.Prelude.{
  String, ◌≡◌, refl, ap, ◌∙◌, ℤ, Bool, true, false, ◌&&◌, Option, none, some, List, [], ◌∷◌, All,
  All-imp, Option-cases, inl, inr, ok, arith, contains, contains-append, contains-add_text,
  add_text, concat, keep_if, eq_iff, if◌then◌else◌,
}
use cf_networking_release.Assoc.{lookup, put, lookup-put, IsMap, string_eq}
use cf_networking_release.Chunk.{get_chunks}
use cf_networking_release.Chunk.Laws.{concat-chunk, get_chunks-eq-chunk}
use cf_networking_release.Store.Models.{Policy}
use cf_networking_release.Handlers.{
  TokenResponse, Clients, app_guid_set, unique_app_guids, is_network_admin,
}
use cf_networking_release.Handlers.Filter.{
  put_all, flatten_into, flatten, or_empty_text, space_of, filter, get_spaces_of_chunks,
  filter_policies,
}

abbrev or_else : Option String → Option String → Option String
or_else none other = other
or_else (some v) other = some v

lookup-put_all :
    (g : String) (m ret : List (String × String))
    → IsMap m
    → lookup g (put_all m ret) ≡ or_else (lookup g m) (lookup g ret)
unfolding put_all lookup
lookup-put_all g [] ret h = refl
lookup-put_all g ((k, v) ∷ m) ret h =
    ground (arith, lookup-put_all g m (put k v ret) h.1, lookup-put k g v ret, eq_iff k g, h.0)

-- The cloud controller answers a request for the apps' spaces from a directory of all apps.
abbrev pub AnswersFrom : Clients → String → (String → Option String) → Type 0
AnswersFrom clients token directory =
    (guids : List String)
    → (m : List (String × String)) × (clients.get_app_spaces token guids ≡ ok m)
      × IsMap m
      × ((g : String) → lookup g m ≡ (if contains g guids then directory g else none))

module _ (clients : Clients) (token : String) (directory : String → Option String)
    (answers : AnswersFrom clients token directory) where
  get_spaces_of_chunks-lookup :
      (chunks : List (List String))
      → (list : List (List (String × String))) × (get_spaces_of_chunks clients token chunks
          ≡ ok list)
        × ((g : String) (ret : List (String × String))
            → lookup g (flatten_into list ret) ≡ (
                if contains g (concat chunks)
                then or_else (directory g) (lookup g ret)
                else lookup g ret))
  unfolding get_spaces_of_chunks flatten_into contains
  get_spaces_of_chunks-lookup [] = ([], refl, λ g ret. refl)
  get_spaces_of_chunks-lookup (guids ∷ chunks) =
      let (m, asked, distinct, pointwise) = answers guids in
      let (list, got, found) = get_spaces_of_chunks-lookup chunks in
      (
        m ∷ list,
        ground (arith, asked, got),
        λ g ret. ground (
          arith,
          found g (put_all m ret),
          lookup-put_all g m ret distinct,
          pointwise g,
          contains-append g guids (concat chunks),
        ),
      )

contains-app_guid_set :
    (s : String) (policies : List Policy) (set : List String)
    → contains s set ≡ true
    → contains s (app_guid_set policies set) ≡ true
unfolding app_guid_set
contains-app_guid_set s [] set h = h
contains-app_guid_set s (p ∷ policies) set h = contains-app_guid_set s policies _ (
    ground (
      arith,
      contains-add_text s p.destination.id (add_text p.source.id set),
      contains-add_text s p.source.id set,
    ))

-- Both apps of the policy are in the set.
abbrev pub Within : List String → Policy → Type 0
Within set p = (contains p.source.id set ≡ true) × (contains p.destination.id set ≡ true)

pub app_guid_set-Within :
    (policies : List Policy) (set : List String) → All (Within (app_guid_set policies set)) policies
unfolding app_guid_set
app_guid_set-Within [] set = tt
app_guid_set-Within (p ∷ policies) set = (
  (
    contains-app_guid_set p.source.id policies _ (
        ground (
          arith,
          contains-add_text p.source.id p.destination.id (add_text p.source.id set),
          contains-add_text p.source.id p.source.id set,
          eq_iff p.source.id p.source.id,
        )),
    contains-app_guid_set p.destination.id policies _ (
        ground (
          arith,
          contains-add_text p.destination.id p.destination.id (add_text p.source.id set),
          eq_iff p.destination.id p.destination.id,
        )),
  ),
  app_guid_set-Within policies _,
)

keep_if-eq {ℓ} :
    {A : Type ℓ} (f g : A → Bool) (xs : List A)
    → All (λ x. f x ≡ g x) xs
    → keep_if f xs ≡ keep_if g xs
unfolding keep_if
keep_if-eq f g [] h = refl
keep_if-eq f g (x ∷ xs) (same, h) = rw (same, keep_if-eq f g xs h) refl

-- Both apps of the policy are in spaces of the user.
unfoldable pub sees : (String → Option String) → List String → Policy → Bool
unfolding contains
sees directory user_spaces p =
    contains (or_empty_text (directory p.source.id)) user_spaces
    && contains (or_empty_text (directory p.destination.id)) user_spaces

space_of-flatten :
    (list : List (List (String × String))) (guids : List String)
    (directory : String → Option String) (g : String)
    → lookup g (flatten_into list [])
      ≡ (if contains g guids then or_else (directory g) (lookup g []) else lookup g [])
    → contains g guids ≡ true
    → space_of (flatten list) g ≡ or_empty_text (directory g)
unfolding space_of flatten lookup
space_of-flatten list guids directory g found m = elim (Option-cases (directory g)) [
  | inl outside ↦ ground (arith, found, m, outside)
  | inr (space, there) ↦ ground (arith, found, m, there)
]

-- If the UAA gives a token and the cloud controller answers each request from one directory of the
-- apps, then the filter returns, for a user that is no network admin, exactly the policies whose
-- apps both are in spaces of the user, in order; the chunk size and the order in which the set of
-- apps is visited make no difference.
pub filter_policies-sees :
    (clients : Clients) (visit : List String → List String) (chunk_size : ℤ)
    (policies : List Policy) (user : TokenResponse) (token : String)
    (directory : String → Option String) (user_spaces : List String)
    → contains "network.admin" user.scope ≡ false
    → clients.get_token ≡ ok token
    → AnswersFrom clients token directory
    → clients.get_user_spaces token user.user_id ≡ ok user_spaces
    → ((guid : String) (xs : List String) → contains guid (visit xs) ≡ contains guid xs)
    → filter_policies clients visit chunk_size policies user
      ≡ ok (keep_if (sees directory user_spaces) policies)
unfolding filter_policies is_network_admin filter unique_app_guids
filter_policies-sees clients visit chunk_size policies user token directory user_spaces other given
      answers mine visits =
    let (list, got, found) =
      get_spaces_of_chunks-lookup clients token directory answers
        (get_chunks (visit (app_guid_set policies [])) chunk_size) in
    let all : List String = app_guid_set policies [] in
    let visited : List String = concat (get_chunks (visit all) chunk_size) in
    let whole : (g : String) → contains g visited ≡ contains g (visit all) = λ g.
      ap (λ xs. contains g (concat xs)) (get_chunks-eq-chunk (visit all) chunk_size)
      ∙ ap (contains g) (concat-chunk chunk_size (visit all)).0 in
    let seen : (g : String)
        → contains g all ≡ true
        → space_of (flatten list) g ≡ or_empty_text (directory g) =
      λ g m. space_of-flatten list visited directory g (found g []) (whole g ∙ visits g all ∙ m) in
    ground (
      arith,
      other,
      given,
      got,
      mine,
      keep_if-eq
          (λ p.
            contains (space_of (flatten list) p.source.id) user_spaces
            && contains (space_of (flatten list) p.destination.id) user_spaces)
          (sees directory user_spaces) policies
          (All-imp (Within all) _ policies
            (λ p h. rw (seen p.source.id h.0, seen p.destination.id h.1) (unfold sees in refl))
            (app_guid_set-Within policies [])),
    )
