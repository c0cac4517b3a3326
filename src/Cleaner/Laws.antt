-- ===== src/Cleaner/Laws.antt =====
-- Which policies the cleaner deletes.
use cf_networking_release.Prelude.{
  String, ◌≡◌, refl, ap, ◌∙◌, sym, ℤ, Bool, false, ◌||◌, ◌&&◌, not, List, [], ◌∷◌, ◌++◌, All,
  All-imp, Result, ok, arith, contains, concat, keep_if, contains-append, eq_iff,
}
use mathlib.Core.List.{append-nil, append_assoc}
use cf_networking_release.Chunk.{get_chunks}
use cf_networking_release.Chunk.Laws.{concat-chunk, get_chunks-eq-chunk}
use cf_networking_release.Store.Models.{Policy}
use cf_networking_release.Handlers
use cf_networking_release.Handlers.Visible.{Within, app_guid_set-Within}
use cf_networking_release.Cleaner.{
  ListDeleteStore, get_stale_app_guids, get_stale_policies, app_guid_set, policy_app_guids,
  delete_chunks, delete_stale_policies,
}

pub contains-get_stale_app_guids :
    (s : String) (live guids : List String)
    → contains s (get_stale_app_guids live guids) ≡ (contains s guids && not (contains s live))
unfolding get_stale_app_guids keep_if contains
contains-get_stale_app_guids s live [] = refl
contains-get_stale_app_guids s live (g ∷ guids) = ground (
  arith,
  contains-get_stale_app_guids s live guids,
  eq_iff g s,
  λ (e : g ≡ s). ap (λ k. contains k live) e,
)

-- Some policy passes the test.
unfoldable pub any : (Policy → Bool) → List Policy → Bool
any t [] = false
any t (p ∷ policies) = t p || any t policies

any-append : (t : Policy → Bool) (xs ys : List Policy) → any t (xs ++ ys) ≡ (any t xs || any t ys)
unfolding any
any-append t [] ys = refl
any-append t (p ∷ xs) ys = ground (arith, any-append t xs ys)

any-keep_if :
    (t f : Policy → Bool) (xs : List Policy) → any t (keep_if f xs) ≡ any (λ p. t p && f p) xs
unfolding any keep_if
any-keep_if t f [] = refl
any-keep_if t f (p ∷ xs) = ground (arith, any-keep_if t f xs)

any-or :
    (f g : Policy → Bool) (xs : List Policy) → any (λ p. f p || g p) xs ≡ (any f xs || any g xs)
unfolding any
any-or f g [] = refl
any-or f g (p ∷ xs) = ground (arith, any-or f g xs)

any-eq : (f g : Policy → Bool) (xs : List Policy) → All (λ p. f p ≡ g p) xs → any f xs ≡ any g xs
unfolding any
any-eq f g [] h = refl
any-eq f g (p ∷ xs) (same, h) = ground (arith, same, any-eq f g xs h)

All-every {κ} : (P : Policy → Type κ) (xs : List Policy) → ((p : Policy) → P p) → All P xs
All-every P [] f = tt
All-every P (x ∷ xs) f = (f x, All-every P xs f)

-- The app is of the chunk, and gone.
abbrev dead_in : (String → Bool) → List String → String → Bool
dead_in live guids s = contains s guids && not (live s)

-- The policy starts or ends at an app of the chunk that is gone.
abbrev touches : (String → Bool) → List String → Policy → Bool
touches live guids p = dead_in live guids p.source.id || dead_in live guids p.destination.id

-- The policy starts or ends at an app that is gone.
abbrev pub is_stale : (String → Bool) → Policy → Bool
is_stale live p = not (live p.source.id) || not (live p.destination.id)

-- The cloud controller names those of the apps asked for that are live.
abbrev pub KnowsLive :
    (String → List String → Result (List String)) → String → (String → Bool) → Type 0
KnowsLive get_live_app_guids token live =
    (guids : List String)
    → (found : List String) × (get_live_app_guids token guids ≡ ok found)
      × ((g : String) → contains g found ≡ (contains g guids && live g))

-- The states that consecutive deletions lead through, to the last.
unfoldable pub run_deletes : {S : Type 0} → ListDeleteStore S → List (List Policy) → S → S
run_deletes store [] s = s
run_deletes store (policies ∷ lists) s = run_deletes store lists (store.delete policies s).1

get_stale_policies-touches :
    (live : String → Bool) (found guids : List String) (policies : List Policy) (t : Policy → Bool)
    → ((g : String) → contains g found ≡ (contains g guids && live g))
    → any t (get_stale_policies policies (get_stale_app_guids found guids))
      ≡ any (λ p. t p && touches live guids p) policies
unfolding get_stale_policies
get_stale_policies-touches live found guids policies t known =
    any-keep_if t _ policies
    ∙ any-eq _ _ policies (
        All-every _ policies (λ p. ground (
          arith,
          contains-get_stale_app_guids p.source.id found guids,
          contains-get_stale_app_guids p.destination.id found guids,
          known p.source.id,
          known p.destination.id,
        )))

touches-append :
    (live : String → Bool) (xs ys : List String) (policies : List Policy) (t : Policy → Bool)
    → any (λ p. t p && touches live (xs ++ ys) p) policies ≡ (
        any (λ p. t p && touches live xs p) policies
        || any (λ p. t p && touches live ys p) policies)
touches-append live xs ys policies t =
    any-eq _ _ policies (
      All-every _ policies (λ p.
        ground (arith, contains-append p.source.id xs ys, contains-append p.destination.id xs ys)))
    ∙ any-or _ _ policies

any-none : (t : Policy → Bool) (xs : List Policy) → any (λ p. t p && false) xs ≡ false
unfolding any
any-none t [] = refl
any-none t (p ∷ xs) = ground (arith, any-none t xs)

module _ {S : Type 0} (store : ListDeleteStore S)
    (get_live_app_guids : String → List String → Result (List String)) (token : String)
    (live : String → Bool) (knows : KnowsLive get_live_app_guids token live)
    (deletes : (policies : List Policy) (s : S) → (store.delete policies s).0 ≡ ok tt) where
  delete_chunks-touches :
      (policies : List Policy) (chunks : List (List String)) (stale : List Policy) (s : S)
      → (lists : List (List Policy)) × (delete_chunks store get_live_app_guids token policies chunks
            stale s
          ≡ (ok (stale ++ concat lists), run_deletes store lists s))
        × ((t : Policy → Bool)
            → any t (concat lists) ≡ any (λ p. t p && touches live (concat chunks) p) policies)
  unfolding delete_chunks run_deletes any
  delete_chunks-touches policies [] stale s =
      ([], ap (λ l. (ok l, s)) (sym (append-nil stale)), λ t. sym (any-none t policies))
  delete_chunks-touches policies (chunk ∷ chunks) stale s =
      let (found, asked, known) = knows chunk in
      let to_delete = get_stale_policies policies (get_stale_app_guids found chunk) in
      let (lists, ran, which) =
        delete_chunks-touches policies chunks (stale ++ to_delete) (store.delete to_delete s).1 in
      (
        to_delete ∷ lists,
        rw (asked, deletes to_delete s)
            (ran
              ∙ ap (λ l. (ok l, run_deletes store lists (store.delete to_delete s).1))
                  (append_assoc stale to_delete (concat lists))),
        λ t.
            any-append t to_delete (concat lists)
            ∙ rw
                (
                  get_stale_policies-touches live found chunk policies t known,
                  which t,
                  touches-append live chunk (concat chunks) policies t,
                )
                refl,
      )

same_app_guid_set :
    (policies : List Policy) (set : List String)
    → app_guid_set policies set ≡ Handlers.app_guid_set policies set
unfolding app_guid_set Handlers.app_guid_set
same_app_guid_set [] set = refl
same_app_guid_set (p ∷ policies) set = same_app_guid_set policies _

visited-is_stale :
    (live : String → Bool) (visit : List String → List String) (policies : List Policy)
    (t : Policy → Bool)
    → ((guid : String) (xs : List String) → contains guid (visit xs) ≡ contains guid xs)
    → any (λ p. t p && touches live (policy_app_guids visit policies) p) policies
      ≡ any (λ p. t p && is_stale live p) policies
unfolding policy_app_guids
visited-is_stale live visit policies t visits = any-eq _ _ policies (
    All-imp (Within (Handlers.app_guid_set policies [])) _ policies
      (λ p h. ground (
        arith,
        visits p.source.id (app_guid_set policies []),
        visits p.destination.id (app_guid_set policies []),
        ap (contains p.source.id) (same_app_guid_set policies []),
        ap (contains p.destination.id) (same_app_guid_set policies []),
        h.0,
        h.1,
      ))
      (app_guid_set-Within policies []))

-- If the store lists its policies and deletes what it is told to, the UAA gives a token and the cloud
-- controller names the live apps of each request, then DeleteStalePolicies succeeds: its deletions
-- are those of the returned policies, in order, and the returned policies are, each at least once,
-- exactly the stored ones that start or end at an app that is gone, whatever the chunk size.
pub delete_stale_policies-is_stale :
    {S : Type 0} (store : ListDeleteStore S) (get_token : Result String)
    (get_live_app_guids : String → List String → Result (List String)) (token : String)
    (live : String → Bool) (visit : List String → List String) (chunk_size : ℤ)
    (policies : List Policy) (s s' : S)
    → store.all s ≡ (ok policies, s')
    → get_token ≡ ok token
    → KnowsLive get_live_app_guids token live
    → ((deleted : List Policy) (r : S) → (store.delete deleted r).0 ≡ ok tt)
    → ((guid : String) (xs : List String) → contains guid (visit xs) ≡ contains guid xs)
    → (lists : List (List Policy)) × (delete_stale_policies store get_live_app_guids get_token visit
          chunk_size s
        ≡ (ok (concat lists), run_deletes store lists s'))
      × ((t : Policy → Bool) → any t (concat lists) ≡ any (λ p. t p && is_stale live p) policies)
unfolding delete_stale_policies
delete_stale_policies-is_stale store get_token get_live token live visit chunk_size policies s s'
      listed given knows deletes visits =
    let guids = policy_app_guids visit policies in
    let (lists, ran, which) =
      delete_chunks-touches store get_live token live knows deletes policies
        (get_chunks guids chunk_size) [] s' in
    let whole : concat (get_chunks guids chunk_size) ≡ guids =
      ap concat (get_chunks-eq-chunk guids chunk_size) ∙ (concat-chunk chunk_size guids).0 in
    (
      lists,
      rw (listed, given) ran,
      λ t.
          which t
          ∙ ap (λ l. any (λ p. t p && touches live l p) policies) whole
          ∙ visited-is_stale live visit policies t visits,
    )
