-- ===== src/Examples/Requests.antt =====
-- Requests of a developer of one space, against a store that keeps a list of policies.
use cf_networking_release.Prelude.{
  String, ◌≡◌, ◌≢◌, refl, ap, eq_iff, pos, Bool, true, false, Option, none, some, List, [], ◌∷◌,
  ◌++◌, external, Result, ok, err, ◌⊎◌, ◌↔◌, ◌||◌, inl, inr, Bool-cases, ◌∙◌, contains, not,
  keep_if, concat, if◌then◌else◌, arith, ◌&&◌,
}
use cf_networking_release.Assoc.{lookup, IsMap, string_eq}
use cf_networking_release.Store.Models.{Policy}
use cf_networking_release.Handlers.{TokenResponse, Space, Clients, DataStore, app_guid_set}
use cf_networking_release.Handlers.Guards.{check_access, check_quota}
use cf_networking_release.Handlers.Filter.{filter_policies}
use cf_networking_release.Handlers.Endpoints.{changed, policies_create, policies_delete}
use cf_networking_release.Handlers.Access.{OwnsSpaces, LocatesApps, check_access_iff}
use cf_networking_release.Handlers.Quota.{InQuota, check_quota_iff}
use cf_networking_release.Handlers.Requests.{
  IsAllowed, IsWritten, policies_create-IsAllowed, policies_delete-IsAllowed,
}
use cf_networking_release.Handlers.Visible.{AnswersFrom, sees, filter_policies-sees}
use cf_networking_release.Cleaner.{ListDeleteStore, get_stale_app_guids, delete_stale_policies}
use cf_networking_release.Cleaner.Laws.{
  KnowsLive, any, is_stale, run_deletes, contains-get_stale_app_guids,
  delete_stale_policies-is_stale,
}

abbrev policy : String → String → Policy
policy source destination = record {
  source = record { id = source; tag = [] };
  destination = record {
    id = destination;
    tag = [];
    protocol = "tcp";
    port = pos 80;
    ports = record { start = pos 80; end = pos 80 };
  };
}

abbrev pub developer : TokenResponse
developer = record { scope = "network.write" ∷ []; user_id = "u1"; user_name = "dev" }

abbrev dev_space : Space
dev_space = record { name = "dev"; org_guid = "o1" }

-- Apps "web" and "db" are in space s1, others nowhere.
abbrev directory : String → Option String
directory guid = if contains guid ("web" ∷ "db" ∷ []) then some "s1" else none

abbrev spaces_of : List String → List (String × String)
spaces_of guids =
    let rest = if contains "db" guids then ("db", "s1") ∷ [] else [] in
    if contains "web" guids then ("web", "s1") ∷ rest else rest

abbrev spaces_for : Bool → List String
spaces_for known = if known then "s1" ∷ [] else []

abbrev pub clients : Clients
clients = record {
  get_token = ok "t";
  get_app_spaces = λ token guids. ok (spaces_of guids);
  get_space = λ token guid. ok (some dev_space);
  get_space_guids = λ token guids. ok (spaces_for (contains "web" guids || contains "db" guids));
  get_user_space = λ token user space. ok (some dev_space);
  get_user_spaces = λ token user. ok ("s1" ∷ []);
}

abbrev pub unordered : List String → List String
unordered guids = guids

abbrev pub list_store : DataStore (List Policy)
list_store = record {
  all = λ s. (ok s, s);
  create = λ policies s. (ok tt, s ++ policies);
  delete = λ policies s. (err (external "locked"), s);
  tags = λ s. (ok [], s);
  by_guids = λ sources destinations both s. (ok s, s);
}

abbrev pub requested : List Policy
requested = policy "web" "db" ∷ []

-- The apps of the directory are "web" and "db", and their space is "s1".
located :
    (app space : String)
    → directory app ≡ some space
    → (("web" ≡ app) ⊎ ("db" ≡ app)) × ("s1" ≡ space)
unfolding contains
located app space here = elim (Bool-cases (contains app ("web" ∷ "db" ∷ []))) [
  | inr away ↦ absurd (ground (arith, here))
  | inl known ↦
      (ground (arith, known, eq_iff "web" app, eq_iff "db" app), ground (arith, here, known))
]

contains-spaces_for :
    (known : Bool) (space : String)
    → (contains space (spaces_for known) ≡ true) ↔ ((known ≡ true) × ("s1" ≡ space))
unfolding contains
contains-spaces_for true space = ground (arith, eq_iff "s1" space)
contains-spaces_for false space = ground arith

contains-same :
    (app name : String) (guids : List String)
    → name ≡ app
    → contains app guids ≡ true
    → contains name guids ≡ true
contains-same app name guids same held = ap (λ k. contains k guids) same ∙ held

clients-LocatesApps : LocatesApps clients directory
unfolding contains
clients-LocatesApps token given guids = (
  spaces_for (contains "web" guids || contains "db" guids),
  refl,
  λ space. (
    λ listed.
        let (known, same) =
          (contains-spaces_for (contains "web" guids || contains "db" guids) space).0 listed in
        elim (Bool-cases (contains "web" guids)) [
          | inl web ↦ ("web", web, ap some same)
          | inr other ↦ ("db", ground (arith, known), ap some same)
        ],
    λ (app, held, here).
        let (which, same) = located app space here in
        (contains-spaces_for (contains "web" guids || contains "db" guids) space).1 (
          elim which [
            | inl web ↦ ground (arith, contains-same app "web" guids web held)
            | inr db ↦ ground (arith, contains-same app "db" guids db held)
          ],
          same,
        ),
  ),
)

check_access_iff_example : (check_access clients unordered requested developer ≡ ok true) ↔ (
    (contains "network.admin" developer.scope ≡ true)
    ⊎ OwnsSpaces clients directory requested developer)
check_access_iff_example =
    check_access_iff clients unordered directory requested developer clients-LocatesApps
      (λ guid xs. refl)

check_quota_iff_example :
    (check_quota list_store (pos 2) unordered requested developer (policy "web" "api" ∷ [])
      ≡ (ok true, policy "web" "api" ∷ []))
    ↔ ((guid : String)
        → contains guid (app_guid_set requested []) ≡ true
        → InQuota (pos 2) (policy "web" "api" ∷ []) requested guid)
check_quota_iff_example =
    check_quota_iff list_store (pos 2) unordered requested (policy "web" "api" ∷ []) developer
      (policy "web" "api" ∷ []) (policy "web" "api" ∷ []) (unfold contains in refl)
      (λ guid xs. refl) refl

-- A body is the list of policies itself.
abbrev pub decoded : List Policy → Result (List Policy)
decoded policies = ok policies

policies_create-IsAllowed_example :
    ((policies : List Policy) × (u : List Policy) × IsAllowed list_store clients unordered decoded
        decoded []
        (ok requested)
        developer
        policies
      × (check_quota list_store (pos 2) unordered policies developer [] ≡ (ok true, u))
      × (policies_create list_store clients unordered decoded decoded []
            (pos 2)
            (ok requested)
            developer
            []
          ≡ changed [] "database create failed" (list_store.create policies u)))
    ⊎ (((policies u : List Policy)
          → IsAllowed list_store clients unordered decoded decoded []
              (ok requested)
              developer
              policies
          → check_quota list_store (pos 2) unordered policies developer [] ≢ (ok true, u))
        × ¬ IsWritten
            (policies_create list_store clients unordered decoded decoded []
              (pos 2)
              (ok requested)
              developer
              []).0
        × ((other : List Policy → List Policy → Result (Unit {0}) × List Policy)
            → policies_create
                (record list_store { create = other })
                clients
                unordered
                decoded
                decoded
                []
                (pos 2)
                (ok requested)
                developer
                []
              ≡ policies_create list_store clients unordered decoded decoded []
                  (pos 2)
                  (ok requested)
                  developer
                  []))
policies_create-IsAllowed_example =
    policies_create-IsAllowed list_store clients unordered decoded decoded [] (pos 2) (ok requested)
      developer []

policies_delete-IsAllowed_example :
    ((policies : List Policy) × IsAllowed list_store clients unordered decoded decoded []
        (ok requested)
        developer
        policies
      × (policies_delete list_store clients unordered decoded decoded []
            (ok requested)
            developer
            requested
          ≡ changed [] "database delete failed" (list_store.delete policies requested)))
    ⊎ (((policies : List Policy)
          → ¬ IsAllowed list_store clients unordered decoded decoded []
              (ok requested)
              developer
              policies)
        × ¬ IsWritten
            (policies_delete list_store clients unordered decoded decoded []
              (ok requested)
              developer
              requested).0
        × ((policies_delete list_store clients unordered decoded decoded []
              (ok requested)
              developer
              requested).1
            ≡ requested)
        × ((other : List Policy → List Policy → Result (Unit {0}) × List Policy)
            → policies_delete
                (record list_store { delete = other })
                clients
                unordered
                decoded
                decoded
                []
                (ok requested)
                developer
                requested
              ≡ policies_delete list_store clients unordered decoded decoded []
                  (ok requested)
                  developer
                  requested))
policies_delete-IsAllowed_example =
    policies_delete-IsAllowed list_store clients unordered decoded decoded [] (ok requested)
      developer requested

clients-AnswersFrom : AnswersFrom clients "t" directory
unfolding contains lookup
clients-AnswersFrom guids = (
  spaces_of guids,
  refl,
  distinct (contains "web" guids) (contains "db" guids),
  λ g.
      let same_web : "web" ≡ g → contains "web" guids ≡ contains g guids =
        ap (λ k. contains k guids) in
      let same_db : "db" ≡ g → contains "db" guids ≡ contains g guids =
        ap (λ k. contains k guids) in
      ground (arith, eq_iff "web" g, eq_iff "db" g, same_web, same_db),
)
  where
    distinct :
        (web db : Bool)
        → IsMap {K = String} {V = String} (
            let rest = if db then ("db", "s1") ∷ [] else [] in
            if web then ("web", "s1") ∷ rest else rest)
    distinct true true = (refl, (refl, tt))
    distinct true false = (refl, tt)
    distinct false true = (refl, tt)
    distinct false false = tt

filter_policies-sees_example :
    filter_policies clients unordered
      (pos 1)
      (policy "web" "db" ∷ policy "web" "api" ∷ [])
      developer
    ≡ ok (keep_if (sees directory ("s1" ∷ [])) (policy "web" "db" ∷ policy "web" "api" ∷ []))
filter_policies-sees_example =
    filter_policies-sees clients unordered (pos 1) (policy "web" "db" ∷ policy "web" "api" ∷ [])
      developer "t" directory ("s1" ∷ []) (unfold contains in refl) refl clients-AnswersFrom refl
      (λ guid xs. refl)

-- Every deletion is recorded.
abbrev recorder : ListDeleteStore (List (List Policy))
recorder = record {
  all = λ s. (ok (policy "web" "db" ∷ policy "gone" "db" ∷ []), s);
  delete = λ policies s. (ok tt, s ++ policies ∷ []);
}

abbrev is_live : String → Bool
is_live guid = not (contains guid ("gone" ∷ []))

live_among : String → List String → Result (List String)
live_among token guids = ok (get_stale_app_guids ("gone" ∷ []) guids)

live_among-KnowsLive : KnowsLive live_among "t" is_live
unfolding live_among
live_among-KnowsLive guids = (
  get_stale_app_guids ("gone" ∷ []) guids,
  refl,
  λ g. contains-get_stale_app_guids g ("gone" ∷ []) guids,
)

delete_stale_policies-is_stale_example :
    (lists : List (List Policy)) × (delete_stale_policies recorder live_among
        (ok "t")
        unordered
        (pos 1)
        []
      ≡ (ok (concat lists), run_deletes recorder lists []))
    × ((t : Policy → Bool)
        → any t (concat lists)
          ≡ any (λ p. t p && is_stale is_live p) (policy "web" "db" ∷ policy "gone" "db" ∷ []))
delete_stale_policies-is_stale_example =
    delete_stale_policies-is_stale recorder (ok "t") live_among "t" is_live unordered (pos 1)
      (policy "web" "db" ∷ policy "gone" "db" ∷ []) [] [] refl refl live_among-KnowsLive
      (λ deleted r. refl) (λ guid xs. refl)
