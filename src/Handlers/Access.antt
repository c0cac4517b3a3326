-- ===== src/Handlers/Access.antt =====
-- Whom the policy guard lets through, and which scopes the authentication lets through.
use cf_networking_release.Prelude.{
  String, ◌≡◌, ◌↔◌, refl, sym, ◌∙◌, Bool, true, false, ◌&&◌, ◌||◌, not, Option, some, str_eq,
  add_text, contains-add_text, All-contains, List, [], ◌∷◌, All, ok, arith, inl, inr, ◌⊎◌,
  Result-cases, Option-cases, Bool-cases, contains, Bytes, eq_refl, eq_iff, ap,
}
use cf_networking_release.Store.Models.{Policy}
use cf_networking_release.Handlers.{
  TokenResponse, Clients, Space, unique_app_guids, app_guid_set, is_network_admin,
}
use cf_networking_release.Handlers.Guards.{check_spaces, check_access}
use cf_networking_release.Handlers.Endpoints.{Response}
use cf_networking_release.Handlers.Auth.{Authenticator, is_authorized, wrap_handler, token_of}

-- The space is known, and the user is among its developers.
abbrev pub HasSpace : Clients → String → String → String → Type 0
HasSpace clients token user_id guid =
    (space : Space) × (clients.get_space token guid ≡ ok (some space))
    × (own : Space) × (clients.get_user_space token user_id space ≡ ok (some own))

check_spaces-HasSpace :
    (clients : Clients) (token user_id : String) (guids : List String)
    → check_spaces clients token user_id guids ≡ ok true
    → All (HasSpace clients token user_id) guids
unfolding check_spaces
check_spaces-HasSpace clients token user_id [] h = tt
check_spaces-HasSpace clients token user_id (guid ∷ guids) h =
    elim (Result-cases (clients.get_space token guid)) [
      | inr (e, failed) ↦ absurd (ground arith)
      | inl (found, asked) ↦ elim (Option-cases found) [
        | inl missing ↦ absurd (ground arith)
        | inr (space, here) ↦ elim (Result-cases (clients.get_user_space token user_id space)) [
          | inr (e, failed) ↦ absurd (ground arith)
          | inl (own_found, own_asked) ↦ elim (Option-cases own_found) [
            | inl missing ↦ absurd (ground arith)
            | inr (own, own_here) ↦ (
              (space, ground arith, own, ground arith),
              check_spaces-HasSpace clients token user_id guids (ground arith),
            )
          ]
        ]
      ]
    ]

HasSpace-check_spaces :
    (clients : Clients) (token user_id : String) (guids : List String)
    → All (HasSpace clients token user_id) guids
    → check_spaces clients token user_id guids ≡ ok true
unfolding check_spaces
HasSpace-check_spaces clients token user_id [] h = refl
HasSpace-check_spaces clients token user_id (guid ∷ guids) ((space, s, own, o), h) =
    ground (arith, s, o, HasSpace-check_spaces clients token user_id guids h)

-- The app is the source or the destination of some policy.
abbrev pub is_app : String → List Policy → Bool
is_app app [] = false
is_app app (p ∷ policies) =
    str_eq p.source.id app || str_eq p.destination.id app || is_app app policies

contains-app_guid_set :
    (app : String) (policies : List Policy) (set : List String)
    → contains app (app_guid_set policies set) ≡ (contains app set || is_app app policies)
unfolding app_guid_set
contains-app_guid_set app [] set = ground arith
contains-app_guid_set app (p ∷ policies) set =
    contains-app_guid_set app policies (add_text p.destination.id (add_text p.source.id set))
    ∙ ground (
      arith,
      contains-add_text app p.destination.id (add_text p.source.id set),
      contains-add_text app p.source.id set,
    )

contains-unique_app_guids :
    (visit : List String → List String) (policies : List Policy) (app : String)
    → ((guid : String) (xs : List String) → contains guid (visit xs) ≡ contains guid xs)
    → contains app (unique_app_guids visit policies) ≡ is_app app policies
unfolding unique_app_guids contains
contains-unique_app_guids visit policies app visits =
    visits app (app_guid_set policies []) ∙ contains-app_guid_set app policies []

-- The cloud controller answers a request for the spaces of apps from a directory of all apps.
abbrev pub LocatesApps : Clients → (String → Option String) → Type 0
LocatesApps clients directory =
    (token : String)
    → clients.get_token ≡ ok token
    → (guids : List String)
    → (spaces : List String) × (clients.get_space_guids token guids ≡ ok spaces)
      × ((space : String)
          → (contains space spaces ≡ true)
            ↔ ((app : String) × (contains app guids ≡ true) × (directory app ≡ some space)))

-- The guard has a token, and the user is a developer of the space of every app of the policies that
-- is in a space.
abbrev pub OwnsSpaces : Clients → (String → Option String) → List Policy → TokenResponse → Type 0
OwnsSpaces clients directory policies user =
    (token : String) × (clients.get_token ≡ ok token)
    × ((app space : String)
        → is_app app policies ≡ true
        → directory app ≡ some space
        → HasSpace clients token user.user_id space)

-- Where the cloud controller knows the spaces of apps from a directory, and the range over a set has
-- any order: the policy guard lets a request pass exactly if the user is a network admin, or if the
-- guard gets a token and the user is a developer of the space of each source and each destination of
-- the policies that is in a space.
pub check_access_iff :
    (clients : Clients) (visit : List String → List String) (directory : String → Option String)
    (policies : List Policy) (user : TokenResponse)
    → LocatesApps clients directory
    → ((guid : String) (xs : List String) → contains guid (visit xs) ≡ contains guid xs)
    → (check_access clients visit policies user ≡ ok true)
      ↔ ((contains "network.admin" user.scope ≡ true) ⊎ OwnsSpaces clients directory policies user)
unfolding check_access is_network_admin
check_access_iff clients visit directory policies user locates visits = (to, from)
  where
    asked : List String
    asked = unique_app_guids visit policies

    asked-is_app : (app : String) → contains app asked ≡ is_app app policies
    asked-is_app app = contains-unique_app_guids visit policies app visits

    to :
        check_access clients visit policies user ≡ ok true
        → (contains "network.admin" user.scope ≡ true) ⊎ OwnsSpaces clients directory policies user
    to h = elim (Bool-cases (contains "network.admin" user.scope)) [
      | inl admin ↦ inl admin
      | inr other ↦ elim (Result-cases clients.get_token) [
        | inr (e, failed) ↦ absurd (ground arith)
        | inl (token, given) ↦
            let (spaces, answered, located) = locates token given asked in
            let all_own = check_spaces-HasSpace clients token user.user_id spaces (ground arith) in
            inr (
              token,
              given,
              λ app space held here.
                  (All-contains (HasSpace clients token user.user_id) spaces).0 all_own space
                    ((located space).1 (app, asked-is_app app ∙ held, here)),
            )
      ]
    ]

    from :
        (contains "network.admin" user.scope ≡ true) ⊎ OwnsSpaces clients directory policies user
        → check_access clients visit policies user ≡ ok true
    from (inl admin) = rw admin
    from (inr (token, given, own)) =
        let (spaces, answered, located) = locates token given asked in
        let all_own : All (HasSpace clients token user.user_id) spaces =
          (All-contains (HasSpace clients token user.user_id) spaces).1 λ space member.
            let (app, held, here) = (located space).0 member in
            own app space (sym (asked-is_app app) ∙ held) here in
        ground
          (arith, given, answered, HasSpace-check_spaces clients token user.user_id spaces all_own)

-- A scope that both lists hold.
abbrev pub Shared : List String → List String → Type 0
Shared scopes allowed =
    (scope : String) × (contains scope scopes ≡ true) × (contains scope allowed ≡ true)

is_authorized-Shared :
    (scopes allowed : List String) → is_authorized scopes allowed ≡ true → Shared scopes allowed
unfolding is_authorized contains
is_authorized-Shared [] allowed h = cc
is_authorized-Shared (scope ∷ scopes) allowed h = elim (Bool-cases (contains scope allowed)) [
  | inl here ↦ (scope, rw eq_refl, here)
  | inr away ↦
      let (other, held, shared) = is_authorized-Shared scopes allowed (ground arith) in
      (other, ground (arith, held), shared)
]

Shared-is_authorized :
    (scopes allowed : List String) → Shared scopes allowed → is_authorized scopes allowed ≡ true
unfolding is_authorized contains
Shared-is_authorized [] allowed (scope, held, shared) = cc
Shared-is_authorized (x ∷ scopes) allowed (scope, held, shared) =
    elim (Bool-cases (contains x allowed)) [
      | inl here ↦ rw here
      | inr away ↦ ground (
        arith,
        eq_iff x scope,
        ap (λ k. contains k allowed),
        λ (h : contains scope scopes ≡ true).
            Shared-is_authorized scopes allowed (scope, h, shared),
      )
    ]

-- The header holds a token that the UAA knows, and its scopes include an allowed one where that is
-- checked.
abbrev pub IsAdmitted : Authenticator → List Bytes → TokenResponse → Type 0
IsAdmitted a [] token_data = ⊥
IsAdmitted a (header ∷ rest) token_data =
    (a.check_token (token_of header) ≡ ok token_data)
    × ((a.scope_checking ≡ false) ⊎ Shared token_data.scope a.scopes)

not-IsAdmitted :
    (a : Authenticator) (header : Bytes) (rest : List Bytes) (d other : TokenResponse)
    → a.check_token (token_of header) ≡ ok d
    → (a.scope_checking && not (is_authorized d.scope a.scopes)) ≡ true
    → ¬ IsAdmitted a (header ∷ rest) other
not-IsAdmitted a header rest d other known out (again, inl unchecked) = ground (arith, unchecked)
not-IsAdmitted a header rest d other known out (again, inr shared) =
    ground (arith, known, again, out, Shared-is_authorized other.scope a.scopes shared)

in_scope-admits :
    (a : Authenticator) (d : TokenResponse)
    → (a.scope_checking && not (is_authorized d.scope a.scopes)) ≡ false
    → (a.scope_checking ≡ false) ⊎ Shared d.scope a.scopes
in_scope-admits a d h = elim (Bool-cases a.scope_checking) [
  | inr unchecked ↦ inl unchecked
  | inl checked ↦ inr (is_authorized-Shared d.scope a.scopes (ground arith))
]

-- A request either is admitted and goes to the handler with its token's data, or it is not: then it
-- is answered the same whatever the handler is, and leaves the state as it was.
pub wrap_handler-IsAdmitted :
    {Body S : Type 0} (a : Authenticator) (handle : TokenResponse → S → Response Body × S)
    (headers : List Bytes) (s : S)
    → ((token_data : TokenResponse) × IsAdmitted a headers token_data
        × (wrap_handler a handle headers s ≡ handle token_data s))
      ⊎ (((token_data : TokenResponse) → ¬ IsAdmitted a headers token_data)
          × ((wrap_handler a handle headers s).1 ≡ s)
          × ((other : TokenResponse → S → Response Body × S)
              → wrap_handler a other headers s ≡ wrap_handler a handle headers s))
unfolding wrap_handler
wrap_handler-IsAdmitted {Body} {S} a handle [] s = inr (λ d h. h, refl, λ other. refl)
wrap_handler-IsAdmitted {Body} {S} a handle (header ∷ rest) s =
    elim (Result-cases (a.check_token (token_of header))) [
      | inr (e, failed) ↦ inr (λ d h. absurd (ground (arith, h.0)), rw failed, λ other. rw failed)
      | inl (d, known) ↦
          elim (Bool-cases (a.scope_checking && not (is_authorized d.scope a.scopes))) [
            | inl out ↦ inr (
              λ other h. not-IsAdmitted a header rest d other known out h,
              rw (known, out),
              λ other. rw (known, out),
            )
            | inr in_scope ↦ inl (d, (known, in_scope-admits a d in_scope), rw (known, in_scope))
          ]
    ]
