-- ===== src/Handlers/Requests.antt =====
-- When the endpoints that change policies reach the store.
use cf_networking_release.Prelude.{
  String, ◌≡◌, ◌≢◌, refl, ap, sym, ◌∙◌, ℤ, Bool, true, false, List, Error, Result, ok, err, ◌⊎◌,
  inl, inr, Result-cases,
}
use cf_networking_release.Store.Models.{Policy}
use cf_networking_release.Handlers.{TokenResponse, Clients, DataStore}
use cf_networking_release.Handlers.Guards.{check_access, check_quota}
use cf_networking_release.Handlers.Endpoints.{
  Response, written, bad_request, forbidden, internal_server_error, changed, policies_create,
  policies_delete,
}

-- A 200 was written.
abbrev pub IsWritten : {Body : Type 0} → Response Body → Type 0
IsWritten (written body) = Unit
IsWritten (bad_request e description) = ⊥
IsWritten (forbidden e) = ⊥
IsWritten (Response.unauthorized e description) = ⊥
IsWritten (internal_server_error e description) = ⊥

module _ {Body S : Type 0} (store : DataStore S) (clients : Clients)
    (visit : List String → List String) (as_store_policy : Body → Result (List Policy))
    (as_bytes : List Policy → Result Body) (empty_object : Body) where
  -- The request has a body of policies that the policy guard lets through.
  abbrev pub IsAllowed : Result Body → TokenResponse → List Policy → Type 0
  IsAllowed request token_data policies =
      (body : Body) × (request ≡ ok body)
      × (as_store_policy body ≡ ok policies)
      × (check_access clients visit policies token_data ≡ ok true)

  -- The policies of an allowed request are those that its body maps to.
  IsAllowed-unique :
      (body : Body) (token_data : TokenResponse) (policies other : List Policy)
      → as_store_policy body ≡ ok policies
      → IsAllowed (ok body) token_data other
      → (policies ≡ other) × (check_access clients visit policies token_data ≡ ok true)
  IsAllowed-unique body token_data policies other mapped (b, e, again, checked) =
      let same : policies ≡ other = cc in
      (same, ap (λ ps. check_access clients visit ps token_data) same ∙ checked)

  unread : (e : Error) {body : Body} → err e ≢ ok body
  unread e h = cc

  not_mapped :
      (body : Body) (token_data : TokenResponse) (e : Error) (other : List Policy)
      → as_store_policy body ≡ err e
      → ¬ IsAllowed (ok body) token_data other
  not_mapped body token_data e other failed (b, same, mapped, checked) = cc

  not_checked :
      (body : Body) (token_data : TokenResponse) (policies other : List Policy) (r : Result Bool)
      → as_store_policy body ≡ ok policies
      → check_access clients visit policies token_data ≡ r
      → r ≢ ok true
      → ¬ IsAllowed (ok body) token_data other
  not_checked body token_data policies other r mapped given refused allowed =
      let (same, checked) = IsAllowed-unique body token_data policies other mapped allowed in
      refused (sym given ∙ checked)

  check_quota-create :
      (max_policies : ℤ) (policies : List Policy) (token_data : TokenResponse) (s : S)
      (other : List Policy → S → Result (Unit {0}) × S)
      → check_quota (record store { create = other }) max_policies visit policies token_data s
        ≡ check_quota store max_policies visit policies token_data s
  unfolding check_quota
  check_quota-create max_policies policies token_data s other = refl

  -- A create request reaches the store's Create exactly if its body reads and maps to policies that
  -- the policy guard and then the quota guard let through, and its response then is that of Create;
  -- every other request is answered the same whatever Create is, and not with 200.
  pub policies_create-IsAllowed :
      (max_policies : ℤ) (request : Result Body) (token_data : TokenResponse) (s : S)
      → ((policies : List Policy) × (u : S) × IsAllowed request token_data policies
          × (check_quota store max_policies visit policies token_data s ≡ (ok true, u))
          × (policies_create store clients visit as_store_policy as_bytes empty_object max_policies
                request token_data s
              ≡ changed empty_object "database create failed" (store.create policies u)))
        ⊎ (((policies : List Policy) (u : S)
              → IsAllowed request token_data policies
              → check_quota store max_policies visit policies token_data s ≢ (ok true, u))
            × ¬ IsWritten
                (policies_create store clients visit as_store_policy as_bytes empty_object
                  max_policies request token_data s).0
            × ((other : List Policy → S → Result (Unit {0}) × S)
                → policies_create
                    (record store { create = other })
                    clients
                    visit
                    as_store_policy
                    as_bytes
                    empty_object
                    max_policies
                    request
                    token_data
                    s
                  ≡ policies_create store clients visit as_store_policy as_bytes empty_object
                      max_policies request token_data s))
  unfolding policies_create
  policies_create-IsAllowed max_policies (err e) token_data s =
      inr (λ policies u h. absurd (unread e h.1), λ h. h, λ other. refl)
  policies_create-IsAllowed max_policies (ok body) token_data s =
      elim (Result-cases (as_store_policy body)) [
        | inr (e, failed) ↦ inr (
          λ policies u h. absurd (not_mapped body token_data e policies failed h),
          rw failed (λ h. h),
          λ other. rw failed refl,
        )
        | inl (policies, mapped) ↦
            elim (Result-cases (check_access clients visit policies token_data)) [
              | inr (e, failed) ↦ inr (
                λ others u h.
                    absurd (
                      not_checked body token_data policies others (err e) mapped failed (λ e. cc)
                        h),
                rw (mapped, failed) (λ h. h),
                λ other. rw (mapped, failed) refl,
              )
              | inl (false, checked) ↦ inr (
                λ others u h. absurd (
                    not_checked body token_data policies others (ok false) mapped checked (λ e. cc)
                      h),
                rw (mapped, checked) (λ h. h),
                λ other. rw (mapped, checked) refl,
              )
              | inl (true, checked) ↦
                  let quota = check_quota store max_policies visit policies token_data s in
                  elim (Result-cases quota.0) [
                    | inr (e, failed) ↦ inr (
                      λ others u h. over_quota policies others u mapped (err e) failed (λ e. cc) h,
                      rw (mapped, checked, failed) (λ h. h),
                      λ other. rw (mapped, checked, same policies other, failed) refl,
                    )
                    | inl (false, over) ↦ inr (
                      λ others u h. over_quota policies others u mapped (ok false) over (λ e. cc) h,
                      rw (mapped, checked, over) (λ h. h),
                      λ other. rw (mapped, checked, same policies other, over) refl,
                    )
                    | inl (true, within) ↦ inl (
                      policies,
                      quota.1,
                      (body, refl, mapped, checked),
                      ap (λ r. (r, quota.1)) within,
                      rw (mapped, checked, within) refl,
                    )
                  ]
            ]
      ]
    where
      same :
          (policies : List Policy) (other : List Policy → S → Result (Unit {0}) × S)
          → check_quota (record store { create = other }) max_policies visit policies token_data s
            ≡ check_quota store max_policies visit policies token_data s
      same policies other = check_quota-create max_policies policies token_data s other

      over_quota :
          (policies others : List Policy) (u : S)
          → as_store_policy body ≡ ok policies
          → (r : Result Bool) → (check_quota store max_policies visit policies token_data s).0 ≡ r
          → r ≢ ok true
          → IsAllowed (ok body) token_data others
          → check_quota store max_policies visit others token_data s ≢ (ok true, u)
      over_quota policies others u mapped r given refused h within =
          let (one, checked) = IsAllowed-unique body token_data policies others mapped h in
          refused (
            sym given
            ∙ ap (λ ps. (check_quota store max_policies visit ps token_data s).0) one
            ∙ ap (λ a. a.0) within)

  -- A delete request reaches the store's Delete exactly if its body reads and maps to policies that
  -- the policy guard lets through, and its response then is that of Delete; every other request is
  -- answered the same whatever Delete is, not with 200, and leaves the store as it was.
  pub policies_delete-IsAllowed :
      (request : Result Body) (token_data : TokenResponse) (s : S)
      → ((policies : List Policy) × IsAllowed request token_data policies
          × (policies_delete store clients visit as_store_policy as_bytes empty_object request
                token_data s
              ≡ changed empty_object "database delete failed" (store.delete policies s)))
        ⊎ (((policies : List Policy) → ¬ IsAllowed request token_data policies)
            × ¬ IsWritten
                (policies_delete store clients visit as_store_policy as_bytes empty_object request
                  token_data s).0
            × ((policies_delete store clients visit as_store_policy as_bytes empty_object request
                  token_data s).1
                ≡ s)
            × ((other : List Policy → S → Result (Unit {0}) × S)
                → policies_delete
                    (record store { delete = other })
                    clients
                    visit
                    as_store_policy
                    as_bytes
                    empty_object
                    request
                    token_data
                    s
                  ≡ policies_delete store clients visit as_store_policy as_bytes empty_object
                      request token_data s))
  unfolding policies_delete
  policies_delete-IsAllowed (err e) token_data s =
      inr (λ policies h. unread e h.1, λ h. h, refl, λ other. refl)
  policies_delete-IsAllowed (ok body) token_data s = elim (Result-cases (as_store_policy body)) [
    | inr (e, failed) ↦ inr (
      λ policies h. not_mapped body token_data e policies failed h,
      rw failed (λ h. h),
      rw failed refl,
      λ other. rw failed refl,
    )
    | inl (policies, mapped) ↦
        elim (Result-cases (check_access clients visit policies token_data)) [
          | inr (e, failed) ↦ inr (
            λ others h.
                not_checked body token_data policies others (err e) mapped failed (λ e. cc) h,
            rw (mapped, failed) (λ h. h),
            rw (mapped, failed) refl,
            λ other. rw (mapped, failed) refl,
          )
          | inl (true, checked) ↦
              inl (policies, (body, refl, mapped, checked), rw (mapped, checked) refl)
          | inl (false, checked) ↦ inr (
            λ others h.
                not_checked body token_data policies others (ok false) mapped checked (λ e. cc) h,
            rw (mapped, checked) (λ h. h),
            rw (mapped, checked) refl,
            λ other. rw (mapped, checked) refl,
          )
        ]
  ]
