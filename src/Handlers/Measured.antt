-- ===== src/Handlers/Measured.antt =====
-- A create and a delete of policies over the store with metrics (metrics_wrapper.go), beside the same
-- over the store itself.
use cf_networking_release.Prelude.{
  ℕ, ◌-◌, String, ℤ, ◌≡◌, refl, ap, ◌∙◌, Bool, true, false, List, [], Error, Result, ok, err, inl,
  inr, Bool-cases, Result-cases,
}
use cf_networking_release.Store.Models.{Policy}
use cf_networking_release.Handlers.{
  TokenResponse, Clients, DataStore, is_network_admin, unique_app_guids,
}
use cf_networking_release.Handlers.Guards.{check_access, check_quota, check_found, source_counts}
use cf_networking_release.Handlers.Endpoints.{
  Response, changed, not_accessible, quota_exceeded, if_authorized, policies_create,
  policies_delete,
}
use cf_networking_release.Handlers.Small.{Metric, MetricNames, measured, reported, metrics_wrapper}

-- The result and the store's state, without the metrics.
abbrev pub unmeasured : {A S : Type 0} → A × (S × List Metric) → A × S
unmeasured (a, (s, metrics)) = (a, s)

module _ {S : Type 0} where
  unmeasured-check_found :
      (max_policies : ℤ) (guids : List String) (to_add : List (String × ℕ)) (names : MetricNames)
      (clock : List Metric → ℕ × ℕ) (call : S → Result (List Policy) × S) (s : S)
      (metrics : List Metric)
      → unmeasured (check_found max_policies guids to_add (measured names clock call (s, metrics)))
        ≡ check_found max_policies guids to_add (call s)
  unmeasured-check_found max_policies guids to_add names clock call s metrics = answered (call s)
    where
      answered :
          (answer : Result (List Policy) × S)
          → unmeasured (
              check_found max_policies guids to_add
                (reported names ((clock metrics).1 - (clock metrics).0) metrics answer))
            ≡ check_found max_policies guids to_add answer
      answered (ok a, t) = refl
      answered (err e, t) = refl

  unmeasured-changed :
      {Body : Type 0} (body : Body) (failed : String) (names : MetricNames)
      (clock : List Metric → ℕ × ℕ) (call : S → Result (Unit {0}) × S) (s : S)
      (metrics : List Metric)
      → unmeasured (changed body failed (measured names clock call (s, metrics)))
        ≡ changed body failed (call s)
  unmeasured-changed body failed names clock call s metrics = answered (call s)
    where
      answered :
          (answer : Result (Unit {0}) × S)
          → unmeasured (
              changed body failed
                (reported names ((clock metrics).1 - (clock metrics).0) metrics answer))
            ≡ changed body failed answer
      answered (ok a, t) = refl
      answered (err e, t) = refl

  unmeasured-if_authorized :
      {Body : Type 0} (failed : String) (refused : Error) (guard : Result Bool × (S × List Metric))
      (next : S × List Metric → Response Body × (S × List Metric)) (plain : S → Response Body × S)
      → ((s : S) (metrics : List Metric) → unmeasured (next (s, metrics)) ≡ plain s)
      → unmeasured (if_authorized failed refused guard next)
        ≡ if_authorized failed refused (unmeasured guard) plain
  unmeasured-if_authorized failed refused (err e, (s, metrics)) next plain same = refl
  unmeasured-if_authorized failed refused (ok false, (s, metrics)) next plain same = refl
  unmeasured-if_authorized failed refused (ok true, (s, metrics)) next plain same = same s metrics

  unmeasured-check_quota :
      (store : DataStore S) (clock : List Metric → ℕ × ℕ) (max_policies : ℤ)
      (visit : List String → List String) (policies : List Policy) (user_token : TokenResponse)
      (s : S) (metrics : List Metric)
      → unmeasured (
          check_quota
            (metrics_wrapper clock store)
            max_policies
            visit
            policies
            user_token
            (s, metrics))
        ≡ check_quota store max_policies visit policies user_token s
  unfolding check_quota metrics_wrapper
  unmeasured-check_quota store clock max_policies visit policies user_token s metrics =
      elim (Bool-cases (is_network_admin user_token.scope)) [
        | inl admin ↦ rw admin refl
        | inr other ↦
            let guids = unique_app_guids visit policies in
            rw other (
              unmeasured-check_found max_policies guids (source_counts policies guids) _ clock
                (store.by_guids guids [] false) s metrics)
      ]

module _ {Body S : Type 0} (store : DataStore S) (clients : Clients)
    (visit : List String → List String) (as_store_policy : Body → Result (List Policy))
    (as_bytes : List Policy → Result Body) (empty_object : Body) where
  unmeasured-delete :
      (clock : List Metric → ℕ × ℕ) (policies : List Policy) (s : S) (metrics : List Metric)
      → unmeasured (
          changed empty_object "database delete failed"
            ((metrics_wrapper clock store).delete policies (s, metrics)))
        ≡ changed empty_object "database delete failed" (store.delete policies s)
  unfolding metrics_wrapper
  unmeasured-delete clock policies s metrics =
      unmeasured-changed empty_object "database delete failed" _ clock (store.delete policies) s
        metrics

  unmeasured-create :
      (clock : List Metric → ℕ × ℕ) (max_policies : ℤ) (policies : List Policy)
      (token_data : TokenResponse) (s : S) (metrics : List Metric)
      → unmeasured (
          if_authorized "check quota failed" quota_exceeded
            (check_quota
              (metrics_wrapper clock store)
              max_policies
              visit
              policies
              token_data
              (s, metrics))
            λ u.
              changed empty_object "database create failed"
                ((metrics_wrapper clock store).create policies u))
        ≡ if_authorized "check quota failed" quota_exceeded
            (check_quota store max_policies visit policies token_data s)
            λ u. changed empty_object "database create failed" (store.create policies u)
  unfolding metrics_wrapper
  unmeasured-create clock max_policies policies token_data s metrics =
      unmeasured-if_authorized "check quota failed" quota_exceeded
        (check_quota (metrics_wrapper clock store) max_policies visit policies token_data
          (s, metrics))
        (λ u.
          changed empty_object "database create failed"
            ((metrics_wrapper clock store).create policies u))
        (λ u. changed empty_object "database create failed" (store.create policies u))
        (unmeasured-changed empty_object "database create failed" _ clock (store.create policies))
      ∙ ap
          (λ guard.
            if_authorized "check quota failed" quota_exceeded guard
              λ u. changed empty_object "database create failed" (store.create policies u))
          (unmeasured-check_quota store clock max_policies visit policies token_data s metrics)

  -- A create request over the store with metrics gives the response and leaves the store's state that
  -- it does over the store itself, whatever the clock shows.
  pub policies_create-metrics_wrapper :
      (clock : List Metric → ℕ × ℕ) (max_policies : ℤ) (request : Result Body)
      (token_data : TokenResponse) (s : S) (metrics : List Metric)
      → unmeasured (
          policies_create
            (metrics_wrapper clock store)
            clients
            visit
            as_store_policy
            as_bytes
            empty_object
            max_policies
            request
            token_data
            (s, metrics))
        ≡ policies_create store clients visit as_store_policy as_bytes empty_object max_policies
            request token_data s
  unfolding policies_create
  policies_create-metrics_wrapper clock max_policies (err e) token_data s metrics = refl
  policies_create-metrics_wrapper clock max_policies (ok body) token_data s metrics =
      elim (Result-cases (as_store_policy body)) [
        | inr (e, failed) ↦ rw failed refl
        | inl (policies, mapped) ↦ rw mapped (
            unmeasured-if_authorized "check access failed" not_accessible
              (check_access clients visit policies token_data, (s, metrics)) _ _
              (unmeasured-create clock max_policies policies token_data))
      ]

  pub policies_delete-metrics_wrapper :
      (clock : List Metric → ℕ × ℕ) (request : Result Body) (token_data : TokenResponse) (s : S)
      (metrics : List Metric)
      → unmeasured (
          policies_delete
            (metrics_wrapper clock store)
            clients
            visit
            as_store_policy
            as_bytes
            empty_object
            request
            token_data
            (s, metrics))
        ≡ policies_delete store clients visit as_store_policy as_bytes empty_object request
            token_data s
  unfolding policies_delete
  policies_delete-metrics_wrapper clock (err e) token_data s metrics = refl
  policies_delete-metrics_wrapper clock (ok body) token_data s metrics =
      elim (Result-cases (as_store_policy body)) [
        | inr (e, failed) ↦ rw failed refl
        | inl (policies, mapped) ↦ rw mapped (
            unmeasured-if_authorized "check access failed" not_accessible
              (check_access clients visit policies token_data, (s, metrics)) _ _
              (unmeasured-delete clock policies))
      ]
