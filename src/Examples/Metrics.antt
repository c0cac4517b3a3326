-- ===== src/Examples/Metrics.antt =====
-- The developer's create request over the list of policies with metrics.
use cf_networking_release.Prelude.{◌≡◌, ℕ, suc, List, length, pos, [], ok}
use cf_networking_release.Handlers.Endpoints.{policies_create}
use cf_networking_release.Handlers.Small.{Metric, metrics_wrapper}
use cf_networking_release.Handlers.Measured.{unmeasured, policies_create-metrics_wrapper}
use cf_networking_release.Examples.Requests.{
  developer, clients, unordered, list_store, requested, decoded,
}

-- Each metric that was sent took one unit.
abbrev ticks : List Metric → ℕ × ℕ
ticks metrics = (length metrics, suc (length metrics))

policies_create-metrics_wrapper_example :
    unmeasured (
      policies_create
        (metrics_wrapper ticks list_store)
        clients
        unordered
        decoded
        decoded
        []
        (pos 2)
        (ok requested)
        developer
        ([], []))
    ≡ policies_create list_store clients unordered decoded decoded []
        (pos 2)
        (ok requested)
        developer
        []
policies_create-metrics_wrapper_example =
    policies_create-metrics_wrapper list_store clients unordered decoded decoded [] ticks (pos 2)
      (ok requested) developer [] []
