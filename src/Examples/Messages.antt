-- ===== src/Examples/Messages.antt =====
-- A subscriber that is set up, gets a registration and becomes warm.
use cf_networking_release.Prelude.{
  ℕ, String, ◌≡◌, refl, pos, true, false, none, List, [], ◌∷◌, ok, contains, codes, ◌⊎◌, arith, ap,
  ◌∙◌, bytes_eq_iff,
}
use cf_networking_release.AddressTable.{fqdn}
use cf_networking_release.AddressTable.Removal.{names_host}
use cf_networking_release.AddressTable.Settings.{last_seen-new_address_table}
use cf_networking_release.Subscriber.{
  RegistryMessage, Answers, new_subscriber, run_once, set_up, send_start_message,
  setup_greet_msg_handler, setup_address_message_handler, on_register, register,
  handle_registration_request, not_warm, hosts,
}
use cf_networking_release.Subscriber.Steps.{
  Controller, with_subscriber, Reach, at_once, one_more, ran, started, IsConsistent,
  Reach-IsConsistent, run_once-table,
}
use cf_networking_release.Subscriber.Registered.{unchanged, registered-looked_up}

abbrev all_good : Answers
all_good = record {
  connection = none;
  publish_start = none;
  subscribe_greet = none;
  flush = none;
  subscribe_register = none;
  subscribe_unregister = none;
}

abbrev ready : Controller
ready = with_subscriber (started 120 5) ((run_once all_good ((started 120 5).subscriber)).1)

ready-Reach : Reach (started 120 5) ready
ready-Reach = one_more at_once (ran (started 120 5) all_good)

Reach-IsConsistent_example : IsConsistent ready
Reach-IsConsistent_example = Reach-IsConsistent 120 5 ready-Reach

abbrev app : RegistryMessage
app = record {
  ip = "10.255.1.2";
  infra_names = codes "app.apps.internal" ∷ [];
  endpoint_updated_at = pos 0;
}

abbrev clock : ℕ → ℕ
clock i = 1000

abbrev registered_app : Controller
registered_app = with_subscriber ready (on_register (ok app) clock ready.subscriber)

ready-asked : contains register ready.subscriber.topics ≡ true
unfolding run_once set_up send_start_message setup_greet_msg_handler setup_address_message_handler
    contains new_subscriber
ready-asked = refl

ready-threshold : ready.subscriber.table.staleness_threshold ≡ 120
unfolding new_subscriber
ready-threshold =
    ap (λ t. t.staleness_threshold) (run_once-table all_good ((started 120 5).subscriber))
    ∙ (last_seen-new_address_table 120 5 [] "").2

app-named : names_host app.infra_names (fqdn (codes "app.apps.internal")) ≡ true
app-named =
    rw ((bytes_eq_iff (fqdn (codes "app.apps.internal")) (fqdn (codes "app.apps.internal"))).1 refl)
      refl

registered-looked_up_example :
    ((registered_app.subscriber.table.warm ≡ false)
      × (handle_registration_request (codes "app.apps.internal") registered_app.subscriber.table
          ≡ not_warm))
    ⊎ ((ips : List String) × (handle_registration_request
            (codes "app.apps.internal")
            registered_app.subscriber.table
          ≡ hosts ips)
        × (contains "10.255.1.2" ips ≡ true))
registered-looked_up_example =
    registered-looked_up 120 5 1100 app clock (codes "app.apps.internal") ready-Reach ready-asked
      refl app-named (λ i. omega (arith, ready-threshold)) unchanged
