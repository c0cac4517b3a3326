-- ===== src/Subscriber/Registered.antt =====
-- An address that was registered stays looked up (subscriber.go, address_table.go and the handlers of
-- routes/server.go).
use cf_networking_release.Prelude.{
  ℕ, zero, suc, ◌+◌, ◌≤◌, String, Bytes, ◌≡◌, refl, sym, ◌∙◌, Bool, true, false, not, ◌&&◌, ◌||◌,
  Option, some, List, [], ◌∷◌, Result, ok, err, contains, ◌⊎◌, inl, inr, arith, str_eq, eq_iff,
  bytes_eq, if◌then◌else◌, Bool-cases, leb,
}
use mathlib.Core.Path.{subst}
use mathlib.Core.Bool.{false≢true}
use cf_networking_release.AddressTable.{
  AddressTable, fqdn, lookup_ips, set_warm, pause_pruning, resume_pruning, prune_stale_entries, add,
}
use cf_networking_release.AddressTable.View.{IsTable, last_seen, registered, last_seen-add}
use cf_networking_release.AddressTable.Removal.{
  names_host, last_seen-remove_all, contains-lookup_ips,
}
use cf_networking_release.AddressTable.Prune.{last_seen-prune_stale_entries, unless_stale}
use cf_networking_release.AddressTable.Settings.{
  add-IsSame, remove_all-IsSame, prune_stale_entries-IsSame, flags-HasSameAddresses,
  pruning_flags-IsSame, last_seen-HasSameAddresses, set_warm-threshold, is_warm-warm,
}
use cf_networking_release.Subscriber.{
  RegistryMessage, Subscriber, stamped, is_empty, on_register, on_unregister, on_disconnect,
  on_warm, register, handle_registration_request, not_warm, hosts,
}
use cf_networking_release.Subscriber.Steps.{
  Controller, with_subscriber, Step, ran, registration, unregistration, greeted, reconnected,
  disconnected, warmed, stopped, collected, pruned, Reach, started, IsConsistent, Step-IsConsistent,
  Reach-IsConsistent, run_once-table, on_greet-same, on_reconnect-same, close-same,
}

-- Add gives each of the names that is the host one of the clock's readings.
registered-stamped :
    (clock : ℕ → ℕ) (names : List Bytes) (host : Bytes) (o : Option ℕ)
    → ((i : ℕ) × (registered (stamped clock names) host o ≡ some (clock i)))
      ⊎ ((names_host names host ≡ false) × (registered (stamped clock names) host o ≡ o))
unfolding stamped
registered-stamped clock [] host o = inr (refl, refl)
registered-stamped clock (name ∷ names) host o =
    let first = if bytes_eq (fqdn name) host then some (clock zero) else o in
    elim (registered-stamped (λ i. clock (suc i)) names host first) [
      | inl (i, e) ↦ inl (suc i, e)
      | inr (others, e) ↦ elim (Bool-cases (bytes_eq (fqdn name) host)) [
        | inl this ↦ inl (zero, e ∙ rw this refl)
        | inr other ↦ inr (rw (other, others) refl, e ∙ rw other refl)
      ]
    ]

module _ (host : Bytes) (ip : String) (threshold deadline : ℕ) where
  -- The table records the address at a time that is fresh up to the deadline.
  abbrev IsFresh : AddressTable → Type 0
  IsFresh at =
      (at.staleness_threshold ≡ threshold)
      × ((t : ℕ) × (last_seen at host ip ≡ some t) × (deadline ≤ t + threshold))

  -- The message does not unregister the address from the name.
  abbrev pub spares : Result RegistryMessage → Bool
  spares (ok m) = not (names_host m.infra_names host && str_eq m.ip ip)
  spares (err e) = true

  -- The step does not take the address away: clocks read no less than the deadline allows, nobody
  -- unregisters the address from the name, and pruning happens up to the deadline.
  abbrev pub IsKeeping : {c d : Controller} → Step c d → Type 0
  IsKeeping (registration c m clock asked) = (i : ℕ) → deadline ≤ clock i + threshold
  IsKeeping (unregistration c m asked) = spares m ≡ true
  IsKeeping (pruned c now candidates held) = now ≤ deadline
  IsKeeping _ = Unit

  -- A run of such steps.
  pub data Keeping (c : Controller) : Controller → Type 0 where
    unchanged : Keeping c c
    later : {d e : Controller} → Keeping c d → (s : Step d e) → IsKeeping s → Keeping c e

  same-IsFresh :
      (at at' : AddressTable)
      → at'.addresses ≡ at.addresses
      → at'.staleness_threshold ≡ at.staleness_threshold
      → IsFresh at
      → IsFresh at'
  same-IsFresh at at' same threshold (e, (t, seen, soon)) =
      (threshold ∙ e, (t, last_seen-HasSameAddresses at at' host ip same ∙ seen, soon))

  on_register-IsFresh :
      (m : Result RegistryMessage) (clock : ℕ → ℕ) (s : Subscriber)
      → ((i : ℕ) → deadline ≤ clock i + threshold)
      → IsFresh s.table
      → IsFresh ((on_register m clock s).table)
  unfolding on_register
  on_register-IsFresh (err e) clock s keep fresh = fresh
  on_register-IsFresh (ok m) clock s keep (e, (t, seen, soon)) =
      let names = stamped clock m.infra_names in
      elim (Bool-cases (str_eq m.ip "" || is_empty m.infra_names)) [
        | inl malformed ↦ rw malformed (e, (t, seen, soon))
        | inr good ↦
            let same : (add s.table names m.ip).staleness_threshold ≡ threshold =
              (add-IsSame s.table names m.ip).1 ∙ e in
            elim (Bool-cases (str_eq m.ip ip)) [
              | inr other ↦
                  rw good
                    (same, (t, last_seen-add s.table names m.ip host ip ∙ rw other seen, soon))
              | inl mine ↦
                  let looked = last_seen-add s.table names m.ip host ip in
                  elim (registered-stamped clock m.infra_names host (last_seen s.table host ip)) [
                    | inl (i, again) ↦ rw good (same, (clock i, looked ∙ rw mine again, keep i))
                    | inr (away, old) ↦ rw good (same, (t, looked ∙ rw mine (old ∙ seen), soon))
                  ]
            ]
      ]

  kept : (b : Bool) → not b ≡ true → b ≡ false
  kept b h = ground (arith, h)

  on_unregister-IsFresh :
      (m : Result RegistryMessage) (s : Subscriber)
      → IsTable s.table
      → spares m ≡ true
      → IsFresh s.table
      → IsFresh ((on_unregister m s).table)
  unfolding on_unregister
  on_unregister-IsFresh (err e) s table keep fresh = fresh
  on_unregister-IsFresh (ok m) s table keep (e, (t, seen, soon)) =
      elim (Bool-cases (is_empty m.infra_names)) [
        | inl malformed ↦ rw malformed (e, (t, seen, soon))
        | inr good ↦ rw good (
          (remove_all-IsSame s.table m.infra_names m.ip).1 ∙ e,
          (
            t,
            last_seen-remove_all s.table m.infra_names m.ip host ip table
                ∙ rw (kept (names_host m.infra_names host && str_eq m.ip ip) keep) seen,
            soon,
          ),
        )
      ]

  prune-IsFresh :
      (at : AddressTable) (now : ℕ) (candidates : List Bytes)
      → IsTable at
      → now ≤ deadline
      → IsFresh at
      → IsFresh (prune_stale_entries at now candidates)
  prune-IsFresh at now candidates table early (e, (t, seen, soon)) =
      let in_time : leb now (t + at.staleness_threshold) ≡ true =
        rw e (ground (arith, early, soon)) in
      let stays : unless_stale at.staleness_threshold now (last_seen at host ip) ≡ some t =
        rw (seen, in_time) refl in
      (
        (prune_stale_entries-IsSame at now candidates).1 ∙ e,
        (
          t,
          last_seen-prune_stale_entries at now candidates host ip table
              ∙ ground (arith, stays, seen),
          soon,
        ),
      )

  Step-IsFresh :
      {c d : Controller} (step : Step c d)
      → IsConsistent c
      → IsKeeping step
      → IsFresh c.subscriber.table
      → IsFresh d.subscriber.table
  unfolding on_disconnect on_warm
  Step-IsFresh (ran c a) h keep fresh = subst IsFresh (sym (run_once-table a c.subscriber)) fresh
  Step-IsFresh (registration c m clock asked) h keep fresh =
      on_register-IsFresh m clock c.subscriber keep fresh
  Step-IsFresh (unregistration c m asked) h keep fresh =
      on_unregister-IsFresh m c.subscriber (h.clean.0) keep fresh
  Step-IsFresh (greeted c reply answer asked) h keep fresh =
      subst IsFresh (sym ((on_greet-same reply answer c.subscriber).0)) fresh
  Step-IsFresh (reconnected c now answer made) h keep fresh =
      let at = c.subscriber.table in
      subst IsFresh (sym ((on_reconnect-same now answer c.subscriber).0)) (
        same-IsFresh at (resume_pruning at now) ((flags-HasSameAddresses at now).2)
          ((pruning_flags-IsSame at now).1.1) fresh)
  Step-IsFresh (disconnected c made) h keep fresh =
      let at = c.subscriber.table in
      same-IsFresh at (pause_pruning at) ((flags-HasSameAddresses at zero).1)
        ((pruning_flags-IsSame at zero).0.1) fresh
  Step-IsFresh (warmed c begun) h keep fresh =
      let at = c.subscriber.table in
      same-IsFresh at (set_warm at) ((flags-HasSameAddresses at zero).0) (set_warm-threshold at)
        fresh
  Step-IsFresh (stopped c) h keep fresh = subst IsFresh (sym ((close-same c.subscriber).0)) fresh
  Step-IsFresh (collected c now due) h keep fresh = fresh
  Step-IsFresh (pruned c now candidates held) h keep fresh =
      prune-IsFresh c.subscriber.table now candidates (h.clean.0) keep fresh

  Keeping-IsFresh :
      {c d : Controller}
      → Keeping c d
      → IsConsistent c
      → IsFresh c.subscriber.table
      → IsConsistent d × IsFresh d.subscriber.table
  Keeping-IsFresh unchanged h fresh = (h, fresh)
  Keeping-IsFresh (later r step keep) h fresh =
      let (good, still) = Keeping-IsFresh r h fresh in
      (Step-IsConsistent step good, Step-IsFresh step good keep still)

named-not_empty :
    (names : List Bytes) (host : Bytes) → names_host names host ≡ true → is_empty names ≡ false
named-not_empty [] host h = absurd (ground (arith, h))
named-not_empty (name ∷ names) host h = refl

on_register-records :
    (m : RegistryMessage) (clock : ℕ → ℕ) (s : Subscriber) (host : Bytes) (deadline : ℕ)
    → str_eq m.ip "" ≡ false
    → names_host m.infra_names host ≡ true
    → ((i : ℕ) → deadline ≤ clock i + s.table.staleness_threshold)
    → IsFresh host m.ip s.table.staleness_threshold deadline ((on_register (ok m) clock s).table)
unfolding on_register
on_register-records m clock s host deadline named names soon =
    let looked = last_seen-add s.table (stamped clock m.infra_names) m.ip host m.ip in
    rw (named, named-not_empty m.infra_names host names)
      (
        (add-IsSame s.table (stamped clock m.infra_names) m.ip).1,
        elim (registered-stamped clock m.infra_names host (last_seen s.table host m.ip)) [
          | inl (i, e) ↦ (clock i, looked ∙ rw ((eq_iff m.ip m.ip).1 refl) e, soon i)
          | inr (away, old) ↦ absurd (false≢true (sym away ∙ names))
        ],
      )

handle_registration_request-cases :
    (name : Bytes) (at : AddressTable)
    → ((at.warm ≡ false) × (handle_registration_request name at ≡ not_warm))
      ⊎ ((at.warm ≡ true) × (handle_registration_request name at ≡ hosts (lookup_ips at name)))
unfolding handle_registration_request
handle_registration_request-cases name at = elim (Bool-cases at.warm) [
  | inl warm ↦ inr (warm, rw (is_warm-warm at, warm) refl)
  | inr cold ↦ inl (cold, rw (is_warm-warm at, cold) refl)
]

-- In every run: once a registration of an address, not empty, for a name was delivered, a request
-- for the name is answered with a list that has the address, or with status 500 while the table is
-- not warm, for as long as nobody unregisters the address from the name and pruning happens up to a
-- deadline that is within the threshold of the clock's readings.
pub registered-looked_up :
    (threshold delay deadline : ℕ) {c d : Controller} (m : RegistryMessage) (clock : ℕ → ℕ)
    (name : Bytes)
    → Reach (started threshold delay) c
    → contains register c.subscriber.topics ≡ true
    → str_eq m.ip "" ≡ false
    → names_host m.infra_names (fqdn name) ≡ true
    → ((i : ℕ) → deadline ≤ clock i + c.subscriber.table.staleness_threshold)
    → Keeping
        (fqdn name)
        m.ip
        c.subscriber.table.staleness_threshold
        deadline
        (with_subscriber c (on_register (ok m) clock c.subscriber))
        d
    → ((d.subscriber.table.warm ≡ false)
        × (handle_registration_request name d.subscriber.table ≡ not_warm))
      ⊎ ((ips : List String) × (handle_registration_request name d.subscriber.table ≡ hosts ips)
          × (contains m.ip ips ≡ true))
registered-looked_up threshold delay deadline {c} {d} m clock name reach asked named names soon
      run =
    let good =
      Step-IsConsistent (registration c (ok m) clock asked)
        (Reach-IsConsistent threshold delay reach) in
    let fresh = on_register-records m clock c.subscriber (fqdn name) deadline named names soon in
    let (still, (same, (t, seen, in_time))) =
      Keeping-IsFresh (fqdn name) m.ip c.subscriber.table.staleness_threshold deadline run good
        fresh in
    elim (handle_registration_request-cases name d.subscriber.table) [
      | inl cold ↦ inl cold
      | inr (warm, answer) ↦ inr (
        lookup_ips d.subscriber.table name,
        answer,
        contains-lookup_ips d.subscriber.table name m.ip ∙ rw seen refl,
      )
    ]
