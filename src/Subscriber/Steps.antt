-- ===== src/Subscriber/Steps.antt =====
-- The runs of the subscriber and the address table, and what holds in every one.
use cf_networking_release.Prelude.{
  ℕ, zero, String, ◌≡◌, refl, ap, sym, ◌∙◌, Bool, true, false, Option, none, some, List, [], ◌∷◌,
  Bytes, Error, Result, ok, err, contains, contains-append, ◌++◌, ◌⊎◌, inl, inr, arith, str_eq,
  Bool-cases, ◌||◌,
}
use mathlib.Core.Path.{subst}
use cf_networking_release.AddressTable.{
  AddressTable, new_address_table, tick_check, addresses_with_stale_entries, prune_stale_entries,
  resume_pruning,
}
use cf_networking_release.AddressTable.View.{
  IsTable, last_seen, last_seen-add, add-IsTable, new_address_table-IsTable,
}
use cf_networking_release.AddressTable.Removal.{last_seen-remove_all, remove_all-IsTable}
use cf_networking_release.AddressTable.Prune.{
  last_seen-prune_stale_entries, prune_stale_entries-IsTable,
}
use cf_networking_release.AddressTable.Settings.{
  HasSameAddresses, add-IsSame, remove_all-IsSame, prune_stale_entries-IsSame,
  flags-HasSameAddresses, pruning_flags-IsSame, last_seen-HasSameAddresses,
  IsTable-HasSameAddresses, last_seen-new_address_table,
}
use cf_networking_release.Subscriber.{
  RegistryMessage, Subscriber, new_subscriber, Answers, send_start_message, setup_greet_msg_handler,
  setup_address_message_handler, close, set_up, run_once, is_empty, stamped, on_register,
  on_unregister, on_greet, on_reconnect, on_disconnect, on_warm, register, unregister, greet,
}

-- The subscriber and the table's ticker, which holds candidates between its two locks.
pub record Controller : Type 0 where
  pub subscriber : Subscriber
  pub candidates : Option (List Bytes)

abbrev pub with_subscriber : Controller → Subscriber → Controller
with_subscriber c s = record c { subscriber = s }

-- One call under the table's lock. NATS delivers the messages of a topic that the subscriber asked
-- for, and calls the handlers of a connection that it made.
pub data Step : Controller → Controller → Type 0 where
  ran : (c : Controller) (a : Answers) → Step c (with_subscriber c ((run_once a c.subscriber).1))
  registration :
      (c : Controller) (m : Result RegistryMessage) (clock : ℕ → ℕ)
      → contains register c.subscriber.topics ≡ true
      → Step c (with_subscriber c (on_register m clock c.subscriber))
  unregistration :
      (c : Controller) (m : Result RegistryMessage)
      → contains unregister c.subscriber.topics ≡ true
      → Step c (with_subscriber c (on_unregister m c.subscriber))
  greeted :
      (c : Controller) (reply : String) (answer : Option Error)
      → contains greet c.subscriber.topics ≡ true
      → Step c (with_subscriber c (on_greet reply answer c.subscriber))
  reconnected :
      (c : Controller) (now : ℕ) (answer : Option Error)
      → c.subscriber.connected ≡ true
      → Step c (with_subscriber c (on_reconnect now answer c.subscriber))
  disconnected :
      (c : Controller)
      → c.subscriber.connected ≡ true
      → Step c (with_subscriber c (on_disconnect c.subscriber))
  warmed :
      (c : Controller)
      → c.subscriber.warming ≡ true
      → Step c (with_subscriber c (on_warm c.subscriber))
  stopped : (c : Controller) → Step c (with_subscriber c (close c.subscriber))
  collected :
      (c : Controller) (now : ℕ)
      → tick_check c.subscriber.table now ≡ true
      → Step c
          (record c { candidates = some (addresses_with_stale_entries c.subscriber.table now) })
  pruned :
      (c : Controller) (now : ℕ) (candidates : List Bytes)
      → c.candidates ≡ some candidates
      → Step c (record {
        subscriber = record c.subscriber {
          table = prune_stale_entries c.subscriber.table now candidates;
        };
        candidates = none;
      })

pub data Reach (c : Controller) : Controller → Type 0 where
  at_once : Reach c c
  one_more : {d e : Controller} → Reach c d → Step d e → Reach c e

abbrev pub started : ℕ → ℕ → Controller
started threshold delay = record {
  subscriber = new_subscriber (new_address_table threshold delay);
  candidates = none;
}

pub run_once-table : (a : Answers) (s : Subscriber) → ((run_once a s).1).table ≡ s.table
unfolding run_once set_up send_start_message setup_greet_msg_handler setup_address_message_handler
    close
run_once-table a s = ground arith

-- What the flags of a subscriber say.
abbrev pub IsSetUp : Subscriber → Type 0
IsSetUp s =
    (s.has_run ≡ true)
    × (s.connected ≡ true)
    × (contains register s.topics ≡ true)
    × (contains unregister s.topics ≡ true)

abbrev all_topics : List String → List String
all_topics topics = ((topics ++ greet ∷ []) ++ register ∷ []) ++ unregister ∷ []

or_true : (b : Bool) → ((b || true) || false) ≡ true
or_true b = ground arith

or_last : (b : Bool) → (b || true) ≡ true
or_last b = ground arith

subscribed :
    (topics : List String)
    → (contains register (all_topics topics) ≡ true)
      × (contains unregister (all_topics topics) ≡ true)
unfolding contains
subscribed topics = (
  contains-append register ((topics ++ greet ∷ []) ++ register ∷ []) (unregister ∷ [])
      ∙ rw (contains-append register (topics ++ greet ∷ []) (register ∷ []))
          (or_true (contains register (topics ++ greet ∷ []))),
  contains-append unregister ((topics ++ greet ∷ []) ++ register ∷ []) (unregister ∷ [])
      ∙ or_last (contains unregister ((topics ++ greet ∷ []) ++ register ∷ [])),
)

run_once-IsSetUp :
    (a : Answers) (s : Subscriber)
    → ((s.warming ≡ false) ⊎ IsSetUp s)
    → ((((run_once a s).1).warming ≡ false) ⊎ IsSetUp ((run_once a s).1))
unfolding run_once set_up send_start_message setup_greet_msg_handler setup_address_message_handler
    close contains
run_once-IsSetUp a s h = ground (arith, subscribed s.topics, h)

-- Names have each address once, and none has the empty one.
abbrev pub IsClean : AddressTable → Type 0
IsClean at = IsTable at × ((host : Bytes) → last_seen at host "" ≡ none)

on_register-IsClean :
    (m : Result RegistryMessage) (clock : ℕ → ℕ) (s : Subscriber)
    → IsClean s.table
    → IsClean ((on_register m clock s).table)
unfolding on_register
on_register-IsClean (err e) clock s clean = clean
on_register-IsClean (ok m) clock s (table, bare) = elim (Bool-cases (str_eq m.ip "")) [
  | inl nameless ↦ rw nameless (table, bare)
  | inr named ↦ elim (Bool-cases (is_empty m.infra_names)) [
    | inl nothing ↦ rw (named, nothing) (table, bare)
    | inr names ↦
        rw (named, names)
          (
            add-IsTable s.table (stamped clock m.infra_names) m.ip table,
            λ host.
                last_seen-add s.table (stamped clock m.infra_names) m.ip host ""
                ∙ rw named (bare host),
          )
  ]
]

on_unregister-IsClean :
    (m : Result RegistryMessage) (s : Subscriber)
    → IsClean s.table
    → IsClean ((on_unregister m s).table)
unfolding on_unregister
on_unregister-IsClean (err e) s clean = clean
on_unregister-IsClean (ok m) s (table, bare) = elim (Bool-cases (is_empty m.infra_names)) [
  | inl nothing ↦ rw nothing (table, bare)
  | inr names ↦ rw names (
    remove_all-IsTable s.table m.infra_names m.ip table,
    λ host.
        ground (arith, last_seen-remove_all s.table m.infra_names m.ip host "" table, bare host),
  )
]

prune-IsClean :
    (at : AddressTable) (now : ℕ) (hosts : List Bytes)
    → IsClean at
    → IsClean (prune_stale_entries at now hosts)
prune-IsClean at now hosts (table, bare) = (
  prune_stale_entries-IsTable at now hosts table,
  λ host. ground (arith, last_seen-prune_stale_entries at now hosts host "" table, bare host),
)

-- The table is clean; it is warm only after the warming duration was started; and that was started
-- only once the subscriber was set up.
pub record IsConsistent (c : Controller) : Type 0 where
  pub clean : IsClean c.subscriber.table
  pub warm_later : (c.subscriber.table.warm ≡ false) ⊎ (c.subscriber.warming ≡ true)
  pub set_up_first : (c.subscriber.warming ≡ false) ⊎ IsSetUp c.subscriber

abbrev Flags : Type 0
Flags = Bool × Bool × List String × Bool

abbrev flags : Subscriber → Flags
flags s = (s.has_run, s.connected, s.topics, s.warming)

abbrev AreSetUp : Flags → Type 0
AreSetUp f =
    (f.3 ≡ false)
    ⊎ ((f.0 ≡ true)
        × (f.1 ≡ true)
        × (contains register (f.2) ≡ true)
        × (contains unregister (f.2) ≡ true))

-- A change of the table that keeps it clean and as warm, and keeps the flags.
changed-IsConsistent :
    (c d : Controller)
    → IsConsistent c
    → IsClean d.subscriber.table
    → d.subscriber.table.warm ≡ c.subscriber.table.warm
    → flags c.subscriber ≡ flags d.subscriber
    → IsConsistent d
changed-IsConsistent c d h clean warm same = record {
  clean = clean;
  warm_later = elim h.warm_later [
    | inl cold ↦ inl (warm ∙ cold)
    | inr begun ↦ inr (subst (λ f. f.3 ≡ true) same begun)
  ];
  set_up_first = subst AreSetUp same h.set_up_first;
}

same-IsClean : (at at' : AddressTable) → HasSameAddresses at at' → IsClean at → IsClean at'
same-IsClean at at' same (table, bare) = (
  IsTable-HasSameAddresses at at' same table,
  λ host. last_seen-HasSameAddresses at at' host "" same ∙ bare host,
)

on_register-same :
    (m : Result RegistryMessage) (clock : ℕ → ℕ) (s : Subscriber)
    → ((on_register m clock s).table.warm ≡ s.table.warm)
      × (flags s ≡ flags (on_register m clock s))
unfolding on_register
on_register-same (err e) clock s = (refl, refl)
on_register-same (ok m) clock s = elim (Bool-cases (str_eq m.ip "" || is_empty m.infra_names)) [
  | inl malformed ↦ rw malformed (refl, refl)
  | inr good ↦ rw good ((add-IsSame s.table (stamped clock m.infra_names) m.ip).0, refl)
]

on_unregister-same :
    (m : Result RegistryMessage) (s : Subscriber)
    → ((on_unregister m s).table.warm ≡ s.table.warm) × (flags s ≡ flags (on_unregister m s))
unfolding on_unregister
on_unregister-same (err e) s = (refl, refl)
on_unregister-same (ok m) s = elim (Bool-cases (is_empty m.infra_names)) [
  | inl malformed ↦ rw malformed (refl, refl)
  | inr good ↦ rw good ((remove_all-IsSame s.table m.infra_names m.ip).0, refl)
]

pub on_greet-same :
    (reply : String) (answer : Option Error) (s : Subscriber)
    → ((on_greet reply answer s).table ≡ s.table) × (flags s ≡ flags (on_greet reply answer s))
unfolding on_greet
on_greet-same reply none s = (refl, refl)
on_greet-same reply (some e) s = (refl, refl)

pub on_reconnect-same :
    (now : ℕ) (answer : Option Error) (s : Subscriber)
    → ((on_reconnect now answer s).table ≡ resume_pruning s.table now)
      × (flags s ≡ flags (on_reconnect now answer s))
unfolding on_reconnect send_start_message
on_reconnect-same now none s = (refl, refl)
on_reconnect-same now (some e) s = (refl, refl)

pub close-same : (s : Subscriber) → ((close s).table ≡ s.table) × (flags s ≡ flags (close s))
unfolding close
close-same s = elim (Bool-cases s.connected) [
  | inl made ↦ rw made (refl, refl)
  | inr missing ↦ rw missing (refl, refl)
]

run_once-warming :
    (a : Answers) (s : Subscriber) → s.warming ≡ true → ((run_once a s).1).warming ≡ true
unfolding run_once set_up send_start_message setup_greet_msg_handler setup_address_message_handler
    close
run_once-warming a s h = ground (arith, h)

pub Step-IsConsistent : {c d : Controller} → Step c d → IsConsistent c → IsConsistent d
unfolding on_disconnect on_warm
Step-IsConsistent (ran c a) h = record {
  clean = subst IsClean (sym (run_once-table a c.subscriber)) h.clean;
  warm_later = elim h.warm_later [
    | inl cold ↦ inl (ap (λ t. t.warm) (run_once-table a c.subscriber) ∙ cold)
    | inr begun ↦ inr (run_once-warming a c.subscriber begun)
  ];
  set_up_first = run_once-IsSetUp a c.subscriber h.set_up_first;
}
Step-IsConsistent (registration c m clock asked) h =
    changed-IsConsistent c _ h (on_register-IsClean m clock c.subscriber h.clean)
      ((on_register-same m clock c.subscriber).0) ((on_register-same m clock c.subscriber).1)
Step-IsConsistent (unregistration c m asked) h =
    changed-IsConsistent c _ h (on_unregister-IsClean m c.subscriber h.clean)
      ((on_unregister-same m c.subscriber).0) ((on_unregister-same m c.subscriber).1)
Step-IsConsistent (greeted c reply answer asked) h =
    let (table, same) = on_greet-same reply answer c.subscriber in
    changed-IsConsistent c _ h (subst IsClean (sym table) h.clean) (ap (λ t. t.warm) table) same
Step-IsConsistent (reconnected c now answer made) h =
    let (table, same) = on_reconnect-same now answer c.subscriber in
    changed-IsConsistent c _ h
      (subst IsClean (sym table) (
        same-IsClean c.subscriber.table _ ((flags-HasSameAddresses c.subscriber.table now).2)
          h.clean))
      (ap (λ t. t.warm) table ∙ (pruning_flags-IsSame c.subscriber.table now).1.0) same
Step-IsConsistent (disconnected c made) h =
    changed-IsConsistent c _ h
      (same-IsClean c.subscriber.table _ ((flags-HasSameAddresses c.subscriber.table zero).1)
        h.clean)
      ((pruning_flags-IsSame c.subscriber.table zero).0.0) refl
Step-IsConsistent (warmed c begun) h = record {
  clean =
      same-IsClean c.subscriber.table _ ((flags-HasSameAddresses c.subscriber.table zero).0)
        h.clean;
  warm_later = inr begun;
  set_up_first = h.set_up_first;
}
Step-IsConsistent (stopped c) h =
    let (table, same) = close-same c.subscriber in
    changed-IsConsistent c _ h (subst IsClean (sym table) h.clean) (ap (λ t. t.warm) table) same
Step-IsConsistent (collected c now due) h = changed-IsConsistent c _ h h.clean refl refl
Step-IsConsistent (pruned c now hosts held) h =
    changed-IsConsistent c _ h (prune-IsClean c.subscriber.table now hosts h.clean)
      ((prune_stale_entries-IsSame c.subscriber.table now hosts).0) refl

started-IsConsistent : (threshold delay : ℕ) → IsConsistent (started threshold delay)
unfolding new_subscriber
started-IsConsistent threshold delay = record {
  clean = (
    new_address_table-IsTable threshold delay,
    λ host. (last_seen-new_address_table threshold delay host "").0,
  );
  warm_later = inl ((last_seen-new_address_table threshold delay [] "").1);
  set_up_first = inl refl;
}

-- However the messages, the connection's events, the ticker and the timers interleave: the table has
-- each address of a name once and no empty address; it is warm only after the subscriber was set up
-- whole, with its subscriptions for registrations and for their removal.
pub Reach-IsConsistent :
    (threshold delay : ℕ) {c : Controller} → Reach (started threshold delay) c → IsConsistent c
Reach-IsConsistent threshold delay at_once = started-IsConsistent threshold delay
Reach-IsConsistent threshold delay (one_more r step) =
    Step-IsConsistent step (Reach-IsConsistent threshold delay r)
