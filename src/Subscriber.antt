-- ===== src/Subscriber.antt =====
-- src/service-discovery-controller/mbus/subscriber.go: the subscriber that keeps the address table
-- from the messages of NATS, and what the handlers of routes/server.go show of the table. NATS, its
-- connection and the clock are outside: their answers come with each call. A message is its decoded
-- JSON, or the error of decoding it. The goroutines of the subscriber, the table's ticker and the
-- library that calls the handlers interleave, each call whole under the table's lock.
pub mod Steps
pub mod Registered
use cf_networking_release.Prelude.{
  ℕ, zero, suc, String, ℤ, Bool, true, false, ◌||◌, Option, none, some, List, [], ◌∷◌, ◌++◌, map,
  Bytes, Error, message, wrap, Result, ok, err, str_eq, if◌then◌else◌,
}
use cf_networking_release.AddressTable.{
  AddressTable, add, remove_all, set_warm, is_warm, pause_pruning, resume_pruning, lookup_ips,
  get_all_addresses,
}

pub record RegistryMessage : Type 0 where
  pub ip : String
  pub infra_names : List Bytes
  pub endpoint_updated_at : ℤ

-- What was published: the start message, or the answer to a greeting.
pub data Message : Type 0 where
  start : Message
  greeting : String → Message

pub record Subscriber : Type 0 where
  pub table : AddressTable
  -- s.once
  pub has_run : Bool
  -- s.natsClient, if it is not nil
  pub connected : Bool
  pub closed : Bool
  pub topics : List String
  -- The goroutine that waits for the warming duration.
  pub warming : Bool
  pub sent : List Message
  pub transit_times : List ℤ

unfoldable pub new_subscriber : AddressTable → Subscriber
new_subscriber table = record {
  table = table;
  has_run = false;
  connected = false;
  closed = false;
  topics = [];
  warming = false;
  sent = [];
  transit_times = [];
}

-- What NATS answers to the calls of RunOnce.
pub record Answers : Type 0 where
  pub connection : Option Error
  pub publish_start : Option Error
  pub subscribe_greet : Option Error
  pub flush : Option Error
  pub subscribe_register : Option Error
  pub subscribe_unregister : Option Error

abbrev pub Call : Type 0
Call = Subscriber → Result (Unit {0}) × Subscriber

-- `if err != nil { return err }`
abbrev pub and_then : Result (Unit {0}) × Subscriber → Call → Result (Unit {0}) × Subscriber
and_then (err e, s) next = (err e, s)
and_then (ok u, s) next = next s

-- A call of NATS that fails, or changes the subscriber.
abbrev pub answered : Option Error → (Error → Error) → (Subscriber → Subscriber) → Call
answered (some e) wrapping change s = (err (wrapping e), s)
answered none wrapping change s = (ok tt, change s)

unfoldable pub send_start_message : Option Error → Call
send_start_message answer =
    answered answer (wrap "unable to publish a start message")
      (λ s. record s { sent = s.sent ++ start ∷ [] })

abbrev pub subscribe : Option Error → String → Call
subscribe answer topic =
    answered answer (λ e. e) (λ s. record s { topics = s.topics ++ topic ∷ [] })

abbrev pub greet : String
greet = "service-discovery.greet"

abbrev pub register : String
register = "service-discovery.register"

abbrev pub unregister : String
unregister = "service-discovery.unregister"

unfoldable pub setup_greet_msg_handler : Option Error → Option Error → Call
setup_greet_msg_handler subscribed flushed s =
    and_then (subscribe subscribed greet s) (answered flushed (λ e. e) (λ t. t))

unfoldable pub setup_address_message_handler : Option Error → Option Error → Call
setup_address_message_handler registered unregistered s =
    and_then (subscribe registered register s) (subscribe unregistered unregister)

unfoldable pub close : Subscriber → Subscriber
close s = if s.connected then record s { closed = true } else s

-- The function that once.Do runs.
unfoldable pub set_up : Answers → Call
set_up a s =
    and_then
      (answered a.connection (wrap "unable to create nats connection")
        (λ t. record t { connected = true }) s)
      (λ t. and_then (send_start_message a.publish_start t) (λ u.
        and_then (setup_greet_msg_handler a.subscribe_greet a.flush u) (λ v.
          and_then (setup_address_message_handler a.subscribe_register a.subscribe_unregister v)
            (λ w. (ok tt, record w { warming = true })))))

-- `if err != nil { s.Close() }`
abbrev pub closed_on_error : Result (Unit {0}) × Subscriber → Result (Unit {0}) × Subscriber
closed_on_error (err e, s) = (err e, close s)
closed_on_error (ok u, s) = (ok u, s)

unfoldable pub run_once : Answers → Call
run_once a s =
    if s.has_run then (ok tt, s) else closed_on_error (set_up a (record s { has_run = true }))

-- Each name with the clock's reading in its round of Add.
unfoldable pub stamped : (ℕ → ℕ) → List Bytes → List (Bytes × ℕ)
stamped clock [] = []
stamped clock (name ∷ names) = (name, clock zero) ∷ stamped (λ i. clock (suc i)) names

abbrev pub is_empty : List Bytes → Bool
is_empty [] = true
is_empty (name ∷ names) = false

unfoldable pub on_register : Result RegistryMessage → (ℕ → ℕ) → Subscriber → Subscriber
on_register (err e) clock s = s
on_register (ok m) clock s = if str_eq m.ip "" || is_empty m.infra_names then s else record s {
  table = add s.table (stamped clock m.infra_names) m.ip;
  transit_times = s.transit_times ++ m.endpoint_updated_at ∷ [];
}

unfoldable pub on_unregister : Result RegistryMessage → Subscriber → Subscriber
on_unregister (err e) s = s
on_unregister (ok m) s =
    if is_empty m.infra_names then s else record s { table = remove_all s.table m.infra_names m.ip }

-- The handler of a greeting, which logs an error of its answer.
unfoldable pub on_greet : String → Option Error → Subscriber → Subscriber
on_greet reply (some e) s = s
on_greet reply none s = record s { sent = s.sent ++ greeting reply ∷ [] }

-- The handlers that the connection is made with; the error of the start message is dropped.
unfoldable pub on_reconnect : ℕ → Option Error → Subscriber → Subscriber
on_reconnect now answer s =
    (send_start_message answer (record s { table = resume_pruning s.table now })).1

unfoldable pub on_disconnect : Subscriber → Subscriber
on_disconnect s = record s { table = pause_pruning s.table }

-- The goroutine of RunOnce, once the warming duration has passed.
unfoldable pub on_warm : Subscriber → Subscriber
on_warm s = record s { table = set_warm s.table }

pub data Answer : Type 0 where
  not_warm : Answer
  hosts : List String → Answer

-- handleRegistrationRequest, of the last part of the path: the hosts' addresses, or status 500
unfoldable pub handle_registration_request : Bytes → AddressTable → Answer
handle_registration_request service_key at =
    if is_warm at then hosts (lookup_ips at service_key) else not_warm

-- handleRoutesRequest, in the order of the map's range
unfoldable pub handle_routes_request : AddressTable → List (Bytes × List String)
handle_routes_request at = get_all_addresses at
