-- ===== src/PortAllocator/Json.antt =====
-- The JSON form of the pool: MarshalJSON and UnmarshalJSON of pool.go.
use cf_networking_release.Prelude.{
  ℕ, String, ◌≡◌, refl, Bool, false, ◌||◌, Option, none, some, List, [], ◌∷◌, ◌++◌, ◌==◌, arith,
  if◌then◌else◌, eq_iff, ==_iff, ◌∙◌, ap,
}
use cf_networking_release.Assoc.{lookup, put, lookup-put, put-IsMap, IsMap, nat_eq, string_eq}
use cf_networking_release.PortAllocator.{
  Pool, PoolJson, ports_of, append_port, marshal_ports, marshal_json, own_ports, own_all,
  unmarshal_json,
}
use cf_networking_release.PortAllocator.Tracking.{owner, IsPool}

has_port : ℕ → List ℕ → Bool
has_port q [] = false
has_port q (p ∷ ps) = p == q || has_port q ps

abbrev or_else {ℓ} : {A : Type ℓ} → Option A → Option A → Option A
or_else none o = o
or_else (some a) o = some a

-- The handle that lists the port; the last one, if several do.
json_owner : ℕ → PoolJson → Option String
unfolding has_port
json_owner q [] = none
json_owner q ((handle, ports) ∷ json) =
    or_else (json_owner q json) (if has_port q ports then some handle else none)

has_port-append : (q p : ℕ) (ps : List ℕ) → has_port q (ps ++ p ∷ []) ≡ (has_port q ps || p == q)
unfolding has_port
has_port-append q p [] = ground arith
has_port-append q p (x ∷ ps) = ground (arith, has_port-append q p ps)

lookup-own_ports :
    (q : ℕ) (handle : String) (ports : List ℕ) (acquired : List (ℕ × String))
    → lookup q (own_ports handle ports acquired)
      ≡ (if has_port q ports then some handle else lookup q acquired)
unfolding own_ports has_port
lookup-own_ports q handle [] acquired = refl
lookup-own_ports q handle (p ∷ ports) acquired =
    ground (
      arith,
      lookup-own_ports q handle ports (put p handle acquired),
      lookup-put p q handle acquired,
    )

lookup-own_all :
    (q : ℕ) (json : PoolJson) (acquired : List (ℕ × String))
    → lookup q (own_all json acquired) ≡ or_else (json_owner q json) (lookup q acquired)
unfolding own_all json_owner
lookup-own_all q [] acquired = refl
lookup-own_all q ((handle, ports) ∷ json) acquired = ground (
  arith,
  lookup-own_all q json (own_ports handle ports acquired),
  lookup-own_ports q handle ports acquired,
)

-- A port that nobody lists yet goes to the handle.
json_owner-append_port :
    (q p : ℕ) (handle : String) (json : PoolJson)
    → json_owner p json ≡ none
    → json_owner q (append_port p handle json) ≡ (if p == q then some handle else json_owner q json)
unfolding append_port json_owner lookup put ports_of
json_owner-append_port q p handle [] h = ground arith
json_owner-append_port q p handle ((k, ports) ∷ json) h = ground (
  arith,
  json_owner-append_port q p handle json,
  has_port-append q p ports,
  eq_iff k handle,
  ==_iff p q,
  ap (λ n. json_owner n json),
)

-- No port of the list is in the object yet.
abbrev Fresh : List (ℕ × String) → PoolJson → Type 0
Fresh ports json = (q : ℕ) (h : String) → lookup q ports ≡ some h → json_owner q json ≡ none

Fresh-append_port :
    (p : ℕ) (handle : String) (ports : List (ℕ × String)) (json : PoolJson)
    → lookup p ports ≡ none
    → Fresh ((p, handle) ∷ ports) json
    → Fresh ports (append_port p handle json)
unfolding lookup
Fresh-append_port p handle ports json new fresh q h found = ground (
  arith,
  json_owner-append_port q p handle json (fresh p handle (ground arith)),
  fresh q h,
  ap (λ n. lookup n ports),
  ==_iff p q,
)

json_owner-marshal_ports :
    (q : ℕ) (ports : List (ℕ × String)) (json : PoolJson)
    → IsMap ports
    → Fresh ports json
    → json_owner q (marshal_ports ports json) ≡ or_else (lookup q ports) (json_owner q json)
unfolding marshal_ports lookup
json_owner-marshal_ports q [] json m fresh = refl
json_owner-marshal_ports q ((p, handle) ∷ ports) json m fresh = ground (
  arith,
  json_owner-marshal_ports q ports (append_port p handle json) m.1
      (Fresh-append_port p handle ports json m.0 fresh),
  json_owner-append_port q p handle json (fresh p handle (ground arith)),
  m.0,
  ap (λ n. lookup n ports),
  ==_iff p q,
)

-- Reading back what MarshalJSON wrote gives every port its owner again, in whatever order the map
-- was visited.
pub owner-unmarshal-marshal :
    (pool : Pool) (port : ℕ)
    → IsPool pool
    → owner (unmarshal_json (marshal_json pool)) port ≡ owner pool port
unfolding marshal_json unmarshal_json json_owner lookup
owner-unmarshal-marshal pool port m =
    lookup-own_all port (marshal_ports pool.acquired_ports []) []
    ∙ ground (arith, json_owner-marshal_ports port pool.acquired_ports [] m (λ q h e. refl))

own_ports-IsMap :
    (handle : String) (ports : List ℕ) (acquired : List (ℕ × String))
    → IsMap acquired
    → IsMap (own_ports handle ports acquired)
unfolding own_ports
own_ports-IsMap handle [] acquired m = m
own_ports-IsMap handle (p ∷ ports) acquired m =
    own_ports-IsMap handle ports (put p handle acquired) (put-IsMap p handle acquired m)

own_all-IsMap :
    (json : PoolJson) (acquired : List (ℕ × String))
    → IsMap acquired
    → IsMap (own_all json acquired)
unfolding own_all
own_all-IsMap [] acquired m = m
own_all-IsMap ((handle, ports) ∷ json) acquired m =
    own_all-IsMap json (own_ports handle ports acquired) (own_ports-IsMap handle ports acquired m)

-- Whatever was decoded is a map.
pub unmarshal_json-IsPool : (json : PoolJson) → IsPool (unmarshal_json json)
unfolding unmarshal_json
unmarshal_json-IsPool json = own_all-IsMap json [] tt
