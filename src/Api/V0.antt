-- ===== src/Api/V0.antt =====
-- src/policy-server/api/api_v0: api.go, validator.go and api_policy_mapper.go.
use cf_networking_release.Prelude.{
  ℕ, String, Bytes, bytes_eq, ℤ, pos, ◌||◌, ◌&&◌, not, List, [], ◌∷◌, map, length, str_eq, Option,
  none, some, if◌then◌else◌, message, number_error, Result, ok, err, wrapping, ◌>>=◌, ◌>>◌,
}
use cf_networking_release.Prelude.Int.{ltb_ℤ, eq_ℤ}
use cf_networking_release.Store.Models as Models

pub record Source : Type 0 where
  pub id : String
  pub tag : Bytes

pub record Destination : Type 0 where
  pub id : String
  pub tag : Bytes
  pub protocol : String
  pub port : ℤ

pub record Policy : Type 0 where
  pub source : Source
  pub destination : Destination

pub record Policies : Type 0 where
  pub total_policies : ℕ
  pub policies : List Policy

unfoldable pub validate_policy : Policy → Result (Unit {0})
validate_policy p =
    if str_eq p.source.id ""
    then err (message "missing source id")
    else if str_eq p.destination.id ""
    then err (message "missing destination id")
    else if not (str_eq p.destination.protocol "udp") && not (str_eq p.destination.protocol "tcp")
    then err (message "invalid destination protocol, specify either udp or tcp")
    else if ltb_ℤ p.destination.port (pos 0)
    then err (number_error "invalid port %d, must be in range 1-65535" (p.destination.port ∷ []))
    else if eq_ℤ p.destination.port (pos 0)
    then err (number_error "missing port" [])
    else if not (bytes_eq p.source.tag []) || not (bytes_eq p.destination.tag [])
    then err (message "tags may not be specified")
    else ok tt

unfoldable pub validate_each : List Policy → Result (Unit {0})
validate_each [] = ok tt
validate_each (p ∷ policies) = do validate_policy p; validate_each policies

unfoldable pub validate_policies : List Policy → Result (Unit {0})
validate_policies [] = err (message "missing policies")
validate_policies (p ∷ policies) = validate_each (p ∷ policies)

unfoldable pub as_store_policy_one : Policy → Models.Policy
as_store_policy_one p = record {
  source = record { id = p.source.id; tag = p.source.tag };
  destination = record {
    id = p.destination.id;
    tag = p.destination.tag;
    protocol = p.destination.protocol;
    port = p.destination.port;
    ports = record { start = p.destination.port; end = p.destination.port };
  };
}

-- A range of several ports has no form in v0.
unfoldable pub map_store_policy : Models.Policy → Option Policy
map_store_policy p =
    if not (eq_ℤ p.destination.ports.start p.destination.ports.end)
    then none
    else some (record {
      source = record { id = p.source.id; tag = p.source.tag };
      destination = record {
        id = p.destination.id;
        tag = p.destination.tag;
        protocol = p.destination.protocol;
        port = p.destination.ports.start;
      };
    })

abbrev pub add_mapped : {A : Type 0} → Option A → List A → List A
add_mapped none rest = rest
add_mapped (some a) rest = a ∷ rest

-- The policies that have a form, in order.
unfoldable pub map_store_policies : List Models.Policy → List Policy
map_store_policies [] = []
map_store_policies (p ∷ policies) = add_mapped (map_store_policy p) (map_store_policies policies)

module _ {Json : Type 0} (unmarshal : Json → Result Policies)
    (marshal : Policies → Result Json) where
  unfoldable pub as_store_policy : Json → Result (List Models.Policy)
  as_store_policy body = do
    payload ← wrapping "unmarshal json" (unmarshal body)
    wrapping "validate policies" (validate_policies payload.policies)
    ok (map as_store_policy_one payload.policies)

  unfoldable pub as_bytes : List Models.Policy → Result Json
  as_bytes store_policies =
      let policies = map_store_policies store_policies in
      wrapping "marshal json"
        (marshal (record { total_policies = length policies; policies = policies }))
