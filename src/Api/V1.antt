-- ===== src/Api/V1.antt =====
-- src/policy-server/api/api.go, validator.go and api_policy_mapper.go.
use cf_networking_release.Prelude.{
  ℕ, String, Bytes, bytes_eq, ℤ, pos, ◌||◌, ◌&&◌, not, List, [], ◌∷◌, map, length, str_eq,
  if◌then◌else◌, message, number_error, Result, ok, err, wrapping, ◌>>=◌, ◌>>◌,
}
use cf_networking_release.Prelude.Int.{ltb_ℤ, eq_ℤ}
use cf_networking_release.Store.Models as Models

pub record Source : Type 0 where
  pub id : String
  pub tag : Bytes

pub record Ports : Type 0 where
  pub start : ℤ
  pub end : ℤ

pub record Destination : Type 0 where
  pub id : String
  pub tag : Bytes
  pub protocol : String
  pub ports : Ports

pub record Policy : Type 0 where
  pub source : Source
  pub destination : Destination

pub record Policies : Type 0 where
  pub total_policies : ℕ
  pub policies : List Policy

pub record Tag : Type 0 where
  pub id : String
  pub tag : Bytes

-- The tests of one round of the loop, in order.
unfoldable pub validate_policy : Policy → Result (Unit {0})
validate_policy p =
    if str_eq p.source.id ""
    then err (message "missing source id")
    else if str_eq p.destination.id ""
    then err (message "missing destination id")
    else if not (str_eq p.destination.protocol "udp") && not (str_eq p.destination.protocol "tcp")
    then err (message "invalid destination protocol, specify either udp or tcp")
    else if ltb_ℤ p.destination.ports.end p.destination.ports.start
    then err (
        number_error "invalid port range %d-%d, start must be less than or equal to end"
          (p.destination.ports.start ∷ p.destination.ports.end ∷ []))
    else if ltb_ℤ p.destination.ports.start (pos 0)
    then err (
        number_error "invalid start port %d, must be in range 1-65535"
          (p.destination.ports.start ∷ []))
    else if eq_ℤ p.destination.ports.start (pos 0)
    then err (number_error "missing start port" [])
    else if ltb_ℤ (pos 65535) p.destination.ports.end
    then err (
        number_error "invalid end port %d, must be in range 1-65535" (p.destination.ports.end ∷ []))
    else if not (bytes_eq p.source.tag []) || not (bytes_eq p.destination.tag [])
    then err (message "tags may not be specified")
    else ok tt

unfoldable pub validate_each : List Policy → Result (Unit {0})
validate_each [] = ok tt
validate_each (p ∷ policies) = do validate_policy p; validate_each policies

unfoldable pub validate_policies : List Policy → Result (Unit {0})
validate_policies [] = err (message "missing policies")
validate_policies (p ∷ policies) = validate_each (p ∷ policies)

-- The store keeps the port of a range of one port beside the range, and 0 for a longer one.
unfoldable pub as_store_policy_one : Policy → Models.Policy
as_store_policy_one p = record {
  source = record { id = p.source.id; tag = p.source.tag };
  destination = record {
    id = p.destination.id;
    tag = p.destination.tag;
    protocol = p.destination.protocol;
    port =
        if eq_ℤ p.destination.ports.start p.destination.ports.end
        then p.destination.ports.start
        else pos 0;
    ports = record { start = p.destination.ports.start; end = p.destination.ports.end };
  };
}

unfoldable pub map_store_policy : Models.Policy → Policy
map_store_policy p = record {
  source = record { id = p.source.id; tag = p.source.tag };
  destination = record {
    id = p.destination.id;
    tag = p.destination.tag;
    protocol = p.destination.protocol;
    ports = record { start = p.destination.ports.start; end = p.destination.ports.end };
  };
}

unfoldable pub map_store_tag : Models.Tag → Tag
map_store_tag t = record { id = t.id; tag = t.tag }

unfoldable pub map_store_tags : List Models.Tag → List Tag
map_store_tags tags = map map_store_tag tags

-- The JSON coding of the payload.
module _ {Json : Type 0} (unmarshal : Json → Result Policies)
    (marshal : Policies → Result Json) where
  unfoldable pub as_store_policy : Json → Result (List Models.Policy)
  as_store_policy body = do
    payload ← wrapping "unmarshal json" (unmarshal body)
    wrapping "validate policies" (validate_policies payload.policies)
    ok (map as_store_policy_one payload.policies)

  unfoldable pub as_bytes : List Models.Policy → Result Json
  as_bytes store_policies =
      let policies = map map_store_policy store_policies in
      wrapping "marshal json"
        (marshal (record { total_policies = length policies; policies = policies }))
