-- ===== src/Api/Internal.antt =====
-- src/policy-server/api/api_v0_internal: api.go and api_policy_mapper.go. AsStorePolicy panics there
-- and is never called.
use cf_networking_release.Prelude.{
  ℕ, String, Bytes, ℤ, not, List, [], ◌∷◌, length, Option, none, some, if◌then◌else◌, Result,
  wrapping,
}
use cf_networking_release.Prelude.Int.{eq_ℤ}
use cf_networking_release.Store.Models as Models
use cf_networking_release.Api.V0.{add_mapped}

pub record Source : Type 0 where
  pub id : String
  pub tag : Bytes

pub record Ports : Type 0 where
  pub start : ℤ
  pub end : ℤ

pub record Destination : Type 0 where
  pub id : String
  pub tag : Bytes
  pub protocol : String
  pub port : ℤ
  pub ports : Ports

pub record Policy : Type 0 where
  pub source : Source
  pub destination : Destination

pub record Policies : Type 0 where
  pub total_policies : ℕ
  pub policies : List Policy

unfoldable pub map_store_policy : Models.Policy → Option Policy
map_store_policy p =
    if not (eq_ℤ p.destination.ports.start p.destination.ports.end)
    then none
    else some (record {
      source = record { id = p.source.id; tag = p.source.tag };
      destination = record {
        id = p.destination.id;
        tag = p.destination.tag;
        protocol = p.destination.protocol;
        port = p.destination.ports.start;
        ports = record { start = p.destination.ports.start; end = p.destination.ports.end };
      };
    })

unfoldable pub map_store_policies : List Models.Policy → List Policy
map_store_policies [] = []
map_store_policies (p ∷ policies) = add_mapped (map_store_policy p) (map_store_policies policies)

module _ {Json : Type 0} (marshal : Policies → Result Json) where
  unfoldable pub as_bytes : List Models.Policy → Result Json
  as_bytes store_policies =
      let policies = map_store_policies store_policies in
      wrapping "marshal json"
        (marshal (record { total_policies = length policies; policies = policies }))
