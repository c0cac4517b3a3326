-- ===== src/Examples/Policies.antt =====
-- The API on a policy for one port, and JSON as the payload itself.
use cf_networking_release.Prelude.{
  ℕ, ◌≡◌, ◌≢◌, refl, pos, [], ◌∷◌, map, length, All, Result, ok, wrapping, ◌↔◌,
}
use cf_networking_release.Api.V1
use cf_networking_release.Api.V0
use cf_networking_release.Api.Validation.{
  IsValid, IsValidV0, validate_policies_iff, validate_policies_v0_iff,
}
use cf_networking_release.Api.RoundTrip.{as_bytes-as_store_policy}

abbrev ranged : ℕ → V1.Policy
ranged end = record {
  source = record { id = "web"; tag = [] };
  destination = record {
    id = "db";
    tag = [];
    protocol = "tcp";
    ports = record { start = pos 80; end = pos end };
  };
}

abbrev single : V0.Policy
single = record {
  source = record { id = "web"; tag = [] };
  destination = record { id = "db"; tag = []; protocol = "tcp"; port = pos 70000 };
}

abbrev payload : V1.Policies
payload = record { total_policies = 0; policies = ranged 80 ∷ ranged 81 ∷ [] }

abbrev old_payload : V0.Policies
old_payload = record { total_policies = 0; policies = single ∷ [] }

abbrev plain : V1.Policies → Result V1.Policies
plain p = ok p

abbrev old_plain : V0.Policies → Result V0.Policies
old_plain p = ok p

validate_policies_iff_example :
    (V1.validate_policies (ranged 80 ∷ []) ≡ ok tt)
    ↔ ((ranged 80 ∷ [] ≢ []) × All IsValid (ranged 80 ∷ []))
validate_policies_iff_example = validate_policies_iff (ranged 80 ∷ [])

validate_policies_v0_iff_example :
    (V0.validate_policies (single ∷ []) ≡ ok tt)
    ↔ ((single ∷ [] ≢ []) × All IsValidV0 (single ∷ []))
validate_policies_v0_iff_example = validate_policies_v0_iff (single ∷ [])

as_bytes-as_store_policy_example :
    (read : V1.Policies) × (plain payload ≡ ok read)
    × (V1.as_bytes plain plain (map V1.as_store_policy_one (ranged 80 ∷ ranged 81 ∷ []))
        ≡ wrapping "marshal json"
            (plain (record { total_policies = length read.policies; policies = read.policies })))
as_bytes-as_store_policy_example =
    as_bytes-as_store_policy plain plain payload
      (map V1.as_store_policy_one (ranged 80 ∷ ranged 81 ∷ []))
      (unfold V1.as_store_policy V1.validate_policies V1.validate_each V1.validate_policy in refl)
