-- ===== src/Api/RoundTrip.antt =====
-- What becomes of a policy on its way into the store and back, in each version of the API.
use cf_networking_release.Prelude.{
  ◌≡◌, refl, ap, ◌∙◌, pos, List, [], ◌∷◌, map, length, All, if◌then◌else◌, Result, ok, arith,
  wrapping, inl, inr, Bool, Bool-cases, keep_if, Result-cases,
}
use cf_networking_release.Prelude.Int.{eq_ℤ, eq_ℤ_iff}
use cf_networking_release.Store.Models as Models
use cf_networking_release.Api.V1
use cf_networking_release.Api.V0

map-map_store_policy :
    (policies : List V1.Policy)
    → map V1.map_store_policy (map V1.as_store_policy_one policies) ≡ policies
unfolding V1.map_store_policy V1.as_store_policy_one
map-map_store_policy [] = refl
map-map_store_policy (p ∷ policies) = ap (λ ps. p ∷ ps) (map-map_store_policy policies)

map_store_policies-map :
    (policies : List V0.Policy)
    → V0.map_store_policies (map V0.as_store_policy_one policies) ≡ policies
unfolding V0.map_store_policies V0.as_store_policy_one V0.map_store_policy
map_store_policies-map [] = refl
map_store_policies-map (p ∷ policies) =
    rw ((eq_ℤ_iff p.destination.port p.destination.port).1 refl, map_store_policies-map policies)

-- What the external API accepts is written out again as it was read, with the right total.
pub as_bytes-as_store_policy :
    {Json : Type 0} (unmarshal : Json → Result V1.Policies) (marshal : V1.Policies → Result Json)
    (body : Json) (store_policies : List Models.Policy)
    → V1.as_store_policy unmarshal marshal body ≡ ok store_policies
    → (payload : V1.Policies) × (unmarshal body ≡ ok payload)
      × (V1.as_bytes unmarshal marshal store_policies
          ≡ wrapping "marshal json" (
              marshal
                (record { total_policies = length payload.policies; policies = payload.policies })))
unfolding V1.as_store_policy V1.as_bytes
as_bytes-as_store_policy unmarshal marshal body store_policies h =
    elim (Result-cases (unmarshal body)) [
      | inr (e, failed) ↦ absurd (ground arith)
      | inl (payload, read) ↦ (
        payload,
        read,
        ap
            (λ ps.
              wrapping "marshal json"
                (marshal (record { total_policies = length ps; policies = ps })))
            (ap (map V1.map_store_policy) (stored payload read)
              ∙ map-map_store_policy payload.policies),
      )
    ]
  where
    stored :
        (payload : V1.Policies)
        → unmarshal body ≡ ok payload
        → store_policies ≡ map V1.as_store_policy_one payload.policies
    stored payload read = ground (arith, read)

-- What v0 accepts is written out again as it was read, with the right total: its single port comes
-- back out of the range that the store keeps.
pub as_bytes-as_store_policy_v0 :
    {Json : Type 0} (unmarshal : Json → Result V0.Policies) (marshal : V0.Policies → Result Json)
    (body : Json) (store_policies : List Models.Policy)
    → V0.as_store_policy unmarshal marshal body ≡ ok store_policies
    → (payload : V0.Policies) × (unmarshal body ≡ ok payload)
      × (V0.as_bytes unmarshal marshal store_policies
          ≡ wrapping "marshal json" (
              marshal
                (record { total_policies = length payload.policies; policies = payload.policies })))
unfolding V0.as_store_policy V0.as_bytes
as_bytes-as_store_policy_v0 unmarshal marshal body store_policies h =
    elim (Result-cases (unmarshal body)) [
      | inr (e, failed) ↦ absurd (ground arith)
      | inl (payload, read) ↦ (
        payload,
        read,
        ap
            (λ ps.
              wrapping "marshal json"
                (marshal (record { total_policies = length ps; policies = ps })))
            (ap V0.map_store_policies (stored payload read)
              ∙ map_store_policies-map payload.policies),
      )
    ]
  where
    stored :
        (payload : V0.Policies)
        → unmarshal body ≡ ok payload
        → store_policies ≡ map V0.as_store_policy_one payload.policies
    stored payload read = ground (arith, read)

-- The single port that the store keeps beside the range.
abbrev pub IsCanonical : Models.Policy → Type 0
IsCanonical p = p.destination.port ≡ (
    if eq_ℤ p.destination.ports.start p.destination.ports.end
    then p.destination.ports.start
    else pos 0)

map-IsCanonical :
    (policies : List V1.Policy) → All IsCanonical (map V1.as_store_policy_one policies)
unfolding V1.as_store_policy_one
map-IsCanonical [] = tt
map-IsCanonical (p ∷ policies) = (refl, map-IsCanonical policies)

map-IsCanonical_v0 :
    (policies : List V0.Policy) → All IsCanonical (map V0.as_store_policy_one policies)
unfolding V0.as_store_policy_one
map-IsCanonical_v0 [] = tt
map-IsCanonical_v0 (p ∷ policies) =
    (rw (eq_ℤ_iff p.destination.port p.destination.port).1 refl, map-IsCanonical_v0 policies)

-- Both versions give the store policies whose single port is the range's if that has one port, and 0
-- otherwise, so the same range always comes with the same single port.
pub as_store_policy-IsCanonical :
    (policies : List V1.Policy) (old : List V0.Policy)
    → All IsCanonical (map V1.as_store_policy_one policies)
      × All IsCanonical (map V0.as_store_policy_one old)
as_store_policy-IsCanonical policies old = (map-IsCanonical policies, map-IsCanonical_v0 old)

abbrev pub is_single : V1.Policy → Bool
is_single p = eq_ℤ p.destination.ports.start p.destination.ports.end

abbrev pub single_port : V1.Policy → V0.Policy
single_port p = record {
  source = record { id = p.source.id; tag = p.source.tag };
  destination = record {
    id = p.destination.id;
    tag = p.destination.tag;
    protocol = p.destination.protocol;
    port = p.destination.ports.start;
  };
}

-- Of policies that came in through the external API, v0 shows exactly those with a single port, in
-- order; a range of several ports is left out, not cut down.
pub map_store_policies-as_store_policy :
    (policies : List V1.Policy)
    → V0.map_store_policies (map V1.as_store_policy_one policies)
      ≡ map single_port (keep_if is_single policies)
unfolding V0.map_store_policies V0.map_store_policy V1.as_store_policy_one keep_if
map_store_policies-as_store_policy [] = refl
map_store_policies-as_store_policy (p ∷ policies) =
    elim (Bool-cases (eq_ℤ p.destination.ports.start p.destination.ports.end)) [
      | inl one ↦ rw (one, map_store_policies-as_store_policy policies)
      | inr more ↦ rw more (map_store_policies-as_store_policy policies)
    ]
