-- ===== src/Api/Validation.antt =====
-- What the two validators accept.
use cf_networking_release.Prelude.{
  ◌≤◌, String, Bytes, bytes_eq_iff, ◌≡◌, ◌≢◌, ◌↔◌, ◌⊎◌, refl, ℤ, pos, negsuc, List, [], ◌∷◌, All,
  eq_iff, Result, ok, err, arith, >>=-eq-ok, if◌then◌else◌, number_error,
}
use cf_networking_release.Prelude.Int.{ltb_ℤ, eq_ℤ}
use cf_networking_release.Api.V1
use cf_networking_release.Api.V0

-- Both apps are named, the protocol is known, and there are no tags.
abbrev pub IsNamed : String → String → String → Bytes → Bytes → Type 0
IsNamed source destination protocol source_tag destination_tag =
    (source ≢ "")
    × (destination ≢ "")
    × ((protocol ≡ "udp") ⊎ (protocol ≡ "tcp"))
    × (source_tag ≡ [])
    × (destination_tag ≡ [])

-- The ports are a range within 1 to 65535.
abbrev pub IsRange : ℤ → ℤ → Type 0
IsRange (pos a) (pos b) = (1 ≤ a) × (a ≤ b) × (b ≤ 65535)
IsRange (pos a) (negsuc b) = ⊥
IsRange (negsuc a) b = ⊥

abbrev pub IsValid : V1.Policy → Type 0
IsValid p =
    IsNamed p.source.id p.destination.id p.destination.protocol p.source.tag p.destination.tag
    × IsRange p.destination.ports.start p.destination.ports.end

abbrev pub IsPositive : ℤ → Type 0
IsPositive (pos a) = 1 ≤ a
IsPositive (negsuc a) = ⊥

-- v0 bounds its port from below only.
abbrev pub IsValidV0 : V0.Policy → Type 0
IsValidV0 p =
    IsNamed p.source.id p.destination.id p.destination.protocol p.source.tag p.destination.tag
    × IsPositive p.destination.port

-- The tests on the range, in the order of the code.
range_tests : ℤ → ℤ → Result (Unit {0})
range_tests start end =
    if ltb_ℤ end start
    then err (
        number_error "invalid port range %d-%d, start must be less than or equal to end"
          (start ∷ end ∷ []))
    else if ltb_ℤ start (pos 0)
    then err (number_error "invalid start port %d, must be in range 1-65535" (start ∷ []))
    else if eq_ℤ start (pos 0)
    then err (number_error "missing start port" [])
    else if ltb_ℤ (pos 65535) end
    then err (number_error "invalid end port %d, must be in range 1-65535" (end ∷ []))
    else ok tt

range_tests-IsRange : (start end : ℤ) → range_tests start end ≡ ok tt → IsRange start end
unfolding range_tests
range_tests-IsRange (pos a) (pos b) h = ground arith
range_tests-IsRange (pos a) (negsuc b) h = ground arith
range_tests-IsRange (negsuc a) b h = ground arith

IsRange-range_tests : (start end : ℤ) → IsRange start end → range_tests start end ≡ ok tt
unfolding range_tests
IsRange-range_tests (pos a) (pos b) v = ground arith
IsRange-range_tests (pos a) (negsuc b) v = absurd v
IsRange-range_tests (negsuc a) b v = absurd v

validate_policy-IsValid : (p : V1.Policy) → V1.validate_policy p ≡ ok tt → IsValid p
unfolding V1.validate_policy
validate_policy-IsValid p h = (
  ground (
    arith,
    eq_iff p.source.id "",
    eq_iff p.destination.id "",
    eq_iff p.destination.protocol "udp",
    eq_iff p.destination.protocol "tcp",
    bytes_eq_iff p.source.tag [],
    bytes_eq_iff p.destination.tag [],
  ),
  range_tests-IsRange p.destination.ports.start p.destination.ports.end
      (unfold range_tests in ground arith),
)

IsValid-validate_policy : (p : V1.Policy) → IsValid p → V1.validate_policy p ≡ ok tt
unfolding V1.validate_policy range_tests
IsValid-validate_policy p v = ground (
  arith,
  eq_iff p.source.id "",
  eq_iff p.destination.id "",
  eq_iff p.destination.protocol "udp",
  eq_iff p.destination.protocol "tcp",
  bytes_eq_iff p.source.tag [],
  bytes_eq_iff p.destination.tag [],
  IsRange-range_tests p.destination.ports.start p.destination.ports.end v.1,
)

validate_each_iff :
    (policies : List V1.Policy) → (V1.validate_each policies ≡ ok tt) ↔ All IsValid policies
unfolding V1.validate_each
validate_each_iff [] = (λ h. tt, λ h. refl)
validate_each_iff (p ∷ policies) = (
  λ h.
      let (u, first, rest) = >>=-eq-ok (V1.validate_policy p) (λ u. V1.validate_each policies) h in
      (validate_policy-IsValid p first, (validate_each_iff policies).0 rest),
  λ v. rw (IsValid-validate_policy p v.0) ((validate_each_iff policies).1 v.1),
)

-- The validator of the external API accepts a list exactly if it is not empty and each policy names
-- both apps, has the protocol udp or tcp, a range of ports within 1 to 65535, and no tags.
pub validate_policies_iff :
    (policies : List V1.Policy)
    → (V1.validate_policies policies ≡ ok tt) ↔ ((policies ≢ []) × All IsValid policies)
unfolding V1.validate_policies
validate_policies_iff [] = (λ h. cc, λ v. absurd (v.0 refl))
validate_policies_iff (p ∷ policies) = (
  λ h. (λ e. cc, (validate_each_iff (p ∷ policies)).0 h),
  λ v. (validate_each_iff (p ∷ policies)).1 v.1,
)

validate_v0-IsValid : (p : V0.Policy) → V0.validate_policy p ≡ ok tt → IsValidV0 p
unfolding V0.validate_policy
validate_v0-IsValid p h = ground (
  arith,
  eq_iff p.source.id "",
  eq_iff p.destination.id "",
  eq_iff p.destination.protocol "udp",
  eq_iff p.destination.protocol "tcp",
  bytes_eq_iff p.source.tag [],
  bytes_eq_iff p.destination.tag [],
)

IsValid-validate_v0 : (p : V0.Policy) → IsValidV0 p → V0.validate_policy p ≡ ok tt
unfolding V0.validate_policy
IsValid-validate_v0 p v = ground (
  arith,
  eq_iff p.source.id "",
  eq_iff p.destination.id "",
  eq_iff p.destination.protocol "udp",
  eq_iff p.destination.protocol "tcp",
  bytes_eq_iff p.source.tag [],
  bytes_eq_iff p.destination.tag [],
)

validate_each_v0_iff :
    (policies : List V0.Policy) → (V0.validate_each policies ≡ ok tt) ↔ All IsValidV0 policies
unfolding V0.validate_each
validate_each_v0_iff [] = (λ h. tt, λ h. refl)
validate_each_v0_iff (p ∷ policies) = (
  λ h.
      let (u, first, rest) = >>=-eq-ok (V0.validate_policy p) (λ u. V0.validate_each policies) h in
      (validate_v0-IsValid p first, (validate_each_v0_iff policies).0 rest),
  λ v. rw (IsValid-validate_v0 p v.0) ((validate_each_v0_iff policies).1 v.1),
)

-- The validator of v0 accepts a list exactly if it is not empty and each policy names both apps, has
-- the protocol udp or tcp, a port of at least 1, and no tags. Ports past 65535 are accepted.
pub validate_policies_v0_iff :
    (policies : List V0.Policy)
    → (V0.validate_policies policies ≡ ok tt) ↔ ((policies ≢ []) × All IsValidV0 policies)
unfolding V0.validate_policies
validate_policies_v0_iff [] = (λ h. cc, λ v. absurd (v.0 refl))
validate_policies_v0_iff (p ∷ policies) = (
  λ h. (λ e. cc, (validate_each_v0_iff (p ∷ policies)).0 h),
  λ v. (validate_each_v0_iff (p ∷ policies)).1 v.1,
)
