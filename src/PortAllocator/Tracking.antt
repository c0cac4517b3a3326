-- ===== src/PortAllocator/Tracking.antt =====
-- What AcquireOne and ReleaseAll of pool.go do to the owners of the ports.
use mathlib.Core.Path.{subst₂}
use native.Mathlib.Nat.{eq-or-lt_of_le}
use cf_networking_release.Prelude.{
  Result-cases, ◌⊎◌, Error, ℕ, zero, suc, ◌+◌, ◌≤◌, ◌<◌, String, ◌≡◌, ◌≢◌, refl, Option, none, some,
  arith, str_eq, ok, err, inl, inr, Option-cases,
}
use cf_networking_release.Assoc.{
  lookup, put, lookup-put, lookup-delete_if, unless_test, IsMap, nat_eq,
}
use cf_networking_release.PortAllocator.{
  Pool, Tracker, is_acquired, acquire_from, acquire_one, release_all, port_pool_exhausted,
}

-- pool.AcquiredPorts[port]
abbrev pub owner : Pool → ℕ → Option String
owner pool port = lookup port pool.acquired_ports

-- The port is the first free one from `first` on, below `first + count`, and the new pool differs
-- from the old in its owner alone.
pub record Acquired (first count : ℕ) (handle : String) (pool pool' : Pool) (port : ℕ)
    : Type 0 where
  pub from_first : first ≤ port
  pub below_end : port < first + count
  pub was_free : owner pool port ≡ none
  pub is_owned : owner pool' port ≡ some handle
  pub kept : (q : ℕ) → q ≢ port → owner pool' q ≡ owner pool q
  pub is_least : (q : ℕ) → first ≤ q → q < port → owner pool q ≢ none

Acquired-first :
    (count first : ℕ) (handle : String) (pool : Pool)
    → owner pool first ≡ none
    → Acquired first
        (suc count)
        handle
        pool
        (record { acquired_ports = put first handle pool.acquired_ports })
        first
Acquired-first count first handle pool free = record {
  from_first = omega arith;
  below_end = omega arith;
  was_free = free;
  is_owned = ground (arith, lookup-put first first handle pool.acquired_ports);
  kept = λ q ne. ground (arith, lookup-put first q handle pool.acquired_ports);
  is_least = λ q lo hi. absurd (omega arith);
}

Acquired-rest :
    (count first : ℕ) (handle : String) (pool pool' : Pool) (port : ℕ)
    → owner pool first ≢ none
    → Acquired (first + 1) count handle pool pool' port
    → Acquired first (suc count) handle pool pool' port
Acquired-rest count first handle pool pool' port taken a = record {
  from_first = omega arith;
  below_end = omega arith;
  was_free = a.was_free;
  is_owned = a.is_owned;
  kept = a.kept;
  is_least = λ q lo hi. elim (eq-or-lt_of_le lo) [
    | inl e ↦ rw (← e) taken
    | inr lt ↦ a.is_least q (omega arith) hi
  ];
}

acquire_from-Acquired :
    (count first : ℕ) (handle : String) (pool pool' : Pool) (port : ℕ)
    → acquire_from count first handle pool ≡ ok (pool', port)
    → Acquired first count handle pool pool' port
unfolding acquire_from is_acquired
acquire_from-Acquired zero first handle pool pool' port h = cc
acquire_from-Acquired (suc count) first handle pool pool' port h =
    elim (Option-cases (owner pool first)) [
      | inl free ↦
          subst₂ (λ p q. Acquired first (suc count) handle pool p q) (ground arith) (ground arith)
            (Acquired-first count first handle pool free)
      | inr (holder, taken) ↦
          Acquired-rest count first handle pool pool' port (λ e. cc)
            (acquire_from-Acquired count (first + 1) handle pool pool' port (ground arith))
    ]

-- AcquireOne gives the first free port of the range to the handle and changes no other owner.
pub acquire_one-Acquired :
    (t : Tracker) (pool pool' : Pool) (handle : String) (port : ℕ)
    → acquire_one t pool handle ≡ ok (pool', port)
    → Acquired t.start_port t.capacity handle pool pool' port
unfolding acquire_one
acquire_one-Acquired t pool pool' handle port h =
    acquire_from-Acquired t.capacity t.start_port handle pool pool' port h

-- Every port of the range has an owner.
abbrev pub IsExhausted : ℕ → ℕ → Pool → Type 0
IsExhausted first count pool = (q : ℕ) → first ≤ q → q < first + count → owner pool q ≢ none

acquire_from_exhausted :
    (count first : ℕ) (handle : String) (pool : Pool)
    → IsExhausted first count pool
    → acquire_from count first handle pool ≡ err port_pool_exhausted
unfolding acquire_from is_acquired
acquire_from_exhausted zero first handle pool full = refl
acquire_from_exhausted (suc count) first handle pool full = ground (
  arith,
  full first (omega arith) (omega arith),
  acquire_from_exhausted count (first + 1) handle pool
      (λ q lo hi. full q (omega arith) (omega arith)),
)

acquire_from-err :
    (count first : ℕ) (handle : String) (pool : Pool) (e : Error)
    → acquire_from count first handle pool ≡ err e
    → IsExhausted first count pool
unfolding acquire_from is_acquired
acquire_from-err zero first handle pool e h q lo hi = absurd (omega arith)
acquire_from-err (suc count) first handle pool e h q lo hi = elim (eq-or-lt_of_le lo) [
  | inl same ↦ rw (← same) (λ free. ground arith)
  | inr later ↦
      acquire_from-err count (first + 1) handle pool e (ground arith) q (omega arith) (omega arith)
]

pub acquire_one-IsExhausted :
    (t : Tracker) (pool : Pool) (handle : String) (e : Error)
    → acquire_one t pool handle ≡ err e
    → IsExhausted t.start_port t.capacity pool
unfolding acquire_one
acquire_one-IsExhausted t pool handle e h = acquire_from-err t.capacity t.start_port handle pool e h

-- AcquireOne gives the first free port of the range to the handle and changes no other owner; or
-- every port of the range has an owner, and it fails with the error for an exhausted pool.
pub acquire_one-cases :
    (t : Tracker) (pool : Pool) (handle : String)
    → ((pool' : Pool) × (port : ℕ) × (acquire_one t pool handle ≡ ok (pool', port))
        × Acquired t.start_port t.capacity handle pool pool' port)
      ⊎ (IsExhausted t.start_port t.capacity pool
          × (acquire_one t pool handle ≡ err port_pool_exhausted))
acquire_one-cases t pool handle = elim (Result-cases (acquire_one t pool handle)) [
  | inl ((pool', port), got) ↦
      inl (pool', port, got, acquire_one-Acquired t pool pool' handle port got)
  | inr (e, failed) ↦
      let full = acquire_one-IsExhausted t pool handle e failed in
      inr (
        full,
        unfold acquire_one in acquire_from_exhausted t.capacity t.start_port handle pool full,
      )
]

abbrev pub IsPool : Pool → Type 0
IsPool pool = IsMap pool.acquired_ports

-- ReleaseAll frees the ports of the handle and keeps the owner of every other port.
pub owner-release_all :
    (pool : Pool) (handle : String) (port : ℕ)
    → IsPool pool
    → owner (release_all pool handle) port ≡ unless_test (λ h. str_eq h handle) (owner pool port)
unfolding release_all
owner-release_all pool handle port h =
    lookup-delete_if (λ h. str_eq h handle) port pool.acquired_ports h
