-- ===== src/PortAllocator/Files.antt =====
-- AllocatePort and ReleaseAllPorts of port_allocator.go over the state file.
use mathlib.Core.Path.{subst, subst₂}
use cf_networking_release.Prelude.{
  [], zero, suc, ◌≤◌, ◌<◌, leb, ltb, ◌&&◌, sym, ap, ◌∙◌, Option-cases, message, ℕ, ◌+◌, String, ◌≡◌,
  ◌≢◌, refl, Option, none, some, arith, str_eq, if◌then◌else◌, ◌⊎◌, inl, inr, Error, wrap, ok, err,
  Result-cases,
}
use cf_networking_release.Assoc.{put-IsMap, delete_if-IsMap, lookup, nat_eq, unless_test}
use cf_networking_release.PortAllocator.{
  Pool, Tracker, File, Io, marshal_json, unmarshal_json, acquire_one, acquire_from, release_all,
  allocate_port, release_all_ports, failing, decode, decode_all, write_json, truncate_and_write,
  seek_and_write, encode_and_overwrite, store_pool, store_acquired, opened, acquire_opened,
  release_opened, in_range, is_acquired, empty, holds, corrupt, port_pool_exhausted,
}
use cf_networking_release.PortAllocator.Tracking.{
  owner, IsPool, Acquired, acquire_one-Acquired, acquire_one-cases, owner-release_all,
}
use cf_networking_release.PortAllocator.Json.{owner-unmarshal-marshal, unmarshal_json-IsPool}

release_all-IsPool :
    (pool : Pool) (handle : String) → IsPool pool → IsPool (release_all pool handle)
unfolding release_all
release_all-IsPool pool handle m = delete_if-IsMap (λ h. str_eq h handle) pool.acquired_ports m

-- The owner that the state file records for a port.
abbrev pub file_owner : File → ℕ → Option String
file_owner empty port = none
file_owner (holds json) port = owner (unmarshal_json json) port
file_owner corrupt port = none

decode-IsPool : (file : File) (pool : Pool) → decode file ≡ ok pool → IsPool pool
unfolding decode
decode-IsPool empty pool h = subst IsPool {x = record { acquired_ports = [] }} (ground arith) tt
decode-IsPool (holds json) pool h = subst IsPool (ground arith) (unmarshal_json-IsPool json)
decode-IsPool corrupt pool h = cc

owner-decode :
    (file : File) (pool : Pool) (port : ℕ)
    → decode file ≡ ok pool
    → owner pool port ≡ file_owner file port
unfolding decode lookup
owner-decode empty pool port h =
    subst (λ p. owner p port ≡ none) {x = record { acquired_ports = [] }} (ground arith) refl
owner-decode (holds json) pool port h =
    subst (λ p. owner p port ≡ owner (unmarshal_json json) port) {x = unmarshal_json json}
      (ground arith) refl
owner-decode corrupt pool port h = cc

opened-decode :
    (io : Io) (file : File) (pool : Pool) → opened io file ≡ ok pool → decode file ≡ ok pool
unfolding opened decode_all failing
opened-decode io file pool h = ground arith

acquire_from-IsPool :
    (count first : ℕ) (handle : String) (pool pool' : Pool) (port : ℕ)
    → acquire_from count first handle pool ≡ ok (pool', port)
    → IsPool pool
    → IsPool pool'
unfolding acquire_from is_acquired
acquire_from-IsPool zero first handle pool pool' port h m = cc
acquire_from-IsPool (suc count) first handle pool pool' port h m =
    elim (Option-cases (owner pool first)) [
      | inl free ↦ subst IsPool (ground arith) (put-IsMap first handle pool.acquired_ports m)
      | inr (holder, taken) ↦
          acquire_from-IsPool count (first + 1) handle pool pool' port (ground arith) m
    ]

store_pool-ok {ℓ} :
    {A : Type ℓ} (io : Io) (file file' : File) (pool : Pool) (a b : A)
    → store_pool io file pool a ≡ (file', ok b)
    → (file' ≡ holds (marshal_json pool)) × (a ≡ b)
unfolding store_pool encode_and_overwrite seek_and_write truncate_and_write write_json
store_pool-ok io file file' pool a b h = ground arith

store_pool-err {ℓ} :
    {A : Type ℓ} (io : Io) (file file' : File) (pool : Pool) (a : A) (e : Error)
    → store_pool io file pool a ≡ (file', err e)
    → io.write ≡ none
    → file' ≡ file
unfolding store_pool encode_and_overwrite seek_and_write truncate_and_write write_json
store_pool-err io file file' pool a e h w = ground arith

-- A port that was free in the file goes to the handle, and the other owners stay.
pub record Allocated (t : Tracker) (handle : String) (file file' : File) (port : ℕ) : Type 0 where
  pub from_start : t.start_port ≤ port
  pub below_end : port < t.start_port + t.capacity
  pub was_free : file_owner file port ≡ none
  pub is_owned : file_owner file' port ≡ some handle
  pub kept : (q : ℕ) → q ≢ port → file_owner file' q ≡ file_owner file q

Allocated-stored :
    (t : Tracker) (handle : String) (file : File) (pool pool' : Pool) (port : ℕ)
    → decode file ≡ ok pool
    → acquire_one t pool handle ≡ ok (pool', port)
    → Allocated t handle file (holds (marshal_json pool')) port
unfolding acquire_one
Allocated-stored t handle file pool pool' port d a = record {
  from_start = acquired.from_first;
  below_end = acquired.below_end;
  was_free = sym (owner-decode file pool port d) ∙ acquired.was_free;
  is_owned = owner-unmarshal-marshal pool' port valid ∙ acquired.is_owned;
  kept = λ q ne.
      owner-unmarshal-marshal pool' q valid ∙ acquired.kept q ne ∙ owner-decode file pool q d;
}
  where
    acquired : Acquired t.start_port t.capacity handle pool pool' port
    acquired = acquire_one-Acquired t pool pool' handle port a

    valid : IsPool pool'
    valid =
        acquire_from-IsPool t.capacity t.start_port handle pool pool' port a
          (decode-IsPool file pool d)

allocate_port-Allocated :
    (io : Io) (t : Tracker) (handle : String) (file file' : File) (port : ℕ)
    → allocate_port io t handle 0 file ≡ (file', ok port)
    → Allocated t handle file file' port
unfolding allocate_port acquire_opened store_acquired
allocate_port-Allocated io t handle file file' port h = elim (Result-cases (opened io file)) [
  | inr (e, failed) ↦ absurd (ground arith)
  | inl (pool, read) ↦ elim (Result-cases (acquire_one t pool handle)) [
    | inr (e, failed) ↦ absurd (ground arith)
    | inl ((pool', q), acquired) ↦
        let stored = store_pool-ok io file file' pool' q port (ground arith) in
        subst₂ (Allocated t handle file) (sym stored.0) stored.1
          (Allocated-stored t handle file pool pool' q (opened-decode io file pool read) acquired)
  ]
]

-- No call on the lock or the file fails.
abbrev pub healthy : Io
healthy = record {
  open_lock = none;
  seek_read = none;
  read = none;
  seek_write = none;
  truncate = none;
  write = none;
}

opened-healthy :
    (file : File)
    → file ≢ corrupt
    → (pool : Pool) × (decode file ≡ ok pool) × (opened healthy file ≡ ok pool)
unfolding opened decode_all decode failing
opened-healthy empty h = (record { acquired_ports = [] }, refl, refl)
opened-healthy (holds json) h = (unmarshal_json json, refl, refl)
opened-healthy corrupt h = absurd (h refl)

store_pool-healthy {ℓ} :
    {A : Type ℓ} (file : File) (pool : Pool) (a : A)
    → store_pool healthy file pool a ≡ (holds (marshal_json pool), ok a)
unfolding store_pool encode_and_overwrite seek_and_write truncate_and_write write_json
store_pool-healthy file pool a = refl

-- Where no call on the lock or the file fails and the file decodes, AllocatePort for port 0 returns a
-- port of the range that nobody had in the state file before, the handle has it in the new file, and
-- no other port has changed its owner; or every port of the range has an owner, and it fails and
-- leaves the file as it was.
pub allocate_port-Allocated_or_exhausted :
    (t : Tracker) (handle : String) (file : File)
    → file ≢ corrupt
    → ((file' : File) × (port : ℕ) × (allocate_port healthy t handle 0 file ≡ (file', ok port))
        × Allocated t handle file file' port)
      ⊎ (((q : ℕ) → t.start_port ≤ q → q < t.start_port + t.capacity → file_owner file q ≢ none)
          × (allocate_port healthy t handle 0 file
              ≡ (file, err (wrap "acquire port" port_pool_exhausted))))
unfolding allocate_port acquire_opened store_acquired
allocate_port-Allocated_or_exhausted t handle file h =
    let (pool, decoded, read) = opened-healthy file h in
    elim (acquire_one-cases t pool handle) [
      | inl (pool', port, got, acquired) ↦ inl (
        holds (marshal_json pool'),
        port,
        rw (read, got) (store_pool-healthy file pool' port),
        Allocated-stored t handle file pool pool' port decoded got,
      )
      | inr (full, failed) ↦ inr (
        λ q lo hi free. full q lo hi (owner-decode file pool q decoded ∙ free),
        rw (read, failed) refl,
      )
    ]

-- A port that the caller chooses is refused exactly if it lies in the allocation range, and is
-- otherwise returned; the lock and the state file are not touched.
pub allocate_port_chosen :
    (io : Io) (t : Tracker) (handle : String) (file : File) (port : ℕ)
    → 0 < port
    → allocate_port io t handle port file ≡ (
        if leb t.start_port port && ltb port (t.start_port + t.capacity)
        then (file, err (message "cannot specify port from allocation range"))
        else (file, ok port))
unfolding allocate_port in_range
allocate_port_chosen io t handle file port h = ground arith

-- An AllocatePort that fails leaves the state file as it was, unless the write itself failed.
pub allocate_port-err :
    (io : Io) (t : Tracker) (handle : String) (file file' : File) (port : ℕ) (e : Error)
    → allocate_port io t handle port file ≡ (file', err e)
    → io.write ≡ none
    → file' ≡ file
unfolding allocate_port acquire_opened store_acquired
allocate_port-err io t handle file file' port e h w = elim (Result-cases (opened io file)) [
  | inr (e', failed) ↦ ground arith
  | inl (pool, read) ↦ elim (Result-cases (acquire_one t pool handle)) [
    | inr (e', failed) ↦ ground arith
    | inl ((pool', q), acquired) ↦ ground (
      arith,
      λ (s : store_pool io file pool' q ≡ (file', err e)).
          store_pool-err io file file' pool' q e s w,
    )
  ]
]

file_owner-release_all_ports :
    (io : Io) (handle : String) (file file' : File) (port : ℕ)
    → release_all_ports io handle file ≡ (file', ok tt)
    → file_owner file' port ≡ unless_test (λ h. str_eq h handle) (file_owner file port)
unfolding release_all_ports release_opened
file_owner-release_all_ports io handle file file' port h = elim (Result-cases (opened io file)) [
  | inr (e, failed) ↦ absurd (ground arith)
  | inl (pool, read) ↦
      let stored = store_pool-ok {0} io file file' (release_all pool handle) tt tt (ground arith) in
      rw stored.0 (released pool (opened-decode io file pool read))
]
  where
    released :
        (pool : Pool)
        → decode file ≡ ok pool
        → file_owner (holds (marshal_json (release_all pool handle))) port
          ≡ unless_test (λ h. str_eq h handle) (file_owner file port)
    released pool d =
        owner-unmarshal-marshal (release_all pool handle) port
          (release_all-IsPool pool handle (decode-IsPool file pool d))
        ∙ owner-release_all pool handle port (decode-IsPool file pool d)
        ∙ ap (unless_test (λ h. str_eq h handle)) (owner-decode file pool port d)

-- Where no call on the lock or the file fails and the file decodes, ReleaseAllPorts succeeds and takes
-- from the state file the ports of the handle and no others.
pub release_all_ports-file_owner :
    (handle : String) (file : File)
    → file ≢ corrupt
    → (file' : File) × (release_all_ports healthy handle file ≡ (file', ok tt))
      × ((port : ℕ)
          → file_owner file' port ≡ unless_test (λ h. str_eq h handle) (file_owner file port))
unfolding release_all_ports release_opened
release_all_ports-file_owner handle file h =
    let (pool, decoded, read) = opened-healthy file h in
    let file' = holds (marshal_json (release_all pool handle)) in
    let done : release_all_ports healthy handle file ≡ (file', ok tt) =
      rw read (store_pool-healthy file (release_all pool handle) tt) in
    (file', done, λ port. file_owner-release_all_ports healthy handle file file' port done)
