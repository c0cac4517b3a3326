-- ===== src/Examples/Ports.antt =====
-- The port allocator on a range of two ports.
use cf_networking_release.Prelude.{ℕ, ◌≤◌, ◌<◌, ◌≡◌, ◌≢◌, refl, none, [], ◌∷◌, wrap, ok, err, ◌⊎◌}
use cf_networking_release.Assoc.{lookup, nat_eq}
use cf_networking_release.PortAllocator.{
  Pool, Tracker, File, holds, corrupt, marshal_json, unmarshal_json, allocate_port,
  port_pool_exhausted,
}
use cf_networking_release.PortAllocator.Tracking.{owner, IsPool}
use cf_networking_release.PortAllocator.Json.{owner-unmarshal-marshal}
use cf_networking_release.PortAllocator.Files.{
  file_owner, Allocated, healthy, allocate_port-Allocated_or_exhausted,
}

abbrev pub two_ports : Tracker
two_ports = record { start_port = 61000; capacity = 2 }

abbrev one_taken : Pool
one_taken = record { acquired_ports = (61000, "a") ∷ [] }

abbrev pub state_file : File
state_file = holds (("a", 61000 ∷ []) ∷ [])

one_taken-IsPool : IsPool one_taken
unfolding lookup
one_taken-IsPool = (refl, tt)

owner-unmarshal-marshal_example :
    owner (unmarshal_json (marshal_json one_taken)) 61000 ≡ owner one_taken 61000
owner-unmarshal-marshal_example = owner-unmarshal-marshal one_taken 61000 one_taken-IsPool

pub state_file-readable : state_file ≢ corrupt
state_file-readable e = cc

allocate_port-Allocated_or_exhausted_example :
    ((file : File) × (port : ℕ) × (allocate_port healthy two_ports "b" 0 state_file
        ≡ (file, ok port))
      × Allocated two_ports "b" state_file file port)
    ⊎ (((q : ℕ) → 61000 ≤ q → q < 61002 → file_owner state_file q ≢ none)
        × (allocate_port healthy two_ports "b" 0 state_file
            ≡ (state_file, err (wrap "acquire port" port_pool_exhausted))))
allocate_port-Allocated_or_exhausted_example =
    allocate_port-Allocated_or_exhausted two_ports "b" state_file state_file-readable
