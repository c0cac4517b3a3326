-- ===== src/PortAllocator/Examples.antt =====
-- AllocatePort on a state file that cannot be written.
use cf_networking_release.Prelude.{◌≡◌, refl, some, [], ◌∷◌, external, wrap, err}
use cf_networking_release.Assoc.{lookup, put}
use cf_networking_release.PortAllocator.{
  Tracker, Io, File, holds, allocate_port, acquire_opened, store_acquired, acquire_one,
  acquire_from, is_acquired, opened, decode_all, decode, failing, unmarshal_json, own_all,
  own_ports, store_pool, encode_and_overwrite, seek_and_write,
}
use cf_networking_release.PortAllocator.Files.{healthy}

abbrev two_ports : Tracker
two_ports = record { start_port = 61000; capacity = 2 }

abbrev state_file : File
state_file = holds (("a", 61000 ∷ []) ∷ [])

abbrev read_only : Io
read_only = record healthy { seek_write = some (external "read-only") }

allocate_port-read_only :
    allocate_port read_only two_ports "b" 0 state_file
    ≡ (state_file, err (wrap "encode and overwrite" (external "read-only")))
unfolding allocate_port acquire_opened store_acquired acquire_one acquire_from is_acquired opened
    decode_all decode failing unmarshal_json own_all own_ports store_pool encode_and_overwrite
    seek_and_write lookup put
allocate_port-read_only = refl
