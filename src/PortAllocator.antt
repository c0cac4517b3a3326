-- ===== src/PortAllocator.antt =====
-- src/garden-external-networker/port_allocator: Pool and Tracker (pool.go) and the PortAllocator
-- over a locked state file (port_allocator.go), with Serial of src/lib/serial/file_serializer.go.
-- Ports are natural numbers. The state file is its content: nothing, a JSON object, or bytes that
-- do not decode; encoding/json is taken as keeping the object.
pub mod Tracking
pub mod Json
pub mod Files
mod Examples
use cf_networking_release.Prelude.{
  ℕ, zero, suc, ◌+◌, String, Bool, true, false, ◌&&◌, Option, none, some, List, [], ◌∷◌, ◌++◌, leb,
  ltb, ◌==◌, str_eq, if◌then◌else◌, Error, message, Result, ok, err, wrap, wrapping, ◌>>◌,
}
use cf_networking_release.Assoc.{lookup, put, delete_if, nat_eq, string_eq}

pub record Pool : Type 0 where
  pub acquired_ports : List (ℕ × String)

-- "acquired_ports" of the JSON form: the ports of each handle.
abbrev pub PoolJson : Type 0
PoolJson = List (String × List ℕ)

ports_of : Option (List ℕ) → List ℕ
ports_of none = []
ports_of (some ports) = ports

-- acquired[handle] = append(acquired[handle], port)
append_port : ℕ → String → PoolJson → PoolJson
unfolding ports_of lookup put
append_port port handle json = put handle (ports_of (lookup handle json) ++ port ∷ []) json

marshal_ports : List (ℕ × String) → PoolJson → PoolJson
unfolding append_port
marshal_ports [] json = json
marshal_ports ((port, handle) ∷ ports) json = marshal_ports ports (append_port port handle json)

pub marshal_json : Pool → PoolJson
unfolding marshal_ports
marshal_json pool = marshal_ports pool.acquired_ports []

own_ports : String → List ℕ → List (ℕ × String) → List (ℕ × String)
unfolding put
own_ports handle [] acquired = acquired
own_ports handle (port ∷ ports) acquired = own_ports handle ports (put port handle acquired)

own_all : PoolJson → List (ℕ × String) → List (ℕ × String)
unfolding own_ports
own_all [] acquired = acquired
own_all ((handle, ports) ∷ json) acquired = own_all json (own_ports handle ports acquired)

pub unmarshal_json : PoolJson → Pool
unfolding own_all
unmarshal_json json = record { acquired_ports = own_all json [] }

pub record Tracker : Type 0 where
  pub start_port : ℕ
  pub capacity : ℕ

pub in_range : Tracker → ℕ → Bool
in_range t port = leb t.start_port port && ltb port (t.start_port + t.capacity)

pub is_acquired : List (ℕ × String) → ℕ → Bool
unfolding lookup
is_acquired ports candidate = elim (lookup candidate ports) [ none ↦ false | some h ↦ true ]

abbrev pub port_pool_exhausted : Error
port_pool_exhausted = message "port pool exhausted"

-- The loop over the candidates: how many are left, and the next one.
acquire_from : ℕ → ℕ → String → Pool → Result (Pool × ℕ)
unfolding is_acquired put
acquire_from zero candidate handle pool = err port_pool_exhausted
acquire_from (suc left) candidate handle pool =
    let rest = acquire_from left (candidate + 1) handle pool in
    if is_acquired pool.acquired_ports candidate
    then rest
    else ok (record { acquired_ports = put candidate handle pool.acquired_ports }, candidate)

-- On an error the pool is as it was.
pub acquire_one : Tracker → Pool → String → Result (Pool × ℕ)
unfolding acquire_from
acquire_one t pool handle = acquire_from t.capacity t.start_port handle pool

pub release_all : Pool → String → Pool
unfolding delete_if
release_all pool handle = record {
  acquired_ports = delete_if (λ h. str_eq h handle) pool.acquired_ports;
}

pub data File : Type 0 where
  empty : File
  holds : PoolJson → File
  corrupt : File

-- What the file system and the lock do in one call: `none` is success. A failed write leaves some
-- content behind.
pub record Io : Type 0 where
  pub open_lock : Option Error
  pub seek_read : Option Error
  pub read : Option Error
  pub seek_write : Option Error
  pub truncate : Option Error
  pub write : Option (Error × File)

failing : Option Error → Result (Unit {0})
failing none = ok tt
failing (some e) = err e

decode : File → Result Pool
unfolding unmarshal_json
decode empty = ok (record { acquired_ports = [] })
decode (holds json) = ok (unmarshal_json json)
decode corrupt = err (message "invalid JSON")

pub decode_all : Io → File → Result Pool
unfolding failing decode
decode_all io file = do failing io.seek_read; failing io.read; decode file

-- The file that a failed or finished overwrite leaves, and its result.
write_json : Option (Error × File) → Pool → File × Result (Unit {0})
unfolding marshal_json
write_json none pool = (holds (marshal_json pool), ok tt)
write_json (some (e, left)) pool = (left, err e)

truncate_and_write : Option Error → Io → File → Pool → File × Result (Unit {0})
unfolding write_json
truncate_and_write (some e) io file pool = (file, err e)
truncate_and_write none io file pool = write_json io.write pool

seek_and_write : Option Error → Io → File → Pool → File × Result (Unit {0})
unfolding truncate_and_write
seek_and_write (some e) io file pool = (file, err e)
seek_and_write none io file pool = truncate_and_write io.truncate io file pool

pub encode_and_overwrite : Io → File → Pool → File × Result (Unit {0})
unfolding seek_and_write
encode_and_overwrite io file pool = seek_and_write io.seek_write io file pool

-- Writes the pool back, and returns `a` if that succeeds.
store_pool {ℓ} : {A : Type ℓ} → Io → File → Pool → A → File × Result A
unfolding encode_and_overwrite
store_pool io file pool a =
    let (file', written) = encode_and_overwrite io file pool in
    (file', do wrapping "encode and overwrite" written; ok a)

store_acquired : Io → File → Result (Pool × ℕ) → File × Result ℕ
unfolding store_pool
store_acquired io file (err e) = (file, err (wrap "acquire port" e))
store_acquired io file (ok (pool, port)) = store_pool io file pool port

opened : Io → File → Result Pool
unfolding failing decode_all
opened io file = do
  wrapping "open lock" (failing io.open_lock)
  wrapping "decoding state file" (decode_all io file)

acquire_opened : Io → File → Tracker → String → Result Pool → File × Result ℕ
unfolding store_acquired acquire_one
acquire_opened io file t handle (err e) = (file, err e)
acquire_opened io file t handle (ok pool) = store_acquired io file (acquire_one t pool handle)

pub allocate_port : Io → Tracker → String → ℕ → File → File × Result ℕ
unfolding acquire_opened opened in_range
allocate_port io t handle port file =
    if port == 0
    then acquire_opened io file t handle (opened io file)
    else if in_range t port
    then (file, err (message "cannot specify port from allocation range"))
    else (file, ok port)

release_opened : Io → File → String → Result Pool → File × Result (Unit {0})
unfolding store_pool release_all
release_opened io file handle (err e) = (file, err e)
release_opened io file handle (ok pool) = store_pool io file (release_all pool handle) tt

pub release_all_ports : Io → String → File → File × Result (Unit {0})
unfolding release_opened opened
release_all_ports io handle file = release_opened io file handle (opened io file)
