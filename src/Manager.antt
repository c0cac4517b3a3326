-- ===== src/Manager.antt =====
-- src/garden-external-networker: Up and Down of manager/manager.go, with the CNI controller of
-- cni/cni_controller.go and the port allocator. The kernel's mounts, the CNI library and its plugins,
-- the proxy's namespace commands and the log are a world that the calls change; paths and JSON are
-- built by functions of the host. A CNI result without an IPv4 address, at which Go panics, is left
-- out.
pub mod Ports
pub mod Lifecycle
use cf_networking_release.Prelude.{
  ℕ, ◌%◌, ◌^◌, String, ℤ, pos, Bool, true, false, Option, none, some, List, [], ◌∷◌, ◌==◌, str_eq,
  if◌then◌else◌, Error, message, wrap, wrap_text, Result, ok, err, wrapping,
}
use cf_networking_release.Prelude.Int.{eq_ℤ}
use cf_networking_release.PortAllocator.{Tracker, File, Io, allocate_port, release_all_ports}

-- garden.NetIn, which has the fields of garden.PortMapping
pub record NetIn : Type 0 where
  pub host_port : ℕ
  pub container_port : ℕ

-- fmt.Sprintf("/proc/%d/ns/net", pid), and fmt.Sprintf("/proc/self/fd/%d", fd)
pub data NsPath : Type 0 where
  of_pid : ℤ → NsPath
  of_fd : ℕ → NsPath

-- The keys of extraKeys, where they are set.
pub record ExtraKeys (Value Rule : Type 0) : Type 0 where
  pub metadata : Option (List (String × Value))
  pub port_mappings : List NetIn
  pub net_out_rules : List Rule

-- libcni.RuntimeConf; IfName is always "eth0".
pub record RuntimeConf : Type 0 where
  pub container_id : String
  pub net_ns : String

pub record Result020 : Type 0 where
  pub ip : String
  pub nameservers : List String

pub record UpInputs (Value Rule : Type 0) : Type 0 where
  pub pid : ℤ
  pub properties : List (String × Value)
  pub net_out : List Rule
  pub net_in : List NetIn

pub record UpOutputs : Type 0 where
  pub container_ip : String
  pub deprecated_host_ip : String
  pub mapped_ports : String
  pub dns_servers : List String
  pub search_domains : List String

-- The calls that leave the program, over the states of the world.
pub record Host (Value Rule Plugin CniResult World : Type 0) : Type 0 where
  pub idempotently_mount : NsPath → String → World → Result (Unit {0}) × World
  pub remove_mount : String → World → Result (Unit {0}) × World
  pub inject_conf : Plugin → ExtraKeys Value Rule → Result Plugin
  pub add_network_list : List Plugin → RuntimeConf → World → Result (Option CniResult) × World
  pub del_network_list : Option (List Plugin) → RuntimeConf → World → Result (Unit {0}) × World
  pub get_as_020 : CniResult → Result Result020
  pub apply_proxy : String → World → Result (Unit {0}) × World
  pub print_log : String → Error → World → World
  pub port_io : World → Io
  pub join : String → String → String
  pub to_json : List NetIn → String

pub record Manager : Type 0 where
  pub tracker : Tracker
  pub bind_mount_root : String
  pub manager_search_domains : List String

-- The world, the allocator's state file, and NetworkConfigList.Plugins, which a call of Up changes.
pub record Node (Plugin World : Type 0) : Type 0 where
  pub world : World
  pub ports : File
  pub plugins : Option (List Plugin)

-- The metadata is set if there is any.
abbrev pub set_metadata : {Value : Type 0} → List (String × Value) → Option (List (String × Value))
set_metadata [] = none
set_metadata (m ∷ metadata) = some (m ∷ metadata)

module _ {Value Rule Plugin CniResult World : Type 0}
    (host : Host Value Rule Plugin CniResult World) where
  abbrev pub Step : Type 0 → Type 0
  Step A = Node Plugin World → Result A × Node Plugin World

  -- `if err != nil { return nil, err }`
  unfoldable pub after :
      {A B : Type 0} → Result A × Node Plugin World → (A → Step B) → Result B × Node Plugin World
  after (err e, n) next = (err e, n)
  after (ok a, n) next = next a n

  abbrev pub wrapped :
      {A : Type 0} → String → Result A × Node Plugin World → Result A × Node Plugin World
  wrapped text (r, n) = (wrapping text r, n)

  -- A call that changes the world alone.
  abbrev pub in_world : {A : Type 0} → (World → Result A × World) → Step A
  in_world call n = let (r, w) = call n.world in (r, record n { world = w })

  -- The loop of the CNI controller: the plugins before the one that fails are replaced.
  unfoldable pub inject_all : ExtraKeys Value Rule → List Plugin → Result (Unit {0}) × List Plugin
  inject_all keys [] = (ok tt, [])
  inject_all keys (p ∷ plugins) =
      let (rest, changed) = inject_all keys plugins in
      elim (host.inject_conf p keys) [
        | err e ↦ (err (wrap "adding extra data to CNI config" e), p ∷ plugins)
        | ok q ↦ (rest, q ∷ changed)
      ]

  -- CNIController.Up
  abbrev pub cni_up_list :
      String → String → ExtraKeys Value Rule → List Plugin → Step (Option CniResult)
  cni_up_list namespace handle keys plugins n =
      let (injected, changed) = inject_all keys plugins in
      after (injected, record n { plugins = some changed })
        (λ u m. wrapped "add network list failed" (
          in_world
            (host.add_network_list changed (record { container_id = handle; net_ns = namespace }))
            m))

  unfoldable pub cni_up : String → String → ExtraKeys Value Rule → Step (Option CniResult)
  cni_up namespace handle keys n = elim n.plugins [
    | none ↦ (ok none, n)
    | some plugins ↦ cni_up_list namespace handle keys plugins n
  ]

  -- CNIController.Down
  unfoldable pub cni_down : String → String → Step (Unit {0})
  cni_down namespace handle n = wrapped "del network failed" (
      in_world
        (host.del_network_list n.plugins (record { container_id = handle; net_ns = namespace })) n)

  -- m.PortAllocator.AllocatePort and ReleaseAllPorts, on the state file
  unfoldable pub allocate : Tracker → String → ℕ → Step ℕ
  allocate t handle port n =
      let (file, r) = allocate_port (host.port_io n.world) t handle port n.ports in
      (r, record n { ports = file })

  unfoldable pub release : String → Step (Unit {0})
  release handle n =
      let (file, r) = release_all_ports (host.port_io n.world) handle n.ports in
      (r, record n { ports = file })

  -- The loop over inputs.NetIn: a host port of 0 is replaced by an allocated one, as a uint32.
  unfoldable pub map_ports : Tracker → String → List NetIn → Step (List NetIn)
  map_ports t handle [] n = (ok [], n)
  map_ports t handle (i ∷ net_in) n =
      after
        (if i.host_port == 0
          then after (wrapped "allocating port" (allocate t handle i.host_port n))
              (λ port m. (ok (port % 2 ^ 32), m))
          else (ok i.host_port, n))
        (λ port m. after (map_ports t handle net_in m) (λ rest o.
          (ok (record { host_port = port; container_port = i.container_port } ∷ rest), o)))

  abbrev pub ns_path : ℤ → Option ℕ → NsPath
  ns_path pid none = of_pid pid
  ns_path pid (some fd) = of_fd fd

  abbrev pub outputs_of : Manager → List NetIn → Result020 → UpOutputs
  outputs_of m mapped_ports result = record {
    container_ip = result.ip;
    deprecated_host_ip = "255.255.255.255";
    mapped_ports = host.to_json mapped_ports;
    dns_servers = result.nameservers;
    search_domains = m.manager_search_domains;
  }

  -- What Up does with the result of the CNI controller.
  abbrev pub finish_up : Manager → String → List NetIn → Option CniResult → Step UpOutputs
  finish_up m bind_mount_path mapped_ports none n =
      (err (message "cni up failed: no ip allocated"), n)
  finish_up m bind_mount_path mapped_ports (some result) n =
      after (wrapping "cni plugin result version incompatible" (host.get_as_020 result), n)
        (λ result020 o.
          after (wrapped "proxy redirect apply" (in_world (host.apply_proxy bind_mount_path) o))
            (λ u p. (ok (outputs_of m mapped_ports result020), p)))

  unfoldable pub mount_and_map :
      Manager → String → String → UpInputs Value Rule → Option ℕ → Step (List NetIn)
  mount_and_map m handle bind_mount_path inputs ns_fd n =
      after
        (wrapped "failed mounting %s to %s"
          (in_world (host.idempotently_mount (ns_path inputs.pid ns_fd) bind_mount_path) n))
        (λ u. map_ports m.tracker handle inputs.net_in)

  unfoldable pub up_checked :
      Manager → String → String → UpInputs Value Rule → Option ℕ → Step UpOutputs
  up_checked m handle bind_mount_path inputs ns_fd n =
      after (mount_and_map m handle bind_mount_path inputs ns_fd n) (λ net_in o.
        after
          (wrapped "cni up failed" (
            cni_up bind_mount_path handle
              (record {
                metadata = set_metadata inputs.properties;
                port_mappings = net_in;
                net_out_rules = inputs.net_out;
              })
              o))
          (finish_up m bind_mount_path net_in))

  -- Manager.Up
  unfoldable pub up : Manager → String → UpInputs Value Rule → Option ℕ → Step UpOutputs
  up m handle inputs ns_fd n =
      let run = up_checked m handle (host.join m.bind_mount_root handle) inputs ns_fd n in
      if eq_ℤ inputs.pid (pos 0)
      then (err (message "up missing pid"), n)
      else if str_eq handle ""
      then (err (message "up missing container handle"), n)
      else run

  -- An error that is logged and dropped.
  abbrev pub logged : String → Result (Unit {0}) × Node Plugin World → Node Plugin World
  logged text (ok u, n) = n
  logged text (err e, n) = record n { world = host.print_log text e n.world }

  -- Manager.Down
  unfoldable pub down : Manager → String → Step (Unit {0})
  down m handle n =
      let bind_mount_path = host.join m.bind_mount_root handle in
      if str_eq handle ""
      then (err (message "down missing container handle"), n)
      else after (wrapped "cni down" (cni_down bind_mount_path handle n)) (λ u o. (
        ok tt,
        logged "releasing ports" (
            release handle
              (logged "removing bind mount %s" (in_world (host.remove_mount bind_mount_path) o))),
      ))
