-- ===== src/Examples/Containers.antt =====
-- A node whose calls succeed, with one container that asks for two ports.
use cf_networking_release.Prelude.{
  String, ◌≡◌, ◌≢◌, refl, ap, ◌∙◌, pos, none, some, List, [], ◌∷◌, Result, ok, err, message, ◌⊎◌,
  inl, inr, str_eq, arith,
}
use cf_networking_release.Assoc.{unless_test}
use cf_networking_release.PortAllocator.{File, corrupt}
use cf_networking_release.PortAllocator.Files.{file_owner, healthy}
use cf_networking_release.Manager.{
  NetIn, UpInputs, UpOutputs, Host, Manager, Node, map_ports, cni_down, up, down,
}
use cf_networking_release.Manager.Ports.{
  IsMapped, IsGrown, IsFullRange, no_port_left, map_ports-IsMapped,
}
use cf_networking_release.Manager.Lifecycle.{up-IsKept, down-cases, down-up-file_owner}
use cf_networking_release.Mux.{write_empty}
use cf_networking_release.Mux.Lifetime.{
  served, write_outputs-state, served-down, served-up, served-file_owner,
}
use cf_networking_release.Examples.Ports.{two_ports, state_file, state_file-readable}

-- The world is the log.
abbrev linux : Host String String String String (List String)
linux = record {
  idempotently_mount = λ source target w. (ok tt, w);
  remove_mount = λ target w. (ok tt, w);
  inject_conf = λ plugin keys. ok plugin;
  add_network_list = λ plugins conf w. (ok (some "10.255.1.2"), w);
  del_network_list = λ plugins conf w. (ok tt, w);
  get_as_020 = λ ip. ok (record { ip = ip; nameservers = [] });
  apply_proxy = λ path w. (ok tt, w);
  print_log = λ text e w. text ∷ w;
  port_io = λ w. healthy;
  join = λ a b. b;
  to_json = λ mapped. "[]";
}

abbrev manager : Manager
manager = record {
  tracker = two_ports;
  bind_mount_root = "/var/vcap/data/garden-cni";
  manager_search_domains = [];
}

abbrev node : Node String (List String)
node = record { world = []; ports = state_file; plugins = some ("cni" ∷ []) }

abbrev web_port : NetIn
web_port = record { host_port = 0; container_port = 8080 }

abbrev ssh_port : NetIn
ssh_port = record { host_port = 2222; container_port = 22 }

abbrev requests : List NetIn
requests = web_port ∷ ssh_port ∷ []

abbrev inputs : UpInputs String String
inputs = record { pid = pos 42; properties = []; net_out = []; net_in = requests }

map_ports-IsMapped_example :
    ((mapped : List NetIn) × (file : File) × (map_ports linux two_ports "b" requests node
        ≡ (ok mapped, record node { ports = file }))
      × IsMapped two_ports "b" state_file requests mapped file
      × IsGrown "b" state_file file
      × (file ≢ corrupt))
    ⊎ ((file : File) × (map_ports linux two_ports "b" requests node
          ≡ (err no_port_left, record node { ports = file }))
        × IsFullRange two_ports file
        × IsGrown "b" state_file file
        × (file ≢ corrupt))
map_ports-IsMapped_example =
    map_ports-IsMapped linux (λ w. refl) two_ports (omega arith) "b" requests node
      state_file-readable

abbrev started : Node String (List String)
started = (up linux manager "b" inputs none node).1

started-stops :
    (last : Node String (List String)) × (down linux manager "b" started ≡ (ok tt, last))
unfolding cni_down
started-stops =
    let (grown, readable) =
      up-IsKept linux (λ w. refl) manager (omega arith) "b" inputs none node state_file-readable in
    elim (down-cases linux (λ w. refl) manager (omega arith) "b" started readable) [
      | inr (last, e, owners) ↦ (last, e)
      | inl (e, o, failed, same, why) ↦ elim why [
        | inl nameless ↦ absurd (ground (arith, nameless))
        | inr (f, call) ↦ absurd (ground (arith, call))
      ]
    ]

down-up-file_owner_example :
    file_owner ((started-stops.0).ports) 61000
    ≡ unless_test (λ h. str_eq h "b") (file_owner state_file 61000)
down-up-file_owner_example =
    down-up-file_owner linux (λ w. refl) manager (omega arith) "b" inputs none node
      (started-stops.0) state_file-readable (started-stops.1) 61000

abbrev shown : UpOutputs → Result String
shown outputs = ok outputs.container_ip

abbrev serve :
    String
    → Result (UpInputs String String)
    → Node String (List String)
    → Result String × Node String (List String)
serve action = served linux (λ w. refl) manager (omega arith) shown action "b" none

abbrev no_input : Result (UpInputs String String)
no_input = err (message "EOF")

served-stops : serve "down" no_input ((serve "up" (ok inputs) node).1) ≡ (ok "{}", started-stops.0)
served-stops =
    ap (λ s. serve "down" no_input (s.1))
      (served-up linux (λ w. refl) manager (omega arith) shown "b" none (ok inputs) node refl)
    ∙ ap (serve "down" no_input) (
        write_outputs-state linux (λ w. refl) manager (omega arith) shown
          (up linux manager "b" inputs none node))
    ∙ served-down linux (λ w. refl) manager (omega arith) shown "b" none no_input started refl
    ∙ ap (write_empty (up linux manager) (down linux manager) shown) (started-stops.1)

served-file_owner_example :
    file_owner ((started-stops.0).ports) 61000
    ≡ unless_test (λ h. str_eq h "b") (file_owner state_file 61000)
served-file_owner_example =
    served-file_owner linux (λ w. refl) manager (omega arith) shown "b" none none (ok inputs)
      no_input node (started-stops.0) "{}" state_file-readable served-stops 61000
