-- ===== src/Rules/Builders.antt =====
-- The rules of src/lib/rules/rules.go for port forwarding, marks and the local subnet.
use cf_networking_release.Prelude.{ℤ, [], ◌∷◌, ◌++◌, Bytes, codes}
use cf_networking_release.Prelude.Print.{print_int}
use cf_networking_release.LockedIptables.{Rule}
use cf_networking_release.Rules.{append_comment, port_range}

unfoldable pub new_port_forwarding_rule : ℤ → ℤ → Bytes → Bytes → Rule
new_port_forwarding_rule host_port container_port host_ip container_ip =
    codes "-d"
    ∷ host_ip
    ∷ codes "-p"
    ∷ codes "tcp"
    ∷ codes "-m"
    ∷ codes "tcp"
    ∷ codes "--dport"
    ∷ print_int host_port
    ∷ codes "--jump"
    ∷ codes "DNAT"
    ∷ codes "--to-destination"
    ∷ (container_ip ++ codes ":" ++ print_int container_port)
    ∷ []

unfoldable pub new_ingress_mark_rule : Bytes → ℤ → Bytes → Bytes → Rule
new_ingress_mark_rule host_interface host_port host_ip tag =
    codes "-i"
    ∷ host_interface
    ∷ codes "-d"
    ∷ host_ip
    ∷ codes "-p"
    ∷ codes "tcp"
    ∷ codes "-m"
    ∷ codes "tcp"
    ∷ codes "--dport"
    ∷ print_int host_port
    ∷ codes "--jump"
    ∷ codes "MARK"
    ∷ codes "--set-mark"
    ∷ (codes "0x" ++ tag)
    ∷ []

unfoldable pub new_mark_allow_rule : Bytes → Bytes → ℤ → ℤ → Bytes → Bytes → Bytes → Rule
unfolding append_comment
new_mark_allow_rule destination_ip protocol start_port end_port tag source_app_guid
      destination_app_guid =
    append_comment
      (codes "-d"
        ∷ destination_ip
        ∷ codes "-p"
        ∷ protocol
        ∷ codes "--dport"
        ∷ port_range start_port end_port
        ∷ codes "-m"
        ∷ codes "mark"
        ∷ codes "--mark"
        ∷ (codes "0x" ++ tag)
        ∷ codes "--jump"
        ∷ codes "ACCEPT"
        ∷ [])
      (codes "src:" ++ source_app_guid ++ codes "_dst:" ++ destination_app_guid)

unfoldable pub new_mark_set_rule : Bytes → Bytes → Bytes → Rule
unfolding append_comment
new_mark_set_rule source_ip tag app_guid =
    append_comment
      (codes "--source"
        ∷ source_ip
        ∷ codes "--jump"
        ∷ codes "MARK"
        ∷ codes "--set-xmark"
        ∷ (codes "0x" ++ tag)
        ∷ [])
      (codes "src:" ++ app_guid)

unfoldable pub new_default_egress_rule : Bytes → Bytes → Rule
new_default_egress_rule local_subnet device_name =
    codes "--source"
    ∷ local_subnet
    ∷ codes "!"
    ∷ codes "-o"
    ∷ device_name
    ∷ codes "--jump"
    ∷ codes "MASQUERADE"
    ∷ []

unfoldable pub new_accept_existing_local_rule : Rule
new_accept_existing_local_rule =
    codes "-m"
    ∷ codes "state"
    ∷ codes "--state"
    ∷ codes "ESTABLISHED,RELATED"
    ∷ codes "--jump"
    ∷ codes "ACCEPT"
    ∷ []

unfoldable pub new_default_deny_local_rule : Bytes → Rule
new_default_deny_local_rule local_subnet =
    codes "--source"
    ∷ local_subnet
    ∷ codes "-d"
    ∷ local_subnet
    ∷ codes "--jump"
    ∷ codes "REJECT"
    ∷ []

unfoldable pub new_accept_rule : Rule
new_accept_rule = codes "--jump" ∷ codes "ACCEPT" ∷ []
