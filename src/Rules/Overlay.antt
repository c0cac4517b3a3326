-- ===== src/Rules/Overlay.antt =====
-- The rules of src/lib/rules/rules.go for the overlay network and for the input of the host.
use cf_networking_release.Prelude.{ℤ, [], ◌∷◌, ◌++◌, Bytes, codes}
use cf_networking_release.Prelude.Print.{print_int}
use cf_networking_release.LockedIptables.{Rule}
use cf_networking_release.Rules.{trim_and_pad}

unfoldable pub new_input_related_established_rule : Rule
new_input_related_established_rule =
    codes "-m"
    ∷ codes "state"
    ∷ codes "--state"
    ∷ codes "RELATED,ESTABLISHED"
    ∷ codes "--jump"
    ∷ codes "ACCEPT"
    ∷ []

unfoldable pub new_input_allow_rule : Bytes → Bytes → ℤ → Rule
new_input_allow_rule protocol destination dest_port =
    codes "-p"
    ∷ protocol
    ∷ codes "-d"
    ∷ destination
    ∷ codes "--destination-port"
    ∷ print_int dest_port
    ∷ codes "--jump"
    ∷ codes "ACCEPT"
    ∷ []

unfoldable pub new_input_default_reject_rule : Rule
new_input_default_reject_rule =
    codes "--jump" ∷ codes "REJECT" ∷ codes "--reject-with" ∷ codes "icmp-port-unreachable" ∷ []

unfoldable pub new_overlay_tag_accept_rule : Bytes → Bytes → Rule
new_overlay_tag_accept_rule container_ip tag =
    codes "-d"
    ∷ container_ip
    ∷ codes "-m"
    ∷ codes "mark"
    ∷ codes "--mark"
    ∷ (codes "0x" ++ tag)
    ∷ codes "--jump"
    ∷ codes "ACCEPT"
    ∷ []

unfoldable pub new_overlay_default_reject_rule : Bytes → Rule
new_overlay_default_reject_rule container_ip =
    codes "-d"
    ∷ container_ip
    ∷ codes "--jump"
    ∷ codes "REJECT"
    ∷ codes "--reject-with"
    ∷ codes "icmp-port-unreachable"
    ∷ []

unfoldable pub new_overlay_default_reject_log_rule : Bytes → Bytes → ℤ → Rule
unfolding trim_and_pad
new_overlay_default_reject_log_rule container_handle container_ip denied_logs_per_sec =
    codes "-d"
    ∷ container_ip
    ∷ codes "-m"
    ∷ codes "limit"
    ∷ codes "--limit"
    ∷ (print_int denied_logs_per_sec ++ codes "/s")
    ∷ codes "--limit-burst"
    ∷ print_int denied_logs_per_sec
    ∷ codes "--jump"
    ∷ codes "LOG"
    ∷ codes "--log-prefix"
    ∷ trim_and_pad (codes "DENY_C2C_" ++ container_handle)
    ∷ []

unfoldable pub new_overlay_allow_egress : Bytes → Bytes → Rule
new_overlay_allow_egress device_name container_ip =
    codes "-s"
    ∷ container_ip
    ∷ codes "-o"
    ∷ device_name
    ∷ codes "-m"
    ∷ codes "mark"
    ∷ codes "!"
    ∷ codes "--mark"
    ∷ codes "0x0"
    ∷ codes "--jump"
    ∷ codes "ACCEPT"
    ∷ []

unfoldable pub new_overlay_related_established_rule : Bytes → Rule
new_overlay_related_established_rule container_ip =
    codes "-d"
    ∷ container_ip
    ∷ codes "-m"
    ∷ codes "state"
    ∷ codes "--state"
    ∷ codes "RELATED,ESTABLISHED"
    ∷ codes "--jump"
    ∷ codes "ACCEPT"
    ∷ []
