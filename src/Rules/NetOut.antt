-- ===== src/Rules/NetOut.antt =====
-- The rules of src/lib/rules/rules.go for traffic out of a container.
use cf_networking_release.Prelude.{ℤ, [], ◌∷◌, ◌++◌, Bytes, codes}
use cf_networking_release.Prelude.Print.{print_int}
use cf_networking_release.LockedIptables.{Rule}
use cf_networking_release.Rules.{trim_and_pad, port_range}

unfoldable pub new_net_out_rule : Bytes → Bytes → Rule
new_net_out_rule start_ip end_ip =
    codes "-m"
    ∷ codes "iprange"
    ∷ codes "--dst-range"
    ∷ (start_ip ++ codes "-" ++ end_ip)
    ∷ codes "--jump"
    ∷ codes "ACCEPT"
    ∷ []

unfoldable pub new_net_out_with_ports_rule : Bytes → Bytes → ℤ → ℤ → Bytes → Rule
new_net_out_with_ports_rule start_ip end_ip start_port end_port protocol =
    codes "-m"
    ∷ codes "iprange"
    ∷ codes "-p"
    ∷ protocol
    ∷ codes "--dst-range"
    ∷ (start_ip ++ codes "-" ++ end_ip)
    ∷ codes "-m"
    ∷ protocol
    ∷ codes "--destination-port"
    ∷ port_range start_port end_port
    ∷ codes "--jump"
    ∷ codes "ACCEPT"
    ∷ []

unfoldable pub new_net_out_icmp_rule : Bytes → Bytes → ℤ → ℤ → Rule
new_net_out_icmp_rule start_ip end_ip icmp_type icmp_code =
    codes "-m"
    ∷ codes "iprange"
    ∷ codes "-p"
    ∷ codes "icmp"
    ∷ codes "--dst-range"
    ∷ (start_ip ++ codes "-" ++ end_ip)
    ∷ codes "-m"
    ∷ codes "icmp"
    ∷ codes "--icmp-type"
    ∷ (print_int icmp_type ++ codes "/" ++ print_int icmp_code)
    ∷ codes "--jump"
    ∷ codes "ACCEPT"
    ∷ []

unfoldable pub new_net_out_icmp_log_rule : Bytes → Bytes → ℤ → ℤ → Bytes → Rule
new_net_out_icmp_log_rule start_ip end_ip icmp_type icmp_code chain =
    codes "-m"
    ∷ codes "iprange"
    ∷ codes "-p"
    ∷ codes "icmp"
    ∷ codes "--dst-range"
    ∷ (start_ip ++ codes "-" ++ end_ip)
    ∷ codes "-m"
    ∷ codes "icmp"
    ∷ codes "--icmp-type"
    ∷ (print_int icmp_type ++ codes "/" ++ print_int icmp_code)
    ∷ codes "-g"
    ∷ chain
    ∷ []

unfoldable pub new_net_out_log_rule : Bytes → Bytes → Bytes → Rule
new_net_out_log_rule start_ip end_ip chain =
    codes "-m"
    ∷ codes "iprange"
    ∷ codes "--dst-range"
    ∷ (start_ip ++ codes "-" ++ end_ip)
    ∷ codes "-g"
    ∷ chain
    ∷ []

unfoldable pub new_net_out_with_ports_log_rule : Bytes → Bytes → ℤ → ℤ → Bytes → Bytes → Rule
new_net_out_with_ports_log_rule start_ip end_ip start_port end_port protocol chain =
    codes "-m"
    ∷ codes "iprange"
    ∷ codes "-p"
    ∷ protocol
    ∷ codes "--dst-range"
    ∷ (start_ip ++ codes "-" ++ end_ip)
    ∷ codes "-m"
    ∷ protocol
    ∷ codes "--destination-port"
    ∷ port_range start_port end_port
    ∷ codes "-g"
    ∷ chain
    ∷ []

unfoldable pub new_net_out_default_non_udp_log_rule : Bytes → Rule
unfolding trim_and_pad
new_net_out_default_non_udp_log_rule prefix =
    codes "!"
    ∷ codes "-p"
    ∷ codes "udp"
    ∷ codes "-m"
    ∷ codes "conntrack"
    ∷ codes "--ctstate"
    ∷ codes "INVALID,NEW,UNTRACKED"
    ∷ codes "-j"
    ∷ codes "LOG"
    ∷ codes "--log-prefix"
    ∷ trim_and_pad (codes "OK_" ++ prefix)
    ∷ []

unfoldable pub new_net_out_default_udp_log_rule : Bytes → ℤ → Rule
unfolding trim_and_pad
new_net_out_default_udp_log_rule prefix accepted_udp_logs_per_sec =
    codes "-p"
    ∷ codes "udp"
    ∷ codes "-m"
    ∷ codes "limit"
    ∷ codes "--limit"
    ∷ (print_int accepted_udp_logs_per_sec ++ codes "/s")
    ∷ codes "--limit-burst"
    ∷ print_int accepted_udp_logs_per_sec
    ∷ codes "-j"
    ∷ codes "LOG"
    ∷ codes "--log-prefix"
    ∷ trim_and_pad (codes "OK_" ++ prefix)
    ∷ []

unfoldable pub new_net_out_related_established_rule : Rule
new_net_out_related_established_rule =
    codes "-m"
    ∷ codes "state"
    ∷ codes "--state"
    ∷ codes "RELATED,ESTABLISHED"
    ∷ codes "--jump"
    ∷ codes "ACCEPT"
    ∷ []

unfoldable pub new_net_out_default_reject_log_rule : Bytes → ℤ → Rule
unfolding trim_and_pad
new_net_out_default_reject_log_rule container_handle denied_logs_per_sec =
    codes "-m"
    ∷ codes "limit"
    ∷ codes "--limit"
    ∷ (print_int denied_logs_per_sec ++ codes "/s")
    ∷ codes "--limit-burst"
    ∷ print_int denied_logs_per_sec
    ∷ codes "--jump"
    ∷ codes "LOG"
    ∷ codes "--log-prefix"
    ∷ trim_and_pad (codes "DENY_" ++ container_handle)
    ∷ []

unfoldable pub new_net_out_default_reject_rule : Rule
new_net_out_default_reject_rule =
    codes "--jump" ∷ codes "REJECT" ∷ codes "--reject-with" ∷ codes "icmp-port-unreachable" ∷ []
