-- ===== src/Rules.antt =====
-- src/lib/rules/rules.go: the argument lists of iptables. A text is the list of its bytes.
pub mod Builders
pub mod NetOut
pub mod Overlay
pub mod Prefix
use cf_networking_release.Prelude.{
  ℕ, ◌+◌, ltb, ◌==◌, ℤ, Bool, List, [], ◌∷◌, ◌++◌, map, length, take, Bytes, bytes_eq, codes,
  if◌then◌else◌,
}
use cf_networking_release.Prelude.Print.{print_int}
use cf_networking_release.LockedIptables.{Rule}

-- strings.Replace(comment, " ", "_", -1)
unfoldable pub underscored : Bytes → Bytes
underscored comment = map (λ c. if c == 32 then 95 else c) comment

unfoldable pub append_comment : Rule → Bytes → Rule
unfolding underscored
append_comment rule comment =
    rule ++ codes "-m" ∷ codes "comment" ∷ codes "--comment" ∷ underscored comment ∷ []

-- The first 28 bytes, and a blank, between quotes.
unfoldable pub trim_and_pad : Bytes → Bytes
trim_and_pad name =
    let trimmed = if ltb 28 (length name) then take 28 name else name in
    34 ∷ trimmed ++ 32 ∷ 34 ∷ []

-- "%d:%d"
abbrev pub port_range : ℤ → ℤ → Bytes
port_range start end = print_int start ++ codes ":" ++ print_int end

unfoldable pub new_log_rule : Rule → Bytes → Rule
unfolding trim_and_pad
new_log_rule rule name =
    rule
    ++ codes "-m"
      ∷ codes "limit"
      ∷ codes "--limit"
      ∷ codes "2/min"
      ∷ codes "--jump"
      ∷ codes "LOG"
      ∷ codes "--log-prefix"
      ∷ trim_and_pad name
      ∷ []

unfoldable pub new_log_local_reject_rule : Bytes → Rule
unfolding new_log_rule
new_log_local_reject_rule local_subnet =
    new_log_rule (codes "-s" ∷ local_subnet ∷ codes "-d" ∷ local_subnet ∷ [])
      (codes "REJECT_LOCAL: ")

unfoldable pub new_mark_allow_log_rule : Bytes → Bytes → ℤ → ℤ → Bytes → Bytes → ℤ → Rule
unfolding trim_and_pad
new_mark_allow_log_rule destination_ip protocol start_port end_port tag destination_app_guid
      accepted_udp_logs_per_sec =
    let prefix = trim_and_pad (codes "OK_" ++ tag ++ codes "_" ++ destination_app_guid) in
    if bytes_eq protocol (codes "udp")
    then codes "-d"
      ∷ destination_ip
      ∷ codes "-p"
      ∷ protocol
      ∷ codes "--dport"
      ∷ port_range start_port end_port
      ∷ codes "-m"
      ∷ codes "mark"
      ∷ codes "--mark"
      ∷ (codes "0x" ++ tag)
      ∷ codes "-m"
      ∷ codes "limit"
      ∷ codes "--limit"
      ∷ (print_int accepted_udp_logs_per_sec ++ codes "/s")
      ∷ codes "--limit-burst"
      ∷ print_int accepted_udp_logs_per_sec
      ∷ codes "--jump"
      ∷ codes "LOG"
      ∷ codes "--log-prefix"
      ∷ prefix
      ∷ []
    else codes "-d"
      ∷ destination_ip
      ∷ codes "-p"
      ∷ protocol
      ∷ codes "--dport"
      ∷ port_range start_port end_port
      ∷ codes "-m"
      ∷ codes "mark"
      ∷ codes "--mark"
      ∷ (codes "0x" ++ tag)
      ∷ codes "-m"
      ∷ codes "conntrack"
      ∷ codes "--ctstate"
      ∷ codes "INVALID,NEW,UNTRACKED"
      ∷ codes "--jump"
      ∷ codes "LOG"
      ∷ codes "--log-prefix"
      ∷ prefix
      ∷ []
