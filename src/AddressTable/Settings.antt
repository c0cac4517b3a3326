-- ===== src/AddressTable/Settings.antt =====
-- What Add, Remove and pruning leave alone.
use cf_networking_release.Prelude.{
  ap, sym, ℕ, String, Bytes, List, [], ◌∷◌, ◌≡◌, refl, false, ◌∙◌, Option, none, some, inl, inr,
  Bool-cases, length, ◌==◌,
}
use mathlib.Core.Path.{subst}
use cf_networking_release.Assoc.{lookup}
use cf_networking_release.AddressTable.View.{last_seen, IsTable}
use cf_networking_release.AddressTable.Entries.{seen, IsDistinct}
use cf_networking_release.AddressTable.{
  AddressTable, Entry, bytes_instance, add, add_one, fqdn, remove_all, remove_one, remove_found,
  index_of, entries_for_hostname, prune_stale_entries, prune_found, set_warm, pause_pruning,
  resume_pruning, or_empty, new_address_table, is_warm,
}

abbrev pub IsSameButAddresses : AddressTable → AddressTable → Type 0
IsSameButAddresses at at' =
    (at'.warm ≡ at.warm) × (at'.staleness_threshold ≡ at.staleness_threshold)

pub add-IsSame :
    (at : AddressTable) (names : List (Bytes × ℕ)) (ip : String)
    → IsSameButAddresses at (add at names ip)
unfolding add add_one
add-IsSame at [] ip = (refl, refl)
add-IsSame at ((name, now) ∷ names) ip = add-IsSame (add_one at ip (fqdn name) now) names ip

remove_found-IsSame :
    (at : AddressTable) (host : Bytes) (entries : List Entry) (found : Option ℕ)
    → IsSameButAddresses at (remove_found at host entries found)
unfolding remove_found
remove_found-IsSame at host entries none = (refl, refl)
remove_found-IsSame at host entries (some index) = elim (Bool-cases (length entries == 1)) [
  | inl last ↦ rw last (refl, refl)
  | inr more ↦ rw more (refl, refl)
]

pub remove_all-IsSame :
    (at : AddressTable) (names : List Bytes) (ip : String)
    → IsSameButAddresses at (remove_all at names ip)
unfolding remove_all remove_one
remove_all-IsSame at [] ip = (refl, refl)
remove_all-IsSame at (name ∷ names) ip =
    let entries = entries_for_hostname at (fqdn name) in
    let one = remove_found-IsSame at (fqdn name) entries (index_of entries ip) in
    let rest = remove_all-IsSame (remove_one at ip (fqdn name)) names ip in
    (rest.0 ∙ one.0, rest.1 ∙ one.1)

prune_found-IsSame :
    (at : AddressTable) (now : ℕ) (host : Bytes) (found : Option (List Entry))
    → IsSameButAddresses at (prune_found at now host found)
unfolding prune_found
prune_found-IsSame at now host none = (refl, refl)
prune_found-IsSame at now host (some entries) = (refl, refl)

pub prune_stale_entries-IsSame :
    (at : AddressTable) (now : ℕ) (hosts : List Bytes)
    → IsSameButAddresses at (prune_stale_entries at now hosts)
unfolding prune_stale_entries
prune_stale_entries-IsSame at now [] = (refl, refl)
prune_stale_entries-IsSame at now (host ∷ hosts) =
    let one = prune_found-IsSame at now host (lookup host at.addresses) in
    let rest =
      prune_stale_entries-IsSame (prune_found at now host (lookup host at.addresses)) now hosts in
    (rest.0 ∙ one.0, rest.1 ∙ one.1)

-- The same addresses, whatever else differs.
abbrev pub HasSameAddresses : AddressTable → AddressTable → Type 0
HasSameAddresses at at' = at'.addresses ≡ at.addresses

pub flags-HasSameAddresses :
    (at : AddressTable) (now : ℕ)
    → HasSameAddresses at (set_warm at)
      × HasSameAddresses at (pause_pruning at)
      × HasSameAddresses at (resume_pruning at now)
unfolding set_warm pause_pruning resume_pruning
flags-HasSameAddresses at now = (refl, refl, refl)

pub pruning_flags-IsSame :
    (at : AddressTable) (now : ℕ)
    → IsSameButAddresses at (pause_pruning at) × IsSameButAddresses at (resume_pruning at now)
unfolding pause_pruning resume_pruning
pruning_flags-IsSame at now = ((refl, refl), (refl, refl))

pub last_seen-HasSameAddresses :
    (at at' : AddressTable) (host : Bytes) (ip : String)
    → HasSameAddresses at at'
    → last_seen at' host ip ≡ last_seen at host ip
unfolding last_seen entries_for_hostname
last_seen-HasSameAddresses at at' host ip same = ap (λ a. seen ip (or_empty (lookup host a))) same

pub IsTable-HasSameAddresses :
    (at at' : AddressTable) → HasSameAddresses at at' → IsTable at → IsTable at'
unfolding entries_for_hostname
IsTable-HasSameAddresses at at' same t = record {
  distinct =
      λ host. subst (λ a. IsDistinct (or_empty (lookup host a))) (sym same) (t.distinct host);
}

pub last_seen-new_address_table :
    (threshold delay : ℕ) (host : Bytes) (ip : String)
    → (last_seen (new_address_table threshold delay) host ip ≡ none)
      × ((new_address_table threshold delay).warm ≡ false)
      × ((new_address_table threshold delay).staleness_threshold ≡ threshold)
unfolding new_address_table last_seen entries_for_hostname or_empty lookup seen
last_seen-new_address_table threshold delay host ip = (refl, refl, refl)

pub set_warm-threshold :
    (at : AddressTable) → (set_warm at).staleness_threshold ≡ at.staleness_threshold
unfolding set_warm
set_warm-threshold at = refl

pub is_warm-warm : (at : AddressTable) → is_warm at ≡ at.warm
unfolding is_warm
is_warm-warm at = refl
