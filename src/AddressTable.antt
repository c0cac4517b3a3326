-- ===== src/AddressTable.antt =====
-- src/service-discovery-controller/addresstable/address_table.go: the addresses of each host name,
-- with the time at which each was last registered. Host names are bytes, since fqdn reads the last
-- one. Times and durations are natural numbers of nanoseconds since Go's zero time, so that
-- `Since(t) <= d` is `now ≤ t + d`; one clock reading stands for those of one pass over the table.
-- Logging, the ticker's goroutine and its Stop are left out; a tick is a call of `tick_check`, and
-- what other goroutines do between its locks is left open by giving each lock's section a function
-- of its own.
pub mod Entries
pub mod View
pub mod Removal
pub mod Prune
pub mod Settings
use cf_networking_release.Prelude.{
  ℕ, zero, suc, ◌+◌, String, Bool, true, false, ◌||◌, Option, none, some, List, [], ◌∷◌, ◌++◌, map,
  Bytes, bytes_eq, bytes_eq_iff, str_eq, leb, ltb, ◌==◌, if◌then◌else◌, length, take, drop, keep_if,
}
use cf_networking_release.Assoc.{Eq, lookup, put, remove}
use mathlib.Core.Option

instance abbrev pub bytes_instance : Eq Bytes
bytes_instance = record { beq = bytes_eq; beq_iff = bytes_eq_iff }

pub record Entry : Type 0 where
  pub ip : String
  pub update_time : ℕ

pub record AddressTable : Type 0 where
  pub addresses : List (Bytes × List Entry)
  pub staleness_threshold : ℕ
  pub paused_pruning : Bool
  pub last_resume : ℕ
  pub resume_pruning_delay : ℕ
  pub warm : Bool

pub new_address_table : ℕ → ℕ → AddressTable
new_address_table threshold delay = record {
  addresses = [];
  staleness_threshold = threshold;
  paused_pruning = false;
  last_resume = 0;
  resume_pruning_delay = delay;
  warm = false;
}

-- s[len(s)-1] == '.', and false of the empty name
pub is_fqdn : Bytes → Bool
is_fqdn [] = false
is_fqdn (c ∷ []) = c == b'.'
is_fqdn (c ∷ d ∷ s) = is_fqdn (d ∷ s)

pub fqdn : Bytes → Bytes
unfolding is_fqdn
fqdn s = if is_fqdn s then s else s ++ b'.' ∷ []

-- `none` stands for -1.
pub index_of : List Entry → String → Option ℕ
index_of [] value = none
index_of (x ∷ xs) value = if str_eq x.ip value then some 0 else Option.map suc (index_of xs value)

pub or_empty : Option (List Entry) → List Entry
or_empty none = []
or_empty (some entries) = entries

pub entries_for_hostname : AddressTable → Bytes → List Entry
unfolding or_empty
entries_for_hostname at hostname = or_empty (lookup hostname at.addresses)

-- entries[index].updateTime = now
pub touch : List Entry → ℕ → ℕ → List Entry
touch [] index now = []
touch (x ∷ xs) zero now = record x { update_time = now } ∷ xs
touch (x ∷ xs) (suc index) now = x ∷ touch xs index now

pub add_entry : List Entry → String → ℕ → Option ℕ → List Entry
add_entry entries ip now none = entries ++ record { ip = ip; update_time = now } ∷ []
add_entry entries ip now (some index) = touch entries index now

-- The addresses with the new entries of a host name.
abbrev pub set_entries : AddressTable → Bytes → List Entry → AddressTable
set_entries at hostname entries = record at { addresses = put hostname entries at.addresses }

pub add_one : AddressTable → String → Bytes → ℕ → AddressTable
add_one at ip fq_hostname now =
    let entries = entries_for_hostname at fq_hostname in
    set_entries at fq_hostname (add_entry entries ip now (index_of entries ip))

-- Each host name comes with the clock's reading in its round of the loop.
pub add : AddressTable → List (Bytes × ℕ) → String → AddressTable
add at [] ip = at
add at ((hostname, now) ∷ hostnames) ip = add (add_one at ip (fqdn hostname) now) hostnames ip

-- append(entries[:index], entries[index+1:]...)
pub without_index : List Entry → ℕ → List Entry
without_index entries index = take index entries ++ drop (suc index) entries

pub remove_found : AddressTable → Bytes → List Entry → Option ℕ → AddressTable
remove_found at fq_hostname entries none = at
remove_found at fq_hostname entries (some index) =
    if length entries == 1
    then record at { addresses = remove fq_hostname at.addresses }
    else set_entries at fq_hostname (without_index entries index)

pub remove_one : AddressTable → String → Bytes → AddressTable
remove_one at ip fq_hostname =
    let entries = entries_for_hostname at fq_hostname in
    remove_found at fq_hostname entries (index_of entries ip)

pub remove_all : AddressTable → List Bytes → String → AddressTable
remove_all at [] ip = at
remove_all at (hostname ∷ hostnames) ip = remove_all (remove_one at ip (fqdn hostname)) hostnames ip

pub entries_to_ips : List Entry → List String
entries_to_ips entries = map (λ e. e.ip) entries

pub lookup_ips : AddressTable → Bytes → List String
lookup_ips at hostname = entries_to_ips (entries_for_hostname at (fqdn hostname))

pub get_all_addresses : AddressTable → List (Bytes × List String)
get_all_addresses at = map (λ a. (a.0, entries_to_ips a.1)) at.addresses

pub set_warm : AddressTable → AddressTable
set_warm at = record at { warm = true }

pub is_warm : AddressTable → Bool
is_warm at = at.warm

pub pause_pruning : AddressTable → AddressTable
pause_pruning at = record at { paused_pruning = true }

pub resume_pruning : AddressTable → ℕ → AddressTable
resume_pruning at now = record at { last_resume = now; paused_pruning = false }

-- at.clock.Since(entry.updateTime) <= at.stalenessThreshold
abbrev pub is_fresh : AddressTable → ℕ → Entry → Bool
is_fresh at now e = leb now (e.update_time + at.staleness_threshold)

has_stale : AddressTable → ℕ → List Entry → Bool
has_stale at now [] = false
has_stale at now (e ∷ entries) = if is_fresh at now e then has_stale at now entries else true

stale_in : AddressTable → ℕ → List (Bytes × List Entry) → List Bytes
stale_in at now [] = []
stale_in at now ((address, entries) ∷ rest) =
    let others = stale_in at now rest in
    if has_stale at now entries then address ∷ others else others

pub addresses_with_stale_entries : AddressTable → ℕ → List Bytes
addresses_with_stale_entries at now = stale_in at now at.addresses

pub prune_found : AddressTable → ℕ → Bytes → Option (List Entry) → AddressTable
prune_found at now address none = at
prune_found at now address (some entries) =
    set_entries at address (keep_if (is_fresh at now) entries)

pub prune_stale_entries : AddressTable → ℕ → List Bytes → AddressTable
prune_stale_entries at now [] = at
prune_stale_entries at now (address ∷ candidates) =
    prune_stale_entries (prune_found at now address (lookup address at.addresses)) now candidates

-- The test under the first read lock of a tick: whether the tick goes on to prune.
pub tick_check : AddressTable → ℕ → Bool
tick_check at now =
    if at.paused_pruning || ltb now (at.last_resume + at.resume_pruning_delay) then false else true

-- A tick with nothing between its locks.
pub tick : AddressTable → ℕ → AddressTable
tick at now =
    if tick_check at now
    then prune_stale_entries at now (addresses_with_stale_entries at now)
    else at
