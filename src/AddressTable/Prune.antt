-- ===== src/AddressTable/Prune.antt =====
-- Pruning: what a tick forgets, for any candidates that it took under the read lock.
use cf_networking_release.Prelude.{
  ℕ, ◌+◌, String, ◌≡◌, refl, ap, ◌∙◌, inl, inr, Bool, true, false, ◌||◌, Option, none, some, List,
  [], ◌∷◌, arith, eq_iff, if◌then◌else◌, leb, ltb, keep_if, Option-cases, Bytes, bytes_eq,
  bytes_eq_iff,
}
use cf_networking_release.Assoc.{lookup}
use cf_networking_release.AddressTable.{
  AddressTable, Entry, entries_for_hostname, bytes_instance, or_empty, is_fresh, has_stale,
  stale_in, addresses_with_stale_entries, prune_found, prune_stale_entries, tick_check, tick,
}
use cf_networking_release.AddressTable.Entries.{seen, IsDistinct}
use cf_networking_release.AddressTable.View.{last_seen, IsTable, entries-set_entries}

-- Forgets a time that lies more than the threshold back.
abbrev pub unless_stale : ℕ → ℕ → Option ℕ → Option ℕ
unless_stale threshold now none = none
unless_stale threshold now (some t) = if leb now (t + threshold) then some t else none

seen-keep_if :
    (at : AddressTable) (now : ℕ) (ip : String) (entries : List Entry)
    → IsDistinct entries
    → seen ip (keep_if (is_fresh at now) entries)
      ≡ unless_stale at.staleness_threshold now (seen ip entries)
unfolding seen keep_if
seen-keep_if at now ip [] d = refl
seen-keep_if at now ip (e ∷ entries) d =
    ground
      (arith, seen-keep_if at now ip entries d.1, d.0, eq_iff e.ip ip, ap (λ k. seen k entries))

keep_if-IsDistinct :
    (at : AddressTable) (now : ℕ) (entries : List Entry)
    → IsDistinct entries
    → IsDistinct (keep_if (is_fresh at now) entries)
unfolding keep_if
keep_if-IsDistinct at now [] d = tt
keep_if-IsDistinct at now (e ∷ entries) d =
    kept (is_fresh at now e) (keep_if-IsDistinct at now entries d.1)
  where
    rest : List Entry
    rest = keep_if (is_fresh at now) entries

    kept : (b : Bool) → IsDistinct rest → IsDistinct (if b then e ∷ rest else rest)
    kept true r =
        (seen-keep_if at now e.ip entries d.1 ∙ ap (unless_stale at.staleness_threshold now) d.0, r)
    kept false r = r

abbrev pub is_listed : List Bytes → Bytes → Bool
is_listed [] host = false
is_listed (h ∷ hosts) host = bytes_eq h host || is_listed hosts host

-- Pruning one name forgets its stale addresses, and is void where the name is not in the table.
prune_one : AddressTable → ℕ → Bytes → AddressTable
prune_one at now host = prune_found at now host (lookup host at.addresses)

threshold-prune_one :
    (at : AddressTable) (now : ℕ) (host : Bytes)
    → (prune_one at now host).staleness_threshold ≡ at.staleness_threshold
unfolding prune_one prune_found
threshold-prune_one at now host = ground arith

entries-prune_one :
    (at : AddressTable) (now : ℕ) (host j : Bytes)
    → entries_for_hostname (prune_one at now host) j ≡ (
        if bytes_eq host j
        then keep_if (is_fresh at now) (entries_for_hostname at j)
        else entries_for_hostname at j)
unfolding prune_one prune_found
entries-prune_one at now host j = elim (Option-cases (lookup host at.addresses)) [
  | inl absent ↦ rw absent (
      unfold entries_for_hostname keep_if in
      ground (arith, bytes_eq_iff host j, ap (λ h. or_empty (lookup h at.addresses))))
  | inr (entries, found) ↦
      rw (found, entries-set_entries at host j (keep_if (is_fresh at now) entries))
        (unfold entries_for_hostname in
          ground (
            arith,
            bytes_eq_iff host j,
            ap (λ h. keep_if (is_fresh at now) (or_empty (lookup h at.addresses))),
          ))
]

prune_one-IsTable :
    (at : AddressTable) (now : ℕ) (host : Bytes) → IsTable at → IsTable (prune_one at now host)
prune_one-IsTable at now host t = record {
  distinct = λ j. rw (entries-prune_one at now host j) (chosen j (bytes_eq host j));
}
  where
    chosen :
        (j : Bytes) (b : Bool)
        → IsDistinct (
            if b
            then keep_if (is_fresh at now) (entries_for_hostname at j)
            else entries_for_hostname at j)
    chosen j true = keep_if-IsDistinct at now (entries_for_hostname at j) (t.distinct j)
    chosen j false = t.distinct j

last_seen-prune_one :
    (at : AddressTable) (now : ℕ) (host j : Bytes) (ip : String)
    → IsTable at
    → last_seen (prune_one at now host) j ip ≡ (
        if bytes_eq host j
        then unless_stale at.staleness_threshold now (last_seen at j ip)
        else last_seen at j ip)
unfolding last_seen
last_seen-prune_one at now host j ip t =
    rw (entries-prune_one at now host j)
      (ground (arith, seen-keep_if at now ip (entries_for_hostname at j) (t.distinct j)))

-- Whatever candidates were collected, and whatever happened to the table since, pruning forgets the
-- addresses of the candidates that are stale by then, and nothing else: an address registered again
-- in between stays.
pub last_seen-prune_stale_entries :
    (at : AddressTable) (now : ℕ) (candidates : List Bytes) (j : Bytes) (ip : String)
    → IsTable at
    → last_seen (prune_stale_entries at now candidates) j ip ≡ (
        if is_listed candidates j
        then unless_stale at.staleness_threshold now (last_seen at j ip)
        else last_seen at j ip)
unfolding prune_stale_entries prune_one
last_seen-prune_stale_entries at now [] j ip t = refl
last_seen-prune_stale_entries at now (host ∷ hosts) j ip t =
    last_seen-prune_stale_entries (prune_one at now host) now hosts j ip
      (prune_one-IsTable at now host t)
    ∙ ground (arith, threshold-prune_one at now host, last_seen-prune_one at now host j ip t)

pub prune_stale_entries-IsTable :
    (at : AddressTable) (now : ℕ) (candidates : List Bytes)
    → IsTable at
    → IsTable (prune_stale_entries at now candidates)
unfolding prune_stale_entries prune_one
prune_stale_entries-IsTable at now [] t = t
prune_stale_entries-IsTable at now (host ∷ hosts) t =
    prune_stale_entries-IsTable (prune_one at now host) now hosts (prune_one-IsTable at now host t)

not_stale :
    (at : AddressTable) (now : ℕ) (ip : String) (entries : List Entry)
    → has_stale at now entries ≡ false
    → unless_stale at.staleness_threshold now (seen ip entries) ≡ seen ip entries
unfolding has_stale seen
not_stale at now ip [] h = refl
not_stale at now ip (e ∷ entries) h = ground (arith, not_stale at now ip entries)

-- A name that is no candidate has no stale address.
not_candidate :
    (at : AddressTable) (now : ℕ) (ip : String) (j : Bytes) (rest : List (Bytes × List Entry))
    → is_listed (stale_in at now rest) j ≡ false
    → unless_stale at.staleness_threshold now (seen ip (or_empty (lookup j rest)))
      ≡ seen ip (or_empty (lookup j rest))
unfolding stale_in lookup or_empty
not_candidate at now ip j [] h = unfold seen in refl
not_candidate at now ip j ((address, entries) ∷ rest) h =
    ground (arith, not_candidate at now ip j rest, not_stale at now ip entries)

-- A tick that may prune forgets exactly the stale addresses, of every name; a tick while pruning is
-- paused, or too soon after it was resumed, changes nothing.
pub last_seen-tick :
    (at : AddressTable) (now : ℕ) (j : Bytes) (ip : String)
    → IsTable at
    → last_seen (tick at now) j ip ≡ (
        if at.paused_pruning || ltb now (at.last_resume + at.resume_pruning_delay)
        then last_seen at j ip
        else unless_stale at.staleness_threshold now (last_seen at j ip))
unfolding tick tick_check
last_seen-tick at now j ip t = ground (
  arith,
  last_seen-prune_stale_entries at now (addresses_with_stale_entries at now) j ip t,
  settled,
)
  where
    settled :
        is_listed (addresses_with_stale_entries at now) j ≡ false
        → unless_stale at.staleness_threshold now (last_seen at j ip) ≡ last_seen at j ip
    settled h =
        unfold last_seen entries_for_hostname addresses_with_stale_entries in
        not_candidate at now ip j at.addresses (unfold addresses_with_stale_entries in h)
