-- ===== src/AddressTable/Removal.antt =====
-- Remove, and what Lookup shows.
use cf_networking_release.Prelude.{
  ℕ, zero, suc, String, ◌≡◌, refl, ap, ◌∙◌, inl, inr, Bool, true, false, ◌||◌, ◌&&◌, Option, none,
  some, List, [], ◌∷◌, arith, str_eq, eq_iff, if◌then◌else◌, ◌==◌, Bool-cases, Option-cases,
  contains, Bytes, bytes_eq, bytes_eq_iff, length,
}
use cf_networking_release.Assoc.{lookup-put, lookup-remove, remove}
use cf_networking_release.AddressTable.{
  AddressTable, Entry, index_of, without_index, entries_to_ips, fqdn, entries_for_hostname,
  remove_found, remove_one, remove_all, lookup_ips, set_entries, bytes_instance,
}
use cf_networking_release.AddressTable.Entries.{
  seen, seen-without_index, without_index-IsDistinct, index_of-seen,
}
use cf_networking_release.AddressTable.View.{
  last_seen, IsTable, updated, last_seen-set_entries, set_entries-IsTable,
}

-- Deleting the name's only entry leaves what removing that entry would.
without_only :
    (entries : List Entry) (index : ℕ) (ip : String)
    → (length entries == 1) ≡ true
    → index_of entries ip ≡ some index
    → without_index entries index ≡ []
unfolding without_index index_of
without_only [] index ip one found = cc
without_only (x ∷ []) zero ip one found = refl
without_only (x ∷ []) (suc index) ip one found = ground arith
without_only (x ∷ y ∷ xs) index ip one found = absurd (ground arith)

entries-remove :
    (at : AddressTable) (host j : Bytes)
    → entries_for_hostname (record at { addresses = remove host at.addresses }) j
      ≡ entries_for_hostname (set_entries at host []) j
unfolding entries_for_hostname
entries-remove at host j =
    ground (arith, lookup-remove host j at.addresses, lookup-put host j [] at.addresses)

-- Whichever way the entry is taken out, the name is left with the other entries.
entries-remove_found :
    (at : AddressTable) (host j : Bytes) (entries : List Entry) (index : ℕ) (ip : String)
    → index_of entries ip ≡ some index
    → entries_for_hostname (remove_found at host entries (some index)) j
      ≡ entries_for_hostname (set_entries at host (without_index entries index)) j
unfolding remove_found
entries-remove_found at host j entries index ip found = elim (Bool-cases (length entries == 1)) [
  | inl one ↦ rw (one, without_only entries index ip one found) (entries-remove at host j)
  | inr more ↦ rw more
]

last_seen-remove_one :
    (at : AddressTable) (ip : String) (host : Bytes)
    → IsTable at
    → (j : Bytes) (jp : String)
    → last_seen (remove_one at ip host) j jp ≡ updated at host ip none j jp
unfolding remove_one remove_found
last_seen-remove_one at ip host t j jp =
    elim (Option-cases (index_of (entries_for_hostname at host) ip)) [
      | inl absent ↦
          rw (absent, remove_found)
            (unfold last_seen in
              ground (
                arith,
                index_of-seen (entries_for_hostname at host) ip absent,
                bytes_eq_iff host j,
                eq_iff ip jp,
                ap (λ h. seen ip (entries_for_hostname at h)),
                ap (λ k. seen k (entries_for_hostname at j)),
              ))
      | inr (i, found) ↦
          rw found (
            unfold last_seen in
            ap (seen jp) (entries-remove_found at host j (entries_for_hostname at host) i ip found))
          ∙ last_seen-set_entries at host ip _ none
              (λ k.
                seen-without_index (entries_for_hostname at host) i ip k found (t.distinct host))
              j jp
    ]

remove_one-IsTable :
    (at : AddressTable) (ip : String) (host : Bytes) → IsTable at → IsTable (remove_one at ip host)
unfolding remove_one remove_found
remove_one-IsTable at ip host t = elim (Option-cases (index_of (entries_for_hostname at host) ip)) [
  | inl absent ↦ rw absent t
  | inr (i, found) ↦ rw found (record {
    distinct = λ j. rw (entries-remove_found at host j (entries_for_hostname at host) i ip found) (
        (set_entries-IsTable at host _ t
            (without_index-IsDistinct (entries_for_hostname at host) i (t.distinct host))).distinct
          j);
  })
]

-- Whether the host is the fully qualified form of one of the names.
abbrev pub names_host : List Bytes → Bytes → Bool
names_host [] host = false
names_host (name ∷ names) host = bytes_eq (fqdn name) host || names_host names host

-- Remove forgets the address for the fully qualified form of each name, and changes no other pair
-- of a name and an address.
pub last_seen-remove_all :
    (at : AddressTable) (names : List Bytes) (ip : String) (j : Bytes) (jp : String)
    → IsTable at
    → last_seen (remove_all at names ip) j jp
      ≡ (if names_host names j && str_eq ip jp then none else last_seen at j jp)
unfolding remove_all
last_seen-remove_all at [] ip j jp t = refl
last_seen-remove_all at (name ∷ names) ip j jp t = ground (
  arith,
  last_seen-remove_all (remove_one at ip (fqdn name)) names ip j jp
      (remove_one-IsTable at ip (fqdn name) t),
  last_seen-remove_one at ip (fqdn name) t j jp,
)

pub remove_all-IsTable :
    (at : AddressTable) (names : List Bytes) (ip : String)
    → IsTable at
    → IsTable (remove_all at names ip)
unfolding remove_all
remove_all-IsTable at [] ip t = t
remove_all-IsTable at (name ∷ names) ip t =
    remove_all-IsTable (remove_one at ip (fqdn name)) names ip
      (remove_one-IsTable at ip (fqdn name) t)

abbrev pub is_some {ℓ} : {A : Type ℓ} → Option A → Bool
is_some none = false
is_some (some a) = true

contains-ips :
    (ip : String) (entries : List Entry)
    → contains ip (entries_to_ips entries) ≡ is_some (seen ip entries)
unfolding entries_to_ips contains seen
contains-ips ip [] = refl
contains-ips ip (e ∷ entries) = ground (arith, contains-ips ip entries)

-- Lookup lists exactly the addresses that the table records for the fully qualified name.
pub contains-lookup_ips :
    (at : AddressTable) (name : Bytes) (ip : String)
    → contains ip (lookup_ips at name) ≡ is_some (last_seen at (fqdn name) ip)
unfolding lookup_ips last_seen
contains-lookup_ips at name ip = contains-ips ip (entries_for_hostname at (fqdn name))
