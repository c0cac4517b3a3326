-- ===== src/AddressTable/View.antt =====
-- The table seen as a map from a host name and an address to the time of the last registration.
use cf_networking_release.Prelude.{
  ℕ, String, ◌≡◌, refl, ap, ◌∙◌, inl, inr, Bool, true, false, ◌&&◌, Option, some, List, [], ◌∷◌,
  ◌++◌, arith, str_eq, if◌then◌else◌, Bool-cases, Bytes, bytes_eq, bytes_eq_iff,
}
use cf_networking_release.Assoc.{lookup, lookup-put}
use cf_networking_release.AddressTable.{
  AddressTable, Entry, new_address_table, is_fqdn, fqdn, entries_for_hostname, add_one, add,
  set_entries, bytes_instance, or_empty,
}
use cf_networking_release.AddressTable.Entries.{
  seen, IsDistinct, seen-add_entry, add_entry-IsDistinct,
}

is_fqdn-append : (s : Bytes) → is_fqdn (s ++ b'.' ∷ []) ≡ true
unfolding is_fqdn
is_fqdn-append [] = refl
is_fqdn-append (c ∷ []) = refl
is_fqdn-append (c ∷ d ∷ s) = is_fqdn-append (d ∷ s)

-- A name is made fully qualified once: fqdn ends it in a dot, and leaves a name that does.
pub fqdn_idem : (s : Bytes) → (is_fqdn (fqdn s) ≡ true) × (fqdn (fqdn s) ≡ fqdn s)
unfolding fqdn
fqdn_idem s = elim (Bool-cases (is_fqdn s)) [
  | inl full ↦ rw full (full, rw full)
  | inr part ↦ rw part (is_fqdn-append s, rw is_fqdn-append)
]

-- When the address was last registered for the fully qualified name.
unfoldable pub last_seen : AddressTable → Bytes → String → Option ℕ
last_seen at host ip = seen ip (entries_for_hostname at host)

-- Every host name has each address once.
pub record IsTable (at : AddressTable) : Type 0 where
  pub distinct : (host : Bytes) → IsDistinct (entries_for_hostname at host)

pub entries-set_entries :
    (at : AddressTable) (host j : Bytes) (entries : List Entry)
    → entries_for_hostname (set_entries at host entries) j
      ≡ (if bytes_eq host j then entries else entries_for_hostname at j)
unfolding entries_for_hostname
entries-set_entries at host j entries = ground (arith, lookup-put host j entries at.addresses)

-- One host name and one address.
abbrev pub same_pair : Bytes → String → Bytes → String → Bool
same_pair host ip host' ip' = bytes_eq host host' && str_eq ip ip'

-- What a table records once one name and address has been given a value.
abbrev pub updated : AddressTable → Bytes → String → Option ℕ → Bytes → String → Option ℕ
updated at host ip o j jp = if same_pair host ip j jp then o else last_seen at j jp

-- Entries that differ at one address change the table at one pair.
pub last_seen-set_entries :
    (at : AddressTable) (host : Bytes) (ip : String) (entries : List Entry) (o : Option ℕ)
    → ((jp : String)
        → seen jp entries ≡ (if str_eq ip jp then o else seen jp (entries_for_hostname at host)))
    → (j : Bytes) (jp : String)
    → last_seen (set_entries at host entries) j jp ≡ updated at host ip o j jp
unfolding last_seen
last_seen-set_entries at host ip entries o differ j jp =
    rw (entries-set_entries at host j entries) (
      ground (arith, differ jp, bytes_eq_iff host j, ap (λ h. seen jp (entries_for_hostname at h))))

pub set_entries-IsTable :
    (at : AddressTable) (host : Bytes) (entries : List Entry)
    → IsTable at
    → IsDistinct entries
    → IsTable (set_entries at host entries)
set_entries-IsTable at host entries t d = record {
  distinct = λ j. rw (entries-set_entries at host j entries) (chosen j (bytes_eq host j));
}
  where
    chosen : (j : Bytes) (b : Bool) → IsDistinct (if b then entries else entries_for_hostname at j)
    chosen j true = d
    chosen j false = t.distinct j

last_seen-add_one :
    (at : AddressTable) (ip : String) (host : Bytes) (now : ℕ) (j : Bytes) (jp : String)
    → last_seen (add_one at ip host now) j jp ≡ updated at host ip (some now) j jp
unfolding add_one
last_seen-add_one at ip host now =
    last_seen-set_entries at host ip _ (some now)
      (λ jp. seen-add_entry (entries_for_hostname at host) ip jp now)

add_one-IsTable :
    (at : AddressTable) (ip : String) (host : Bytes) (now : ℕ)
    → IsTable at
    → IsTable (add_one at ip host now)
unfolding add_one
add_one-IsTable at ip host now t =
    set_entries-IsTable at host _ t
      (add_entry-IsDistinct (entries_for_hostname at host) ip now (t.distinct host))

-- The time of the last of the names that is the host, once it is fully qualified.
abbrev pub registered : List (Bytes × ℕ) → Bytes → Option ℕ → Option ℕ
registered [] host o = o
registered ((name, now) ∷ names) host o =
    registered names host (if bytes_eq (fqdn name) host then some now else o)

-- Add registers the address for the fully qualified form of each name at that name's time, and
-- changes no other pair of a name and an address.
pub last_seen-add :
    (at : AddressTable) (names : List (Bytes × ℕ)) (ip : String) (j : Bytes) (jp : String)
    → last_seen (add at names ip) j jp
      ≡ (if str_eq ip jp then registered names j (last_seen at j jp) else last_seen at j jp)
unfolding add
last_seen-add at [] ip j jp = ground arith
last_seen-add at ((name, now) ∷ names) ip j jp =
    last_seen-add (add_one at ip (fqdn name) now) names ip j jp ∙ split (str_eq ip jp) refl
  where
    split :
        (b : Bool)
        → str_eq ip jp ≡ b
        → (if b
            then registered names j (last_seen (add_one at ip (fqdn name) now) j jp)
            else last_seen (add_one at ip (fqdn name) now) j jp)
          ≡ (if b
              then registered ((name, now) ∷ names) j (last_seen at j jp)
              else last_seen at j jp)
    split true e =
        ap (registered names j) (last_seen-add_one at ip (fqdn name) now j jp ∙ ground (arith, e))
    split false e = last_seen-add_one at ip (fqdn name) now j jp ∙ ground (arith, e)

pub new_address_table-IsTable : (threshold delay : ℕ) → IsTable (new_address_table threshold delay)
unfolding new_address_table entries_for_hostname or_empty lookup
new_address_table-IsTable threshold delay = record { distinct = λ host. tt }

pub add-IsTable :
    (at : AddressTable) (names : List (Bytes × ℕ)) (ip : String)
    → IsTable at
    → IsTable (add at names ip)
unfolding add
add-IsTable at [] ip t = t
add-IsTable at ((name, now) ∷ names) ip t =
    add-IsTable (add_one at ip (fqdn name) now) names ip (add_one-IsTable at ip (fqdn name) now t)
