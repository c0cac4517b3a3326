-- ===== src/AddressTable/Entries.antt =====
-- The entries of one host name: index_of, and the writes by index, as a map from addresses to times.
use cf_networking_release.Prelude.{
  ℕ, zero, suc, String, ◌≡◌, refl, ap, ◌∙◌, inl, inr, Option, none, some, List, [], ◌∷◌, ◌++◌,
  arith, str_eq, eq_iff, if◌then◌else◌, Option-cases,
}
use cf_networking_release.AddressTable.{Entry, index_of, touch, add_entry, without_index}

-- The time of the first entry with the address.
unfoldable pub seen : String → List Entry → Option ℕ
seen ip [] = none
seen ip (e ∷ entries) = if str_eq e.ip ip then some e.update_time else seen ip entries

-- No address stands twice.
abbrev pub IsDistinct : List Entry → Type 0
IsDistinct [] = Unit
IsDistinct (e ∷ entries) = (seen e.ip entries ≡ none) × IsDistinct entries

pub index_of-seen :
    (entries : List Entry) (ip : String) → index_of entries ip ≡ none → seen ip entries ≡ none
unfolding index_of seen
index_of-seen [] ip h = refl
index_of-seen (x ∷ xs) ip h = ground (arith, index_of-seen xs ip)

seen-append :
    (entries : List Entry) (e : Entry) (ip : String)
    → seen e.ip entries ≡ none
    → seen ip (entries ++ e ∷ []) ≡ (if str_eq e.ip ip then some e.update_time else seen ip entries)
unfolding seen
seen-append [] e ip h = refl
seen-append (x ∷ xs) e ip h =
    ground (arith, seen-append xs e ip, eq_iff x.ip e.ip, eq_iff x.ip ip, eq_iff e.ip ip)

seen-touch :
    (entries : List Entry) (index now : ℕ) (ip j : String)
    → index_of entries ip ≡ some index
    → seen j (touch entries index now) ≡ (if str_eq ip j then some now else seen j entries)
unfolding seen touch index_of
seen-touch [] index now ip j h = cc
seen-touch (x ∷ xs) zero now ip j h = ground (arith, eq_iff x.ip ip, eq_iff x.ip j, eq_iff ip j)
seen-touch (x ∷ xs) (suc index) now ip j h =
    ground (arith, seen-touch xs index now ip j, eq_iff x.ip ip, eq_iff x.ip j, eq_iff ip j)

-- Adding an address sets its time and no other's.
pub seen-add_entry :
    (entries : List Entry) (ip j : String) (now : ℕ)
    → seen j (add_entry entries ip now (index_of entries ip))
      ≡ (if str_eq ip j then some now else seen j entries)
unfolding add_entry
seen-add_entry entries ip j now = elim (Option-cases (index_of entries ip)) [
  | inl absent ↦
      rw (absent, add_entry)
        (seen-append entries (record { ip = ip; update_time = now }) j
          (index_of-seen entries ip absent))
  | inr (i, found) ↦ rw (found, add_entry) (seen-touch entries i now ip j found)
]

-- Removing the entry at an address' index forgets that address and no other.
pub seen-without_index :
    (entries : List Entry) (index : ℕ) (ip j : String)
    → index_of entries ip ≡ some index
    → IsDistinct entries
    → seen j (without_index entries index) ≡ (if str_eq ip j then none else seen j entries)
unfolding seen without_index index_of
seen-without_index [] index ip j h d = cc
seen-without_index (x ∷ xs) zero ip j h d =
    ground (arith, eq_iff x.ip ip, eq_iff x.ip j, eq_iff ip j, d.0, ap (λ k. seen k xs))
seen-without_index (x ∷ xs) (suc index) ip j h d =
    ground
      (arith, seen-without_index xs index ip j, d.1, eq_iff x.ip ip, eq_iff x.ip j, eq_iff ip j)

IsDistinct-append :
    (entries : List Entry) (e : Entry)
    → seen e.ip entries ≡ none
    → IsDistinct entries
    → IsDistinct (entries ++ e ∷ [])
unfolding seen
IsDistinct-append [] e h d = (refl, tt)
IsDistinct-append (x ∷ xs) e h d = (
  seen-append xs e x.ip (ground arith) ∙ ground (arith, d.0, eq_iff x.ip e.ip, eq_iff e.ip x.ip),
  IsDistinct-append xs e (ground arith) d.1,
)

-- A renewed time changes no address.
seen-touch-none :
    (entries : List Entry) (index now : ℕ) (ip : String)
    → seen ip entries ≡ none
    → seen ip (touch entries index now) ≡ none
unfolding seen touch
seen-touch-none [] index now ip h = refl
seen-touch-none (x ∷ xs) zero now ip h = ground arith
seen-touch-none (x ∷ xs) (suc index) now ip h = ground (arith, seen-touch-none xs index now ip)

touch-IsDistinct :
    (entries : List Entry) (index now : ℕ)
    → IsDistinct entries
    → IsDistinct (touch entries index now)
unfolding touch
touch-IsDistinct [] index now d = tt
touch-IsDistinct (x ∷ xs) zero now d = d
touch-IsDistinct (x ∷ xs) (suc index) now d =
    (seen-touch-none xs index now x.ip d.0, touch-IsDistinct xs index now d.1)

pub add_entry-IsDistinct :
    (entries : List Entry) (ip : String) (now : ℕ)
    → IsDistinct entries
    → IsDistinct (add_entry entries ip now (index_of entries ip))
unfolding add_entry
add_entry-IsDistinct entries ip now d = elim (Option-cases (index_of entries ip)) [
  | inl absent ↦
      rw (absent, add_entry)
        (IsDistinct-append entries (record { ip = ip; update_time = now })
          (index_of-seen entries ip absent) d)
  | inr (i, found) ↦ rw (found, add_entry) (touch-IsDistinct entries i now d)
]

seen-without-none :
    (entries : List Entry) (index : ℕ) (ip : String)
    → seen ip entries ≡ none
    → seen ip (without_index entries index) ≡ none
unfolding seen without_index
seen-without-none [] zero ip h = refl
seen-without-none [] (suc index) ip h = refl
seen-without-none (x ∷ xs) zero ip h = ground arith
seen-without-none (x ∷ xs) (suc index) ip h = ground (arith, seen-without-none xs index ip)

pub without_index-IsDistinct :
    (entries : List Entry) (index : ℕ)
    → IsDistinct entries
    → IsDistinct (without_index entries index)
unfolding without_index
without_index-IsDistinct [] zero d = tt
without_index-IsDistinct [] (suc index) d = tt
without_index-IsDistinct (x ∷ xs) zero d = d.1
without_index-IsDistinct (x ∷ xs) (suc index) d =
    (seen-without-none xs index x.ip d.0, without_index-IsDistinct xs index d.1)
