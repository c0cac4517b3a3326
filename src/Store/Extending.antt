-- ===== src/Store/Extending.antt =====
-- Create of group.go and of destination.go, on a database that answers: a guid, or a key, that had no
-- row gets one, and every other keeps its own.
use cf_networking_release.Prelude.{
  ◌≢◌, suc, ℕ, String, ◌≡◌, refl, ap, sym, ◌∙◌, Option, none, some, List, [], ◌∷◌, ◌++◌, arith,
  no_rows, wrap, ok, err, ◌⊎◌, inl, inr, Bool-cases, Option-cases, str_eq, eq_iff, if◌then◌else◌,
  Error,
}
use mathlib.Core.Path.{subst}
use cf_networking_release.Store.Tables.{
  GroupRow, DestinationRow, Db, Session, statement, query_row, exec,
}
use cf_networking_release.Store.Groups
use cf_networking_release.Store.Groups.{row_with_guid}
use cf_networking_release.Store.Destinations
use cf_networking_release.Store.Destinations.{
  Key, has_key, row_with_key, row_of, insert_row, get_id,
}
use cf_networking_release.Store.GroupRows.{guid_at, IsTagTable}
use cf_networking_release.Store.Tags.{create-assigns}
use cf_networking_release.Store.DestinationRows.{
  has_key-eq, has_key_refl, IsCanonicalKey, IsDestinationTable, not-violates, row_with_key-append,
  append-IsDestinationTable,
}

abbrev pub answering : Db → Session
answering db = record { db = db; faults = [] }

-- The second table finds the key, and for every other key what the first does.
abbrev pub IsExtended : {K : Type 0} → (K → Option ℕ) → K → ℕ → (K → Option ℕ) → Type 0
IsExtended {K} before key id after =
    (after key ≡ some id)
    × ((k : K) (i : ℕ) → before k ≡ some i → after k ≡ some i)
    × ((k : K) (i : ℕ) → after k ≡ some i → (key ≡ k) ⊎ (before k ≡ some i))

abbrev pub out_of_tags : Error
out_of_tags = wrap "creating group" (wrap "failed to find available tag" no_rows)

-- No row is blank.
abbrev pub IsFull : List GroupRow → Type 0
IsFull rows = (id : ℕ) → guid_at id rows ≢ some none

pub create-group :
    (guid : String) (db : Db)
    → IsTagTable db.groups
    → ((id : ℕ) × (rows : List GroupRow) × (Groups.create guid (answering db)
          ≡ (ok id, answering (record db { groups = rows })))
        × IsTagTable rows
        × IsExtended (λ g. row_with_guid g db.groups) guid id (λ g. row_with_guid g rows))
      ⊎ (IsFull db.groups
          × (Groups.create guid (answering db)
              ≡ (err (wrap "failed to find available tag" no_rows), answering db)))
create-group guid db t = elim (create-assigns guid db t) [
  | inr (fresh, full, e) ↦ inr (full, e)
  | inl (id, rows, e, table, look, found) ↦
      let here : row_with_guid guid rows ≡ some id =
        look guid ∙ rw ((eq_iff guid guid).1 refl) refl in
      let kept : (g : String) (i : ℕ)
          → row_with_guid g db.groups ≡ some i
          → row_with_guid g rows ≡ some i =
        λ g i f. elim (Bool-cases (str_eq guid g)) [
          | inr other ↦ look g ∙ rw other f
          | inl same ↦
              let mine : row_with_guid guid db.groups ≡ some i =
                subst (λ k. row_with_guid k db.groups ≡ some i) (sym ((eq_iff guid g).0 same)) f in
              elim found [
                | inl old ↦ look g ∙ rw same (sym old ∙ mine)
                | inr (fresh, blank) ↦ absurd (ground (arith, fresh, mine))
              ]
        ] in
      inl (
        id,
        rows,
        e,
        table,
        (
          here,
          kept,
          λ g i f. elim (Bool-cases (str_eq guid g)) [
            | inl same ↦ inl ((eq_iff guid g).0 same)
            | inr other ↦ inr (sym (look g ∙ rw other refl) ∙ f)
          ],
        ),
      )
]

pub create-destination :
    (k : Key) (db : Db)
    → IsDestinationTable db.next_destination_id db.destinations
    → IsCanonicalKey k
    → (id next : ℕ) × (rows : List DestinationRow) × (Destinations.create k (answering db)
        ≡ (ok id, answering (record db { destinations = rows; next_destination_id = next })))
      × IsDestinationTable next rows
      × IsExtended (λ l. row_with_key l db.destinations) k id (λ l. row_with_key l rows)
unfolding Destinations.create insert_row get_id exec query_row statement row_with_key
create-destination k db t canonical = elim (Option-cases (row_with_key k db.destinations)) [
  | inr (id, found) ↦ (
    id,
    db.next_destination_id,
    db.destinations,
    rw (found, found) refl,
    t,
    (found, λ l i f. f, λ l i f. inr f),
  )
  | inl absent ↦
      let allowed = not-violates _ k db.destinations t canonical absent in
      let id = db.next_destination_id in
      let look : (l : Key)
          → row_with_key l (db.destinations ++ row_of id k ∷ [])
            ≡ (if has_key l (row_of id k) then some id else row_with_key l db.destinations) =
        λ l. row_with_key-append k l id db.destinations absent in
      let here : row_with_key k (db.destinations ++ row_of id k ∷ []) ≡ some id =
        look k ∙ rw (has_key_refl k id) refl in
      (
        id,
        suc id,
        db.destinations ++ row_of id k ∷ [],
        rw (absent, allowed, here) refl,
        append-IsDestinationTable k id db.destinations t canonical absent,
        (
          here,
          λ l i f. elim (Bool-cases (has_key l (row_of id k))) [
            | inr other ↦ look l ∙ rw other f
            | inl same ↦ absurd (
                ground (
                  arith,
                  f,
                  absent,
                  ap (λ m. row_with_key m db.destinations) (has_key-eq l (row_of id k) same),
                ))
          ],
          λ l i f. elim (Bool-cases (has_key l (row_of id k))) [
            | inr other ↦ inr (sym (look l ∙ rw other refl) ∙ f)
            | inl same ↦ inl (has_key-eq l (row_of id k) same)
          ],
        ),
      )
]
