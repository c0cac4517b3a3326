-- ===== src/Store/Tags.antt =====
-- The groups table (group.go) as a map from guids to ids, which are the tags.
use cf_networking_release.Prelude.{
  ◌≤◌, ◌≢◌, ℕ, String, ◌≡◌, refl, ap, none, some, List, [], ◌∷◌, ==_iff, arith, no_rows, wrap, ok,
  err, ◌⊎◌, inl, inr, Option-cases, str_eq, eq_iff, if◌then◌else◌,
}
use cf_networking_release.Store.Tables.{GroupRow, Db, statement, query_row, exec}
use cf_networking_release.Store.Groups
use cf_networking_release.Store.Groups.{
  has_guid, row_with_guid, least_blank, set_guid, find_row_by_guid, first_blank_row, update_row,
  take_blank_row, create_found,
}
use cf_networking_release.Store.GroupRows.{
  guid_at, IsTagTable, least_blank-blank, row_with_guid-set_guid, set_guid-IsTagTable, unless_id,
  row_with_guid-clear, clear-IsTagTable,
}

-- The row is blank, and no blank row has a lesser id.
abbrev pub IsLeastBlank : List GroupRow → ℕ → Type 0
IsLeastBlank rows id =
    (guid_at id rows ≡ some none) × ((j : ℕ) → guid_at j rows ≡ some none → id ≤ j)

least_blank-none :
    (j : ℕ) (rows : List GroupRow) → least_blank rows ≡ none → guid_at j rows ≢ some none
unfolding least_blank
least_blank-none j [] h at = absurd (ground (arith, at))
least_blank-none j (r ∷ rows) h at = elim (Option-cases r.guid) [
  | inl blank ↦ elim (Option-cases (least_blank rows)) [
    | inl last ↦ absurd (ground arith)
    | inr (i, next) ↦ absurd (ground arith)
  ]
  | inr (k, used) ↦ ground (arith, least_blank-none j rows (ground arith), at, used)
]

least_blank-least :
    (id j : ℕ) (rows : List GroupRow)
    → least_blank rows ≡ some id
    → guid_at j rows ≡ some none
    → id ≤ j
unfolding least_blank
least_blank-least id j [] h at = absurd (ground (arith, at))
least_blank-least id j (r ∷ rows) h at = elim (Option-cases r.guid) [
  | inl blank ↦ elim (Option-cases (least_blank rows)) [
    | inl last ↦ ground (arith, least_blank-none j rows last, at, ==_iff r.id j)
    | inr (i, next) ↦ ground (arith, least_blank-least i j rows next, at, ==_iff r.id j)
  ]
  | inr (k, used) ↦ ground (arith, least_blank-least id j rows (ground arith), at, used)
]

-- On a database that answers every statement, Create of a group gives the guid the row it has, or
-- else the blank row with the least id; every other guid keeps its id, and no id or guid stands
-- twice. It fails, and changes nothing, exactly if the guid has no row and no row is blank.
pub create-assigns :
    (guid : String) (db : Db)
    → IsTagTable db.groups
    → ((id : ℕ) × (rows : List GroupRow) × (Groups.create guid (record { db = db; faults = [] })
          ≡ (ok id, record { db = record db { groups = rows }; faults = [] }))
        × IsTagTable rows
        × ((g : String)
            → row_with_guid g rows ≡ (if str_eq guid g then some id else row_with_guid g db.groups))
        × ((row_with_guid guid db.groups ≡ some id)
            ⊎ ((row_with_guid guid db.groups ≡ none) × IsLeastBlank db.groups id)))
      ⊎ ((row_with_guid guid db.groups ≡ none)
          × ((j : ℕ) → guid_at j db.groups ≢ some none)
          × (Groups.create guid (record { db = db; faults = [] }) ≡ (
            err (wrap "failed to find available tag" no_rows),
            record { db = db; faults = [] },
          )))
unfolding Groups.create create_found take_blank_row find_row_by_guid first_blank_row update_row
    query_row exec statement
create-assigns guid db t = elim (Option-cases (row_with_guid guid db.groups)) [
  | inr (id, found) ↦ inl (
    id,
    db.groups,
    rw found refl,
    t,
    λ g.
        let same : guid ≡ g → row_with_guid guid db.groups ≡ row_with_guid g db.groups =
          ap (λ k. row_with_guid k db.groups) in
        ground (arith, found, eq_iff guid g, same),
    inl found,
  )
  | inl fresh ↦ elim (Option-cases (least_blank db.groups)) [
    | inl full ↦ inr (fresh, λ j. least_blank-none j db.groups full, rw (fresh, full) refl)
    | inr (id, blank) ↦
        let at : guid_at id db.groups ≡ some none = least_blank-blank id db.groups t blank in
        inl (
          id,
          set_guid (some guid) id db.groups,
          rw (fresh, blank) refl,
          set_guid-IsTagTable guid id db.groups t at fresh,
          λ g. row_with_guid-set_guid guid g id db.groups t at fresh,
          inr (fresh, (at, λ j. least_blank-least id j db.groups blank)),
        )
  ]
]

-- On a database that answers, Delete of a group leaves every other guid its id and takes the row's
-- guid away, and no id or guid stands twice.
pub delete-unassigns :
    (id : ℕ) (db : Db)
    → IsTagTable db.groups
    → (rows : List GroupRow) × (Groups.delete id (record { db = db; faults = [] })
        ≡ (ok tt, record { db = record db { groups = rows }; faults = [] }))
      × IsTagTable rows
      × ((g : String) → row_with_guid g rows ≡ unless_id id (row_with_guid g db.groups))
unfolding Groups.delete exec statement
delete-unassigns id db t = (
  set_guid none id db.groups,
  refl,
  clear-IsTagTable id db.groups t,
  λ g. row_with_guid-clear g id db.groups t,
)
