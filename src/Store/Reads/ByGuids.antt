-- ===== src/Store/Reads/ByGuids.antt =====
-- ByGuids beside All.
use cf_networking_release.Prelude.{
  ℕ, String, ◌≡◌, refl, ap, sym, Bool, true, false, ◌&&◌, ◌||◌, some, List, [], ◌∷◌, keep_if,
  contains, ok, inl, inr, Option-cases, Bool-cases, Result-cases, arith, >>=-eq-ok,
}
use cf_networking_release.Store.Models.{Policy}
use cf_networking_release.Store.Tables.{PolicyRow, Db}
use cf_networking_release.Store.{next_answer}
use cf_networking_release.Store.Reads.{
  JoinedRow, join_row, scan_row, scan_rows, scan_source, scan_destination, scan_found, iterate,
  queried, policies_query, all, where_clause, by_guids, no_fault,
}

-- The policies that a query by guids asks for; without guids, none.
abbrev pub asked_for : List String → List String → Bool → Policy → Bool
asked_for [] [] both p = false
asked_for [] (d ∷ dests) both p = contains p.destination.id (d ∷ dests)
asked_for (s ∷ sources) [] both p = contains p.source.id (s ∷ sources)
asked_for (s ∷ sources) (d ∷ dests) true p =
    contains p.source.id (s ∷ sources) && contains p.destination.id (d ∷ dests)
asked_for (s ∷ sources) (d ∷ dests) false p =
    contains p.source.id (s ∷ sources) || contains p.destination.id (d ∷ dests)

scan_row-guids :
    (tag_length : ℕ) (row : JoinedRow) (p : Policy)
    → scan_row tag_length row ≡ ok p
    → (row.source_guid ≡ some p.source.id) × (row.destination_guid ≡ some p.destination.id)
unfolding scan_row scan_source scan_destination scan_found
scan_row-guids tag_length row p h = elim (Option-cases row.source_guid) [
  | inl missing ↦ absurd (ground arith)
  | inr (source, from) ↦ elim (Option-cases row.destination) [
    | inl missing ↦ absurd (ground arith)
    | inr (d, found) ↦ elim (Option-cases row.destination_guid) [
      | inl missing ↦ absurd (ground arith)
      | inr (dest, to) ↦ (ground arith, ground arith)
    ]
  ]
]

where_clause-asked_for :
    (sources dests : List String) (both : Bool) (row : JoinedRow) (p : Policy)
    → row.source_guid ≡ some p.source.id
    → row.destination_guid ≡ some p.destination.id
    → where_clause sources dests both row ≡ asked_for sources dests both p
unfolding where_clause contains
where_clause-asked_for [] [] both row p from to = rw to refl
where_clause-asked_for [] (d ∷ dests) both row p from to = rw to refl
where_clause-asked_for (s ∷ sources) [] both row p from to = rw from refl
where_clause-asked_for (s ∷ sources) (d ∷ dests) true row p from to = rw (from, to) refl
where_clause-asked_for (s ∷ sources) (d ∷ dests) false row p from to = rw (from, to) refl

scan_rows-asked_for :
    (tag_length : ℕ) (sources dests : List String) (both : Bool) (db : Db) (rows : List PolicyRow)
    (policies : List Policy)
    → scan_rows tag_length (λ r. true) db rows ≡ ok policies
    → scan_rows tag_length (where_clause sources dests both) db rows
      ≡ ok (keep_if (asked_for sources dests both) policies)
unfolding scan_rows keep_if
scan_rows-asked_for tag_length sources dests both db [] policies h =
    ap (λ ps. ok (keep_if (asked_for sources dests both) ps)) {x = []} (ground arith)
scan_rows-asked_for tag_length sources dests both db (r ∷ rows) policies h =
    let (p, scanned, more) = >>=-eq-ok (scan_row tag_length (join_row db r)) _ h in
    let (others, rest, listed) = >>=-eq-ok (scan_rows tag_length (λ r. true) db rows) _ more in
    let guids = scan_row-guids tag_length (join_row db r) p scanned in
    let later = scan_rows-asked_for tag_length sources dests both db rows others rest in
    let this = where_clause-asked_for sources dests both (join_row db r) p guids.0 guids.1 in
    let whole : policies ≡ p ∷ others = ground (arith, listed) in
    elim (Bool-cases (asked_for sources dests both p)) [
      | inl asked ↦ rw (whole, this, asked, scanned, later) refl
      | inr skipped ↦ rw (whole, this, skipped, later) refl
    ]

keep_if-nothing :
    (both : Bool) (policies : List Policy) → keep_if (asked_for [] [] both) policies ≡ []
unfolding keep_if
keep_if-nothing both [] = refl
keep_if-nothing both (p ∷ policies) = keep_if-nothing both policies

all-scan_rows :
    (tag_length : ℕ) (order : List PolicyRow → List PolicyRow) (db : Db) (policies : List Policy)
    → all tag_length order (record { db = db; faults = [] })
      ≡ (ok policies, record { db = db; faults = [] })
    → scan_rows tag_length (λ r. true) db (order db.policies) ≡ ok policies
unfolding all policies_query queried iterate next_answer no_fault
all-scan_rows tag_length order db policies h =
    elim (Result-cases (scan_rows tag_length (λ r. true) db (order db.policies))) [
      | inl (found, scanned) ↦ ground (arith, h, scanned)
      | inr (e, failed) ↦ absurd (ground (arith, h, failed))
    ]

-- On a database that answers and visits the rows in one order for both queries, if All lists the
-- policies then ByGuids lists those of them that the query asks for, in the same order: by source, by
-- destination, by either or by both; and none if no guids are given.
pub by_guids-asked_for :
    (tag_length : ℕ) (order : List PolicyRow → List PolicyRow) (sources dests : List String)
    (both : Bool) (db : Db) (policies : List Policy)
    → all tag_length order (record { db = db; faults = [] })
      ≡ (ok policies, record { db = db; faults = [] })
    → by_guids tag_length order sources dests both (record { db = db; faults = [] })
      ≡ (ok (keep_if (asked_for sources dests both) policies), record { db = db; faults = [] })
unfolding by_guids policies_query queried iterate next_answer no_fault
by_guids-asked_for tag_length order [] [] both db policies h =
    ap (λ ps. (ok ps, record { db = db; faults = [] })) (sym (keep_if-nothing both policies))
by_guids-asked_for tag_length order [] (d ∷ dests) both db policies h =
    rw
      (scan_rows-asked_for tag_length [] (d ∷ dests) both db (order db.policies) policies
        (all-scan_rows tag_length order db policies h))
      refl
by_guids-asked_for tag_length order (s ∷ sources) dests both db policies h =
    rw
      (scan_rows-asked_for tag_length (s ∷ sources) dests both db (order db.policies) policies
        (all-scan_rows tag_length order db policies h))
      refl
