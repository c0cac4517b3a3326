-- ===== src/Store/Reads.antt =====
-- The queries of src/policy-server/store/store.go: All, ByGuids, Tags and CheckDatabase, the text of
-- a tag, and the rows that populateTables makes.
pub mod ByGuids
pub mod Listed
pub mod Lifetime
mod Examples
use cf_networking_release.Prelude.{
  ℕ, zero, suc, ◌+◌, ◌*◌, ◌-◌, ◌^◌, String, ℤ, pos, negsuc, Bool, true, false, ◌&&◌, ◌||◌, Option,
  none, some, List, [], ◌∷◌, ◌==◌, ltb, if◌then◌else◌, Error, external, number_error, wrap, Result,
  ok, err, Bytes, contains, wrapping, ◌>>=◌, ◌>>◌, length,
}
use cf_networking_release.Prelude.Print.{print_hex}
use cf_networking_release.Store.Models.{Policy, Tag}
use cf_networking_release.Store.Tables.{
  GroupRow, DestinationRow, PolicyRow, Db, Session, row_with_id, guid_with_id,
}
use cf_networking_release.Store.{next_answer}

-- s.tagLength bytes are printed as twice as many digits.
unfoldable pub tag_int_to_string : ℕ → ℕ → Bytes
tag_int_to_string tag_length tag = print_hex (tag_length * 2) tag

-- A row of the joined tables: the guids and the destination, where the outer joins found them.
pub record JoinedRow : Type 0 where
  pub source_guid : Option String
  pub source_id : ℕ
  pub destination : Option DestinationRow
  pub destination_guid : Option String

destination_guid_of : List GroupRow → Option DestinationRow → Option String
destination_guid_of groups none = none
destination_guid_of groups (some d) = guid_with_id d.group_id groups

unfoldable pub join_row : Db → PolicyRow → JoinedRow
unfolding destination_guid_of
join_row db r =
    let d = row_with_id r.destination_id db.destinations in
    record {
      source_guid = guid_with_id r.group_id db.groups;
      source_id = r.group_id;
      destination = d;
      destination_guid = destination_guid_of db.groups d;
    }

scan_found : ℕ → String → ℕ → DestinationRow → String → Policy
unfolding tag_int_to_string
scan_found tag_length source_guid source_id d destination_guid = record {
  source = record { id = source_guid; tag = tag_int_to_string tag_length source_id };
  destination = record {
    id = destination_guid;
    tag = tag_int_to_string tag_length d.group_id;
    protocol = d.protocol;
    port = d.port;
    ports = record { start = d.start_port; end = d.end_port };
  };
}

scan_destination : ℕ → String → ℕ → Option DestinationRow → Option String → Result Policy
unfolding scan_found
scan_destination tag_length guid id (some d) (some destination_guid) =
    ok (scan_found tag_length guid id d destination_guid)
scan_destination tag_length guid id _ _ = err (external "converting NULL")

scan_source : ℕ → Option String → JoinedRow → Result Policy
unfolding scan_destination
scan_source tag_length none r = err (external "converting NULL")
scan_source tag_length (some guid) r =
    scan_destination tag_length guid r.source_id r.destination r.destination_guid

-- rows.Scan, which refuses a NULL
pub scan_row : ℕ → JoinedRow → Result Policy
unfolding scan_source
scan_row tag_length r = scan_source tag_length r.source_guid r

-- The rows that the WHERE clause keeps, scanned in order; the first that fails ends the query.
pub scan_rows : ℕ → (JoinedRow → Bool) → Db → List PolicyRow → Result (List Policy)
unfolding scan_row join_row
scan_rows tag_length keep db [] = ok []
scan_rows tag_length keep db (r ∷ rows) =
    let rest = scan_rows tag_length keep db rows in
    let row = join_row db r in
    if keep row then (do p ← scan_row tag_length row; ps ← rest; ok (p ∷ ps)) else rest

unfoldable pub no_fault : Option Error → Result (Unit {0})
no_fault none = ok tt
no_fault (some e) = err e

-- The rows of a query that the database took; it may fail again behind the last one. The queries have
-- no ORDER BY: the database visits the rows in an order of its own.
iterate :
    ℕ
    → (List PolicyRow → List PolicyRow)
    → (JoinedRow → Bool)
    → Session
    → Option Error × List (Option Error)
    → Result (List Policy)
unfolding no_fault
iterate tag_length order keep s (iterated, rest) = do
  policies ← wrapping "listing all" (scan_rows tag_length keep s.db (order s.db.policies))
  wrapping "listing all, getting next row" (no_fault iterated)
  ok policies

queried :
    ℕ
    → (List PolicyRow → List PolicyRow)
    → (JoinedRow → Bool)
    → Session
    → Option Error × List (Option Error)
    → Result (List Policy) × Session
unfolding iterate next_answer
queried tag_length order keep s (some e, rest) =
    (err (wrap "listing all" e), record s { faults = rest })
queried tag_length order keep s (none, rest) =
    let (iterated, after) = next_answer rest in
    (iterate tag_length order keep s (iterated, after), record s { faults = after })

pub policies_query :
    ℕ
    → (List PolicyRow → List PolicyRow)
    → (JoinedRow → Bool)
    → Session
    → Result (List Policy) × Session
unfolding queried
policies_query tag_length order keep s = queried tag_length order keep s (next_answer s.faults)

pub all : ℕ → (List PolicyRow → List PolicyRow) → Session → Result (List Policy) × Session
unfolding policies_query
all tag_length order s = policies_query tag_length order (λ r. true) s

-- guid in (?, ?, ...), which is not true of NULL
abbrev pub guid_in : List String → Option String → Bool
guid_in guids none = false
guid_in guids (some guid) = contains guid guids

-- The joined conditions; a list of guids that is empty gives none.
pub where_clause : List String → List String → Bool → JoinedRow → Bool
where_clause [] dest_guids in_source_and_dest r = guid_in dest_guids r.destination_guid
where_clause (g ∷ src_guids) [] in_source_and_dest r = guid_in (g ∷ src_guids) r.source_guid
where_clause (g ∷ src_guids) (d ∷ dest_guids) true r =
    guid_in (g ∷ src_guids) r.source_guid && guid_in (d ∷ dest_guids) r.destination_guid
where_clause (g ∷ src_guids) (d ∷ dest_guids) false r =
    guid_in (g ∷ src_guids) r.source_guid || guid_in (d ∷ dest_guids) r.destination_guid

pub by_guids :
    ℕ
    → (List PolicyRow → List PolicyRow)
    → List String
    → List String
    → Bool
    → Session
    → Result (List Policy) × Session
unfolding policies_query where_clause
by_guids tag_length order [] [] in_source_and_dest s = (ok [], s)
by_guids tag_length order src_guids dest_guids in_source_and_dest s =
    policies_query tag_length order (where_clause src_guids dest_guids in_source_and_dest) s

tag_of_row : ℕ → ℕ → Option String → List Tag → List Tag
unfolding tag_int_to_string
tag_of_row tag_length id none rest = rest
tag_of_row tag_length id (some guid) rest =
    record { id = guid; tag = tag_int_to_string tag_length id } ∷ rest

-- SELECT guid, id FROM groups WHERE guid IS NOT NULL ORDER BY id, over rows that stand by their ids.
pub tag_rows : ℕ → List GroupRow → List Tag
unfolding tag_of_row
tag_rows tag_length [] = []
tag_rows tag_length (r ∷ rows) =
    let rest = tag_rows tag_length rows in tag_of_row tag_length r.id r.guid rest

tags_queried : ℕ → Session → Option Error × List (Option Error) → Result (List Tag) × Session
unfolding tag_rows no_fault next_answer
tags_queried tag_length s (some e, rest) = (err (wrap "listing tags" e), record s { faults = rest })
tags_queried tag_length s (none, rest) =
    let (iterated, after) = next_answer rest in
    (
      (do
        wrapping "listing tags, getting next row" (no_fault iterated)
        ok (tag_rows tag_length s.db.groups)),
      record s { faults = after },
    )

pub tags : ℕ → Session → Result (List Tag) × Session
unfolding tags_queried
tags tag_length s = tags_queried tag_length s (next_answer s.faults)

pub check_database : Session → Result (Unit {0}) × Session
unfolding next_answer no_fault
check_database s =
    let (answer, rest) = next_answer s.faults in (no_fault answer, record s { faults = rest })

-- Blank rows, `count` of them, with the ids from `first` on.
unfoldable pub blank_rows : ℕ → ℕ → List GroupRow
blank_rows zero first = []
blank_rows (suc count) first = record { id = first; guid = none } ∷ blank_rows count (first + 1)

-- One row for each tag but 0, unless the table has rows already; the database answers the count
-- and the insertion.
unfoldable pub populate_tables : ℕ → Option Error → Option Error → Db → Result Db
unfolding blank_rows no_fault
populate_tables tag_length counted inserted db = do
  no_fault counted
  if length db.groups == 0
      then (do
        no_fault inserted
        ok (record db { groups = blank_rows (2 ^ (tag_length * 8) - 1) 1 }))
      else ok db

abbrev pub min_tag_length : ℕ
min_tag_length = 1

abbrev pub max_tag_length : ℕ
max_tag_length = 3

-- A tag length that is out of range, as an error.
abbrev pub out_of_range : ℤ → Error
out_of_range tag_length =
    number_error "tag length out of range (%d-%d): %d"
      (pos min_tag_length ∷ pos max_tag_length ∷ tag_length ∷ [])

-- New: the migrations' result, then the tables. The table's first row has id 1.
pub new_store : ℤ → Result ℕ → Option Error → Option Error → Db → Result Db
unfolding populate_tables
new_store (negsuc n) migrated counted inserted db = err (out_of_range (negsuc n))
new_store (pos tag_length) migrated counted inserted db =
    if ltb tag_length min_tag_length || ltb max_tag_length tag_length
    then err (out_of_range (pos tag_length))
    else do
      migrations ← wrapping "perform migrations" migrated
      wrapping "populating tables" (populate_tables tag_length counted inserted db)
