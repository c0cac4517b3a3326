-- ===== src/Store/Destinations.antt =====
-- src/policy-server/store/destination.go, with the constraint unique_destination of
-- src/policy-server/store/migrations/v0002.go, which leaves the single port out.
use cf_networking_release.Prelude.{
  ℕ, suc, String, ℤ, Bool, false, ◌&&◌, ◌||◌, Option, none, some, List, [], ◌∷◌, ◌++◌, ◌==◌, str_eq,
  if◌then◌else◌, Error, external, Result, ok, err, keep_if, not, length,
}
use cf_networking_release.Prelude.Int.{eq_ℤ}
use cf_networking_release.Store.Tables.{DestinationRow, Db, Tx, ◌>>◌, query_row, exec}

-- The columns by which a destination is looked up.
pub record Key : Type 0 where
  pub group_id : ℕ
  pub port : ℤ
  pub start_port : ℤ
  pub end_port : ℤ
  pub protocol : String

abbrev pub in_constraint : Key → DestinationRow → Bool
in_constraint k r =
    (r.group_id == k.group_id)
    && eq_ℤ r.start_port k.start_port
    && eq_ℤ r.end_port k.end_port
    && str_eq r.protocol k.protocol

-- WHERE group_id = ? AND port = ? AND start_port = ? AND end_port = ? AND protocol = ?
abbrev pub has_key : Key → DestinationRow → Bool
has_key k r = in_constraint k r && eq_ℤ r.port k.port

unfoldable pub row_with_key : Key → List DestinationRow → Option ℕ
row_with_key k [] = none
row_with_key k (r ∷ rows) = if has_key k r then some r.id else row_with_key k rows

unfoldable pub violates : Key → List DestinationRow → Bool
violates k [] = false
violates k (r ∷ rows) = in_constraint k r || violates k rows

abbrev pub row_of : ℕ → Key → DestinationRow
row_of id k = record {
  id = id;
  group_id = k.group_id;
  port = k.port;
  start_port = k.start_port;
  end_port = k.end_port;
  protocol = k.protocol;
}

abbrev pub unique_violation : Error
unique_violation = external "unique_destination"

abbrev pub insert_new : Key → Db → Result (Unit {0}) × Db
insert_new k db = if violates k db.destinations then (err unique_violation, db) else (
  ok tt,
  record db {
    destinations = db.destinations ++ row_of db.next_destination_id k ∷ [];
    next_destination_id = suc db.next_destination_id;
  },
)

-- INSERT INTO destinations ... WHERE NOT EXISTS (...)
unfoldable pub insert_row : Key → Db → Result (Unit {0}) × Db
insert_row k db = elim (row_with_key k db.destinations) [
  | some id ↦ (ok tt, db)
  | none ↦ insert_new k db
]

unfoldable pub get_id : Key → Tx ℕ
unfolding query_row
get_id k = query_row (λ db. row_with_key k db.destinations)

unfoldable pub create : Key → Tx ℕ
unfolding exec
create k = do exec (insert_row k); get_id k

unfoldable pub delete : ℕ → Tx (Unit {0})
unfolding exec
delete id =
    exec
      (λ db. (ok tt, record db { destinations = keep_if (λ r. not (r.id == id)) db.destinations }))

unfoldable pub count_where_group_id : ℕ → Tx ℕ
unfolding query_row
count_where_group_id id =
    query_row (λ db. some (length (keep_if (λ r. r.group_id == id) db.destinations)))
