-- ===== src/Store/Groups.antt =====
-- src/policy-server/store/group.go: a group's id is its tag. The rows are made once, all blank; a
-- group that appears takes the blank row with the least id, and one that goes leaves its row blank.
use cf_networking_release.Prelude.{
  ℕ, String, Bool, false, Option, none, some, List, [], ◌∷◌, ◌==◌, ltb, str_eq, if◌then◌else◌,
  no_rows, Result, ok, err,
}
use cf_networking_release.Store.Tables.{
  GroupRow, Tx, ◌>>=◌, ◌>>◌, pure, raise, try, wrapping_tx, query_row, exec,
}

abbrev pub has_guid : String → Option String → Bool
has_guid guid none = false
has_guid guid (some g) = str_eq g guid

-- SELECT id FROM groups WHERE guid = ?
unfoldable pub row_with_guid : String → List GroupRow → Option ℕ
row_with_guid guid [] = none
row_with_guid guid (r ∷ rows) = if has_guid guid r.guid then some r.id else row_with_guid guid rows

abbrev pub lesser : ℕ → Option ℕ → Option ℕ
lesser n none = some n
lesser n (some m) = if ltb m n then some m else some n

abbrev pub if_blank : Option String → ℕ → Option ℕ → Option ℕ
if_blank none id least = lesser id least
if_blank (some g) id least = least

-- SELECT id FROM groups WHERE guid is NULL ORDER BY id LIMIT 1
unfoldable pub least_blank : List GroupRow → Option ℕ
least_blank [] = none
least_blank (r ∷ rows) = if_blank r.guid r.id (least_blank rows)

-- UPDATE groups SET guid = ? WHERE id = ?
unfoldable pub set_guid : Option String → ℕ → List GroupRow → List GroupRow
set_guid guid id [] = []
set_guid guid id (r ∷ rows) =
    (if r.id == id then record r { guid = guid } else r) ∷ set_guid guid id rows

unfoldable pub find_row_by_guid : String → Tx ℕ
unfolding query_row
find_row_by_guid guid = query_row (λ db. row_with_guid guid db.groups)

unfoldable pub first_blank_row : Tx ℕ
unfolding query_row
first_blank_row = query_row (λ db. least_blank db.groups)

unfoldable pub update_row : ℕ → String → Tx (Unit {0})
unfolding exec
update_row id guid = exec (λ db. (ok tt, record db { groups = set_guid (some guid) id db.groups }))

unfoldable pub take_blank_row : String → Tx ℕ
take_blank_row guid = do
  id ← wrapping_tx "failed to find available tag" first_blank_row
  update_row id guid
  pure id

-- What Create does with the result of the search.
unfoldable pub create_found : String → Result ℕ → Tx ℕ
create_found guid (ok id) = pure id
create_found guid (err no_rows) = take_blank_row guid
create_found guid (err e) = raise e

unfoldable pub create : String → Tx ℕ
create guid = do found ← try (find_row_by_guid guid); create_found guid found

unfoldable pub delete : ℕ → Tx (Unit {0})
unfolding exec
delete id = exec (λ db. (ok tt, record db { groups = set_guid none id db.groups }))

unfoldable pub get_id : String → Tx ℕ
unfolding query_row
get_id guid = query_row (λ db. row_with_guid guid db.groups)
