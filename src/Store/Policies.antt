-- ===== src/Store/Policies.antt =====
-- src/policy-server/store/policy.go: a policy pairs a group with a destination.
use cf_networking_release.Prelude.{
  ℕ, Bool, false, ◌&&◌, ◌||◌, some, List, [], ◌∷◌, ◌++◌, ◌==◌, if◌then◌else◌, ok, keep_if, not,
  length,
}
use cf_networking_release.Store.Tables.{PolicyRow, Tx, query_row, exec}

abbrev pub is_pair : ℕ → ℕ → PolicyRow → Bool
is_pair source destination r = (r.group_id == source) && (r.destination_id == destination)

unfoldable pub has_pair : ℕ → ℕ → List PolicyRow → Bool
has_pair source destination [] = false
has_pair source destination (r ∷ rows) =
    is_pair source destination r || has_pair source destination rows

-- INSERT INTO policies ... WHERE NOT EXISTS (...)
unfoldable pub insert_pair : ℕ → ℕ → List PolicyRow → List PolicyRow
insert_pair source destination rows =
    if has_pair source destination rows
    then rows
    else rows ++ record { group_id = source; destination_id = destination } ∷ []

unfoldable pub create : ℕ → ℕ → Tx (Unit {0})
unfolding exec
create source destination =
    exec (λ db. (ok tt, record db { policies = insert_pair source destination db.policies }))

unfoldable pub delete : ℕ → ℕ → Tx (Unit {0})
unfolding exec
delete source destination = exec (λ db.
    (ok tt, record db { policies = keep_if (λ r. not (is_pair source destination r)) db.policies }))

unfoldable pub count_where_group_id : ℕ → Tx ℕ
unfolding query_row
count_where_group_id id =
    query_row (λ db. some (length (keep_if (λ r. r.group_id == id) db.policies)))

unfoldable pub count_where_destination_id : ℕ → Tx ℕ
unfolding query_row
count_where_destination_id id =
    query_row (λ db. some (length (keep_if (λ r. r.destination_id == id) db.policies)))
