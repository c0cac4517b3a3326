-- ===== src/Store/Adding.antt =====
-- One round of the loop of Create (store.go), on a database that answers: it adds the policy's link
-- to the links that the store holds.
use cf_networking_release.Prelude.{ℕ, String, ◌≡◌, refl, ◌||◌, some, ok, err, ◌⊎◌, inl, inr}
use cf_networking_release.Store.{destination_key, create_policy}
use cf_networking_release.Store.Models.{Policy}
use cf_networking_release.Store.Tables.{Db, statement, exec}
use cf_networking_release.Store.Groups.{row_with_guid}
use cf_networking_release.Store.Policies
use cf_networking_release.Store.Policies.{has_pair, insert_pair}
use cf_networking_release.Store.DestinationRows.{IsCanonicalKey}
use cf_networking_release.Store.Links.{Link, eq_link, link_of, holds, IsSound}
use cf_networking_release.Store.Extending.{
  answering, IsFull, out_of_tags, create-group, create-destination,
}
use cf_networking_release.Store.Linked.{linked, linked-IsSound, linked-adds}

-- On a database that answers every statement and whose tables are sound, a round of the loop of
-- Create with a policy whose single port goes with its range succeeds, the tables stay sound, and
-- the store holds the policy's link and exactly the links that it held before; or no group's row is
-- blank, and the round fails for that.
pub create_policy-adds :
    (p : Policy) (db : Db)
    → IsSound db
    → IsCanonicalKey (destination_key 0 p)
    → ((after : Db) × (create_policy p (answering db) ≡ (ok tt, answering after))
        × IsSound after
        × ((l : Link) → holds after l ≡ (eq_link (link_of p) l || holds db l)))
      ⊎ ((stuck : Db) × (create_policy p (answering db) ≡ (err out_of_tags, answering stuck))
          × IsFull stuck.groups)
unfolding create_policy destination_key Policies.create exec statement
create_policy-adds p db sound canonical = elim (create-group p.source.id db (sound.0)) [
  | inr (full, e) ↦ inr (db, rw e refl, full)
  | inl (s, rows, e, tags, (here, kept, only)) ↦
      elim (create-group p.destination.id (record db { groups = rows }) tags) [
        | inr (full, f) ↦ inr (record db { groups = rows }, rw (e, f) refl, full)
        | inl (g, rows2, f, tags2, (here2, kept2, only2)) ↦
            let (id, next, destinations, h, keys, extended) =
              create-destination (destination_key g p) (record db { groups = rows2 }) (sound.1)
                canonical in
            let keep : (x : String) (i : ℕ)
                → row_with_guid x db.groups ≡ some i
                → row_with_guid x rows2 ≡ some i =
              λ x i j. kept2 x i (kept x i j) in
            let from : row_with_guid p.source.id rows2 ≡ some s = kept2 p.source.id s here in
            inl (
              linked db sound (link_of p) rows2 s g tags2 from here2 keep id next destinations keys
                  extended,
              rw (e, f, h) refl,
              linked-IsSound db sound (link_of p) rows2 s g tags2 from here2 keep id next
                  destinations keys extended,
              linked-adds db sound (link_of p) rows2 s g tags2 from here2 keep id next destinations
                  keys extended,
            )
      ]
]
