-- ===== src/Store/Reads/Lifetime.antt =====
-- A store from New (store.go) on, through calls of Create and Delete to a call of All.
use cf_networking_release.Prelude.{
  ℕ, ◌≤◌, ◌≡◌, refl, ap, ◌∙◌, false, none, List, [], ok, arith, All, ltb, ◌||◌, pos,
}
use mathlib.Core.Bool.{false≢true}
use cf_networking_release.Store.Models.{Policy}
use cf_networking_release.Store.Tables.{PolicyRow, Db}
use cf_networking_release.Store.Destinations.{row_with_key}
use cf_networking_release.Store.Policies.{has_pair}
use cf_networking_release.Store.TagText.{populate_tables-blank}
use cf_networking_release.Store.Extending.{answering}
use cf_networking_release.Store.Links.{Link, holds, IsSound}
use cf_networking_release.Store.Runs.{Change, IsWellFormed, run, replay, contains_link, run-replays}
use cf_networking_release.Store.Reads.{new_store, min_tag_length, max_tag_length, all}
use cf_networking_release.Store.Reads.Listed.{IsVisit, all-lists, holds-no_pairs}

-- The tables as the migrations leave them.
abbrev pub migrated_db : Db
migrated_db = record { groups = []; destinations = []; policies = []; next_destination_id = 1 }

new_store-IsSound :
    (tag_length migrations : ℕ)
    → min_tag_length ≤ tag_length
    → tag_length ≤ max_tag_length
    → (db : Db) × (new_store (pos tag_length) (ok migrations) none none migrated_db ≡ ok db)
      × IsSound db
      × ((l : Link) → holds db l ≡ false)
unfolding new_store row_with_key has_pair holds
new_store-IsSound tag_length migrations least most =
    let (rows, e, tags, blank) = populate_tables-blank tag_length migrated_db refl in
    let in_range : (ltb tag_length min_tag_length || ltb max_tag_length tag_length) ≡ false =
      ground (arith, least, most) in
    (
      record migrated_db { groups = rows },
      rw (in_range, e) refl,
      (tags, tt, λ k d h. absurd (ground (arith, h)), λ s d h. absurd (false≢true h)),
      holds-no_pairs (record migrated_db { groups = rows }),
    )

-- On a database that answers, with a tag length that New takes: New succeeds on the migrated
-- tables, whatever run of calls of Create and Delete follows, with policies whose single ports go
-- with their ranges, a call of All then succeeds, in whatever order the database visits the rows,
-- and it lists policies with exactly the links that the calls that succeeded make of the empty set.
pub new_store-run-all :
    (tag_length migrations : ℕ) (order : List PolicyRow → List PolicyRow) (changes : List Change)
    → IsVisit order
    → min_tag_length ≤ tag_length
    → tag_length ≤ max_tag_length
    → All IsWellFormed changes
    → (db : Db) × (done : List Change) × (after : Db) × (policies : List Policy) × (new_store
          (pos tag_length)
          (ok migrations)
          none
          none
          migrated_db
        ≡ ok db)
      × (run changes (answering db) ≡ (done, answering after))
      × (all tag_length order (answering after) ≡ (ok policies, answering after))
      × IsSound after
      × ((l : Link) → contains_link l policies ≡ replay done l false)
new_store-run-all tag_length migrations order changes visits least most well =
    let (db, made, sound, nothing) = new_store-IsSound tag_length migrations least most in
    let (done, after, ran, good, same) = run-replays changes db sound well in
    let (policies, listed, links) = all-lists tag_length order after visits good in
    (
      db,
      done,
      after,
      policies,
      made,
      ran,
      listed,
      good,
      λ l. links l ∙ same l ∙ ap (replay done l) (nothing l),
    )
