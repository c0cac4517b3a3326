-- ===== src/Store/Removing.antt =====
-- One round of the loop of Delete (store.go), on a database that answers: it takes the policy's link
-- from the links that the store holds.
use cf_networking_release.Prelude.{
  ℕ, ◌≡◌, refl, ap, sym, ◌∙◌, true, false, ◌&&◌, not, some, ◌==◌, ==_iff, arith, ok, inl, inr,
  Bool-cases, Option-cases, keep_if,
}
use mathlib.Core.Path.{subst}
use mathlib.Core.Bool.{false≢true}
use cf_networking_release.Store.{destination_key, or_skip, delete_policy}
use cf_networking_release.Store.Models.{Policy}
use cf_networking_release.Store.Tables.{Db, statement, query_row, exec}
use cf_networking_release.Store.Groups
use cf_networking_release.Store.Groups.{row_with_guid}
use cf_networking_release.Store.Destinations
use cf_networking_release.Store.Destinations.{row_with_key}
use cf_networking_release.Store.Policies
use cf_networking_release.Store.Policies.{is_pair, has_pair}
use cf_networking_release.Store.DestinationRows.{and_true}
use cf_networking_release.Store.PolicyRows.{has_pair-delete}
use cf_networking_release.Store.Extending.{answering}
use cf_networking_release.Store.Pruning.{clean_up-prunes}
use cf_networking_release.Store.Links.{
  Link, link_of, link_key, eq_link, eq_link_iff, Bool-ext, holds, holds_iff, IsSound, some_eq,
  link_unique, not_held,
}

-- The tables without the row that pairs a link's group with its destination.
module _ (db : Db) (sound : IsSound db) (l : Link) (source group id : ℕ)
    (from : row_with_guid l.source db.groups ≡ some source)
    (to : row_with_guid l.destination db.groups ≡ some group)
    (at_key : row_with_key (link_key group l) db.destinations ≡ some id) where
  abbrev unlinked : Db
  unlinked = record db { policies = keep_if (λ r. not (is_pair source id r)) db.policies }

  pair_left :
      (s d : ℕ)
      → has_pair s d unlinked.policies ≡ true
      → (has_pair s d db.policies ≡ true) × (((source == s) && (id == d)) ≡ false)
  pair_left s d h = ground (arith, has_pair-delete source id s d db.policies, h)

  unlinked-IsSound : IsSound unlinked
  unlinked-IsSound = (sound.0, sound.1, sound.2, λ s d h. sound.3 s d ((pair_left s d h).0))

  same_rows :
      (s g d : ℕ)
      → row_with_guid l.source db.groups ≡ some s
      → row_with_guid l.destination db.groups ≡ some g
      → row_with_key (link_key g l) db.destinations ≡ some d
      → ((source == s) && (id == d)) ≡ true
  same_rows s g d mine yours key =
      let one : source ≡ s = some_eq source s (sym from ∙ mine) in
      let two : group ≡ g = some_eq group g (sym to ∙ yours) in
      let three : id ≡ d =
        some_eq id d
          (sym at_key ∙ ap (λ n. row_with_key (link_key n l) db.destinations) two ∙ key) in
      rw ((==_iff source s).1 one, (==_iff id d).1 three) refl

  kept_pair :
      (m : Link) (s g d : ℕ)
      → eq_link l m ≡ false
      → row_with_guid m.source db.groups ≡ some s
      → row_with_guid m.destination db.groups ≡ some g
      → row_with_key (link_key g m) db.destinations ≡ some d
      → has_pair s d db.policies ≡ true
      → has_pair s d unlinked.policies ≡ true
  kept_pair m s g d differ mine yours key pair = elim (Bool-cases ((source == s) && (id == d))) [
    | inr other ↦ has_pair-delete source id s d db.policies ∙ rw (pair, other) refl
    | inl both ↦
        let (one, two) = and_true (source == s) (id == d) both in
        let equal =
          link_unique db l m s group g d sound (from ∙ ap some ((==_iff source s).0 one)) to
            (at_key ∙ ap some ((==_iff id d).0 two)) mine yours key in
        absurd (false≢true (sym differ ∙ (eq_link_iff l m).1 equal))
  ]

  unlinked-removes : (m : Link) → holds unlinked m ≡ (holds db m && not (eq_link l m))
  unlinked-removes m =
      Bool-ext _ _
        (λ h.
          let (s, g, d, mine, yours, key, pair) = (holds_iff unlinked m).0 h in
          let (old, other) = pair_left s d pair in
          elim (Bool-cases (eq_link l m)) [
            | inr differ ↦
                ground (arith, differ, (holds_iff db m).1 (s, g, d, mine, yours, key, old))
            | inl same ↦
                let equal : m ≡ l = sym ((eq_link_iff l m).0 same) in
                let both =
                  same_rows s g d
                    (subst (λ n. row_with_guid n.source db.groups ≡ some s) equal mine)
                    (subst (λ n. row_with_guid n.destination db.groups ≡ some g) equal yours)
                    (subst (λ n. row_with_key (link_key g n) db.destinations ≡ some d) equal key) in
                absurd (false≢true (sym other ∙ both))
          ])
        (λ h. elim (Bool-cases (eq_link l m)) [
          | inl same ↦ absurd (ground (arith, same, h))
          | inr differ ↦
              let (s, g, d, mine, yours, key, pair) = (holds_iff db m).0 (
                subst (λ b. (holds db m && not b) ≡ true → holds db m ≡ true) (sym differ)
                  (λ e. ground (arith, e)) h) in
              (holds_iff unlinked m).1
                (s, g, d, mine, yours, key, kept_pair m s g d differ mine yours key pair)
        ])

-- On a database that answers every statement and whose tables are sound, a round of the loop of
-- Delete succeeds, the tables stay sound, and the store holds the links that it held before but the
-- policy's: the rows that the cleaning takes away carried no other link.
pub delete_policy-removes :
    (p : Policy) (db : Db)
    → IsSound db
    → (after : Db) × (delete_policy p (answering db) ≡ (ok tt, answering after))
      × IsSound after
      × ((l : Link) → holds after l ≡ (holds db l && not (eq_link (link_of p) l)))
unfolding delete_policy or_skip destination_key Groups.get_id Destinations.get_id Policies.delete
    query_row exec statement holds
delete_policy-removes p db sound = elim (Option-cases (row_with_guid p.source.id db.groups)) [
  | inl absent ↦ (db, rw absent refl, sound, λ m. not_held db (link_of p) m (rw absent refl))
  | inr (s, from) ↦ elim (Option-cases (row_with_guid p.destination.id db.groups)) [
    | inl absent ↦
        (db, rw (from, absent) refl, sound, λ m. not_held db (link_of p) m (rw (from, absent) refl))
    | inr (g, to) ↦ elim (Option-cases (row_with_key (destination_key g p) db.destinations)) [
      | inl absent ↦ (
        db,
        rw (from, to, absent) refl,
        sound,
        λ m. not_held db (link_of p) m (rw (from, to, absent) refl),
      )
      | inr (d, key) ↦
          let (after, e, pruned) =
            clean_up-prunes s g d (unlinked db sound (link_of p) s g d from to key)
              (unlinked-IsSound db sound (link_of p) s g d from to key) in
          (
            after,
            rw (from, to, key, e) refl,
            pruned.0,
            λ m. pruned.1 m ∙ unlinked-removes db sound (link_of p) s g d from to key m,
          )
    ]
  ]
]
