-- ===== src/Store/Linked.antt =====
-- The tables after a policy's groups, destination and pair got their rows (store.go, Create): they
-- are sound, and hold the policy's link beside the links they held.
use cf_networking_release.Prelude.{
  ℕ, String, ◌≡◌, refl, ap, sym, ◌∙◌, true, ◌||◌, some, List, ==_iff, arith, ◌⊎◌, inl, inr,
  Bool-cases,
}
use mathlib.Core.Path.{subst}
use cf_networking_release.Store.Tables.{GroupRow, DestinationRow, Db}
use cf_networking_release.Store.Groups.{row_with_guid}
use cf_networking_release.Store.Destinations.{row_with_key}
use cf_networking_release.Store.Policies.{has_pair, insert_pair}
use cf_networking_release.Store.GroupRows.{IsTagTable}
use cf_networking_release.Store.DestinationRows.{IsDestinationTable}
use cf_networking_release.Store.PolicyRows.{has_pair-insert_pair}
use cf_networking_release.Store.Links.{
  Link, eq_link, eq_link_iff, Bool-ext, link_key, holds, IsHeld, holds_iff, IsAssigned, IsSound,
  guid_unique, link_unique, key_unique,
}
use cf_networking_release.Store.Extending.{IsExtended}

-- The tables with the rows for a link, from those before.
module _ (db : Db) (sound : IsSound db) (l : Link) (rows : List GroupRow) (source group : ℕ)
    (tags : IsTagTable rows) (from : row_with_guid l.source rows ≡ some source)
    (to : row_with_guid l.destination rows ≡ some group)
    (kept : (g : String) (i : ℕ)
      → row_with_guid g db.groups ≡ some i
      → row_with_guid g rows ≡ some i)
    (id next : ℕ) (destinations : List DestinationRow) (keys : IsDestinationTable next destinations)
    (extended : IsExtended
      (λ k. row_with_key k db.destinations)
      (link_key group l)
      id
      (λ k. row_with_key k destinations)) where
  abbrev pub linked : Db
  linked = record {
    groups = rows;
    destinations = destinations;
    policies = insert_pair source id db.policies;
    next_destination_id = next;
  }

  kept-IsAssigned : (i : ℕ) → IsAssigned i db.groups → IsAssigned i rows
  kept-IsAssigned i (guid, e) = (guid, kept guid i e)

  pair-cases :
      (s d : ℕ)
      → has_pair s d linked.policies ≡ true
      → ((source ≡ s) × (id ≡ d)) ⊎ (has_pair s d db.policies ≡ true)
  pair-cases s d h =
      ground
        (arith, has_pair-insert_pair source id s d db.policies, h, ==_iff source s, ==_iff id d)

  pub linked-IsSound : IsSound linked
  linked-IsSound = (
    tags,
    keys,
    λ k d e. elim (extended.2 k d e) [
      | inl same ↦ (l.destination, to ∙ ap (λ m. some m.group_id) same)
      | inr old ↦ kept-IsAssigned k.group_id (sound.2 k d old)
    ],
    λ s d h. elim (pair-cases s d h) [
      | inl (same, one) ↦
          ((l.source, from ∙ ap some same), (link_key group l, extended.0 ∙ ap some one))
      | inr old ↦
          let (guid, (k, e)) = sound.3 s d old in (kept-IsAssigned s guid, (k, extended.1 k d e))
    ],
  )

  kept-IsHeld : (m : Link) → IsHeld db m → IsHeld linked m
  kept-IsHeld m (s, g, d, mine, yours, key, pair) = (
    s,
    g,
    d,
    kept m.source s mine,
    kept m.destination g yours,
    extended.1 (link_key g m) d key,
    ground (arith, has_pair-insert_pair source id s d db.policies, pair),
  )

  link-IsHeld : IsHeld linked l
  link-IsHeld = (
    source,
    group,
    id,
    from,
    to,
    extended.0,
    ground (
      arith,
      has_pair-insert_pair source id source id db.policies,
      ==_iff source source,
      ==_iff id id,
    ),
  )

  old_pair :
      (m : Link) (s g d : ℕ)
      → row_with_guid m.source rows ≡ some s
      → row_with_guid m.destination rows ≡ some g
      → row_with_key (link_key g m) destinations ≡ some d
      → has_pair s d db.policies ≡ true
      → IsHeld db m
  old_pair m s g d mine yours key pair =
      let ((guid, e), (k, f)) = sound.3 s d pair in
      let first : guid ≡ m.source = guid_unique rows guid m.source s tags (kept guid s e) mine in
      let same : k ≡ link_key g m =
        key_unique linked k (link_key g m) d linked-IsSound (extended.1 k d f) key in
      let (other, h) = subst (λ n. IsAssigned n.group_id db.groups) same (sound.2 k d f) in
      let one : other ≡ m.destination =
        guid_unique rows other m.destination g tags (kept other g h) yours in
      (
        s,
        g,
        d,
        subst (λ n. row_with_guid n db.groups ≡ some s) first e,
        subst (λ n. row_with_guid n db.groups ≡ some g) one h,
        subst (λ n. row_with_key n db.destinations ≡ some d) same f,
        pair,
      )

  IsHeld-cases : (m : Link) → IsHeld linked m → (l ≡ m) ⊎ IsHeld db m
  IsHeld-cases m (s, g, d, mine, yours, key, pair) = elim (pair-cases s d pair) [
    | inr old ↦ inr (old_pair m s g d mine yours key old)
    | inl (same, one) ↦ inl (
        link_unique linked l m source group g id linked-IsSound from to (extended.0)
          (mine ∙ ap some (sym same)) yours (key ∙ ap some (sym one)))
  ]

  pub linked-adds : (m : Link) → holds linked m ≡ (eq_link l m || holds db m)
  linked-adds m =
      Bool-ext _ _
        (λ h. elim (IsHeld-cases m ((holds_iff linked m).0 h)) [
          | inl same ↦ rw ((eq_link_iff l m).1 same) refl
          | inr old ↦ ground (arith, (holds_iff db m).1 old)
        ])
        (λ h. elim (Bool-cases (eq_link l m)) [
          | inl same ↦
              (holds_iff linked m).1 (subst (IsHeld linked) ((eq_link_iff l m).0 same) link-IsHeld)
          | inr other ↦
              (holds_iff linked m).1
                (kept-IsHeld m ((holds_iff db m).0 (subst (λ b. (b || holds db m) ≡ true) other h)))
        ])
