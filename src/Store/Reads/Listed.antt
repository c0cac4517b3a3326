-- ===== src/Store/Reads/Listed.antt =====
-- What All (store.go) lists, beside the set of links that the store holds.
use cf_networking_release.Prelude.{
  ℕ, String, ◌≡◌, refl, ap, sym, ◌∙◌, true, false, ◌||◌, some, List, [], ◌∷◌, ◌==◌, ==_iff, ok, inl,
  inr, Bool-cases, arith, if◌then◌else◌,
}
use mathlib.Core.Path.{subst}
use mathlib.Core.Bool.{false≢true}
use cf_networking_release.Store.{next_answer}
use cf_networking_release.Store.Models.{Policy}
use cf_networking_release.Store.Tables.{
  GroupRow, DestinationRow, PolicyRow, Db, guid_with_id, row_with_id,
}
use cf_networking_release.Store.Groups.{row_with_guid}
use cf_networking_release.Store.Destinations.{Key, row_with_key}
use cf_networking_release.Store.Policies.{is_pair, has_pair}
use cf_networking_release.Store.GroupRows.{guid_at, guid_at-row_with_guid}
use cf_networking_release.Store.DestinationRows.{key_of, key_at, key_at-row_with_key, and_true}
use cf_networking_release.Store.Extending.{answering}
use cf_networking_release.Store.Links.{
  Link, link_of, link_key, eq_link, eq_link_iff, Bool-ext, holds, IsHeld, holds_iff, IsSound,
  link_unique, some_eq,
}
use cf_networking_release.Store.Runs.{contains_link}
use cf_networking_release.Store.Reads.{
  join_row, destination_guid_of, scan_row, scan_rows, scan_source, scan_destination, scan_found,
  iterate, queried, policies_query, all, no_fault,
}

guid_with_id-guid_at :
    (id : ℕ) (guid : String) (rows : List GroupRow)
    → guid_at id rows ≡ some (some guid)
    → guid_with_id id rows ≡ some guid
unfolding guid_with_id
guid_with_id-guid_at id guid [] h = absurd (ground (arith, h))
guid_with_id-guid_at id guid (r ∷ rows) h = elim (Bool-cases (r.id == id)) [
  | inl here ↦ ground (arith, here, h)
  | inr away ↦ rw away (guid_with_id-guid_at id guid rows (ground (arith, away, h)))
]

row_with_id-key_at :
    (id : ℕ) (k : Key) (rows : List DestinationRow)
    → key_at id rows ≡ some k
    → (r : DestinationRow) × (row_with_id id rows ≡ some r) × (key_of r ≡ k)
unfolding row_with_id
row_with_id-key_at id k [] h = absurd (ground (arith, h))
row_with_id-key_at id k (r ∷ rows) h = elim (Bool-cases (r.id == id)) [
  | inl here ↦ (
    r,
    rw here refl,
    some_eq (key_of r) k
        (subst (λ b. (if b then some (key_of r) else key_at id rows) ≡ some k) here h),
  )
  | inr away ↦
      let (d, e, key) =
        row_with_id-key_at id k rows
          (subst (λ b. (if b then some (key_of r) else key_at id rows) ≡ some k) away h) in
      (d, rw away e, key)
]

-- The policy that a row of a sound store scans to.
scanned :
    (tag_length : ℕ) (db : Db) (r : PolicyRow)
    → IsSound db
    → has_pair r.group_id r.destination_id db.policies ≡ true
    → (p : Policy) × (group : ℕ) × (scan_row tag_length (join_row db r) ≡ ok p)
      × (row_with_guid p.source.id db.groups ≡ some r.group_id)
      × (row_with_guid p.destination.id db.groups ≡ some group)
      × (row_with_key (link_key group (link_of p)) db.destinations ≡ some r.destination_id)
unfolding scan_row scan_source scan_destination scan_found join_row destination_guid_of
scanned tag_length db r sound pair =
    let ((guid, from), (k, found)) = sound.3 r.group_id r.destination_id pair in
    let source =
      guid_with_id-guid_at r.group_id guid db.groups
        (guid_at-row_with_guid guid r.group_id db.groups (sound.0) from) in
    let (d, row, key) = row_with_id-key_at r.destination_id k db.destinations (
      key_at-row_with_key db.next_destination_id k r.destination_id db.destinations (sound.1)
        found) in
    let (other, to) = sound.2 k r.destination_id found in
    let named : row_with_guid other db.groups ≡ some d.group_id =
      to ∙ ap (λ n. some n.group_id) (sym key) in
    let destination =
      guid_with_id-guid_at d.group_id other db.groups
        (guid_at-row_with_guid other d.group_id db.groups (sound.0) named) in
    (
      scan_found tag_length guid r.group_id d other,
      d.group_id,
      rw (source, row, destination) refl,
      from,
      named,
      subst (λ n. row_with_key n db.destinations ≡ some r.destination_id) (sym key) found,
    )

-- The store with some of its pairs.
abbrev pub with_pairs : Db → List PolicyRow → Db
with_pairs db rows = record db { policies = rows }

held-cons :
    (db : Db) (r : PolicyRow) (rows : List PolicyRow) (l m : Link) (group : ℕ)
    → IsSound db
    → row_with_guid l.source db.groups ≡ some r.group_id
    → row_with_guid l.destination db.groups ≡ some group
    → row_with_key (link_key group l) db.destinations ≡ some r.destination_id
    → holds (with_pairs db (r ∷ rows)) m ≡ (eq_link l m || holds (with_pairs db rows) m)
unfolding has_pair
held-cons db r rows l m group sound from to at_key =
    Bool-ext _ _
      (λ h.
        let (s, g, d, mine, yours, key, pair) = (holds_iff (with_pairs db (r ∷ rows)) m).0 h in
        elim (Bool-cases (is_pair s d r)) [
          | inl this ↦
              let (a, b) = and_true (r.group_id == s) (r.destination_id == d) this in
              let same =
                link_unique db l m s group g d sound (from ∙ ap some ((==_iff r.group_id s).0 a)) to
                  (at_key ∙ ap some ((==_iff r.destination_id d).0 b)) mine yours key in
              rw ((eq_link_iff l m).1 same) refl
          | inr other ↦
              let later : has_pair s d rows ≡ true =
                subst (λ b. (b || has_pair s d rows) ≡ true) other pair in
              ground
                (arith, (holds_iff (with_pairs db rows) m).1 (s, g, d, mine, yours, key, later))
        ])
      (λ h. elim (Bool-cases (eq_link l m)) [
        | inl same ↦
            let one : l ≡ m = (eq_link_iff l m).0 same in
            (holds_iff (with_pairs db (r ∷ rows)) m).1 (
              subst (IsHeld (with_pairs db (r ∷ rows))) one (
                r.group_id,
                group,
                r.destination_id,
                from,
                to,
                at_key,
                rw
                    (
                      (==_iff r.group_id r.group_id).1 refl,
                      (==_iff r.destination_id r.destination_id).1 refl,
                    )
                    refl,
              ))
        | inr other ↦
            let (s, g, d, mine, yours, key, pair) =
              (holds_iff (with_pairs db rows) m).0
                (subst (λ b. (b || holds (with_pairs db rows) m) ≡ true) other h) in
            (holds_iff (with_pairs db (r ∷ rows)) m).1
              (s, g, d, mine, yours, key, ground (arith, pair))
      ])

pub holds-no_pairs : (db : Db) (l : Link) → holds (with_pairs db []) l ≡ false
unfolding has_pair
holds-no_pairs db l = elim (Bool-cases (holds (with_pairs db []) l)) [
  | inr absent ↦ absent
  | inl held ↦
      let (s, g, d, mine, yours, key, pair) = (holds_iff (with_pairs db []) l).0 held in
      absurd (false≢true pair)
]

scan_rows-lists :
    (tag_length : ℕ) (db : Db) (rows : List PolicyRow)
    → IsSound db
    → ((s d : ℕ) → has_pair s d rows ≡ true → has_pair s d db.policies ≡ true)
    → (policies : List Policy) × (scan_rows tag_length (λ r. true) db rows ≡ ok policies)
      × ((l : Link) → contains_link l policies ≡ holds (with_pairs db rows) l)
unfolding scan_rows contains_link has_pair
scan_rows-lists tag_length db [] sound inside = ([], refl, λ l. sym (holds-no_pairs db l))
scan_rows-lists tag_length db (r ∷ rows) sound inside =
    let here : has_pair r.group_id r.destination_id db.policies ≡ true =
      inside r.group_id r.destination_id (
        rw
          ((==_iff r.group_id r.group_id).1 refl, (==_iff r.destination_id r.destination_id).1 refl)
          refl) in
    let (p, group, e, from, to, key) = scanned tag_length db r sound here in
    let (policies, f, same) =
      scan_rows-lists tag_length db rows sound (λ s d h. inside s d (ground (arith, h))) in
    (
      p ∷ policies,
      rw (e, f) refl,
      λ l.
          ap (λ b. eq_link (link_of p) l || b) (same l)
          ∙ sym (held-cons db r rows (link_of p) l group sound from to key),
    )

-- The database visits each pair of the table, in whatever order.
abbrev pub IsVisit : (List PolicyRow → List PolicyRow) → Type 0
IsVisit order = (rows : List PolicyRow) (s d : ℕ) → has_pair s d (order rows) ≡ has_pair s d rows

holds-visited :
    (order : List PolicyRow → List PolicyRow) (db : Db) (l : Link)
    → IsVisit order
    → holds (with_pairs db (order db.policies)) l ≡ holds db l
holds-visited order db l visits =
    Bool-ext _ _
      (λ h.
        let (s, g, d, mine, yours, key, pair) =
          (holds_iff (with_pairs db (order db.policies)) l).0 h in
        (holds_iff db l).1 (s, g, d, mine, yours, key, sym (visits db.policies s d) ∙ pair))
      (λ h.
        let (s, g, d, mine, yours, key, pair) = (holds_iff db l).0 h in
        (holds_iff (with_pairs db (order db.policies)) l).1
          (s, g, d, mine, yours, key, visits db.policies s d ∙ pair))

-- On a database that answers and whose tables are sound, All succeeds, and the policies that it
-- lists have exactly the links that the store holds, in whatever order the database visits the rows.
pub all-lists :
    (tag_length : ℕ) (order : List PolicyRow → List PolicyRow) (db : Db)
    → IsVisit order
    → IsSound db
    → (policies : List Policy) × (all tag_length order (answering db) ≡ (ok policies, answering db))
      × ((l : Link) → contains_link l policies ≡ holds db l)
unfolding all policies_query queried iterate next_answer no_fault
all-lists tag_length order db visits sound =
    let (policies, e, same) =
      scan_rows-lists tag_length db (order db.policies) sound
        (λ s d h. sym (visits db.policies s d) ∙ h) in
    (policies, rw e refl, λ l. same l ∙ holds-visited order db l visits)
