-- ===== src/Store/Pruning.antt =====
-- What Delete (store.go) cleans up behind a policy, on a database that answers: rows that nothing
-- refers to, whose removal changes no link that the store holds.
use cf_networking_release.Prelude.{
  ℕ, String, ◌≡◌, ◌≢◌, refl, sym, ◌∙◌, true, ◌&&◌, Option, none, some, ◌==◌, ==_iff, arith, ok, inl,
  inr, Bool-cases, keep_if, length,
}
use mathlib.Core.Path.{subst}
use mathlib.Core.Bool.{false≢true}
use cf_networking_release.Store.{delete_group_row_if_last, clean_up}
use cf_networking_release.Store.Tables.{Db, statement, query_row, exec}
use cf_networking_release.Store.Groups
use cf_networking_release.Store.Groups.{row_with_guid, set_guid}
use cf_networking_release.Store.Destinations
use cf_networking_release.Store.Destinations.{Key, row_with_key}
use cf_networking_release.Store.Policies
use cf_networking_release.Store.Policies.{has_pair}
use cf_networking_release.Store.GroupRows.{unless_id, row_with_guid-clear, clear-IsTagTable}
use cf_networking_release.Store.DestinationRows.{
  and_true, without_id, row_with_key-delete, delete-IsDestinationTable, not-counted,
}
use cf_networking_release.Store.PolicyRows.{no_pair-destination, no_pair-group}
use cf_networking_release.Store.Extending.{answering}
use cf_networking_release.Store.Links.{Link, link_key, Bool-ext, holds, IsHeld, holds_iff, IsSound}

unless_id-some : (id i : ℕ) (o : Option ℕ) → unless_id id o ≡ some i → o ≡ some i
unless_id-some id i none h = absurd (ground (arith, h))
unless_id-some id i (some j) h = ground (arith, h)

unless_id-other : (id i : ℕ) (o : Option ℕ) → o ≡ some i → i ≢ id → unless_id id o ≡ some i
unless_id-other id i none h other = absurd (ground (arith, h))
unless_id-other id i (some j) h other = ground (arith, h, other, ==_iff j id)

-- The tables stay sound and hold the same links.
abbrev pub IsPruned : Db → Db → Type 0
IsPruned before after = IsSound after × ((l : Link) → holds after l ≡ holds before l)

same_links :
    (before after : Db)
    → ((l : Link) → IsHeld after l → IsHeld before l)
    → ((l : Link) → IsHeld before l → IsHeld after l)
    → (l : Link) → holds after l ≡ holds before l
same_links before after f g l =
    Bool-ext (holds after l) (holds before l)
      (λ h. (holds_iff before l).1 (f l ((holds_iff after l).0 h)))
      (λ h. (holds_iff after l).1 (g l ((holds_iff before l).0 h)))

abbrev without_destination : ℕ → Db → Db
without_destination id db = record db { destinations = without_id id db.destinations }

drop_destination :
    (id : ℕ) (db : Db)
    → IsSound db
    → length (keep_if (λ r. r.destination_id == id) db.policies) ≡ 0
    → IsPruned db (without_destination id db)
drop_destination id db sound none_left =
    let less : (k : Key) (i : ℕ)
        → row_with_key k (without_id id db.destinations) ≡ some i
        → row_with_key k db.destinations ≡ some i =
      λ k i h.
        unless_id-some id i (row_with_key k db.destinations)
          (sym (row_with_key-delete k db.next_destination_id id db.destinations (sound.1)) ∙ h) in
    let stays : (s d : ℕ) → has_pair s d db.policies ≡ true → d ≢ id = λ s d h e. false≢true (
      sym (no_pair-destination s id db.policies none_left)
      ∙ subst (λ i. has_pair s i db.policies ≡ true) e h) in
    let keep : (k : Key) (s d : ℕ)
        → has_pair s d db.policies ≡ true
        → row_with_key k db.destinations ≡ some d
        → row_with_key k (without_id id db.destinations) ≡ some d =
      λ k s d pair h.
        row_with_key-delete k db.next_destination_id id db.destinations (sound.1)
        ∙ unless_id-other id d (row_with_key k db.destinations) h (stays s d pair) in
    (
      (
        sound.0,
        delete-IsDestinationTable db.next_destination_id id db.destinations (sound.1),
        λ k d h. sound.2 k d (less k d h),
        λ s d h. let (assigned, (k, e)) = sound.3 s d h in (assigned, (k, keep k s d h e)),
      ),
      same_links db (without_destination id db)
          (λ l (s, g, d, from, to, key, pair). (s, g, d, from, to, less (link_key g l) d key, pair))
          (λ l (s, g, d, from, to, key, pair).
            (s, g, d, from, to, keep (link_key g l) s d pair key, pair)),
    )

abbrev without_group : ℕ → Db → Db
without_group id db = record db { groups = set_guid none id db.groups }

drop_group :
    (id : ℕ) (db : Db)
    → IsSound db
    → length (keep_if (λ r. r.group_id == id) db.policies) ≡ 0
    → length (keep_if (λ r. r.group_id == id) db.destinations) ≡ 0
    → IsPruned db (without_group id db)
drop_group id db sound no_policy no_destination =
    let clear : (g : String)
        → row_with_guid g (set_guid none id db.groups) ≡ unless_id id (row_with_guid g db.groups) =
      λ g. row_with_guid-clear g id db.groups (sound.0) in
    let less : (g : String) (i : ℕ)
        → row_with_guid g (set_guid none id db.groups) ≡ some i
        → row_with_guid g db.groups ≡ some i =
      λ g i h. unless_id-some id i (row_with_guid g db.groups) (sym (clear g) ∙ h) in
    let keep : (g : String) (i : ℕ)
        → row_with_guid g db.groups ≡ some i
        → i ≢ id
        → row_with_guid g (set_guid none id db.groups) ≡ some i =
      λ g i h other. clear g ∙ unless_id-other id i (row_with_guid g db.groups) h other in
    let source_stays : (s d : ℕ) → has_pair s d db.policies ≡ true → s ≢ id = λ s d h e.
      false≢true (
        sym (no_pair-group id d db.policies no_policy)
        ∙ subst (λ i. has_pair i d db.policies ≡ true) e h) in
    let group_stays : (k : Key) (d : ℕ)
        → row_with_key k db.destinations ≡ some d
        → k.group_id ≢ id =
      λ k d h. not-counted k d id db.destinations no_destination h in
    (
      (
        clear-IsTagTable id db.groups (sound.0),
        sound.1,
        λ k d h.
            let (guid, e) = sound.2 k d h in (guid, keep guid k.group_id e (group_stays k d h)),
        λ s d h.
            let ((guid, e), rest) = sound.3 s d h in
            ((guid, keep guid s e (source_stays s d h)), rest),
      ),
      same_links db (without_group id db)
          (λ l (s, g, d, from, to, key, pair).
            (s, g, d, less l.source s from, less l.destination g to, key, pair))
          (λ l (s, g, d, from, to, key, pair). (
            s,
            g,
            d,
            keep l.source s from (source_stays s d pair),
            keep l.destination g to (group_stays (link_key g l) d key),
            key,
            pair,
          )),
    )

delete_group_row_if_last-prunes :
    (id : ℕ) (db : Db)
    → IsSound db
    → (after : Db) × (delete_group_row_if_last id (answering db) ≡ (ok tt, answering after))
      × IsPruned db after
unfolding delete_group_row_if_last Policies.count_where_group_id Destinations.count_where_group_id
    Groups.delete query_row exec statement
delete_group_row_if_last-prunes id db sound =
    let policies = length (keep_if (λ r. r.group_id == id) db.policies) in
    let destinations = length (keep_if (λ r. r.group_id == id) db.destinations) in
    elim (Bool-cases ((policies == 0) && (destinations == 0))) [
      | inr used ↦ (db, rw used refl, (sound, λ l. refl))
      | inl last ↦
          let (a, b) = and_true (policies == 0) (destinations == 0) last in
          (
            without_group id db,
            rw last refl,
            drop_group id db sound ((==_iff policies 0).0 a) ((==_iff destinations 0).0 b),
          )
    ]

pub clean_up-prunes :
    (source group id : ℕ) (db : Db)
    → IsSound db
    → (after : Db) × (clean_up source group id (answering db) ≡ (ok tt, answering after))
      × IsPruned db after
unfolding clean_up Policies.count_where_destination_id Destinations.delete query_row exec statement
clean_up-prunes source group id db sound =
    let count = length (keep_if (λ r. r.destination_id == id) db.policies) in
    elim (Bool-cases (count == 0)) [
      | inr used ↦
          let (first, e, once) = delete_group_row_if_last-prunes source db sound in
          let (after, f, again) = delete_group_row_if_last-prunes group first (once.0) in
          (after, rw (used, e, f) refl, (again.0, λ l. again.1 l ∙ once.1 l))
      | inl last ↦
          let dropped = drop_destination id db sound ((==_iff count 0).0 last) in
          let (first, e, once) =
            delete_group_row_if_last-prunes source (without_destination id db) (dropped.0) in
          let (after, f, again) = delete_group_row_if_last-prunes group first (once.0) in
          (after, rw (last, e, f) refl, (again.0, λ l. again.1 l ∙ once.1 l ∙ dropped.1 l))
    ]
