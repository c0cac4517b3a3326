-- ===== src/Store/Links.antt =====
-- What the store holds, as a set: a link is a policy without its tags, which are the ids of the
-- groups' rows. The store holds a link if its groups and its destination have rows that a row of the
-- policies table pairs.
use cf_networking_release.Prelude.{
  inl, inr, Bool-cases, not, arith, ℕ, String, ℤ, ◌≡◌, ◌↔◌, refl, ap, sym, ◌∙◌, Bool, true, false,
  Option, none, some, List, str_eq, eq_iff, ◌&&◌,
}
use mathlib.Core.Path.{subst}
use mathlib.Core.Bool.{false≢true}
use cf_networking_release.Store.Models.{Policy}
use cf_networking_release.Store.Tables.{GroupRow, Db}
use cf_networking_release.Store.Groups.{row_with_guid}
use cf_networking_release.Store.Destinations.{Key, row_with_key, has_key, row_of}
use cf_networking_release.Store.Policies.{has_pair}
use cf_networking_release.Store.GroupRows.{IsTagTable, guid_at-row_with_guid}
use cf_networking_release.Store.DestinationRows.{
  and_true, has_key-eq, has_key_refl, IsDestinationTable, key_at-row_with_key,
}

pub record Link : Type 0 where
  pub source : String
  pub destination : String
  pub port : ℤ
  pub start_port : ℤ
  pub end_port : ℤ
  pub protocol : String

abbrev pub link_of : Policy → Link
link_of p = record {
  source = p.source.id;
  destination = p.destination.id;
  port = p.destination.port;
  start_port = p.destination.ports.start;
  end_port = p.destination.ports.end;
  protocol = p.destination.protocol;
}

abbrev pub link_key : ℕ → Link → Key
link_key group_id l = record {
  group_id = group_id;
  port = l.port;
  start_port = l.start_port;
  end_port = l.end_port;
  protocol = l.protocol;
}

abbrev pub eq_link : Link → Link → Bool
eq_link l m =
    str_eq l.source m.source
    && str_eq l.destination m.destination
    && has_key (link_key 0 l) (row_of 0 (link_key 0 m))

pub eq_link_iff : (l m : Link) → (eq_link l m ≡ true) ↔ (l ≡ m)
eq_link_iff l m = (
  λ h.
      let (ids, same) = and_true _ (has_key (link_key 0 l) (row_of 0 (link_key 0 m))) h in
      let (source, destination) = and_true _ (str_eq l.destination m.destination) ids in
      let key : link_key 0 m ≡ link_key 0 l =
        has_key-eq (link_key 0 l) (row_of 0 (link_key 0 m)) same in
      λ i. record {
        source = (eq_iff l.source m.source).0 source i;
        destination = (eq_iff l.destination m.destination).0 destination i;
        port = (sym key i).port;
        start_port = (sym key i).start_port;
        end_port = (sym key i).end_port;
        protocol = (sym key i).protocol;
      },
  λ e.
      subst (λ n. eq_link l n ≡ true) e
        (rw
          (
            (eq_iff l.source l.source).1 refl,
            (eq_iff l.destination l.destination).1 refl,
            has_key_refl (link_key 0 l) 0,
          )
          refl),
)

and_not-false : (b : Bool) → b ≡ (b && not false)
and_not-false b = ground arith

-- Two tests that hold at the same time.
pub Bool-ext : (a b : Bool) → (a ≡ true → b ≡ true) → (b ≡ true → a ≡ true) → a ≡ b
Bool-ext true b f g = sym (f refl)
Bool-ext false true f g = g refl
Bool-ext false false f g = refl

-- A test on what was found, which fails if nothing was.
abbrev pub found_and : Option ℕ → (ℕ → Bool) → Bool
found_and none test = false
found_and (some id) test = test id

unfoldable pub holds : Db → Link → Bool
holds db l = found_and (row_with_guid l.source db.groups) (λ source.
    found_and (row_with_guid l.destination db.groups) (λ group.
      found_and (row_with_key (link_key group l) db.destinations)
        (λ destination. has_pair source destination db.policies)))

-- The rows that make the store hold a link.
abbrev pub IsHeld : Db → Link → Type 0
IsHeld db l =
    (source : ℕ) × (group : ℕ) × (destination : ℕ) × (row_with_guid l.source db.groups
      ≡ some source)
    × (row_with_guid l.destination db.groups ≡ some group)
    × (row_with_key (link_key group l) db.destinations ≡ some destination)
    × (has_pair source destination db.policies ≡ true)

found_and-true :
    (o : Option ℕ) (test : ℕ → Bool)
    → found_and o test ≡ true
    → (id : ℕ) × (o ≡ some id) × (test id ≡ true)
found_and-true none test h = absurd (false≢true h)
found_and-true (some id) test h = (id, refl, h)

pub holds_iff : (db : Db) (l : Link) → (holds db l ≡ true) ↔ IsHeld db l
unfolding holds
holds_iff db l = (
  λ h.
      let (source, s, h) = found_and-true _ _ h in
      let (group, g, h) = found_and-true _ _ h in
      let (destination, d, h) = found_and-true _ _ h in (source, group, destination, s, g, d, h),
  λ h. let (source, group, destination, s, g, d, e) = h in rw (s, g, d) e,
)

-- The id is the tag of some group.
abbrev pub IsAssigned : ℕ → List GroupRow → Type 0
IsAssigned id rows = (guid : String) × (row_with_guid guid rows ≡ some id)

-- The tables are as they must be by themselves, and every id that one table takes from another
-- stands there.
abbrev pub IsSound : Db → Type 0
IsSound db =
    IsTagTable db.groups
    × IsDestinationTable db.next_destination_id db.destinations
    × ((k : Key) (destination : ℕ)
        → row_with_key k db.destinations ≡ some destination
        → IsAssigned k.group_id db.groups)
    × ((source destination : ℕ)
        → has_pair source destination db.policies ≡ true
        → IsAssigned source db.groups
          × ((k : Key) × (row_with_key k db.destinations ≡ some destination)))

pub some_eq : {A : Type 0} (a b : A) → some a ≡ some b → a ≡ b
some_eq a b e = ap (λ o. elim o [ some x ↦ x | none ↦ a ]) e

-- Two guids never have one tag, and two keys never have one row.
pub guid_unique :
    (rows : List GroupRow) (g h : String) (id : ℕ)
    → IsTagTable rows
    → row_with_guid g rows ≡ some id
    → row_with_guid h rows ≡ some id
    → g ≡ h
guid_unique rows g h id t mine yours = some_eq g h (
    some_eq (some g) (some h)
      (sym (guid_at-row_with_guid g id rows t mine) ∙ guid_at-row_with_guid h id rows t yours))

pub key_unique :
    (db : Db) (k l : Key) (id : ℕ)
    → IsSound db
    → row_with_key k db.destinations ≡ some id
    → row_with_key l db.destinations ≡ some id
    → k ≡ l
key_unique db k l id sound mine yours = some_eq k l (
    sym (key_at-row_with_key _ k id db.destinations (sound.1) mine)
    ∙ key_at-row_with_key _ l id db.destinations (sound.1) yours)

-- Two links that the same row of the policies table makes the store hold.
pub link_unique :
    (db : Db) (l m : Link) (s g h d : ℕ)
    → IsSound db
    → row_with_guid l.source db.groups ≡ some s
    → row_with_guid l.destination db.groups ≡ some g
    → row_with_key (link_key g l) db.destinations ≡ some d
    → row_with_guid m.source db.groups ≡ some s
    → row_with_guid m.destination db.groups ≡ some h
    → row_with_key (link_key h m) db.destinations ≡ some d
    → l ≡ m
link_unique db l m s g h d sound from to key from2 to2 key2 =
    let same : link_key g l ≡ link_key h m =
      key_unique db (link_key g l) (link_key h m) d sound key key2 in
    let one : l.destination ≡ m.destination =
      guid_unique db.groups l.destination m.destination h (sound.0)
        (to ∙ ap (λ k. some k.group_id) same) to2 in
    let first : l.source ≡ m.source =
      guid_unique db.groups l.source m.source s (sound.0) from from2 in
    λ i. record {
      source = first i;
      destination = one i;
      port = (same i).port;
      start_port = (same i).start_port;
      end_port = (same i).end_port;
      protocol = (same i).protocol;
    }

-- Taking away a link that is not held.
pub not_held :
    (db : Db) (l m : Link) → holds db l ≡ false → holds db m ≡ (holds db m && not (eq_link l m))
not_held db l m absent = elim (Bool-cases (eq_link l m)) [
  | inr other ↦ rw other (and_not-false (holds db m))
  | inl same ↦
      let gone : holds db m ≡ false =
        subst (λ n. holds db n ≡ false) ((eq_link_iff l m).0 same) absent in
      rw (same, gone) refl
]
