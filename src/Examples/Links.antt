-- ===== src/Examples/Links.antt =====
-- A store with one policy, and runs of changes on it.
use cf_networking_release.Prelude.{
  ℕ, ◌++◌, ◌∙◌, ◌≡◌, refl, ap, pos, false, ◌&&◌, ◌||◌, not, none, some, List, [], ◌∷◌, ok, err, ◌⊎◌,
  inl, inr, external, arith, ==_iff,
}
use mathlib.Core.Path.{subst}
use cf_networking_release.Store.{destination_key, create, delete}
use cf_networking_release.Store.Models.{Policy}
use cf_networking_release.Store.Tables.{DestinationRow, PolicyRow, Db, Session}
use cf_networking_release.Store.Groups.{row_with_guid}
use cf_networking_release.Store.Destinations.{row_with_key}
use cf_networking_release.Store.Policies.{has_pair, is_pair}
use cf_networking_release.Store.DestinationRows.{found-cons, key_of}
use cf_networking_release.Store.Extending.{answering, out_of_tags}
use cf_networking_release.Store.Links.{Link, holds, IsSound}
use cf_networking_release.Store.Runs.{
  Change, creation, deletion, run, replay, contains_link, create-adds, delete-removes, run-replays,
}
use cf_networking_release.Store.Refusals.{IsWhole, create-IsWhole}
use cf_networking_release.Store.Reads.{new_store, all}
use cf_networking_release.Store.Reads.Listed.{IsVisit, all-lists}
use cf_networking_release.Store.Reads.Lifetime.{migrated_db, new_store-run-all}
use cf_networking_release.Examples.Stores.{web_to_db}

abbrev db_to_web : Policy
db_to_web = record {
  source = record { id = "db"; tag = [] };
  destination = record {
    id = "web";
    tag = [];
    protocol = "udp";
    port = pos 0;
    ports = record { start = pos 7000; end = pos 7010 };
  };
}

abbrev db_row : DestinationRow
db_row = record {
  id = 1;
  group_id = 2;
  port = pos 5432;
  start_port = pos 5432;
  end_port = pos 5432;
  protocol = "tcp";
}

-- The policy from web to db is held; no row is blank.
abbrev one_policy : Db
one_policy = record {
  groups = record { id = 1; guid = some "web" } ∷ record { id = 2; guid = some "db" } ∷ [];
  destinations = db_row ∷ [];
  policies = record { group_id = 1; destination_id = 1 } ∷ [];
  next_destination_id = 2;
}

one_policy-IsSound : IsSound one_policy
unfolding row_with_guid row_with_key has_pair
one_policy-IsSound = (
  (
    refl,
    λ g e.
        let same : "web" ≡ g = ground (arith, e) in
        subst (λ k. row_with_guid k (record { id = 2; guid = some "db" } ∷ []) ≡ none) same refl,
    (refl, λ g e. refl, tt),
  ),
  (refl, refl, refl, omega arith, tt),
  λ k d h. elim (found-cons k d db_row [] h) [
    | inl (key, same) ↦ ("db", ap (λ n. some n.group_id) key)
    | inr none_left ↦ absurd (ground (arith, none_left))
  ],
  λ s d h.
      let first : 1 ≡ s = ground (arith, h, ==_iff 1 s) in
      let second : 1 ≡ d = ground (arith, h, ==_iff 1 d) in
      (("web", ap some first), (key_of db_row, ap some second)),
)

create-adds_example :
    ((after : Db) × (create (db_to_web ∷ web_to_db ∷ []) (answering one_policy)
        ≡ (ok tt, answering after))
      × IsSound after
      × ((l : Link)
          → holds after l ≡ (contains_link l (db_to_web ∷ web_to_db ∷ []) || holds one_policy l)))
    ⊎ (create (db_to_web ∷ web_to_db ∷ []) (answering one_policy)
        ≡ (err out_of_tags, answering one_policy))
unfolding destination_key
create-adds_example =
    create-adds (db_to_web ∷ web_to_db ∷ []) one_policy one_policy-IsSound (refl, (refl, tt))

-- The fourth answer of the database is an error.
abbrev failing : Session
failing = record {
  db = one_policy;
  faults = none ∷ none ∷ none ∷ some (external "connection lost") ∷ [];
}

create-IsWhole_example :
    IsWhole failing.faults
      (db_to_web ∷ web_to_db ∷ [])
      one_policy
      (create (db_to_web ∷ web_to_db ∷ []) failing)
unfolding destination_key
create-IsWhole_example =
    create-IsWhole (db_to_web ∷ web_to_db ∷ []) failing one_policy-IsSound (refl, (refl, tt))
      (λ h. cc, (λ h. cc, (λ h. cc, (λ h. cc, tt))))

delete-removes_example :
    (after : Db) × (delete (db_to_web ∷ web_to_db ∷ []) (answering one_policy)
      ≡ (ok tt, answering after))
    × IsSound after
    × ((l : Link)
        → holds after l
          ≡ (holds one_policy l && not (contains_link l (db_to_web ∷ web_to_db ∷ []))))
delete-removes_example = delete-removes (db_to_web ∷ web_to_db ∷ []) one_policy one_policy-IsSound

abbrev changes : List Change
changes = creation (db_to_web ∷ []) ∷ deletion (web_to_db ∷ []) ∷ []

run-replays_example :
    (done : List Change) × (after : Db) × (run changes (answering one_policy)
      ≡ (done, answering after))
    × IsSound after
    × ((l : Link) → holds after l ≡ replay done l (holds one_policy l))
unfolding destination_key
run-replays_example = run-replays changes one_policy one_policy-IsSound ((refl, tt), (tt, tt))

-- The rows last inserted come first.
abbrev reversed : List PolicyRow → List PolicyRow
reversed [] = []
reversed (r ∷ rows) = reversed rows ++ r ∷ []

has_pair-append :
    (s d : ℕ) (rows : List PolicyRow) (r : PolicyRow)
    → has_pair s d (rows ++ r ∷ []) ≡ has_pair s d (r ∷ rows)
unfolding has_pair
has_pair-append s d [] r = refl
has_pair-append s d (x ∷ rows) r = ground (arith, has_pair-append s d rows r)

reversed-IsVisit : IsVisit reversed
unfolding has_pair
reversed-IsVisit [] s d = refl
reversed-IsVisit (r ∷ rows) s d =
    has_pair-append s d (reversed rows) r ∙ ap (λ b. is_pair s d r || b) (reversed-IsVisit rows s d)

all-lists_example :
    (policies : List Policy) × (all 1 reversed (answering one_policy)
      ≡ (ok policies, answering one_policy))
    × ((l : Link) → contains_link l policies ≡ holds one_policy l)
all-lists_example = all-lists 1 reversed one_policy reversed-IsVisit one_policy-IsSound

new_store-run-all_example :
    (db : Db) × (done : List Change) × (after : Db) × (policies : List Policy) × (new_store
        (pos 1)
        (ok 3)
        none
        none
        migrated_db
      ≡ ok db)
    × (run changes (answering db) ≡ (done, answering after))
    × (all 1 reversed (answering after) ≡ (ok policies, answering after))
    × IsSound after
    × ((l : Link) → contains_link l policies ≡ replay done l false)
unfolding destination_key
new_store-run-all_example =
    new_store-run-all 1 3 reversed changes reversed-IsVisit (omega arith) (omega arith)
      ((refl, tt), (tt, tt))
