-- ===== src/Store/Runs.antt =====
-- Create and Delete (store.go) as changes of a set of links, and runs of them.
use cf_networking_release.Prelude.{
  ◌≡◌, refl, ap, ◌∙◌, Bool, false, ◌&&◌, ◌||◌, not, List, [], ◌∷◌, arith, ok, err, Result, ◌⊎◌, inl,
  inr, All,
}
use cf_networking_release.Store.{
  destination_key, create_policies, create, delete_policies, delete, begin, finish, commit,
  roll_back, rolled_back, next_answer,
}
use cf_networking_release.Store.Models.{Policy}
use cf_networking_release.Store.Tables.{Db, Session}
use cf_networking_release.Store.Extending.{answering, out_of_tags}
use cf_networking_release.Store.DestinationRows.{IsCanonicalKey}
use cf_networking_release.Store.Links.{Link, link_of, eq_link, holds, IsSound}
use cf_networking_release.Store.Adding.{create_policy-adds}
use cf_networking_release.Store.Removing.{delete_policy-removes}

-- The single port that each policy has goes with its range.
abbrev pub AreCanonical : List Policy → Type 0
AreCanonical policies = All (λ p. IsCanonicalKey (destination_key 0 p)) policies

unfoldable pub contains_link : Link → List Policy → Bool
contains_link l [] = false
contains_link l (p ∷ policies) = eq_link (link_of p) l || contains_link l policies

pub create_policies-adds :
    (policies : List Policy) (db : Db)
    → IsSound db
    → AreCanonical policies
    → ((after : Db) × (create_policies policies (answering db) ≡ (ok tt, answering after))
        × IsSound after
        × ((l : Link) → holds after l ≡ (contains_link l policies || holds db l)))
      ⊎ ((stuck : Db) × (create_policies policies (answering db)
            ≡ (err out_of_tags, answering stuck)))
unfolding create_policies contains_link
create_policies-adds [] db sound canonical = inl (db, refl, sound, λ l. refl)
create_policies-adds (p ∷ policies) db sound (this, others) =
    elim (create_policy-adds p db sound this) [
      | inr (stuck, e, full) ↦ inr (stuck, rw e refl)
      | inl (next, e, good, adds) ↦ elim (create_policies-adds policies next good others) [
        | inr (stuck, f) ↦ inr (stuck, rw (e, f) refl)
        | inl (after, f, sound, more) ↦
            inl (after, rw (e, f) refl, sound, λ l. ground (arith, more l, adds l))
      ]
    ]

-- On a database that answers and whose tables are sound, Create with policies whose single ports go
-- with their ranges either succeeds, and then the store holds exactly the links it held and the
-- policies' links, in sound tables; or it fails for want of a tag and the store is as before.
pub create-adds :
    (policies : List Policy) (db : Db)
    → IsSound db
    → AreCanonical policies
    → ((after : Db) × (create policies (answering db) ≡ (ok tt, answering after))
        × IsSound after
        × ((l : Link) → holds after l ≡ (contains_link l policies || holds db l)))
      ⊎ (create policies (answering db) ≡ (err out_of_tags, answering db))
unfolding create begin finish commit roll_back rolled_back next_answer
create-adds policies db sound canonical = elim (create_policies-adds policies db sound canonical) [
  | inl (after, e, good, adds) ↦ inl (after, rw e refl, good, adds)
  | inr (stuck, e) ↦ inr (rw e refl)
]

delete_policies-removes :
    (policies : List Policy) (db : Db)
    → IsSound db
    → (after : Db) × (delete_policies policies (answering db) ≡ (ok tt, answering after))
      × IsSound after
      × ((l : Link) → holds after l ≡ (holds db l && not (contains_link l policies)))
unfolding delete_policies contains_link
delete_policies-removes [] db sound = (db, refl, sound, λ l. ground arith)
delete_policies-removes (p ∷ policies) db sound =
    let (next, e, good, removes) = delete_policy-removes p db sound in
    let (after, f, sound, more) = delete_policies-removes policies next good in
    (after, rw (e, f) refl, sound, λ l. ground (arith, more l, removes l))

-- On a database that answers and whose tables are sound, Delete succeeds, and the store holds exactly
-- the links it held but the policies', in sound tables.
pub delete-removes :
    (policies : List Policy) (db : Db)
    → IsSound db
    → (after : Db) × (delete policies (answering db) ≡ (ok tt, answering after))
      × IsSound after
      × ((l : Link) → holds after l ≡ (holds db l && not (contains_link l policies)))
unfolding delete begin finish commit next_answer
delete-removes policies db sound =
    let (after, e, good, removes) = delete_policies-removes policies db sound in
    (after, rw e refl, good, removes)

-- A change that a client of the store asks for.
pub data Change : Type 0 where
  creation : List Policy → Change
  deletion : List Policy → Change

abbrev pub IsWellFormed : Change → Type 0
IsWellFormed (creation policies) = AreCanonical policies
IsWellFormed (deletion policies) = Unit

unfoldable pub perform : Change → Session → Result (Unit {0}) × Session
perform (creation policies) s = create policies s
perform (deletion policies) s = delete policies s

abbrev pub if_done : {A B : Type 0} → Result A → B → B → B
if_done (ok a) x y = x
if_done (err e) x y = y

-- The changes one after another: those that succeeded, and the store they leave.
unfoldable pub run : List Change → Session → List Change × Session
unfolding perform
run [] s = ([], s)
run (c ∷ changes) s =
    let (r, next) = perform c s in
    let (done, last) = run changes next in (if_done r (c ∷ done) done, last)

-- The same changes of a set of links, given by its test.
unfoldable pub replay : List Change → Link → Bool → Bool
unfolding contains_link
replay [] l held = held
replay (creation policies ∷ changes) l held = replay changes l (contains_link l policies || held)
replay (deletion policies ∷ changes) l held =
    replay changes l (held && not (contains_link l policies))

-- On a database that answers and whose tables are sound, a run of calls of Create and Delete keeps
-- the tables sound, and the store holds in the end what the calls that succeeded make of the set of
-- links it held at first.
pub run-replays :
    (changes : List Change) (db : Db)
    → IsSound db
    → All IsWellFormed changes
    → (done : List Change) × (after : Db) × (run changes (answering db) ≡ (done, answering after))
      × IsSound after
      × ((l : Link) → holds after l ≡ replay done l (holds db l))
unfolding run replay perform
run-replays [] db sound well = ([], db, refl, sound, λ l. refl)
run-replays (creation policies ∷ changes) db sound (this, others) =
    elim (create-adds policies db sound this) [
      | inr e ↦
          let (done, after, f, good, same) = run-replays changes db sound others in
          (done, after, rw (e, f) refl, good, same)
      | inl (next, e, good, adds) ↦
          let (done, after, f, sound, same) = run-replays changes next good others in
          (
            creation policies ∷ done,
            after,
            rw (e, f) refl,
            sound,
            λ l. same l ∙ ap (replay done l) (adds l),
          )
    ]
run-replays (deletion policies ∷ changes) db sound (this, others) =
    let (next, e, good, removes) = delete-removes policies db sound in
    let (done, after, f, sound, same) = run-replays changes next good others in
    (
      deletion policies ∷ done,
      after,
      rw (e, f) refl,
      sound,
      λ l. same l ∙ ap (replay done l) (removes l),
    )
