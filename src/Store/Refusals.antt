-- ===== src/Store/Refusals.antt =====
-- Create (store.go) on a database that may refuse any of its calls.
use cf_networking_release.Prelude.{
  ◌≡◌, refl, ap, sym, ◌∙◌, Option, none, some, List, [], ◌∷◌, Error, Result, ok, err, ◌⊎◌, inl, inr,
  arith, ◌||◌, wrap,
}
use mathlib.Core.Path.{subst}
use cf_networking_release.Store.{
  create_policies, create, begin, finish, commit, roll_back, rolled_back, next_answer,
}
use cf_networking_release.Store.Models.{Policy}
use cf_networking_release.Store.Tables.{Db, Session}
use cf_networking_release.Store.Extending.{answering, out_of_tags}
use cf_networking_release.Store.Links.{Link, holds, IsSound}
use cf_networking_release.Store.Noticing.{
  AreRefusals, IsRefused, IsUsed, all_left, one_used, IsUsed-trans, IsUsed-IsRefused, Mentions,
  itself, in_wrap, in_first, in_second, Noticed, later-Noticed, IsNoticing,
}
use cf_networking_release.Store.Noticing.Creating.{create_policies-IsNoticing}
use cf_networking_release.Store.Runs.{AreCanonical, contains_link, create_policies-adds}

-- The error mentions every refusal among the answers in front, up to the ones that are left.
pub data IsTold (e : Error) : List (Option Error) → List (Option Error) → Type 0 where
  none_told : (faults : List (Option Error)) → IsTold e faults faults
  after_answer :
      {faults left : List (Option Error)} → IsTold e faults left → IsTold e (none ∷ faults) left
  after_refusal :
      {f : Error} {faults left : List (Option Error)}
      → Mentions f e
      → IsTold e faults left
      → IsTold e (some f ∷ faults) left

used-IsTold :
    (e : Error) {faults between left : List (Option Error)}
    → IsUsed faults between
    → IsTold e between left
    → IsTold e faults left
used-IsTold e (all_left faults) told = told
used-IsTold e (one_used used) told = after_answer (used-IsTold e used told)

-- A Create that failed left the rows as they were, its error mentions every refusal among the answers
-- that it got, and if none of the answers is a refusal it says that no tag was left. One that
-- succeeded got no refusal, and left sound tables that hold the links from before and the policies'
-- links, and no others.
abbrev pub IsWhole : List (Option Error) → List Policy → Db → Result (Unit {0}) × Session → Type 0
IsWhole faults policies before (err e, s) =
    (s.db ≡ before) × IsTold e faults s.faults × (IsRefused faults ⊎ (e ≡ out_of_tags))
IsWhole faults policies before (ok u, s) =
    IsSound s.db
    × ((l : Link) → holds s.db l ≡ (contains_link l policies || holds before l))
    × IsUsed faults s.faults

module _ (policies : List Policy) (db : Db) (sound : IsSound db) (canonical : AreCanonical policies)
    (faults : List (Option Error)) where
  committed :
      (after : Db)
      → create_policies policies (answering db) ≡ (ok tt, answering after)
      → IsSound after × ((l : Link) → holds after l ≡ (contains_link l policies || holds db l))
  committed after ran = elim (create_policies-adds policies db sound canonical) [
    | inr (stuck, e) ↦ absurd (ground (arith, sym ran ∙ e))
    | inl (other, e, good, adds) ↦
        let same : other ≡ after = ap (λ r. r.1.db) (sym e ∙ ran) in
        subst (λ d. IsSound d × ((l : Link) → holds d l ≡ (contains_link l policies || holds db l)))
          same (good, adds)
  ]

  out :
      (e : Error) (stuck : Db)
      → create_policies policies (answering db) ≡ (err e, answering stuck)
      → e ≡ out_of_tags
  out e stuck ran = elim (create_policies-adds policies db sound canonical) [
    | inr (other, f) ↦ ground (arith, sym ran ∙ f)
    | inl (after, f, good, adds) ↦ absurd (ground (arith, sym ran ∙ f))
  ]

  commit-IsWhole :
      (after : Db) (left : List (Option Error))
      → create_policies policies (answering db) ≡ (ok tt, answering after)
      → IsUsed faults left
      → IsWhole faults policies db (commit db after tt (next_answer left))
  unfolding commit next_answer
  commit-IsWhole after (some e ∷ left) ran used = (
    refl,
    used-IsTold (wrap "commit transaction" e) used
        (after_refusal (in_wrap itself) (none_told left)),
    inl (IsUsed-IsRefused used tt),
  )
  commit-IsWhole after [] ran used = let (good, adds) = committed after ran in (good, adds, used)
  commit-IsWhole after (none ∷ left) ran used =
      let (good, adds) = committed after ran in
      (good, adds, IsUsed-trans used (one_used (all_left left)))

  -- The rollback of a transaction without a tag, or of one that was refused.
  roll_back-IsWhole :
      (e : Error) (left : List (Option Error)) (stuck : Db)
      → create_policies policies (answering db) ≡ (err e, answering stuck)
      → IsUsed faults left
      → IsWhole faults policies db (roll_back db e left)
  unfolding roll_back rolled_back next_answer
  roll_back-IsWhole e (some f ∷ left) stuck ran used = (
    refl,
    used-IsTold _ used (after_refusal (in_first itself) (none_told left)),
    inl (IsUsed-IsRefused used tt),
  )
  roll_back-IsWhole e [] stuck ran used =
      (refl, used-IsTold e used (none_told []), inr (out e stuck ran))
  roll_back-IsWhole e (none ∷ left) stuck ran used =
      (refl, used-IsTold e used (after_answer (none_told left)), inr (out e stuck ran))

  roll_back-refused :
      (e f : Error) (left : List (Option Error))
      → Mentions f e
      → IsUsed faults (some f ∷ left)
      → IsWhole faults policies db (roll_back db e left)
  unfolding roll_back rolled_back next_answer
  roll_back-refused e f (some g ∷ left) told used = (
    refl,
    used-IsTold _ used
        (after_refusal (in_second told) (after_refusal (in_first itself) (none_told left))),
    inl (IsUsed-IsRefused used tt),
  )
  roll_back-refused e f [] told used =
      (refl, used-IsTold e used (after_refusal told (none_told [])), inl (IsUsed-IsRefused used tt))
  roll_back-refused e f (none ∷ left) told used = (
    refl,
    used-IsTold e used (after_refusal told (after_answer (none_told left))),
    inl (IsUsed-IsRefused used tt),
  )

  finish-IsWhole :
      (r : Result (Unit {0}) × Session)
      → Noticed faults (create_policies policies (answering db)) r
      → IsWhole faults policies db (finish db r)
  unfolding finish
  finish-IsWhole (err e, t) (inl (f, told, used)) = roll_back-refused e f t.faults told used
  finish-IsWhole (err e, t) (inr (ran, used)) = roll_back-IsWhole e t.faults t.db ran used
  finish-IsWhole (ok u, t) (ran, real, used) = commit-IsWhole t.db t.faults ran used

begin-IsWhole :
    (policies : List Policy) (db : Db) (faults : List (Option Error))
    → IsSound db
    → AreCanonical policies
    → IsNoticing (create_policies policies)
    → AreRefusals faults
    → IsWhole faults policies db (create policies (record { db = db; faults = faults }))
unfolding IsNoticing create begin next_answer
begin-IsWhole policies db [] sound canonical each real =
    finish-IsWhole policies db sound canonical [] _ (each db [] real)
begin-IsWhole policies db (none ∷ faults) sound canonical each real =
    finish-IsWhole policies db sound canonical (none ∷ faults) _
      (later-Noticed _ _ (one_used (all_left faults)) (each db faults real.1))
begin-IsWhole policies db (some e ∷ faults) sound canonical each real =
    (refl, after_refusal (in_wrap itself) (none_told faults), inl tt)

-- On sound tables, with policies whose single ports go with their ranges, and whichever of Begin, the
-- statements, Commit and Rollback the database refuses, with any error but ErrNoRows: Create either
-- succeeds, got no refusal, and leaves sound tables that hold exactly the links they held and the
-- policies' links; or it fails and leaves the rows as they were. Its error then mentions every
-- refusal that it got, of a call and of the Rollback, and where the database has no refusal to give
-- it says that no tag was left.
pub create-IsWhole :
    (policies : List Policy) (s : Session)
    → IsSound s.db
    → AreCanonical policies
    → AreRefusals s.faults
    → IsWhole s.faults policies s.db (create policies s)
create-IsWhole policies s sound canonical real =
    begin-IsWhole policies s.db s.faults sound canonical (create_policies-IsNoticing policies) real
