-- ===== src/Store/Noticing.antt =====
-- Calls of a transaction while the database refuses some of them. sql.ErrNoRows is no refusal but the
-- answer of a SELECT without a row.
pub mod Creating
use cf_networking_release.Prelude.{
  ℕ, String, ◌≡◌, ◌≢◌, refl, ap, sym, Option, none, some, List, [], ◌∷◌, All, Error, no_rows,
  external, message, number_error, wrap, wrap_text, wrap_both, Result, ok, err, ◌⊎◌, inl, inr,
  wrapping,
}
use mathlib.Core.Path.{subst}
use cf_networking_release.Store.{create_policy, create_policies}
use cf_networking_release.Store.Models.{Policy}
use cf_networking_release.Store.Tables.{
  Db, Session, Tx, ◌>>=◌, pure, raise, one_row, wrapping_tx, statement, query_row, exec, answered,
  continue,
}
use cf_networking_release.Store.Groups
use cf_networking_release.Store.Destinations
use cf_networking_release.Store.Policies
use cf_networking_release.Store.Extending.{answering}

-- No answer is sql.ErrNoRows.
abbrev pub AreRefusals : List (Option Error) → Type 0
AreRefusals faults = All (λ answer. answer ≢ some no_rows) faults

-- Some answer is a refusal.
abbrev pub IsRefused : List (Option Error) → Type 0
IsRefused [] = ⊥
IsRefused (none ∷ faults) = IsRefused faults
IsRefused (some e ∷ faults) = Unit

-- The answers in front, up to the ones that are left, were no refusals.
pub data IsUsed : List (Option Error) → List (Option Error) → Type 0 where
  all_left : (faults : List (Option Error)) → IsUsed faults faults
  one_used : {faults left : List (Option Error)} → IsUsed faults left → IsUsed (none ∷ faults) left

pub IsUsed-trans :
    {faults between left : List (Option Error)}
    → IsUsed faults between
    → IsUsed between left
    → IsUsed faults left
IsUsed-trans (all_left faults) later = later
IsUsed-trans (one_used used) later = one_used (IsUsed-trans used later)

pub IsUsed-IsRefused :
    {faults left : List (Option Error)} → IsUsed faults left → IsRefused left → IsRefused faults
IsUsed-IsRefused (all_left faults) refused = refused
IsUsed-IsRefused (one_used used) refused = IsUsed-IsRefused used refused

-- The text of the second error has that of the first in it.
pub data Mentions (e : Error) : Error → Type 0 where
  itself : Mentions e e
  in_wrap : {text : String} {f : Error} → Mentions e f → Mentions e (wrap text f)
  in_first : {text : String} {f g : Error} → Mentions e f → Mentions e (wrap_both text f g)
  in_second : {text : String} {f g : Error} → Mentions e g → Mentions e (wrap_both text f g)

-- The first run is on a database that answers: it gave the same result and rows as the second, whose
-- database gave answers out of `faults`, none of them a refusal; or the second failed at its first
-- refusal, which its error mentions.
abbrev pub Noticed :
    {A : Type 0} → List (Option Error) → Result A × Session → Result A × Session → Type 0
Noticed faults plain (err e, t) =
    ((f : Error) × Mentions f e × IsUsed faults (some f ∷ t.faults))
    ⊎ ((plain ≡ (err e, answering t.db)) × IsUsed faults t.faults)
Noticed faults plain (ok a, t) =
    (plain ≡ (ok a, answering t.db)) × AreRefusals t.faults × IsUsed faults t.faults

-- A run that succeeded although the database may refuse is that of a database that answers: no
-- refusal went unnoticed.
unfoldable pub IsNoticing : {A : Type 0} → Tx A → Type 0
IsNoticing run =
    (db : Db) (faults : List (Option Error))
    → AreRefusals faults
    → Noticed faults (run (answering db)) (run (record { db = db; faults = faults }))

pub raise-IsNoticing : (A : Type 0) (e : Error) → IsNoticing {A = A} (raise e)
unfolding IsNoticing
raise-IsNoticing A e db faults real = inr (refl, all_left faults)

module _ {A : Type 0} where
  answered-Noticed :
      (db : Db) (r : Result A × Db) (faults : List (Option Error))
      → AreRefusals faults
      → Noticed faults (answered db r []) (answered db r faults)
  answered-Noticed db (ok a, db') [] real = (refl, real, all_left [])
  answered-Noticed db (err e, db') [] real = inr (refl, all_left [])
  answered-Noticed db (ok a, db') (none ∷ faults) real = (refl, real.1, one_used (all_left faults))
  answered-Noticed db (err e, db') (none ∷ faults) real = inr (refl, one_used (all_left faults))
  answered-Noticed db r (some e ∷ faults) real = inl (e, itself, all_left (some e ∷ faults))

  statement-IsNoticing : (call : Db → Result A × Db) → IsNoticing (statement call)
  unfolding IsNoticing statement
  statement-IsNoticing call db faults real = answered-Noticed db (call db) faults real

  pub query_row-IsNoticing : (find : Db → Option A) → IsNoticing (query_row find)
  unfolding query_row
  query_row-IsNoticing find = statement-IsNoticing (λ db. (one_row (find db), db))

  pub pure-IsNoticing : (a : A) → IsNoticing (pure a)
  unfolding IsNoticing
  pure-IsNoticing a db faults real = (refl, real, all_left faults)

  -- The same of the answers before, some of which were used up.
  pub later-Noticed :
      (plain r : Result A × Session) {faults left : List (Option Error)}
      → IsUsed faults left
      → Noticed left plain r
      → Noticed faults plain r
  later-Noticed plain (err e, t) used (inl (f, mentioned, less)) =
      inl (f, mentioned, IsUsed-trans used less)
  later-Noticed plain (err e, t) used (inr (same, less)) = inr (same, IsUsed-trans used less)
  later-Noticed plain (ok a, t) used (same, real, less) = (same, real, IsUsed-trans used less)

  wrapped-Noticed :
      (text : String) (faults : List (Option Error)) (plain r : Result A × Session)
      → Noticed faults plain r
      → Noticed faults (wrapping text plain.0, plain.1) (wrapping text r.0, r.1)
  wrapped-Noticed text faults plain (err e, t) (inl (f, mentioned, used)) =
      inl (f, in_wrap mentioned, used)
  wrapped-Noticed text faults plain (err e, t) (inr (same, used)) =
      inr (ap (λ p. (wrapping text p.0, p.1)) same, used)
  wrapped-Noticed text faults plain (ok a, t) (same, real, used) =
      (ap (λ p. (wrapping text p.0, p.1)) same, real, used)

  pub wrapping_tx-IsNoticing :
      (text : String) (run : Tx A) → IsNoticing run → IsNoticing (wrapping_tx text run)
  unfolding IsNoticing
  wrapping_tx-IsNoticing text run each db faults real =
      wrapped-Noticed text faults (run (answering db)) (run (record { db = db; faults = faults }))
        (each db faults real)

pub exec-IsNoticing : (call : Db → Result (Unit {0}) × Db) → IsNoticing (exec call)
unfolding exec
exec-IsNoticing call = statement-IsNoticing call

module _ {A B : Type 0} (next : A → Tx B) (each : (a : A) → IsNoticing (next a)) where
  continue-Noticed :
      (faults : List (Option Error)) (plain r : Result A × Session)
      → Noticed faults plain r
      → Noticed faults (continue plain.0 next plain.1) (continue r.0 next r.1)
  unfolding IsNoticing
  continue-Noticed faults plain (err e, t) (inl refused) = inl refused
  continue-Noticed faults plain (err e, t) (inr (same, used)) =
      inr (ap (λ p. continue p.0 next p.1) same, used)
  continue-Noticed faults plain (ok a, t) (same, real, used) =
      subst (λ p. Noticed faults (continue p.0 next p.1) (next a t)) (sym same)
        (later-Noticed (next a (answering t.db)) (next a t) used (each a t.db t.faults real))

  pub >>=-IsNoticing : (run : Tx A) → IsNoticing run → IsNoticing (run >>= next)
  unfolding IsNoticing
  >>=-IsNoticing run first db faults real =
      continue-Noticed faults (run (answering db)) (run (record { db = db; faults = faults }))
        (first db faults real)
