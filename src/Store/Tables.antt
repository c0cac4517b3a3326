-- ===== src/Store/Tables.antt =====
-- The tables that the store's SQL works on (src/policy-server/store/migrations/v0001.go to v0003.go
-- create them), and a transaction on them: the rows it sees, and what the database answers to its
-- next statements. A statement that the database refuses changes nothing.
use cf_networking_release.Prelude.{
  ℕ, String, ℤ, Option, none, some, List, [], ◌∷◌, Error, Result, ok, err, Bool, true, false, ◌==◌,
  if◌then◌else◌,
}

pub record GroupRow : Type 0 where
  pub id : ℕ
  pub guid : Option String

pub record DestinationRow : Type 0 where
  pub id : ℕ
  pub group_id : ℕ
  pub port : ℤ
  pub start_port : ℤ
  pub end_port : ℤ
  pub protocol : String

pub record PolicyRow : Type 0 where
  pub group_id : ℕ
  pub destination_id : ℕ

pub record Db : Type 0 where
  pub groups : List GroupRow
  pub destinations : List DestinationRow
  pub policies : List PolicyRow
  pub next_destination_id : ℕ

unfoldable pub row_with_id : ℕ → List DestinationRow → Option DestinationRow
row_with_id id [] = none
row_with_id id (r ∷ rows) = if r.id == id then some r else row_with_id id rows

unfoldable pub guid_with_id : ℕ → List GroupRow → Option String
guid_with_id id [] = none
guid_with_id id (r ∷ rows) = if r.id == id then r.guid else guid_with_id id rows

-- The answers still to come: a fault, or none; after the last there is no more fault.
pub record Session : Type 0 where
  pub db : Db
  pub faults : List (Option Error)

abbrev pub Tx : Type 0 → Type 0
Tx A = Session → Result A × Session

module _ {A B : Type 0} where
  abbrev pub continue : Result A → (A → Tx B) → Tx B
  continue (ok a) f s = f a s
  continue (err e) f s = (err e, s)

  infixl 10 ◌>>=◌ ◌>>◌
  abbrev pub ◌>>=◌ : Tx A → (A → Tx B) → Tx B
  ◌>>=◌ m f s = let (r, s') = m s in continue r f s'

  abbrev pub ◌>>◌ : Tx A → Tx B → Tx B
  m >> n = m >>= λ _. n

module _ {A : Type 0} where
  abbrev pub pure : A → Tx A
  pure a s = (ok a, s)

  abbrev pub raise : Error → Tx A
  raise e s = (err e, s)

  -- Hands the result to a caller that looks at the error.
  abbrev pub try : Tx A → Tx (Result A)
  try m s = let (r, s') = m s in (ok r, s')

  abbrev pub wrapping_tx : String → Tx A → Tx A
  wrapping_tx text m s = let (r, s') = m s in (cf_networking_release.Prelude.wrapping text r, s')

  -- One statement, with the next answer of the database.
  abbrev pub answered : Db → Result A × Db → List (Option Error) → Result A × Session
  answered db (r, db') [] = (r, record { db = db'; faults = [] })
  answered db (r, db') (none ∷ faults) = (r, record { db = db'; faults = faults })
  answered db (r, db') (some e ∷ faults) = (err e, record { db = db; faults = faults })

  unfoldable pub statement : (Db → Result A × Db) → Tx A
  statement run s = answered s.db (run s.db) s.faults

  -- A SELECT of one row: sql.ErrNoRows if there is none.
  abbrev pub one_row : Option A → Result A
  one_row none = err cf_networking_release.Prelude.no_rows
  one_row (some a) = ok a

  unfoldable pub query_row : (Db → Option A) → Tx A
  unfolding statement
  query_row find = statement (λ db. (one_row (find db), db))

unfoldable pub exec : (Db → Result (Unit {0}) × Db) → Tx (Unit {0})
unfolding statement
exec run = statement run
