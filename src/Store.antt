-- ===== src/Store.antt =====
-- src/policy-server/store/store.go: the policy store over its three tables. A transaction works on
-- its own copy of the rows, which a commit puts in place and a rollback drops; one transaction runs
-- at a time. Foreign keys are not modelled: the store keeps the references by itself.
pub mod Models
pub mod Tables
pub mod Groups
pub mod Destinations
pub mod Policies
pub mod Reads
pub mod GroupRows
pub mod DestinationRows
pub mod PolicyRows
pub mod Links
pub mod Extending
pub mod Linked
pub mod Adding
pub mod Pruning
pub mod Removing
pub mod Runs
pub mod Noticing
pub mod Refusals
pub mod Tags
pub mod TagText
use cf_networking_release.Prelude.{
  ℕ, zero, suc, ◌*◌, ◌-◌, ◌^◌, String, ℤ, pos, Bool, true, false, ◌&&◌, ◌||◌, Option, none, some,
  List, [], ◌∷◌, ◌++◌, ◌==◌, ltb, if◌then◌else◌, Error, no_rows, external, message, number_error,
  wrap, wrap_both, Result, ok, err, Bytes, contains, wrapping,
}
use cf_networking_release.Prelude.Print.{print_hex}
use cf_networking_release.Store.Models.{Policy, Tag}
use cf_networking_release.Store.Tables.{
  GroupRow, DestinationRow, PolicyRow, Db, Session, Tx, ◌>>=◌, ◌>>◌, pure, raise, try, wrapping_tx,
}
use cf_networking_release.Store.Groups
use cf_networking_release.Store.Destinations
use cf_networking_release.Store.Destinations.{Key}
use cf_networking_release.Store.Policies

-- The next answer of the database, to a Begin, a Commit or a Rollback.
pub next_answer : List (Option Error) → Option Error × List (Option Error)
next_answer [] = (none, [])
next_answer (answer ∷ faults) = (answer, faults)

-- rollback(tx, err): the error, and the faults that are left.
rolled_back : Error → Option Error → Error
rolled_back e none = e
rolled_back e (some failed) = wrap_both "database rollback: %s (sql error: %s)" failed e

-- The end of a transaction whose calls failed: `before` is what was committed before it.
pub roll_back {ℓ} : {A : Type ℓ} → Db → Error → List (Option Error) → Result A × Session
unfolding next_answer rolled_back
roll_back before e faults =
    let (answer, rest) = next_answer faults in
    (err (rolled_back e answer), record { db = before; faults = rest })

-- commit(tx), of the rows `after`.
pub commit {ℓ} :
    {A : Type ℓ} → Db → Db → A → Option Error × List (Option Error) → Result A × Session
commit before after a (none, rest) = (ok a, record { db = after; faults = rest })
commit before after a (some e, rest) =
    (err (wrap "commit transaction" e), record { db = before; faults = rest })

-- The commit of CreateTag, which rolls back if it fails.
pub commit_or_roll_back {ℓ} :
    {A : Type ℓ} → Db → Db → A → Option Error × List (Option Error) → Result A × Session
unfolding roll_back
commit_or_roll_back before after a (none, rest) = (ok a, record { db = after; faults = rest })
commit_or_roll_back before after a (some e, rest) =
    roll_back before (wrap "commit transaction" e) rest

-- `return commit(tx)`, or `return rollback(tx, err)` at the first call that fails.
pub finish {ℓ} : {A : Type ℓ} → Db → Result A × Session → Result A × Session
unfolding commit roll_back
finish before (ok a, s) = commit before s.db a (next_answer s.faults)
finish before (err e, s) = roll_back before e s.faults

pub finish_tag {ℓ} : {A : Type ℓ} → Db → Result A × Session → Result A × Session
unfolding commit_or_roll_back roll_back
finish_tag before (ok a, s) = commit_or_roll_back before s.db a (next_answer s.faults)
finish_tag before (err e, s) = roll_back before e s.faults

-- s.conn.Beginx(), and the rest of the transaction if it succeeds.
pub begin {ℓ} :
    {A : Type ℓ}
    → (Session → Result A × Session)
    → Db
    → Option Error × List (Option Error)
    → Result A × Session
begin rest before (none, faults) = rest (record { db = before; faults = faults })
begin rest before (some e, faults) =
    (err (wrap "begin transaction" e), record { db = before; faults = faults })

pub create_tag : String → Session → Result ℕ × Session
unfolding begin finish_tag
create_tag guid s = begin (λ t. finish_tag s.db (Groups.create guid t)) s.db (next_answer s.faults)

unfoldable pub destination_key : ℕ → Policy → Key
destination_key group_id p = record {
  group_id = group_id;
  port = p.destination.port;
  start_port = p.destination.ports.start;
  end_port = p.destination.ports.end;
  protocol = p.destination.protocol;
}

-- One round of the loop of Create.
pub create_policy : Policy → Tx (Unit {0})
unfolding destination_key
create_policy p = do
  source_group_id ← wrapping_tx "creating group" (Groups.create p.source.id)
  destination_group_id ← wrapping_tx "creating group" (Groups.create p.destination.id)
  destination_id ←
      wrapping_tx "creating destination"
        (Destinations.create (destination_key destination_group_id p))
  wrapping_tx "creating policy" (Policies.create source_group_id destination_id)

pub create_policies : List Policy → Tx (Unit {0})
create_policies [] = pure tt
create_policies (p ∷ policies) = create_policy p >> create_policies policies

pub create : List Policy → Session → Result (Unit {0}) × Session
unfolding begin finish
create policies s =
    begin (λ t. finish s.db (create_policies policies t)) s.db (next_answer s.faults)

-- `if err == sql.ErrNoRows { continue } else { return rollback(tx, ...) }`
or_skip : {A : Type 0} → String → (A → Tx (Unit {0})) → Result A → Tx (Unit {0})
or_skip text rest (ok a) = rest a
or_skip text rest (err no_rows) = pure tt
or_skip text rest (err e) = raise (wrap text e)

pub delete_group_row_if_last : ℕ → Tx (Unit {0})
delete_group_row_if_last group_id = do
  policies ← Policies.count_where_group_id group_id
  destinations ← Destinations.count_where_group_id group_id
  if (policies == 0) && (destinations == 0) then Groups.delete group_id else pure tt

-- What Delete does once the policy's row is gone.
pub clean_up : ℕ → ℕ → ℕ → Tx (Unit {0})
unfolding delete_group_row_if_last
clean_up source_group_id dest_group_id dest_id = do
  count ← wrapping_tx "counting destination id" (Policies.count_where_destination_id dest_id)
  if count == 0 then wrapping_tx "deleting destination" (Destinations.delete dest_id) else pure tt
  wrapping_tx "deleting group row" (delete_group_row_if_last source_group_id)
  wrapping_tx "deleting group row" (delete_group_row_if_last dest_group_id)

-- One round of the loop of Delete.
pub delete_policy : Policy → Tx (Unit {0})
unfolding or_skip clean_up destination_key
delete_policy p = do
  source ← try (Groups.get_id p.source.id)
  or_skip "getting source id"
      (λ source_group_id. do
        dest_group ← try (Groups.get_id p.destination.id)
        or_skip "getting destination group id"
            (λ dest_group_id. do
              dest ← try (Destinations.get_id (destination_key dest_group_id p))
              or_skip "getting destination id"
                  (λ dest_id. do
                    deleted ← try (Policies.delete source_group_id dest_id)
                    or_skip "deleting policy" (λ u. clean_up source_group_id dest_group_id dest_id)
                        deleted)
                  dest)
            dest_group)
      source

pub delete_policies : List Policy → Tx (Unit {0})
delete_policies [] = pure tt
delete_policies (p ∷ policies) = delete_policy p >> delete_policies policies

pub delete : List Policy → Session → Result (Unit {0}) × Session
unfolding begin finish
delete policies s =
    begin (λ t. finish s.db (delete_policies policies t)) s.db (next_answer s.faults)
