-- ===== src/Store/PolicyRows.antt =====
-- The rows of the policies table (policy.go): which pairs stand there after an insert and a delete.
use cf_networking_release.Prelude.{
  ℕ, ◌≡◌, refl, true, false, ◌&&◌, ◌||◌, not, List, [], ◌∷◌, ◌++◌, ◌==◌, arith, inl, inr,
  Bool-cases, keep_if, length,
}
use mathlib.Core.Path.{subst}
use cf_networking_release.Store.Tables.{PolicyRow}
use cf_networking_release.Store.Policies.{is_pair, has_pair, insert_pair}
use cf_networking_release.Store.DestinationRows.{keep_if-cons-0}

has_pair-append :
    (s d : ℕ) (rows more : List PolicyRow)
    → has_pair s d (rows ++ more) ≡ (has_pair s d rows || has_pair s d more)
unfolding has_pair
has_pair-append s d [] more = refl
has_pair-append s d (r ∷ rows) more = ground (arith, has_pair-append s d rows more)

pub has_pair-insert_pair :
    (source destination s d : ℕ) (rows : List PolicyRow)
    → has_pair s d (insert_pair source destination rows)
      ≡ (((source == s) && (destination == d)) || has_pair s d rows)
unfolding insert_pair has_pair
has_pair-insert_pair source destination s d rows =
    elim (Bool-cases (has_pair source destination rows)) [
      | inl there ↦ rw there (
          ground (
            arith,
            λ (e : source ≡ s) (f : destination ≡ d).
                subst (λ a. has_pair a d rows ≡ true) e
                  (subst (λ b. has_pair source b rows ≡ true) f there),
          ))
      | inr absent ↦
          rw
            (
              absent,
              has_pair-append s d rows
                  (record { group_id = source; destination_id = destination } ∷ []),
            )
            (ground arith)
    ]

pub has_pair-delete :
    (source destination s d : ℕ) (rows : List PolicyRow)
    → has_pair s d (keep_if (λ r. not (is_pair source destination r)) rows)
      ≡ (has_pair s d rows && not ((source == s) && (destination == d)))
unfolding keep_if has_pair
has_pair-delete source destination s d [] = refl
has_pair-delete source destination s d (r ∷ rows) =
    ground (arith, has_pair-delete source destination s d rows)

-- A destination, and a group, that no row is counted for.
pub no_pair-destination :
    (s d : ℕ) (rows : List PolicyRow)
    → length (keep_if (λ r. r.destination_id == d) rows) ≡ 0
    → has_pair s d rows ≡ false
unfolding keep_if has_pair
no_pair-destination s d [] c = refl
no_pair-destination s d (r ∷ rows) c =
    let (other, rest) =
      keep_if-cons-0 (r.destination_id == d) r (keep_if (λ r. r.destination_id == d) rows) c in
    ground (arith, other, no_pair-destination s d rows rest)

pub no_pair-group :
    (s d : ℕ) (rows : List PolicyRow)
    → length (keep_if (λ r. r.group_id == s) rows) ≡ 0
    → has_pair s d rows ≡ false
unfolding keep_if has_pair
no_pair-group s d [] c = refl
no_pair-group s d (r ∷ rows) c =
    let (other, rest) =
      keep_if-cons-0 (r.group_id == s) r (keep_if (λ r. r.group_id == s) rows) c in
    ground (arith, other, no_pair-group s d rows rest)
