-- ===== src/Store/GroupRows.antt =====
-- The rows of the groups table: which row a guid or an id has, and what an update changes.
use cf_networking_release.Prelude.{
  ℕ, String, ◌≡◌, refl, ap, ◌∙◌, true, false, Option, none, some, List, [], ◌∷◌, ◌==◌, ==_iff,
  arith, inl, inr, Bool-cases, Option-cases, str_eq, eq_iff, if◌then◌else◌,
}
use mathlib.Core.Path.{subst}
use cf_networking_release.Store.Tables.{GroupRow}
use cf_networking_release.Store.Groups.{has_guid, row_with_guid, least_blank, set_guid}

-- The row with an id, by its guid.
abbrev pub guid_at : ℕ → List GroupRow → Option (Option String)
guid_at id [] = none
guid_at id (r ∷ rows) = if r.id == id then some r.guid else guid_at id rows

-- No id and no guid stands twice.
abbrev pub IsTagTable : List GroupRow → Type 0
IsTagTable [] = Unit
IsTagTable (r ∷ rows) =
    (guid_at r.id rows ≡ none)
    × ((guid : String) → r.guid ≡ some guid → row_with_guid guid rows ≡ none)
    × IsTagTable rows

has_guid-eq : (guid : String) (at : Option String) → has_guid guid at ≡ true → at ≡ some guid
has_guid-eq guid none h = absurd (ground arith)
has_guid-eq guid (some k) h = ap some ((eq_iff k guid).0 h)

pub guid_at-row_with_guid :
    (guid : String) (id : ℕ) (rows : List GroupRow)
    → IsTagTable rows
    → row_with_guid guid rows ≡ some id
    → guid_at id rows ≡ some (some guid)
unfolding row_with_guid
guid_at-row_with_guid guid id [] t h = absurd (ground arith)
guid_at-row_with_guid guid id (r ∷ rows) t h = elim (Bool-cases (has_guid guid r.guid)) [
  | inl here ↦ ground (arith, has_guid-eq guid r.guid here, ==_iff r.id id)
  | inr away ↦
      ground (arith, guid_at-row_with_guid guid id rows t.2 (ground arith), t.0, ==_iff r.id id)
]

pub least_blank-blank :
    (id : ℕ) (rows : List GroupRow)
    → IsTagTable rows
    → least_blank rows ≡ some id
    → guid_at id rows ≡ some none
unfolding least_blank
least_blank-blank id [] t h = absurd (ground arith)
least_blank-blank id (r ∷ rows) t h = elim (Option-cases r.guid) [
  | inl blank ↦ elim (Option-cases (least_blank rows)) [
    | inl last ↦ ground (arith, ==_iff r.id id)
    | inr (j, next) ↦
        ground (arith, least_blank-blank j rows t.2 next, t.0, ==_iff r.id id, ==_iff r.id j)
  ]
  | inr (k, used) ↦
      ground (arith, least_blank-blank id rows t.2 (ground arith), t.0, ==_iff r.id id)
]

set_guid-absent :
    (guid : Option String) (id : ℕ) (rows : List GroupRow)
    → guid_at id rows ≡ none
    → set_guid guid id rows ≡ rows
unfolding set_guid
set_guid-absent guid id [] h = refl
set_guid-absent guid id (r ∷ rows) h = elim (Bool-cases (r.id == id)) [
  | inl here ↦ absurd (ground arith)
  | inr away ↦ rw (away, set_guid-absent guid id rows (ground arith)) refl
]

pub row_with_guid-set_guid :
    (guid g : String) (id : ℕ) (rows : List GroupRow)
    → IsTagTable rows
    → guid_at id rows ≡ some none
    → row_with_guid guid rows ≡ none
    → row_with_guid g (set_guid (some guid) id rows)
      ≡ (if str_eq guid g then some id else row_with_guid g rows)
unfolding row_with_guid set_guid
row_with_guid-set_guid guid g id [] t blank fresh = absurd (ground arith)
row_with_guid-set_guid guid g id (r ∷ rows) t blank fresh = elim (Bool-cases (r.id == id)) [
  | inl here ↦
      let same : r.id ≡ id = (==_iff r.id id).0 here in
      let gone : guid_at id rows ≡ none = subst (λ i. guid_at i rows ≡ none) same t.0 in
      let bare : has_guid g r.guid ≡ false = ground (arith, here, blank) in
      rw (here, set_guid-absent (some guid) id rows gone, bare, same) refl
  | inr away ↦ rw away (
      ground (
        arith,
        row_with_guid-set_guid guid g id rows t.2 (ground arith) (ground arith),
        λ (e : has_guid g r.guid ≡ true). has_guid-eq g r.guid e,
        eq_iff guid g,
        eq_iff g guid,
        fresh,
      ))
]

guid_at-set_guid :
    (guid : Option String) (i id : ℕ) (rows : List GroupRow)
    → guid_at i rows ≡ none
    → guid_at i (set_guid guid id rows) ≡ none
unfolding set_guid
guid_at-set_guid guid i id [] h = refl
guid_at-set_guid guid i id (r ∷ rows) h = elim (Bool-cases (r.id == id)) [
  | inl here ↦ rw here (ground (arith, guid_at-set_guid guid i id rows, h))
  | inr away ↦ rw away (ground (arith, guid_at-set_guid guid i id rows, h))
]

pub set_guid-IsTagTable :
    (guid : String) (id : ℕ) (rows : List GroupRow)
    → IsTagTable rows
    → guid_at id rows ≡ some none
    → row_with_guid guid rows ≡ none
    → IsTagTable (set_guid (some guid) id rows)
unfolding row_with_guid set_guid
set_guid-IsTagTable guid id [] t blank fresh = tt
set_guid-IsTagTable guid id (r ∷ rows) t blank fresh = elim (Bool-cases (r.id == id)) [
  | inl here ↦
      let gone : guid_at id rows ≡ none =
        subst (λ i. guid_at i rows ≡ none) ((==_iff r.id id).0 here) t.0 in
      rw (here, set_guid-absent (some guid) id rows gone)
        (
          t.0,
          λ g e.
              let same : guid ≡ g = ground (arith, e) in
              let bare : row_with_guid guid rows ≡ none = ground (arith, here, blank, fresh) in
              subst (λ k. row_with_guid k rows ≡ none) same bare,
          t.2,
        )
  | inr away ↦ rw away (
    guid_at-set_guid (some guid) r.id id rows t.0,
    λ g e. ground (
      arith,
      row_with_guid-set_guid guid g id rows t.2 (ground arith) (ground arith),
      t.1 g e,
      eq_iff guid g,
      eq_iff g guid,
      fresh,
      e,
    ),
    set_guid-IsTagTable guid id rows t.2 (ground arith) (ground arith),
  )
]

-- Without the row with an id.
abbrev pub unless_id : ℕ → Option ℕ → Option ℕ
unless_id id none = none
unless_id id (some j) = if j == id then none else some j

pub row_with_guid-clear :
    (g : String) (id : ℕ) (rows : List GroupRow)
    → IsTagTable rows
    → row_with_guid g (set_guid none id rows) ≡ unless_id id (row_with_guid g rows)
unfolding row_with_guid set_guid
row_with_guid-clear g id [] t = refl
row_with_guid-clear g id (r ∷ rows) t = elim (Bool-cases (r.id == id)) [
  | inl here ↦
      let same : r.id ≡ id = (==_iff r.id id).0 here in
      let gone : guid_at id rows ≡ none = subst (λ i. guid_at i rows ≡ none) same t.0 in
      rw (here, set_guid-absent none id rows gone)
        (ground (
          arith,
          λ (e : has_guid g r.guid ≡ true). t.1 g (has_guid-eq g r.guid e),
          here,
          λ (e : row_with_guid g rows ≡ some id). guid_at-row_with_guid g id rows t.2 e,
          ==_iff r.id id,
          gone,
        ))
  | inr away ↦ ground (arith, away, row_with_guid-clear g id rows t.2)
]

pub clear-IsTagTable :
    (id : ℕ) (rows : List GroupRow) → IsTagTable rows → IsTagTable (set_guid none id rows)
unfolding set_guid
clear-IsTagTable id [] t = tt
clear-IsTagTable id (r ∷ rows) t = elim (Bool-cases (r.id == id)) [
  | inl here ↦ rw here (
    guid_at-set_guid none r.id id rows t.0,
    λ g e. absurd (ground arith),
    clear-IsTagTable id rows t.2,
  )
  | inr away ↦ rw away (
    guid_at-set_guid none r.id id rows t.0,
    λ g e. row_with_guid-clear g id rows t.2 ∙ ap (unless_id id) (t.1 g e),
    clear-IsTagTable id rows t.2,
  )
]
