-- ===== src/Store/DestinationRows.antt =====
-- The rows of the destinations table (destination.go): which row a key has, and what an insert and a
-- delete change.
use cf_networking_release.Prelude.{
  ℕ, suc, pos, ◌<◌, ◌≡◌, ◌≢◌, refl, ap, sym, ◌∙◌, Bool, true, false, ◌&&◌, not, Option, none, some,
  List, [], ◌∷◌, ◌++◌, ◌==◌, ==_iff, arith, inl, inr, ◌⊎◌, Bool-cases, str_eq, eq_iff,
  if◌then◌else◌, keep_if, length,
}
use cf_networking_release.Prelude.Int.{eq_ℤ, eq_ℤ_iff}
use mathlib.Core.Path.{subst}
use mathlib.Core.Bool.{false≢true}
use cf_networking_release.Store.Tables.{DestinationRow}
use cf_networking_release.Store.Destinations.{
  Key, in_constraint, has_key, row_with_key, violates, row_of,
}
use cf_networking_release.Store.GroupRows.{unless_id}

abbrev pub key_of : DestinationRow → Key
key_of r = record {
  group_id = r.group_id;
  port = r.port;
  start_port = r.start_port;
  end_port = r.end_port;
  protocol = r.protocol;
}

pub and_true : (a b : Bool) → (a && b) ≡ true → (a ≡ true) × (b ≡ true)
and_true a b h = ground arith

pub has_key-eq : (k : Key) (r : DestinationRow) → has_key k r ≡ true → key_of r ≡ k
has_key-eq k r h =
    let (c, port) = and_true (in_constraint k r) _ h in
    let (c, protocol) = and_true _ (str_eq r.protocol k.protocol) c in
    let (c, last) = and_true _ (eq_ℤ r.end_port k.end_port) c in
    let (group, first) = and_true _ (eq_ℤ r.start_port k.start_port) c in
    λ i. record {
      group_id = (==_iff r.group_id k.group_id).0 group i;
      port = (eq_ℤ_iff r.port k.port).0 port i;
      start_port = (eq_ℤ_iff r.start_port k.start_port).0 first i;
      end_port = (eq_ℤ_iff r.end_port k.end_port).0 last i;
      protocol = (eq_iff r.protocol k.protocol).0 protocol i;
    }

pub has_key_refl : (k : Key) (id : ℕ) → has_key k (row_of id k) ≡ true
has_key_refl k id =
    rw
      (
        (==_iff k.group_id k.group_id).1 refl,
        (eq_ℤ_iff k.start_port k.start_port).1 refl,
        (eq_ℤ_iff k.end_port k.end_port).1 refl,
        (eq_ℤ_iff k.port k.port).1 refl,
        (eq_iff k.protocol k.protocol).1 refl,
      )
      refl

-- The single port that goes with a range: its port if it has one, and 0 otherwise.
abbrev pub IsCanonicalKey : Key → Type 0
IsCanonicalKey k = k.port ≡ (if eq_ℤ k.start_port k.end_port then k.start_port else pos 0)

-- The key of the row with an id.
abbrev pub key_at : ℕ → List DestinationRow → Option Key
key_at id [] = none
key_at id (r ∷ rows) = if r.id == id then some (key_of r) else key_at id rows

-- No id and no key stands twice, every row is canonical, and every id is below the next one.
abbrev pub IsDestinationTable : ℕ → List DestinationRow → Type 0
IsDestinationTable next [] = Unit
IsDestinationTable next (r ∷ rows) =
    (key_at r.id rows ≡ none)
    × (row_with_key (key_of r) rows ≡ none)
    × IsCanonicalKey (key_of r)
    × (r.id < next)
    × IsDestinationTable next rows

-- The row that a key has is the first, or one of the others.
pub found-cons :
    (k : Key) (id : ℕ) (r : DestinationRow) (rows : List DestinationRow)
    → row_with_key k (r ∷ rows) ≡ some id
    → ((key_of r ≡ k) × (r.id ≡ id)) ⊎ (row_with_key k rows ≡ some id)
unfolding row_with_key
found-cons k id r rows h = split (has_key k r) refl h
  where
    split :
        (b : Bool)
        → has_key k r ≡ b
        → (if b then some r.id else row_with_key k rows) ≡ some id
        → ((key_of r ≡ k) × (r.id ≡ id)) ⊎ (row_with_key k rows ≡ some id)
    split true here e = inl (has_key-eq k r here, ground (arith, e))
    split false away e = inr e

pub key_at-row_with_key :
    (next : ℕ) (k : Key) (id : ℕ) (rows : List DestinationRow)
    → IsDestinationTable next rows
    → row_with_key k rows ≡ some id
    → key_at id rows ≡ some k
unfolding row_with_key
key_at-row_with_key next k id [] t h = absurd (ground arith)
key_at-row_with_key next k id (r ∷ rows) t h = elim (found-cons k id r rows h) [
  | inl (key, same) ↦ rw ((==_iff r.id id).1 same) (ap some key)
  | inr later ↦
      let at : key_at id rows ≡ some k = key_at-row_with_key next k id rows (t.4) later in
      elim (Bool-cases (r.id == id)) [
        | inl twice ↦
            let gone : key_at id rows ≡ none =
              subst (λ i. key_at i rows ≡ none) ((==_iff r.id id).0 twice) t.0 in
            absurd (ground (arith, at, gone))
        | inr other ↦ rw (other, at) refl
      ]
]

pub fresh_id :
    (next : ℕ) (k : Key) (id : ℕ) (rows : List DestinationRow)
    → IsDestinationTable next rows
    → row_with_key k rows ≡ some id
    → id < next
unfolding row_with_key
fresh_id next k id [] t h = absurd (ground arith)
fresh_id next k id (r ∷ rows) t h = elim (found-cons k id r rows h) [
  | inl (key, same) ↦ omega (arith, t.3, same)
  | inr later ↦ fresh_id next k id rows (t.4) later
]

same_port :
    (k : Key) (r : DestinationRow)
    → IsCanonicalKey k
    → IsCanonicalKey (key_of r)
    → in_constraint k r ≡ true
    → has_key k r ≡ true
same_port k r canonical stored h =
    let (c, protocol) = and_true _ (str_eq r.protocol k.protocol) h in
    let (c, last) = and_true _ (eq_ℤ r.end_port k.end_port) c in
    let (group, first) = and_true _ (eq_ℤ r.start_port k.start_port) c in
    let port : r.port ≡ k.port =
      stored
      ∙ ap (λ a. if eq_ℤ a r.end_port then a else pos 0)
          ((eq_ℤ_iff r.start_port k.start_port).0 first)
      ∙ ap (λ b. if eq_ℤ k.start_port b then k.start_port else pos 0)
          ((eq_ℤ_iff r.end_port k.end_port).0 last)
      ∙ sym canonical in
    rw (h, (eq_ℤ_iff r.port k.port).1 port) refl

absent-cons :
    (k : Key) (r : DestinationRow) (rows : List DestinationRow)
    → row_with_key k (r ∷ rows) ≡ none
    → (has_key k r ≡ false) × (row_with_key k rows ≡ none)
unfolding row_with_key
absent-cons k r rows h = split (has_key k r) h
  where
    split :
        (b : Bool)
        → (if b then some r.id else row_with_key k rows) ≡ none
        → (b ≡ false) × (row_with_key k rows ≡ none)
    split true e = absurd (ground (arith, e))
    split false e = (refl, e)

-- For canonical keys the constraint refuses only a key that has a row.
pub not-violates :
    (next : ℕ) (k : Key) (rows : List DestinationRow)
    → IsDestinationTable next rows
    → IsCanonicalKey k
    → row_with_key k rows ≡ none
    → violates k rows ≡ false
unfolding violates
not-violates next k [] t canonical h = refl
not-violates next k (r ∷ rows) t canonical h =
    let (bare, rest) = absent-cons k r rows h in
    let away : in_constraint k r ≡ false = elim (Bool-cases (in_constraint k r)) [
      | inl here ↦ absurd (false≢true (sym bare ∙ same_port k r canonical (t.2) here))
      | inr away ↦ away
    ] in
    rw away (not-violates next k rows (t.4) canonical rest)

pub row_with_key-append :
    (k l : Key) (id : ℕ) (rows : List DestinationRow)
    → row_with_key k rows ≡ none
    → row_with_key l (rows ++ row_of id k ∷ [])
      ≡ (if has_key l (row_of id k) then some id else row_with_key l rows)
unfolding row_with_key
row_with_key-append k l id [] h = refl
row_with_key-append k l id (r ∷ rows) h =
    let (bare, rest) = absent-cons k r rows h in
    elim (Bool-cases (has_key l r)) [
      | inr away ↦ rw away (row_with_key-append k l id rows rest)
      | inl here ↦ elim (Bool-cases (has_key l (row_of id k))) [
        | inr other ↦ rw (here, other) refl
        | inl same ↦
            let bare_l : has_key l r ≡ false =
              subst (λ m. has_key m r ≡ false) (has_key-eq l (row_of id k) same) bare in
            absurd (false≢true (sym bare_l ∙ here))
      ]
    ]

key_at-append :
    (k : Key) (i id : ℕ) (rows : List DestinationRow)
    → key_at i rows ≡ none
    → (i < id)
    → key_at i (rows ++ row_of id k ∷ []) ≡ none
key_at-append k i id [] h below = ground (arith, below)
key_at-append k i id (r ∷ rows) h below = elim (Bool-cases (r.id == i)) [
  | inl here ↦ absurd (ground (arith, h, here))
  | inr away ↦ rw away (key_at-append k i id rows (ground (arith, h, away)) below)
]

-- A new canonical key in the row with the next id.
pub append-IsDestinationTable :
    (k : Key) (next : ℕ) (rows : List DestinationRow)
    → IsDestinationTable next rows
    → IsCanonicalKey k
    → row_with_key k rows ≡ none
    → IsDestinationTable (suc next) (rows ++ row_of next k ∷ [])
unfolding row_with_key
append-IsDestinationTable k next [] t canonical h = (refl, refl, canonical, omega arith, tt)
append-IsDestinationTable k next (r ∷ rows) t canonical h =
    let (bare, rest) = absent-cons k r rows h in
    let other : has_key (key_of r) (row_of next k) ≡ false =
      elim (Bool-cases (has_key (key_of r) (row_of next k))) [
        | inr other ↦ other
        | inl same ↦
            let mine : has_key k r ≡ true =
              subst (λ l. has_key l r ≡ true) (sym (has_key-eq (key_of r) (row_of next k) same))
                (has_key_refl (key_of r) 0) in
            absurd (false≢true (sym bare ∙ mine))
      ] in
    (
      key_at-append k r.id next rows (t.0) (t.3),
      row_with_key-append k (key_of r) next rows rest ∙ rw (other, t.1) refl,
      t.2,
      omega (arith, t.3),
      append-IsDestinationTable k next rows (t.4) canonical rest,
    )

-- DELETE FROM destinations WHERE id = ?
abbrev pub without_id : ℕ → List DestinationRow → List DestinationRow
without_id id rows = keep_if (λ r. not (r.id == id)) rows

key_at-delete :
    (i id : ℕ) (rows : List DestinationRow)
    → key_at i rows ≡ none
    → key_at i (without_id id rows) ≡ none
unfolding keep_if
key_at-delete i id [] h = refl
key_at-delete i id (r ∷ rows) h = elim (Bool-cases (r.id == i)) [
  | inl mine ↦ absurd (ground (arith, h, mine))
  | inr other ↦
      let rest : key_at i (without_id id rows) ≡ none =
        key_at-delete i id rows
          (subst (λ b. (if b then some (key_of r) else key_at i rows) ≡ none) other h) in
      elim (Bool-cases (r.id == id)) [ inl here ↦ rw here rest | inr away ↦ rw (away, other) rest ]
]

pub row_with_key-delete :
    (k : Key) (next id : ℕ) (rows : List DestinationRow)
    → IsDestinationTable next rows
    → row_with_key k (without_id id rows) ≡ unless_id id (row_with_key k rows)
unfolding keep_if row_with_key
row_with_key-delete k next id [] t = refl
row_with_key-delete k next id (r ∷ rows) t = elim (Bool-cases (r.id == id)) [
  | inl here ↦ elim (Bool-cases (has_key k r)) [
    | inl mine ↦
        let gone : row_with_key k rows ≡ none =
          subst (λ l. row_with_key l rows ≡ none) (has_key-eq k r mine) (t.1) in
        rw (here, mine, row_with_key-delete k next id rows (t.4), gone, here) refl
    | inr other ↦ rw (here, other) (row_with_key-delete k next id rows (t.4))
  ]
  | inr away ↦ elim (Bool-cases (has_key k r)) [
    | inl mine ↦ rw (away, mine, away) refl
    | inr other ↦ rw (away, other) (row_with_key-delete k next id rows (t.4))
  ]
]

pub delete-IsDestinationTable :
    (next id : ℕ) (rows : List DestinationRow)
    → IsDestinationTable next rows
    → IsDestinationTable next (without_id id rows)
unfolding keep_if
delete-IsDestinationTable next id [] t = tt
delete-IsDestinationTable next id (r ∷ rows) t = elim (Bool-cases (r.id == id)) [
  | inl here ↦ rw here (delete-IsDestinationTable next id rows (t.4))
  | inr away ↦ rw away (
    key_at-delete r.id id rows (t.0),
    row_with_key-delete (key_of r) next id rows (t.4) ∙ ap (unless_id id) (t.1),
    t.2,
    t.3,
    delete-IsDestinationTable next id rows (t.4),
  )
]

pub keep_if-cons-0 :
    {A : Type 0} (b : Bool) (x : A) (rest : List A)
    → length (if b then x ∷ rest else rest) ≡ 0
    → (b ≡ false) × (length rest ≡ 0)
keep_if-cons-0 true x rest h = absurd (ground (arith, h))
keep_if-cons-0 false x rest h = (refl, h)

-- A group that no row is counted for has no destination.
pub not-counted :
    (k : Key) (id g : ℕ) (rows : List DestinationRow)
    → length (keep_if (λ r. r.group_id == g) rows) ≡ 0
    → row_with_key k rows ≡ some id
    → k.group_id ≢ g
unfolding keep_if row_with_key
not-counted k id g [] c h e = absurd (ground (arith, h))
not-counted k id g (r ∷ rows) c h e =
    let (other, rest) =
      keep_if-cons-0 (r.group_id == g) r (keep_if (λ r. r.group_id == g) rows) c in
    elim (found-cons k id r rows h) [
      | inl (key, same) ↦
          let mine : (r.group_id == g) ≡ true =
            (==_iff r.group_id g).1 (ap (λ l. l.group_id) key ∙ e) in
          false≢true (sym other ∙ mine)
      | inr later ↦ not-counted k id g rows rest later e
    ]
