-- ===== src/Assoc.antt =====
-- A Go map as an association list over any type of keys that can be compared. The list is the order
-- in which a `range` loop visits the map; Go leaves that order open, and so do the theorems that
-- hold of every list.
use cf_networking_release.Prelude.{
  ℕ, ◌==◌, ==_iff, String, str_eq, eq_iff, ◌≡◌, refl, ◌↔◌, Bool, true, false, Option, none, some,
  List, [], ◌∷◌, ◌∙◌, ap, Bool-cases, inl, inr, if◌then◌else◌, arith,
}

pub record Eq {ℓ} (A : Type ℓ) : Type ℓ where
  pub beq : A → A → Bool
  pub beq_iff : (a b : A) → (beq a b ≡ true) ↔ (a ≡ b)

instance abbrev pub nat_eq : Eq ℕ
nat_eq = record { beq = ◌==◌; beq_iff = ==_iff }

instance abbrev pub string_eq : Eq String
string_eq = record { beq = str_eq; beq_iff = eq_iff }

module _ {ℓ κ} {K : Type ℓ} {V : Type κ} ⦃e : Eq K⦄ where
  -- v, ok := m[k]
  unfoldable pub lookup : K → List (K × V) → Option V
  lookup k [] = none
  lookup k ((j, v) ∷ m) = if e.beq j k then some v else lookup k m

  -- m[k] = v
  unfoldable pub put : K → V → List (K × V) → List (K × V)
  put k v [] = (k, v) ∷ []
  put k v ((j, w) ∷ m) = let rest = put k v m in if e.beq j k then (k, v) ∷ m else (j, w) ∷ rest

  -- delete(m, k)
  unfoldable pub remove : K → List (K × V) → List (K × V)
  remove k [] = []
  remove k ((j, v) ∷ m) = let rest = remove k m in if e.beq j k then rest else (j, v) ∷ rest

  pub lookup-put :
      (k j : K) (v : V) (m : List (K × V))
      → lookup j (put k v m) ≡ (if e.beq k j then some v else lookup j m)
  unfolding lookup put
  lookup-put k j v [] = refl
  lookup-put k j v ((i, w) ∷ m) =
      ground (arith, e.beq_iff k j, e.beq_iff i k, e.beq_iff i j, lookup-put k j v m)

  pub lookup-remove :
      (k j : K) (m : List (K × V))
      → lookup j (remove k m) ≡ (if e.beq k j then none else lookup j m)
  unfolding lookup remove
  lookup-remove k j [] = ground arith
  lookup-remove k j ((i, w) ∷ m) =
      ground (arith, e.beq_iff k j, e.beq_iff i k, e.beq_iff i j, lookup-remove k j m)

-- Drops a value that passes the test.
abbrev pub unless_test {κ} : {V : Type κ} → (V → Bool) → Option V → Option V
unless_test test none = none
unless_test test (some v) = if test v then none else some v

-- `for k, v := range m { if test(v) { delete(m, k) } }`
module _ {ℓ κ} {K : Type ℓ} {V : Type κ} where
  unfoldable pub delete_if : (V → Bool) → List (K × V) → List (K × V)
  delete_if test [] = []
  delete_if test ((k, v) ∷ m) =
      let rest = delete_if test m in if test v then rest else (k, v) ∷ rest

module _ {ℓ κ} {K : Type ℓ} {V : Type κ} ⦃e : Eq K⦄ where
  -- No key stands twice.
  abbrev pub IsMap : List (K × V) → Type κ
  IsMap [] = Unit
  IsMap ((k, v) ∷ m) = (lookup k m ≡ none) × IsMap m

  pub put-IsMap : (k : K) (v : V) (m : List (K × V)) → IsMap m → IsMap (put k v m)
  unfolding put lookup
  put-IsMap k v [] h = (refl, tt)
  put-IsMap k v ((j, w) ∷ m) h = elim (Bool-cases (e.beq j k)) [
    | inl hit ↦ rw hit (rw (← (e.beq_iff j k).0 hit) h.0, h.1)
    | inr miss ↦ rw miss (
      lookup-put k j v m ∙ ground (arith, h.0, e.beq_iff j k, e.beq_iff k j),
      put-IsMap k v m h.1,
    )
  ]

  pub lookup-delete_if :
      (test : V → Bool) (k : K) (m : List (K × V))
      → IsMap m
      → lookup k (delete_if test m) ≡ unless_test test (lookup k m)
  unfolding lookup delete_if
  lookup-delete_if test k [] h = refl
  lookup-delete_if test k ((j, v) ∷ m) h =
      ground (arith, lookup-delete_if test k m h.1, e.beq_iff j k, h.0)

  IsMap-if :
      (b : Bool) (k : K) (v : V) (m : List (K × V))
      → lookup k m ≡ none
      → IsMap m
      → IsMap (if b then m else (k, v) ∷ m)
  IsMap-if true k v m fresh h = h
  IsMap-if false k v m fresh h = (fresh, h)

  pub delete_if-IsMap : (test : V → Bool) (m : List (K × V)) → IsMap m → IsMap (delete_if test m)
  unfolding delete_if
  delete_if-IsMap test [] h = tt
  delete_if-IsMap test ((j, v) ∷ m) h =
      IsMap-if (test v) j v (delete_if test m)
        (lookup-delete_if test j m h.1 ∙ ap (unless_test test) h.0) (delete_if-IsMap test m h.1)
