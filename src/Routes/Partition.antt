-- ===== src/Routes/Partition.antt =====
-- The parts of PartitionRange (runner.go), beside the routes of the whole range.
use cf_networking_release.Prelude.{
  ℕ, zero, suc, ◌+◌, ◌-◌, ◌%◌, ◌≤◌, ◌<◌, ◌≡◌, refl, ap, sym, ◌∙◌, List, [], ◌∷◌, ◌++◌, ◌==◌, ltb,
  leb, true, inl, inr, Bool-cases, arith, ltb→lt, not_ltb→le,
}
use native.Mathlib.Nat.{mod-eq_of_lt, mod-eq-sub-mod}
use cf_networking_release.Routes.{steps, set_last, partition_range, route_numbers}

-- The routes of the jobs between each bound and the next one.
unfoldable pub routes_of_parts : List ℕ → List ℕ
routes_of_parts [] = []
routes_of_parts (a ∷ []) = []
routes_of_parts (a ∷ b ∷ bounds) = route_numbers (b - a) a ++ routes_of_parts (b ∷ bounds)

route_numbers_split :
    (a b i : ℕ) → route_numbers (a + b) i ≡ route_numbers a i ++ route_numbers b (i + a)
unfolding route_numbers
route_numbers_split zero b i =
    ap (λ n. route_numbers n i) (omega arith) ∙ ap (route_numbers b) (omega arith)
route_numbers_split (suc a) b i =
    let later : suc a + b ≡ suc (a + b) = omega arith in
    ap (λ n. route_numbers n i) later
    ∙ ap (λ xs. i ∷ xs)
        (route_numbers_split a b (suc i)
          ∙ ap (λ j. route_numbers a (suc i) ++ route_numbers b j) (omega arith))

-- The loop gives its first number as long as it is not past the end.
steps-now :
    (fuel i end size : ℕ)
    → i ≤ end
    → steps (suc fuel) i end size ≡ i ∷ steps fuel (i + size) end size
unfolding steps
steps-now fuel i end size h = rw (le→leb h) refl
  where
    le→leb : i ≤ end → leb i end ≡ true
    le→leb h = ground arith

steps-past : (fuel i end size : ℕ) → end < i → steps fuel i end size ≡ []
unfolding steps
steps-past zero i end size h = refl
steps-past (suc fuel) i end size h = ground arith

no_routes : (xs : List ℕ) → xs ++ [] ≡ xs
no_routes [] = refl
no_routes (x ∷ xs) = ap (λ ys. x ∷ ys) (no_routes xs)

steps-one : (fuel i end size : ℕ) → i ≤ end → end < i + size → steps (suc fuel) i end size ≡ i ∷ []
steps-one fuel i end size h past =
    steps-now fuel i end size h ∙ ap (λ xs. i ∷ xs) (steps-past fuel (i + size) end size past)

set_last-one :
    (fuel i end size : ℕ)
    → i ≤ end
    → end < i + size
    → set_last end (steps (suc fuel) i end size) ≡ end ∷ []
unfolding set_last
set_last-one fuel i end size h past = ap (set_last end) (steps-one fuel i end size h past)

-- The first two bounds, with the end set last.
set_last-two :
    (fuel i end size : ℕ)
    → i + size ≤ end
    → set_last end (steps (suc (suc fuel)) i end size)
      ≡ i ∷ set_last end (steps (suc fuel) (i + size) end size)
unfolding set_last
set_last-two fuel i end size h =
    rw (steps-now (suc fuel) i end size (omega (arith, h)), steps-now fuel (i + size) end size h)
      refl

-- From a start that lies a part or more before the end, the parts with the end set last are all its
-- routes.
steps-covers :
    (fuel i d end size : ℕ)
    → end ≡ i + d
    → 0 < size
    → size ≤ d
    → d < fuel
    → (bounds : List ℕ) × (set_last end (steps fuel i end size) ≡ i ∷ bounds)
      × (routes_of_parts (i ∷ bounds) ≡ route_numbers d i)
unfolding routes_of_parts
steps-covers zero i d end size e positive small enough = absurd (omega (arith, enough))
steps-covers (suc zero) i d end size e positive small enough =
    absurd (omega (arith, enough, positive, small))
steps-covers (suc (suc fuel)) i d end size e positive small enough =
    elim (Bool-cases (ltb (d - size) size)) [
      | inl near ↦ (
        end ∷ [],
        set_last-two fuel i end size (omega (arith, e, small))
            ∙ ap (λ xs. i ∷ xs)
                (set_last-one fuel (i + size) end size (omega (arith, e, small))
                  (omega (arith, e, ltb→lt (d - size) size near))),
        no_routes (route_numbers (end - i) i) ∙ ap (λ n. route_numbers n i) (omega (arith, e)),
      )
      | inr far ↦
          let (bounds, ran, covers) =
            steps-covers (suc fuel) (i + size) (d - size) end size (omega (arith, e, small))
              positive (not_ltb→le (d - size) size far) (omega (arith, enough, positive, small)) in
          (
            (i + size) ∷ bounds,
            set_last-two fuel i end size (omega (arith, e, small)) ∙ ap (λ xs. i ∷ xs) ran,
            ap (λ n. route_numbers n i ++ routes_of_parts ((i + size) ∷ bounds)) (omega arith)
                ∙ ap (λ xs. route_numbers size i ++ xs) covers
                ∙ sym (route_numbers_split size (d - size) i)
                ∙ ap (λ n. route_numbers n i) (omega (arith, small)),
          )
    ]

-- The only bound, when the end is less than a part away and a whole number of parts.
set_last-whole :
    (fuel i d end size : ℕ)
    → end ≡ i + d
    → d < size
    → d % size ≡ 0
    → set_last end (steps (suc fuel) i end size) ≡ steps (suc fuel) i end size
set_last-whole fuel i d end size e last whole =
    set_last-one fuel i end size (omega (arith, e)) (omega (arith, e, last))
    ∙ ap (λ x. x ∷ []) (omega (arith, e, sym (mod-eq_of_lt last) ∙ whole))
    ∙ sym (steps-one fuel i end size (omega (arith, e)) (omega (arith, e, last)))

set_last-same :
    (fuel i d end size : ℕ)
    → end ≡ i + d
    → 0 < size
    → d % size ≡ 0
    → d < fuel
    → set_last end (steps fuel i end size) ≡ steps fuel i end size
set_last-same zero i d end size e positive whole enough = absurd (omega (arith, enough))
set_last-same (suc zero) i d end size e positive whole enough =
    set_last-whole 0 i d end size e (omega (arith, positive, enough)) whole
set_last-same (suc (suc fuel)) i d end size e positive whole enough =
    elim (Bool-cases (ltb d size)) [
      | inl last ↦ set_last-whole (suc fuel) i d end size e (ltb→lt d size last) whole
      | inr more ↦
          let small : size ≤ d = not_ltb→le d size more in
          set_last-two fuel i end size (omega (arith, e, small))
          ∙ ap (λ xs. i ∷ xs)
              (set_last-same (suc fuel) (i + size) (d - size) end size (omega (arith, e, small))
                positive (sym (mod-eq-sub-mod small) ∙ whole)
                (omega (arith, enough, positive, small)))
          ∙ sym (steps-now (suc fuel) i end size (omega (arith, e)))
    ]

-- For a size that is not 0 and at most the whole range, the parts of PartitionRange have every route
-- of the range once and in order.
pub partition_range-covers :
    (start end size : ℕ)
    → start ≤ end
    → 0 < size
    → size ≤ end - start
    → routes_of_parts (partition_range start end size) ≡ route_numbers (end - start) start
unfolding partition_range routes_of_parts
partition_range-covers start end size ordered positive small =
    let (bounds, ran, covers) =
      steps-covers (suc (end - start)) start (end - start) end size (omega (arith, ordered))
        positive small (omega arith) in
    elim (Bool-cases (size == (end - start))) [
      | inl one ↦ rw one (no_routes (route_numbers (end - start) start))
      | inr several ↦ elim (Bool-cases (ltb 0 ((end - start) % size))) [
        | inl rest ↦ rw (several, rest) (ap routes_of_parts ran ∙ covers)
        | inr whole ↦
            let same =
              set_last-same (suc (end - start)) start (end - start) end size
                (omega (arith, ordered)) positive
                (omega (arith, not_ltb→le 0 ((end - start) % size) whole)) (omega arith) in
            rw (several, whole) (ap routes_of_parts (sym same ∙ ran) ∙ covers)
      ]
    ]
