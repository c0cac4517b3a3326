-- ===== src/Chunk/Laws.antt =====
-- Chunks keep every element in order, and none is empty or too long.
use Prim.Native.Nat.{min}
use mathlib.Core.Path.{fun_ext}
use native.Mathlib.Nat.{zero-add, suc-add, zero-min, min-zero, suc-min-suc}
use cf_networking_release.Prelude.Int.{ltb_ℤ, pos_part}
use cf_networking_release.Prelude.{
  ℕ, zero, suc, ◌+◌, ◌-◌, ◌≤◌, ◌<◌, ◌≡◌, refl, sym, ap, ◌∙◌, List, [], ◌∷◌, ◌++◌, ℤ, pos, length,
  take, drop, ltb, if◌then◌else◌, Bool-cases, inl, inr, arith, concat, All, length-take,
  length-drop, take-append-drop, ltb→lt, not_ltb→le,
}
use cf_networking_release.Chunk.{slice, slices, chunk, get_chunks, get_chunk_size, last_of}

module _ {ℓ} {A : Type ℓ} where
  drop-nil : (n : ℕ) → drop {A = A} n [] ≡ []
  drop-nil zero = refl
  drop-nil (suc n) = refl

  drop-drop : (i k : ℕ) (xs : List A) → drop k (drop i xs) ≡ drop (i + k) xs
  drop-drop zero k xs = rw zero-add
  drop-drop (suc i) k [] = rw (drop-nil k, drop-nil (suc i + k))
  drop-drop (suc i) k (x ∷ xs) = rw (suc-add i k) (drop-drop i k xs)

  take-min : (n : ℕ) (xs : List A) → take (min n (length xs)) xs ≡ take n xs
  take-min zero xs = rw (zero-min (length xs))
  take-min (suc n) [] = rw (min-zero (suc n))
  take-min (suc n) (x ∷ xs) = rw (suc-min-suc n (length xs)) (ap (λ t. x ∷ t) (take-min n xs))

  -- The slice that a pass takes is the next `size` elements, or what is left of them.
  slice-take :
      (size i : ℕ) (xs : List A)
      → i < length xs
      → slice xs i (min (length xs) (i + size)) ≡ take size (drop i xs)
  slice-take size i xs h =
      ap (λ n. take n (drop i xs)) (omega (arith, length-drop i xs)) ∙ take-min size (drop i xs)

  slice-append-drop :
      (size i : ℕ) (xs : List A)
      → i < length xs
      → slice xs i (min (length xs) (i + size)) ++ drop (i + size) xs ≡ drop i xs
  slice-append-drop size i xs h =
      rw (slice-take size i xs h, ← drop-drop i size xs) (take-append-drop size (drop i xs))

  drop_past : (n : ℕ) (xs : List A) → length xs ≤ n → drop n xs ≡ []
  drop_past zero [] h = refl
  drop_past zero (x ∷ xs) h = absurd (omega arith)
  drop_past (suc n) [] h = refl
  drop_past (suc n) (x ∷ xs) h = drop_past n xs (omega arith)

  concat-slices :
      (fuel size : ℕ) (xs : List A) (i : ℕ)
      → 0 < size
      → length xs ≤ i + fuel
      → concat (slices fuel (λ i. min (length xs) (i + size)) size xs i) ≡ drop i xs
  unfolding slices
  concat-slices zero size xs i h enough = sym (drop_past i xs (omega arith))
  concat-slices (suc fuel) size xs i h enough = elim (Bool-cases (ltb i (length xs))) [
    | inl more ↦
        rw (more, concat-slices fuel size xs (i + size) h (omega arith))
          (slice-append-drop size i xs (ltb→lt _ _ more))
    | inr done ↦ rw done (sym (drop_past i xs (ground arith)))
  ]

  -- Of a chunk: not empty, and at most `size` long.
  abbrev pub Fits : ℕ → List A → Type 0
  Fits size c = (0 < length c) × (length c ≤ size)

  slices-Fits :
      (fuel size : ℕ) (xs : List A) (i : ℕ)
      → 0 < size
      → All (Fits size) (slices fuel (λ i. min (length xs) (i + size)) size xs i)
  unfolding slices
  slices-Fits zero size xs i h = tt
  slices-Fits (suc fuel) size xs i h = elim (Bool-cases (ltb i (length xs))) [
    | inl more ↦ rw more (slice-Fits (ltb→lt _ _ more), slices-Fits fuel size xs (i + size) h)
    | inr done ↦ rw done tt
  ]
    where
      slice-Fits : i < length xs → Fits size (slice xs i (min (length xs) (i + size)))
      slice-Fits m = (
        omega (arith, length-take (min (length xs) (i + size) - i) (drop i xs), length-drop i xs),
        omega (arith, length-take (min (length xs) (i + size) - i) (drop i xs), length-drop i xs),
      )

get_chunk_size-pos : (n : ℤ) → 0 < get_chunk_size n
unfolding get_chunk_size
get_chunk_size-pos n = ground arith

last_of-min {ℓ} :
    {A : Type ℓ} (xs : List A) (size i : ℕ) → last_of xs size i ≡ min (length xs) (i + size)
unfolding last_of
last_of-min xs size i = ground (arith, min_lem)
  where
    min_lem : last_of xs size i ≡ min (length xs) (i + size)
    min_lem = elim (Bool-cases (ltb (length xs) (i + size))) [
      | inl over ↦ rw (over, last_of) (omega (arith, ltb→lt _ _ over))
      | inr fits ↦ rw (fits, last_of) (omega (arith, not_ltb→le _ _ fits))
    ]

-- The chunks hold the policies in order, every one once, and each has between one and the chunk
-- size of them, where 100 stands for a size that is not positive.
pub concat-chunk {ℓ} :
    {A : Type ℓ} (size : ℤ) (xs : List A)
    → (concat (chunk size xs) ≡ xs) × All (Fits (get_chunk_size size)) (chunk size xs)
unfolding chunk
concat-chunk size xs = (
  concat-slices (length xs) (get_chunk_size size) xs 0 (get_chunk_size-pos size) (omega arith),
  slices-Fits (length xs) (get_chunk_size size) xs 0 (get_chunk_size-pos size),
)

-- `get_chunks` cuts any list exactly as `chunk` does.
pub get_chunks-eq-chunk {ℓ} :
    {A : Type ℓ} (xs : List A) (size : ℤ) → get_chunks xs size ≡ chunk size xs
unfolding get_chunks chunk get_chunk_size
get_chunks-eq-chunk xs size =
    ap (λ n. slices (length xs) (last_of xs n) n xs 0) sizes
    ∙ ap (λ f. slices (length xs) f (get_chunk_size size) xs 0)
        (fun_ext (last_of-min xs (get_chunk_size size)))
  where
    sizes : (if ltb_ℤ size (pos 1) then 100 else pos_part size) ≡ get_chunk_size size
    sizes = ground arith
