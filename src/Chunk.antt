-- ===== src/Chunk.antt =====
-- The loops that cut a list into chunks for bounded requests: SimpleChunker of
-- src/lib/policy_client/chunker.go, and the two getChunks of
-- src/policy-server/handlers/policy_filter.go and src/policy-server/cleaner/policy_cleaner.go.
pub mod Laws
use Prim.Native.Nat.{min}
use cf_networking_release.Prelude.{
  ℕ, zero, suc, ◌+◌, ◌-◌, ◌≤◌, ◌≡◌, refl, List, [], ◌∷◌, ℤ, pos, negsuc, length, take, drop, ltb,
  if◌then◌else◌,
}
use cf_networking_release.Prelude.Int.{leb_ℤ, ltb_ℤ, pos_part}

abbrev pub default_max_policies : ℕ
default_max_policies = 100

module _ {ℓ} {A : Type ℓ} where
  -- xs[from:to]
  abbrev pub slice : List A → ℕ → ℕ → List A
  slice xs from to = take (to - from) (drop from xs)

  -- `for i := 0; i < len(xs); i += size { chunks = append(chunks, xs[i:last(i)]) }`, on fuel. A
  -- pass moves on by at least one, so the length of the list is fuel enough.
  pub slices : ℕ → (ℕ → ℕ) → ℕ → List A → ℕ → List (List A)
  slices zero last size xs i = []
  slices (suc fuel) last size xs i =
      let rest = slices fuel last size xs (i + size) in
      if ltb i (length xs) then slice xs i (last i) ∷ rest else []

-- The chunk size in use: 100 stands in for a size that is not positive.
pub get_chunk_size : ℤ → ℕ
get_chunk_size size = if leb_ℤ size (pos 0) then default_max_policies else pos_part size

module _ {ℓ} {A : Type ℓ} where
  pub chunk : ℤ → List A → List (List A)
  unfolding slices get_chunk_size
  chunk chunk_size xs =
      let size = get_chunk_size chunk_size in
      slices (length xs) (λ i. min (length xs) (i + size)) size xs 0

  -- `last := i + chunkSize; if last > len(appGuids) { last = len(appGuids) }`
  pub last_of : List A → ℕ → ℕ → ℕ
  last_of xs size i = if ltb (length xs) (i + size) then length xs else i + size

  pub get_chunks : List A → ℤ → List (List A)
  unfolding slices last_of
  get_chunks xs chunk_size =
      let size = if ltb_ℤ chunk_size (pos 1) then 100 else pos_part chunk_size in
      slices (length xs) (last_of xs size) size xs 0
