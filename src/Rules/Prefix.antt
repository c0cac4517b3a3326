-- ===== src/Rules/Prefix.antt =====
-- What iptables is given as log prefixes and comments.
use cf_networking_release.Prelude.{
  ℕ, zero, suc, not_ltb→le, ◌≤◌, ◌≢◌, ◌≡◌, refl, ap, Bool-cases, inl, inr, ltb, ==_iff, [], ◌∷◌,
  ◌++◌, length, take, length-take, All, Bytes, codes, arith, if◌then◌else◌,
}
use Prim.Native.Nat.{min}
use cf_networking_release.LockedIptables.{Rule}
use cf_networking_release.Rules.{underscored, append_comment, trim_and_pad}

take-all : (n : ℕ) (xs : Bytes) → length xs ≤ n → take n xs ≡ xs
take-all zero [] h = refl
take-all (suc n) [] h = refl
take-all zero (x ∷ xs) h = absurd (omega arith)
take-all (suc n) (x ∷ xs) h = ap (λ l. x ∷ l) (take-all n xs (omega arith))

-- A log prefix is a quote, at most the first 28 bytes of the name, a blank and a quote, so that
-- what stands between the quotes has at most 29 bytes.
pub trim_and_pad-bounds :
    (name : Bytes)
    → (kept : Bytes) × (trim_and_pad name ≡ 34 ∷ kept ++ 32 ∷ 34 ∷ [])
      × (length kept ≡ min 28 (length name))
      × (kept ≡ take 28 name)
unfolding trim_and_pad
trim_and_pad-bounds name = (take 28 name, padded, length-take 28 name, refl)
  where
    padded :
        34 ∷ (if ltb 28 (length name) then take 28 name else name) ++ 32 ∷ 34 ∷ []
        ≡ 34 ∷ take 28 name ++ 32 ∷ 34 ∷ []
    padded = elim (Bool-cases (ltb 28 (length name))) [
      | inl long ↦ rw long refl
      | inr short ↦ rw (short, take-all 28 name (not_ltb→le 28 (length name) short)) refl
    ]

-- No blank.
abbrev pub IsWord : Bytes → Type 0
IsWord s = All (λ c. c ≢ 32) s

underscored-IsWord : (comment : Bytes) → IsWord (underscored comment)
unfolding underscored
underscored-IsWord [] = tt
underscored-IsWord (c ∷ comment) = (ground (arith, ==_iff c 32), underscored-IsWord comment)

length-underscored : (comment : Bytes) → length (underscored comment) ≡ length comment
unfolding underscored
length-underscored [] = refl
length-underscored (c ∷ comment) = omega (arith, length-underscored comment)

-- A comment is added as one word behind the rule's own, as long as the comment was, with no blank.
pub append_comment-IsWord :
    (rule : Rule) (comment : Bytes)
    → (word : Bytes) × (append_comment rule comment
        ≡ rule ++ codes "-m" ∷ codes "comment" ∷ codes "--comment" ∷ word ∷ [])
      × IsWord word
      × (length word ≡ length comment)
unfolding append_comment
append_comment-IsWord rule comment =
    (underscored comment, refl, underscored-IsWord comment, length-underscored comment)
