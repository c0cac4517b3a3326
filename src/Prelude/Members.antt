-- ===== src/Prelude/Members.antt =====
-- Lists of texts as sets: the program's `map[string]struct{}` and the `range` loops that search.
use Prim.Native.String.{String}
use mathlib.Core.Path.{◌≡◌, refl, ap, subst}
use mathlib.Core.Bool.{Bool, true, false, false≢true, ◌||◌}
use mathlib.Core.List.{List, [], ◌∷◌, ◌++◌}
use native.Mathlib.Omega.{arith}
use text.Mathlib.Text.{◌==◌ as str_eq}
use text.Mathlib.TextEquality.{eq_iff}
use text.Mathlib.TextPositions.{eq_refl}
use mathlib.Core.Logic.{inl, inr}
use cf_networking_release.Prelude.Tests.{if◌then◌else◌, Bool-cases}
use cf_networking_release.Prelude.Lists.{All}

-- `for _, x := range xs { if x == s { return true } }; return false`
unfoldable pub contains : String → List String → Bool
contains s [] = false
contains s (x ∷ xs) = str_eq x s || contains s xs

-- set[s] = struct{}{}
unfoldable pub add_text : String → List String → List String
unfolding contains
add_text s xs = if contains s xs then xs else xs ++ s ∷ []

pub contains-append :
    (s : String) (xs ys : List String) → contains s (xs ++ ys) ≡ (contains s xs || contains s ys)
unfolding contains
contains-append s [] ys = refl
contains-append s (x ∷ xs) ys = ground (arith, contains-append s xs ys)

pub contains-add_text :
    (s t : String) (xs : List String) → contains s (add_text t xs) ≡ (contains s xs || str_eq t s)
unfolding add_text contains
contains-add_text s t xs = ground (arith, contains-append s xs (t ∷ []), eq_iff t s, same t s xs)
  where
    same : (t s : String) (xs : List String) → t ≡ s → contains t xs ≡ contains s xs
    same t s xs e = ap (λ k. contains k xs) e

-- A statement of every text of a list, by its members.
pub All-contains {κ} :
    (P : String → Type κ) (xs : List String)
    → (All P xs → (s : String) → contains s xs ≡ true → P s)
      × (((s : String) → contains s xs ≡ true → P s) → All P xs)
unfolding contains
All-contains P [] = (λ h s m. absurd (false≢true m), λ h. tt)
All-contains P (x ∷ xs) = (
  λ h s m. elim (Bool-cases (str_eq x s)) [
    | inl here ↦ subst P ((eq_iff x s).0 here) h.0
    | inr away ↦ (All-contains P xs).0 h.1 s (ground arith)
  ],
  λ h. (h x (rw eq_refl), (All-contains P xs).1 (λ s m. h s (ground (arith, m)))),
)
