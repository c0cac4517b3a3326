-- ===== src/Prelude/Print.antt =====
-- The numbers that fmt.Sprintf prints: %d, and %0wX with its padding.
use native.Mathlib.Nat.{pow-suc}
use Prim.Native.Nat.{ℕ, zero, suc, ◌+◌, ◌-◌, ◌*◌, ◌/◌, ◌%◌, ◌^◌, ◌≤◌, ◌<◌}
use mathlib.Core.Path.{◌≡◌, refl, ap, ◌∙◌}
use mathlib.Core.Logic.{inl, inr}
use mathlib.Core.List.{[], ◌∷◌, ◌++◌}
use native.Mathlib.Omega.{arith}
use cf_networking_release.Prelude.Tests.{◌==◌, ltb, if◌then◌else◌, Bool-cases}
use cf_networking_release.Prelude.Text.{Bytes}
use cf_networking_release.Prelude.Int.{ℤ, pos, negsuc}
use cf_networking_release.Prelude.Lists.{length, length-append}

digit : ℕ → ℕ
digit d = if ltb d 10 then b'0' + d else b'A' + (d - 10)

-- The digits of a number in front of `acc`; a number is fuel enough for itself.
digits_in : ℕ → ℕ → ℕ → Bytes → Bytes
unfolding digit
digits_in base zero n acc = acc
digits_in base (suc fuel) n acc =
    let rest = digits_in base fuel (n / base) (digit (n % base) ∷ acc) in
    if n == 0 then acc else rest

print_base : ℕ → ℕ → Bytes
unfolding digits_in
print_base base n = if n == 0 then b'0' ∷ [] else digits_in base n n []

unfoldable pub print_int : ℤ → Bytes
unfolding print_base
print_int (pos n) = print_base 10 n
print_int (negsuc n) = b'-' ∷ print_base 10 (suc n)

zeros : ℕ → Bytes
zeros zero = []
zeros (suc n) = b'0' ∷ zeros n

-- fmt.Sprintf("%0<width>X", n)
unfoldable pub print_hex : ℕ → ℕ → Bytes
unfolding print_base zeros
print_hex width n = let text = print_base 16 n in zeros (width - length text) ++ text

digit_value : ℕ → ℕ
digit_value c = if ltb c b'A' then c - b'0' else c - b'A' + 10

-- The number that hexadecimal digits stand for.
unfoldable pub read_hex : Bytes → ℕ → ℕ
unfolding digit_value
read_hex [] n = n
read_hex (c ∷ s) n = read_hex s (n * 16 + digit_value c)

digit_value-digit : (d : ℕ) → d < 16 → digit_value (digit d) ≡ d
unfolding digit digit_value
digit_value-digit d h = ground arith

read_hex-digits_in :
    (fuel n : ℕ) (acc : Bytes) → n ≤ fuel → read_hex (digits_in 16 fuel n acc) 0 ≡ read_hex acc n
unfolding digits_in
read_hex-digits_in zero n acc h = ap (read_hex acc) (omega arith)
read_hex-digits_in (suc fuel) n acc h = elim (Bool-cases (n == 0)) [
  | inl done ↦ rw done (ap (read_hex acc) (ground arith))
  | inr more ↦
      rw (more, read_hex-digits_in fuel (n / 16) (digit (n % 16) ∷ acc) (ground arith))
        (unfold read_hex in
          ap (read_hex acc) (omega (arith, digit_value-digit (n % 16) (omega arith))))
]

read_hex-zeros : (k : ℕ) (s : Bytes) → read_hex (zeros k ++ s) 0 ≡ read_hex s 0
unfolding zeros read_hex digit_value
read_hex-zeros zero s = refl
read_hex-zeros (suc k) s = read_hex-zeros k s

-- Reading a printed number gives it back, whatever the width.
pub read_hex-print_hex : (width n : ℕ) → read_hex (print_hex width n) 0 ≡ n
unfolding print_hex
read_hex-print_hex width n = read_hex-zeros _ _ ∙ whole
  where
    whole : read_hex (print_base 16 n) 0 ≡ n
    whole = elim (Bool-cases (n == 0)) [
      | inl none ↦ rw (none, print_base) (unfold read_hex digit_value in ground arith)
      | inr some ↦
          rw (some, print_base)
            (read_hex-digits_in n n [] (omega arith) ∙ (unfold read_hex in refl))
    ]

length-digits_in :
    (fuel n width : ℕ) (acc : Bytes)
    → n < 16 ^ width
    → length (digits_in 16 fuel n acc) ≤ width + length acc
unfolding digits_in
length-digits_in zero n width acc h = omega arith
length-digits_in (suc fuel) n zero acc h = ground (arith)
length-digits_in (suc fuel) n (suc width) acc h = elim (Bool-cases (n == 0)) [
  | inl done ↦ rw done (omega arith)
  | inr more ↦ rw more (
      omega (
        arith,
        length-digits_in fuel (n / 16) width (digit (n % 16) ∷ acc)
            (omega (arith, pow-suc 16 width)),
      ))
]

length-zeros : (k : ℕ) → length (zeros k) ≡ k
unfolding zeros
length-zeros zero = refl
length-zeros (suc k) = ap suc (length-zeros k)

-- A number that fits the width is printed in exactly that many digits.
pub length-print_hex :
    (width n : ℕ) → 0 < width → n < 16 ^ width → length (print_hex width n) ≡ width
unfolding print_hex
length-print_hex width n h fits =
    length-append (zeros (width - length (print_base 16 n))) (print_base 16 n)
    ∙ omega (arith, length-zeros (width - length (print_base 16 n)), small)
  where
    small : length (print_base 16 n) ≤ width
    small = elim (Bool-cases (n == 0)) [
      | inl none ↦ rw (none, print_base) (omega arith)
      | inr some ↦ rw (some, print_base) (omega (arith, length-digits_in n n width [] fits))
    ]
