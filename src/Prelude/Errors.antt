-- ===== src/Prelude/Errors.antt =====
-- Go's (value, error) results. An error is kept as the format and the arguments from which the
-- program builds its message.
use Prim.Native.String.{String}
use mathlib.Core.Path.{◌≡◌, refl}
use mathlib.Core.Logic.{◌⊎◌, inl, inr}
use cf_networking_release.Prelude.Int.{ℤ}
use mathlib.Core.List.{List}

pub data Error : Type 0 where
  -- sql.ErrNoRows
  no_rows : Error
  -- an error value of a call outside the program
  external : String → Error
  -- errors.New(text)
  message : String → Error
  -- fmt.Errorf(format, n, ...) over integers
  number_error : String → List ℤ → Error
  -- fmt.Errorf("text: %s", err)
  wrap : String → Error → Error
  -- fmt.Errorf("getting space with guid %s: %s", guid, err)
  wrap_text : String → String → Error → Error
  -- fmt.Errorf over two errors
  wrap_both : String → Error → Error → Error

-- A value, or an error that is not nil.
pub data Result {ℓ} (Value : Type ℓ) : Type ℓ where
  err : Error → Result Value
  ok : Value → Result Value

-- `if err != nil { return fmt.Errorf("text: %s", err) }`
abbrev pub wrapping {ℓ} : {Value : Type ℓ} → String → Result Value → Result Value
wrapping text (err e) = err (wrap text e)
wrapping text (ok value) = ok value

module _ {ℓ κ} {Value : Type ℓ} {Next : Type κ} where
  infixl 5 ◌>>=◌
  -- `if err != nil { return err }`
  abbrev pub ◌>>=◌ : Result Value → (Value → Result Next) → Result Next
  err e >>= next = err e
  ok value >>= next = next value

  pub >>=-eq-ok :
      (call : Result Value) (next : Value → Result Next) {result : Next}
      → (call >>= next) ≡ ok result
      → (value : Value) × (call ≡ ok value) × (next value ≡ ok result)
  >>=-eq-ok (err e) next returned = cc
  >>=-eq-ok (ok value) next returned = (value, refl, returned)

module _ {ℓ} {Value : Type ℓ} where
  infixl 5 ◌>>◌
  abbrev pub ◌>>◌ : Result (Unit {0}) → Result Value → Result Value
  call >> next = call >>= (λ done. next)

  pub Result-cases :
      (call : Result Value) → ((value : Value) × (call ≡ ok value)) ⊎ ((e : Error) × (call ≡ err e))
  Result-cases (err e) = inr (e, refl)
  Result-cases (ok value) = inl (value, refl)
