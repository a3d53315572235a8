-- ===== src/Base/Errors.antt =====
-- Go's error values. A format's text stands for itself and its operands are kept beside it.
use Prim.Native.String.{String}
use mathlib.Core.Path.{◌≡◌, refl}
use mathlib.Core.Logic.{◌⊎◌, inl, inr}
use mathlib.Core.Bool.{Bool, true, false}
use mathlib.Core.List.{List}
use pv_snapshotter.Base.Strings.{Text}

pub data Error : Type 0 where
  -- Made by code that is not the program's; `not_found` is an error of the class ErrNotFound.
  host not_found : Text → Error
  -- A run-time panic, which is no error value: it ends the call.
  panic : String → Error
  -- fmt.Errorf without and with a %w operand.
  errorf : String → List Text → Error
  wrapf : String → List Text → Error → Error

-- errdefs.IsNotFound: the class of an error is found through %w operands.
unfoldable pub is_not_found : Error → Bool
is_not_found (not_found message) = true
is_not_found (wrapf format args cause) = is_not_found cause
is_not_found _ = false

pub data Result {ℓ} (A : Type ℓ) : Type ℓ where
  ok : A → Result A
  err : Error → Result A

pub Result-cases {ℓ} :
    {A : Type ℓ} (r : Result A) → ((a : A) × (r ≡ ok a)) ⊎ ((e : Error) × (r ≡ err e))
Result-cases (ok a) = inl (a, refl)
Result-cases (err e) = inr (e, refl)

-- `if err != nil { return fmt.Errorf(format, args..., err) }`
abbrev pub wrap {ℓ} : {A : Type ℓ} → String → List Text → Result A → Result A
wrap format args (ok a) = ok a
wrap format args (err e) = err (wrapf format args e)
