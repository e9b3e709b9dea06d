-- ===== src/Base/Float.antt =====
-- What the controller does with a Python `float`. There are no floats in the development: the type
-- and its operations are an interface, and a theorem that needs a law of them names it.
use Prim.Native.Nat.{ℕ}
use mathlib.Core.Bool.{Bool, false}
use autonomous_math_ai.Base.Tests.{if◌then◌else◌}

pub record Float (F : Type 0) : Type 0 where
  pub of_ℕ : ℕ → F
  pub add : F → F → F
  pub sub : F → F → F
  pub mul : F → F → F
  pub div : F → F → F
  -- `a > b` and `a >= b`, which are not each other's negation at NaN
  pub gt : F → F → Bool
  pub ge : F → F → Bool

module _ {F : Type 0} ⦃f : Float F⦄ where
  -- Python's `max(a, b)`
  abbrev pub fmax : F → F → F
  fmax a b = if f.gt b a then b else a

  -- `not x`
  abbrev pub is_zero : F → Bool
  is_zero x = if f.ge x (f.of_ℕ 0) then f.ge (f.of_ℕ 0) x else false
