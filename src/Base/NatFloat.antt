-- ===== src/Base/NatFloat.antt =====
-- Natural numbers in the place of floats, for the tests: a float interface that computes.
use Prim.Native.Nat.{ℕ, ◌+◌, ◌-◌, ◌*◌, ◌/◌}
use autonomous_math_ai.Base.Tests.{ltb, leb}
use autonomous_math_ai.Base.Float.{Float}

instance abbrev pub nat_float : Float ℕ
nat_float = record {
  of_ℕ = λ n. n;
  add = λ a b. a + b;
  sub = λ a b. a - b;
  mul = λ a b. a * b;
  div = λ a b. a / b;
  gt = λ a b. ltb b a;
  ge = λ a b. leb b a;
}
