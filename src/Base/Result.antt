-- ===== src/Base/Result.antt =====
-- Python code that may raise: the exception is a value of the component's own error type.
use mathlib.Core.Path.{◌≡◌, refl}
use mathlib.Core.Bool.{Bool, true, false}
use mathlib.Core.Logic.{◌⊎◌, inl, inr}
use native.Mathlib.Omega.{arith}

pub data Result (E A : Type 0) : Type 0 where
  ok : A → Result E A
  raise : E → Result E A

infixl 5 ◌>>=◌
abbrev pub ◌>>=◌ : {E A B : Type 0} → Result E A → (A → Result E B) → Result E B
ok a >>= f = f a
raise e >>= f = raise e

-- `if test: raise error`
abbrev pub raise_if : {E : Type 0} → Bool → E → Result E (Unit {0})
raise_if true e = raise e
raise_if false e = ok tt

-- The next line of a block, where this one has nothing to pass on.
infixl 5 ◌>>◌
abbrev pub ◌>>◌ : {E B : Type 0} → Result E (Unit {0}) → Result E B → Result E B
m >> next = m >>= λ done. next

-- A line that lets a block return has itself returned, and the rest of the block goes on from there.
pub >>=-eq-ok :
    {E A B : Type 0} (m : Result E A) (rest : A → Result E B) {y : B}
    → m >>= rest ≡ ok y
    → (x : A) × (m ≡ ok x) × (rest x ≡ ok y)
>>=-eq-ok (raise e) rest h = cc
>>=-eq-ok (ok x) rest h = (x, refl, h)

pub ok-injective : {E A : Type 0} {x y : A} → ◌≡◌ {A = Result E A} (ok x) (ok y) → x ≡ y
ok-injective h = cc

pub raise_if-eq-ok :
    {E : Type 0} (b : Bool) (e : E) {u : Unit {0}} → raise_if b e ≡ ok u → b ≡ false
raise_if-eq-ok b e h = ground arith

pub >>-eq-ok :
    {E B : Type 0} (b : Bool) (e : E) (m : Result E B) {y : B}
    → raise_if b e >> m ≡ ok y
    → (b ≡ false) × (m ≡ ok y)
>>-eq-ok true e m h = cc
>>-eq-ok false e m h = (refl, h)

pub Result-cases :
    {E A : Type 0} (r : Result E A) → ((a : A) × (r ≡ ok a)) ⊎ ((e : E) × (r ≡ raise e))
Result-cases (ok a) = inl (a, refl)
Result-cases (raise e) = inr (e, refl)
