-- ===== src/Protocol/Schema/Looping.antt =====
-- schema.py, `validate`: a schema that refers to itself.
use autonomous_math_ai.Base.{ℕ, zero, suc, ◌≡◌, refl, arith, some}
use autonomous_math_ai.Base.Result.{raise}
use autonomous_math_ai.Protocol.Json.{Value, text, object, Fields, find_key}
use autonomous_math_ai.Protocol.Schema.{Python, recursion_error}
use autonomous_math_ai.Protocol.Schema.Pointer.{resolve_ref}
use autonomous_math_ai.Protocol.Schema.Validate.{validate_under, validate}

loops :
    {F : Type 0} (py : Python F) (depth : ℕ) (schema : Fields F) (v : Value F)
    → find_key "$ref" schema ≡ some (text "#")
    → validate_under py depth schema v (object schema) ≡ raise recursion_error
unfolding validate_under resolve_ref
loops py zero schema v e = refl
loops py (suc n) schema v e = ground (arith, loops py n schema v e)

-- A schema whose root refers to itself is validated without end, however deep the calls may go and
-- whatever the instance: the exception is a RecursionError.
pub self_reference_loops :
    {F : Type 0} (py : Python F) (depth : ℕ) (schema : Fields F) (v : Value F)
    → find_key "$ref" schema ≡ some (text "#")
    → validate py depth v schema ≡ raise recursion_error
unfolding validate
self_reference_loops py depth schema v e = loops py depth schema v e
