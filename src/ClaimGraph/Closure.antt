-- ===== src/ClaimGraph/Closure.antt =====
-- claim_graph.py, `dependency_claim_closure`: the loop over the ids that wait on a stack. The set
-- `seen` of the source holds what its list `closure` holds, so the list stands for both.
pub mod Reached
pub mod Ends
use autonomous_math_ai.Base.{
  ℕ, zero, suc, ◌+◌, ◌≡◌, ◌⊎◌, ◌↔◌, Bool, true, false, String, Option, none, some, List, [], ◌∷◌,
  ◌++◌, length, sum_by, elem, has_duplicates, if◌then◌else◌, string_eq,
}
use autonomous_math_ai.Base.Dict.{has}
use autonomous_math_ai.Base.Result.{Result, ok, raise}
use autonomous_math_ai.ClaimGraph.Claim.{Claim, ClaimGraph, GraphError, absent_dependency}
use autonomous_math_ai.ClaimGraph.Dependencies.{resolved_dependency_claim_ids}

-- The head of `pending` is the end of the source's list: `pop` takes it, and what
-- `extend(reversed(...))` adds goes before the rest in order. `none` means that the fuel ran out.
unfoldable pub closure_loop :
    ℕ → ClaimGraph → List String → List String → Option (Result GraphError (List String))
closure_loop zero g pending closure = none
closure_loop (suc fuel) g [] closure = some (ok closure)
closure_loop (suc fuel) g (claim_id ∷ pending) closure = elim (elem claim_id closure) [
  | true ↦ closure_loop fuel g pending closure
  | false ↦ elim (has claim_id g.claims) [
    | false ↦ some (raise (absent_dependency claim_id))
    | true ↦ elim (resolved_dependency_claim_ids g claim_id) [
      | raise e ↦ some (raise e)
      | ok resolved ↦ closure_loop fuel g (resolved ++ pending) (closure ++ claim_id ∷ [])
    ]
  ]
]

-- The resolved dependencies, none where they cannot be resolved.
abbrev pub dependencies_of : ClaimGraph → String → List String
dependencies_of g claim_id = elim (resolved_dependency_claim_ids g claim_id) [
  | ok resolved ↦ resolved
  | raise e ↦ []
]

-- How many ids the claims that are not in `seen` can still put on the stack.
abbrev pub still_to_push : ClaimGraph → List String → (String × Claim) → ℕ
still_to_push g seen entry = if elem entry.0 seen then 0 else length (dependencies_of g entry.0)

unfoldable pub fuel_for : ClaimGraph → ℕ
fuel_for g = 2 + sum_by (still_to_push g []) g.claims

unfoldable pub dependency_claim_closure :
    ClaimGraph → String → Option (Result GraphError (List String))
unfolding closure_loop fuel_for
dependency_claim_closure g root = closure_loop (fuel_for g) g (root ∷ []) []

-- The claims that `root` depends on, through any number of others, and `root` itself.
pub data Reach (g : ClaimGraph) (root : String) : String → Type 0 where
  here : Reach g root root
  step : {u v : String} → Reach g root u → elem v (dependencies_of g u) ≡ true → Reach g root v

-- What is wrong with a claim whose dependencies cannot be followed.
abbrev pub Fault : ClaimGraph → String → GraphError → Type 0
Fault g v error =
    ((has v g.claims ≡ false) × (error ≡ absent_dependency v))
    ⊎ (resolved_dependency_claim_ids g v ≡ raise error)

-- What a closure is to be: the set of the claims that are reached, each once, or a refusal that
-- names the fault of one of them.
pub data IsClosureOf (g : ClaimGraph) (root : String)
    : Result GraphError (List String) → Type 0 where
  closed :
      {closure : List String}
      → ((v : String) → (elem v closure ≡ true) ↔ Reach g root v)
      → has_duplicates closure ≡ false
      → IsClosureOf g root (ok closure)
  refused :
      {error : GraphError} (v : String)
      → Reach g root v
      → Fault g v error
      → IsClosureOf g root (raise error)
