-- ===== src/ClaimGraph/Cycles.antt =====
-- claim_graph.py, `visit` in `validate`: the depth-first search for a cycle of dependencies.
pub mod Order
pub mod Broken
pub mod Ends
use autonomous_math_ai.Base.{
  ℕ, zero, suc, ◌+◌, ◌≡◌, ◌⊎◌, true, false, String, Option, none, some, List, [], ◌∷◌, length, elem,
  string_eq,
}
use autonomous_math_ai.Base.Dict.{Dict}
use autonomous_math_ai.Base.Result.{Result, ok, raise}
use autonomous_math_ai.ClaimGraph.Claim.{Claim, ClaimGraph, GraphError, dependency_cycle}
use autonomous_math_ai.ClaimGraph.Dependencies.{resolved_dependency_claim_ids}
use autonomous_math_ai.ClaimGraph.Closure.{dependencies_of}

-- The set `visited`, the latest first, or an exception; `none` means that the fuel ran out.
abbrev pub Visited : Type 0
Visited = Option (Result GraphError (List String))

abbrev pub and_then : Visited → (List String → Visited) → Visited
and_then none next = none
and_then (some (raise e)) next = some (raise e)
and_then (some (ok visited)) next = next visited

-- `for dep in ...: visit(dep)`
unfoldable pub visit_each : (String → List String → Visited) → List String → List String → Visited
visit_each call [] visited = some (ok visited)
visit_each call (d ∷ ds) visited = and_then (call d visited) (λ more. visit_each call ds more)

-- `visiting` holds the calls that have not returned, which are the calls above this one.
unfoldable pub visit : ℕ → ClaimGraph → List String → String → List String → Visited
unfolding visit_each
visit zero g visiting node visited = none
visit (suc fuel) g visiting node visited = elim (elem node visiting) [
  | true ↦ some (raise (dependency_cycle node))
  | false ↦ elim (elem node visited) [
    | true ↦ some (ok visited)
    | false ↦ elim (resolved_dependency_claim_ids g node) [
      | raise e ↦ some (raise e)
      | ok resolved ↦
          and_then (visit_each (visit fuel g (node ∷ visiting)) resolved visited)
            (λ more. some (ok (node ∷ more)))
    ]
  ]
]

abbrev pub keys : Dict String Claim → List String
keys [] = []
keys ((claim_id, c) ∷ rest) = claim_id ∷ keys rest

-- `for claim_id in self.claims: visit(claim_id)`
unfoldable pub visit_claims : ClaimGraph → Visited
unfolding visit visit_each
visit_claims g = visit_each (visit (2 + length g.claims) g []) (keys g.claims) []

-- One claim needs the other, itself or through those that it needs.
pub data Needs (g : ClaimGraph) (x : String) : String → Type 0 where
  directly : {v : String} → elem v (dependencies_of g x) ≡ true → Needs g x v
  through : {u v : String} → Needs g x u → elem v (dependencies_of g u) ≡ true → Needs g x v

-- What a refusal of the search shows.
abbrev pub IsBroken : ClaimGraph → GraphError → Type 0
IsBroken g error =
    ((x : String) × Needs g x x × (error ≡ dependency_cycle x))
    ⊎ ((x : String) × (resolved_dependency_claim_ids g x ≡ raise error))
