-- ===== src/ClaimGraph/Cycles/Broken.antt =====
-- claim_graph.py, `visit` in `validate`: what a refusal of the search shows.
use autonomous_math_ai.Base.{
  ℕ, zero, suc, ◌≡◌, arith, subst, inl, inr, true, ◌⊎◌, String, none, some, List, [], ◌∷◌, elem,
  Bool-cases, string_eq,
}
use autonomous_math_ai.Base.Result.{ok, raise, Result-cases}
use autonomous_math_ai.ClaimGraph.Claim.{ClaimGraph, GraphError}
use autonomous_math_ai.ClaimGraph.Dependencies.{resolved_dependency_claim_ids}
use autonomous_math_ai.ClaimGraph.Closure.{dependencies_of}
use autonomous_math_ai.ClaimGraph.Cycles.{
  Visited, and_then, visit_each, visit, visit_claims, keys, Needs, directly, through, IsBroken,
}

and_then-eq-raise :
    (m : Visited) (next : List String → Visited) {e : GraphError}
    → and_then m next ≡ some (raise e)
    → (m ≡ some (raise e)) ⊎ ((more : List String) × (next more ≡ some (raise e)))
and_then-eq-raise none next h = ground arith
and_then-eq-raise (some (raise err)) next h = inl (ground arith)
and_then-eq-raise (some (ok more)) next h = inr (more, h)

module _ (g : ClaimGraph) (error : GraphError) where
  each-IsBroken :
      (call : String → List String → Visited) (ds visited : List String)
      → ((d : String) (seen : List String)
          → elem d ds ≡ true
          → call d seen ≡ some (raise error)
          → IsBroken g error)
      → visit_each call ds visited ≡ some (raise error)
      → IsBroken g error
  unfolding visit_each
  each-IsBroken call [] visited broken e = ground arith
  each-IsBroken call (d ∷ ds) visited broken e = elim (and_then-eq-raise (call d visited) _ e) [
    | inl here ↦ broken d visited (ground (arith, string_eq.beq_iff d d)) here
    | inr (more, later) ↦
        each-IsBroken call ds more (λ x seen m. broken x seen (ground arith)) later
  ]

  visit-IsBroken :
      (fuel : ℕ) (visiting : List String) (node : String) (visited : List String)
      → ((x : String) → elem x visiting ≡ true → Needs g x node)
      → visit fuel g visiting node visited ≡ some (raise error)
      → IsBroken g error
  unfolding visit
  visit-IsBroken zero visiting node visited needs e = ground arith
  visit-IsBroken (suc fuel) visiting node visited needs e = elim (Bool-cases (elem node visiting)) [
    | inl looped ↦ inl (node, needs node looped, ground arith)
    | inr off ↦ elim (Bool-cases (elem node visited)) [
      | inl old ↦ ground arith
      | inr new ↦ elim (Result-cases (resolved_dependency_claim_ids g node)) [
        | inr (err, made) ↦ inr (node, ground arith)
        | inl (ds, made) ↦
            let same : ds ≡ dependencies_of g node = ground arith in
            let ran : and_then (visit_each (visit fuel g (node ∷ visiting)) ds visited)
                  (λ mid. some (ok (node ∷ mid)))
                ≡ some (raise error) =
              ground arith in
            let failed : visit_each (visit fuel g (node ∷ visiting)) ds visited
                ≡ some (raise error) =
              elim (and_then-eq-raise _ _ ran) [
                | inl here ↦ here
                | inr (mid, done) ↦ ground arith
              ] in
            let edge = λ (d : String) (m : elem d ds ≡ true).
              subst (λ (xs : List String). elem d xs ≡ true) same m in
            each-IsBroken _ ds visited
              (λ d seen m. visit-IsBroken fuel (node ∷ visiting) d seen (λ x on.
                elim (Bool-cases (elem x visiting)) [
                  | inl above ↦ through (needs x above) (edge d m)
                  | inr here ↦
                      subst (λ (w : String). Needs g w d)
                        (ground (arith, string_eq.beq_iff x node, string_eq.beq_iff node x))
                        (directly (edge d m))
                ]))
              failed
      ]
    ]
  ]

-- Where the search for cycles raises, either the error is the cycle at a claim that does depend on
-- itself through resolved dependencies, or it is the error with which the dependencies of some
-- claim do not resolve.
pub visit_raises :
    (g : ClaimGraph) (error : GraphError) → visit_claims g ≡ some (raise error) → IsBroken g error
unfolding visit_claims
visit_raises g error e =
    each-IsBroken g error _ (keys g.claims) []
      (λ d seen m. visit-IsBroken g error _ [] d seen (λ x on. ground arith)) e
