-- ===== src/ClaimGraph/Closure/Ends.antt =====
-- claim_graph.py, `dependency_claim_closure`: the loop ends.
use autonomous_math_ai.Base.{
  ℕ, zero, suc, ◌+◌, ◌≤◌, ◌<◌, ◌≡◌, ◌∙◌, refl, arith, ap, inl, inr, true, false, String, some, List,
  [], ◌∷◌, ◌++◌, elem, elem-append, length, length-append, sum_by, Bool-cases, string_eq,
}
use autonomous_math_ai.Base.Dict.{Dict, has, get}
use autonomous_math_ai.Base.Result.{Result, ok, raise, Result-cases}
use autonomous_math_ai.ClaimGraph.Claim.{Claim, ClaimGraph, GraphError, absent_dependency}
use autonomous_math_ai.ClaimGraph.Dependencies.{resolved_dependency_claim_ids}
use autonomous_math_ai.ClaimGraph.Closure.{
  closure_loop, dependencies_of, fuel_for, dependency_claim_closure, still_to_push, IsClosureOf,
  closed, refused,
}
use autonomous_math_ai.ClaimGraph.Closure.Reached.{closure_reaches, closure_raises}

module _ (g : ClaimGraph) where
  push_mono :
      (id : String) (seen : List String) (claims : Dict String Claim)
      → sum_by (still_to_push g (seen ++ id ∷ [])) claims ≤ sum_by (still_to_push g seen) claims
  push_mono id seen [] = omega arith
  push_mono id seen ((k, c) ∷ rest) =
      ground (arith, push_mono id seen rest, elem-append k seen (id ∷ []))

  -- A claim that is written down will not push its dependencies again.
  push_less :
      (id : String) (seen : List String) (claims : Dict String Claim)
      → elem id seen ≡ false
      → has id claims ≡ true
      → sum_by (still_to_push g (seen ++ id ∷ [])) claims + length (dependencies_of g id)
        ≤ sum_by (still_to_push g seen) claims
  unfolding get
  push_less id seen [] new h = ground arith
  push_less id seen ((k, c) ∷ rest) new h = ground (
    arith,
    push_less id seen rest new,
    push_mono id seen rest,
    elem-append k seen (id ∷ []),
    string_eq.beq_iff k id,
    string_eq.beq_iff id k,
    string_eq.beq_iff k k,
  )

  loop_ends :
      (fuel : ℕ) (pending closure : List String)
      → length pending + sum_by (still_to_push g closure) g.claims < fuel
      → (r : Result GraphError (List String)) × (closure_loop fuel g pending closure ≡ some r)
  unfolding closure_loop
  loop_ends zero pending closure h = absurd (omega arith)
  loop_ends (suc fuel) [] closure h = (ok closure, refl)
  loop_ends (suc fuel) (id ∷ pending) closure h = elim (Bool-cases (elem id closure)) [
    | inl seen ↦ let (r, e) = loop_ends fuel pending closure (omega arith) in (r, ground arith)
    | inr new ↦ elim (Bool-cases (has id g.claims)) [
      | inr absent ↦ (raise (absent_dependency id), ground arith)
      | inl present ↦ elim (Result-cases (resolved_dependency_claim_ids g id)) [
        | inr (err, made) ↦ (raise err, ground arith)
        | inl (ds, made) ↦
            let less = push_less id closure g.claims new present in
            let same : dependencies_of g id ≡ ds = ground arith in
            let (r, e) = loop_ends fuel (ds ++ pending) (closure ++ id ∷ []) (
              omega (arith, length-append ds pending, ap (λ (xs : List String). length xs) same)) in
            (r, ground arith)
      ]
    ]
  ]

pub closure_returns :
    (g : ClaimGraph) (root : String)
    → (r : Result GraphError (List String)) × (dependency_claim_closure g root ≡ some r)
unfolding dependency_claim_closure fuel_for
closure_returns g root = loop_ends g (fuel_for g) (root ∷ []) [] (omega arith)

-- The closure of a claim always returns. Either it is the set of the claims that the claim reaches
-- through resolved dependencies, itself included, each of them once; or it is refused with the
-- fault of a claim that is reached, which is absent or whose dependencies do not resolve.
pub closure_decides :
    (g : ClaimGraph) (root : String)
    → (r : Result GraphError (List String)) × (dependency_claim_closure g root ≡ some r)
      × IsClosureOf g root r
closure_decides g root =
    let (r, returned) = closure_returns g root in
    elim (Result-cases r) [
      | inl (closure, made) ↦
          let e : dependency_claim_closure g root ≡ some (ok closure) = returned ∙ ap some made in
          let (holds, distinct) = closure_reaches g root closure e in
          (ok closure, e, closed holds distinct)
      | inr (error, made) ↦
          let e : dependency_claim_closure g root ≡ some (raise error) = returned ∙ ap some made in
          let (v, reached, fault) = closure_raises g root error e in
          (raise error, e, refused v reached fault)
    ]
