-- ===== src/ClaimGraph/Cycles/Ends.antt =====
-- claim_graph.py, `visit` in `validate`: the search ends.
use autonomous_math_ai.Base.{
  ℕ, zero, suc, ◌+◌, ◌≤◌, ◌<◌, ◌≡◌, refl, arith, inl, inr, Bool, true, false, not, String, some,
  List, [], ◌∷◌, elem, length, tally, Bool-cases, string_eq,
}
use autonomous_math_ai.Base.Dict.{Dict, has, get}
use autonomous_math_ai.Base.Result.{Result, ok, raise, Result-cases}
use autonomous_math_ai.ClaimGraph.Claim.{Claim, ClaimGraph, GraphError, dependency_cycle}
use autonomous_math_ai.ClaimGraph.Dependencies.{resolved_dependency_claim_ids}
use autonomous_math_ai.ClaimGraph.Cycles.{Visited, visit_each, visit, visit_claims, keys}

abbrev outside : List String → (String × Claim) → Bool
outside visiting entry = not (elem entry.0 visiting)

outside_mono :
    (node : String) (visiting : List String) (claims : Dict String Claim)
    → tally (outside (node ∷ visiting)) claims ≤ tally (outside visiting) claims
outside_mono node visiting [] = omega arith
outside_mono node visiting ((k, c) ∷ rest) = ground (arith, outside_mono node visiting rest)

outside_less :
    (node : String) (visiting : List String) (claims : Dict String Claim)
    → elem node visiting ≡ false
    → has node claims ≡ true
    → tally (outside (node ∷ visiting)) claims < tally (outside visiting) claims
unfolding get
outside_less node visiting [] off h = ground arith
outside_less node visiting ((k, c) ∷ rest) off h = ground (
  arith,
  outside_less node visiting rest,
  outside_mono node visiting rest,
  string_eq.beq_iff k node,
)

outside_all : (claims : Dict String Claim) → tally (outside []) claims ≡ length claims
outside_all [] = refl
outside_all ((k, c) ∷ rest) = omega (arith, outside_all rest)

pub has_of_resolved :
    (g : ClaimGraph) (id : String) {ds : List String}
    → resolved_dependency_claim_ids g id ≡ ok ds
    → has id g.claims ≡ true
unfolding resolved_dependency_claim_ids
has_of_resolved g id e = ground arith

each_ends :
    (call : String → List String → Visited)
    → ((d : String) (visited : List String)
        → (r : Result GraphError (List String)) × (call d visited ≡ some r))
    → (ds visited : List String)
    → (r : Result GraphError (List String)) × (visit_each call ds visited ≡ some r)
unfolding visit_each
each_ends call ends [] visited = (ok visited, refl)
each_ends call ends (d ∷ ds) visited =
    let (r, made) = ends d visited in
    elim (Result-cases r) [
      | inl (more, e) ↦ let (s, rest) = each_ends call ends ds more in (s, ground arith)
      | inr (err, e) ↦ (raise err, ground arith)
    ]

visit_ends :
    (g : ClaimGraph) (fuel : ℕ) (visiting : List String)
    → tally (outside visiting) g.claims + 1 < fuel
    → (node : String) (visited : List String)
    → (r : Result GraphError (List String)) × (visit fuel g visiting node visited ≡ some r)
unfolding visit
visit_ends g zero visiting h node visited = absurd (omega arith)
visit_ends g (suc fuel) visiting h node visited = elim (Bool-cases (elem node visiting)) [
  | inl looped ↦ (raise (dependency_cycle node), ground arith)
  | inr off ↦ elim (Bool-cases (elem node visited)) [
    | inl old ↦ (ok visited, ground arith)
    | inr new ↦ elim (Result-cases (resolved_dependency_claim_ids g node)) [
      | inr (err, made) ↦ (raise err, ground arith)
      | inl (ds, made) ↦
          let less = outside_less node visiting g.claims off (has_of_resolved g node made) in
          let (r, each) =
            each_ends _ (visit_ends g fuel (node ∷ visiting) (omega arith)) ds visited in
          elim (Result-cases r) [
            | inl (more, e) ↦ (ok (node ∷ more), ground arith)
            | inr (err, e) ↦ (raise err, ground arith)
          ]
    ]
  ]
]

-- The search always comes to an end.
pub visit_returns :
    (g : ClaimGraph) → (r : Result GraphError (List String)) × (visit_claims g ≡ some r)
unfolding visit_claims
visit_returns g =
    each_ends _ (visit_ends g (2 + length g.claims) [] (omega (arith, outside_all g.claims)))
      (keys g.claims) []
