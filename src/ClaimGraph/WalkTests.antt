-- ===== src/ClaimGraph/WalkTests.antt =====
-- claim_graph.py: the walks over the dependencies, on graphs of a few claims.
use autonomous_math_ai.Base.{◌≡◌, refl, String, none, some, List, [], ◌∷◌, elem, string_eq}
use autonomous_math_ai.Base.Text.{squeeze}
use autonomous_math_ai.Base.Dict.{get, put}
use autonomous_math_ai.Base.Result.{Result, ok, raise}
use autonomous_math_ai.Models.{e2_exact_tested, untrusted_candidate}
use autonomous_math_ai.Domain.Contract.{math_research, open_claim}
use autonomous_math_ai.Domain.Builtin.{builtin_domain_contract}
use autonomous_math_ai.Domain.Semantics.{in_statuses, validate_status}
use autonomous_math_ai.ClaimGraph.Claim.{
  Claim, ClaimGraph, ProofObligation, open_obligation, GraphError, dependency_cycle,
}
use autonomous_math_ai.ClaimGraph.Dependencies.{resolved_dependency_claim_ids, obligation_owners}
use autonomous_math_ai.ClaimGraph.Closure.{dependency_claim_closure, dependencies_of, IsClosureOf}
use autonomous_math_ai.ClaimGraph.Closure.Ends.{closure_decides}
use autonomous_math_ai.ClaimGraph.Cycles.{visit_claims, Needs, IsBroken}
use autonomous_math_ai.ClaimGraph.Cycles.Broken.{visit_raises}
use autonomous_math_ai.ClaimGraph.Validate.{validate, IsValidClaim}
use autonomous_math_ai.ClaimGraph.Validate.Accepted.{validate_accepts, validate_returns}
use autonomous_math_ai.ClaimGraph.Frontier.{research_frontier, Frontier}
use autonomous_math_ai.ClaimGraph.Frontier.Next.{IsNext, frontier_next}
use autonomous_math_ai.ClaimGraph.Dependents.{rebuild_dependents}
use autonomous_math_ai.ClaimGraph.Dependents.Bare.{bare_graph}
use autonomous_math_ai.ClaimGraph.Dependents.Listed.{dependents_of, rebuild_dependents_lem}

abbrev obligation : String → List String → ProofObligation
obligation id dependencies = record {
  obligation_id = id;
  statement = "a statement";
  status = open_obligation;
  dependencies = dependencies;
  evidence_paths = [];
  created_at = none;
  updated_at = none;
}

abbrev claim : String → List String → List ProofObligation → Claim
claim id dependencies obligations = record {
  claim_id = id;
  statement = "a statement";
  assumptions = [];
  math_status = open_claim;
  trust_status = untrusted_candidate;
  dependencies = dependencies;
  downstream_dependents = [];
  evidence_paths = [];
  known_counterexamples = [];
  current_gaps = [];
  active_tasks = [];
  last_meaningful_progress = none;
  parent_claim_id = none;
  evidence_level = e2_exact_tested;
  proof_obligations = obligations;
}

-- The top needs the middle itself, and the base through an obligation of the middle.
abbrev middle : Claim
middle = claim "middle" [] (obligation "middle-1" ("base" ∷ []) ∷ obligation "middle-2" [] ∷ [])

abbrev graph : ClaimGraph
graph = record {
  claims =
      ("top", claim "top" ("middle" ∷ []) [])
      ∷ ("middle", middle)
      ∷ ("base", claim "base" [] [])
      ∷ [];
  semantics = builtin_domain_contract math_research;
}

-- Two claims that need each other.
abbrev cyclic : ClaimGraph
cyclic = record {
  claims = ("a", claim "a" ("b" ∷ []) []) ∷ ("b", claim "b" ("a" ∷ []) []) ∷ [];
  semantics = builtin_domain_contract math_research;
}

-- A claim that names itself among its dependencies is accepted: `discard` takes it out.
abbrev selfish : ClaimGraph
selfish = record {
  claims = ("a", claim "a" ("a" ∷ []) []) ∷ [];
  semantics = builtin_domain_contract math_research;
}

closed_top : dependency_claim_closure graph "top" ≡ some (ok ("top" ∷ "middle" ∷ "base" ∷ []))
unfolding dependency_claim_closure resolved_dependency_claim_ids obligation_owners get put squeeze
closed_top = refl

closure_decides_example :
    (r : Result GraphError (List String)) × (dependency_claim_closure graph "top" ≡ some r)
    × IsClosureOf graph "top" r
closure_decides_example = closure_decides graph "top"

cycle_found : visit_claims cyclic ≡ some (raise (dependency_cycle "a"))
unfolding visit_claims resolved_dependency_claim_ids obligation_owners get put squeeze
cycle_found = refl

visit_raises_example : IsBroken cyclic (dependency_cycle "a")
visit_raises_example = visit_raises cyclic (dependency_cycle "a") cycle_found

graph_accepted : validate graph ≡ some (ok tt)
unfolding validate validate_status resolved_dependency_claim_ids obligation_owners get put squeeze
graph_accepted = refl

self_accepted : validate selfish ≡ some (ok tt)
unfolding validate validate_status resolved_dependency_claim_ids obligation_owners get put squeeze
self_accepted = refl

middle_found : get "middle" graph.claims ≡ some middle
unfolding get
middle_found = refl

validate_accepts_example : IsValidClaim graph middle × ¬ Needs graph "middle" "middle"
validate_accepts_example = validate_accepts graph "middle" middle graph_accepted middle_found

validate_returns_example : (r : Result GraphError (Unit {0})) × (validate cyclic ≡ some r)
validate_returns_example = validate_returns cyclic

abbrev middle_frontier : Frontier
middle_frontier = record {
  claim_id = "middle";
  obligations = middle.proof_obligations;
  remaining = middle.proof_obligations;
  next = some (obligation "middle-2" []);
}

-- The first obligation waits for the base, so the second comes next.
middle_waits : research_frontier graph "middle" ≡ ok middle_frontier
unfolding research_frontier in_statuses validate_status get put
middle_waits = refl

frontier_next_example : IsNext graph middle (some (obligation "middle-2" []))
frontier_next_example =
    frontier_next graph "middle" middle middle_frontier refl middle_found middle_waits

abbrev rebuilt : ClaimGraph
rebuilt = record graph {
  claims =
      ("top", claim "top" ("middle" ∷ []) [])
      ∷ ("middle", record middle { downstream_dependents = "top" ∷ [] })
      ∷ ("base", record (claim "base" [] []) { downstream_dependents = "middle" ∷ [] })
      ∷ [];
}

lists_rebuilt : rebuild_dependents graph ≡ ok rebuilt
unfolding rebuild_dependents resolved_dependency_claim_ids obligation_owners get put squeeze
lists_rebuilt = refl

rebuild_dependents_example :
    (elem "middle" (dependents_of rebuilt.claims "base")
      ≡ elem "base" (dependencies_of graph "middle"))
    × (bare_graph rebuilt ≡ bare_graph graph)
rebuild_dependents_example =
    rebuild_dependents_lem graph rebuilt "base" "middle" (refl, (refl, (refl, tt))) lists_rebuilt
