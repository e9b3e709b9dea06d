-- ===== src/ClaimGraph/PruneTests.antt =====
-- claim_graph.py, `prune_failed_dependencies`, on a refuted claim and one that depends on it.
use autonomous_math_ai.Base.{◌≡◌, refl, String, none, some, List, [], ◌∷◌, All, string_eq}
use autonomous_math_ai.Base.Text.{squeeze}
use autonomous_math_ai.Base.Dict.{Dict, get, put}
use autonomous_math_ai.Base.Result.{ok}
use autonomous_math_ai.Models.{e2_exact_tested, audited_nightly, untrusted_candidate, TrustStatus}
use autonomous_math_ai.Domain.Contract.{
  certified_computational_research, ClaimStatus, refuted, supported,
}
use autonomous_math_ai.Domain.Builtin.{builtin_domain_contract}
use autonomous_math_ai.Domain.Semantics.{in_statuses, validate_status}
use autonomous_math_ai.ClaimGraph.Claim.{Claim, ClaimGraph}
use autonomous_math_ai.ClaimGraph.Dependencies.{resolved_dependency_claim_ids, obligation_owners}
use autonomous_math_ai.ClaimGraph.Prune.{
  failed_ids, prune_round, prune_rounds, prune_failed_dependencies,
}
use autonomous_math_ai.ClaimGraph.Rounds.{IsClosed}
use autonomous_math_ai.ClaimGraph.Blocked.{prune_ends}

abbrev claim : String → ClaimStatus → TrustStatus → List String → Claim
claim id status trust dependencies = record {
  claim_id = id;
  statement = "a statement";
  assumptions = [];
  math_status = status;
  trust_status = trust;
  dependencies = dependencies;
  downstream_dependents = [];
  evidence_paths = [];
  known_counterexamples = [];
  current_gaps = [];
  active_tasks = [];
  last_meaningful_progress = none;
  parent_claim_id = none;
  evidence_level = e2_exact_tested;
  proof_obligations = [];
}

abbrev graph : ClaimGraph
graph = record {
  claims =
      ("top", claim "top" supported untrusted_candidate ("middle" ∷ []))
      ∷ ("middle", claim "middle" supported untrusted_candidate ("base" ∷ []))
      ∷ ("base", claim "base" refuted audited_nightly [])
      ∷ [];
  semantics = builtin_domain_contract certified_computational_research;
}

pruned :
    prune_failed_dependencies graph
    ≡ ok (some (("middle", "base" ∷ []) ∷ ("top", "middle" ∷ []) ∷ []))
unfolding prune_failed_dependencies prune_rounds prune_round resolved_dependency_claim_ids
    obligation_owners in_statuses validate_status get put squeeze
pruned = refl

prune_ends_example :
    (failed : List String) × (failed_ids graph.semantics graph.claims ≡ ok failed)
    × (blocked : Dict String (List String)) × (some
          (("middle", "base" ∷ []) ∷ ("top", "middle" ∷ []) ∷ [])
        ≡ some blocked)
    × All (IsClosed (resolved_dependency_claim_ids graph) failed blocked) graph.claims
prune_ends_example = prune_ends graph pruned
