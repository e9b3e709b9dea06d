-- ===== src/ClaimGraph/Candidate.antt =====
-- claim_graph.py: how a candidate event finds or makes its claim.
use autonomous_math_ai.Base.{
  Bool, false, not, String, Option, none, some, List, [], ◌∷◌, if◌then◌else◌, map, string_eq,
  option_eq, option_beq, list_beq, list_eq, nat_eq, same_set, ℕ, any,
}
use autonomous_math_ai.Base.Text.{squeeze}
use autonomous_math_ai.Base.Dict.{get, put, has}
use autonomous_math_ai.Base.Result.{Result, ok, raise, ◌>>=◌, ◌>>◌, raise_if}
use autonomous_math_ai.Models.{untrusted_candidate, e0_speculative}
use autonomous_math_ai.Models.Events.{CandidateEvent}
use autonomous_math_ai.Domain.Contract.{DomainContract}
use autonomous_math_ai.Domain.Semantics.{validate_event_type}
use autonomous_math_ai.ClaimGraph.Claim.{
  Claim, ClaimGraph, GraphError, by_semantics, unknown_parent, different_statement,
  different_assumptions, different_dependencies, different_parent, unknown_dependencies,
  ensure_claim_obligations,
}

unfoldable pub validate_candidate_dependencies :
    ClaimGraph → CandidateEvent → Result GraphError (Unit {0})
validate_candidate_dependencies g event =
    raise_if (any (λ d. not (has d g.claims)) event.dependencies) unknown_dependencies

abbrev pub parent_is_unknown : ClaimGraph → Option String → Bool
parent_is_unknown g none = false
parent_is_unknown g (some parent) = not (has parent g.claims)

abbrev pub candidate_claim : DomainContract → CandidateEvent → Claim
candidate_claim d event = record {
  claim_id = event.claim_id;
  statement = event.exact_statement;
  assumptions = event.assumptions;
  math_status = d.candidate_status;
  trust_status = untrusted_candidate;
  dependencies = event.dependencies;
  downstream_dependents = [];
  evidence_paths = event.artifact_paths;
  known_counterexamples = [];
  current_gaps = "independent audit pending" ∷ [];
  active_tasks = [];
  last_meaningful_progress = some event.timestamp;
  parent_claim_id = event.parent_claim_id;
  evidence_level = e0_speculative;
  proof_obligations = [];
}

-- A candidate of a claim that is there must restate the claim.
abbrev pub check_restated : CandidateEvent → Claim → Result GraphError (Unit {0})
check_restated event c =
    if not (list_beq (squeeze c.statement) (squeeze event.exact_statement))
    then raise different_statement
    else if not (same_set (map squeeze event.assumptions) (map squeeze c.assumptions))
    then raise different_assumptions
    else if not (same_set event.dependencies c.dependencies)
    then raise different_dependencies
    else raise_if (not (option_beq event.parent_claim_id c.parent_claim_id)) different_parent

module _ (obligation_id : String → List ℕ → String) where
  -- A new claim comes into the graph with its obligations.
  abbrev pub mark_over : ClaimGraph → CandidateEvent → Option Claim → Result GraphError ClaimGraph
  mark_over g event none = do
    raise_if (parent_is_unknown g event.parent_claim_id) unknown_parent
    c ← ensure_claim_obligations obligation_id g.semantics (candidate_claim g.semantics event)
    ok (record g { claims = put event.claim_id c g.claims })
  mark_over g event (some c) = do check_restated event c; ok g

  unfoldable pub mark_candidate : ClaimGraph → CandidateEvent → Result GraphError ClaimGraph
  mark_candidate g event = do
    valid ← by_semantics (validate_event_type g.semantics event.type)
    validate_candidate_dependencies g event
    mark_over g event (get event.claim_id g.claims)
