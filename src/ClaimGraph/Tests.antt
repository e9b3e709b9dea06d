-- ===== src/ClaimGraph/Tests.antt =====
-- claim_graph.py on a concrete graph of the certified domain.
use autonomous_math_ai.Base.{
  ℕ, ◌≤◌, ◌≡◌, ◌≢◌, ◌⊎◌, refl, String, none, some, List, [], ◌∷◌, arith, string_eq,
}
use autonomous_math_ai.Base.Dict.{get, put}
use autonomous_math_ai.Base.Result.{ok}
use autonomous_math_ai.Models.{
  certificate, high, e0_speculative, e4_certified, evidence_level_rank, untrusted_candidate,
  audited_nightly, rejected,
}
use autonomous_math_ai.Models.Events.{CandidateEvent}
use autonomous_math_ai.Domain.Contract.{certified_computational_research, supported, certified}
use autonomous_math_ai.Domain.Builtin.{builtin_domain_contract}
use autonomous_math_ai.Domain.Semantics.{
  validate_event_type, transition_for, event_transition, final_outcome, validate_status,
}
use autonomous_math_ai.ClaimGraph.Claim.{Claim, ClaimGraph, ensure_claim_obligations}
use autonomous_math_ai.ClaimGraph.Candidate.{
  mark_candidate, validate_candidate_dependencies, candidate_claim,
}
use autonomous_math_ai.ClaimGraph.Audit.{apply_audit_pass, apply_audit_reject}
use autonomous_math_ai.ClaimGraph.Outcomes.{apply_audit_pass_lem, OutcomeKept}
use autonomous_math_ai.ClaimGraph.Backed.{
  IsBackedGraph, Steps, here, next, marking, passing, Steps-IsBackedGraph,
}
use autonomous_math_ai.ClaimGraph.Untouched.{
  others-apply_audit_pass, mark_candidate-keeps, apply_audit_reject_lem,
}

abbrev event : String → CandidateEvent
event claim_id = record {
  event_id = "event-1";
  claim_id = claim_id;
  type = certificate;
  impact = high;
  exact_statement = "the sum is 7";
  artifact_paths = "certificates/a" ∷ [];
  parent_claim_id = none;
  assumptions = [];
  dependencies = [];
  proposed_evidence_level = e4_certified;
  timestamp = "t0";
}

abbrev empty : ClaimGraph
empty = record { claims = []; semantics = builtin_domain_contract certified_computational_research }

abbrev candidate : Claim
candidate = candidate_claim empty.semantics (event "claim-1")

abbrev marked : ClaimGraph
marked = record empty { claims = ("claim-1", candidate) ∷ [] }

abbrev no_id : String → List ℕ → String
no_id claim_id statement = claim_id

marked_first : mark_candidate no_id empty (event "claim-1") ≡ ok marked
unfolding mark_candidate validate_event_type validate_candidate_dependencies
    ensure_claim_obligations get put
marked_first = refl

abbrev promoted_claim : Claim
promoted_claim = record candidate {
  math_status = certified;
  trust_status = audited_nightly;
  evidence_level = e4_certified;
  current_gaps = [];
  last_meaningful_progress = some "t1";
}

abbrev promoted_graph : ClaimGraph
promoted_graph = record empty { claims = ("claim-1", promoted_claim) ∷ [] }

passed : apply_audit_pass none "t1" (event "claim-1") 1 1 e4_certified marked ≡ ok promoted_graph
unfolding apply_audit_pass transition_for event_transition final_outcome validate_status get put
passed = refl

in_marked : get "claim-1" marked.claims ≡ some candidate
unfolding get
in_marked = refl

apply_audit_pass_example :
    (new : Claim) × (get "claim-1" promoted_graph.claims ≡ some new)
    × (new.statement ≡ candidate.statement)
    × (evidence_level_rank candidate.evidence_level ≤ evidence_level_rank new.evidence_level)
    × OutcomeKept marked.semantics candidate.math_status new.math_status
apply_audit_pass_example =
    apply_audit_pass_lem none "t1" (event "claim-1") 1 1 e4_certified marked candidate passed
      in_marked

two_claims : ◌≢◌ {A = String} "claim-2" "claim-1"
two_claims = ground (arith, string_eq.beq_iff "claim-2" "claim-1")

others-apply_audit_pass_example : get "claim-2" promoted_graph.claims ≡ get "claim-2" marked.claims
others-apply_audit_pass_example =
    others-apply_audit_pass none "t1" (event "claim-1") 1 1 e4_certified marked "claim-2" passed
      two_claims

abbrev both : ClaimGraph
both = record promoted_graph {
  claims =
      ("claim-1", promoted_claim)
      ∷ ("claim-2", candidate_claim empty.semantics (event "claim-2"))
      ∷ [];
}

marked_second : mark_candidate no_id promoted_graph (event "claim-2") ≡ ok both
unfolding mark_candidate validate_event_type validate_candidate_dependencies
    ensure_claim_obligations get put
marked_second = refl

mark_candidate-keeps_example : get "claim-1" both.claims ≡ some promoted_claim
mark_candidate-keeps_example =
    mark_candidate-keeps no_id promoted_graph (event "claim-2") "claim-1" promoted_claim
      marked_second (unfold get in refl)

empty-IsBackedGraph : IsBackedGraph certified_computational_research empty
empty-IsBackedGraph = record { pinned = refl; backed = tt }

run : Steps no_id empty both
run =
    next
      (next (next here (marking (event "claim-1") marked_first))
        (passing none "t1" (event "claim-1") 1 1 e4_certified passed))
      (marking (event "claim-2") marked_second)

Steps-IsBackedGraph_example : IsBackedGraph certified_computational_research both
Steps-IsBackedGraph_example =
    Steps-IsBackedGraph no_id certified_computational_research run empty-IsBackedGraph

-- A claim that was derived from another one for its candidate.
abbrev derived : CandidateEvent
derived = record (event "claim-1") { parent_claim_id = some "main" }

abbrev derived_claim : Claim
derived_claim = candidate_claim empty.semantics derived

abbrev with_derived : ClaimGraph
with_derived = record empty { claims = ("claim-1", derived_claim) ∷ [] }

in_derived : get "claim-1" with_derived.claims ≡ some derived_claim
unfolding get
in_derived = refl

derived_rejected :
    get "claim-1" (apply_audit_reject "t1" derived with_derived).0.claims
    ≡ some (record derived_claim { trust_status = rejected; last_meaningful_progress = some "t1" })
unfolding apply_audit_reject get put
derived_rejected = refl

apply_audit_reject_example :
    (new : Claim) × (get "claim-1" (apply_audit_reject "t1" derived with_derived).0.claims
      ≡ some new)
    × (new.math_status ≡ supported)
    × (new.evidence_level ≡ e0_speculative)
    × ((new ≡ derived_claim)
        ⊎ ((derived_claim.trust_status ≡ untrusted_candidate) × (new.trust_status ≡ rejected)))
apply_audit_reject_example =
    apply_audit_reject_lem "t1" derived with_derived "claim-1" derived_claim in_derived
