-- ===== src/Domain/Pinned.antt =====
-- domain_semantics.py: the answers of the pinned contracts.
use autonomous_math_ai.Base.{ℕ, ◌≤◌, ◌≡◌, ◌≢◌, ◌↔◌, ◌⊎◌, Bool, true, false, none, some, arith}
use autonomous_math_ai.Base.Result.{ok}
use autonomous_math_ai.Models.{
  EventType, EvidenceLevel, Impact, critical, evidence_level_rank, representation_bridge,
  event_type_eq, impact_eq,
}
use autonomous_math_ai.Domain.Contract.{
  Domain, math_research, certified_computational_research, empirical_research, ClaimStatus,
  claim_status_eq, Transition, DomainContract,
}
use autonomous_math_ai.Domain.Builtin.{builtin_domain_contract}
use autonomous_math_ai.Domain.Semantics.{
  validate_status, validate_event_type, is_frontier, dependency_is_satisfied,
  dependency_is_refuting, final_outcome, Outcome, positive, negative, in_statuses, transition_for,
  required_independent_audits, requires_deterministic_checker, requires_frozen_protocol,
}

-- A valid status of a pinned domain satisfies dependencies exactly where its outcome is positive,
-- refutes them exactly where it is negative, and is not in the frontier or has no outcome.
pub status_roles :
    (d : Domain) (s : ClaimStatus)
    → validate_status (builtin_domain_contract d) s ≡ ok s
    → ((dependency_is_satisfied (builtin_domain_contract d) s ≡ ok true)
        ↔ (final_outcome (builtin_domain_contract d) s ≡ ok (some positive)))
      × ((dependency_is_refuting (builtin_domain_contract d) s ≡ ok true)
          ↔ (final_outcome (builtin_domain_contract d) s ≡ ok (some negative)))
      × ((is_frontier (builtin_domain_contract d) s ≡ ok false)
          ⊎ (final_outcome (builtin_domain_contract d) s ≡ ok none))
unfolding in_statuses final_outcome
status_roles math_research s h = ground arith
status_roles certified_computational_research s h = ground arith
status_roles empirical_research s h = ground arith

-- The least evidence rank behind an outcome of a domain.
abbrev pub evidence_floor : Domain → Outcome → ℕ
evidence_floor math_research outcome = 0
evidence_floor certified_computational_research positive = 4
evidence_floor certified_computational_research negative = 2
evidence_floor empirical_research positive = 3
evidence_floor empirical_research negative = 2

-- An audited event that moves a claim to a status with an outcome has the evidence that the domain
-- demands of that outcome: a certificate for CERTIFIED, redundant exact evidence for CONFIRMED and
-- REPLICATED, exact tests for a refutation.
pub outcome_evidence :
    (d : Domain) (event_type : EventType) (level : EvidenceLevel) (outcome : Outcome)
    {t : Transition} {s : ClaimStatus}
    → transition_for (builtin_domain_contract d) event_type level ≡ ok t
    → t.status ≡ some s
    → final_outcome (builtin_domain_contract d) s ≡ ok (some outcome)
    → evidence_floor d outcome ≤ evidence_level_rank level
unfolding transition_for final_outcome
outcome_evidence math_research event_type level outcome h e o = omega arith
outcome_evidence certified_computational_research event_type level outcome h e o = ground arith
outcome_evidence empirical_research event_type level outcome h e o = ground arith

-- More evidence never loses a transition, in any contract.
pub transition_for_mono :
    (d : DomainContract) (event_type : EventType) (low high : EvidenceLevel) {t : Transition}
    → transition_for d event_type low ≡ ok t
    → evidence_level_rank low ≤ evidence_level_rank high
    → transition_for d event_type high ≡ ok t
unfolding transition_for
transition_for_mono d event_type low high h le = ground arith

-- How many audits an event takes: two where double audit meets a critical event, else none in
-- mathematics and one elsewhere.
abbrev pub audits_needed : Domain → Impact → Bool → ℕ
audits_needed d critical true = 2
audits_needed math_research impact double = 0
audits_needed d impact double = 1

-- In every pinned domain the number of independent audits is two where double audit meets a
-- critical event, else none in mathematics and one elsewhere.
pub required_audits_table :
    (d : Domain) (impact : Impact) (double : Bool)
    → required_independent_audits (builtin_domain_contract d) impact double
      ≡ ok (audits_needed d impact double)
unfolding required_independent_audits
required_audits_table math_research impact double = ground arith
required_audits_table certified_computational_research impact double = ground arith
required_audits_table empirical_research impact double = ground arith

abbrev pub is_certified : Domain → Bool
is_certified certified_computational_research = true
is_certified _ = false

abbrev pub is_empirical : Domain → Bool
is_empirical empirical_research = true
is_empirical _ = false

-- An event type of a pinned domain that is not a representation bridge needs a deterministic
-- checker exactly in the certified domain, and a frozen protocol exactly in the empirical one.
pub evidence_gates :
    (d : Domain) (event_type : EventType)
    → validate_event_type (builtin_domain_contract d) event_type ≡ ok event_type
    → event_type ≢ representation_bridge
    → (requires_deterministic_checker (builtin_domain_contract d) event_type ≡ ok (is_certified d))
      × (requires_frozen_protocol (builtin_domain_contract d) event_type ≡ ok (is_empirical d))
unfolding requires_deterministic_checker requires_frozen_protocol
evidence_gates math_research event_type h ne = ground arith
evidence_gates certified_computational_research event_type h ne = ground arith
evidence_gates empirical_research event_type h ne = ground arith
