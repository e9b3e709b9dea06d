-- ===== src/Domain/Semantics.antt =====
-- domain_semantics.py, `DomainSemantics`: the questions that a contract answers. The frozen object
-- holds the fields of the contract, so the contract stands for it.
use autonomous_math_ai.Base.{ℕ, Bool, ◌&&◌, Option, none, some, List, elem, ltb, if◌then◌else◌}
use autonomous_math_ai.Base.Dict.{get, has}
use autonomous_math_ai.Base.Result.{Result, ok, raise, ◌>>=◌, ◌>>◌, raise_if}
use autonomous_math_ai.Models.{
  EventType, event_type_eq, EvidenceLevel, evidence_level_rank, Impact, impact_eq, impact_beq,
  critical,
}
use autonomous_math_ai.Domain.Contract.{
  ClaimStatus, claim_status_eq, Transition, DomainContract, DomainError, invalid_status,
  unsupported_event_type, insufficient_evidence, missing_impact,
}

unfoldable pub validate_status : DomainContract → ClaimStatus → Result DomainError ClaimStatus
validate_status d status =
    if elem status d.claim_statuses then ok status else raise (invalid_status status)

-- `event_transition`: `validate_event_type`, then a copy of the transition
unfoldable pub event_transition : DomainContract → EventType → Result DomainError Transition
unfolding get
event_transition d event_type = elim (get event_type d.event_transitions) [
  | none ↦ raise (unsupported_event_type event_type)
  | some transition ↦ ok transition
]

unfoldable pub validate_event_type : DomainContract → EventType → Result DomainError EventType
unfolding get
validate_event_type d event_type =
    if has event_type d.event_transitions
    then ok event_type
    else raise (unsupported_event_type event_type)

unfoldable pub transition_for :
    DomainContract → EventType → EvidenceLevel → Result DomainError Transition
unfolding event_transition
transition_for d event_type verified = do
  transition ← event_transition d event_type
  raise_if (ltb (evidence_level_rank verified) (evidence_level_rank transition.min_evidence))
      (insufficient_evidence event_type transition.min_evidence)
  ok transition

-- `is_frontier`, `dependency_is_satisfied` and `dependency_is_refuting`
unfoldable pub in_statuses :
    DomainContract → List ClaimStatus → ClaimStatus → Result DomainError Bool
unfolding validate_status
in_statuses d statuses status = do checked ← validate_status d status; ok (elem checked statuses)

abbrev pub is_frontier : DomainContract → ClaimStatus → Result DomainError Bool
is_frontier d status = in_statuses d d.frontier_statuses status

abbrev pub dependency_is_satisfied : DomainContract → ClaimStatus → Result DomainError Bool
dependency_is_satisfied d status = in_statuses d d.dependency_satisfying status

abbrev pub dependency_is_refuting : DomainContract → ClaimStatus → Result DomainError Bool
dependency_is_refuting d status = in_statuses d d.dependency_refuting status

pub data Outcome : Type 0 where
  positive negative : Outcome

abbrev pub outcome_of : DomainContract → ClaimStatus → Option Outcome
outcome_of d status =
    if elem status d.terminal_positive
    then some positive
    else if elem status d.terminal_negative
    then some negative
    else none

unfoldable pub final_outcome : DomainContract → ClaimStatus → Result DomainError (Option Outcome)
unfolding validate_status
final_outcome d status = do checked ← validate_status d status; ok (outcome_of d checked)

-- Python's `max`
abbrev pub nat_max : ℕ → ℕ → ℕ
nat_max a b = if ltb a b then b else a

unfoldable pub required_independent_audits : DomainContract → Impact → Bool → Result DomainError ℕ
unfolding get
required_independent_audits d impact critical_double_audit =
    elim (get impact d.audit_requirements.impact_minimums) [
      | none ↦ raise missing_impact
      | some required ↦ ok (
          if impact_beq impact critical
            && (critical_double_audit && d.audit_requirements.critical_double_audit)
          then nat_max required 2
          else required)
    ]

unfoldable pub requires_deterministic_checker : DomainContract → EventType → Result DomainError Bool
unfolding validate_event_type
requires_deterministic_checker d event_type = do
  checked ← validate_event_type d event_type
  ok (elem checked d.audit_requirements.deterministic_checker_events)

unfoldable pub requires_frozen_protocol : DomainContract → EventType → Result DomainError Bool
unfolding validate_event_type
requires_frozen_protocol d event_type = do
  checked ← validate_event_type d event_type
  ok (elem checked d.audit_requirements.frozen_protocol_events)
