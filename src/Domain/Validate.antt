-- ===== src/Domain/Validate.antt =====
-- domain_semantics.py, `_validate_contract`: its checks in order, up to the comparison with the
-- pinned contract. The checks of JSON types have no counterpart, since a contract is typed here.
use autonomous_math_ai.Base.{
  ℕ, ◌≡◌, Bool, true, false, not, ◌&&◌, Option, none, some, List, elem, any, all, length, is_empty,
  has_duplicates, has_unknown, list_beq, Eq, nat_beq, option_beq, string_eq, refl,
}
use autonomous_math_ai.Base.Dict.{Dict, get, has}
use autonomous_math_ai.Base.Result.{Result, ok, ◌>>◌, raise_if}
use autonomous_math_ai.Models.{
  EventType, event_type_eq, evidence_level_beq, Impact, impact_eq, low, medium, high, critical,
  representation_bridge,
}
use autonomous_math_ai.Domain.Contract.{
  ClaimStatus, claim_status_eq, claim_status_beq, Transition, AuditRequirements, DomainContract,
  DomainError, Domain, unsupported_version, duplicates, unknown_statuses, undeclared_status,
  overlapping_terminals, empty_obligation_kind, no_transitions, unknown_transition_status,
  bridge_not_no_op, wrong_impact_keys, unknown_events, contract_not_pinned, math_research,
  certified_computational_research, empirical_research,
}
use autonomous_math_ai.Domain.Builtin.{builtin_domain_contract}

module _ {A : Type 0} ⦃e : Eq A⦄ where
  -- `==` of two dictionaries of distinct keys
  abbrev pub dict_beq : {V : Type 0} → (V → V → Bool) → Dict A V → Dict A V → Bool
  dict_beq same m n =
      nat_beq (length m) (length n)
      && all (λ p. elim (get p.0 n) [ none ↦ false | some v ↦ same p.1 v ]) m

abbrev pub bool_beq : Bool → Bool → Bool
bool_beq true b = b
bool_beq false b = not b

abbrev pub domain_beq : Domain → Domain → Bool
domain_beq math_research math_research = true
domain_beq certified_computational_research certified_computational_research = true
domain_beq empirical_research empirical_research = true
domain_beq _ _ = false

abbrev pub transition_beq : Transition → Transition → Bool
transition_beq s t =
    option_beq s.status t.status
    && (bool_beq s.trust_change t.trust_change && evidence_level_beq s.min_evidence t.min_evidence)

abbrev pub requirements_beq : AuditRequirements → AuditRequirements → Bool
requirements_beq a b =
    dict_beq nat_beq a.impact_minimums b.impact_minimums
    && (bool_beq a.critical_double_audit b.critical_double_audit
        && (list_beq a.deterministic_checker_events b.deterministic_checker_events
            && list_beq a.frozen_protocol_events b.frozen_protocol_events))

-- `normalized != _BUILTIN_DOMAIN_CONTRACTS[domain]`, negated
abbrev pub contract_beq : DomainContract → DomainContract → Bool
contract_beq c d =
    domain_beq c.domain d.domain
    && (nat_beq c.semantics_version d.semantics_version
        && (list_beq c.claim_statuses d.claim_statuses
            && (claim_status_beq c.initial_status d.initial_status
                && (claim_status_beq c.candidate_status d.candidate_status
                    && (list_beq c.frontier_statuses d.frontier_statuses
                        && (list_beq c.terminal_positive d.terminal_positive
                            && (list_beq c.terminal_negative d.terminal_negative
                                && (list_beq c.dependency_satisfying d.dependency_satisfying
                                    && (list_beq c.dependency_refuting d.dependency_refuting
                                        && (string_eq.beq c.obligation_kind d.obligation_kind
                                            && (dict_beq transition_beq c.event_transitions
                                                  d.event_transitions
                                                && requirements_beq c.audit_requirements
                                                    d.audit_requirements)))))))))))

abbrev check_statuses : List ClaimStatus → List ClaimStatus → Result DomainError (Unit {0})
check_statuses statuses listed = do
  raise_if (has_duplicates listed) duplicates
  raise_if (has_unknown listed statuses) unknown_statuses

abbrev status_is_unknown : List ClaimStatus → EventType × Transition → Bool
status_is_unknown statuses (event_type, transition) = elim transition.status [
  | none ↦ false
  | some status ↦ not (elem status statuses)
]

-- `bridge is None or bridge["status"] is not None or bridge["trust_change"]`
abbrev bridge_acts : Option Transition → Bool
bridge_acts none = true
bridge_acts (some t) = elim t.status [ none ↦ t.trust_change | some status ↦ true ]

abbrev check_events : DomainContract → List EventType → Result DomainError (Unit {0})
check_events c events = do
  raise_if (has_duplicates events) duplicates
  raise_if (any (λ e. not (has e c.event_transitions)) events) unknown_events

abbrev keys_are_impacts : Dict Impact ℕ → Bool
keys_are_impacts m =
    nat_beq (length m) 4 && (has low m && (has medium m && (has high m && has critical m)))

unfoldable pub validate_contract : DomainContract → Result DomainError DomainContract
unfolding get
validate_contract c = do
  raise_if (not (nat_beq c.semantics_version 1)) unsupported_version
  raise_if (has_duplicates c.claim_statuses) duplicates
  check_statuses c.claim_statuses c.frontier_statuses
  check_statuses c.claim_statuses c.terminal_positive
  check_statuses c.claim_statuses c.terminal_negative
  check_statuses c.claim_statuses c.dependency_satisfying
  check_statuses c.claim_statuses c.dependency_refuting
  raise_if (not (elem c.initial_status c.claim_statuses)) undeclared_status
  raise_if (not (elem c.candidate_status c.claim_statuses)) undeclared_status
  raise_if (any (λ s. elem s c.terminal_negative) c.terminal_positive) overlapping_terminals
  raise_if (string_eq.beq c.obligation_kind "") empty_obligation_kind
  raise_if (is_empty c.event_transitions) no_transitions
  raise_if (any (status_is_unknown c.claim_statuses) c.event_transitions) unknown_transition_status
  raise_if (bridge_acts (get representation_bridge c.event_transitions)) bridge_not_no_op
  raise_if (not (keys_are_impacts c.audit_requirements.impact_minimums)) wrong_impact_keys
  check_events c c.audit_requirements.deterministic_checker_events
  check_events c c.audit_requirements.frozen_protocol_events
  raise_if (not (contract_beq c (builtin_domain_contract c.domain))) contract_not_pinned
  ok c

-- `domain_semantics_from_contract`
unfoldable pub domain_semantics_from_contract :
    Option DomainContract → Result DomainError DomainContract
unfolding validate_contract
domain_semantics_from_contract none = validate_contract (builtin_domain_contract math_research)
domain_semantics_from_contract (some c) = validate_contract c

-- Each pinned contract passes every check and is returned as it is.
pub builtin_accepted :
    (d : Domain)
    → domain_semantics_from_contract (some (builtin_domain_contract d))
      ≡ ok (builtin_domain_contract d)
unfolding domain_semantics_from_contract
builtin_accepted math_research = refl
builtin_accepted certified_computational_research = refl
builtin_accepted empirical_research = refl
