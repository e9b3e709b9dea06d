-- ===== src/Domain/Builtin.antt =====
-- domain_semantics.py, `_BUILTIN_DOMAIN_CONTRACTS`.
use autonomous_math_ai.Base.{true, false, none, some, [], ◌∷◌}
use autonomous_math_ai.Models.{
  e0_speculative, e2_exact_tested, e3_redundant_exact, e4_certified, low, medium, high, critical,
  theorem_candidate, counterexample, key_lemma, key_refutation, reduction, obstruction, equivalence,
  computational_collision, computational_pattern, representation_bridge, checker_support,
  checker_refutation, certificate, experiment_support, experiment_not_supported, confirmation,
  replication, EventType, EvidenceLevel,
}
use autonomous_math_ai.Domain.Contract.{
  Domain, math_research, certified_computational_research, empirical_research, DomainContract,
  ClaimStatus, Transition, proved, reduced_to, plausible, failed, open_claim, computation_only,
  supported, refuted, inconclusive, certified, not_supported, confirmed, replicated,
}

-- A transition that changes status and trust.
abbrev to : ClaimStatus → EvidenceLevel → Transition
to status level = record { status = some status; trust_change = true; min_evidence = level }

abbrev bridge : Transition
bridge = record { status = none; trust_change = false; min_evidence = e0_speculative }

abbrev pub math_contract : DomainContract
math_contract = record {
  domain = math_research;
  semantics_version = 1;
  claim_statuses = proved ∷ reduced_to ∷ plausible ∷ failed ∷ open_claim ∷ computation_only ∷ [];
  initial_status = open_claim;
  candidate_status = plausible;
  frontier_statuses = open_claim ∷ plausible ∷ reduced_to ∷ [];
  terminal_positive = proved ∷ [];
  terminal_negative = failed ∷ [];
  dependency_satisfying = proved ∷ [];
  dependency_refuting = failed ∷ [];
  obligation_kind = "proof";
  event_transitions =
      (theorem_candidate, to proved e0_speculative)
      ∷ (counterexample, to failed e0_speculative)
      ∷ (key_lemma, to proved e0_speculative)
      ∷ (key_refutation, to failed e0_speculative)
      ∷ (reduction, to reduced_to e0_speculative)
      ∷ (obstruction, to computation_only e0_speculative)
      ∷ (equivalence, to proved e0_speculative)
      ∷ (computational_collision, to computation_only e0_speculative)
      ∷ (computational_pattern, to computation_only e0_speculative)
      ∷ (representation_bridge, bridge)
      ∷ [];
  audit_requirements = record {
    impact_minimums = (low, 0) ∷ (medium, 0) ∷ (high, 0) ∷ (critical, 0) ∷ [];
    critical_double_audit = true;
    deterministic_checker_events = [];
    frozen_protocol_events = [];
  };
}

abbrev pub certified_contract : DomainContract
certified_contract = record {
  domain = certified_computational_research;
  semantics_version = 1;
  claim_statuses = open_claim ∷ supported ∷ refuted ∷ inconclusive ∷ certified ∷ [];
  initial_status = open_claim;
  candidate_status = supported;
  frontier_statuses = open_claim ∷ supported ∷ inconclusive ∷ [];
  terminal_positive = certified ∷ [];
  terminal_negative = refuted ∷ [];
  dependency_satisfying = certified ∷ [];
  dependency_refuting = refuted ∷ [];
  obligation_kind = "certificate";
  event_transitions =
      (checker_support, to supported e2_exact_tested)
      ∷ (checker_refutation, to refuted e2_exact_tested)
      ∷ (certificate, to certified e4_certified)
      ∷ (EventType.inconclusive, to inconclusive e2_exact_tested)
      ∷ (representation_bridge, bridge)
      ∷ [];
  audit_requirements = record {
    impact_minimums = (low, 1) ∷ (medium, 1) ∷ (high, 1) ∷ (critical, 1) ∷ [];
    critical_double_audit = true;
    deterministic_checker_events =
        checker_support ∷ checker_refutation ∷ certificate ∷ EventType.inconclusive ∷ [];
    frozen_protocol_events = [];
  };
}

abbrev pub empirical_contract : DomainContract
empirical_contract = record {
  domain = empirical_research;
  semantics_version = 1;
  claim_statuses =
      open_claim ∷ supported ∷ not_supported ∷ inconclusive ∷ confirmed ∷ replicated ∷ [];
  initial_status = open_claim;
  candidate_status = supported;
  frontier_statuses = open_claim ∷ supported ∷ inconclusive ∷ [];
  terminal_positive = confirmed ∷ replicated ∷ [];
  terminal_negative = not_supported ∷ [];
  dependency_satisfying = confirmed ∷ replicated ∷ [];
  dependency_refuting = not_supported ∷ [];
  obligation_kind = "empirical_protocol";
  event_transitions =
      (experiment_support, to supported e2_exact_tested)
      ∷ (experiment_not_supported, to not_supported e2_exact_tested)
      ∷ (confirmation, to confirmed e3_redundant_exact)
      ∷ (replication, to replicated e3_redundant_exact)
      ∷ (EventType.inconclusive, to inconclusive e2_exact_tested)
      ∷ (representation_bridge, bridge)
      ∷ [];
  audit_requirements = record {
    impact_minimums = (low, 1) ∷ (medium, 1) ∷ (high, 1) ∷ (critical, 1) ∷ [];
    critical_double_audit = true;
    deterministic_checker_events = [];
    frozen_protocol_events =
        experiment_support ∷ experiment_not_supported ∷ confirmation ∷ replication
        ∷ EventType.inconclusive ∷ [];
  };
}

-- `builtin_domain_contract`
abbrev pub builtin_domain_contract : Domain → DomainContract
builtin_domain_contract math_research = math_contract
builtin_domain_contract certified_computational_research = certified_contract
builtin_domain_contract empirical_research = empirical_contract
