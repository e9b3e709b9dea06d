-- ===== src/Domain/Tests.antt =====
-- domain_semantics.py on concrete statuses and events.
use autonomous_math_ai.Base.{◌≡◌, ◌≤◌, refl, true, some}
use autonomous_math_ai.Base.Dict.{get}
use autonomous_math_ai.Base.Result.{ok}
use autonomous_math_ai.Models.{certificate, e4_certified}
use autonomous_math_ai.Domain.Contract.{
  certified_computational_research, empirical_research, certified, replicated, Transition,
  DomainContract,
}
use autonomous_math_ai.Domain.Builtin.{builtin_domain_contract}
use autonomous_math_ai.Domain.Semantics.{
  validate_status, final_outcome, positive, transition_for, event_transition,
}
use autonomous_math_ai.Domain.Pinned.{outcome_evidence}

abbrev empirical : DomainContract
empirical = builtin_domain_contract empirical_research

abbrev computational : DomainContract
computational = builtin_domain_contract certified_computational_research

replicated_valid : validate_status empirical replicated ≡ ok replicated
unfolding validate_status
replicated_valid = refl

abbrev certifying : Transition
certifying = record { status = some certified; trust_change = true; min_evidence = e4_certified }

certificate_accepted : transition_for computational certificate e4_certified ≡ ok certifying
unfolding transition_for event_transition get
certificate_accepted = refl

certified_positive : final_outcome computational certified ≡ ok (some positive)
unfolding final_outcome validate_status
certified_positive = refl

outcome_evidence_example : 4 ≤ 4
outcome_evidence_example =
    outcome_evidence certified_computational_research certificate e4_certified positive
      certificate_accepted refl certified_positive
