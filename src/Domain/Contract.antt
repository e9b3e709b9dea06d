-- ===== src/Domain/Contract.antt =====
-- domain_semantics.py: the shape of a domain contract. A contract comes from JSON; its lists and
-- dictionaries are kept in their order, and its strings are the values of the enumerations.
use autonomous_math_ai.Base.{ℕ, Bool, true, ◌≡◌, ◌↔◌, arith, Eq, nat_beq, String, Option, List}
use autonomous_math_ai.Base.Dict.{Dict}
use autonomous_math_ai.Models.{EventType, EvidenceLevel, Impact}

pub data Domain : Type 0 where
  math_research certified_computational_research empirical_research : Domain

-- The claim statuses of all domains.
pub data ClaimStatus : Type 0 where
  proved reduced_to plausible failed open_claim computation_only supported refuted inconclusive
        certified not_supported confirmed replicated :
      ClaimStatus

abbrev pub claim_status_rank : ClaimStatus → ℕ
claim_status_rank proved = 0
claim_status_rank reduced_to = 1
claim_status_rank plausible = 2
claim_status_rank failed = 3
claim_status_rank open_claim = 4
claim_status_rank computation_only = 5
claim_status_rank supported = 6
claim_status_rank refuted = 7
claim_status_rank inconclusive = 8
claim_status_rank certified = 9
claim_status_rank not_supported = 10
claim_status_rank confirmed = 11
claim_status_rank replicated = 12

abbrev pub claim_status_beq : ClaimStatus → ClaimStatus → Bool
claim_status_beq a b = nat_beq (claim_status_rank a) (claim_status_rank b)

pub claim_status_beq_iff : (a b : ClaimStatus) → (claim_status_beq a b ≡ true) ↔ (a ≡ b)
claim_status_beq_iff a b = ground arith

instance abbrev pub claim_status_eq : Eq ClaimStatus
claim_status_eq = record { beq = claim_status_beq; beq_iff = claim_status_beq_iff }

pub record Transition : Type 0 where
  pub status : Option ClaimStatus
  pub trust_change : Bool
  pub min_evidence : EvidenceLevel

pub record AuditRequirements : Type 0 where
  pub impact_minimums : Dict Impact ℕ
  pub critical_double_audit : Bool
  pub deterministic_checker_events : List EventType
  pub frozen_protocol_events : List EventType

pub record DomainContract : Type 0 where
  pub domain : Domain
  pub semantics_version : ℕ
  pub claim_statuses : List ClaimStatus
  pub initial_status : ClaimStatus
  pub candidate_status : ClaimStatus
  pub frontier_statuses : List ClaimStatus
  pub terminal_positive : List ClaimStatus
  pub terminal_negative : List ClaimStatus
  pub dependency_satisfying : List ClaimStatus
  pub dependency_refuting : List ClaimStatus
  pub obligation_kind : String
  pub event_transitions : Dict EventType Transition
  pub audit_requirements : AuditRequirements

-- `ValueError` and `KeyError` of the module
pub data DomainError : Type 0 where
  unsupported_version duplicates unknown_statuses undeclared_status overlapping_terminals
        empty_obligation_kind no_transitions unknown_transition_status bridge_not_no_op
        wrong_impact_keys unknown_events contract_not_pinned missing_impact :
      DomainError
  invalid_status : ClaimStatus → DomainError
  unsupported_event_type : EventType → DomainError
  insufficient_evidence : EventType → EvidenceLevel → DomainError
