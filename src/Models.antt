-- ===== src/Models.antt =====
-- models.py: the enumerations, as data types. A wire value outside an enumeration is refused when
-- the object is built (`from_dict`), so the handlers see these values only.
pub mod Usage
pub mod Events
use autonomous_math_ai.Base.{ℕ, Bool, true, ◌≡◌, ◌↔◌, arith, Eq, nat_beq}

pub data LifecyclePhase : Type 0 where
  bootstrap running draining_failure draining_budget draining_epoch finalizing sealed completed :
      LifecyclePhase

-- The place in the declaration order.
abbrev pub lifecycle_phase_rank : LifecyclePhase → ℕ
lifecycle_phase_rank bootstrap = 0
lifecycle_phase_rank running = 1
lifecycle_phase_rank draining_failure = 2
lifecycle_phase_rank draining_budget = 3
lifecycle_phase_rank draining_epoch = 4
lifecycle_phase_rank finalizing = 5
lifecycle_phase_rank sealed = 6
lifecycle_phase_rank completed = 7

abbrev pub lifecycle_phase_beq : LifecyclePhase → LifecyclePhase → Bool
lifecycle_phase_beq a b = nat_beq (lifecycle_phase_rank a) (lifecycle_phase_rank b)

pub lifecycle_phase_beq_iff : (a b : LifecyclePhase) → (lifecycle_phase_beq a b ≡ true) ↔ (a ≡ b)
lifecycle_phase_beq_iff a b = ground arith

instance abbrev pub lifecycle_phase_eq : Eq LifecyclePhase
lifecycle_phase_eq = record { beq = lifecycle_phase_beq; beq_iff = lifecycle_phase_beq_iff }

pub data TrustStatus : Type 0 where
  untrusted_candidate audit_pending audit_1_pass audit_2_pass audited_nightly rejected
        formally_verified canonical_trusted :
      TrustStatus

-- The place in the declaration order.
abbrev pub trust_status_rank : TrustStatus → ℕ
trust_status_rank untrusted_candidate = 0
trust_status_rank audit_pending = 1
trust_status_rank audit_1_pass = 2
trust_status_rank audit_2_pass = 3
trust_status_rank audited_nightly = 4
trust_status_rank rejected = 5
trust_status_rank formally_verified = 6
trust_status_rank canonical_trusted = 7

abbrev pub trust_status_beq : TrustStatus → TrustStatus → Bool
trust_status_beq a b = nat_beq (trust_status_rank a) (trust_status_rank b)

pub trust_status_beq_iff : (a b : TrustStatus) → (trust_status_beq a b ≡ true) ↔ (a ≡ b)
trust_status_beq_iff a b = ground arith

instance abbrev pub trust_status_eq : Eq TrustStatus
trust_status_eq = record { beq = trust_status_beq; beq_iff = trust_status_beq_iff }

pub data EvidenceLevel : Type 0 where
  e0_speculative e1_numeric e2_exact_tested e3_redundant_exact e4_certified e5_formal :
      EvidenceLevel

-- The place in the declaration order.
abbrev pub evidence_level_rank : EvidenceLevel → ℕ
evidence_level_rank e0_speculative = 0
evidence_level_rank e1_numeric = 1
evidence_level_rank e2_exact_tested = 2
evidence_level_rank e3_redundant_exact = 3
evidence_level_rank e4_certified = 4
evidence_level_rank e5_formal = 5

abbrev pub evidence_level_beq : EvidenceLevel → EvidenceLevel → Bool
evidence_level_beq a b = nat_beq (evidence_level_rank a) (evidence_level_rank b)

pub evidence_level_beq_iff : (a b : EvidenceLevel) → (evidence_level_beq a b ≡ true) ↔ (a ≡ b)
evidence_level_beq_iff a b = ground arith

instance abbrev pub evidence_level_eq : Eq EvidenceLevel
evidence_level_eq = record { beq = evidence_level_beq; beq_iff = evidence_level_beq_iff }

pub data Impact : Type 0 where
  low medium high critical : Impact

-- The place in the declaration order.
abbrev pub impact_rank : Impact → ℕ
impact_rank low = 0
impact_rank medium = 1
impact_rank high = 2
impact_rank critical = 3

abbrev pub impact_beq : Impact → Impact → Bool
impact_beq a b = nat_beq (impact_rank a) (impact_rank b)

pub impact_beq_iff : (a b : Impact) → (impact_beq a b ≡ true) ↔ (a ≡ b)
impact_beq_iff a b = ground arith

instance abbrev pub impact_eq : Eq Impact
impact_eq = record { beq = impact_beq; beq_iff = impact_beq_iff }

pub data EventType : Type 0 where
  theorem_candidate counterexample key_lemma key_refutation reduction obstruction equivalence
        computational_collision computational_pattern representation_bridge checker_support
        checker_refutation certificate experiment_support experiment_not_supported confirmation
        replication inconclusive :
      EventType

-- The place in the declaration order.
abbrev pub event_type_rank : EventType → ℕ
event_type_rank theorem_candidate = 0
event_type_rank counterexample = 1
event_type_rank key_lemma = 2
event_type_rank key_refutation = 3
event_type_rank reduction = 4
event_type_rank obstruction = 5
event_type_rank equivalence = 6
event_type_rank computational_collision = 7
event_type_rank computational_pattern = 8
event_type_rank representation_bridge = 9
event_type_rank checker_support = 10
event_type_rank checker_refutation = 11
event_type_rank certificate = 12
event_type_rank experiment_support = 13
event_type_rank experiment_not_supported = 14
event_type_rank confirmation = 15
event_type_rank replication = 16
event_type_rank inconclusive = 17

abbrev pub event_type_beq : EventType → EventType → Bool
event_type_beq a b = nat_beq (event_type_rank a) (event_type_rank b)

pub event_type_beq_iff : (a b : EventType) → (event_type_beq a b ≡ true) ↔ (a ≡ b)
event_type_beq_iff a b = ground arith

instance abbrev pub event_type_eq : Eq EventType
event_type_eq = record { beq = event_type_beq; beq_iff = event_type_beq_iff }

pub data Verdict : Type 0 where
  pass reject unresolved : Verdict

-- The place in the declaration order.
abbrev pub verdict_rank : Verdict → ℕ
verdict_rank pass = 0
verdict_rank reject = 1
verdict_rank unresolved = 2

abbrev pub verdict_beq : Verdict → Verdict → Bool
verdict_beq a b = nat_beq (verdict_rank a) (verdict_rank b)

pub verdict_beq_iff : (a b : Verdict) → (verdict_beq a b ≡ true) ↔ (a ≡ b)
verdict_beq_iff a b = ground arith

instance abbrev pub verdict_eq : Eq Verdict
verdict_eq = record { beq = verdict_beq; beq_iff = verdict_beq_iff }
