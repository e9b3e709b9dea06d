-- ===== src/Models/Events.antt =====
-- models.py: candidate events and audit results, with the fields that the gates read.
use autonomous_math_ai.Base.{Bool, String, Option, List}
use autonomous_math_ai.Models.{EventType, EvidenceLevel, Impact, Verdict}

pub record CandidateEvent : Type 0 where
  pub event_id : String
  pub claim_id : String
  pub type : EventType
  pub impact : Impact
  pub exact_statement : String
  pub artifact_paths : List String
  pub parent_claim_id : Option String
  pub assumptions : List String
  pub dependencies : List String
  pub proposed_evidence_level : EvidenceLevel
  pub timestamp : String

-- `checks` keeps, for each check, whether its entry `passed` is the value `True`.
pub record AuditResult : Type 0 where
  pub audit_id : String
  pub candidate_fingerprint : String
  pub auditor_thread_id : Option String
  pub verdict : Verdict
  pub audit_kind : String
  pub statement_checked : String
  pub checks : List Bool
  pub gaps : List String
  pub verified_evidence_level : EvidenceLevel
