-- ===== src/AuditGate/Tests.antt =====
-- audit_gate.py on a concrete run: a critical theorem candidate that two audits pass.
use autonomous_math_ai.Base.{
  ◌≡◌, ◌<◌, ◌⊎◌, refl, true, false, String, none, some, List, [], ◌∷◌, All, has_duplicates, arith,
  string_eq,
}
use autonomous_math_ai.Base.Text.{squeeze}
use autonomous_math_ai.Base.Dict.{get, put}
use autonomous_math_ai.Base.Result.{ok}
use autonomous_math_ai.Models.{
  theorem_candidate, critical, high, pass, unresolved, e1_numeric, audited_nightly, audit_1_pass,
  audit_pending, TrustStatus, Verdict,
}
use autonomous_math_ai.Models.Events.{CandidateEvent, AuditResult}
use autonomous_math_ai.Domain.Contract.{math_research}
use autonomous_math_ai.Domain.Builtin.{builtin_domain_contract}
use autonomous_math_ai.Domain.Semantics.{
  validate_event_type, required_independent_audits, requires_deterministic_checker,
  requires_frozen_protocol, transition_for, event_transition,
}
use autonomous_math_ai.AuditGate.Gate.{
  CandidateAuditState, AuditGate, register, next_audit_kind, required_audits,
}
use autonomous_math_ai.AuditGate.Record.{
  record_result, settle, admissible, recompute_state, audit_ids, thread_ids,
}
use autonomous_math_ai.AuditGate.Good.{IsClean, Decided}
use autonomous_math_ai.AuditGate.Sound.{new_gate}
use autonomous_math_ai.AuditGate.Trusted.{
  Steps, here, next, registration, recording, trusted_candidate,
}
use autonomous_math_ai.AuditGate.Recompute.{recompute-settle}

abbrev event : CandidateEvent
event = record {
  event_id = "event-1";
  claim_id = "claim-1";
  type = theorem_candidate;
  impact = critical;
  exact_statement = "every  even number";
  artifact_paths = [];
  parent_claim_id = none;
  assumptions = [];
  dependencies = [];
  proposed_evidence_level = e1_numeric;
  timestamp = "t0";
}

abbrev audit : String → String → String → Verdict → AuditResult
audit id thread kind verdict = record {
  audit_id = id;
  candidate_fingerprint = "event-1";
  auditor_thread_id = some thread;
  verdict = verdict;
  audit_kind = kind;
  statement_checked = "every even number ";
  checks = true ∷ [];
  gaps = [];
  verified_evidence_level = e1_numeric;
}

abbrev state : List AuditResult → TrustStatus → CandidateAuditState
state results status = record {
  event = event;
  required = 2;
  results = results;
  trust_status = status;
  terminal = false;
}

abbrev first : AuditResult
first = audit "audit-1" "thread-1" "proof" pass

abbrev second : AuditResult
second = audit "audit-2" "thread-2" "adversarial" pass

abbrev trusted : CandidateAuditState
trusted = record (state (first ∷ second ∷ []) audited_nightly) { terminal = true }

abbrev fingerprint : CandidateEvent → String
fingerprint e = e.event_id

abbrev empty : AuditGate
empty = new_gate high true (builtin_domain_contract math_research)

abbrev gate : CandidateAuditState → AuditGate
gate s = record empty { states = ("event-1", s) ∷ [] }

registered :
    register fingerprint empty event ≡ ok (gate (state [] audit_pending), state [] audit_pending)
unfolding register validate_event_type required_audits required_independent_audits get put
registered = refl

once :
    record_result fingerprint (gate (state [] audit_pending)) first
    ≡ ok (gate (state (first ∷ []) audit_1_pass), audit_1_pass)
unfolding record_result register validate_event_type next_audit_kind admissible settle
    transition_for event_transition requires_deterministic_checker requires_frozen_protocol get put
    squeeze
once = refl

twice :
    record_result fingerprint (gate (state (first ∷ []) audit_1_pass)) second
    ≡ ok (gate trusted, audited_nightly)
unfolding record_result register validate_event_type next_audit_kind admissible settle
    transition_for event_transition requires_deterministic_checker requires_frozen_protocol get put
    squeeze
twice = refl

run : Steps fingerprint empty (gate trusted)
run =
    next (next (next here (registration event registered)) (recording first once))
      (recording second twice)

trusted_candidate_example :
    (fingerprint event ≡ "event-1")
    × Decided trusted
    × (has_duplicates (audit_ids (first ∷ second ∷ [])) ≡ false)
    × (has_duplicates (thread_ids (first ∷ second ∷ [])) ≡ false)
    × All IsClean (first ∷ second ∷ [])
trusted_candidate_example = trusted_candidate fingerprint run "event-1" trusted (unfold get in refl)

abbrev open_question : AuditResult
open_question = audit "audit-2" "thread-2" "adversarial" unresolved

recompute-settle_example :
    (recompute_state (settle (state (first ∷ []) audit_1_pass) open_question)
      ≡ settle (state (first ∷ []) audit_1_pass) open_question)
    ⊎ ((unresolved ≡ unresolved)
        × (0 < 1)
        × ((settle (state (first ∷ []) audit_1_pass) open_question).trust_status ≡ audit_pending)
        × ((recompute_state (settle (state (first ∷ []) audit_1_pass) open_question)).trust_status
            ≡ audit_1_pass))
recompute-settle_example =
    recompute-settle (state (first ∷ []) audit_1_pass) open_question refl refl (omega arith)
