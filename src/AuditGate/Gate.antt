-- ===== src/AuditGate/Gate.antt =====
-- audit_gate.py: the state of the gate, registration and the kind of the next audit. The digest
-- that gives a candidate its fingerprint is an argument.
use autonomous_math_ai.Base.{
  ℕ, Bool, true, false, ◌&&◌, ◌||◌, String, Option, none, some, List, [], ◌∷◌, tally, leb,
  if◌then◌else◌, string_eq,
}
use autonomous_math_ai.Base.Dict.{Dict, get, put}
use autonomous_math_ai.Base.Result.{Result, ok, raise, ◌>>=◌}
use autonomous_math_ai.Models.{
  EventType, counterexample, key_refutation, computational_collision, computational_pattern, Impact,
  impact_beq, impact_rank, critical, TrustStatus, audit_pending, pass, reject, verdict_beq,
}
use autonomous_math_ai.Models.Events.{CandidateEvent, AuditResult}
use autonomous_math_ai.Domain.Contract.{DomainContract, DomainError}
use autonomous_math_ai.Domain.Semantics.{
  required_independent_audits, validate_event_type, requires_deterministic_checker,
  requires_frozen_protocol, nat_max,
}

pub record CandidateAuditState : Type 0 where
  pub event : CandidateEvent
  pub required : ℕ
  pub results : List AuditResult
  pub trust_status : TrustStatus
  pub terminal : Bool

pub record AuditGate : Type 0 where
  pub high_threshold : Impact
  pub critical_double_audit : Bool
  pub semantics : DomainContract
  pub states : Dict String CandidateAuditState

pub data GateError : Type 0 where
  domain_error : DomainError → GateError
  unknown_candidate state_terminal different_statement no_pending_audit unexpected_kind
        duplicate_audit_id dependent_thread unclean_pass formal_by_audit evidence_too_high :
      GateError

-- An error of the domain semantics goes through the gate.
abbrev pub from_domain : {A : Type 0} → Result DomainError A → Result GateError A
from_domain (ok a) = ok a
from_domain (raise e) = raise (domain_error e)

abbrev pub is_pass : AuditResult → Bool
is_pass r = verdict_beq r.verdict pass

abbrev pub is_reject : AuditResult → Bool
is_reject r = verdict_beq r.verdict reject

abbrev pub passes : List AuditResult → ℕ
passes results = tally is_pass results

abbrev pub configured_audits : AuditGate → Impact → ℕ
configured_audits g impact =
    if impact_beq impact critical && g.critical_double_audit
    then 2
    else if leb (impact_rank g.high_threshold) (impact_rank impact)
    then 1
    else 0

unfoldable pub required_audits : AuditGate → CandidateEvent → Result GateError ℕ
required_audits g event = do
  packed ←
      from_domain (required_independent_audits g.semantics event.impact g.critical_double_audit)
  ok (nat_max (configured_audits g event.impact) packed)

abbrev pub is_counterexample : EventType → Bool
is_counterexample counterexample = true
is_counterexample key_refutation = true
is_counterexample _ = false

abbrev pub is_computation : EventType → Bool
is_computation computational_collision = true
is_computation computational_pattern = true
is_computation _ = false

-- The last part of `next_audit_kind`, for an event without an evidence gate.
abbrev pub kind_by_type : EventType → List AuditResult → String
kind_by_type type [] =
    if is_counterexample type
    then "counterexample"
    else if is_computation type
    then "independent_evaluator"
    else "proof"
kind_by_type type (r ∷ rs) =
    if is_counterexample type || is_computation type then "independent_evaluator" else "adversarial"

-- `next_audit_kind` behind the registration
abbrev pub pending_kind :
    AuditGate → CandidateEvent → CandidateAuditState → Result GateError (Option String)
pending_kind g event state =
    if state.terminal
    then ok none
    else if leb state.required (passes state.results)
    then ok none
    else do
      checker ← from_domain (requires_deterministic_checker g.semantics event.type)
      protocol ← from_domain (requires_frozen_protocol g.semantics event.type)
      ok (
          some (
            if checker || protocol
            then "independent_evaluator"
            else kind_by_type event.type state.results))

module _ (fingerprint : CandidateEvent → String) where
  abbrev pub fresh_state : AuditGate → CandidateEvent → ℕ → AuditGate × CandidateAuditState
  fresh_state g event required =
      let state : CandidateAuditState = record {
        event = event;
        required = required;
        results = [];
        trust_status = audit_pending;
        terminal = false;
      } in
      (record g { states = put (fingerprint event) state g.states }, state)

  abbrev pub register_over :
      AuditGate
      → CandidateEvent
      → Option CandidateAuditState
      → Result GateError (AuditGate × CandidateAuditState)
  register_over g event (some state) = ok (g, state)
  register_over g event none = do
    required ← required_audits g event
    ok (fresh_state g event required)

  unfoldable pub register :
      AuditGate → CandidateEvent → Result GateError (AuditGate × CandidateAuditState)
  register g event = do
    valid ← from_domain (validate_event_type g.semantics event.type)
    register_over g event (get (fingerprint event) g.states)

  unfoldable pub next_audit_kind :
      AuditGate → CandidateEvent → Result GateError (AuditGate × Option String)
  unfolding register
  next_audit_kind g event = do
    registered ← register g event
    kind ← pending_kind registered.0 event registered.1
    ok (registered.0, kind)
