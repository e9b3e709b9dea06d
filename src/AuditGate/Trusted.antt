-- ===== src/AuditGate/Trusted.antt =====
-- Runs of the audit gate: any sequence of the calls of `AuditGate` that change its state, from
-- `AuditGate.__init__` on.
use autonomous_math_ai.Base.{
  ◌≡◌, Bool, false, String, Option, some, List, All, has_duplicates, string_eq,
}
use autonomous_math_ai.Base.Dict.{get, All-get}
use autonomous_math_ai.Base.Result.{ok}
use autonomous_math_ai.Models.{TrustStatus, Impact}
use autonomous_math_ai.Models.Events.{CandidateEvent, AuditResult}
use autonomous_math_ai.Domain.Contract.{DomainContract}
use autonomous_math_ai.AuditGate.Gate.{CandidateAuditState, AuditGate, register, next_audit_kind}
use autonomous_math_ai.AuditGate.Record.{record_result, discard_pass_results, audit_ids, thread_ids}
use autonomous_math_ai.AuditGate.Good.{IsClean, Decided}
use autonomous_math_ai.AuditGate.Sound.{
  new_gate, IsOwn, IsSound, register-IsSound, next_audit_kind-IsSound, record_result-IsSound,
  discard-IsSound,
}

module _ (fingerprint : CandidateEvent → String) where
  pub data Step (g : AuditGate) : AuditGate → Type 0 where
    registration :
        {h : AuditGate} {s : CandidateAuditState} (event : CandidateEvent)
        → register fingerprint g event ≡ ok (h, s)
        → Step g h
    question :
        {h : AuditGate} {kind : Option String} (event : CandidateEvent)
        → next_audit_kind fingerprint g event ≡ ok (h, kind)
        → Step g h
    recording :
        {h : AuditGate} {status : TrustStatus} (r : AuditResult)
        → record_result fingerprint g r ≡ ok (h, status)
        → Step g h
    discarding :
        {h : AuditGate} {gone : List AuditResult} (key : String) (ids : List String)
        → discard_pass_results g key ids ≡ ok (h, gone)
        → Step g h

  pub data Steps (g : AuditGate) : AuditGate → Type 0 where
    here : Steps g g
    next : {h i : AuditGate} → Steps g h → Step h i → Steps g i

  Step-IsSound : {g h : AuditGate} → Step g h → IsSound fingerprint g → IsSound fingerprint h
  Step-IsSound {g} (registration event e) sound = register-IsSound fingerprint g event e sound
  Step-IsSound {g} (question event e) sound = next_audit_kind-IsSound fingerprint g event e sound
  Step-IsSound {g} (recording r e) sound = record_result-IsSound fingerprint g r e sound
  Step-IsSound {g} (discarding key ids e) sound = discard-IsSound fingerprint g key ids e sound

  Steps-IsSound : {g h : AuditGate} → Steps g h → IsSound fingerprint g → IsSound fingerprint h
  Steps-IsSound here sound = sound
  Steps-IsSound (next steps step) sound = Step-IsSound step (Steps-IsSound steps sound)

  -- In a gate that any sequence of registrations, questions for the next audit, recorded results
  -- and discards has brought from the new one, the state under a key belongs to an event of that
  -- fingerprint and is one of three: terminal and AUDITED_NIGHTLY with at least as many PASS
  -- results as required and no REJECT; terminal and REJECTED with a REJECT; or live and
  -- AUDIT_PENDING or AUDIT_1_PASS, without a REJECT, and with fewer PASS results than required or
  -- none. Its audit ids are distinct, its thread ids too, and no PASS lacks checks, has a check
  -- that did not pass, or has gaps.
  pub trusted_candidate :
      {threshold : Impact} {double : Bool} {semantics : DomainContract} {g : AuditGate}
      → Steps (new_gate threshold double semantics) g
      → (key : String) (s : CandidateAuditState) → get key g.states ≡ some s
      → (fingerprint s.event ≡ key)
        × Decided s
        × (has_duplicates (audit_ids s.results) ≡ false)
        × (has_duplicates (thread_ids s.results) ≡ false)
        × All IsClean s.results
  trusted_candidate {g = g} steps key s at =
      let (own, good) = All-get (IsOwn fingerprint) key s g.states (Steps-IsSound steps tt) at in
      (own, good.decided, good.ids, good.threads, good.clean)
