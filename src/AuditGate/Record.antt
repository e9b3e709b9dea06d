-- ===== src/AuditGate/Record.antt =====
-- audit_gate.py: what an audit result does to the state of its candidate.
use autonomous_math_ai.Base.{
  ℕ, Bool, true, false, not, ◌&&◌, ◌||◌, String, Option, none, some, List, [], ◌∷◌, ◌++◌, is_empty,
  any, all, keep, elem, leb, ltb, if◌then◌else◌, string_eq, ◌==◌, list_beq, nat_eq,
}
use autonomous_math_ai.Base.Text.{squeeze}
use autonomous_math_ai.Base.Dict.{get, put}
use autonomous_math_ai.Base.Result.{Result, ok, raise, ◌>>=◌, ◌>>◌, raise_if}
use autonomous_math_ai.Models.{
  TrustStatus, audit_pending, audit_1_pass, audited_nightly, rejected, pass, reject, unresolved,
  EvidenceLevel, e0_speculative, e2_exact_tested, e3_redundant_exact, e5_formal, evidence_level_beq,
  evidence_level_rank,
}
use autonomous_math_ai.Models.Events.{CandidateEvent, AuditResult}
use autonomous_math_ai.Domain.Semantics.{transition_for}
use autonomous_math_ai.AuditGate.Gate.{
  CandidateAuditState, AuditGate, GateError, from_domain, is_pass, is_reject, passes,
  next_audit_kind, unknown_candidate, state_terminal, different_statement, no_pending_audit,
  unexpected_kind, duplicate_audit_id, dependent_thread, unclean_pass, formal_by_audit,
  evidence_too_high,
}

-- `_recompute_state`
unfoldable pub recompute_state : CandidateAuditState → CandidateAuditState
recompute_state s =
    if any is_reject s.results
    then record s { trust_status = rejected; terminal = true }
    else if leb s.required (passes s.results)
    then record s { trust_status = audited_nightly; terminal = true }
    else if ltb 0 (passes s.results)
    then record s { trust_status = audit_1_pass; terminal = false }
    else record s { trust_status = audit_pending; terminal = false }

-- A thread id that is given and not empty.
abbrev pub thread_of : Option String → List String
thread_of none = []
thread_of (some t) = if t == "" then [] else t ∷ []

abbrev pub thread_ids : List AuditResult → List String
thread_ids [] = []
thread_ids (r ∷ rs) = thread_of r.auditor_thread_id ++ thread_ids rs

abbrev pub repeats_thread : Option String → List AuditResult → Bool
repeats_thread none results = false
repeats_thread (some t) results = not (t == "") && elem t (thread_ids results)

abbrev pub audit_ids : List AuditResult → List String
audit_ids [] = []
audit_ids (r ∷ rs) = r.audit_id ∷ audit_ids rs

-- A PASS has checks, all of them passed, and no gaps.
abbrev pub is_clean : AuditResult → Bool
is_clean r = not (is_empty r.checks) && (is_empty r.gaps && all (λ c. c) r.checks)

abbrev pub is_redundant_upgrade : CandidateEvent → AuditResult → Bool
is_redundant_upgrade event r =
    evidence_level_beq event.proposed_evidence_level e2_exact_tested
    && (evidence_level_beq r.verified_evidence_level e3_redundant_exact
        && r.audit_kind == "independent_evaluator")

-- The evidence that an audit may verify.
abbrev pub is_within_evidence : CandidateEvent → AuditResult → Bool
is_within_evidence event r =
    leb (evidence_level_rank r.verified_evidence_level)
      (evidence_level_rank event.proposed_evidence_level)
    || is_redundant_upgrade event r

-- The state after the result was appended: the last statements of `record`.
unfoldable pub settle : CandidateAuditState → AuditResult → CandidateAuditState
settle s r =
    let results = s.results ++ r ∷ [] in
    elim r.verdict [
      | reject ↦ record s { results = results; trust_status = rejected; terminal = true }
      | unresolved ↦ record s { results = results; trust_status = audit_pending; terminal = false }
      | pass ↦
          if leb s.required (passes results)
          then record s { results = results; trust_status = audited_nightly; terminal = true }
          else record s { results = results; trust_status = audit_1_pass }
    ]

abbrev pub expect_kind : AuditResult → Option String → Result GateError (Unit {0})
expect_kind r none = raise no_pending_audit
expect_kind r (some kind) = raise_if (not (r.audit_kind == kind)) unexpected_kind

abbrev pub state_of : AuditGate → String → Result GateError CandidateAuditState
state_of g fingerprint = elim (get fingerprint g.states) [
  | none ↦ raise unknown_candidate
  | some s ↦ ok s
]

-- The checks of one result that do not need the gate.
unfoldable pub admissible : CandidateAuditState → AuditResult → Result GateError (Unit {0})
admissible s r = do
  raise_if (elem r.audit_id (audit_ids s.results)) duplicate_audit_id
  raise_if (repeats_thread r.auditor_thread_id s.results) dependent_thread
  raise_if (is_pass r && not (is_clean r)) unclean_pass
  raise_if (evidence_level_beq r.verified_evidence_level e5_formal) formal_by_audit
  raise_if (not (is_within_evidence s.event r)) evidence_too_high

abbrev pub supported_transition :
    AuditGate → CandidateAuditState → AuditResult → Result GateError (Unit {0})
supported_transition g s r =
    if is_pass r
    then (do
      transition ← from_domain (transition_for g.semantics s.event.type r.verified_evidence_level)
      ok tt)
    else ok tt

module _ (fingerprint : CandidateEvent → String) where
  unfoldable pub record_result :
      AuditGate → AuditResult → Result GateError (AuditGate × TrustStatus)
  record_result g r = do
    s ← state_of g r.candidate_fingerprint
    raise_if s.terminal state_terminal
    raise_if (not (list_beq (squeeze r.statement_checked) (squeeze s.event.exact_statement)))
        different_statement
    asked ← next_audit_kind fingerprint g s.event
    expect_kind r asked.1
    admissible s r
    supported_transition g s r
    let after = settle s r
    ok (
      record asked.0 { states = put r.candidate_fingerprint after asked.0.states },
      after.trust_status,
    )

-- `discard_pass_results`: the new gate and the results that were discarded.
abbrev pub is_discarded : List String → AuditResult → Bool
is_discarded ids r = is_pass r && elem r.audit_id ids

unfoldable pub discard_from : List String → CandidateAuditState → CandidateAuditState
unfolding recompute_state
discard_from ids s =
    let discarded = audit_ids (keep (is_discarded ids) s.results) in
    if is_empty discarded
    then s
    else recompute_state
        (record s { results = keep (λ r. not (elem r.audit_id discarded)) s.results })

unfoldable pub discard_pass_results :
    AuditGate → String → List String → Result GateError (AuditGate × List AuditResult)
unfolding discard_from
discard_pass_results g fingerprint ids = do
  s ← state_of g fingerprint
  ok (
    record g { states = put fingerprint (discard_from ids s) g.states },
    keep (is_discarded ids) s.results,
  )

unfoldable pub pass_count : AuditGate → String → Result GateError ℕ
pass_count g fingerprint = do s ← state_of g fingerprint; ok (passes s.results)

-- `min(passing, key=evidence_rank)`
abbrev least_level : EvidenceLevel → List AuditResult → EvidenceLevel
least_level level [] = level
least_level level (r ∷ rs) =
    least_level
      (if ltb (evidence_level_rank r.verified_evidence_level) (evidence_level_rank level)
        then r.verified_evidence_level
        else level)
      rs

abbrev pub verified_level : List AuditResult → EvidenceLevel
verified_level [] = e0_speculative
verified_level (r ∷ rs) = least_level r.verified_evidence_level rs

unfoldable pub verified_evidence_level : AuditGate → String → Result GateError EvidenceLevel
verified_evidence_level g fingerprint = do
  s ← state_of g fingerprint
  ok (verified_level (keep is_pass s.results))
