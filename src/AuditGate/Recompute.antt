-- ===== src/AuditGate/Recompute.antt =====
-- audit_gate.py: `_recompute_state` against the last statements of `record`.
use autonomous_math_ai.Base.{◌≡◌, ◌<◌, ◌⊎◌, false, [], ◌∷◌, ◌++◌, tally-append, any-tally, arith}
use autonomous_math_ai.Models.{unresolved, audit_pending, audit_1_pass}
use autonomous_math_ai.Models.Events.{AuditResult}
use autonomous_math_ai.AuditGate.Gate.{CandidateAuditState, is_pass, is_reject, passes}
use autonomous_math_ai.AuditGate.Record.{recompute_state, settle}
use autonomous_math_ai.AuditGate.Good.{rejects}

-- For a live state without rejections that waits for an audit, recomputing after a result changes
-- nothing, but for one case: after an UNRESOLVED result behind a PASS, record leaves AUDIT_PENDING
-- where recomputing gives AUDIT_1_PASS.
pub recompute-settle :
    (s : CandidateAuditState) (r : AuditResult)
    → s.terminal ≡ false
    → rejects s.results ≡ 0
    → passes s.results < s.required
    → (recompute_state (settle s r) ≡ settle s r)
      ⊎ ((r.verdict ≡ unresolved)
          × (0 < passes s.results)
          × ((settle s r).trust_status ≡ audit_pending)
          × ((recompute_state (settle s r)).trust_status ≡ audit_1_pass))
unfolding recompute_state settle
recompute-settle s r live none waits = ground (
  arith,
  tally-append is_pass s.results (r ∷ []),
  tally-append is_reject s.results (r ∷ []),
  any-tally is_reject (s.results ++ r ∷ []),
)
