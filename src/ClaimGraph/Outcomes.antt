-- ===== src/ClaimGraph/Outcomes.antt =====
-- claim_graph.py, `apply_audit_pass`: what becomes of the outcome and the evidence of a claim.
use autonomous_math_ai.Base.{
  ℕ, ◌≤◌, ◌≡◌, ◌≢◌, ◌⊎◌, inl, inr, refl, sym, ap, ◌∙◌, subst, Bool, true, false, not, ◌&&◌, String,
  Option, none, some, string_eq, arith,
}
use autonomous_math_ai.Base.Dict.{get}
use autonomous_math_ai.Base.Result.{ok, >>=-eq-ok}
use autonomous_math_ai.Models.{EvidenceLevel, evidence_level_rank}
use autonomous_math_ai.Models.Events.{CandidateEvent}
use autonomous_math_ai.Domain.Contract.{ClaimStatus, claim_status_eq, Transition, DomainContract}
use autonomous_math_ai.Domain.Semantics.{Outcome, outcome_of}
use autonomous_math_ai.ClaimGraph.Claim.{Claim, ClaimGraph}
use autonomous_math_ai.ClaimGraph.Audit.{
  Guard, claim_of, is_math, outcome_after, conflict, applies, next_status_of, promoted, promote,
  pass_with, apply_audit_pass,
}
use autonomous_math_ai.ClaimGraph.Promote.{
  final_outcome-outcome_of, get-put_same, promote-eq-ok, status-promoted, pass_with-eq-ok,
}

-- How the outcome of a claim may change: it stays, or it comes to a claim without one, or, in
-- mathematics alone, another outcome takes its place.
abbrev pub OutcomeKept : DomainContract → ClaimStatus → ClaimStatus → Type 0
OutcomeKept d old new =
    (outcome_of d new ≡ outcome_of d old)
    ⊎ (outcome_of d old ≡ none)
    ⊎ ((is_math d.domain ≡ true) × (outcome_of d new ≢ none))

outcome_after-some :
    (d : DomainContract) (s : ClaimStatus) (next : Option Outcome)
    → outcome_after d (some s) ≡ ok next
    → outcome_of d s ≡ next
outcome_after-some d s next h = final_outcome-outcome_of d s next h

applied-OutcomeKept :
    (d : DomainContract) (old : ClaimStatus) (status : Option ClaimStatus) (next : Option Outcome)
    (applied : Bool)
    → outcome_after d status ≡ ok next
    → (not (is_math d.domain) && conflict (outcome_of d old) next) ≡ false
    → applies d old (outcome_of d old) status next ≡ ok applied
    → OutcomeKept d old (next_status_of applied old status)
applied-OutcomeKept d old none next applied after agree taken = ground (arith, taken)
applied-OutcomeKept d old (some s) next applied after agree taken =
    ground (arith, agree, taken, outcome_after-some d s next after)

-- The look-up of a claim that is there.
pub pass_of :
    (guard : Option Guard) (now : String) (event : CandidateEvent) (passes required : ℕ)
    (level : EvidenceLevel) (c : Claim) (g : ClaimGraph) {h : ClaimGraph}
    → apply_audit_pass guard now event passes required level g ≡ ok h
    → get event.claim_id g.claims ≡ some c
    → pass_with guard now event passes required level c g ≡ ok h
unfolding apply_audit_pass
pass_of guard now event passes required level c g {h} e at =
    let (found, looked, rest) = >>=-eq-ok (claim_of g event.claim_id) _ e in
    let same : found ≡ c = ground (arith, looked, at) in
    subst (λ (k : Claim). pass_with guard now event passes required level k g ≡ ok h) same rest

promote_lem :
    (guard : Option Guard) (now : String) (event : CandidateEvent) (level : EvidenceLevel)
    (t : Transition) (old : Claim) (g : ClaimGraph) {h : ClaimGraph}
    → promote guard now event level t old g ≡ ok h
    → (new : Claim) × (get event.claim_id h.claims ≡ some new)
      × (new.statement ≡ old.statement)
      × (evidence_level_rank old.evidence_level ≤ evidence_level_rank new.evidence_level)
      × OutcomeKept g.semantics old.math_status new.math_status
promote_lem guard now event level t old g e =
    let (next, applied, outcome, after, agree, taken, made) =
      promote-eq-ok guard now event level t old g e in
    let new : Claim = promoted g.semantics now event level t applied outcome old in
    let (status, evidence, fits, statement) =
      status-promoted g.semantics now event level t applied outcome old in
    (
      new,
      subst (λ (k : ClaimGraph). get event.claim_id k.claims ≡ some new) (sym made)
          (get-put_same event.claim_id new g.claims),
      statement,
      evidence,
      subst (OutcomeKept g.semantics old.math_status) (sym status)
          (applied-OutcomeKept g.semantics old.math_status t.status next applied after agree taken),
    )

-- An audit pass that is accepted keeps the statement of its claim, never lowers the claim's
-- evidence level, never takes an outcome away, and outside mathematics never turns an outcome into
-- the other one.
pub apply_audit_pass_lem :
    (guard : Option Guard) (now : String) (event : CandidateEvent) (passes required : ℕ)
    (level : EvidenceLevel) (g : ClaimGraph) {h : ClaimGraph} (old : Claim)
    → apply_audit_pass guard now event passes required level g ≡ ok h
    → get event.claim_id g.claims ≡ some old
    → (new : Claim) × (get event.claim_id h.claims ≡ some new)
      × (new.statement ≡ old.statement)
      × (evidence_level_rank old.evidence_level ≤ evidence_level_rank new.evidence_level)
      × OutcomeKept g.semantics old.math_status new.math_status
apply_audit_pass_lem guard now event passes required level g {h} old e at =
    elim (pass_with-eq-ok guard now event passes required level old g
      (pass_of guard now event passes required level old g e at)) [
        | inl same ↦ (
          old,
          ap (λ (k : ClaimGraph). get event.claim_id k.claims) same ∙ at,
          refl,
          omega arith,
          inl refl,
        )
        | inr (t, moves, done) ↦ promote_lem guard now event level t old g done
      ]
