-- ===== src/ClaimGraph/Audit.antt =====
-- claim_graph.py: what candidates and audits do to the claims. The clock is the argument `now`; the
-- guard of terminal transitions is a callback that the controller may set.
use autonomous_math_ai.Base.{
  ℕ, Bool, true, false, not, ◌&&◌, ◌||◌, String, Option, none, some, List, [], ◌++◌, ltb,
  if◌then◌else◌, map, string_eq, ◌==◌, option_eq, nat_eq, option_beq,
}
use autonomous_math_ai.Base.Dict.{get, put}
use autonomous_math_ai.Base.Result.{Result, ok, raise, ◌>>=◌, ◌>>◌, raise_if}
use autonomous_math_ai.Models.{
  untrusted_candidate, audited_nightly, rejected, trust_status_beq, EvidenceLevel,
  evidence_level_rank,
}
use autonomous_math_ai.Models.Events.{CandidateEvent}
use autonomous_math_ai.Domain.Contract.{
  Domain, math_research, ClaimStatus, claim_status_beq, Transition, DomainContract,
}
use autonomous_math_ai.Domain.Semantics.{
  Outcome, positive, negative, final_outcome, is_frontier, transition_for,
}
use autonomous_math_ai.ClaimGraph.Claim.{
  Claim, ClaimGraph, ProofObligation, ObligationStatus, discharged, refuted, is_unsettled,
  GraphError, by_semantics, unknown_claim, terminal_conflict, refused_by_guard, sorted_set,
}

-- `self._terminal_transition_guard`: it raises or lets the transition pass.
abbrev pub Guard : Type 0
Guard = CandidateEvent → ClaimStatus → EvidenceLevel → Bool

abbrev pub claim_of : ClaimGraph → String → Result GraphError Claim
claim_of g claim_id = elim (get claim_id g.claims) [
  | none ↦ raise (unknown_claim claim_id)
  | some c ↦ ok c
]

-- `value is None`
abbrev pub is_absent : {A : Type 0} → Option A → Bool
is_absent none = true
is_absent (some a) = false

abbrev pub is_math : Domain → Bool
is_math math_research = true
is_math _ = false

-- `final_outcome(next_status) if next_status is not None else None`
abbrev pub outcome_after : DomainContract → Option ClaimStatus → Result GraphError (Option Outcome)
outcome_after d none = ok none
outcome_after d (some status) = by_semantics (final_outcome d status)

abbrev pub guarded :
    Option Guard
    → CandidateEvent
    → EvidenceLevel
    → Option ClaimStatus
    → Option Outcome
    → Result GraphError (Unit {0})
guarded (some guard) event level (some status) (some outcome) =
    raise_if (not (guard event status level)) refused_by_guard
guarded guard event level status outcome = ok tt

-- Two outcomes that are there and differ.
abbrev pub conflict : Option Outcome → Option Outcome → Bool
conflict (some positive) (some negative) = true
conflict (some negative) (some positive) = true
conflict current next = false

-- Whether the status of the transition is taken over.
abbrev pub applies :
    DomainContract
    → ClaimStatus
    → Option Outcome
    → Option ClaimStatus
    → Option Outcome
    → Result GraphError Bool
applies d status current none outcome = ok false
applies d status current (some next) (some outcome) = ok true
applies d status (some current) (some next) none = ok false
applies d status none (some next) none =
    if claim_status_beq status d.initial_status || claim_status_beq status d.candidate_status
    then ok true
    else by_semantics (is_frontier d next)

abbrev pub next_status_of : Bool → ClaimStatus → Option ClaimStatus → ClaimStatus
next_status_of true old (some next) = next
next_status_of applied old next = old

abbrev pub settle_obligation :
    String → List String → ObligationStatus → ProofObligation → ProofObligation
settle_obligation now paths status o =
    if is_unsettled o.status
    then record o {
      status = status;
      evidence_paths = sorted_set (o.evidence_paths ++ paths);
      updated_at = some now;
    }
    else o

-- What the terminal status of a claim does to its obligations and gaps.
abbrev pub close : DomainContract → String → List String → ObligationStatus → Claim → Claim
close d now paths status c = record c {
  proof_obligations =
      if d.obligation_kind == "proof"
      then map (settle_obligation now paths status) c.proof_obligations
      else c.proof_obligations;
  current_gaps = [];
}

abbrev pub close_with : DomainContract → String → List String → Option Outcome → Claim → Claim
close_with d now paths none c = c
close_with d now paths (some positive) c = close d now paths discharged c
close_with d now paths (some negative) c = close d now paths refuted (
    if is_math d.domain
    then record c { known_counterexamples = sorted_set (c.known_counterexamples ++ paths) }
    else c)

-- The fields that a transition changes, whether it is terminal or not.
abbrev pub moved : CandidateEvent → EvidenceLevel → Transition → Bool → Claim → Claim
moved event level t applied c = record c {
  math_status = next_status_of applied c.math_status t.status;
  trust_status = if t.trust_change then audited_nightly else c.trust_status;
  evidence_level =
      if ltb (evidence_level_rank c.evidence_level) (evidence_level_rank level)
      then level
      else c.evidence_level;
  evidence_paths = sorted_set (c.evidence_paths ++ event.artifact_paths);
}

-- The claim behind an audited transition that is not a no-op.
abbrev pub promoted :
    DomainContract
    → String
    → CandidateEvent
    → EvidenceLevel
    → Transition
    → Bool
    → Option Outcome
    → Claim
    → Claim
promoted d now event level t applied outcome c =
    let terminal = if applied then outcome else none in
    record (close_with d now event.artifact_paths terminal (moved event level t applied c)) {
      last_meaningful_progress = some now;
    }

abbrev pub is_no_op : Transition → Bool
is_no_op t = is_absent t.status && not t.trust_change

abbrev pub promote :
    Option Guard
    → String
    → CandidateEvent
    → EvidenceLevel
    → Transition
    → Claim
    → ClaimGraph
    → Result GraphError ClaimGraph
promote guard now event level t c g = do
  next ← outcome_after g.semantics t.status
  guarded guard event level t.status next
  current ← by_semantics (final_outcome g.semantics c.math_status)
  raise_if (not (is_math g.semantics.domain) && conflict current next) terminal_conflict
  applied ← applies g.semantics c.math_status current t.status next
  outcome ← by_semantics (final_outcome g.semantics (next_status_of applied c.math_status t.status))
  ok (record g {
    claims = put event.claim_id (promoted g.semantics now event level t applied outcome c) g.claims;
  })

-- `apply_audit_pass` behind the look-up of the claim
abbrev pub pass_with :
    Option Guard
    → String
    → CandidateEvent
    → (passes required : ℕ) → EvidenceLevel
    → Claim
    → ClaimGraph
    → Result GraphError ClaimGraph
pass_with guard now event passes required level c g = if ltb passes required then ok g else do
  t ← by_semantics (transition_for g.semantics event.type level)
  if is_no_op t then ok g else promote guard now event level t c g

unfoldable pub apply_audit_pass :
    Option Guard
    → String
    → CandidateEvent
    → (passes required : ℕ) → EvidenceLevel
    → ClaimGraph
    → Result GraphError ClaimGraph
apply_audit_pass guard now event passes required level g = do
  c ← claim_of g event.claim_id
  pass_with guard now event passes required level c g

-- A candidate's own derived claim that is still an untrusted candidate.
abbrev pub is_derived_candidate : DomainContract → CandidateEvent → Claim → Bool
is_derived_candidate d event c =
    not (is_absent event.parent_claim_id)
    && (option_beq c.parent_claim_id event.parent_claim_id
        && (trust_status_beq c.trust_status untrusted_candidate
            && claim_status_beq c.math_status d.candidate_status))

abbrev pub reject_claim : String → CandidateEvent → ClaimGraph → Option Claim → ClaimGraph × Bool
reject_claim now event g none = (g, false)
reject_claim now event g (some c) =
    if is_derived_candidate g.semantics event c
    then (
      record g {
        claims =
            put event.claim_id
              (record c { trust_status = rejected; last_meaningful_progress = some now }) g.claims;
      },
      true,
    )
    else (g, false)

unfoldable pub apply_audit_reject : String → CandidateEvent → ClaimGraph → ClaimGraph × Bool
apply_audit_reject now event g = reject_claim now event g (get event.claim_id g.claims)
