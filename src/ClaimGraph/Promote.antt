-- ===== src/ClaimGraph/Promote.antt =====
-- claim_graph.py, `apply_audit_pass`: the steps of an accepted audit.
use autonomous_math_ai.Base.{
  ℕ, ◌≤◌, ◌≡◌, ◌⊎◌, inl, inr, refl, Bool, false, not, ◌&&◌, String, Option, none, some, List, ltb,
  if◌then◌else◌, string_eq, arith, Bool-cases,
}
use autonomous_math_ai.Base.Dict.{Dict, get, put, get-put}
use autonomous_math_ai.Base.Result.{Result, ok, raise_if, >>=-eq-ok, raise_if-eq-ok}
use autonomous_math_ai.Models.{EvidenceLevel, evidence_level_rank}
use autonomous_math_ai.Models.Events.{CandidateEvent}
use autonomous_math_ai.Domain.Contract.{
  ClaimStatus, claim_status_eq, Transition, DomainContract, DomainError,
}
use autonomous_math_ai.Domain.Semantics.{
  Outcome, positive, negative, outcome_of, final_outcome, validate_status, transition_for,
}
use autonomous_math_ai.ClaimGraph.Claim.{
  Claim, ClaimGraph, GraphError, by_semantics, terminal_conflict,
}
use autonomous_math_ai.ClaimGraph.Audit.{
  Guard, claim_of, is_math, outcome_after, guarded, conflict, applies, next_status_of, close_with,
  moved, promoted, is_no_op, promote, pass_with, apply_audit_pass,
}

-- The fields that closing the obligations of a claim does not touch.
status-close_with :
    (d : DomainContract) (now : String) (paths : List String) (outcome : Option Outcome) (c : Claim)
    → ((close_with d now paths outcome c).math_status ≡ c.math_status)
      × ((close_with d now paths outcome c).evidence_level ≡ c.evidence_level)
      × ((close_with d now paths outcome c).statement ≡ c.statement)
status-close_with d now paths none c = (refl, refl, refl)
status-close_with d now paths (some positive) c = (refl, refl, refl)
status-close_with d now paths (some negative) c = ground arith

pub status-promoted :
    (d : DomainContract) (now : String) (event : CandidateEvent) (level : EvidenceLevel)
    (t : Transition) (applied : Bool) (outcome : Option Outcome) (c : Claim)
    → ((promoted d now event level t applied outcome c).math_status
        ≡ next_status_of applied c.math_status t.status)
      × (evidence_level_rank c.evidence_level
          ≤ evidence_level_rank (promoted d now event level t applied outcome c).evidence_level)
      × (evidence_level_rank level
          ≤ evidence_level_rank (promoted d now event level t applied outcome c).evidence_level)
      × ((promoted d now event level t applied outcome c).statement ≡ c.statement)
status-promoted d now event level t applied outcome c =
    let (status, evidence, statement) =
      status-close_with d now event.artifact_paths (if applied then outcome else none)
        (moved event level t applied c) in
    (status, rw evidence (ground arith), rw evidence (ground arith), statement)

pub final_outcome-outcome_of :
    (d : DomainContract) (s : ClaimStatus) (o : Option Outcome)
    → by_semantics (final_outcome d s) ≡ ok o
    → outcome_of d s ≡ o
unfolding final_outcome validate_status
final_outcome-outcome_of d s o h = ground (arith, h)

by_semantics-ok : {A : Type 0} (m : Result DomainError A) {a : A} → by_semantics m ≡ ok a → m ≡ ok a
by_semantics-ok m h = ground arith

pub get-put_same : (k : String) (c : Claim) (m : Dict String Claim) → get k (put k c m) ≡ some c
get-put_same k c m = ground (arith, get-put k k c m, string_eq.beq_iff k k)

-- The claim after `promote`, with the steps that led there.
pub promote-eq-ok :
    (guard : Option Guard) (now : String) (event : CandidateEvent) (level : EvidenceLevel)
    (t : Transition) (c : Claim) (g : ClaimGraph) {h : ClaimGraph}
    → promote guard now event level t c g ≡ ok h
    → (next : Option Outcome) × (applied : Bool) × (outcome : Option Outcome) × (outcome_after
          g.semantics t.status
        ≡ ok next)
      × ((not (is_math g.semantics.domain) && conflict (outcome_of g.semantics c.math_status) next)
          ≡ false)
      × (applies g.semantics c.math_status (outcome_of g.semantics c.math_status) t.status next
          ≡ ok applied)
      × (h ≡ record g {
        claims =
            put event.claim_id (promoted g.semantics now event level t applied outcome c) g.claims;
      })
promote-eq-ok guard now event level t c g e =
    let (next, after, e1) = >>=-eq-ok (outcome_after g.semantics t.status) _ e in
    let (u, passed, e2) = >>=-eq-ok (guarded guard event level t.status next) _ e1 in
    let (current, before, e3) =
      >>=-eq-ok (by_semantics (final_outcome g.semantics c.math_status)) _ e2 in
    let (v, agree, e4) =
      >>=-eq-ok
        (raise_if (not (is_math g.semantics.domain) && conflict current next) terminal_conflict) _
        e3 in
    let (applied, taken, e5) =
      >>=-eq-ok (applies g.semantics c.math_status current t.status next) _ e4 in
    let (outcome, last, done) =
      >>=-eq-ok
        (by_semantics (final_outcome g.semantics (next_status_of applied c.math_status t.status))) _
        e5 in
    let now_is = final_outcome-outcome_of g.semantics c.math_status current before in
    (
      next,
      applied,
      outcome,
      after,
      rw now_is (raise_if-eq-ok _ terminal_conflict agree),
      rw now_is taken,
      cc done,
    )

ok_injective : {g h : ClaimGraph} → ◌≡◌ {A = Result GraphError ClaimGraph} (ok g) (ok h) → h ≡ g
ok_injective e = cc e

acting :
    (guard : Option Guard) (now : String) (event : CandidateEvent) (level : EvidenceLevel)
    (t : Transition) (c : Claim) (g : ClaimGraph) {h : ClaimGraph}
    → (if is_no_op t then ok g else promote guard now event level t c g) ≡ ok h
    → (h ≡ g) ⊎ (promote guard now event level t c g ≡ ok h)
acting guard now event level t c g {h} e = elim (Bool-cases (is_no_op t)) [
  | inl nothing ↦ inl (ok_injective (rw nothing at e))
  | inr acts ↦ inr (rw acts at e)
]

-- An accepted pass leaves the graph, or promotes its claim by the transition of its event.
pub pass_with-eq-ok :
    (guard : Option Guard) (now : String) (event : CandidateEvent) (passes required : ℕ)
    (level : EvidenceLevel) (c : Claim) (g : ClaimGraph) {h : ClaimGraph}
    → pass_with guard now event passes required level c g ≡ ok h
    → (h ≡ g)
      ⊎ ((t : Transition) × (transition_for g.semantics event.type level ≡ ok t)
          × (promote guard now event level t c g ≡ ok h))
pass_with-eq-ok guard now event passes required level c g {h} e =
    elim (Bool-cases (ltb passes required)) [
      | inl few ↦ inl (ok_injective (rw few at e))
      | inr enough ↦
          let (t, moves, last) =
            >>=-eq-ok (by_semantics (transition_for g.semantics event.type level)) _
              (rw enough at e) in
          elim (acting guard now event level t c g last) [
            | inl same ↦ inl same
            | inr done ↦
                inr (t, by_semantics-ok (transition_for g.semantics event.type level) moves, done)
          ]
    ]

pub apply_audit_pass-found :
    (guard : Option Guard) (now : String) (event : CandidateEvent) (passes required : ℕ)
    (level : EvidenceLevel) (g : ClaimGraph) {h : ClaimGraph}
    → apply_audit_pass guard now event passes required level g ≡ ok h
    → (c : Claim) × (get event.claim_id g.claims ≡ some c)
      × (pass_with guard now event passes required level c g ≡ ok h)
unfolding apply_audit_pass
apply_audit_pass-found guard now event passes required level g e =
    let (c, looked, rest) = >>=-eq-ok (claim_of g event.claim_id) _ e in
    (c, ground (arith, looked), rest)
