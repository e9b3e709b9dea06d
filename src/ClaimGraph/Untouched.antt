-- ===== src/ClaimGraph/Untouched.antt =====
-- claim_graph.py: what candidates, passes and rejections leave as it is.
use autonomous_math_ai.Base.{
  ℕ, ◌≡◌, ◌≢◌, ◌⊎◌, refl, sym, ap, ◌∙◌, subst, inl, inr, true, String, Option, none, some, List,
  string_eq, arith, Bool-cases,
}
use autonomous_math_ai.Base.Dict.{Dict, get, put, get-put}
use autonomous_math_ai.Base.Result.{ok, raise_if, >>=-eq-ok}
use autonomous_math_ai.Models.{EvidenceLevel, untrusted_candidate, rejected, event_type_eq}
use autonomous_math_ai.Models.Events.{CandidateEvent}
use autonomous_math_ai.Domain.Semantics.{validate_event_type}
use autonomous_math_ai.ClaimGraph.Claim.{
  Claim, ClaimGraph, by_semantics, unknown_parent, ensure_claim_obligations,
}
use autonomous_math_ai.ClaimGraph.Candidate.{
  mark_candidate, mark_over, validate_candidate_dependencies, check_restated, candidate_claim,
  parent_is_unknown,
}
use autonomous_math_ai.ClaimGraph.Audit.{
  Guard, promoted, apply_audit_pass, apply_audit_reject, reject_claim, is_derived_candidate,
}
use autonomous_math_ai.ClaimGraph.Promote.{promote-eq-ok, pass_with-eq-ok, apply_audit_pass-found}

get-put_other :
    (k j : String) (c : Claim) (m : Dict String Claim) → j ≢ k → get j (put k c m) ≡ get j m
get-put_other k j c m other = ground (arith, get-put k j c m, string_eq.beq_iff k j, other)

-- An audit pass that is accepted leaves every claim but the one of its event as it is.
pub others-apply_audit_pass :
    (guard : Option Guard) (now : String) (event : CandidateEvent) (passes required : ℕ)
    (level : EvidenceLevel) (g : ClaimGraph) {h : ClaimGraph} (k : String)
    → apply_audit_pass guard now event passes required level g ≡ ok h
    → k ≢ event.claim_id
    → get k h.claims ≡ get k g.claims
others-apply_audit_pass guard now event passes required level g {h} k e other =
    let (c, at, rest) = apply_audit_pass-found guard now event passes required level g e in
    elim (pass_with-eq-ok guard now event passes required level c g rest) [
      | inl same ↦ ap (λ (i : ClaimGraph). get k i.claims) same
      | inr (t, moves, done) ↦
          let (next, applied, outcome, after, agree, taken, made) =
            promote-eq-ok guard now event level t c g done in
          ap (λ (i : ClaimGraph). get k i.claims) made
          ∙ get-put_other event.claim_id k
              (promoted g.semantics now event level t applied outcome c) g.claims other
    ]

module _ (obligation_id : String → List ℕ → String) where
  mark_over-keeps :
      (g : ClaimGraph) (event : CandidateEvent) (found : Option Claim) {h : ClaimGraph} (k : String)
      (c : Claim)
      → mark_over obligation_id g event found ≡ ok h
      → get event.claim_id g.claims ≡ found
      → get k g.claims ≡ some c
      → get k h.claims ≡ some c
  mark_over-keeps g event (some old) {h} k c e at there =
      let (u, restated, done) = >>=-eq-ok (check_restated event old) _ e in
      let same : g ≡ h = cc done in subst (λ (i : ClaimGraph). get k i.claims ≡ some c) same there
  mark_over-keeps g event none {h} k c e at there =
      let (u, parent, rest) =
        >>=-eq-ok (raise_if (parent_is_unknown g event.parent_claim_id) unknown_parent) _ e in
      let (new, made, done) =
        >>=-eq-ok
          (ensure_claim_obligations obligation_id g.semantics (candidate_claim g.semantics event)) _
          rest in
      let same : record g { claims = put event.claim_id new g.claims } ≡ h = cc done in
      subst (λ (i : ClaimGraph). get k i.claims ≡ some c) same
        (get-put_other event.claim_id k new g.claims (λ own. absent own) ∙ there)
    where
      absent : k ≡ event.claim_id → ⊥
      absent own = ground (arith, own, at, there)

  -- Marking a candidate never rewrites a claim that is in the graph, trusted or not: each stands
  -- under its id as before.
  pub mark_candidate-keeps :
      (g : ClaimGraph) (event : CandidateEvent) {h : ClaimGraph} (k : String) (c : Claim)
      → mark_candidate obligation_id g event ≡ ok h
      → get k g.claims ≡ some c
      → get k h.claims ≡ some c
  unfolding mark_candidate
  mark_candidate-keeps g event k c e there =
      let (valid, known, rest) =
        >>=-eq-ok (by_semantics (validate_event_type g.semantics event.type)) _ e in
      let (u, dependencies, last) = >>=-eq-ok (validate_candidate_dependencies g event) _ rest in
      mark_over-keeps g event (get event.claim_id g.claims) k c last refl there

derived-untrusted :
    (g : ClaimGraph) (event : CandidateEvent) (c : Claim)
    → is_derived_candidate g.semantics event c ≡ true
    → c.trust_status ≡ untrusted_candidate
derived-untrusted g event c own = ground (arith, own)

rejected_one :
    (now : String) (event : CandidateEvent) (g : ClaimGraph) (old : Claim) (k : String) (c : Claim)
    → is_derived_candidate g.semantics event old ≡ true
    → get event.claim_id g.claims ≡ some old
    → get k g.claims ≡ some c
    → (new : Claim) × (get k (
          put event.claim_id
            (record old { trust_status = rejected; last_meaningful_progress = some now })
            g.claims)
        ≡ some new)
      × (new.math_status ≡ c.math_status)
      × (new.evidence_level ≡ c.evidence_level)
      × ((new ≡ c) ⊎ ((c.trust_status ≡ untrusted_candidate) × (new.trust_status ≡ rejected)))
rejected_one now event g old k c own at there =
    let new : Claim = record old { trust_status = rejected; last_meaningful_progress = some now } in
    elim (Bool-cases (string_eq.beq event.claim_id k)) [
      | inl same ↦
          let one : old ≡ c = ground (arith, string_eq.beq_iff event.claim_id k, same, at, there) in
          (
            new,
            rw (get-put event.claim_id k new g.claims, same) refl,
            ap (λ (x : Claim). x.math_status) one,
            ap (λ (x : Claim). x.evidence_level) one,
            inr (
              ap (λ (x : Claim). x.trust_status) (sym one) ∙ derived-untrusted g event old own,
              refl,
            ),
          )
      | inr other ↦
          (c, rw (get-put event.claim_id k new g.claims, other) there, refl, refl, inl refl)
    ]

reject_claim-only :
    (now : String) (event : CandidateEvent) (g : ClaimGraph) (found : Option Claim) (k : String)
    (c : Claim)
    → get event.claim_id g.claims ≡ found
    → get k g.claims ≡ some c
    → (new : Claim) × (get k (reject_claim now event g found).0.claims ≡ some new)
      × (new.math_status ≡ c.math_status)
      × (new.evidence_level ≡ c.evidence_level)
      × ((new ≡ c) ⊎ ((c.trust_status ≡ untrusted_candidate) × (new.trust_status ≡ rejected)))
reject_claim-only now event g none k c at there = (c, there, refl, refl, inl refl)
reject_claim-only now event g (some old) k c at there =
    elim (Bool-cases (is_derived_candidate g.semantics event old)) [
      | inr stays ↦ rw stays (c, there, refl, refl, inl refl)
      | inl own ↦ rw own (rejected_one now event g old k c own at there)
    ]

-- Rejecting the evidence of a candidate never changes the status or the evidence level of a claim.
-- It leaves each claim as it is, or moves an untrusted candidate to REJECTED.
pub apply_audit_reject_lem :
    (now : String) (event : CandidateEvent) (g : ClaimGraph) (k : String) (c : Claim)
    → get k g.claims ≡ some c
    → (new : Claim) × (get k (apply_audit_reject now event g).0.claims ≡ some new)
      × (new.math_status ≡ c.math_status)
      × (new.evidence_level ≡ c.evidence_level)
      × ((new ≡ c) ⊎ ((c.trust_status ≡ untrusted_candidate) × (new.trust_status ≡ rejected)))
unfolding apply_audit_reject
apply_audit_reject_lem now event g k c there =
    reject_claim-only now event g (get event.claim_id g.claims) k c refl there
