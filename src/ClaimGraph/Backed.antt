-- ===== src/ClaimGraph/Backed.antt =====
-- claim_graph.py over the pinned contracts: the evidence behind the statuses of the claims, over
-- any sequence of candidates, passes and rejections.
use autonomous_math_ai.Base.{
  ℕ, ◌≤◌, ◌≡◌, refl, sym, ap, ◌∙◌, subst, Bool, true, false, String, Option, none, some, List, All,
  string_eq, arith, inl, inr, Bool-cases,
}
use native.Mathlib.Nat.{le_trans}
use autonomous_math_ai.Base.Dict.{get, put, All-put, All-get}
use autonomous_math_ai.Base.Result.{ok, raise_if, >>=-eq-ok}
use autonomous_math_ai.Models.{
  EvidenceLevel, EventType, evidence_level_rank, event_type_eq, rejected,
}
use autonomous_math_ai.Models.Events.{CandidateEvent}
use autonomous_math_ai.Domain.Contract.{
  Domain, math_research, certified_computational_research, empirical_research, ClaimStatus,
  claim_status_eq, Transition, DomainContract,
}
use autonomous_math_ai.Domain.Builtin.{builtin_domain_contract}
use autonomous_math_ai.Domain.Semantics.{outcome_of, transition_for, validate_event_type}
use autonomous_math_ai.Domain.Pinned.{evidence_floor}
use autonomous_math_ai.ClaimGraph.Claim.{
  Claim, ClaimGraph, by_semantics, unknown_parent, ensure_claim_obligations,
}
use autonomous_math_ai.ClaimGraph.Candidate.{
  mark_candidate, mark_over, validate_candidate_dependencies, check_restated, candidate_claim,
  parent_is_unknown,
}
use autonomous_math_ai.ClaimGraph.Audit.{
  Guard, next_status_of, promoted, promote, apply_audit_pass, apply_audit_reject,
  is_derived_candidate, reject_claim,
}
use autonomous_math_ai.ClaimGraph.Promote.{
  promote-eq-ok, status-promoted, pass_with-eq-ok, apply_audit_pass-found,
}

-- The least evidence rank that the status of a claim needs.
abbrev pub floor_of : Domain → ClaimStatus → ℕ
floor_of d s = elim (outcome_of (builtin_domain_contract d) s) [
  | none ↦ 0
  | some outcome ↦ evidence_floor d outcome
]

abbrev pub IsBacked : Domain → String × Claim → Type 0
IsBacked d (k, c) = floor_of d c.math_status ≤ evidence_level_rank c.evidence_level

-- The graph has a pinned contract, and its claims have the evidence that their statuses need.
pub record IsBackedGraph (d : Domain) (g : ClaimGraph) : Type 0 where
  pub pinned : g.semantics ≡ builtin_domain_contract d
  pub backed : All (IsBacked d) g.claims

floor-transition_for :
    (d : Domain) (event_type : EventType) (level : EvidenceLevel) (s : ClaimStatus) {t : Transition}
    → transition_for (builtin_domain_contract d) event_type level ≡ ok t
    → t.status ≡ some s
    → floor_of d s ≤ evidence_level_rank level
unfolding transition_for
floor-transition_for math_research event_type level s h e = ground arith
floor-transition_for certified_computational_research event_type level s h e = ground arith
floor-transition_for empirical_research event_type level s h e = ground arith

floor-next_status_of :
    (d : Domain) (event_type : EventType) (level : EvidenceLevel) (old : ClaimStatus)
    (applied : Bool) (t : Transition) (status : Option ClaimStatus) (had rank : ℕ)
    → transition_for (builtin_domain_contract d) event_type level ≡ ok t
    → t.status ≡ status
    → floor_of d old ≤ had
    → had ≤ rank
    → evidence_level_rank level ≤ rank
    → floor_of d (next_status_of applied old status) ≤ rank
floor-next_status_of d event_type level old true t (some s) had rank moves e fits grows reaches =
    le_trans (floor-transition_for d event_type level s moves e) reaches
floor-next_status_of d event_type level old true t none had rank moves e fits grows reaches =
    le_trans fits grows
floor-next_status_of d event_type level old false t status had rank moves e fits grows reaches =
    le_trans fits grows

put-IsBackedGraph :
    (d : Domain) (g : ClaimGraph) (k : String) (c : Claim)
    → IsBacked d (k, c)
    → IsBackedGraph d g
    → IsBackedGraph d (record g { claims = put k c g.claims })
put-IsBackedGraph d g k c fits b = record {
  pinned = b.pinned;
  backed = All-put (IsBacked d) k c g.claims fits b.backed;
}

promote-IsBackedGraph :
    (d : Domain) (guard : Option Guard) (now : String) (event : CandidateEvent)
    (level : EvidenceLevel) (t : Transition) (c : Claim) (g : ClaimGraph) {h : ClaimGraph}
    → promote guard now event level t c g ≡ ok h
    → transition_for g.semantics event.type level ≡ ok t
    → IsBacked d (event.claim_id, c)
    → IsBackedGraph d g
    → IsBackedGraph d h
promote-IsBackedGraph d guard now event level t c g {h} e moves fits b =
    let (next, applied, outcome, after, agree, taken, made) =
      promote-eq-ok guard now event level t c g e in
    let (status, evidence, reaches, statement) =
      status-promoted g.semantics now event level t applied outcome c in
    let new = promoted g.semantics now event level t applied outcome c in
    let pinned_moves : transition_for (builtin_domain_contract d) event.type level ≡ ok t =
      subst (λ (s : DomainContract). transition_for s event.type level ≡ ok t) b.pinned moves in
    subst (IsBackedGraph d) (sym made) (
      put-IsBackedGraph d g event.claim_id new
        (subst (λ (s : ClaimStatus). floor_of d s ≤ evidence_level_rank new.evidence_level)
          (sym status)
          (floor-next_status_of d event.type level c.math_status applied t t.status
            (evidence_level_rank c.evidence_level) (evidence_level_rank new.evidence_level)
            pinned_moves refl fits evidence reaches))
        b)

apply_audit_pass-IsBackedGraph :
    (d : Domain) (guard : Option Guard) (now : String) (event : CandidateEvent)
    (passes required : ℕ) (level : EvidenceLevel) (g : ClaimGraph) {h : ClaimGraph}
    → apply_audit_pass guard now event passes required level g ≡ ok h
    → IsBackedGraph d g
    → IsBackedGraph d h
apply_audit_pass-IsBackedGraph d guard now event passes required level g {h} e b =
    let (c, at, rest) = apply_audit_pass-found guard now event passes required level g e in
    elim (pass_with-eq-ok guard now event passes required level c g rest) [
      | inl same ↦ subst (IsBackedGraph d) (sym same) b
      | inr (t, moves, done) ↦
          promote-IsBackedGraph d guard now event level t c g done moves
            (All-get (IsBacked d) event.claim_id c g.claims b.backed at) b
    ]

reject_claim-IsBackedGraph :
    (d : Domain) (now : String) (event : CandidateEvent) (g : ClaimGraph) (found : Option Claim)
    → get event.claim_id g.claims ≡ found
    → IsBackedGraph d g
    → IsBackedGraph d (reject_claim now event g found).0
reject_claim-IsBackedGraph d now event g none at b = b
reject_claim-IsBackedGraph d now event g (some c) at b =
    elim (Bool-cases (is_derived_candidate g.semantics event c)) [
      | inl own ↦ rw own (
          put-IsBackedGraph d g event.claim_id
            (record c { trust_status = rejected; last_meaningful_progress = some now })
            (All-get (IsBacked d) event.claim_id c g.claims b.backed at) b)
      | inr other ↦ rw other b
    ]

apply_audit_reject-IsBackedGraph :
    (d : Domain) (now : String) (event : CandidateEvent) (g : ClaimGraph)
    → IsBackedGraph d g
    → IsBackedGraph d (apply_audit_reject now event g).0
unfolding apply_audit_reject
apply_audit_reject-IsBackedGraph d now event g b =
    reject_claim-IsBackedGraph d now event g (get event.claim_id g.claims) refl b

module _ (obligation_id : String → List ℕ → String) where
  status-ensured :
      (s : DomainContract) (c : Claim) {e : Claim}
      → ensure_claim_obligations obligation_id s c ≡ ok e
      → (e.math_status ≡ c.math_status) × (e.evidence_level ≡ c.evidence_level)
  unfolding ensure_claim_obligations
  status-ensured s c h = ground (arith, h)

  candidate_floor : (d : Domain) → floor_of d (builtin_domain_contract d).candidate_status ≡ 0
  candidate_floor math_research = refl
  candidate_floor certified_computational_research = refl
  candidate_floor empirical_research = refl

  mark_over-IsBackedGraph :
      (d : Domain) (g : ClaimGraph) (event : CandidateEvent) (found : Option Claim) {h : ClaimGraph}
      → mark_over obligation_id g event found ≡ ok h
      → IsBackedGraph d g
      → IsBackedGraph d h
  mark_over-IsBackedGraph d g event (some c) {h} e b =
      let (u, restated, done) = >>=-eq-ok (check_restated event c) _ e in
      let same : g ≡ h = cc done in subst (IsBackedGraph d) same b
  mark_over-IsBackedGraph d g event none {h} e b =
      let (u, parent, rest) =
        >>=-eq-ok (raise_if (parent_is_unknown g event.parent_claim_id) unknown_parent) _ e in
      let (c, made, done) =
        >>=-eq-ok
          (ensure_claim_obligations obligation_id g.semantics (candidate_claim g.semantics event)) _
          rest in
      let same : record g { claims = put event.claim_id c g.claims } ≡ h = cc done in
      let (status, level) = status-ensured g.semantics (candidate_claim g.semantics event) made in
      let new : c.math_status ≡ (builtin_domain_contract d).candidate_status =
        status ∙ ap (λ (s : DomainContract). s.candidate_status) b.pinned in
      let nothing : floor_of d c.math_status ≡ 0 = ap (floor_of d) new ∙ candidate_floor d in
      subst (IsBackedGraph d) same
        (put-IsBackedGraph d g event.claim_id c (omega (arith, nothing)) b)

  mark_candidate-IsBackedGraph :
      (d : Domain) (g : ClaimGraph) (event : CandidateEvent) {h : ClaimGraph}
      → mark_candidate obligation_id g event ≡ ok h
      → IsBackedGraph d g
      → IsBackedGraph d h
  unfolding mark_candidate
  mark_candidate-IsBackedGraph d g event e b =
      let (valid, known, rest) =
        >>=-eq-ok (by_semantics (validate_event_type g.semantics event.type)) _ e in
      let (u, dependencies, last) = >>=-eq-ok (validate_candidate_dependencies g event) _ rest in
      mark_over-IsBackedGraph d g event (get event.claim_id g.claims) last b

  pub data Step (g : ClaimGraph) : ClaimGraph → Type 0 where
    marking :
        {h : ClaimGraph} (event : CandidateEvent)
        → mark_candidate obligation_id g event ≡ ok h
        → Step g h
    passing :
        {h : ClaimGraph} (guard : Option Guard) (now : String) (event : CandidateEvent)
        (passes required : ℕ) (level : EvidenceLevel)
        → apply_audit_pass guard now event passes required level g ≡ ok h
        → Step g h
    rejecting : (now : String) (event : CandidateEvent) → Step g (apply_audit_reject now event g).0

  pub data Steps (g : ClaimGraph) : ClaimGraph → Type 0 where
    here : Steps g g
    next : {h i : ClaimGraph} → Steps g h → Step h i → Steps g i

  Step-IsBackedGraph :
      (d : Domain) {g h : ClaimGraph} → Step g h → IsBackedGraph d g → IsBackedGraph d h
  Step-IsBackedGraph d {g} (marking event e) b = mark_candidate-IsBackedGraph d g event e b
  Step-IsBackedGraph d {g} (passing guard now event passes required level e) b =
      apply_audit_pass-IsBackedGraph d guard now event passes required level g e b
  Step-IsBackedGraph d {g} (rejecting now event) b =
      apply_audit_reject-IsBackedGraph d now event g b

  -- Over a pinned contract, any sequence of candidates, audit passes and rejections keeps a graph
  -- backed: a claim whose status has an outcome has at least the evidence level that the domain
  -- demands of that outcome.
  pub Steps-IsBackedGraph :
      (d : Domain) {g h : ClaimGraph} → Steps g h → IsBackedGraph d g → IsBackedGraph d h
  Steps-IsBackedGraph d here b = b
  Steps-IsBackedGraph d (next steps step) b =
      Step-IsBackedGraph d step (Steps-IsBackedGraph d steps b)
