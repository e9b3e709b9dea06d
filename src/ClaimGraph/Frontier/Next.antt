-- ===== src/ClaimGraph/Frontier/Next.antt =====
-- claim_graph.py, `research_frontier`: the obligation that is to be taken up next.
use autonomous_math_ai.Base.{
  ◌≡◌, ◌≢◌, ◌⊎◌, ◌∙◌, refl, ap, arith, List-cases, inl, inr, Bool, true, false, String, Option,
  none, some, List, [], ◌∷◌, keep, All, Bool-cases, string_eq, subst,
}
use Prim.Native.Nat.{Ordering}
use Prim.Native.String.{compare as compare_text}
use autonomous_math_ai.Base.Dict.{Dict, get}
use autonomous_math_ai.Base.Result.{ok, >>=-eq-ok, Result-cases}
use autonomous_math_ai.ClaimGraph.Claim.{
  Claim, ClaimGraph, ProofObligation, ObligationStatus, is_unsettled,
}
use autonomous_math_ai.ClaimGraph.Dependencies.{sort_obligations, insert_obligation}
use autonomous_math_ai.ClaimGraph.Frontier.{
  Frontier, ready, ready_open, first_of, or_else, research_frontier, status_by_id,
}

All-insert :
    (P : ProofObligation → Type 0) (o : ProofObligation) (os : List ProofObligation)
    → P o
    → All P os
    → All P (insert_obligation o os)
All-insert P o [] p h = (p, tt)
All-insert P o (q ∷ os) p h =
    elim (compare_text o.obligation_id q.obligation_id)
      as (λ order.
        All P (elim order [ Ordering.gt ↦ q ∷ insert_obligation o os | other ↦ o ∷ q ∷ os ])) [
          | Ordering.gt ↦ (h.0, All-insert P o os p h.1)
          | Ordering.lt ↦ (p, h)
          | Ordering.eq ↦ (p, h)
        ]

All-sort :
    (P : ProofObligation → Type 0) (os : List ProofObligation)
    → All P os
    → All P (sort_obligations os)
All-sort P [] h = tt
All-sort P (o ∷ os) h = All-insert P o (sort_obligations os) h.0 (All-sort P os h.1)

-- One of the obligations of a list.
pub data In (o : ProofObligation) : List ProofObligation → Type 0 where
  first : {q : ProofObligation} {qs : List ProofObligation} → o ≡ q → In o (q ∷ qs)
  later : {q : ProofObligation} {qs : List ProofObligation} → In o qs → In o (q ∷ qs)

-- What is kept of a list is in the list, and passes the test.
All-left :
    (p : ProofObligation → Bool) (all_of os : List ProofObligation)
    → ((o : ProofObligation) → In o os → In o all_of)
    → All (λ o. In o all_of × (p o ≡ true)) (keep p os)
All-left p all_of [] inside = tt
All-left p all_of (o ∷ os) inside =
    let rest = All-left p all_of os (λ q m. inside q (later m)) in
    elim (Bool-cases (p o)) [
      | inl kept ↦ rw kept ((inside o (first refl), kept), rest)
      | inr gone ↦ rw gone rest
    ]

module _ (g : ClaimGraph) (statuses : Dict String ObligationStatus) where
  -- Those that can start are all those that can start.
  All-ready :
      (P : ProofObligation → Type 0) (os can_start : List ProofObligation)
      → All P os
      → ready_open g statuses os ≡ ok can_start
      → All (λ o. (ready g statuses o ≡ ok true) × P o) can_start
        × ((can_start ≢ []) ⊎ All (λ o. ready g statuses o ≡ ok false) os)
  unfolding ready_open
  All-ready P [] can_start h e =
      let made : ◌≡◌ {A = List ProofObligation} [] can_start = ground arith in
      (subst (All (λ o. (ready g statuses o ≡ ok true) × P o)) made tt, inr tt)
  All-ready P (o ∷ os) can_start h e =
      let (b, one, e₁) = >>=-eq-ok (ready g statuses o) _ e in
      let (more, rest, last) = >>=-eq-ok (ready_open g statuses os) _ e₁ in
      let (good, some_or_none) = All-ready P os more h.1 rest in
      elim (Bool-cases b) [
        | inl can ↦
            let made : o ∷ more ≡ can_start = ground arith in
            (
              subst (All (λ q. (ready g statuses q ≡ ok true) × P q)) made
                  ((ground arith, h.0), good),
              inl (λ none_can. ground arith),
            )
        | inr cannot ↦
            let made : more ≡ can_start = ground arith in
            (
              subst (All (λ q. (ready g statuses q ≡ ok true) × P q)) made good,
              elim some_or_none [
                | inl can ↦ inl (λ none_can. can (made ∙ none_can))
                | inr none_can ↦ inr (ground arith, none_can)
              ],
            )
      ]

pub data IsNext (g : ClaimGraph) (c : Claim) : Option ProofObligation → Type 0 where
  -- Nothing is left.
  done : All (λ q. is_unsettled q.status ≡ false) c.proof_obligations → IsNext g c none
  -- The obligation can start.
  start :
      {o : ProofObligation}
      → In o c.proof_obligations
      → is_unsettled o.status ≡ true
      → ready g (status_by_id g.claims []) o ≡ ok true
      → IsNext g c (some o)
  -- No obligation that is left can start, and this is one of them.
  wait :
      {o : ProofObligation}
      → In o c.proof_obligations
      → is_unsettled o.status ≡ true
      → All
          (λ q. ready g (status_by_id g.claims []) q ≡ ok false)
          (keep (λ q. is_unsettled q.status) c.proof_obligations)
      → IsNext g c (some o)

insert-ne-nil : (o : ProofObligation) (os : List ProofObligation) → insert_obligation o os ≢ []
insert-ne-nil o [] e = cc
insert-ne-nil o (q ∷ os) e = ground arith

first-sort :
    (P : ProofObligation → Type 0) (os : List ProofObligation)
    → All P os
    → ((os ≡ []) × (first_of (sort_obligations os) ≡ none))
      ⊎ ((o : ProofObligation) × (first_of (sort_obligations os) ≡ some o) × P o)
first-sort P [] h = inl (refl, refl)
first-sort P (o ∷ os) h = elim (List-cases (sort_obligations (o ∷ os))) [
  | inl empty ↦ absurd (insert-ne-nil o (sort_obligations os) empty)
  | inr (q, qs, made) ↦
      let all_p : All P (q ∷ qs) = subst (All P) made (All-sort P (o ∷ os) h) in
      inr (q, ap first_of made, all_p.0)
]

none_kept :
    (p : ProofObligation → Bool) (os : List ProofObligation)
    → keep p os ≡ []
    → All (λ o. p o ≡ false) os
none_kept p [] e = tt
none_kept p (o ∷ os) e = (ground arith, none_kept p os (ground arith))

-- In a domain with proof obligations, the next obligation of a claim that is in the graph, where
-- the frontier is not refused, is none only if each obligation of the claim is settled; else it is
-- an unsettled obligation of the claim, and it can start unless no unsettled obligation of the
-- claim can.
pub frontier_next :
    (g : ClaimGraph) (claim_id : String) (c : Claim) (f : Frontier)
    → g.semantics.obligation_kind ≡ "proof"
    → get claim_id g.claims ≡ some c
    → research_frontier g claim_id ≡ ok f
    → IsNext g c f.next
unfolding research_frontier
frontier_next g claim_id c f kind found e =
    let left = keep (λ o. is_unsettled o.status) c.proof_obligations in
    let statuses = status_by_id g.claims [] in
    let is_proof = string_eq.beq_iff g.semantics.obligation_kind "proof" in
    let P = λ (o : ProofObligation). In o c.proof_obligations × (is_unsettled o.status ≡ true) in
    let inside : All P left =
      All-left (λ o. is_unsettled o.status) c.proof_obligations c.proof_obligations (λ o m. m) in
    let (can_start, started) : (can_start : List ProofObligation) × (ready_open g statuses left
          ≡ ok can_start) =
      elim (Result-cases (ready_open g statuses left)) [
        | inl made ↦ made
        | inr (err, made) ↦ absurd (ground (arith, is_proof))
      ] in
    let next : or_else (first_of (sort_obligations can_start)) (first_of (sort_obligations left))
        ≡ f.next =
      ground (arith, is_proof) in
    let (good, some_or_none) = All-ready g statuses P left can_start inside started in
    subst (IsNext g c) next (elim (first-sort _ can_start good) [
      | inr (o, is_first, (can, (here, unsettled))) ↦ rw is_first (start here unsettled can)
      | inl (empty, no_first) ↦ rw no_first (elim (first-sort P left inside) [
        | inl (settled, no_left) ↦
            rw no_left (done (none_kept (λ o. is_unsettled o.status) c.proof_obligations settled))
        | inr (o, is_first, (here, unsettled)) ↦ rw is_first (elim some_or_none [
          | inl can ↦ absurd (can empty)
          | inr waiting ↦ wait here unsettled waiting
        ])
      ])
    ])
