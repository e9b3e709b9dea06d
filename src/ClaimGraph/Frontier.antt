-- ===== src/ClaimGraph/Frontier.antt =====
-- claim_graph.py, `research_frontier` and `positive_terminal_promotions`: what a claim still has to
-- show, and which claims were settled since an earlier state.
pub mod Next
use autonomous_math_ai.Base.{
  Bool, true, false, not, ◌&&◌, String, Option, none, some, List, [], ◌∷◌, keep, elem,
  if◌then◌else◌, string_eq, ◌==◌,
}
use Prim.Native.Nat.{Ordering}
use Prim.Native.String.{compare as compare_text}
use autonomous_math_ai.Base.Dict.{Dict, get, put}
use autonomous_math_ai.Base.Result.{Result, ok, raise, ◌>>=◌}
use autonomous_math_ai.Domain.Contract.{ClaimStatus, claim_status_eq}
use autonomous_math_ai.Domain.Semantics.{dependency_is_satisfied, in_statuses}
use autonomous_math_ai.ClaimGraph.Claim.{
  Claim, ClaimGraph, ProofObligation, ObligationStatus, open_obligation, blocked, discharged,
  refuted, GraphError, by_semantics, is_unsettled, is_trusted,
}
use autonomous_math_ai.ClaimGraph.Audit.{claim_of}
use autonomous_math_ai.ClaimGraph.Dependencies.{sort_obligations}

abbrev pub statuses_into :
    List ProofObligation → Dict String ObligationStatus → Dict String ObligationStatus
statuses_into [] statuses = statuses
statuses_into (o ∷ os) statuses = statuses_into os (put o.obligation_id o.status statuses)

-- `status_by_id`: where an id comes twice, the last status stays.
abbrev pub status_by_id :
    Dict String Claim → Dict String ObligationStatus → Dict String ObligationStatus
status_by_id [] statuses = statuses
status_by_id ((claim_id, c) ∷ rest) statuses =
    status_by_id rest (statuses_into c.proof_obligations statuses)

abbrev pub is_discharged : Option ObligationStatus → Bool
is_discharged (some discharged) = true
is_discharged other = false

abbrev pub is_open : ObligationStatus → Bool
is_open open_obligation = true
is_open other = false

-- What `ready` asks of one dependency.
unfoldable pub dependency_is_ready :
    ClaimGraph → Dict String ObligationStatus → String → Result GraphError Bool
dependency_is_ready g statuses dependency = elim (get dependency g.claims) [
  | none ↦ ok (is_discharged (get dependency statuses))
  | some c ↦ do
    satisfied ← by_semantics (dependency_is_satisfied g.semantics c.math_status)
    ok (satisfied && is_trusted c.trust_status)
]

-- The loop of `ready`, which returns at the first dependency that is not.
unfoldable pub dependencies_are_ready :
    ClaimGraph → Dict String ObligationStatus → List String → Result GraphError Bool
unfolding dependency_is_ready
dependencies_are_ready g statuses [] = ok true
dependencies_are_ready g statuses (d ∷ ds) = do
  first ← dependency_is_ready g statuses d
  let rest = dependencies_are_ready g statuses ds
  if first then rest else ok false

unfoldable pub ready :
    ClaimGraph → Dict String ObligationStatus → ProofObligation → Result GraphError Bool
unfolding dependencies_are_ready
ready g statuses o = do
  all_ready ← dependencies_are_ready g statuses o.dependencies
  ok (all_ready && is_open o.status)

-- `[item for item in remaining if ready(item)]`
unfoldable pub ready_open :
    ClaimGraph
    → Dict String ObligationStatus
    → List ProofObligation
    → Result GraphError (List ProofObligation)
unfolding ready
ready_open g statuses [] = ok []
ready_open g statuses (o ∷ os) = do
  first ← ready g statuses o
  rest ← ready_open g statuses os
  ok (if first then o ∷ rest else rest)

-- The first of those with the least id: `min` by the id of a list that may be empty.
abbrev pub first_of : List ProofObligation → Option ProofObligation
first_of [] = none
first_of (o ∷ os) = some o

abbrev pub or_else : Option ProofObligation → Option ProofObligation → Option ProofObligation
or_else none other = other
or_else (some o) other = some o

pub record Frontier : Type 0 where
  pub claim_id : String
  pub obligations : List ProofObligation
  pub remaining : List ProofObligation
  pub next : Option ProofObligation

-- The dictionary that is returned holds the ids of the remaining and of the next obligation.
unfoldable pub research_frontier : ClaimGraph → String → Result GraphError Frontier
unfolding ready_open
research_frontier g claim_id = do
  c ← claim_of g claim_id
  let statuses = status_by_id g.claims []
  let remaining = keep (λ o. is_unsettled o.status) c.proof_obligations
  let ordered = sort_obligations remaining
  if not (g.semantics.obligation_kind == "proof")
      then ok (record { claim_id = claim_id; obligations = []; remaining = []; next = none })
      else (ready_open g statuses remaining >>= λ can_start. ok (record {
        claim_id = claim_id;
        obligations = sort_obligations c.proof_obligations;
        remaining = ordered;
        next = or_else (first_of (sort_obligations can_start)) (first_of ordered);
      }))

-- `sorted(self.claims.items())`, by the ids
abbrev pub insert_claim : String × Claim → Dict String Claim → Dict String Claim
insert_claim entry [] = entry ∷ []
insert_claim entry (other ∷ rest) =
    let more = insert_claim entry rest in
    elim (compare_text entry.0 other.0) [ Ordering.gt ↦ other ∷ more | less ↦ entry ∷ other ∷ rest ]

abbrev pub sort_claims : Dict String Claim → Dict String Claim
sort_claims [] = []
sort_claims (entry ∷ rest) = insert_claim entry (sort_claims rest)

abbrev pub was_positive : List ClaimStatus → Option ClaimStatus → Bool
was_positive statuses none = false
was_positive statuses (some status) = elem status statuses

abbrev pub promotions :
    List ClaimStatus → Dict String ClaimStatus → Dict String Claim → List (String × ClaimStatus)
promotions statuses previous [] = []
promotions statuses previous ((claim_id, c) ∷ rest) =
    let more = promotions statuses previous rest in
    if elem c.math_status statuses && not (was_positive statuses (get claim_id previous))
    then (claim_id, c.math_status) ∷ more
    else more

unfoldable pub positive_terminal_promotions :
    ClaimGraph → Dict String ClaimStatus → List (String × ClaimStatus)
positive_terminal_promotions g previous =
    promotions g.semantics.terminal_positive previous (sort_claims g.claims)
