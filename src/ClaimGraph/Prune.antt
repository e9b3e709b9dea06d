-- ===== src/ClaimGraph/Prune.antt =====
-- claim_graph.py, `prune_failed_dependencies`: the claims that a failed claim blocks.
use autonomous_math_ai.Base.{
  ℕ, zero, suc, Bool, true, false, not, ◌&&◌, String, Option, none, some, List, [], ◌∷◌, ◌++◌,
  is_empty, keep, elem, length, if◌then◌else◌, string_eq,
}
use autonomous_math_ai.Base.Dict.{Dict, put, has}
use autonomous_math_ai.Base.Result.{Result, ok, ◌>>=◌}
use autonomous_math_ai.Domain.Contract.{DomainContract}
use autonomous_math_ai.Domain.Semantics.{dependency_is_refuting}
use autonomous_math_ai.ClaimGraph.Claim.{Claim, ClaimGraph, GraphError, by_semantics, is_trusted}
use autonomous_math_ai.ClaimGraph.Dependencies.{resolved_dependency_claim_ids}

-- The claims whose trusted status refutes what depends on them.
abbrev pub failed_ids : DomainContract → Dict String Claim → Result GraphError (List String)
failed_ids d [] = ok []
failed_ids d ((claim_id, c) ∷ rest) = do
  refuting ← by_semantics (dependency_is_refuting d c.math_status)
  more ← failed_ids d rest
  ok (if refuting && is_trusted c.trust_status then claim_id ∷ more else more)

abbrev pub reasons : List String → Dict String (List String) → List String → List String
reasons failed blocked dependencies =
    keep (λ d. elem d failed) dependencies ++ keep (λ d. has d blocked) dependencies

-- Whether a claim is blocked now that was not before.
abbrev pub is_new : List String → Dict String (List String) → Claim → List String → Bool
is_new failed blocked c dependencies =
    not (is_empty (reasons failed blocked dependencies)) && not (has c.claim_id blocked)

module _ (depends : String → Result GraphError (List String)) (failed : List String) where
  -- One round of the loop over the claims, and whether it blocked one.
  unfoldable pub prune_round :
      Dict String Claim
      → Dict String (List String)
      → Bool
      → Result GraphError (Dict String (List String) × Bool)
  prune_round [] blocked changed = ok (blocked, changed)
  prune_round ((k, c) ∷ rest) blocked changed = do
    dependencies ← depends c.claim_id
    if is_new failed blocked c dependencies
        then prune_round rest (put c.claim_id (reasons failed blocked dependencies) blocked) true
        else prune_round rest blocked changed

  -- `while changed`, for at most so many rounds
  unfoldable pub prune_rounds :
      ℕ
      → Dict String Claim
      → Dict String (List String)
      → Result GraphError (Option (Dict String (List String)))
  unfolding prune_round
  prune_rounds zero claims blocked = ok none
  prune_rounds (suc fuel) claims blocked = do
    next ← prune_round claims blocked false
    if next.1 then prune_rounds fuel claims next.0 else ok (some next.0)

unfoldable pub prune_failed_dependencies :
    ClaimGraph → Result GraphError (Option (Dict String (List String)))
unfolding prune_rounds
prune_failed_dependencies g = do
  failed ← failed_ids g.semantics g.claims
  prune_rounds (resolved_dependency_claim_ids g) failed (suc (length g.claims)) g.claims []
