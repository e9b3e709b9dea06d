-- ===== src/ClaimGraph/Validate.antt =====
-- claim_graph.py, `validate`: the checks of each claim, then the search for a cycle.
pub mod Accepted
use autonomous_math_ai.Base.{
  ℕ, ◌+◌, ◌≡◌, ◌⊎◌, Bool, true, false, not, ◌||◌, String, Option, none, some, List, [], ◌∷◌, ◌++◌,
  is_empty, any, All, elem, has_duplicates, string_eq, ◌==◌,
}
use autonomous_math_ai.Base.Text.{squeeze}
use autonomous_math_ai.Base.Dict.{Dict, has}
use autonomous_math_ai.Base.Result.{Result, ok, raise, ◌>>=◌, ◌>>◌, raise_if}
use autonomous_math_ai.Domain.Contract.{claim_status_eq}
use autonomous_math_ai.Domain.Semantics.{validate_status}
use autonomous_math_ai.ClaimGraph.Claim.{
  Claim, ClaimGraph, ProofObligation, GraphError, by_semantics, missing_dependency, own_parent,
  missing_parent, invalid_obligation, repeated_obligations,
}
use autonomous_math_ai.ClaimGraph.Dependencies.{obligation_owners, resolved_dependency_claim_ids}
use autonomous_math_ai.ClaimGraph.Cycles.{visit_claims}

abbrev pub ids_of : List ProofObligation → List String
ids_of [] = []
ids_of (o ∷ os) = o.obligation_id ∷ ids_of os

-- The ids of the obligations of every claim.
abbrev pub obligation_ids : Dict String Claim → List String
obligation_ids [] = []
obligation_ids ((claim_id, c) ∷ rest) = ids_of c.proof_obligations ++ obligation_ids rest

abbrev pub check_parent : ClaimGraph → Claim → Option String → Result GraphError (Unit {0})
check_parent g c none = ok tt
check_parent g c (some parent) = do
  raise_if (parent == c.claim_id) (own_parent c.claim_id)
  raise_if (not (has parent g.claims)) (missing_parent c.claim_id)

-- `ProofObligation.from_dict(obligation.to_dict())`: an obligation has every field and a known
-- status, so two of its tests are left.
unfoldable pub check_obligation : ProofObligation → Result GraphError (Unit {0})
check_obligation o = do
  raise_if (is_empty (squeeze o.obligation_id) || is_empty (squeeze o.statement))
      (invalid_obligation o.obligation_id)
  raise_if (has_duplicates o.dependencies) (invalid_obligation o.obligation_id)

unfoldable pub check_each :
    ClaimGraph → List String → List ProofObligation → Result GraphError (Unit {0})
unfolding check_obligation
check_each g ids [] = ok tt
check_each g ids (o ∷ os) = do
  check_obligation o
  raise_if (any (λ d. not (has d g.claims || elem d ids)) o.dependencies)
      (missing_dependency o.obligation_id)
  check_each g ids os

unfoldable pub check_claim : ClaimGraph → List String → Claim → Result GraphError (Unit {0})
unfolding check_each
check_claim g ids c = do
  status ← by_semantics (validate_status g.semantics c.math_status)
  raise_if (any (λ d. not (has d g.claims)) c.dependencies) (missing_dependency c.claim_id)
  check_parent g c c.parent_claim_id
  check_each g ids c.proof_obligations
  shape ← resolved_dependency_claim_ids g c.claim_id
  ok tt

unfoldable pub check_claims :
    ClaimGraph → List String → Dict String Claim → Result GraphError (Unit {0})
unfolding check_claim
check_claims g ids [] = ok tt
check_claims g ids ((claim_id, c) ∷ rest) = do check_claim g ids c; check_claims g ids rest

unfoldable pub check_graph : ClaimGraph → Result GraphError (Unit {0})
unfolding check_claims
check_graph g = do
  owners ← obligation_owners g
  raise_if (has_duplicates (obligation_ids g.claims)) repeated_obligations
  check_claims g (obligation_ids g.claims) g.claims

-- `none` means that the search ran out of fuel.
unfoldable pub validate : ClaimGraph → Option (Result GraphError (Unit {0}))
unfolding check_graph visit_claims
validate g = elim (check_graph g) [
  | raise e ↦ some (raise e)
  | ok checked ↦ elim (visit_claims g) [
    | none ↦ none
    | some (raise e) ↦ some (raise e)
    | some (ok visited) ↦ some (ok tt)
  ]
]

-- What a graph must give for one of its claims.
pub record IsValidClaim (g : ClaimGraph) (c : Claim) : Type 0 where
  pub known_status : elem c.math_status g.semantics.claim_statuses ≡ true
  pub present : All (λ d. has d g.claims ≡ true) c.dependencies
  pub parent :
      (c.parent_claim_id ≡ none)
      ⊎ ((p : String) × (c.parent_claim_id ≡ some p)
          × ((p == c.claim_id) ≡ false)
          × (has p g.claims ≡ true))
  pub obligations :
      All
        (λ o.
          (has_duplicates o.dependencies ≡ false)
          × All (λ d. (has d g.claims || elem d (obligation_ids g.claims)) ≡ true) o.dependencies)
        c.proof_obligations
  pub resolved : (ds : List String) × (resolved_dependency_claim_ids g c.claim_id ≡ ok ds)
