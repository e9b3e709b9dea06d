-- ===== src/ClaimGraph/Dependents.antt =====
-- claim_graph.py, `__init__`, `_rebuild_dependents` and the part of `to_payload` that works on the
-- graph: the lists of the claims that depend on a claim.
pub mod Bare
pub mod Listed
use autonomous_math_ai.Base.{ℕ, String, Option, none, some, List, [], ◌∷◌, ◌++◌, string_eq}
use Prim.Native.Nat.{Ordering}
use Prim.Native.String.{compare as compare_text}
use autonomous_math_ai.Base.Dict.{Dict, get, put}
use autonomous_math_ai.Base.Sorting.{sort_texts}
use autonomous_math_ai.Base.Result.{Result, ok, raise, ◌>>=◌, ◌>>◌}
use autonomous_math_ai.Domain.Contract.{DomainContract, claim_status_eq}
use autonomous_math_ai.Domain.Semantics.{validate_status}
use autonomous_math_ai.ClaimGraph.Claim.{
  Claim, ClaimGraph, GraphError, unknown_claim, by_semantics, ensure_claim_obligations,
}
use autonomous_math_ai.ClaimGraph.Dependencies.{resolved_dependency_claim_ids}
use autonomous_math_ai.ClaimGraph.Frontier.{sort_claims}
use autonomous_math_ai.ClaimGraph.Validate.{validate}

-- `claim.downstream_dependents = []` for every claim
abbrev pub clear_dependents : Dict String Claim → Dict String Claim
clear_dependents [] = []
clear_dependents ((claim_id, c) ∷ rest) =
    (claim_id, record c { downstream_dependents = [] }) ∷ clear_dependents rest

-- `self.claims[dep].downstream_dependents.append(claim.claim_id)`
unfoldable pub append_dependent :
    String → String → Dict String Claim → Result GraphError (Dict String Claim)
append_dependent dep claim_id claims = elim (get dep claims) [
  | none ↦ raise (unknown_claim dep)
  | some c ↦ ok (
      put dep (record c { downstream_dependents = c.downstream_dependents ++ claim_id ∷ [] })
        claims)
]

unfoldable pub append_to_each :
    String → List String → Dict String Claim → Result GraphError (Dict String Claim)
unfolding append_dependent
append_to_each claim_id [] claims = ok claims
append_to_each claim_id (dep ∷ deps) claims = do
  more ← append_dependent dep claim_id claims
  append_to_each claim_id deps more

-- The second loop, over the claims in the order of the dictionary.
unfoldable pub append_all :
    DomainContract → Dict String Claim → Dict String Claim → Result GraphError (Dict String Claim)
unfolding append_to_each
append_all d [] claims = ok claims
append_all d ((key, c) ∷ rest) claims = do
  deps ← resolved_dependency_claim_ids (record { claims = claims; semantics = d }) c.claim_id
  more ← append_to_each c.claim_id deps claims
  append_all d rest more

abbrev pub sort_dependents : Dict String Claim → Dict String Claim
sort_dependents [] = []
sort_dependents ((claim_id, c) ∷ rest) =
    (claim_id, record c { downstream_dependents = sort_texts c.downstream_dependents })
    ∷ sort_dependents rest

unfoldable pub rebuild_dependents : ClaimGraph → Result GraphError ClaimGraph
unfolding append_all
rebuild_dependents g = do
  claims ← append_all g.semantics g.claims (clear_dependents g.claims)
  ok (record g { claims = sort_dependents claims })

-- `self.semantics.validate_status(claim.math_status)` for every claim
unfoldable pub check_claim_statuses :
    DomainContract → Dict String Claim → Result GraphError (Unit {0})
check_claim_statuses d [] = ok tt
check_claim_statuses d ((claim_id, c) ∷ rest) = do
  status ← by_semantics (validate_status d c.math_status)
  check_claim_statuses d rest

module _ (obligation_id : String → List ℕ → String) where
  -- `_ensure_proof_obligations`
  unfoldable pub ensure_proof_obligations :
      DomainContract → Dict String Claim → Result GraphError (Dict String Claim)
  ensure_proof_obligations d [] = ok []
  ensure_proof_obligations d ((claim_id, c) ∷ rest) = do
    first ← ensure_claim_obligations obligation_id d c
    more ← ensure_proof_obligations d rest
    ok ((claim_id, first) ∷ more)

  -- `__init__`, with the semantics chosen
  unfoldable pub new_graph : DomainContract → Dict String Claim → Result GraphError ClaimGraph
  unfolding check_claim_statuses ensure_proof_obligations rebuild_dependents
  new_graph d claims = do
    check_claim_statuses d claims
    ensured ← ensure_proof_obligations d claims
    rebuild_dependents (record { claims = ensured; semantics = d })

-- `to_payload`: the graph after it, and the claims in the order in which they are written.
unfoldable pub to_payload : ClaimGraph → Option (Result GraphError (ClaimGraph × Dict String Claim))
unfolding rebuild_dependents validate
to_payload g = elim (rebuild_dependents g) [
  | raise e ↦ some (raise e)
  | ok rebuilt ↦ elim (validate rebuilt) [
    | none ↦ none
    | some (raise e) ↦ some (raise e)
    | some (ok checked) ↦ some (ok (rebuilt, sort_claims rebuilt.claims))
  ]
]
