-- ===== src/ClaimGraph/Dependencies.antt =====
-- claim_graph.py: the claims that a claim depends on, through its own dependencies and through those
-- of its obligations.
use autonomous_math_ai.Base.{
  Bool, true, false, not, ◌||◌, String, Option, none, some, List, [], ◌∷◌, ◌++◌, is_empty, any,
  keep, elem, if◌then◌else◌, string_eq, ◌==◌,
}
use Prim.Native.Nat.{Ordering}
use Prim.Native.String.{compare as compare_text}
use autonomous_math_ai.Base.Text.{squeeze}
use autonomous_math_ai.Base.Dict.{Dict, get, put, has}
use autonomous_math_ai.Base.Result.{Result, ok, raise, ◌>>=◌, ◌>>◌, raise_if}
use autonomous_math_ai.ClaimGraph.Claim.{
  Claim, ClaimGraph, ProofObligation, GraphError, claim_is_obligation, repeated_obligation,
  missing_dependency, invalid_shape, sorted_set,
}
use autonomous_math_ai.ClaimGraph.Audit.{claim_of}

-- `owners.setdefault(obligation_id, claim_id)`, and the test of what it returns
abbrev pub own_one :
    String → String → Dict String String → Option String → Result GraphError (Dict String String)
own_one claim_id id owners none = ok (put id claim_id owners)
own_one claim_id id owners (some prior) =
    if prior == claim_id then ok owners else raise (repeated_obligation id)

abbrev pub own_each :
    Dict String Claim
    → String
    → List ProofObligation
    → Dict String String
    → Result GraphError (Dict String String)
own_each claims claim_id [] owners = ok owners
own_each claims claim_id (o ∷ os) owners = do
  raise_if (has o.obligation_id claims) (claim_is_obligation o.obligation_id)
  more ← own_one claim_id o.obligation_id owners (get o.obligation_id owners)
  own_each claims claim_id os more

abbrev pub own_all :
    Dict String Claim
    → Dict String Claim
    → Dict String String
    → Result GraphError (Dict String String)
own_all claims [] owners = ok owners
own_all claims ((claim_id, c) ∷ rest) owners = do
  more ← own_each claims claim_id c.proof_obligations owners
  own_all claims rest more

unfoldable pub obligation_owners : ClaimGraph → Result GraphError (Dict String String)
obligation_owners g = own_all g.claims g.claims []

-- `sorted(obligations, key=lambda item: item.obligation_id)`
abbrev pub insert_obligation : ProofObligation → List ProofObligation → List ProofObligation
insert_obligation o [] = o ∷ []
insert_obligation o (p ∷ ps) =
    let more = insert_obligation o ps in
    elim (compare_text o.obligation_id p.obligation_id) [
      | Ordering.gt ↦ p ∷ more
      | other ↦ o ∷ p ∷ ps
    ]

abbrev pub sort_obligations : List ProofObligation → List ProofObligation
sort_obligations [] = []
sort_obligations (o ∷ os) = insert_obligation o (sort_obligations os)

abbrev pub resolve : Dict String Claim → Dict String String → String → Result GraphError String
resolve claims owners dependency =
    if has dependency claims then ok dependency else elim (get dependency owners) [
      | none ↦ raise (missing_dependency dependency)
      | some claim_id ↦ ok claim_id
    ]

abbrev pub resolve_each :
    Dict String Claim → Dict String String → List String → Result GraphError (List String)
resolve_each claims owners [] = ok []
resolve_each claims owners (d ∷ ds) = do
  claim_id ← resolve claims owners d
  more ← resolve_each claims owners ds
  ok (claim_id ∷ more)

abbrev pub resolve_obligations :
    Dict String Claim → Dict String String → List ProofObligation → Result GraphError (List String)
resolve_obligations claims owners [] = ok []
resolve_obligations claims owners (o ∷ os) = do
  here ← resolve_each claims owners (sorted_set o.dependencies)
  more ← resolve_obligations claims owners os
  ok (here ++ more)

-- `obligation_id <= prior_obligation_id`
abbrev pub not_after : String → Option String → Bool
not_after id none = false
not_after id (some prior) = elim (compare_text id prior) [ Ordering.gt ↦ false | other ↦ true ]

-- What `normalize_dependency_shape` still refuses of a shape that was just made.
abbrev pub check_obligations : Option String → List ProofObligation → Result GraphError (Unit {0})
check_obligations prior [] = ok tt
check_obligations prior (o ∷ os) = do
  raise_if (o.obligation_id == "" || not_after o.obligation_id prior) invalid_shape
  raise_if (elem "" o.dependencies) invalid_shape
  check_obligations (some o.obligation_id) os

unfoldable pub resolved_dependency_claim_ids : ClaimGraph → String → Result GraphError (List String)
unfolding obligation_owners
resolved_dependency_claim_ids g claim_id = do
  c ← claim_of g claim_id
  owners ← obligation_owners g
  raise_if (any (λ d. not (has d g.claims)) c.dependencies) (missing_dependency claim_id)
  let sorted = sort_obligations c.proof_obligations
  references ← resolve_obligations g.claims owners sorted
  raise_if (is_empty (squeeze claim_id) || elem "" c.dependencies) invalid_shape
  check_obligations none sorted
  raise_if (elem "" references) invalid_shape
  ok (keep (λ d. not (d == claim_id)) (sorted_set (c.dependencies ++ references)))
