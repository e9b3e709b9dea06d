-- ===== src/ClaimGraph/Validate/Accepted.antt =====
-- claim_graph.py, `validate`: what a graph that is accepted has, and that there is an answer.
use autonomous_math_ai.Base.{
  ◌≡◌, ◌⊎◌, refl, arith, inl, inr, Bool, true, false, not, ◌||◌, String, Option, none, some, List,
  [], ◌∷◌, any, All, elem, has_duplicates, string_eq, ◌==◌,
}
use autonomous_math_ai.Base.Dict.{Dict, has, get, All-get}
use autonomous_math_ai.Base.Result.{Result, ok, raise, >>=-eq-ok, raise_if-eq-ok, Result-cases}
use autonomous_math_ai.Domain.Contract.{claim_status_eq}
use autonomous_math_ai.Domain.Semantics.{validate_status}
use autonomous_math_ai.ClaimGraph.Claim.{
  Claim, ClaimGraph, ProofObligation, GraphError, by_semantics,
}
use autonomous_math_ai.ClaimGraph.Cycles.{Needs}
use autonomous_math_ai.ClaimGraph.Cycles.Order.{visited_acyclic}
use autonomous_math_ai.ClaimGraph.Cycles.Ends.{visit_returns}
use autonomous_math_ai.ClaimGraph.Validate.{
  obligation_ids, check_parent, check_obligation, check_each, check_claim, check_claims,
  check_graph, validate, IsValidClaim,
}

none_missing :
    (p : String → Bool) (ds : List String)
    → any (λ d. not (p d)) ds ≡ false
    → All (λ d. p d ≡ true) ds
none_missing p [] h = tt
none_missing p (d ∷ ds) h = (ground arith, none_missing p ds (ground arith))

parent_present :
    (g : ClaimGraph) (c : Claim) (o : Option String) {u : Unit {0}}
    → check_parent g c o ≡ ok u
    → (o ≡ none)
      ⊎ ((p : String) × (o ≡ some p) × ((p == c.claim_id) ≡ false) × (has p g.claims ≡ true))
parent_present g c none e = inl refl
parent_present g c (some p) e = inr (p, refl, ground arith, ground arith)

obligations_hold :
    (g : ClaimGraph) (ids : List String) (os : List ProofObligation) {u : Unit {0}}
    → check_each g ids os ≡ ok u
    → All
        (λ o.
          (has_duplicates o.dependencies ≡ false)
          × All (λ d. (has d g.claims || elem d ids) ≡ true) o.dependencies)
        os
unfolding check_each check_obligation
obligations_hold g ids [] e = tt
obligations_hold g ids (o ∷ os) e =
    let (_, first, e₁) = >>=-eq-ok (check_obligation o) _ e in
    let (_, known, rest) = >>=-eq-ok _ _ e₁ in
    (
      (
        ground arith,
        none_missing (λ d. has d g.claims || elem d ids) o.dependencies (raise_if-eq-ok _ _ known),
      ),
      obligations_hold g ids os rest,
    )

by_semantics-eq-ok :
    (g : ClaimGraph) (c : Claim) {s : _}
    → by_semantics (validate_status g.semantics c.math_status) ≡ ok s
    → elem c.math_status g.semantics.claim_statuses ≡ true
unfolding validate_status
by_semantics-eq-ok g c e = ground arith

claim_holds :
    (g : ClaimGraph) (c : Claim) {u : Unit {0}}
    → check_claim g (obligation_ids g.claims) c ≡ ok u
    → IsValidClaim g c
unfolding check_claim
claim_holds g c e =
    let (_, status, e₁) = >>=-eq-ok _ _ e in
    let (_, present, e₂) = >>=-eq-ok _ _ e₁ in
    let (_, parent, e₃) = >>=-eq-ok _ _ e₂ in
    let (_, each, e₄) = >>=-eq-ok _ _ e₃ in
    let (ds, shape, _) = >>=-eq-ok _ _ e₄ in
    record {
      known_status = by_semantics-eq-ok g c status;
      present = none_missing (λ d. has d g.claims) c.dependencies (raise_if-eq-ok _ _ present);
      parent = parent_present g c c.parent_claim_id parent;
      obligations = obligations_hold g (obligation_ids g.claims) c.proof_obligations each;
      resolved = (ds, shape);
    }

claims_hold :
    (g : ClaimGraph) (claims : Dict String Claim) {u : Unit {0}}
    → check_claims g (obligation_ids g.claims) claims ≡ ok u
    → All (λ entry. IsValidClaim g entry.1) claims
unfolding check_claims
claims_hold g [] e = tt
claims_hold g ((k, c) ∷ rest) e =
    let (_, first, later) = >>=-eq-ok (check_claim g (obligation_ids g.claims) c) _ e in
    (claim_holds g c first, claims_hold g rest later)

-- Each claim of a graph that validate accepts has a status of the domain, depends on claims of the
-- graph only, has no parent or one that is in the graph and is not itself, has obligations without
-- repeated or unknown dependencies, has dependencies that resolve, and does not depend on itself
-- through resolved dependencies.
pub validate_accepts :
    (g : ClaimGraph) (x : String) (c : Claim)
    → validate g ≡ some (ok tt)
    → get x g.claims ≡ some c
    → IsValidClaim g c × ¬ Needs g x x
unfolding validate check_graph
validate_accepts g x c e found =
    let (r, searched) = visit_returns g in
    let (visited, made) : (visited : List String) × (r ≡ ok visited) = elim (Result-cases r) [
      | inl good ↦ good
      | inr (err, bad) ↦ absurd (ground arith)
    ] in
    let checked : check_graph g ≡ ok tt = ground arith in
    let each : check_claims g (obligation_ids g.claims) g.claims ≡ ok tt = ground arith in
    (
      All-get (λ entry. IsValidClaim g entry.1) x c g.claims (claims_hold g g.claims each) found,
      visited_acyclic g visited x (ground arith) (ground arith),
    )

-- The validation of a graph always returns or raises: the depth of the search for cycles never
-- passes the number of claims by more than two calls.
pub validate_returns : (g : ClaimGraph) → (r : Result GraphError (Unit {0})) × (validate g ≡ some r)
unfolding validate
validate_returns g = elim (Result-cases (check_graph g)) [
  | inr (err, made) ↦ (raise err, ground arith)
  | inl (u, made) ↦
      let (r, searched) = visit_returns g in
      elim (Result-cases r) [
        | inl (visited, e) ↦ (ok tt, ground arith)
        | inr (err, e) ↦ (raise err, ground arith)
      ]
]
