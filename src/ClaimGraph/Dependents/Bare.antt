-- ===== src/ClaimGraph/Dependents/Bare.antt =====
-- claim_graph.py: the lists of dependents play no part in what a claim depends on.
use autonomous_math_ai.Base.{
  ◌≡◌, refl, arith, sym, ap, inl, inr, Bool, not, String, Option, none, some, List, [], ◌∷◌, any,
  string_eq, Option-cases, Bool-cases,
}
use autonomous_math_ai.Base.Dict.{Dict, get, has}
use autonomous_math_ai.Base.Result.{Result-cases}
use autonomous_math_ai.ClaimGraph.Claim.{Claim, ClaimGraph, ProofObligation, sorted_set}
use autonomous_math_ai.ClaimGraph.Dependencies.{
  own_one, own_each, own_all, obligation_owners, resolve_each, resolve_obligations,
  resolved_dependency_claim_ids, sort_obligations,
}
use autonomous_math_ai.ClaimGraph.Dependents.{clear_dependents}

abbrev pub bare : Claim → Claim
bare c = record c { downstream_dependents = [] }

abbrev pub bare_of : Option Claim → Option Claim
bare_of none = none
bare_of (some c) = some (bare c)

pub get-clear :
    (k : String) (claims : Dict String Claim)
    → get k (clear_dependents claims) ≡ bare_of (get k claims)
unfolding get
get-clear k [] = refl
get-clear k ((j, c) ∷ rest) = ground (arith, get-clear k rest)

module _ (claims other : Dict String Claim) (same : (k : String) → has k claims ≡ has k other) where
  own_each-same :
      (claim_id : String) (os : List ProofObligation) (owners : Dict String String)
      → own_each claims claim_id os owners ≡ own_each other claim_id os owners
  own_each-same claim_id [] owners = refl
  own_each-same claim_id (o ∷ os) owners = elim (Bool-cases (has o.obligation_id other)) [
    | inl repeated ↦ rw (same o.obligation_id, repeated) refl
    | inr new ↦
        elim (Result-cases (own_one claim_id o.obligation_id owners (get o.obligation_id owners))) [
          | inl (more, made) ↦ rw (same o.obligation_id, new, made) (own_each-same claim_id os more)
          | inr (e, made) ↦ rw (same o.obligation_id, new, made) refl
        ]
  ]

  own_all-same :
      (rest : Dict String Claim) (owners : Dict String String)
      → own_all claims rest owners ≡ own_all other (clear_dependents rest) owners
  own_all-same [] owners = refl
  own_all-same ((k, c) ∷ rest) owners =
      rw (own_each-same k c.proof_obligations owners)
        (elim (Result-cases (own_each other k c.proof_obligations owners)) [
          | inl (more, made) ↦ rw made (own_all-same rest more)
          | inr (e, made) ↦ rw made refl
        ])

  resolve_each-same :
      (owners : Dict String String) (ds : List String)
      → resolve_each claims owners ds ≡ resolve_each other owners ds
  resolve_each-same owners [] = refl
  resolve_each-same owners (d ∷ ds) = rw (same d, resolve_each-same owners ds) refl

  resolve_obligations-same :
      (owners : Dict String String) (os : List ProofObligation)
      → resolve_obligations claims owners os ≡ resolve_obligations other owners os
  resolve_obligations-same owners [] = refl
  resolve_obligations-same owners (o ∷ os) =
      rw (resolve_each-same owners (sorted_set o.dependencies), resolve_obligations-same owners os)
        refl

has-same :
    (claims other : Dict String Claim)
    → clear_dependents claims ≡ clear_dependents other
    → (k : String) → has k claims ≡ has k other
has-same claims other e k =
    ground
      (arith, get-clear k claims, get-clear k other, ap (λ (cs : Dict String Claim). get k cs) e)

pub clear-clear :
    (claims : Dict String Claim)
    → clear_dependents (clear_dependents claims) ≡ clear_dependents claims
clear-clear [] = refl
clear-clear ((k, c) ∷ rest) = rw (clear-clear rest) refl

-- The graph with every list of dependents empty.
abbrev pub bare_graph : ClaimGraph → ClaimGraph
bare_graph g = record g { claims = clear_dependents g.claims }

any-same :
    (p q : String → Bool) (ds : List String)
    → ((d : String) → p d ≡ q d)
    → any (λ d. not (p d)) ds ≡ any (λ d. not (q d)) ds
any-same p q [] same = refl
any-same p q (d ∷ ds) same = rw (same d, any-same p q ds same) refl

pub resolved-bare :
    (g : ClaimGraph) (id : String)
    → resolved_dependency_claim_ids g id ≡ resolved_dependency_claim_ids (bare_graph g) id
unfolding resolved_dependency_claim_ids obligation_owners
resolved-bare g id =
    let bared = clear_dependents g.claims in
    let same = has-same g.claims bared (sym (clear-clear g.claims)) in
    let owned = own_all-same g.claims bared same g.claims [] in
    elim (Option-cases (get id g.claims)) [
      | inl absent ↦ ground (arith, get-clear id g.claims)
      | inr (c, found) ↦ elim (Result-cases (own_all bared bared [])) [
        | inr (e, made) ↦ ground (arith, get-clear id g.claims)
        | inl (owners, made) ↦ ground (
          arith,
          get-clear id g.claims,
          any-same (λ d. has d g.claims) (λ d. has d bared) c.dependencies same,
          resolve_obligations-same g.claims bared same owners
              (sort_obligations c.proof_obligations),
        )
      ]
    ]
