-- ===== src/ClaimGraph/Blocked.antt =====
-- claim_graph.py, `prune_failed_dependencies`: how the loop ends, and what it leaves.
use autonomous_math_ai.Base.{
  ℕ, zero, suc, ◌≤◌, ◌<◌, ◌≡◌, ◌⊎◌, inl, inr, refl, sym, ◌∙◌, subst, Bool, true, false, not, ◌&&◌,
  String, Option, some, List, [], ◌∷◌, any, tally, length, All, string_eq, Bool-cases, arith,
}
use autonomous_math_ai.Base.Dict.{Dict, has}
use autonomous_math_ai.Base.Result.{Result, ok, >>=-eq-ok}
use autonomous_math_ai.ClaimGraph.Claim.{Claim, ClaimGraph, GraphError}
use autonomous_math_ai.ClaimGraph.Dependencies.{resolved_dependency_claim_ids}
use autonomous_math_ai.ClaimGraph.Prune.{
  failed_ids, prune_round, prune_rounds, prune_failed_dependencies,
}
use autonomous_math_ai.ClaimGraph.Rounds.{
  is_free, IsClosed, round-keeps, round-catches, round-quiet,
}

module _ {ℓ} {A : Type ℓ} where
  tally-drop :
      (p q : A → Bool) (xs : List A)
      → ((x : A) → q x ≡ true → p x ≡ true)
      → (tally q xs ≤ tally p xs)
        × (any (λ x. p x && not (q x)) xs ≡ false ⊎ (tally q xs < tally p xs))
  tally-drop p q [] h = (omega arith, inl refl)
  tally-drop p q (x ∷ xs) h = ground (arith, tally-drop p q xs h, h x)

module _ (depends : String → Result GraphError (List String)) (failed : List String) where
  still_free :
      (claims : Dict String Claim) (blocked : Dict String (List String)) (changed : Bool)
      {r : Dict String (List String) × Bool} (x : String × Claim)
      → prune_round depends failed claims blocked changed ≡ ok r
      → is_free r.0 x ≡ true
      → is_free blocked x ≡ true
  still_free claims blocked changed {r} (k, c) e free = elim (Bool-cases (has c.claim_id blocked)) [
    | inl held ↦
        let kept = round-keeps depends failed claims blocked changed c.claim_id e held in
        let never : ⊥ = ground (arith, kept, free) in absurd never
    | inr not_held ↦ rw not_held refl
  ]

  -- A round that goes on leaves fewer free claims.
  free-lt :
      (claims : Dict String Claim) (blocked : Dict String (List String))
      {r : Dict String (List String) × Bool}
      → prune_round depends failed claims blocked false ≡ ok r
      → r.1 ≡ true
      → tally (is_free r.0) claims < tally (is_free blocked) claims
  free-lt claims blocked {r} e told =
      let (le, drop) =
        tally-drop (is_free blocked) (is_free r.0) claims
          (λ x free. still_free claims blocked false x e free) in
      elim (round-catches depends failed claims blocked false e told) [
        | inl never ↦ let bad : ⊥ = ground (arith, never) in absurd bad
        | inr caught ↦ elim drop [
          | inl none_caught ↦
              let bad : true ≡ false = sym caught ∙ none_caught in
              let never : ⊥ = ground (arith, bad) in absurd never
          | inr fewer ↦ fewer
        ]
      ]

  last-IsClosed :
      (claims : Dict String Claim) (blocked : Dict String (List String))
      (r : Dict String (List String) × Bool) {o : Option (Dict String (List String))}
      → prune_round depends failed claims blocked false ≡ ok r
      → r.1 ≡ false
      → ◌≡◌ {A = Result GraphError (Option (Dict String (List String)))} (ok (some r.0)) (ok o)
      → (last : Dict String (List String)) × (o ≡ some last)
        × All (IsClosed depends failed last) claims
  last-IsClosed claims blocked r {o} round quiet ended =
      let (told, same, closed) = round-quiet depends failed claims blocked false round quiet in
      let is : o ≡ some r.0 = cc ended in
      (
        r.0,
        is,
        subst (λ (x : Dict String (List String)). All (IsClosed depends failed x) claims) (sym same)
            closed,
      )

  -- With more rounds than there are free claims, the loop ends with closed claims.
  rounds-end :
      (fuel : ℕ) (claims : Dict String Claim) (blocked : Dict String (List String))
      {o : Option (Dict String (List String))}
      → prune_rounds depends failed fuel claims blocked ≡ ok o
      → tally (is_free blocked) claims < fuel
      → (last : Dict String (List String)) × (o ≡ some last)
        × All (IsClosed depends failed last) claims
  unfolding prune_rounds
  rounds-end zero claims blocked e h = let never : ⊥ = omega (arith, h) in absurd never
  rounds-end (suc fuel) claims blocked {o} e h =
      let (r, round, rest) = >>=-eq-ok (prune_round depends failed claims blocked false) _ e in
      elim (Bool-cases r.1) [
        | inl more ↦
            rounds-end fuel claims r.0 (rw more at rest)
              (omega (arith, h, free-lt claims blocked round more))
        | inr done ↦ last-IsClosed claims blocked r round done (rw done at rest)
      ]

tally-le_length : {A : Type 0} (p : A → Bool) (xs : List A) → tally p xs ≤ length xs
tally-le_length p [] = omega arith
tally-le_length p (x ∷ xs) = ground (arith, tally-le_length p xs)

-- Unless a status or a dependency is refused, pruning ends after at most one round more than there
-- are claims. It then has looked up the dependencies of every claim, and each claim has none that
-- failed or is blocked, or is blocked itself.
pub prune_ends :
    (g : ClaimGraph) {o : Option (Dict String (List String))}
    → prune_failed_dependencies g ≡ ok o
    → (failed : List String) × (failed_ids g.semantics g.claims ≡ ok failed)
      × (blocked : Dict String (List String)) × (o ≡ some blocked)
      × All (IsClosed (resolved_dependency_claim_ids g) failed blocked) g.claims
unfolding prune_failed_dependencies
prune_ends g e =
    let (failed, found, rest) = >>=-eq-ok (failed_ids g.semantics g.claims) _ e in
    let (blocked, ended, closed) =
      rounds-end (resolved_dependency_claim_ids g) failed (suc (length g.claims)) g.claims [] rest
        (omega (arith, tally-le_length (is_free []) g.claims)) in
    (failed, found, blocked, ended, closed)
