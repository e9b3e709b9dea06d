-- ===== src/ClaimGraph/Cycles/Order.antt =====
-- claim_graph.py, `visit` in `validate`: the order in which a search that succeeds leaves its claims.
use autonomous_math_ai.Base.{
  ℕ, zero, suc, ◌≡◌, refl, arith, subst, inl, inr, true, false, String, none, some, List, [], ◌∷◌,
  elem, Bool-cases, string_eq, ◌∙◌,
}
use autonomous_math_ai.Base.Result.{ok, raise, Result-cases}
use autonomous_math_ai.Base.Dict.{Dict, has, get}
use autonomous_math_ai.ClaimGraph.Claim.{Claim, ClaimGraph}
use autonomous_math_ai.ClaimGraph.Dependencies.{resolved_dependency_claim_ids}
use autonomous_math_ai.ClaimGraph.Closure.{dependencies_of}
use autonomous_math_ai.ClaimGraph.Cycles.{
  Visited, and_then, visit_each, visit, visit_claims, keys, Needs, directly, through,
}

pub and_then-eq-ok :
    (m : Visited) (next : List String → Visited) {r : List String}
    → and_then m next ≡ some (ok r)
    → (more : List String) × (m ≡ some (ok more)) × (next more ≡ some (ok r))
and_then-eq-ok none next e = ground arith
and_then-eq-ok (some (raise err)) next e = ground arith
and_then-eq-ok (some (ok more)) next e = (more, refl, e)

module _ (g : ClaimGraph) where
  -- Each claim stands before the claims that it needs, and none stands twice.
  abbrev InOrder : List String → Type 0
  InOrder [] = Unit
  InOrder (x ∷ xs) =
      ((d : String) → elem d (dependencies_of g x) ≡ true → elem d xs ≡ true)
      × (elem x xs ≡ false)
      × InOrder xs

  -- What a call adds to the claims visited, with these calls above it.
  record Grown (visiting visited more : List String) : Type 0 where
    in_order : InOrder more
    kept : (x : String) → elem x visited ≡ true → elem x more ≡ true
    off_path : (x : String) → elem x visiting ≡ true → elem x more ≡ elem x visited

  -- What the calls of a loop are known to do.
  abbrev Grows : List String → (String → List String → Visited) → Type 0
  Grows visiting call =
      (d : String) (visited more : List String)
      → InOrder visited
      → call d visited ≡ some (ok more)
      → Grown visiting visited more × (elem d more ≡ true)

  each-Grown :
      (visiting : List String) (call : String → List String → Visited)
      → Grows visiting call
      → (ds visited more : List String) → InOrder visited
      → visit_each call ds visited ≡ some (ok more)
      → Grown visiting visited more × ((d : String) → elem d ds ≡ true → elem d more ≡ true)
  unfolding visit_each
  each-Grown visiting call grows [] visited more h e =
      let same : visited ≡ more = ground arith in
      (
        subst (Grown visiting visited) same
            (record { in_order = h; kept = λ x m. m; off_path = λ x m. refl }),
        λ d m. cc,
      )
  each-Grown visiting call grows (d ∷ ds) visited more h e =
      let (mid, first, rest) = and_then-eq-ok (call d visited) _ e in
      let (grown, made) = grows d visited mid h first in
      let (grown', made') = each-Grown visiting call grows ds mid more grown.in_order rest in
      (
        record {
          in_order = grown'.in_order;
          kept = λ x m. grown'.kept x (grown.kept x m);
          off_path = λ x m. grown'.off_path x m ∙ grown.off_path x m;
        },
        λ x m. ground (arith, made' x, grown'.kept d made, string_eq.beq_iff x d),
      )

  visit-Grows : (fuel : ℕ) (visiting : List String) → Grows visiting (visit fuel g visiting)
  unfolding visit
  visit-Grows zero visiting node visited more h e = ground arith
  visit-Grows (suc fuel) visiting node visited more h e = elim (Bool-cases (elem node visiting)) [
    | inl looped ↦ ground arith
    | inr off ↦ elim (Bool-cases (elem node visited)) [
      | inl old ↦
          let same : visited ≡ more = ground arith in
          (
            subst (Grown visiting visited) same
                (record { in_order = h; kept = λ x m. m; off_path = λ x m. refl }),
            subst (λ (xs : List String). elem node xs ≡ true) same old,
          )
      | inr new ↦ elim (Result-cases (resolved_dependency_claim_ids g node)) [
        | inr (err, made) ↦ ground arith
        | inl (ds, made) ↦
            let same : dependencies_of g node ≡ ds = ground arith in
            let ran : and_then (visit_each (visit fuel g (node ∷ visiting)) ds visited)
                  (λ mid. some (ok (node ∷ mid)))
                ≡ some (ok more) =
              ground arith in
            let (mid, each, last) = and_then-eq-ok _ _ ran in
            let (grown, all_in) =
              each-Grown (node ∷ visiting) _ (visit-Grows fuel (node ∷ visiting)) ds visited mid h
                each in
            let fresh : elem node mid ≡ false =
              grown.off_path node (ground (arith, string_eq.beq_iff node node)) ∙ new in
            let longer : node ∷ mid ≡ more = ground arith in
            let grown' : Grown visiting visited (node ∷ mid) = record {
              in_order = (
                λ d m. all_in d (subst (λ (xs : List String). elem d xs ≡ true) same m),
                fresh,
                grown.in_order,
              );
              kept = λ x m. ground (arith, grown.kept x m);
              off_path = λ x m. ground (arith, grown.off_path x, string_eq.beq_iff x node);
            } in
            (
              subst (Grown visiting visited) longer grown',
              subst (λ (xs : List String). elem node xs ≡ true) longer
                  (ground (arith, string_eq.beq_iff node node)),
            )
      ]
    ]
  ]

  -- The claims visited need only claims visited.
  direct :
      (xs : List String) (u v : String)
      → InOrder xs
      → elem u xs ≡ true
      → elem v (dependencies_of g u) ≡ true
      → elem v xs ≡ true
  direct [] u v h m edge = cc
  direct (x ∷ xs) u v h m edge = elim (Bool-cases (elem u xs)) [
    | inl old ↦ ground (arith, direct xs u v h.2 old edge)
    | inr other ↦
        let same : u ≡ x = ground (arith, string_eq.beq_iff u x) in
        let moved = subst (λ (w : String). elem v (dependencies_of g w) ≡ true) same edge in
        ground (arith, h.0 v moved)
  ]

  -- What the first claim needs comes after it.
  after_head :
      (x : String) (xs : List String) {v : String}
      → InOrder (x ∷ xs)
      → Needs g x v
      → elem v xs ≡ true
  after_head x xs {v} h (directly edge) = h.0 v edge
  after_head x xs {v} h (through {u} n edge) = direct xs u v h.2 (after_head x xs h n) edge

  acyclic : (xs : List String) (x : String) → InOrder xs → elem x xs ≡ true → Needs g x x → ⊥
  acyclic [] x h m n = cc
  acyclic (y ∷ ys) x h m n = elim (Bool-cases (elem x ys)) [
    | inl later ↦ acyclic ys x h.2 later n
    | inr other ↦
        let same : x ≡ y = ground (arith, string_eq.beq_iff x y) in
        let loop : Needs g y y = subst (λ (z : String). Needs g z z) same n in
        let found = after_head y ys h loop in let absent = h.1 in ground arith
  ]

  elem-keys :
      (claims : Dict String Claim) (x : String) → has x claims ≡ true → elem x (keys claims) ≡ true
  unfolding get
  elem-keys [] x h = ground arith
  elem-keys ((k, c) ∷ rest) x h =
      ground (arith, elem-keys rest x, string_eq.beq_iff k x, string_eq.beq_iff x k)

-- A search that succeeds has found no claim that needs itself.
pub visited_acyclic :
    (g : ClaimGraph) (visited : List String) (x : String)
    → visit_claims g ≡ some (ok visited)
    → has x g.claims ≡ true
    → ¬ Needs g x x
unfolding visit_claims
visited_acyclic g visited x e present n =
    let (grown, all_in) = each-Grown g [] _ (visit-Grows g _ []) (keys g.claims) [] visited tt e in
    acyclic g visited x grown.in_order (all_in x (elem-keys g g.claims x present)) n
