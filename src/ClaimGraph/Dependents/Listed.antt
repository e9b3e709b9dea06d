-- ===== src/ClaimGraph/Dependents/Listed.antt =====
-- claim_graph.py, `_rebuild_dependents`: which claims a list of dependents holds.
use autonomous_math_ai.Base.{
  ◌≡◌, ◌∙◌, refl, arith, sym, ap, inl, inr, Bool, false, ◌&&◌, ◌||◌, String, none, some, List, [],
  ◌∷◌, ◌++◌, any, All, elem, elem-append, string_eq, ◌==◌, Option-cases, subst,
}
use autonomous_math_ai.Base.Sorting.{elem-sort_texts}
use autonomous_math_ai.Base.Dict.{Dict, get, put, has, get-put}
use autonomous_math_ai.Base.Result.{ok, >>=-eq-ok, Result-cases}
use autonomous_math_ai.ClaimGraph.Claim.{Claim, ClaimGraph}
use autonomous_math_ai.ClaimGraph.Dependencies.{resolved_dependency_claim_ids}
use autonomous_math_ai.ClaimGraph.Closure.{dependencies_of}
use autonomous_math_ai.ClaimGraph.Cycles.Ends.{has_of_resolved}
use autonomous_math_ai.ClaimGraph.Dependents.{
  clear_dependents, append_dependent, append_to_each, append_all, sort_dependents,
  rebuild_dependents,
}
use autonomous_math_ai.ClaimGraph.Dependents.Bare.{
  get-clear, clear-clear, bare_graph, resolved-bare,
}

-- The list of the claims that depend on a claim, as it stands.
abbrev pub dependents_of : Dict String Claim → String → List String
dependents_of claims d = elim (get d claims) [ none ↦ [] | some c ↦ c.downstream_dependents ]

put-bare :
    (k : String) (c : Claim) (xs : List String) (claims : Dict String Claim)
    → get k claims ≡ some c
    → clear_dependents (put k (record c { downstream_dependents = xs }) claims)
      ≡ clear_dependents claims
unfolding get put
put-bare k c xs [] e = ground arith
put-bare k c xs ((j, b) ∷ rest) e = ground (arith, put-bare k c xs rest)

append_dependent_lem :
    (dep id : String) (claims more : Dict String Claim) (d x : String)
    → append_dependent dep id claims ≡ ok more
    → (clear_dependents more ≡ clear_dependents claims)
      × (elem x (dependents_of more d) ≡ (elem x (dependents_of claims d) || (x == id && d == dep)))
unfolding append_dependent
append_dependent_lem dep id claims more d x e = elim (Option-cases (get dep claims)) [
  | inl absent ↦ ground arith
  | inr (c, found) ↦
      let longer = c.downstream_dependents ++ id ∷ [] in
      let c' = record c { downstream_dependents = longer } in
      let made : put dep c' claims ≡ more = ground arith in
      subst
        (λ (cs : Dict String Claim).
          (clear_dependents cs ≡ clear_dependents claims)
          × (elem x (dependents_of cs d)
              ≡ (elem x (dependents_of claims d) || (x == id && d == dep))))
        made
        (
          put-bare dep c longer claims found,
          ground (
            arith,
            get-put dep d c' claims,
            elem-append x c.downstream_dependents (id ∷ []),
            string_eq.beq_iff d dep,
            string_eq.beq_iff dep d,
          ),
        )
]

append_to_each_lem :
    (id : String) (deps : List String) (claims more : Dict String Claim) (d x : String)
    → append_to_each id deps claims ≡ ok more
    → (clear_dependents more ≡ clear_dependents claims)
      × (elem x (dependents_of more d)
          ≡ (elem x (dependents_of claims d) || (x == id && elem d deps)))
unfolding append_to_each
append_to_each_lem id [] claims more d x e =
    subst
      (λ (cs : Dict String Claim).
        (clear_dependents cs ≡ clear_dependents claims)
        × (elem x (dependents_of cs d) ≡ (elem x (dependents_of claims d) || (x == id && false))))
      (ground arith) (refl, ground arith)
append_to_each_lem id (dep ∷ deps) claims more d x e =
    let (mid, first, rest) = >>=-eq-ok (append_dependent dep id claims) _ e in
    let (kept, held) = append_dependent_lem dep id claims mid d x first in
    let (kept', held') = append_to_each_lem id deps mid more d x rest in
    (kept' ∙ kept, ground arith)

-- The claim of an entry has this id, and depends on `d`.
abbrev lists : ClaimGraph → String → String → (String × Claim) → Bool
lists g d x entry = x == entry.1.claim_id && elem d (dependencies_of g entry.1.claim_id)

append_all_lem :
    (g : ClaimGraph) (todo claims more : Dict String Claim) (d x : String)
    → clear_dependents claims ≡ clear_dependents g.claims
    → append_all g.semantics todo claims ≡ ok more
    → (clear_dependents more ≡ clear_dependents g.claims)
      × (elem x (dependents_of more d)
          ≡ (elem x (dependents_of claims d) || any (lists g d x) todo))
unfolding append_all
append_all_lem g [] claims more d x same e =
    let made : claims ≡ more = ground arith in
    subst
      (λ (cs : Dict String Claim).
        (clear_dependents cs ≡ clear_dependents g.claims)
        × (elem x (dependents_of cs d) ≡ (elem x (dependents_of claims d) || false)))
      made (same, ground arith)
append_all_lem g ((key, c) ∷ todo) claims more d x same e =
    let now : ClaimGraph = record { claims = claims; semantics = g.semantics } in
    let (deps, resolved, e₁) = >>=-eq-ok (resolved_dependency_claim_ids now c.claim_id) _ e in
    let (mid, first, rest) = >>=-eq-ok (append_to_each c.claim_id deps claims) _ e₁ in
    let (kept, held) = append_to_each_lem c.claim_id deps claims mid d x first in
    let (kept', held') = append_all_lem g todo mid more d x (kept ∙ same) rest in
    let bared : resolved_dependency_claim_ids now c.claim_id
        ≡ resolved_dependency_claim_ids g c.claim_id =
      resolved-bare now c.claim_id
      ∙ ap
          (λ (cs : Dict String Claim).
            resolved_dependency_claim_ids (record { claims = cs; semantics = g.semantics })
              c.claim_id)
          same
      ∙ sym (resolved-bare g c.claim_id) in
    let here : dependencies_of g c.claim_id ≡ deps = ground arith in (kept', ground arith)

sort_bare :
    (claims : Dict String Claim)
    → clear_dependents (sort_dependents claims) ≡ clear_dependents claims
sort_bare [] = refl
sort_bare ((k, c) ∷ rest) = rw (sort_bare rest) refl

get-sort :
    (d x : String) (claims : Dict String Claim)
    → elem x (dependents_of (sort_dependents claims) d) ≡ elem x (dependents_of claims d)
unfolding get
get-sort d x [] = refl
get-sort d x ((k, c) ∷ rest) =
    ground (arith, get-sort d x rest, elem-sort_texts x c.downstream_dependents)

none-clear :
    (d x : String) (claims : Dict String Claim)
    → elem x (dependents_of (clear_dependents claims) d) ≡ false
none-clear d x claims = ground (arith, get-clear d claims)

-- Where each claim stands under its own id, the entry of an id is the claim with it.
any-lists :
    (g : ClaimGraph) (d x : String) (claims : Dict String Claim)
    → All (λ entry. entry.1.claim_id ≡ entry.0) claims
    → any (lists g d x) claims ≡ (has x claims && elem d (dependencies_of g x))
unfolding get
any-lists g d x [] keyed = refl
any-lists g d x ((k, c) ∷ rest) keyed = ground (
  arith,
  any-lists g d x rest keyed.1,
  keyed.0,
  string_eq.beq_iff x c.claim_id,
  string_eq.beq_iff k x,
)

-- In a graph whose claims stand under their own ids, a rebuild that succeeds leaves a claim in the
-- list of dependents of another exactly where the other is one of its resolved dependencies, and
-- changes nothing but these lists.
pub rebuild_dependents_lem :
    (g g' : ClaimGraph) (d x : String)
    → All (λ entry. entry.1.claim_id ≡ entry.0) g.claims
    → rebuild_dependents g ≡ ok g'
    → (elem x (dependents_of g'.claims d) ≡ elem d (dependencies_of g x))
      × (bare_graph g' ≡ bare_graph g)
unfolding rebuild_dependents
rebuild_dependents_lem g g' d x keyed e =
    let (claims, appended, last) =
      >>=-eq-ok (append_all g.semantics g.claims (clear_dependents g.claims)) _ e in
    let (kept, held) =
      append_all_lem g g.claims (clear_dependents g.claims) claims d x (clear-clear g.claims)
        appended in
    let found : elem x (dependents_of claims d) ≡ elem d (dependencies_of g x) =
      elim (Result-cases (resolved_dependency_claim_ids g x)) [
        | inl (ds, made) ↦ ground (
          arith,
          none-clear d x g.claims,
          any-lists g d x g.claims keyed,
          has_of_resolved g x made,
        )
        | inr (err, made) ↦ ground (arith, none-clear d x g.claims, any-lists g d x g.claims keyed)
      ] in
    let made : record g { claims = sort_dependents claims } ≡ g' = ground arith in
    subst
      (λ (h : ClaimGraph).
        (elem x (dependents_of h.claims d) ≡ elem d (dependencies_of g x))
        × (bare_graph h ≡ bare_graph g))
      made
      (
        get-sort d x claims ∙ found,
        ap (λ (cs : Dict String Claim). record g { claims = cs }) (sort_bare claims ∙ kept),
      )
