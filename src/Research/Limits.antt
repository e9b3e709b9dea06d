-- ===== src/Research/Limits.antt =====
-- research_job.py: a policy that was accepted has a limit for each research role, and decides.
use autonomous_math_ai.Base.{
  ℕ, ◌≡◌, ◌⊎◌, inl, inr, refl, subst, Bool-cases, has_unknown, true, false, String, some, List, [],
  ◌∷◌, elem, arith, string_eq,
}
use autonomous_math_ai.Base.Int.{ℤ}
use autonomous_math_ai.Base.Dict.{Dict, get}
use autonomous_math_ai.Base.Result.{Result, ok, raise, raise_if, >>=-eq-ok, raise_if-eq-ok}
use autonomous_math_ai.Research.TurnPolicy.{
  ResearchTurnPolicy, PolicyError, TurnReport, TurnDirective, max_turns_for, decide, MaxTurns,
  new_policy, same_for_all, per_role, research_roles, role_names, limits, value, roles_are_wrong,
  wrong_roles,
}

limit_of :
    (role : String) (turns : Dict String ℤ)
    → elem role (role_names turns) ≡ true
    → (n : ℕ) × (get role (limits turns) ≡ some n)
unfolding get
limit_of role [] h = let never : ⊥ = ground (arith, h) in absurd never
limit_of role ((j, n) ∷ rest) h = elim (Bool-cases (string_eq.beq j role)) [
  | inl same ↦ (value n, ground (arith, same))
  | inr other ↦
      let (m, found) =
        limit_of role rest
          (ground (arith, h, other, string_eq.beq_iff j role, string_eq.beq_iff role j)) in
      (m, ground (arith, found, other))
]

known_role :
    (role : String) (xs ys : List String)
    → has_unknown xs ys ≡ false
    → elem role xs ≡ true
    → elem role ys ≡ true
known_role role [] ys h e = let never : ⊥ = ground (arith, e) in absurd never
known_role role (x ∷ xs) ys h e = ground (arith, known_role role xs ys, string_eq.beq_iff role x)

new_policy-limit :
    (setup : MaxTurns) (role : String) {p : ResearchTurnPolicy}
    → new_policy setup ≡ ok p
    → elem role research_roles ≡ true
    → (n : ℕ) × (get role p.max_turns ≡ some n)
unfolding new_policy get
new_policy-limit (same_for_all n) role {p} made known = (
  value n,
  ground (
    arith,
    made,
    known,
    string_eq.beq_iff role "prover",
    string_eq.beq_iff role "falsifier",
    string_eq.beq_iff role "explorer",
    string_eq.beq_iff "prover" role,
    string_eq.beq_iff "falsifier" role,
    string_eq.beq_iff "explorer" role,
  ),
)
new_policy-limit (per_role turns) role {p} made known =
    let (u, test, done) = >>=-eq-ok (raise_if (roles_are_wrong turns) wrong_roles) _ made in
    let same : record { max_turns = limits turns } ≡ p = cc done in
    let listed = raise_if-eq-ok (roles_are_wrong turns) wrong_roles test in
    let (n, found) =
      limit_of role turns
        (known_role role research_roles (role_names turns) (ground (arith, listed)) known) in
    (n, subst (λ (q : ResearchTurnPolicy). get role q.max_turns ≡ some n) same found)

ok-or-raise :
    (m : Result PolicyError TurnDirective)
    → ((t : TurnDirective) × (m ≡ ok t)) ⊎ ((e : PolicyError) × (m ≡ raise e))
ok-or-raise (ok t) = inl (t, refl)
ok-or-raise (raise e) = inr (e, refl)

-- A policy that was accepted always decides for the three research roles.
pub policy_decides :
    (setup : MaxTurns) (r : TurnReport) {p : ResearchTurnPolicy}
    → new_policy setup ≡ ok p
    → elem r.role research_roles ≡ true
    → (t : TurnDirective) × (decide p r ≡ ok t)
unfolding decide max_turns_for
policy_decides setup r {p} made known =
    let (n, found) = new_policy-limit setup r.role made known in
    elim (ok-or-raise (decide p r)) [
      | inl decided ↦ decided
      | inr (e, raised) ↦ let never : ⊥ = ground (arith, found, raised) in absurd never
    ]
