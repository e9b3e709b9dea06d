-- ===== src/ClaimGraph/Closure/Reached.antt =====
-- claim_graph.py, `dependency_claim_closure`: what a closure holds, and what a refusal shows.
use autonomous_math_ai.Base.{
  ℕ, zero, suc, ◌≡◌, refl, arith, ◌↔◌, inl, inr, true, false, ◌||◌, String, some, List, [], ◌∷◌,
  ◌++◌, elem, has_duplicates, elem-append, has_duplicates-snoc, subst, Bool-cases, string_eq,
}
use autonomous_math_ai.Base.Dict.{has}
use autonomous_math_ai.Base.Result.{ok, raise, Result-cases}
use autonomous_math_ai.ClaimGraph.Claim.{ClaimGraph, GraphError}
use autonomous_math_ai.ClaimGraph.Dependencies.{resolved_dependency_claim_ids}
use autonomous_math_ai.ClaimGraph.Closure.{
  closure_loop, dependencies_of, fuel_for, dependency_claim_closure, Reach, here, step, Fault,
}

module _ (g : ClaimGraph) (root : String) where
  record Inv (pending closure : List String) : Type 0 where
    started : (elem root pending || elem root closure) ≡ true
    queued : (v : String) → elem v pending ≡ true → Reach g root v
    sound : (v : String) → elem v closure ≡ true → Reach g root v
    closed :
        (u v : String)
        → elem u closure ≡ true
        → elem v (dependencies_of g u) ≡ true
        → (elem v pending || elem v closure) ≡ true
    distinct : has_duplicates closure ≡ false

  Inv-start : Inv (root ∷ []) []
  Inv-start = record {
    started = ground (arith, string_eq.beq_iff root root);
    queued = λ v q. subst (Reach g root) (ground (arith, string_eq.beq_iff v root)) here;
    sound = λ v q. ground arith;
    closed = λ u v q. ground arith;
    distinct = refl;
  }

  -- An id that was seen before is dropped.
  Inv-drop :
      (id : String) (pending closure : List String)
      → elem id closure ≡ true
      → Inv (id ∷ pending) closure
      → Inv pending closure
  Inv-drop id pending closure seen h = record {
    started = ground (arith, h.started, string_eq.beq_iff root id);
    queued = λ v q. h.queued v (ground arith);
    sound = h.sound;
    closed = λ u v m edge. ground (arith, h.closed u v m edge, string_eq.beq_iff v id);
    distinct = h.distinct;
  }

  -- A new id is written down, and its dependencies wait.
  Inv-take :
      (id : String) (pending closure : List String)
      → elem id closure ≡ false
      → Inv (id ∷ pending) closure
      → Inv (dependencies_of g id ++ pending) (closure ++ id ∷ [])
  Inv-take id pending closure new h =
      let at_id = h.queued id (ground (arith, string_eq.beq_iff id id)) in
      let inside = λ (v : String). elem-append v closure (id ∷ []) in
      let waits = λ (v : String). elem-append v (dependencies_of g id) pending in
      record {
        started = ground (arith, h.started, inside root, waits root, string_eq.beq_iff root id);
        queued = λ v q. elim (Bool-cases (elem v (dependencies_of g id))) [
          | inl edge ↦ step at_id edge
          | inr other ↦ h.queued v (ground (arith, waits v))
        ];
        sound = λ v m. elim (Bool-cases (elem v closure)) [
          | inl old ↦ h.sound v old
          | inr other ↦
              subst (Reach g root)
                (ground (arith, inside v, string_eq.beq_iff v id, string_eq.beq_iff id v)) at_id
        ];
        closed = λ u v m edge. elim (Bool-cases (elem u closure)) [
          | inl old ↦
              ground (arith, h.closed u v old edge, inside v, waits v, string_eq.beq_iff v id)
          | inr other ↦
              let same : u ≡ id = ground (arith, inside u, string_eq.beq_iff u id) in
              let moved : elem v (dependencies_of g id) ≡ true =
                subst (λ (w : String). elem v (dependencies_of g w) ≡ true) same edge in
              ground (arith, waits v)
        ];
        distinct = has_duplicates-snoc id closure h.distinct new;
      }

  loop-Inv :
      (fuel : ℕ) (pending closure result : List String)
      → Inv pending closure
      → closure_loop fuel g pending closure ≡ some (ok result)
      → Inv [] result
  unfolding closure_loop
  loop-Inv zero pending closure result h e = cc e
  loop-Inv (suc fuel) [] closure result h e = subst (Inv []) (ground arith) h
  loop-Inv (suc fuel) (id ∷ pending) closure result h e = elim (Bool-cases (elem id closure)) [
    | inl seen ↦
        loop-Inv fuel pending closure result (Inv-drop id pending closure seen h) (ground arith)
    | inr new ↦ elim (Result-cases (resolved_dependency_claim_ids g id)) [
      | inl (ds, made) ↦
          let next = Inv-take id pending closure new h in
          let same : dependencies_of g id ≡ ds = ground arith in
          loop-Inv fuel (ds ++ pending) (closure ++ id ∷ []) result
            (subst (λ (xs : List String). Inv (xs ++ pending) (closure ++ id ∷ [])) same next)
            (ground arith)
      | inr (err, made) ↦ ground arith
    ]
  ]

  complete :
      (result : List String) → Inv [] result → {v : String} → Reach g root v → elem v result ≡ true
  complete result h here = h.started
  complete result h (step {u} {v} p edge) = h.closed u v (complete result h p) edge

  loop-raises :
      (fuel : ℕ) (pending closure : List String) (error : GraphError)
      → Inv pending closure
      → closure_loop fuel g pending closure ≡ some (raise error)
      → (v : String) × Reach g root v × Fault g v error
  unfolding closure_loop
  loop-raises zero pending closure error h e = ground arith
  loop-raises (suc fuel) [] closure error h e = ground arith
  loop-raises (suc fuel) (id ∷ pending) closure error h e =
      let at_id = h.queued id (ground (arith, string_eq.beq_iff id id)) in
      elim (Bool-cases (elem id closure)) [
        | inl seen ↦
            loop-raises fuel pending closure error (Inv-drop id pending closure seen h)
              (ground arith)
        | inr new ↦ elim (Bool-cases (has id g.claims)) [
          | inr absent ↦ (id, at_id, inl (absent, ground arith))
          | inl present ↦ elim (Result-cases (resolved_dependency_claim_ids g id)) [
            | inr (err, made) ↦ (id, at_id, inr (ground arith))
            | inl (ds, made) ↦
                let next = Inv-take id pending closure new h in
                let same : dependencies_of g id ≡ ds = ground arith in
                loop-raises fuel (ds ++ pending) (closure ++ id ∷ []) error
                  (subst (λ (xs : List String). Inv (xs ++ pending) (closure ++ id ∷ [])) same next)
                  (ground arith)
          ]
        ]
      ]

pub closure_reaches :
    (g : ClaimGraph) (root : String) (closure : List String)
    → dependency_claim_closure g root ≡ some (ok closure)
    → ((v : String) → (elem v closure ≡ true) ↔ Reach g root v) × (has_duplicates closure ≡ false)
unfolding dependency_claim_closure
closure_reaches g root closure e =
    let h = loop-Inv g root (fuel_for g) (root ∷ []) [] closure (Inv-start g root) e in
    (λ v. (h.sound v, complete g root closure h), h.distinct)

pub closure_raises :
    (g : ClaimGraph) (root : String) (error : GraphError)
    → dependency_claim_closure g root ≡ some (raise error)
    → (v : String) × Reach g root v × Fault g v error
unfolding dependency_claim_closure
closure_raises g root error e =
    loop-raises g root (fuel_for g) (root ∷ []) [] error (Inv-start g root) e
