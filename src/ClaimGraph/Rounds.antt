-- ===== src/ClaimGraph/Rounds.antt =====
-- claim_graph.py, `prune_failed_dependencies`: one round of the loop.
use autonomous_math_ai.Base.{
  ◌≡◌, ◌⊎◌, inl, inr, refl, sym, ap, ◌∙◌, subst, Bool, true, false, not, ◌&&◌, ◌||◌, String, List,
  [], ◌∷◌, any, elem, keep, ◌++◌, All, string_eq, Bool-cases, arith,
}
use autonomous_math_ai.Base.Dict.{Dict, put, has, get-put}
use autonomous_math_ai.Base.Result.{Result, ok, >>=-eq-ok}
use autonomous_math_ai.ClaimGraph.Claim.{Claim, GraphError}
use autonomous_math_ai.ClaimGraph.Prune.{reasons, is_new, prune_round}

-- The claims that are not blocked.
abbrev pub is_free : Dict String (List String) → String × Claim → Bool
is_free blocked (k, c) = not (has c.claim_id blocked)

-- The claim was free and is blocked.
abbrev pub is_caught : Dict String (List String) → Dict String (List String) → String × Claim → Bool
is_caught before after e = is_free before e && not (is_free after e)

has-put :
    (k j : String) (v : List String) (m : Dict String (List String))
    → has j m ≡ true
    → has j (put k v m) ≡ true
has-put k j v m h = ground (arith, h, get-put k j v m)

has-put_same :
    (k : String) (v : List String) (m : Dict String (List String)) → has k (put k v m) ≡ true
has-put_same k v m = ground (arith, get-put k k v m, string_eq.beq_iff k k)

first_caught :
    (k : String) (c : Claim) (rest : Dict String Claim) (blocked : Dict String (List String))
    (ds : List String) (after : Dict String (List String)) (failed : List String)
    → is_new failed blocked c ds ≡ true
    → has c.claim_id after ≡ true
    → any (is_caught blocked after) ((k, c) ∷ rest) ≡ true
first_caught k c rest blocked ds after failed new caught = ground (arith, new, caught)

or_true : (b : Bool) → (b || true) ≡ true
or_true true = refl
or_true false = refl

later_caught :
    (k : String) (c : Claim) (rest : Dict String Claim) (blocked after : Dict String (List String))
    → any (is_caught blocked after) rest ≡ true
    → any (is_caught blocked after) ((k, c) ∷ rest) ≡ true
later_caught k c rest blocked after later = rw later (or_true (is_caught blocked after (k, c)))

append-empty : (xs ys : List String) → xs ++ ys ≡ [] → (xs ≡ []) × (ys ≡ [])
append-empty [] ys h = (refl, h)
append-empty (x ∷ xs) ys h = let never : ⊥ = ground (arith, h) in absurd never

keep-none :
    (p : String → Bool) (x : String) (xs : List String)
    → keep p (x ∷ xs) ≡ []
    → (p x ≡ false) × (keep p xs ≡ [])
keep-none p x xs h = ground (arith, h)

any-none :
    (p q : String → Bool) (ds : List String)
    → keep p ds ≡ []
    → keep q ds ≡ []
    → any (λ d. p d || q d) ds ≡ false
any-none p q [] hp hq = refl
any-none p q (d ∷ ds) hp hq =
    let (p_no, p_rest) = keep-none p d ds hp in
    let (q_no, q_rest) = keep-none q d ds hq in
    ground (arith, p_no, q_no, any-none p q ds p_rest q_rest)

no_reasons :
    (failed : List String) (blocked : Dict String (List String)) (ds : List String)
    → reasons failed blocked ds ≡ []
    → any (λ d. elem d failed || has d blocked) ds ≡ false
no_reasons failed blocked ds h =
    let (bad, inherited) =
      append-empty (keep (λ d. elem d failed) ds) (keep (λ d. has d blocked) ds) h in
    any-none (λ d. elem d failed) (λ d. has d blocked) ds bad inherited

not_new :
    (failed : List String) (blocked : Dict String (List String)) (c : Claim) (ds : List String)
    → is_new failed blocked c ds ≡ false
    → (any (λ d. elem d failed || has d blocked) ds ≡ false) ⊎ (has c.claim_id blocked ≡ true)
not_new failed blocked c ds old = elim (Bool-cases (has c.claim_id blocked)) [
  | inl held ↦ inr held
  | inr free ↦ inl (no_reasons failed blocked ds (ground (arith, old, free)))
]

module _ (depends : String → Result GraphError (List String)) (failed : List String) where
  -- Nothing that the claim depends on has failed or is blocked, or it is blocked itself.
  abbrev pub IsClosed : Dict String (List String) → String × Claim → Type 0
  IsClosed blocked (k, c) =
      (dependencies : List String) × (depends c.claim_id ≡ ok dependencies)
      × ((any (λ d. elem d failed || has d blocked) dependencies ≡ false)
          ⊎ (has c.claim_id blocked ≡ true))

  round-step :
      (k : String) (c : Claim) (rest : Dict String Claim) (blocked : Dict String (List String))
      (changed : Bool) {r : Dict String (List String) × Bool}
      → prune_round depends failed ((k, c) ∷ rest) blocked changed ≡ ok r
      → (ds : List String) × (depends c.claim_id ≡ ok ds)
        × (((is_new failed blocked c ds ≡ true)
              × (prune_round depends failed rest
                    (put c.claim_id (reasons failed blocked ds) blocked)
                    true
                  ≡ ok r))
            ⊎ ((is_new failed blocked c ds ≡ false)
                × (prune_round depends failed rest blocked changed ≡ ok r)))
  unfolding prune_round
  round-step k c rest blocked changed e =
      let (ds, asked, after) = >>=-eq-ok (depends c.claim_id) _ e in
      elim (Bool-cases (is_new failed blocked c ds)) [
        | inl new ↦ (ds, asked, inl (new, rw new at after))
        | inr old ↦ (ds, asked, inr (old, rw old at after))
      ]

  pub round-keeps :
      (claims : Dict String Claim) (blocked : Dict String (List String)) (changed : Bool)
      {r : Dict String (List String) × Bool} (j : String)
      → prune_round depends failed claims blocked changed ≡ ok r
      → has j blocked ≡ true
      → has j r.0 ≡ true
  unfolding prune_round
  round-keeps [] blocked changed {r} j e h =
      let same : (blocked, changed) ≡ r = cc e in
      subst (λ (x : Dict String (List String) × Bool). has j x.0 ≡ true) same h
  round-keeps ((k, c) ∷ rest) blocked changed {r} j e h =
      let (ds, asked, how) = round-step k c rest blocked changed e in
      elim how [
        | inl (new, after) ↦
            round-keeps rest (put c.claim_id (reasons failed blocked ds) blocked) true j after
              (has-put c.claim_id j (reasons failed blocked ds) blocked h)
        | inr (old, after) ↦ round-keeps rest blocked changed j after h
      ]

  -- A round that reports a change was told of one or has caught a claim.
  pub round-catches :
      (claims : Dict String Claim) (blocked : Dict String (List String)) (changed : Bool)
      {r : Dict String (List String) × Bool}
      → prune_round depends failed claims blocked changed ≡ ok r
      → r.1 ≡ true
      → (changed ≡ true) ⊎ (any (is_caught blocked r.0) claims ≡ true)
  unfolding prune_round
  round-catches [] blocked changed {r} e told =
      let same : (blocked, changed) ≡ r = cc e in
      inl (ap (λ (x : Dict String (List String) × Bool). x.1) same ∙ told)
  round-catches ((k, c) ∷ rest) blocked changed {r} e told =
      let (ds, asked, how) = round-step k c rest blocked changed e in
      elim how [
        | inl (new, after) ↦
            let caught =
              round-keeps rest (put c.claim_id (reasons failed blocked ds) blocked) true c.claim_id
                after (has-put_same c.claim_id (reasons failed blocked ds) blocked) in
            inr (first_caught k c rest blocked ds r.0 failed new caught)
        | inr (old, after) ↦ elim (round-catches rest blocked changed after told) [
          | inl before ↦ inl before
          | inr later ↦ inr (later_caught k c rest blocked r.0 later)
        ]
      ]

  -- A round that reports none was told of none, blocks nothing, and finds every claim closed.
  pub round-quiet :
      (claims : Dict String Claim) (blocked : Dict String (List String)) (changed : Bool)
      {r : Dict String (List String) × Bool}
      → prune_round depends failed claims blocked changed ≡ ok r
      → r.1 ≡ false
      → (changed ≡ false) × (r.0 ≡ blocked) × All (IsClosed blocked) claims
  unfolding prune_round
  round-quiet [] blocked changed {r} e told =
      let same : r ≡ (blocked, changed) = cc e in
      (
        ap (λ (x : Dict String (List String) × Bool). x.1) (sym same) ∙ told,
        ap (λ (x : Dict String (List String) × Bool). x.0) same,
        tt,
      )
  round-quiet ((k, c) ∷ rest) blocked changed {r} e told =
      let (ds, asked, how) = round-step k c rest blocked changed e in
      elim how [
        | inl (new, after) ↦
            let (told_of, same, closed) =
              round-quiet rest (put c.claim_id (reasons failed blocked ds) blocked) true after
                told in
            let never : ⊥ = ground (arith, told_of) in absurd never
        | inr (old, after) ↦
            let (told_of, same, closed) = round-quiet rest blocked changed after told in
            (told_of, same, ((ds, asked, not_new failed blocked c ds old), closed))
      ]
