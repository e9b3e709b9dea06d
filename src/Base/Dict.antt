-- ===== src/Base/Dict.antt =====
-- Python's `dict`, which keeps the order of insertion: an association list. An assignment to a
-- key that is there stays in its place.
use mathlib.Core.Path.{◌≡◌, refl, sym, subst, subst₂}
use mathlib.Core.Bool.{Bool, true, false}
use mathlib.Core.Logic.{inl, inr}
use Prim.Native.Nat.{ℕ, ◌+◌, ◌≤◌}
use mathlib.Core.Option.{Option, none, some}
use mathlib.Core.List.{List, [], ◌∷◌, ◌++◌}
use native.Mathlib.Omega.{arith}
use autonomous_math_ai.Base.Tests.{Eq, if◌then◌else◌, Bool-cases}
use autonomous_math_ai.Base.Lists.{sum_by, All}

abbrev pub Dict {ℓ κ} : Type ℓ → Type κ → Type (ℓ ⊔ κ)
Dict K V = List (K × V)

-- What a sum gets from an entry that may be absent.
abbrev pub weight {κ} : {V : Type κ} → (V → ℕ) → Option V → ℕ
weight w none = 0
weight w (some v) = w v

module _ {ℓ κ} {K : Type ℓ} {V : Type κ} ⦃e : Eq K⦄ where
  unfoldable pub get : K → Dict K V → Option V
  get k [] = none
  get k ((j, v) ∷ m) = if e.beq j k then some v else get k m

  unfoldable pub put : K → V → Dict K V → Dict K V
  put k v [] = (k, v) ∷ []
  put k v ((j, w) ∷ m) = if e.beq j k then (j, v) ∷ m else (j, w) ∷ put k v m

  -- `d.pop(k, None)`: at most one entry has the key, and the first is dropped.
  unfoldable pub pop : K → Dict K V → Dict K V
  pop k [] = []
  pop k ((j, w) ∷ m) = if e.beq j k then m else (j, w) ∷ pop k m

  pub get-put :
      (k j : K) (v : V) (m : Dict K V) → get j (put k v m) ≡ (if e.beq k j then some v else get j m)
  unfolding get put
  get-put k j v [] = refl
  get-put k j v ((i, w) ∷ m) =
      ground (arith, get-put k j v m, e.beq_iff k j, e.beq_iff i k, e.beq_iff i j)

  -- `k in d`
  abbrev pub has : K → Dict K V → Bool
  has k m = elim (get k m) [ none ↦ false | some v ↦ true ]

  -- No two entries have the same key, as in every Python `dict`.
  abbrev pub Distinct : Dict K V → Type 0
  Distinct [] = Unit
  Distinct ((k, v) ∷ m) = (has k m ≡ false) × Distinct m

  pub has-put :
      (k j : K) (v : V) (m : Dict K V) → has j (put k v m) ≡ (if e.beq k j then true else has j m)
  has-put k j v m = ground (arith, get-put k j v m)

  pub put-Distinct : (k : K) (v : V) (m : Dict K V) → Distinct m → Distinct (put k v m)
  unfolding put get
  put-Distinct k v [] d = (refl, tt)
  put-Distinct k v ((j, w) ∷ m) d = elim (Bool-cases (e.beq j k)) [
    | inl same ↦ rw same d
    | inr other ↦
        rw other (
          ground (arith, has-put k j v m, d.0, e.beq_iff j k, e.beq_iff k j),
          put-Distinct k v m d.1,
        )
  ]

  pub get-pop :
      (k j : K) (m : Dict K V)
      → Distinct m
      → get j (pop k m) ≡ (if e.beq k j then none else get j m)
  unfolding get pop
  get-pop k j [] d = ground arith
  get-pop k j ((i, w) ∷ m) d =
      ground (arith, get-pop k j m d.1, d.0, e.beq_iff k j, e.beq_iff i k, e.beq_iff i j)

  pub pop-Distinct : (k : K) (m : Dict K V) → Distinct m → Distinct (pop k m)
  unfolding pop
  pop-Distinct k [] d = tt
  pop-Distinct k ((j, w) ∷ m) d = elim (Bool-cases (e.beq j k)) [
    | inl same ↦ rw same d.1
    | inr other ↦
        rw other (
          ground (arith, get-pop k j m d.1, d.0, e.beq_iff k j, e.beq_iff j k),
          pop-Distinct k m d.1,
        )
  ]

  -- Sums over the entries.
  pub sum_by-put_new :
      (w : K × V → ℕ) (k : K) (v : V) (m : Dict K V)
      → has k m ≡ false
      → sum_by w (put k v m) ≡ sum_by w m + w (k, v)
  unfolding get put
  sum_by-put_new w k v [] h = omega arith
  sum_by-put_new w k v ((j, u) ∷ m) h = ground (arith, sum_by-put_new w k v m, e.beq_iff j k)

  pub sum_by-pop-le : (w : K × V → ℕ) (k : K) (m : Dict K V) → sum_by w (pop k m) ≤ sum_by w m
  unfolding pop
  sum_by-pop-le w k [] = omega arith
  sum_by-pop-le w k ((j, u) ∷ m) = ground (arith, sum_by-pop-le w k m)

  abbrev pub sum_values : (V → ℕ) → Dict K V → ℕ
  sum_values w [] = 0
  sum_values w ((k, v) ∷ m) = w v + sum_values w m

  pub sum_values-put :
      (w : V → ℕ) (k : K) (v : V) (m : Dict K V)
      → sum_values w (put k v m) + weight w (get k m) ≡ sum_values w m + w v
  unfolding get put
  sum_values-put w k v [] = omega arith
  sum_values-put w k v ((j, u) ∷ m) = ground (arith, sum_values-put w k v m)

  has-middle : (k : K) (v : V) (xs ys : Dict K V) → has k (xs ++ (k, v) ∷ ys) ≡ true
  unfolding get
  has-middle k v [] ys = ground (arith, e.beq_iff k k)
  has-middle k v ((j, w) ∷ xs) ys = ground (arith, has-middle k v xs ys)

  -- An assignment to a key that is there changes the one entry, and keeps the order.
  pub put-middle :
      (k : K) (v w : V) (xs ys : Dict K V)
      → Distinct (xs ++ (k, v) ∷ ys)
      → put k w (xs ++ (k, v) ∷ ys) ≡ xs ++ (k, w) ∷ ys
  unfolding put get
  put-middle k v w [] ys d = ground (arith, e.beq_iff k k)
  put-middle k v w ((j, u) ∷ xs) ys d =
      ground (arith, put-middle k v w xs ys d.1, has-middle k v xs ys, d.0, e.beq_iff j k)

  pub All-put :
      (P : K × V → Type 0) (k : K) (v : V) (m : Dict K V) → P (k, v) → All P m → All P (put k v m)
  unfolding put
  All-put P k v [] p h = (p, tt)
  All-put P k v ((j, w) ∷ m) p h = elim (Bool-cases (e.beq j k)) [
    | inl same ↦ rw same (subst (λ (i : K). P (i, v)) (sym ((e.beq_iff j k).0 same)) p, h.1)
    | inr other ↦ rw other (h.0, All-put P k v m p h.1)
  ]

module _ {ℓ κ} {K : Type ℓ} {V : Type κ} ⦃eq : Eq K⦄ where
  pub All-get :
      (P : K × V → Type 0) (k : K) (v : V) (m : Dict K V) → All P m → get k m ≡ some v → P (k, v)
  unfolding get
  All-get P k v [] h e = cc e
  All-get P k v ((j, w) ∷ m) h e = elim (Bool-cases (eq.beq j k)) [
    | inl same ↦ subst₂ (λ (i : K) (u : V). P (i, u)) ((eq.beq_iff j k).0 same) (ground arith) h.0
    | inr other ↦ All-get P k v m h.1 (ground arith)
  ]

module _ {ℓ κ} {K : Type ℓ} {V : Type κ} ⦃e : Eq K⦄ where
  pub get-middle :
      (k : K) (v : V) (xs ys : Dict K V)
      → Distinct (xs ++ (k, v) ∷ ys)
      → get k (xs ++ (k, v) ∷ ys) ≡ some v
  unfolding get
  get-middle k v [] ys d = ground (arith, e.beq_iff k k)
  get-middle k v ((j, u) ∷ xs) ys d =
      ground (arith, get-middle k v xs ys d.1, has-middle k v xs ys, d.0, e.beq_iff j k)
