-- ===== src/Lifecycle/AuditLease/Loop.antt =====
-- A loop over the leases that appends a change of some of them as it goes, against a map over the
-- leases. `recover_stale_active` and `prioritize` are two such loops.
use mathlib.Core.List.{append_assoc}
use autonomous_math_ai.Base.{
  ◌≡◌, refl, ◌∙◌, Bool, Option, none, some, String, [], ◌∷◌, ◌++◌, All, map, arith, string_eq,
  pair_eq, pair_beq_iff, Bool-cases, inl, inr, if◌then◌else◌,
}
use autonomous_math_ai.Base.Dict.{Dict, get, Distinct, put-Distinct, put-middle}
use autonomous_math_ai.Lifecycle.AuditLease.Book.{
  AuditLease, AuditLeaseBook, LeaseAction, append, key_of,
}
use autonomous_math_ai.Lifecycle.AuditLease.WellFormed.{IsKeyed}

abbrev pub Entry : Type 0 → Type 0
Entry F = (String × String) × AuditLease F

module _ {F : Type 0} (now : String) (action : LeaseAction) (test : Entry F → Bool)
    (change : AuditLease F → AuditLease F)
    (same_key : (lease : AuditLease F) → key_of (change lease) ≡ key_of lease) where
  unfoldable pub append_each :
      Dict (String × String) (AuditLease F) → AuditLeaseBook F → AuditLeaseBook F
  append_each [] book = book
  append_each ((k, lease) ∷ rest) book =
      let after = append_each rest (append now action (change lease) book).0 in
      let other = append_each rest book in if test (k, lease) then after else other

  abbrev pub changed : Entry F → Entry F
  changed (k, lease) =
      if test (k, lease) then (k, record (change lease) { updated_at = now }) else (k, lease)

  -- One append in the middle of the leases.
  pub append-middle :
      (k : String × String) (book : AuditLeaseBook F) (lease : AuditLease F)
      (before after : Dict (String × String) (AuditLease F))
      → key_of lease ≡ k
      → book.current ≡ before ++ (k, lease) ∷ after
      → Distinct book.current
      → ((append now action (change lease) book).0.current
          ≡ (before ++ (k, record (change lease) { updated_at = now }) ∷ []) ++ after)
        × Distinct (append now action (change lease) book).0.current
  unfolding append
  append-middle k book lease before after e at d = (
    rw (same_key lease, e, at, append_assoc) (put-middle k lease _ before after (rw (← at) d)),
    put-Distinct _ _ book.current d,
  )

  pub append_each-eq-map :
      (rest before : Dict (String × String) (AuditLease F)) (book : AuditLeaseBook F)
      → book.current ≡ before ++ rest
      → All IsKeyed rest
      → Distinct book.current
      → (append_each rest book).current ≡ before ++ map changed rest
  unfolding append_each
  append_each-eq-map [] before book at keyed d = at
  append_each-eq-map ((k, lease) ∷ rest) before book at keyed d =
      elim (Bool-cases (test (k, lease))) [
        | inl yields ↦ rw yields (
            let step = append-middle k book lease before rest keyed.0 at d in
            append_each-eq-map rest (before ++ (k, record (change lease) { updated_at = now }) ∷ [])
              (append now action (change lease) book).0 step.0 keyed.1 step.1
            ∙ append_assoc before _ _)
        | inr other ↦ rw other (
            append_each-eq-map rest (before ++ (k, lease) ∷ []) book (rw append_assoc at) keyed.1 d
            ∙ append_assoc before _ _)
      ]

  abbrev pub changed_lease : String × String → Option (AuditLease F) → Option (AuditLease F)
  changed_lease k none = none
  changed_lease k (some lease) =
      some (if test (k, lease) then record (change lease) { updated_at = now } else lease)

  pub get-changed :
      (k : String × String) (leases : Dict (String × String) (AuditLease F))
      → get k (map changed leases) ≡ changed_lease k (get k leases)
  unfolding get
  get-changed k [] = refl
  get-changed k ((j, lease) ∷ rest) = ground (arith, get-changed k rest, pair_beq_iff j k)
