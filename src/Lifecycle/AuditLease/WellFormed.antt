-- ===== src/Lifecycle/AuditLease/WellFormed.antt =====
-- lifecycle/audit_lease.py: the well-formed books, in which every lease stands under its own key
-- and no key stands twice.
use autonomous_math_ai.Base.{
  ℕ, ◌≡◌, refl, some, String, List, [], ◌∷◌, All, arith, string_eq, pair_eq, pair_beq_iff,
}
use autonomous_math_ai.Base.Float.{Float}
use autonomous_math_ai.Base.Result.{ok}
use autonomous_math_ai.Base.Dict.{Dict, get, put, Distinct, put-Distinct, All-put}
use autonomous_math_ai.Lifecycle.AuditLease.Book.{
  AuditLease, LeaseAction, LeaseEvent, AuditLeaseBook, append, key_of, find, by_id, open_book,
  load_from, change, other_line,
}
use autonomous_math_ai.Lifecycle.AuditLease.Steps.{Steps}
use autonomous_math_ai.Lifecycle.AuditLease.Keeps.{Steps-keeps}

abbrev pub IsKeyed : {F : Type 0} → (String × String) × AuditLease F → Type 0
IsKeyed (k, lease) = key_of lease ≡ k

pub record IsWellFormed {F : Type 0} (current : Dict (String × String) (AuditLease F))
    : Type 0 where
  pub keyed : All IsKeyed current
  pub single : Distinct current

module _ {F : Type 0} where
  pub put-IsWellFormed :
      (lease : AuditLease F) (current : Dict (String × String) (AuditLease F))
      → IsWellFormed current
      → IsWellFormed (put (key_of lease) lease current)
  put-IsWellFormed lease current w = record {
    keyed = All-put IsKeyed (key_of lease) lease current refl w.keyed;
    single = put-Distinct (key_of lease) lease current w.single;
  }

  append-IsWellFormed :
      (now : String) (action : LeaseAction) (lease : AuditLease F) (book : AuditLeaseBook F)
      → IsWellFormed book.current
      → IsWellFormed (append now action lease book).0.current
  unfolding append
  append-IsWellFormed now action lease book w =
      put-IsWellFormed (record lease { updated_at = now }) book.current w

  load_from-IsWellFormed :
      (log : List (LeaseEvent F)) (current : Dict (String × String) (AuditLease F))
      → IsWellFormed current
      → IsWellFormed (load_from current log)
  unfolding load_from
  load_from-IsWellFormed [] current w = w
  load_from-IsWellFormed (change action lease ∷ log) current w =
      load_from-IsWellFormed log (put (key_of lease) lease current)
        (put-IsWellFormed lease current w)
  load_from-IsWellFormed (other_line ∷ log) current w = load_from-IsWellFormed log current w

  pub open_book-IsWellFormed : (log : List (LeaseEvent F)) → IsWellFormed (open_book log).current
  unfolding open_book
  open_book-IsWellFormed log = load_from-IsWellFormed log [] (record { keyed = tt; single = tt })

  pub get-key :
      (k : String × String) (current : Dict (String × String) (AuditLease F)) (lease : AuditLease F)
      → All IsKeyed current
      → get k current ≡ some lease
      → key_of lease ≡ k
  unfolding get
  get-key k [] lease w e = cc
  get-key k ((j, l) ∷ rest) lease w e =
      ground (arith, get-key k rest lease w.1, w.0, pair_beq_iff j k)

  -- The lease that an id finds stands under its key.
  find-get :
      (id : String) (current : Dict (String × String) (AuditLease F)) (lease : AuditLease F)
      → IsWellFormed current
      → find id current ≡ some lease
      → (get (key_of lease) current ≡ some lease) × (lease.lease_id ≡ id)
  unfolding get
  find-get id [] lease w e = cc
  find-get id ((k, l) ∷ rest) lease w e = ground (
    arith,
    pair_beq_iff k (key_of lease),
    string_eq.beq_iff l.lease_id id,
    w.keyed.0,
    w.single.0,
    find-get id rest lease (record { keyed = w.keyed.1; single = w.single.1 }),
  )

  -- An id that is found belongs to the lease that stands under that lease's own key.
  pub by_id-get :
      (id : String) (book : AuditLeaseBook F) (lease : AuditLease F)
      → IsWellFormed book.current
      → by_id id book ≡ ok lease
      → (get (key_of lease) book.current ≡ some lease) × (lease.lease_id ≡ id)
  unfolding by_id
  by_id-get id book lease w e = find-get id book.current lease w (ground arith)

module _ {F : Type 0} ⦃f : Float F⦄ (lease_hash : String → String → ℕ → String) where
  -- Any steps keep a book well-formed: each lease stands under its own candidate and kind, and no
  -- key stands twice.
  pub Steps-IsWellFormed :
      {book after : AuditLeaseBook F}
      → Steps lease_hash book after
      → IsWellFormed book.current
      → IsWellFormed after.current
  Steps-IsWellFormed r w =
      Steps-keeps lease_hash {P = λ book. IsWellFormed book.current} append-IsWellFormed r w
