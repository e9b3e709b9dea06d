-- ===== src/Wire/Accepted.antt =====
-- models.py: what holds of the events that `CandidateEvent.from_dict` accepts.
use autonomous_math_ai.Base.{
  ℕ, suc, ◌≡◌, sym, ap, ◌∙◌, arith, subst, Bool, true, false, not, String, Option, none, some, List,
  [], ◌∷◌, All, elem, string_eq, ◌==◌, list_eq, has_duplicates, same_set, if◌then◌else◌, Bool-cases,
  inl, inr,
}
use autonomous_math_ai.Base.Result.{
  Result, ok, raise, ◌>>◌, raise_if, >>=-eq-ok, >>-eq-ok, ok-injective,
}
use autonomous_math_ai.Base.Text.{codes}
use autonomous_math_ai.Protocol.Json.{
  Value, null, boolean, integer, real, text, array, object, Items, nil, cons, Fields, end, field,
  keys_of, find_key, set_key,
}
use autonomous_math_ai.Representation as representation
use autonomous_math_ai.Representation.{RepresentationContract, RepresentationError, to_dict}
use autonomous_math_ai.Representation.RoundTrip.{IsContract, from_dict_rewrites}
use autonomous_math_ai.Wire.Paths.{is_project_relative}
use autonomous_math_ai.Wire.Safe.{IsInside, relative-IsInside}
use autonomous_math_ai.Wire.Receipts.{
  WireError, EvidenceReceipt, receipt_keys, receipt_kinds, is_run_id, text_or, member_or,
  read_receipt, read_receipts, receipt_ids, receipt_fields, receipt_kind, receipt_path, receipt_run,
  duplicate_receipts,
}
use autonomous_math_ai.Wire.Checks.{
  check_receipts, check_representation, from_representation, set_defaults,
}
use autonomous_math_ai.Wire.Candidate.{
  DerivedKey, derive, derive_from, parent_of, is_auto, text_or_raise, texts_or_raise, with_claim_id,
}

-- A receipt names a run of a known kind, and a file of the project.
abbrev pub IsSafeReceipt : EvidenceReceipt → Type 0
IsSafeReceipt r =
    (elem r.kind receipt_kinds ≡ true)
    × IsInside (codes r.manifest_path)
    × (is_run_id r.run_id ≡ true)

not-false : {b : Bool} → not b ≡ false → b ≡ true
not-false h = ground arith

representation_read :
    (m : Result RepresentationError RepresentationContract) (r : RepresentationContract)
    → from_representation m ≡ ok r
    → m ≡ ok r
representation_read (ok s) r h = cc
representation_read (raise e) r h = cc

auto_branch :
    {A : Type 0} {b : Bool} (x y : A) {z : A} → b ≡ true → (if b then x else y) ≡ z → x ≡ z
auto_branch x y h e = ground arith

given_branch :
    {A : Type 0} {b : Bool} (x y : A) {z : A} → b ≡ false → (if b then x else y) ≡ z → y ≡ z
given_branch x y h e = ground arith

module _ {F : Type 0} where
  member-elem :
      (e : WireError) (names : List String) (v : Option (Value F)) {s : String}
      → member_or e names v ≡ ok s
      → elem s names ≡ true
  member-elem e names none h = cc
  member-elem e names (some v) h = ground arith

  receipt-IsSafe :
      (index : ℕ) (v : Value F) (r : EvidenceReceipt)
      → read_receipt index v ≡ ok r
      → IsSafeReceipt r
  unfolding read_receipt
  receipt-IsSafe index (object fs) r h =
      let (kind, h1, h2) =
        >>=-eq-ok
          (raise_if (not (same_set (keys_of fs) receipt_keys)) (receipt_fields index)
            >> member_or (receipt_kind index) receipt_kinds (find_key "kind" fs))
          _ h in
      let (path, h3, h4) =
        >>=-eq-ok (text_or (receipt_path index) (find_key "manifest_path" fs)) _ h2 in
      let (run, h5, h6) =
        >>=-eq-ok
          (raise_if (not (is_project_relative (codes path))) (receipt_path index)
            >> text_or (receipt_run index) (find_key "run_id" fs))
          _ h4 in
      let (keys, known) =
        >>-eq-ok _ _ (member_or (receipt_kind index) receipt_kinds (find_key "kind" fs)) h1 in
      let (inside, named) = >>-eq-ok (not (is_project_relative (codes path))) _ _ h5 in
      let (hex, made) = >>-eq-ok (not (is_run_id run)) (receipt_run index) (ok _) h6 in
      subst IsSafeReceipt (ok-injective made) (
        member-elem (receipt_kind index) receipt_kinds (find_key "kind" fs) known,
        relative-IsInside (codes path) (not-false inside),
        not-false hex,
      )
  receipt-IsSafe index null r h = cc
  receipt-IsSafe index (boolean b) r h = cc
  receipt-IsSafe index (integer z) r h = cc
  receipt-IsSafe index (real x) r h = cc
  receipt-IsSafe index (text s) r h = cc
  receipt-IsSafe index (array ys) r h = cc

  receipts_are_safe :
      (index : ℕ) (xs : Items F) (rs : List EvidenceReceipt)
      → read_receipts index xs ≡ ok rs
      → All IsSafeReceipt rs
  unfolding read_receipts
  receipts_are_safe index nil rs h = subst (All IsSafeReceipt) (ok-injective h) tt
  receipts_are_safe index (cons v xs) rs h =
      let (r, read, h1) = >>=-eq-ok (read_receipt index v) _ h in
      let (rest, more, made) = >>=-eq-ok (read_receipts (suc index) xs) _ h1 in
      subst (All IsSafeReceipt) (ok-injective made)
        (receipt-IsSafe index v r read, receipts_are_safe (suc index) xs rest more)

  pub checked_receipts :
      (v : Option (Value F)) (rs : List EvidenceReceipt)
      → check_receipts v ≡ ok rs
      → All IsSafeReceipt rs × (has_duplicates (receipt_ids rs) ≡ false)
  unfolding check_receipts
  checked_receipts (some (array xs)) rs h =
      let (receipts, read, h1) = >>=-eq-ok (read_receipts 0 xs) _ h in
      let (once, made) =
        >>-eq-ok (has_duplicates (receipt_ids receipts)) duplicate_receipts (ok receipts) h1 in
      subst (λ rs. All IsSafeReceipt rs × (has_duplicates (receipt_ids rs) ≡ false))
        (ok-injective made) (receipts_are_safe 0 xs receipts read, once)
  checked_receipts none rs h = cc
  checked_receipts (some null) rs h = cc
  checked_receipts (some (boolean b)) rs h = cc
  checked_receipts (some (integer z)) rs h = cc
  checked_receipts (some (real x)) rs h = cc
  checked_receipts (some (text s)) rs h = cc
  checked_receipts (some (object fs)) rs h = cc

  pub checked_representation :
      (v : Option (Value F)) (w : Value F)
      → check_representation v ≡ ok w
      → (r : RepresentationContract) × (w ≡ to_dict r) × IsContract r
  unfolding check_representation
  checked_representation none w h = cc
  checked_representation (some v) w h =
      let (r, read, made) = >>=-eq-ok (from_representation (representation.from_dict v)) _ h in
      (r, sym (ok-injective made), (from_dict_rewrites v r (representation_read _ r read)).0)

  pub find-set_same :
      (key : String) (v : Value F) (fs : Fields F) → find_key key (set_key key v fs) ≡ some v
  find-set_same key v end = ground (arith, string_eq.beq_iff key key)
  find-set_same key v (field k w fs) =
      ground (arith, string_eq.beq_iff key key, find-set_same key v fs)

  pub find-set_other :
      (key other : String) (v : Value F) (fs : Fields F)
      → key == other ≡ false
      → find_key other (set_key key v fs) ≡ find_key other fs
  find-set_other key other v end n = ground arith
  find-set_other key other v (field k w fs) n = ground (
    arith,
    string_eq.beq_iff k key,
    string_eq.beq_iff k other,
    string_eq.beq_iff key other,
    find-set_other key other v fs n,
  )

  pub set_defaults-keeps :
      (key other : String) (v : Value F) (fs : Fields F)
      → key == other ≡ false
      → find_key other (set_defaults ((key, v) ∷ []) fs) ≡ find_key other fs
  set_defaults-keeps key other v fs n = ground (arith, find-set_other key other v fs n)

  derive_from-keeps :
      (digest : DerivedKey → String) (event made : Fields F) (parent : Option String)
      → derive_from digest parent event ≡ ok made
      → (key : String) → "claim_id" == key ≡ false
      → find_key key made ≡ find_key key event
  derive_from-keeps digest event made none h key n = ap (find_key key) (sym (ok-injective h))
  derive_from-keeps digest event made (some parent) h key n =
      let (statement, e1, h1) = >>=-eq-ok (text_or_raise (find_key "exact_statement" event)) _ h in
      let (assumptions, e2, h2) = >>=-eq-ok (texts_or_raise (find_key "assumptions" event)) _ h1 in
      let (dependencies, e3, h3) =
        >>=-eq-ok (texts_or_raise (find_key "dependencies" event)) _ h2 in
      ap (find_key key) (sym (ok-injective h3)) ∙ find-set_other "claim_id" key _ event n

  pub with_claim_id-keeps :
      (digest : DerivedKey → String) (event made : Fields F)
      → with_claim_id digest event ≡ ok made
      → (key : String) → "claim_id" == key ≡ false
      → find_key key made ≡ find_key key event
  unfolding with_claim_id
  with_claim_id-keeps digest event made h key n =
      elim (Bool-cases (is_auto (find_key "claim_id" event))) [
        | inl auto ↦
            let (parent, p, rest) =
              >>=-eq-ok (parent_of (find_key "parent_claim_id" event)) _
                (auto_branch (derive digest event) (ok event) auto h) in
            derive_from-keeps digest event made parent rest key n
        | inr given ↦
            ap (find_key key)
              (sym (ok-injective (given_branch (derive digest event) (ok event) given h)))
      ]
