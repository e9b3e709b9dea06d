-- ===== src/Protocol/Schema/Depth.antt =====
-- schema.py: how deep the calls for a schema go.
pub mod Walk
pub mod Below
pub mod Objects
pub mod Variants
pub mod Instance
use autonomous_math_ai.Base.{
  ℕ, suc, ◌+◌, ◌≤◌, ◌≡◌, arith, Bool, true, false, not, ◌&&◌, String, Option, none, some, List, [],
  ◌∷◌, All, if◌then◌else◌, string_eq, ◌==◌,
}
use autonomous_math_ai.Protocol.Json.{
  Value, null, boolean, integer, real, text, array, object, Items, nil, cons, Fields, end, field,
  find_key, has_key, fields_of, items_of,
}

module _ {F : Type 0} where
  -- The number of values in a value, itself included.
  unfoldable mutual
    pub value_size : Value F → ℕ
    value_size null = 1
    value_size (boolean b) = 1
    value_size (integer z) = 1
    value_size (real x) = 1
    value_size (text t) = 1
    value_size (array vs) = suc (items_size vs)
    value_size (object fs) = suc (fields_size fs)

    pub items_size : Items F → ℕ
    items_size nil = 0
    items_size (cons v vs) = value_size v + items_size vs

    pub fields_size : Fields F → ℕ
    fields_size end = 0
    fields_size (field k v fs) = value_size v + fields_size fs

  -- No object in the value has the key `$ref`.
  unfoldable mutual
    pub is_ref_free : Value F → Bool
    is_ref_free (array vs) = items_ref_free vs
    is_ref_free (object fs) = not (has_key "$ref" fs) && fields_ref_free fs
    is_ref_free null = true
    is_ref_free (boolean b) = true
    is_ref_free (integer z) = true
    is_ref_free (real x) = true
    is_ref_free (text t) = true

    pub items_ref_free : Items F → Bool
    items_ref_free nil = true
    items_ref_free (cons v vs) = is_ref_free v && items_ref_free vs

    pub fields_ref_free : Fields F → Bool
    fields_ref_free end = true
    fields_ref_free (field k v fs) = is_ref_free v && fields_ref_free fs

  -- What is looked up is smaller than where it is found.
  pub size-find :
      (k : String) (fs : Fields F) (v : Value F)
      → find_key k fs ≡ some v
      → value_size v ≤ fields_size fs
  unfolding fields_size
  size-find k end v e = ground arith
  size-find k (field j w fs) v e = ground (arith, size-find k fs v)

  pub size-fields :
      (fs : Fields F) → All (λ entry. value_size entry.1 ≤ fields_size fs) (fields_of fs)
  unfolding fields_size
  size-fields end = tt
  size-fields (field k v fs) = (omega arith, weaken (fields_of fs) (size-fields fs))
    where
      weaken :
          (entries : List (String × Value F))
          → All (λ entry. value_size entry.1 ≤ fields_size fs) entries
          → All (λ entry. value_size entry.1 ≤ value_size v + fields_size fs) entries
      weaken [] h = tt
      weaken (entry ∷ entries) h = (omega arith, weaken entries h.1)

  pub size-items : (vs : Items F) → All (λ v. value_size v ≤ items_size vs) (items_of vs)
  unfolding items_size
  size-items nil = tt
  size-items (cons w vs) = (omega arith, weaken (items_of vs) (size-items vs))
    where
      weaken :
          (values : List (Value F))
          → All (λ v. value_size v ≤ items_size vs) values
          → All (λ v. value_size v ≤ value_size w + items_size vs) values
      weaken [] h = tt
      weaken (v ∷ values) h = (omega arith, weaken values h.1)
