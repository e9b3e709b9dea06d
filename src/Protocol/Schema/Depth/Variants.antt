-- ===== src/Protocol/Schema/Depth/Variants.antt =====
-- schema.py, `validate`: the schema with one type out of a list of types.
use autonomous_math_ai.Base.{
  ℕ, ◌+◌, ◌≤◌, ◌≡◌, refl, arith, true, false, String, some, All, map, string_eq,
}
use autonomous_math_ai.Protocol.Json.{
  Value, array, object, Items, nil, cons, Fields, end, field, find_key, has_key, set_key, items_of,
}
use autonomous_math_ai.Protocol.Schema.Depth.{
  value_size, items_size, fields_size, is_ref_free, items_ref_free, fields_ref_free,
}
use autonomous_math_ai.Protocol.Schema.Depth.Below.{Fits}

module _ {F : Type 0} where
  pub size-set :
      (k : String) (v w : Value F) (s : Fields F)
      → find_key k s ≡ some w
      → fields_size (set_key k v s) + value_size w ≡ fields_size s + value_size v
  unfolding fields_size
  size-set k v w end e = ground arith
  size-set k v w (field j u s) e = ground (arith, size-set k v w s)

  pub free-set :
      (k : String) (v : Value F) (s : Fields F)
      → fields_ref_free s ≡ true
      → is_ref_free v ≡ true
      → fields_ref_free (set_key k v s) ≡ true
  unfolding fields_ref_free
  free-set k v end free here = ground arith
  free-set k v (field j u s) free here = ground (arith, free-set k v s)

  pub has_key-set :
      (v : Value F) (s : Fields F)
      → has_key "$ref" s ≡ false
      → has_key "$ref" (set_key "type" v s) ≡ false
  has_key-set v end h = refl
  has_key-set v (field j u s) h = ground (arith, has_key-set v s)

  -- The schema with one of its types.
  pub variants-Fits :
      (m : ℕ) (s : Fields F) (all_kinds kinds : Items F)
      → fields_size s ≤ m
      → fields_ref_free s ≡ true
      → has_key "$ref" s ≡ false
      → find_key "type" s ≡ some (array all_kinds)
      → items_size kinds ≤ items_size all_kinds
      → items_ref_free kinds ≡ true
      → All (Fits m) (map (λ kind. object (set_key "type" kind s)) (items_of kinds))
  unfolding value_size items_size items_ref_free is_ref_free
  variants-Fits m s all_kinds nil le free no_ref e part kinds_free = tt
  variants-Fits m s all_kinds (cons kind kinds) le free no_ref e part kinds_free =
      let same = size-set "type" kind (array all_kinds) s e in
      (
        (omega arith, ground (arith, free-set "type" kind s free, has_key-set kind s no_ref)),
        variants-Fits m s all_kinds kinds le free no_ref e (omega arith) (ground arith),
      )
