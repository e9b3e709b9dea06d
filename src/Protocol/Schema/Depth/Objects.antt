-- ===== src/Protocol/Schema/Depth/Objects.antt =====
-- schema.py, `validate`: the checks of an object, where the schemas below are small enough.
use autonomous_math_ai.Base.{
  ℕ, ◌≤◌, ◌≡◌, refl, arith, inl, inr, Bool, true, false, Option, none, some, List, [], ◌∷◌,
  string_eq,
}
use autonomous_math_ai.Base.Result.{Result-cases}
use autonomous_math_ai.Base.Int.{ℤ}
use autonomous_math_ai.Protocol.Json.{
  Value, text, array, object, Fields, find_key, size_of, fields_of, items_of,
}
use autonomous_math_ai.Protocol.Schema.{Check}
use autonomous_math_ai.Protocol.Schema.Validate.{
  required_of, properties_of, texts_of, check_lengths, check_limit, check_object,
}
use autonomous_math_ai.Protocol.Schema.Depth.{fields_size, fields_ref_free}
use autonomous_math_ai.Protocol.Schema.Depth.Below.{
  is_deep, CallsFit, fields-shallow, find_key-Fits, properties_of-Fits,
}

module _ {F : Type 0} where
  pub texts-shallow : (vs : List (Value F)) → is_deep (texts_of vs) ≡ false
  texts-shallow [] = refl
  texts-shallow (text t ∷ vs) = ground (arith, texts-shallow vs)
  texts-shallow (v ∷ vs) = refl

  pub required-shallow : (o : Option (Value F)) → is_deep (required_of o) ≡ false
  required-shallow none = refl
  required-shallow (some (array vs)) = texts-shallow (items_of vs)
  required-shallow (some v) = refl

  pub properties-shallow : (o : Option (Value F)) → is_deep (properties_of o) ≡ false
  properties-shallow none = refl
  properties-shallow (some (object fs)) = refl
  properties-shallow (some v) = refl

  pub limit-shallow :
      (test : ℤ → Bool) (o : Option (Value F)) → is_deep (check_limit test o) ≡ false
  limit-shallow test none = refl
  limit-shallow test (some v) = ground arith

  pub lengths-shallow :
      (n : ℕ) (least most : Option (Value F)) → is_deep (check_lengths n least most) ≡ false
  lengths-shallow n least most = ground arith

  pub object-shallow :
      (m : ℕ) (call : Value F → Value F → Check) (fs s : Fields F)
      → CallsFit m call
      → fields_size s ≤ m
      → fields_ref_free s ≡ true
      → is_deep (check_object call fs s) ≡ false
  unfolding check_object
  object-shallow m call fs s shallow le free =
      elim (Result-cases (properties_of (find_key "properties" s))) [
        | inr (err, made) ↦ ground (arith, properties-shallow (find_key "properties" s))
        | inl (props, made) ↦
            let (small, no_ref) =
              properties_of-Fits m call s props (find_key "properties" s) le free refl made in
            ground (
              arith,
              required-shallow (find_key "required" s),
              lengths-shallow (size_of fs) (find_key "minProperties" s)
                  (find_key "maxProperties" s),
              fields-shallow m call props (find_key "additionalProperties" s) (fields_of fs) shallow
                  small no_ref (λ v e. find_key-Fits m call "additionalProperties" s v le free e),
            )
      ]
