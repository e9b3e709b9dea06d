-- ===== src/Protocol/Schema/Depth/Instance.antt =====
-- schema.py, `validate`: without references the calls go no deeper than the schema is large.
use autonomous_math_ai.Base.{
  ℕ, zero, suc, ◌≤◌, ◌≡◌, ◌≢◌, refl, subst, arith, inl, inr, Bool, true, false, String, Option,
  none, some, List, All, map, length, string_eq, ◌==◌, Option-cases,
}
use autonomous_math_ai.Base.Result.{ok, raise, ◌>>=◌, Result-cases}
use autonomous_math_ai.Base.Text.{codes}
use autonomous_math_ai.Protocol.Json.{
  Value, null, boolean, integer, real, text, array, object, Fields, Number, whole, float, find_key,
  has_key, set_key, items_of,
}
use autonomous_math_ai.Protocol.Schema.{Python, recursion_error, Check}
use autonomous_math_ai.Protocol.Schema.Validate.{
  any_of, one_of, list_of, check_body, is_kind, check_const, check_enum, check_array, check_text,
  check_number, check_pattern, check_format, check_bound, check_multiple, check_typed, check_schema,
  validate_under, validate,
}
use autonomous_math_ai.Protocol.Schema.Depth.{value_size, fields_size, is_ref_free, fields_ref_free}
use autonomous_math_ai.Protocol.Schema.Depth.Below.{
  is_deep, then-shallow, branches-shallow, free-find, Fits, CallsFit, any_of-shallow,
  one_of-shallow, items_of-Fits, each-shallow, find_key-Fits,
}
use autonomous_math_ai.Protocol.Schema.Depth.Objects.{lengths-shallow, object-shallow}
use autonomous_math_ai.Protocol.Schema.Depth.Variants.{variants-Fits}

module _ {F : Type 0} (py : Python F) where
  array-shallow :
      (m : ℕ) (call : Value F → Value F → Check) (vs : List (Value F)) (s : Fields F)
      → CallsFit m call
      → fields_size s ≤ m
      → fields_ref_free s ≡ true
      → is_deep (check_array py call vs s) ≡ false
  unfolding check_array
  array-shallow m call vs s shallow le free = elim (Option-cases (find_key "items" s)) [
    | inl absent ↦
        ground (arith, lengths-shallow (length vs) (find_key "minItems" s) (find_key "maxItems" s))
    | inr (item, found) ↦ ground (
      arith,
      lengths-shallow (length vs) (find_key "minItems" s) (find_key "maxItems" s),
      each-shallow m call item vs shallow (find_key-Fits m call "items" s item le free found),
    )
  ]

  text-shallow : (t : String) (s : Fields F) → is_deep (check_text py t s) ≡ false
  unfolding check_text
  text-shallow t s = ground (
    arith,
    lengths-shallow (length (codes t)) (find_key "minLength" s) (find_key "maxLength" s),
    pattern-shallow t (find_key "pattern" s),
    format-shallow t (find_key "format" s),
  )
    where
      pattern-shallow : (u : String) (o : Option (Value F)) → is_deep (check_pattern py u o) ≡ false
      pattern-shallow u none = refl
      pattern-shallow u (some (text pattern)) = ground arith
      pattern-shallow u (some v) = refl

      format-shallow : (u : String) (o : Option (Value F)) → is_deep (check_format py u o) ≡ false
      format-shallow u none = refl
      format-shallow u (some (text format)) = ground arith
      format-shallow u (some v) = refl

  bound-shallow :
      (test : Number F → Bool) (o : Option (Value F)) → is_deep (check_bound py test o) ≡ false
  bound-shallow test none = refl
  bound-shallow test (some v) = ground arith

  multiple-shallow : (n : Number F) (o : Option (Value F)) → is_deep (check_multiple py n o) ≡ false
  multiple-shallow n none = refl
  multiple-shallow n (some (boolean b)) = refl
  multiple-shallow n (some v) = ground arith

  number-shallow : (n : Number F) (s : Fields F) → is_deep (check_number py n s) ≡ false
  unfolding check_number
  number-shallow n s = then-shallow _ _ (bound-shallow _ (find_key "minimum" s)) (
      then-shallow _ _ (bound-shallow _ (find_key "maximum" s)) (
        then-shallow _ _ (bound-shallow _ (find_key "exclusiveMinimum" s)) (
          then-shallow _ _ (bound-shallow _ (find_key "exclusiveMaximum" s))
            (multiple-shallow n (find_key "multipleOf" s)))))

  kind-shallow : (kind : String) (v : Value F) → is_deep (is_kind kind v) ≡ false
  kind-shallow kind v = ground arith

  body-shallow :
      (m : ℕ) (call : Value F → Value F → Check) (v : Value F) (s : Fields F)
      → CallsFit m call
      → fields_size s ≤ m
      → fields_ref_free s ≡ true
      → is_deep (check_body py call v s) ≡ false
  body-shallow m call (object fs) s shallow le free = object-shallow m call fs s shallow le free
  body-shallow m call (array vs) s shallow le free =
      array-shallow m call (items_of vs) s shallow le free
  body-shallow m call (text t) s shallow le free = text-shallow t s
  body-shallow m call (integer z) s shallow le free = number-shallow (whole z) s
  body-shallow m call (real x) s shallow le free = number-shallow (float x) s
  body-shallow m call (boolean b) s shallow le free = refl
  body-shallow m call null s shallow le free = refl

  typed-shallow :
      (m : ℕ) (call : Value F → Value F → Check) (v : Value F) (s : Fields F) (o : Option (Value F))
      → CallsFit m call
      → fields_size s ≤ m
      → fields_ref_free s ≡ true
      → has_key "$ref" s ≡ false
      → find_key "type" s ≡ o
      → is_deep (check_typed py call v s o) ≡ false
  unfolding check_typed is_ref_free
  typed-shallow m call v s none shallow le free no_ref e = refl
  typed-shallow m call v s (some (array kinds)) shallow le free no_ref e =
      any_of-shallow m call v (map (λ kind. object (set_key "type" kind s)) (items_of kinds))
        shallow
        (variants-Fits m s kinds kinds le free no_ref e (omega arith)
          (free-find "type" s (array kinds) free e))
  typed-shallow m call v s (some (text kind)) shallow le free no_ref e =
      branches-shallow (kind == "") (is_kind kind v) (check_body py call v s) (kind-shallow kind v)
        (body-shallow m call v s shallow le free)
  typed-shallow m call v s (some other) shallow le free no_ref e = ground arith

  list_of-Fits :
      (m : ℕ) (call : Value F → Value F → Check) (k : String) (o : Value F) (s : Fields F)
      (ss : List (Value F))
      → fields_size s ≤ m
      → fields_ref_free s ≡ true
      → find_key k s ≡ some o
      → list_of o ≡ ok ss
      → All (Fits m) ss
  unfolding value_size is_ref_free
  list_of-Fits m call k (array vs) s ss le free e made =
      let (small, no_ref) = find_key-Fits m call k s (array vs) le free e in
      let same : items_of vs ≡ ss = ground arith in
      subst (All (Fits m)) same (items_of-Fits m call vs (omega arith) no_ref)
  list_of-Fits m call k other s ss le free e made = absurd (cc)

  list-shallow : (o : Value F) → is_deep (list_of o) ≡ false
  list-shallow (array vs) = refl
  list-shallow other = refl

  -- `anyOf` and `oneOf`: a list, and then a check of its schemas.
  chosen-shallow :
      (m : ℕ) (call : Value F → Value F → Check) (k : String) (o : Value F) (s : Fields F)
      (check : List (Value F) → Check)
      → fields_size s ≤ m
      → fields_ref_free s ≡ true
      → find_key k s ≡ some o
      → ((ss : List (Value F)) → All (Fits m) ss → is_deep (check ss) ≡ false)
      → is_deep (list_of o >>= check) ≡ false
  chosen-shallow m call k o s check le free e shallow = elim (Result-cases (list_of o)) [
    | inl (ss, made) ↦ rw made (shallow ss (list_of-Fits m call k o s ss le free e made))
    | inr (err, made) ↦ ground (arith, list-shallow o)
  ]

  const-shallow : (v : Value F) (o : Option (Value F)) → is_deep (check_const py v o) ≡ false
  const-shallow v none = refl
  const-shallow v (some w) = ground arith

  enum-shallow : (v : Value F) (o : Option (Value F)) → is_deep (check_enum py v o) ≡ false
  enum-shallow v none = refl
  enum-shallow v (some (array vs)) = ground arith
  enum-shallow v (some other) = refl

  schema-shallow :
      (m : ℕ) (call : Value F → Value F → Check) (v : Value F) (s : Fields F)
      → CallsFit m call
      → fields_size s ≤ m
      → fields_ref_free s ≡ true
      → has_key "$ref" s ≡ false
      → is_deep (check_schema py call v s) ≡ false
  unfolding check_schema
  schema-shallow m call v s shallow le free no_ref =
      then-shallow _ _ (const-shallow v (find_key "const" s)) (
        then-shallow _ _ (enum-shallow v (find_key "enum" s))
          (elim (Option-cases (find_key "anyOf" s)) [
            | inr (o, any) ↦ rw any (
                chosen-shallow m call "anyOf" o s (any_of call v) le free any
                  (λ ss fit. any_of-shallow m call v ss shallow fit))
            | inl no_any ↦ elim (Option-cases (find_key "oneOf" s)) [
              | inr (o, one) ↦
                  rw (no_any, one)
                    (chosen-shallow m call "oneOf" o s (one_of call v) le free one
                      (λ ss fit. one_of-shallow m call v ss shallow fit))
              | inl no_one ↦
                  rw (no_any, no_one)
                    (typed-shallow m call v s (find_key "type" s) shallow le free no_ref refl)
            ]
          ]))

  validate-shallow :
      (depth : ℕ) (root : Fields F) (v s : Value F)
      → value_size s ≤ depth
      → is_ref_free s ≡ true
      → is_deep (validate_under py depth root v s) ≡ false
  unfolding validate_under value_size is_ref_free
  validate-shallow zero root v (object s) le free = absurd (omega arith)
  validate-shallow zero root v s le free = absurd (omega arith)
  validate-shallow (suc n) root v (object s) le free = elim (Option-cases (find_key "$ref" s)) [
    | inr (ref, found) ↦ ground arith
    | inl absent ↦
        let here : is_deep (check_schema py (validate_under py n root) v s) ≡ false =
          schema-shallow n (validate_under py n root) v s
            (λ w t small no_ref. validate-shallow n root w t small no_ref) (omega arith)
            (ground arith) (ground arith) in
        ground arith
  ]
  validate-shallow (suc n) root v other le free = refl

-- A schema in which no object has the key $ref is never validated into a RecursionError where the
-- calls may go as deep as the schema has values, whatever the instance.
pub validate_within_size :
    {F : Type 0} (py : Python F) (depth : ℕ) (schema : Fields F) (v : Value F)
    → value_size (object schema) ≤ depth
    → is_ref_free (object schema) ≡ true
    → validate py depth v schema ≢ raise recursion_error
unfolding validate
validate_within_size py depth schema v le free e =
    let shallow = validate-shallow py depth schema v (object schema) le free in ground arith
