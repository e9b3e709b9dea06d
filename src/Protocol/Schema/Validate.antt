-- ===== src/Protocol/Schema/Validate.antt =====
-- schema.py, `validate`: the checks of an instance against a schema.
use autonomous_math_ai.Base.{
  ℕ, zero, suc, Bool, true, false, not, ◌&&◌, ◌||◌, String, Option, none, some, List, [], ◌∷◌, any,
  length, map, has_duplicates, nat_beq, if◌then◌else◌, string_eq, ◌==◌,
}
use autonomous_math_ai.Base.Int.{ℤ, pos}
use autonomous_math_ai.Base.Text.{codes}
use autonomous_math_ai.Base.Result.{Result, ok, raise, ◌>>=◌, ◌>>◌, raise_if}
use autonomous_math_ai.Protocol.Json.{
  Value, null, boolean, integer, real, text, array, object, nil, Fields, end, Number, whole, float,
  int_less, number_of, number_beq, number_less, value_beq, items_of, fields_of, keys_of, find_key,
  has_key, set_key, size_of,
}
use autonomous_math_ai.Protocol.Schema.{
  Python, SchemaFault, schema_error, recursion_error, python_error, Check,
}
use autonomous_math_ai.Protocol.Schema.Pointer.{resolve_ref}

module _ {F : Type 0} where
  -- `try` each schema, and return at the first that is met; other exceptions go through.
  unfoldable pub any_of : (Value F → Value F → Check) → Value F → List (Value F) → Check
  any_of call v [] = raise schema_error
  any_of call v (s ∷ ss) = elim (call v s) [
    | ok met ↦ ok tt
    | raise schema_error ↦ any_of call v ss
    | raise other ↦ raise other
  ]

  unfoldable pub count_passes :
      (Value F → Value F → Check) → Value F → List (Value F) → Result SchemaFault ℕ
  count_passes call v [] = ok 0
  count_passes call v (s ∷ ss) = elim (call v s) [
    | ok met ↦ count_passes call v ss >>= λ n. ok (suc n)
    | raise schema_error ↦ count_passes call v ss
    | raise other ↦ raise other
  ]

  unfoldable pub one_of : (Value F → Value F → Check) → Value F → List (Value F) → Check
  unfolding count_passes
  one_of call v ss = do
    passes ← count_passes call v ss
    raise_if (not (nat_beq passes 1)) schema_error

  abbrev pub list_of : Value F → Result SchemaFault (List (Value F))
  list_of (array vs) = ok (items_of vs)
  list_of other = raise python_error

  abbrev pub texts_of : List (Value F) → Result SchemaFault (List String)
  texts_of [] = ok []
  texts_of (text t ∷ vs) = do more ← texts_of vs; ok (t ∷ more)
  texts_of (v ∷ vs) = raise python_error

  -- `set(schema.get("required", []))`
  abbrev pub required_of : Option (Value F) → Result SchemaFault (List String)
  required_of none = ok []
  required_of (some v) = do vs ← list_of v; texts_of vs

  -- `schema.get("properties", {})`
  abbrev pub properties_of : Option (Value F) → Result SchemaFault (Fields F)
  properties_of none = ok end
  properties_of (some (object fs)) = ok fs
  properties_of (some other) = raise python_error

  -- A limit that a length passes.
  abbrev pub check_limit : (ℤ → Bool) → Option (Value F) → Check
  check_limit passes none = ok tt
  check_limit passes (some (integer z)) = raise_if (passes z) schema_error
  check_limit passes (some other) = raise python_error

  abbrev pub check_lengths : ℕ → Option (Value F) → Option (Value F) → Check
  check_lengths n least most = do
    check_limit (λ z. int_less (pos n) z) least
    check_limit (λ z. int_less z (pos n)) most

  -- `type_map[expected]` and the test of the instance; a name that is not in the map is a `KeyError`.
  abbrev pub is_kind : String → Value F → Result SchemaFault Bool
  is_kind expected v =
      if expected == "object"
      then ok (elim v [ object fs ↦ true | other ↦ false ])
      else if expected == "array"
      then ok (elim v [ array vs ↦ true | other ↦ false ])
      else if expected == "string"
      then ok (elim v [ text t ↦ true | other ↦ false ])
      else if expected == "integer"
      then ok (elim v [ integer z ↦ true | other ↦ false ])
      else if expected == "number"
      then ok (elim v [ integer z ↦ true | real x ↦ true | other ↦ false ])
      else if expected == "boolean"
      then ok (elim v [ boolean b ↦ true | other ↦ false ])
      else if expected == "null"
      then ok (elim v [ null ↦ true | other ↦ false ])
      else raise python_error

  abbrev pub is_false : Option (Value F) → Bool
  is_false (some (boolean false)) = true
  is_false other = false

  abbrev pub is_true : Option (Value F) → Bool
  is_true (some (boolean true)) = true
  is_true other = false

  -- A value that stands under a key that is not declared.
  abbrev pub check_extra : (Value F → Value F → Check) → Value F → Option (Value F) → Check
  check_extra call v (some (object extra)) = call v (object extra)
  check_extra call v other = ok tt

  unfoldable pub check_fields :
      (Value F → Value F → Check) → Fields F → Option (Value F) → List (String × Value F) → Check
  check_fields call props extra [] = ok tt
  check_fields call props extra ((k, v) ∷ rest) = do
    elim (find_key k props) [ some p ↦ call v p | none ↦ check_extra call v extra ]
    check_fields call props extra rest

  unfoldable pub check_object : (Value F → Value F → Check) → Fields F → Fields F → Check
  unfolding check_fields
  check_object call fs s = do
    props ← properties_of (find_key "properties" s)
    required ← required_of (find_key "required" s)
    raise_if (any (λ k. not (has_key k fs)) required) schema_error
    check_lengths (size_of fs) (find_key "minProperties" s) (find_key "maxProperties" s)
    raise_if
        (is_false (find_key "additionalProperties" s)
          && any (λ k. not (has_key k props)) (keys_of fs))
        schema_error
    check_fields call props (find_key "additionalProperties" s) (fields_of fs)

  unfoldable pub check_items : (Value F → Value F → Check) → Value F → List (Value F) → Check
  check_items call s [] = ok tt
  check_items call s (v ∷ vs) = do call v s; check_items call s vs

module _ {F : Type 0} (py : Python F) where
  abbrev pub same : Value F → Value F → Bool
  same = value_beq py.float_beq

  abbrev pub less : Number F → Number F → Bool
  less = number_less py.float_less

  abbrev pub is_truthy : Value F → Bool
  is_truthy null = false
  is_truthy (boolean b) = b
  is_truthy (integer z) = not (same (integer z) (integer (pos 0)))
  is_truthy (real x) = not (same (real x) (integer (pos 0)))
  is_truthy (text t) = not (t == "")
  is_truthy (array nil) = false
  is_truthy (array vs) = true
  is_truthy (object end) = false
  is_truthy (object fs) = true

  abbrev pub check_each_item :
      (Value F → Value F → Check) → List (Value F) → Option (Value F) → Check
  check_each_item call vs none = ok tt
  check_each_item call vs (some s) = if is_truthy s then check_items call s vs else ok tt

  unfoldable pub check_array : (Value F → Value F → Check) → List (Value F) → Fields F → Check
  unfolding check_items
  check_array call vs s = do
    check_lengths (length vs) (find_key "minItems" s) (find_key "maxItems" s)
    raise_if (is_true (find_key "uniqueItems" s) && has_duplicates (map py.dumps vs)) schema_error
    check_each_item call vs (find_key "items" s)

  abbrev pub check_pattern : String → Option (Value F) → Check
  check_pattern t none = ok tt
  check_pattern t (some (text pattern)) = elim (py.search pattern t) [
    | none ↦ raise python_error
    | some found ↦ raise_if (not found) schema_error
  ]
  check_pattern t (some other) = raise python_error

  abbrev pub check_format : String → Option (Value F) → Check
  check_format t none = ok tt
  check_format t (some (text format)) = raise_if (not (py.matches_format t format)) schema_error
  check_format t (some other) = raise schema_error

  unfoldable pub check_text : String → Fields F → Check
  check_text t s = do
    check_lengths (length (codes t)) (find_key "minLength" s) (find_key "maxLength" s)
    check_pattern t (find_key "pattern" s)
    check_format t (find_key "format" s)

  abbrev pub check_bound : (Number F → Bool) → Option (Value F) → Check
  check_bound passes none = ok tt
  check_bound passes (some v) = elim (number_of v) [
    | none ↦ raise python_error
    | some bound ↦ raise_if (passes bound) schema_error
  ]

  -- `Decimal(str(True))` is an `InvalidOperation` too.
  abbrev pub check_multiple : Number F → Option (Value F) → Check
  check_multiple n none = ok tt
  check_multiple n (some (boolean b)) = raise schema_error
  check_multiple n (some v) = elim (number_of v) [
    | none ↦ raise python_error
    | some divisor ↦ elim (py.is_multiple n divisor) [
      | none ↦ raise schema_error
      | some divides ↦ raise_if (not divides) schema_error
    ]
  ]

  unfoldable pub check_number : Number F → Fields F → Check
  check_number n s = do
    check_bound (λ b. less n b) (find_key "minimum" s)
    check_bound (λ b. less b n) (find_key "maximum" s)
    check_bound (λ b. less n b || number_beq py.float_beq n b) (find_key "exclusiveMinimum" s)
    check_bound (λ b. less b n || number_beq py.float_beq b n) (find_key "exclusiveMaximum" s)
    check_multiple n (find_key "multipleOf" s)

  -- What is left to check of an instance of its type.
  abbrev pub check_body : (Value F → Value F → Check) → Value F → Fields F → Check
  check_body call (object fs) s = check_object call fs s
  check_body call (array vs) s = check_array call (items_of vs) s
  check_body call (text t) s = check_text t s
  check_body call (integer z) s = check_number (whole z) s
  check_body call (real x) s = check_number (float x) s
  check_body call (boolean b) s = ok tt
  check_body call null s = ok tt

  unfoldable pub check_typed :
      (Value F → Value F → Check) → Value F → Fields F → Option (Value F) → Check
  unfolding any_of check_object check_array check_text check_number
  check_typed call v s none = ok tt
  check_typed call v s (some (array kinds)) =
      any_of call v (map (λ kind. object (set_key "type" kind s)) (items_of kinds))
  check_typed call v s (some (text expected)) =
      if expected == ""
      then ok tt
      else (is_kind expected v >>= λ is_one.
          if is_one then check_body call v s else raise schema_error)
  check_typed call v s (some other) = if is_truthy other then raise python_error else ok tt

  abbrev pub check_const : Value F → Option (Value F) → Check
  check_const v none = ok tt
  check_const v (some constant) = raise_if (not (same v constant)) schema_error

  abbrev pub check_enum : Value F → Option (Value F) → Check
  check_enum v none = ok tt
  check_enum v (some values) = do
    allowed ← list_of values
    raise_if (not (any (λ w. same v w) allowed)) schema_error

  unfoldable pub check_schema : (Value F → Value F → Check) → Value F → Fields F → Check
  unfolding any_of one_of check_typed
  check_schema call v s = do
    check_const v (find_key "const" s)
    check_enum v (find_key "enum" s)
    elim (find_key "anyOf" s) [
      | some options ↦ list_of options >>= λ ss. any_of call v ss
      | none ↦ elim (find_key "oneOf" s) [
        | some options ↦ list_of options >>= λ ss. one_of call v ss
        | none ↦ check_typed call v s (find_key "type" s)
      ]
    ]

  -- The number is how deep the calls may go: past it, Python raises `RecursionError`.
  unfoldable pub validate_under : ℕ → Fields F → Value F → Value F → Check
  unfolding resolve_ref check_schema
  validate_under zero root v s = raise recursion_error
  validate_under (suc n) root v (object s) = elim (find_key "$ref" s) [
    | none ↦ check_schema (validate_under n root) v s
    | some ref ↦ elim (resolve_ref root ref) [
      | ok (object target) ↦ validate_under n root v (object target)
      | ok other ↦ raise schema_error
      | raise e ↦ raise e
    ]
  ]
  validate_under (suc n) root v other = raise python_error

  unfoldable pub validate : ℕ → Value F → Fields F → Check
  unfolding validate_under
  validate limit instance_value schema = validate_under limit schema instance_value (object schema)
