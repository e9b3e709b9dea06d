-- ===== src/Protocol/SchemaTests.antt =====
-- schema.py on the contract of an audit result.
use autonomous_math_ai.Base.{
  ℕ, ◌≤◌, ◌≡◌, ◌≢◌, refl, arith, true, false, String, some, List, [], ◌∷◌, same_set, string_eq,
}
use autonomous_math_ai.Base.Result.{ok, raise}
use autonomous_math_ai.Protocol.Contracts.{contract_name, audit_result_keys}
use autonomous_math_ai.Protocol.Json.{
  Value, null, boolean, text, array, object, Items, nil, cons, Fields, end, field, keys_of,
}
use autonomous_math_ai.Protocol.Schema.{Python, schema_error, recursion_error}
use autonomous_math_ai.Protocol.Schema.Pointer.{resolve_ref}
use autonomous_math_ai.Protocol.Schema.Validate.{validate}
use autonomous_math_ai.Protocol.Schema.Issues.{declared_types}
use autonomous_math_ai.Protocol.Schema.Node.{node_issues, object_issues}
use autonomous_math_ai.Protocol.Schema.Compatible.{
  walk_node, walk_object, walk_array, walk_options, walk_definitions,
  validate_output_schema_compatibility,
}
use autonomous_math_ai.Protocol.Schema.Compatible.Exact.{contract_output_exact}
use autonomous_math_ai.Protocol.Schema.Depth.{value_size, is_ref_free}
use autonomous_math_ai.Protocol.Schema.Depth.Instance.{validate_within_size}
use autonomous_math_ai.Protocol.Schema.Looping.{self_reference_loops}

-- No float, pattern or format stands in these schemas.
abbrev python : Python ℕ
python = record {
  float_beq = λ a b. false;
  float_less = λ a b. false;
  is_multiple = λ a b. some true;
  search = λ pattern t. some true;
  compiles = λ pattern. true;
  matches_format = λ t format. true;
  dumps = λ v. "";
}

abbrev name_items : List String → Items ℕ
name_items [] = nil
name_items (k ∷ ks) = cons (text k) (name_items ks)

abbrev text_schema : Value ℕ
text_schema = object (field "type" (text "string") end)

abbrev text_schemas : List String → Fields ℕ
text_schemas [] = end
text_schemas (k ∷ ks) = field k text_schema (text_schemas ks)

abbrev contract : Fields ℕ
contract = field "type" (text "object") (
    field "properties" (object (text_schemas audit_result_keys)) (
      field "required" (array (name_items audit_result_keys))
        (field "additionalProperties" (boolean false) end)))

abbrev output : List String → Fields ℕ
output [] = end
output (k ∷ ks) = field k (text "x") (output ks)

abbrev path : String
path = "schemas/audit_result.schema.json"

named : contract_name path ≡ some ("audit_result.schema.json", audit_result_keys)
unfolding contract_name
named = refl

contract_compatible : validate_output_schema_compatibility python 10 path contract ≡ ok tt
unfolding validate_output_schema_compatibility walk_node walk_object walk_array walk_options
    walk_definitions node_issues object_issues declared_types contract_name
contract_compatible = refl

output_valid : validate python 10 (object (output audit_result_keys)) contract ≡ ok tt
unfolding validate
output_valid = refl

output_refused : validate python 10 (object (output ("verdict" ∷ []))) contract ≡ raise schema_error
unfolding validate
output_refused = refl

contract_output_example :
    (fs : Fields ℕ) × (object (output audit_result_keys) ≡ object fs)
    × (same_set (keys_of fs) audit_result_keys ≡ true)
contract_output_example =
    contract_output_exact python 10 10 path contract (object (output audit_result_keys))
      "audit_result.schema.json" audit_result_keys named contract_compatible refl output_valid

-- The contract, with a reference to itself, which the preflight lets pass.
abbrev looping : Fields ℕ
looping = field "$ref" (text "#") contract

looping_compatible : validate_output_schema_compatibility python 10 path looping ≡ ok tt
unfolding validate_output_schema_compatibility walk_node walk_object walk_array walk_options
    walk_definitions node_issues object_issues declared_types contract_name resolve_ref
looping_compatible = refl

self_reference_loops_example : validate python 1000 null looping ≡ raise recursion_error
self_reference_loops_example = self_reference_loops python 1000 looping null refl

contract_small : value_size (object contract) ≤ 40
unfolding value_size
contract_small = omega arith

contract_ref_free : is_ref_free (object contract) ≡ true
unfolding is_ref_free
contract_ref_free = refl

validate_within_size_example : validate python 40 null contract ≢ raise recursion_error
validate_within_size_example =
    validate_within_size python 40 contract null contract_small contract_ref_free
