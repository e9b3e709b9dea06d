-- ===== src/Protocol/Schema.antt =====
-- schema.py: what an instance must give to a schema, and which schemas may be sent out. `re`,
-- `decimal`, the parsers of the formats and `json.dumps` are arguments. A keyword whose value has
-- another JSON type than the keyword is for is taken as an exception that is no `SchemaError`.
pub mod Pointer
pub mod Validate
pub mod Issues
pub mod Node
pub mod Compatible
pub mod Looping
pub mod Depth
use autonomous_math_ai.Base.{Bool, String, Option, List}
use autonomous_math_ai.Base.Result.{Result}
use autonomous_math_ai.Protocol.Json.{Value, Number}

pub record Python (F : Type 0) : Type 0 where
  -- `==` and `<` where one side is a float
  pub float_beq : Number F → Number F → Bool
  pub float_less : Number F → Number F → Bool
  -- `Decimal(str(a)) % Decimal(str(b)) == 0`; `none` is `InvalidOperation`
  pub is_multiple : Number F → Number F → Option Bool
  -- `re.search(pattern, text) is not None`; `none` is `re.error`
  pub search : String → String → Option Bool
  -- `re.compile(pattern)` raises no `re.error`
  pub compiles : String → Bool
  -- `_matches_format(value, schema_format)`
  pub matches_format : String → String → Bool
  -- `json.dumps(value, sort_keys=True)`
  pub dumps : Value F → String

-- A `SchemaError`, the `RecursionError` of calls that go too deep, or any other exception.
pub data SchemaFault : Type 0 where
  schema_error recursion_error python_error : SchemaFault

abbrev pub Check : Type 0
Check = Result SchemaFault (Unit {0})
