-- ===== src/Protocol/Schema/Pointer.antt =====
-- schema.py, `validate`: the local references of a schema.
use autonomous_math_ai.Base.{
  ℕ, ◌&&◌, Option, none, some, List, [], ◌∷◌, ◌++◌, drop, nat_beq, if◌then◌else◌, nat_eq, list_eq,
  ◌==◌,
}
use autonomous_math_ai.Base.Text.{codes}
use autonomous_math_ai.Base.Result.{Result, ok, raise}
use autonomous_math_ai.Protocol.Contracts.{starts_with}
use autonomous_math_ai.Protocol.Json.{Value, text, object, Fields, end, field}
use autonomous_math_ai.Protocol.Schema.{SchemaFault, schema_error}

-- `text.replace(ab, c)` for a text `ab` of two characters that differ
abbrev pub replace_pair : ℕ → ℕ → ℕ → List ℕ → List ℕ
replace_pair a b c [] = []
replace_pair a b c (x ∷ []) = x ∷ []
replace_pair a b c (x ∷ y ∷ rest) =
    let met = c ∷ replace_pair a b c rest in
    let kept = x ∷ replace_pair a b c (y ∷ rest) in if nat_beq x a && nat_beq y b then met else kept

-- `raw_part.replace("~1", "/").replace("~0", "~")`
abbrev pub unescape : List ℕ → List ℕ
unescape part = replace_pair 126 48 126 (replace_pair 126 49 47 part)

-- `text.split("/")`, with the part that has begun
abbrev pub split_slashes : List ℕ → List ℕ → List (List ℕ)
split_slashes part [] = part ∷ []
split_slashes part (c ∷ cs) =
    let broken = part ∷ split_slashes [] cs in
    let longer = split_slashes (part ++ c ∷ []) cs in if nat_beq c 47 then broken else longer

module _ {F : Type 0} where
  abbrev pub find_codes : List ℕ → Fields F → Option (Value F)
  find_codes part end = none
  find_codes part (field k v fs) = if codes k == part then some v else find_codes part fs

  abbrev pub follow : Value F → List (List ℕ) → Result SchemaFault (Value F)
  follow target [] = ok target
  follow (object fs) (part ∷ parts) = elim (find_codes (unescape part) fs) [
    | none ↦ raise schema_error
    | some target ↦ follow target parts
  ]
  follow other (part ∷ parts) = raise schema_error

  -- The target of a reference, which must be an object.
  unfoldable pub resolve_ref : Fields F → Value F → Result SchemaFault (Value F)
  resolve_ref root (text ref) =
      if codes ref == 35 ∷ []
      then ok (object root)
      else if starts_with (35 ∷ 47 ∷ []) (codes ref)
      then follow (object root) (split_slashes [] (drop 2 (codes ref)))
      else raise schema_error
  resolve_ref root other = raise schema_error
