-- ===== src/Protocol/Contracts.antt =====
-- contracts.py: the keys of the output contracts, by the names of their schema files.
use autonomous_math_ai.Base.{
  ℕ, Bool, true, false, ◌&&◌, ◌||◌, String, Option, none, some, List, [], ◌∷◌, if◌then◌else◌,
  nat_beq,
}
use autonomous_math_ai.Base.Text.{codes}
use autonomous_math_ai.Base.Dict.{Dict}

abbrev pub output_protocol_version : ℕ
output_protocol_version = 4

abbrev pub director_plan_keys : List String
director_plan_keys =
    "assessment" ∷ "spawn" ∷ "audit_priorities" ∷ "route_updates" ∷ "short_rationale" ∷ []

abbrev pub worker_result_keys : List String
worker_result_keys =
    "result_type" ∷ "main_finding" ∷ "status" ∷ "artifact_paths" ∷ "next_suggested_question"
    ∷ "evidence_level" ∷ "asset_usage" ∷ []

abbrev pub audit_result_keys : List String
audit_result_keys = "verdict" ∷ "checks" ∷ "gaps" ∷ "notes" ∷ "verified_evidence_level" ∷ []

abbrev pub output_contract_keys : Dict String (List String)
output_contract_keys =
    ("director_plan.schema.json", director_plan_keys)
    ∷ ("worker_result.schema.json", worker_result_keys)
    ∷ ("audit_result.schema.json", audit_result_keys)
    ∷ []

-- `text.startswith(prefix)` and `part in text`
abbrev pub starts_with : List ℕ → List ℕ → Bool
starts_with [] text = true
starts_with (p ∷ ps) [] = false
starts_with (p ∷ ps) (c ∷ cs) = nat_beq p c && starts_with ps cs

abbrev pub occurs_in : List ℕ → List ℕ → Bool
occurs_in part [] = starts_with part []
occurs_in part (c ∷ cs) = starts_with part (c ∷ cs) || occurs_in part cs

-- `text.replace("\\", "/")`
abbrev pub with_slashes : List ℕ → List ℕ
with_slashes [] = []
with_slashes (c ∷ cs) = (if nat_beq c 92 then 47 else c) ∷ with_slashes cs

abbrev pub first_name_in : Dict String (List String) → List ℕ → Option (String × List String)
first_name_in [] text = none
first_name_in ((name, keys) ∷ rest) text =
    if occurs_in (codes name) text then some (name, keys) else first_name_in rest text

-- The name of the contract, with its keys.
unfoldable pub contract_name : String → Option (String × List String)
contract_name schema_path = first_name_in output_contract_keys (with_slashes (codes schema_path))
