-- ===== src/Representation/Bridges.antt =====
-- representation.py: which two representations may be combined.
use autonomous_math_ai.Base.{
  ◌≡◌, ap, arith, Bool, not, ◌||◌, String, List, elem, string_eq, list_eq, ◌==◌,
}
use autonomous_math_ai.Base.Result.{raise_if}
use autonomous_math_ai.Base.Sorting.{sort_swap}
use autonomous_math_ai.Protocol.Json.{Value}
use autonomous_math_ai.Representation.{
  RepresentationContract, needs_bridge, to_dict, require_compatible_representations,
}

same_swap : (s t : String) → (s == t) ≡ (t == s)
same_swap s t = ground (arith, string_eq.beq_iff s t, string_eq.beq_iff t s)

module _ {F : Type 0} (digest : Value F → String) where
  -- Neither side goes first, in the result and in the error.
  pub require_compatible_swap :
      (left right : RepresentationContract) (bridges : List (List String))
      → require_compatible_representations digest left right bridges
        ≡ require_compatible_representations digest right left bridges
  unfolding require_compatible_representations
  require_compatible_swap left right bridges =
      ap (λ (p : Bool × List String). raise_if (not (p.0 || elem p.1 bridges)) (needs_bridge p.1))
        (λ i. (same_swap a b i, sort_swap a b i))
    where
      a : String
      a = digest (to_dict left)

      b : String
      b = digest (to_dict right)
