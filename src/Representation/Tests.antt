-- ===== src/Representation/Tests.antt =====
-- representation.py on a dictionary with two factors out of order, and on texts in their place.
use autonomous_math_ai.Base.{◌≡◌, refl, String, List, [], ◌∷◌}
use autonomous_math_ai.Base.Result.{ok, raise}
use autonomous_math_ai.Base.Text.{is_space}
use autonomous_math_ai.Protocol.Json.{Value, text, array, object, end, field}
use autonomous_math_ai.Representation.{
  RepresentationContract, not_exact, blank_field, factors_not_texts, duplicate_factors, is_blank,
  filled_text, filled_texts, read_factors, read_fields, from_dict, texts, to_dict,
}
use autonomous_math_ai.Representation.RoundTrip.{IsContract, from_dict_rewrites}

abbrev written : String → List String → Value Unit
written branch factors = object (
    field "exceptional_factors" (array (texts factors)) (
      field "branch" (text branch) (
        field "localization" (text "at p") (
          field "saturation" (text "saturated") (
            field "content" (text "primitive") (
              field "normalization" (text "monic")
                (field "combination_scope" (text "local") end)))))))

abbrev contract : RepresentationContract
contract = record {
  branch = "main";
  localization = "at p";
  saturation = "saturated";
  normalization = "monic";
  content = "primitive";
  exceptional_factors = "p" ∷ "q" ∷ [];
  combination_scope = "local";
}

read_sorted : from_dict (written "main" ("q" ∷ "p" ∷ [])) ≡ ok contract
unfolding from_dict read_fields read_factors filled_text filled_texts is_blank is_space
read_sorted = refl

blank_refused : from_dict (written "  " []) ≡ raise blank_field
unfolding from_dict read_fields filled_text is_blank is_space
blank_refused = refl

twice_refused : from_dict (written "main" ("p" ∷ "p" ∷ [])) ≡ raise duplicate_factors
unfolding from_dict read_fields read_factors filled_text filled_texts is_blank is_space
twice_refused = refl

blank_factor_refused : from_dict (written "main" ("p" ∷ "" ∷ [])) ≡ raise factors_not_texts
unfolding from_dict read_fields read_factors filled_text filled_texts is_blank is_space
blank_factor_refused = refl

no_fields_refused : from_dict {F = Unit} (object end) ≡ raise not_exact
unfolding from_dict
no_fields_refused = refl

from_dict_rewrites_example :
    IsContract contract × (from_dict {F = Unit} (to_dict contract) ≡ ok contract)
from_dict_rewrites_example =
    from_dict_rewrites (written "main" ("q" ∷ "p" ∷ [])) contract read_sorted
