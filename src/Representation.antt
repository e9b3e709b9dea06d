-- ===== src/Representation.antt =====
-- representation.py: in which representation a mathematical object is given, and when two of them
-- may be combined.
pub mod Bridges
pub mod RoundTrip
pub mod Tests
use autonomous_math_ai.Base.{
  Bool, true, false, not, ◌||◌, String, Option, none, some, List, [], ◌∷◌, all, elem,
  has_duplicates, same_set, if◌then◌else◌, string_eq, ◌==◌, list_eq,
}
use autonomous_math_ai.Base.Result.{Result, ok, raise, ◌>>=◌, ◌>>◌, raise_if}
use autonomous_math_ai.Base.Sorting.{sort_texts}
use autonomous_math_ai.Base.Text.{codes, is_space}
use autonomous_math_ai.Protocol.Json.{
  Value, null, text, array, object, Items, nil, cons, Fields, end, field, keys_of, find_key,
}

abbrev pub legacy_representation_value : String
legacy_representation_value = "LEGACY_UNSPECIFIED"

abbrev pub representation_fields : List String
representation_fields =
    "branch" ∷ "localization" ∷ "saturation" ∷ "normalization" ∷ "content" ∷ "exceptional_factors"
    ∷ "combination_scope" ∷ []

pub record RepresentationContract : Type 0 where
  pub branch : String
  pub localization : String
  pub saturation : String
  pub normalization : String
  pub content : String
  pub exceptional_factors : List String
  pub combination_scope : String

-- The ValueErrors, without the name of the field, and the KeyError of `value[key]`.
pub data RepresentationError : Type 0 where
  not_exact blank_field missing_field factors_not_texts duplicate_factors : RepresentationError
  needs_bridge : List String → RepresentationError

-- `RepresentationContract.legacy`
abbrev pub legacy : RepresentationContract
legacy = record {
  branch = legacy_representation_value;
  localization = legacy_representation_value;
  saturation = legacy_representation_value;
  normalization = legacy_representation_value;
  content = legacy_representation_value;
  exceptional_factors = [];
  combination_scope = legacy_representation_value;
}

-- `is_legacy`
abbrev pub is_legacy : RepresentationContract → Bool
is_legacy r = r.branch == legacy_representation_value

-- `not item.strip()`
unfoldable pub is_blank : String → Bool
is_blank s = all is_space (codes s)

module _ {F : Type 0} where
  unfoldable pub filled_text : Option (Value F) → Result RepresentationError String
  filled_text none = raise missing_field
  filled_text (some (text s)) = raise_if (is_blank s) blank_field >> ok s
  filled_text (some other) = raise blank_field

  -- A factor, before those that follow it.
  unfoldable pub filled_texts : Items F → Result RepresentationError (List String)
  filled_texts nil = ok []
  filled_texts (cons (text s) xs) =
      raise_if (is_blank s) factors_not_texts >> filled_texts xs >>= λ rest. ok (s ∷ rest)
  filled_texts (cons other xs) = raise factors_not_texts

  unfoldable pub read_factors : Option (Value F) → Result RepresentationError (List String)
  read_factors none = raise missing_field
  read_factors (some (array xs)) = filled_texts xs >>= λ factors.
      raise_if (has_duplicates factors) duplicate_factors >> ok (sort_texts factors)
  read_factors (some other) = raise factors_not_texts

  unfoldable pub read_fields : Fields F → Result RepresentationError RepresentationContract
  read_fields fs = filled_text (find_key "branch" fs) >>= λ branch.
      filled_text (find_key "localization" fs) >>= λ localization.
      filled_text (find_key "saturation" fs) >>= λ saturation.
      filled_text (find_key "normalization" fs) >>= λ normalization.
      filled_text (find_key "content" fs) >>= λ content.
      filled_text (find_key "combination_scope" fs) >>= λ combination_scope.
      read_factors (find_key "exceptional_factors" fs) >>= λ factors. ok (record {
        branch = branch;
        localization = localization;
        saturation = saturation;
        normalization = normalization;
        content = content;
        exceptional_factors = factors;
        combination_scope = combination_scope;
      })

  -- `RepresentationContract.from_dict`. The loop runs over a set, so which blank field it names is
  -- not fixed, and no more is it in the error here.
  unfoldable pub from_dict : Value F → Result RepresentationError RepresentationContract
  from_dict null = ok legacy
  from_dict (object fs) =
      raise_if (not (same_set (keys_of fs) representation_fields)) not_exact >> read_fields fs
  from_dict other = raise not_exact

  abbrev pub texts : List String → Items F
  texts [] = nil
  texts (s ∷ rest) = cons (text s) (texts rest)

  -- `to_dict`, whose keys `asdict` lists in the order of the class.
  abbrev pub to_dict : RepresentationContract → Value F
  to_dict r = object (
      field "branch" (text r.branch) (
        field "localization" (text r.localization) (
          field "saturation" (text r.saturation) (
            field "normalization" (text r.normalization) (
              field "content" (text r.content) (
                field "exceptional_factors" (array (texts r.exceptional_factors))
                  (field "combination_scope" (text r.combination_scope) end)))))))

  -- `require_compatible_representations`. The digest of a dictionary is an argument; a bridge is
  -- the list of its two identifiers, and no set of bridges is the empty one.
  unfoldable pub require_compatible_representations :
      (Value F → String)
      → RepresentationContract
      → RepresentationContract
      → List (List String)
      → Result RepresentationError (Unit {0})
  require_compatible_representations digest left right bridges =
      let pair = sort_texts (digest (to_dict left) ∷ digest (to_dict right) ∷ []) in
      raise_if (not (digest (to_dict left) == digest (to_dict right) || elem pair bridges))
        (needs_bridge pair)
