-- ===== src/Protocol/Json.antt =====
-- JSON values as `json.loads` makes them, and Python's `==` on them. There are no floats in the
-- development, so their type and what is done with them are arguments.
use autonomous_math_ai.Base.{
  ℕ, suc, Bool, true, false, ◌&&◌, String, Option, none, some, List, [], ◌∷◌, ltb, nat_beq,
  if◌then◌else◌, string_eq, ◌==◌,
}
use autonomous_math_ai.Base.Int.{ℤ, pos, negsuc}

mutual
  pub data Value (F : Type 0) : Type 0 where
    null : Value F
    boolean : Bool → Value F
    integer : ℤ → Value F
    real : F → Value F
    text : String → Value F
    array : Items F → Value F
    object : Fields F → Value F

  pub data Items (F : Type 0) : Type 0 where
    nil : Items F
    cons : Value F → Items F → Items F

  -- The pairs of a dictionary, in insertion order.
  pub data Fields (F : Type 0) : Type 0 where
    end : Fields F
    field : String → Value F → Fields F → Fields F

-- What Python compares as a number: `int`, `float`, and `bool` as 0 or 1.
pub data Number (F : Type 0) : Type 0 where
  whole : ℤ → Number F
  float : F → Number F

abbrev pub int_beq : ℤ → ℤ → Bool
int_beq (pos a) (pos b) = nat_beq a b
int_beq (negsuc a) (negsuc b) = nat_beq a b
int_beq (pos a) (negsuc b) = false
int_beq (negsuc a) (pos b) = false

abbrev pub int_less : ℤ → ℤ → Bool
int_less (pos a) (pos b) = ltb a b
int_less (negsuc a) (negsuc b) = ltb b a
int_less (pos a) (negsuc b) = false
int_less (negsuc a) (pos b) = true

module _ {F : Type 0} where
  abbrev pub number_of : Value F → Option (Number F)
  number_of (boolean true) = some (whole (pos 1))
  number_of (boolean false) = some (whole (pos 0))
  number_of (integer z) = some (whole z)
  number_of (real x) = some (float x)
  number_of other = none

  abbrev pub items_of : Items F → List (Value F)
  items_of nil = []
  items_of (cons v vs) = v ∷ items_of vs

  abbrev pub fields_of : Fields F → List (String × Value F)
  fields_of end = []
  fields_of (field k v fs) = (k, v) ∷ fields_of fs

  abbrev pub keys_of : Fields F → List String
  keys_of end = []
  keys_of (field k v fs) = k ∷ keys_of fs

  -- `value.get(key)`
  abbrev pub find_key : String → Fields F → Option (Value F)
  find_key key end = none
  find_key key (field k v fs) = if k == key then some v else find_key key fs

  abbrev pub has_key : String → Fields F → Bool
  has_key key fs = elim (find_key key fs) [ none ↦ false | some v ↦ true ]

  -- `{**value, key: v}`
  abbrev pub set_key : String → Value F → Fields F → Fields F
  set_key key v end = field key v end
  set_key key v (field k w fs) = if k == key then field k v fs else field k w (set_key key v fs)

  abbrev pub size_of : Fields F → ℕ
  size_of end = 0
  size_of (field k v fs) = suc (size_of fs)

-- `<`, with what decides where one side is a float.
abbrev pub number_less : {F : Type 0} → (Number F → Number F → Bool) → Number F → Number F → Bool
number_less float_less (whole a) (whole b) = int_less a b
number_less float_less (whole a) (float y) = float_less (whole a) (float y)
number_less float_less (float x) other = float_less (float x) other

-- `==`, with what decides where one side is a float.
module _ {F : Type 0} (float_beq : Number F → Number F → Bool) where
  abbrev pub number_beq : Number F → Number F → Bool
  number_beq (whole a) (whole b) = int_beq a b
  number_beq (whole a) (float y) = float_beq (whole a) (float y)
  number_beq (float x) other = float_beq (float x) other

  abbrev pub same_number : Number F → Option (Number F) → Bool
  same_number a none = false
  same_number a (some b) = number_beq a b

  -- Two dictionaries are equal if they have as many keys and each key has equal values.
  unfoldable mutual
    pub value_beq : Value F → Value F → Bool
    value_beq null null = true
    value_beq (boolean a) v = same_number (whole (if a then pos 1 else pos 0)) (number_of v)
    value_beq (integer a) v = same_number (whole a) (number_of v)
    value_beq (real a) v = same_number (float a) (number_of v)
    value_beq (text a) (text b) = a == b
    value_beq (array xs) (array ys) = items_beq xs ys
    value_beq (object fs) (object gs) = nat_beq (size_of fs) (size_of gs) && fields_in fs gs
    value_beq a b = false

    pub items_beq : Items F → Items F → Bool
    items_beq nil nil = true
    items_beq (cons x xs) (cons y ys) = value_beq x y && items_beq xs ys
    items_beq xs ys = false

    pub fields_in : Fields F → Fields F → Bool
    fields_in end gs = true
    fields_in (field k v fs) gs =
        elim (find_key k gs) [ none ↦ false | some w ↦ value_beq v w ] && fields_in fs gs
