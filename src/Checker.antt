-- ===== src/Checker.antt =====
-- services/types/checker.ts and services/modules/validator/module-validator.ts: the types of constructor
-- arguments.
--
-- Text is a list of code units. What ethers does is an argument: `parse` is BigNumber.from of a text, `print`
-- its inverse toString, and `is_address` the test of addresses. `read` gives the code units of a name. A `number` is
-- an integer that BigNumber.from takes; on fractions and beyond 2 ^ 53 it throws, which is not modelled.
pub mod Ranges
mod Tests
use hardhat_ignition.Prelude.{
  ℕ, zero, suc, ◌+◌, ◌*◌, ◌/◌, ◌^◌, ◌==◌, leb, ltb, String, Bool, true, false, not, ◌&&◌, ◌||◌,
  Option, none, some, List, [], ◌∷◌, ◌++◌, if◌then◌else◌, drop, length, ℤ, pos, negsuc, abs, Dict,
  lookup, or_else,
}
use hardhat_ignition.Types.{
  Text, Value, Value.undefined, Value.null, Value.bool, Value.number, Value.big_number,
  Value.big_number_json, Value.string, Value.array, Value.binding, Value.meta_data, Values,
  Values.end, Values.item, JsonFragment, JsonFragmentType, Bindings, ContractBinding, Check, passes,
  Result, ok, err, Error, type_error, contract_type_mismatch, contract_parameter_is_missing,
  invalid_big_number, missing_contract_metadata, abi_mismatch, or_fail, ◌>>=◌,
}
use hardhat_ignition.Transactions.{has_deploy_fn}

-- `text.startsWith(part)`
unfoldable pub starts_with : (part text : Text) → Bool
starts_with [] text = true
starts_with (x ∷ xs) [] = false
starts_with (x ∷ xs) (y ∷ ys) = (x == y) && starts_with xs ys

-- `text === other`
unfoldable pub same_text : (text other : Text) → Bool
same_text text other = starts_with text other && starts_with other text

-- `text.includes(part)`
unfoldable pub includes_text : (part text : Text) → Bool
includes_text part [] = starts_with part []
includes_text part (y ∷ ys) = starts_with part (y ∷ ys) || includes_text part ys

-- The text behind the last occurrence of a part.
unfoldable pub behind_last : (part text : Text) → Option Text
behind_last part [] = if starts_with part [] then some [] else none
behind_last part (y ∷ ys) = elim (behind_last part ys) [
  | some rest ↦ some rest
  | none ↦ if starts_with part (y ∷ ys) then some (drop (length part) (y ∷ ys)) else none
]

abbrev pub int_text : Text
int_text = 105 ∷ 110 ∷ 116 ∷ []

abbrev pub uint_text : Text
uint_text = 117 ∷ int_text

abbrev pub bool_text : Text
bool_text = 98 ∷ 111 ∷ 111 ∷ 108 ∷ []

abbrev pub string_text : Text
string_text = 115 ∷ 116 ∷ 114 ∷ 105 ∷ 110 ∷ 103 ∷ []

abbrev pub bytes_text : Text
bytes_text = 98 ∷ 121 ∷ 116 ∷ 101 ∷ 115 ∷ []

abbrev pub bytes32_text : Text
bytes32_text = bytes_text ++ 51 ∷ 50 ∷ []

abbrev pub address_text : Text
address_text = 97 ∷ 100 ∷ 100 ∷ 114 ∷ 101 ∷ 115 ∷ 115 ∷ []

-- `contract `
abbrev pub contract_text : Text
contract_text = 99 ∷ 111 ∷ 110 ∷ 116 ∷ 114 ∷ 97 ∷ 99 ∷ 116 ∷ 32 ∷ []

abbrev pub is_negative : ℤ → Bool
is_negative (pos n) = false
is_negative (negsuc n) = true

-- `2 ** bits / 2`, and twice that for an unsigned type: one more than the greatest magnitude.
abbrev pub range_end : (unsigned : Bool) → (bits : ℕ) → ℕ
range_end unsigned bits = if unsigned then (2 ^ bits / 2) * 2 else 2 ^ bits / 2

-- The inputs of the last constructor among the fragments, or none.
unfoldable pub constructor_inputs :
    List JsonFragment → List JsonFragmentType → List JsonFragmentType
constructor_inputs [] found = found
constructor_inputs (f ∷ fs) found =
    constructor_inputs fs (if f.is_constructor then or_else f.inputs [] else found)

module _ (parse : Text → Result ℤ) (print : ℤ → Text) (is_address : Text → Bool)
    (read : String → Text) where
  -- `type.substring(type.lastIndexOf("int") + 3)`, and the power that takes it.
  unfoldable pub bits_of : Text → Result ℕ
  bits_of type = do
    bits ← parse (or_else (behind_last int_text type) (drop 2 type))
    elim bits [ pos n ↦ ok n | negsuc n ↦ err invalid_big_number ]

  -- The magnitude exceeds the range less one.
  unfoldable pub handle_int : ℤ → Text → Check
  handle_int value type =
      if is_negative value && includes_text uint_text type then err contract_type_mismatch else (do
        bits ← bits_of type
        if leb (range_end (includes_text uint_text type) bits) (abs value)
            then err contract_type_mismatch
            else passes)

  unfoldable pub handle_string : Text → Text → Check
  handle_string value type =
      if same_text type string_text
      then passes
      else if same_text type bytes_text || same_text type bytes32_text
      then passes
      else if includes_text int_text type
      then (do n ← parse value; handle_int n type)
      else if includes_text address_text type
      then (if is_address value then passes else err contract_type_mismatch)
      else passes

  abbrev is_named : String → Option Text → Bool
  is_named name none = false
  is_named name (some type) = same_text (contract_text ++ read name) type

  -- The test of an object that has a name.
  unfoldable pub handle_contract_value : String → Text → Option Text → Check
  handle_contract_value name type internal_type =
      if not (is_named name internal_type) && not (same_text address_text type)
      then err contract_type_mismatch
      else passes

  unfoldable mutual
    pub handle_types : Value → Text → Option Text → Check
    handle_types undefined type internal_type = err contract_parameter_is_missing
    handle_types null type internal_type = err type_error
    handle_types (bool b) type internal_type =
        if includes_text bool_text type then passes else err contract_type_mismatch
    handle_types (number n) type internal_type =
        if includes_text int_text type then handle_int n type else err contract_type_mismatch
    handle_types (big_number n) type internal_type = handle_string (print n) type
    handle_types (big_number_json hex) type internal_type = do
      n ← parse hex
      handle_string (print n) type
    handle_types (string t) type internal_type = handle_string t type
    handle_types (array vs) type internal_type = handle_array vs type
    handle_types (binding name) type internal_type = handle_contract_value name type internal_type
    handle_types (meta_data name) type internal_type = handle_contract_value name type internal_type

    -- handleArray: each value is checked against the type of the array.
    pub handle_array : Values → Text → Check
    handle_array end type = passes
    handle_array (item v vs) type = do _ ← handle_types v type (some type); handle_array vs type

  -- The loop of `validate` over the arguments: an argument beyond the inputs reads a field of `undefined`.
  unfoldable pub validate_args : List Value → List JsonFragmentType → Check
  validate_args [] inputs = passes
  validate_args (v ∷ vs) [] = err type_error
  validate_args (v ∷ vs) (input ∷ inputs) = do
    _ ← handle_types v input.type input.internal_type
    validate_args vs inputs

  -- The body of its loop over the bindings.
  unfoldable pub validate_binding : Dict (List JsonFragment) → String → ContractBinding → Check
  validate_binding abis name b = do
    fragments ← or_fail (lookup b.contract_name abis) (missing_contract_metadata name)
    let inputs = constructor_inputs fragments []
    if not (length b.args == length inputs) && not (has_deploy_fn b)
        then err (abi_mismatch name)
        else validate_args b.args inputs

  unfoldable pub validate_all : Dict (List JsonFragment) → Bindings → Check
  validate_all abis [] = passes
  validate_all abis ((name, b) ∷ rest) = do _ ← validate_binding abis name b; validate_all abis rest
