-- ===== src/Checker/Tests.antt =====
-- Checker: an unsigned type of eight bits, with a parser that knows the text 8.
use hardhat_ignition.Prelude.{
  ◌≡◌, ◌↔◌, refl, String, Bool, true, false, ◌==◌, none, some, List, [], ◌∷◌, ◌++◌, ℤ, pos, negsuc,
  Dict, lookup, name_dec, All, if◌then◌else◌,
}
use hardhat_ignition.Types.{
  Text, Value, JsonFragment, Bindings, passes, Result, ok, err, invalid_big_number,
  contract_type_mismatch,
}
use hardhat_ignition.Checker.{
  starts_with, same_text, includes_text, behind_last, int_text, uint_text, bits_of, handle_int,
  handle_string, handle_contract_value, handle_types, handle_array, constructor_inputs,
  validate_args, validate_binding, validate_all,
}
use hardhat_ignition.Checker.Ranges.{IsBelowEnd, handle_int_iff, IsValid, validate_all-IsValid}
use hardhat_ignition.Samples.{plain}

program : Unit {0}
unfolding lookup name_dec starts_with same_text includes_text behind_last bits_of handle_int
    handle_string handle_contract_value handle_types handle_array constructor_inputs validate_args
    validate_binding validate_all
program = tt

abbrev parse : Text → Result ℤ
parse (n ∷ []) = if n == 56 then ok (pos 8) else err invalid_big_number
parse _ = err invalid_big_number

abbrev print : ℤ → Text
print n = 56 ∷ []

abbrev is_address : Text → Bool
is_address t = false

abbrev read : String → Text
read name = []

abbrev uint8 : Text
uint8 = uint_text ++ 56 ∷ []

abbrev int8 : Text
int8 = int_text ++ 56 ∷ []

-- The least value of a signed type is refused.
least_refused :
    handle_int parse print is_address read (negsuc 127) int8 ≡ err contract_type_mismatch
unfolding program
least_refused = refl

handle_int_iff_example :
    (handle_int parse print is_address read (pos 255) uint8 ≡ passes)
    ↔ IsBelowEnd (includes_text uint_text uint8) 7 (pos 255)
unfolding program
handle_int_iff_example = handle_int_iff parse print is_address read (pos 255) uint8 7 refl

abbrev abis : Dict (List JsonFragment)
abis =
    (
      "Token",
      record {
        is_constructor = true;
        inputs = some (record { type = uint8; internal_type = none } ∷ []);
      }
          ∷ [],
    )
    ∷ []

abbrev bindings : Bindings
bindings = ("Token", plain "Token" (Value.number (pos 255) ∷ [])) ∷ []

validate_all-IsValid_example :
    All (λ entry. IsValid parse print is_address read abis entry.1) bindings
unfolding program
validate_all-IsValid_example = validate_all-IsValid parse print is_address read abis bindings refl
