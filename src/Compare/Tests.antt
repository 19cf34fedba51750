-- ===== src/Compare/Tests.antt =====
-- Compare: small bytecodes, arguments and states.
use hardhat_ignition.Prelude.{
  ◌≡◌, ◌↔◌, refl, ℤ, true, false, List, [], ◌∷◌, All, lookup, insert, name_dec, arith,
}
use hardhat_ignition.Types.{Text, Value, Element, ModuleState, ok}
use hardhat_ignition.Samples.{token, set_up, pending}
use hardhat_ignition.Checker.{starts_with, same_text}
use hardhat_ignition.Repo.{convert_state, convert_event}
use hardhat_ignition.Compare.{
  hex_digit, read_digits, parse_digits, parse_hex, metadata_length, cut_substr, is_same_bytecode,
  strict_equal, every_equal, array_equals, args_loop, check_args, contracts_differ, elements_differ,
  diff_loop, check_if_diff,
}
use hardhat_ignition.Compare.Texts.{HoldsMetadata, is_same_bytecode_iff}
use hardhat_ignition.Compare.Args.{IsReadable, check_args_iff}
use hardhat_ignition.Compare.Differences.{AreUnchanged, check_if_diff_iff}

program : Unit {0}
unfolding lookup insert name_dec starts_with same_text convert_state convert_event hex_digit
    read_digits parse_digits parse_hex metadata_length is_same_bytecode strict_equal every_equal
    array_equals args_loop check_args contracts_differ elements_differ diff_loop check_if_diff
program = tt

-- One byte of metadata, with a digest that differs: `6001 aa 0001` and `6001 bb 0001`.
abbrev one : Text
one = 54 ∷ 48 ∷ 48 ∷ 49 ∷ 97 ∷ 97 ∷ 48 ∷ 48 ∷ 48 ∷ 49 ∷ []

abbrev two : Text
two = 54 ∷ 48 ∷ 48 ∷ 49 ∷ 98 ∷ 98 ∷ 48 ∷ 48 ∷ 48 ∷ 49 ∷ []

one-two : is_same_bytecode one two ≡ true
unfolding program
one-two = refl

two-HoldsMetadata : HoldsMetadata two
unfolding program HoldsMetadata
two-HoldsMetadata m h = ground (arith, h)

is_same_bytecode_iff_example :
    (is_same_bytecode one two ≡ true)
    ↔ (cut_substr one (metadata_length one) ≡ cut_substr two (metadata_length two))
is_same_bytecode_iff_example = is_same_bytecode_iff one two two-HoldsMetadata

-- `abcd0003` is shorter than its metadata and `ab` is not metadata: the order of the two decides.
abbrev short : Text
short = 97 ∷ 98 ∷ 99 ∷ 100 ∷ 48 ∷ 48 ∷ 48 ∷ 51 ∷ []

abbrev other : Text
other = 122 ∷ 122 ∷ 122 ∷ 122 ∷ []

short-other : is_same_bytecode short other ≡ true
unfolding program
short-other = refl

other-short : is_same_bytecode other short ≡ false
unfolding program
other-short = refl

abbrev values : List Value
values = Value.number (ℤ.pos 5) ∷ Value.string one ∷ []

check_args_iff_example :
    (check_args values values ≡ ok true) ↔ ((values ≡ values) × All IsReadable values)
check_args_iff_example = check_args_iff values values

-- A contract as an argument counts as changed, though it is the same.
contract-changes : check_args (Value.meta_data "Token" ∷ []) (Value.binding "Token" ∷ []) ≡ ok false
unfolding program
contract-changes = refl

abbrev new_state : ModuleState
new_state = ("Token", Element.contract token) ∷ ("setUp", Element.event (pending set_up)) ∷ []

no_difference :
    (check_if_diff (convert_state new_state) new_state ≡ ok false)
    ↔ AreUnchanged (convert_state new_state) new_state
no_difference = check_if_diff_iff (convert_state new_state) new_state
