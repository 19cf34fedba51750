-- ===== src/Compare.antt =====
-- services/utils/util.ts (isSameBytecode, arrayEquals, checkIfSameInputs) and, of services/modules/module-resolver.ts,
-- checkArgs and checkIfDiff: the comparison of a module with what was deployed.
--
-- parseInt is written out for text without white space or a sign in front, as bytecode is. The two sides of a
-- comparison share no object, since one of them was read from a file: objects are never `===`.
pub mod Texts
pub mod Args
pub mod Differences
mod Tests
use hardhat_ignition.Prelude.{
  ℕ, ◌+◌, ◌*◌, ◌-◌, ltb, leb, ◌==◌, Bool, true, false, not, ◌&&◌, ◌||◌, Option, none, some, List,
  [], ◌∷◌, ℤ, pos, negsuc, String, Dict, length, take, drop, name_dec, dec_test, if◌then◌else◌,
}
use hardhat_ignition.Types.{
  Text, Value, Event, event_name, StatefulEvent, ContractBinding, ContractBindingMetaData, Element,
  FileElement, ModuleState, ModuleStateFile, Result, ok, err, type_error,
}
use hardhat_ignition.Checker.{same_text}

-- The digit that a code unit stands for.
unfoldable pub hex_digit : ℕ → Option ℕ
hex_digit c =
    if leb 48 c && leb c 57
    then some (c - 48)
    else if leb 65 c && leb c 70
    then some (c - 55)
    else if leb 97 c && leb c 102
    then some (c - 87)
    else none

unfoldable pub read_digits : (value : ℕ) → Text → ℕ
read_digits value [] = value
read_digits value (c ∷ cs) = elim (hex_digit c) [
  | none ↦ value
  | some d ↦ read_digits (value * 16 + d) cs
]

-- parseInt(text, 16); none for NaN.
unfoldable pub parse_digits : Text → Option ℕ
parse_digits [] = none
parse_digits (c ∷ cs) = elim (hex_digit c) [ none ↦ none | some d ↦ some (read_digits d cs) ]

abbrev is_prefix : ℕ → ℕ → Bool
is_prefix c d = (c == 48) && ((d == 120) || (d == 88))

unfoldable pub parse_hex : Text → Option ℕ
parse_hex [] = none
parse_hex (c ∷ []) = parse_digits (c ∷ [])
parse_hex (c ∷ d ∷ rest) = if is_prefix c d then parse_digits rest else parse_digits (c ∷ d ∷ rest)

-- `parseInt(bytecode.slice(-4), 16) * 2 + 4`
unfoldable pub metadata_length : Text → Option ℕ
metadata_length bytecode = elim (parse_hex (drop (length bytecode - 4) bytecode)) [
  | none ↦ none
  | some n ↦ some (n * 2 + 4)
]

-- `bytecode.substr(0, bytecode.length - metadataLength)`: nothing for a negative length or NaN.
abbrev pub cut_substr : Text → Option ℕ → Text
cut_substr bytecode none = []
cut_substr bytecode (some m) = take (length bytecode - m) bytecode

-- `bytecode.slice(0, bytecode.length - metadataLength)`: a negative end counts from the end.
abbrev pub cut_slice : Text → Option ℕ → Text
cut_slice bytecode none = []
cut_slice bytecode (some m) =
    if leb m (length bytecode)
    then take (length bytecode - m) bytecode
    else take (length bytecode + length bytecode - m) bytecode

unfoldable pub is_same_bytecode : Text → Text → Bool
is_same_bytecode one two =
    if same_text one two
    then true
    else same_text (cut_substr one (metadata_length one)) (cut_slice two (metadata_length two))

abbrev same_int : ℤ → ℤ → Bool
same_int (pos m) (pos n) = m == n
same_int (negsuc m) (negsuc n) = m == n
same_int _ _ = false

abbrev same_bool : Bool → Bool → Bool
same_bool true b = b
same_bool false b = not b

-- `===`
unfoldable pub strict_equal : Value → Value → Bool
strict_equal Value.undefined Value.undefined = true
strict_equal Value.null Value.null = true
strict_equal (Value.bool b) (Value.bool c) = same_bool b c
strict_equal (Value.number m) (Value.number n) = same_int m n
strict_equal (Value.string s) (Value.string t) = same_text s t
strict_equal _ _ = false

unfoldable pub every_equal : List Value → List Value → Bool
every_equal (a ∷ as_) (b ∷ bs) = strict_equal a b && every_equal as_ bs
every_equal _ _ = true

unfoldable pub array_equals : List Value → List Value → Bool
array_equals a b = (length a == length b) && every_equal a b

unfoldable pub check_if_same_inputs :
    (function_name : String) (inputs : List Value)
    → (fragment_name : String) (args : List Value) → Bool
check_if_same_inputs function_name inputs fragment_name args =
    dec_test (name_dec function_name fragment_name) && array_equals inputs args

-- A value whose field `args` cannot be read.
abbrev is_nothing : Value → Bool
is_nothing Value.undefined = true
is_nothing Value.null = true
is_nothing _ = false

-- The loop of checkArgs. Only objects have `args`, and they are not `===`.
unfoldable pub args_loop : List Value → List Value → Result Bool
args_loop (a ∷ as_) (b ∷ bs) =
    let rest = args_loop as_ bs in
    if strict_equal a b then (if is_nothing a then err type_error else rest) else ok false
args_loop _ _ = ok true

unfoldable pub check_args : List Value → List Value → Result Bool
check_args a b = if length a == length b then args_loop a b else ok false

-- The test of two contracts in checkIfDiff: whether they differ.
unfoldable pub contracts_differ : ContractBindingMetaData → ContractBinding → Result Bool
contracts_differ old new =
    if not (is_same_bytecode old.bytecode new.bytecode)
    then ok true
    else elim (check_args old.args new.args) [
      | err e ↦ err e
      | ok same ↦
          if not same
          then ok true
          else elim old.deploy_meta_data.contract_address [ none ↦ ok true | some _ ↦ ok false ]
    ]

-- The test of two elements; an `event` is read of what is no pair of contracts.
unfoldable pub elements_differ : FileElement → Element → Result Bool
elements_differ (FileElement.contract old) (Element.contract new) = contracts_differ old new
elements_differ (FileElement.event old) (Element.event new) =
    ok (not (dec_test (name_dec (event_name old.event) (event_name new.event))) && not new.executed)
elements_differ _ _ = err type_error

-- The loop of checkIfDiff.
unfoldable pub diff_loop : ModuleStateFile → ModuleState → Result Bool
diff_loop ((_, old) ∷ olds) ((_, new) ∷ news) = elim (elements_differ old new) [
  | err e ↦ err e
  | ok differ ↦ if differ then ok true else diff_loop olds news
]
diff_loop _ _ = ok false

unfoldable pub check_if_diff : ModuleStateFile → ModuleState → Result Bool
check_if_diff old new = if length old == length new then diff_loop old new else ok true
