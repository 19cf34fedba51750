-- ===== src/Execution/Constructor.antt =====
-- Execution: the values that a constructor is called with, as _executeSingleBinding collects them.
use hardhat_ignition.Prelude.{
  String, Bool, false, ◌||◌, Option, none, some, List, [], ◌∷◌, ◌++◌, ℤ, lookup, or_else,
  if◌then◌else◌,
}
use hardhat_ignition.Types.{
  Text, JsonFragment, JsonFragmentType, Value, TransactionData, Element, ModuleState, Result, ok,
  err, or_fail, type_error, contract_type_unsupported, contract_type_mismatch,
}
use hardhat_ignition.Effects.{Eff}
use hardhat_ignition.Checker.{same_text, bytes_text, address_text, contract_text}

-- The inputs of the first constructor that has some.
unfoldable pub first_constructor : List JsonFragment → List JsonFragmentType
first_constructor [] = []
first_constructor (f ∷ fs) =
    let rest = first_constructor fs in if f.is_constructor then or_else f.inputs rest else rest

-- What is given to the encoder: a value, or the bytes of a text (Buffer.from).
pub data AbiValue : Type 0 where
  plain : Value → AbiValue
  buffer : Text → AbiValue

abbrev pub known_address : Option TransactionData → (address : Option String) → Result String
known_address none address = err contract_type_mismatch
known_address (some t) address = elim t.input [
  | none ↦ err contract_type_mismatch
  | some _ ↦ or_fail address contract_type_mismatch
]

abbrev pub element_address : Option Element → Result String
element_address none = err type_error
element_address (some (Element.event e)) = elim (lookup "input" e.tx_data) [
  | none ↦ err contract_type_mismatch
  | some _ ↦ err type_error
]
element_address (some (Element.contract b)) =
    known_address b.tx_data b.deploy_meta_data.contract_address

-- The address of a contract among the arguments.
unfoldable pub dependency_address : ModuleState → String → Result String
dependency_address state name = element_address (lookup name state)

module _ (parse : Text → Result ℤ) (print : ℤ → Text) (read : String → Text) where
  -- Whether a contract of this name may stand for the input.
  abbrev pub fits : String → JsonFragmentType → Bool
  fits name input =
      (elim input.internal_type [
        | none ↦ false
        | some type ↦ same_text (contract_text ++ read name) type
      ])
      || same_text address_text input.type

  abbrev pub contract_value : ModuleState → String → JsonFragmentType → Result AbiValue
  contract_value state name input =
      if fits name input
      then elim (dependency_address state name) [
        | ok address ↦ ok (plain (Value.string (read address)))
        | err e ↦ err e
      ]
      else err contract_type_mismatch

  -- The `switch` over the type of an argument.
  unfoldable pub constructor_value : ModuleState → Value → JsonFragmentType → Result AbiValue
  constructor_value state Value.undefined input = err contract_type_unsupported
  constructor_value state Value.null input = err type_error
  constructor_value state (Value.bool b) input = ok (plain (Value.bool b))
  constructor_value state (Value.number n) input = ok (plain (Value.number n))
  constructor_value state (Value.big_number n) input = ok (plain (Value.string (print n)))
  constructor_value state (Value.big_number_json digits) input = elim (parse digits) [
    | ok n ↦ ok (plain (Value.string (print n)))
    | err e ↦ err e
  ]
  constructor_value state (Value.string t) input =
      ok (if same_text bytes_text input.type then buffer t else plain (Value.string t))
  constructor_value state (Value.array vs) input = ok (plain (Value.array vs))
  constructor_value state (Value.binding name) input = contract_value state name input
  constructor_value state (Value.meta_data name) input = contract_value state name input

  -- `binding.args[i] = dependencyName`
  unfoldable pub replaced : Value → JsonFragmentType → Value
  replaced (Value.binding name) input =
      if fits name input then Value.string (read name) else Value.binding name
  replaced (Value.meta_data name) input =
      if fits name input then Value.string (read name) else Value.meta_data name
  replaced value input = value

  -- The loop over the constructor's inputs, with the arguments that it leaves.
  unfoldable pub constructor_values :
      ModuleState → List JsonFragmentType → Eff (List Value) (List AbiValue)
  constructor_values state [] args = (ok [], args)
  constructor_values state (input ∷ inputs) [] = (err contract_type_unsupported, [])
  constructor_values state (input ∷ inputs) (v ∷ vs) =
      let (rest, vs') = constructor_values state inputs vs in
      elim (constructor_value state v input) [
        | err e ↦ (err e, replaced v input ∷ vs)
        | ok x ↦ (elim rest [ ok xs ↦ ok (x ∷ xs) | err e ↦ err e ], replaced v input ∷ vs')
      ]
