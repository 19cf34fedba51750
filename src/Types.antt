-- ===== src/Types.antt =====
-- The data of the program: interfaces/hardhat-ignition.ts (events, bindings and their metadata),
-- services/types/module.ts (module states) and the errors of services/types/errors.ts that the
-- modelled code throws. Paths are below packages/ignition-core/src.
--
-- An object that the program shares by reference (a ContractBinding among the arguments of another)
-- is held by its name. A function value (`fn`, `deployFn`, `shouldRedeploy`) is held by the fact that
-- it is given; what it answers is a parameter of the operation that calls it. The services that are
-- only passed on (signer, prompter and so on) are one flag, `wired`.
use hardhat_ignition.Prelude.{
  ℕ, ◌≡◌, ◌⊎◌, inl, inr, refl, String, Bool, Option, none, some, List, [], ◌∷◌, Dict, ℤ,
}

-- Text that the program walks: its code units.
abbrev pub Text : Type 0
Text = List ℕ

pub data EventType : Type 0 where
  on_change_event before_deploy_event after_deploy_event : EventType
  after_compile_event before_compile_event : EventType
  on_start on_fail on_completion on_success deploy : EventType

pub record BaseEvent : Type 0 where
  pub name : String
  pub event_type : EventType
  pub deps : List String
  pub event_deps : List String
  pub usage : List String
  pub event_usage : List String
  pub module_name : String
  pub sub_module_name_depth : List String

pub record ModuleEvent : Type 0 where
  pub name : String
  pub event_type : EventType

pub record MetaDataEvent : Type 0 where
  pub name : String
  pub event_type : EventType
  pub deps : Option (List String)
  pub event_deps : Option (List String)
  pub usage : Option (List String)
  pub event_usage : Option (List String)

-- `type Event = ContractEvent | ModuleEvent | MetaDataEvent`
pub data Event : Type 0 where
  contract_event : BaseEvent → Event
  module_event : ModuleEvent → Event
  meta_data_event : MetaDataEvent → Event

-- The fields that every event has, and those that some lack (`undefined`).
abbrev pub event_name : Event → String
event_name (contract_event e) = e.name
event_name (module_event e) = e.name
event_name (meta_data_event e) = e.name

abbrev pub event_type_of : Event → EventType
event_type_of (contract_event e) = e.event_type
event_type_of (module_event e) = e.event_type
event_type_of (meta_data_event e) = e.event_type

abbrev pub deps_of : Event → Option (List String)
deps_of (contract_event e) = some e.deps
deps_of (module_event e) = none
deps_of (meta_data_event e) = e.deps

abbrev pub event_deps_of : Event → Option (List String)
event_deps_of (contract_event e) = some e.event_deps
event_deps_of (module_event e) = none
event_deps_of (meta_data_event e) = e.event_deps

abbrev pub usage_of : Event → Option (List String)
usage_of (contract_event e) = some e.usage
usage_of (module_event e) = none
usage_of (meta_data_event e) = e.usage

abbrev pub event_usage_of : Event → Option (List String)
event_usage_of (contract_event e) = some e.event_usage
event_usage_of (module_event e) = none
event_usage_of (meta_data_event e) = e.event_usage

-- A value of type `any`, as it stands among constructor arguments and call inputs.
mutual
  pub data Value : Type 0 where
    undefined null : Value
    bool : Bool → Value
    number : ℤ → Value
    big_number : ℤ → Value
    big_number_json : (hex : Text) → Value
    string : Text → Value
    array : Values → Value
    binding : (name : String) → Value
    meta_data : (name : String) → Value

  pub data Values : Type 0 where
    end : Values
    item : Value → Values → Values

-- A transaction receipt or response, with the fields that the program reads.
pub record Receipt : Type 0 where
  pub transaction_hash : String
  pub contract_address : Option String
  pub gas_used : ℕ

pub record Response : Type 0 where
  pub hash : String
  pub gas_price : ℕ

-- What is pushed to `contractInput`: a call, or the response that replaced it.
pub data ContractInput : Type 0 where
  call : (function_name : String) (inputs : List Value) → ContractInput
  sent : Response → ContractInput

pub record EventTransactionData : Type 0 where
  pub contract_input : List ContractInput
  pub contract_output : List Receipt

pub record StatefulEvent : Type 0 where
  pub event : Event
  pub executed : Bool
  pub tx_data : Dict EventTransactionData

abbrev pub new_stateful_event : Event → Bool → Dict EventTransactionData → StatefulEvent
new_stateful_event event executed tx_data = record {
  event = event;
  executed = executed;
  tx_data = tx_data;
}

pub data TxInput : Type 0 where
  tx_data : (from : String) (input : Option Text) → TxInput
  response : Response → TxInput

pub record TransactionData : Type 0 where
  pub input : Option TxInput
  pub output : Option Receipt

pub record EventsDepRef : Type 0 where
  pub before_compile : List String
  pub after_compile : List String
  pub before_deploy : List String
  pub after_deploy : List String
  pub on_change : List String

-- `deploy_fn`: whether a function is given; `deps`: the names of the bindings.
pub record DeploymentSpec : Type 0 where
  pub deploy_fn : Bool
  pub deps : List String

pub record Deployed : Type 0 where
  pub last_event_name : Option String
  pub logically_deployed : Option Bool
  pub contract_address : Option String
  pub should_redeploy : Bool
  pub deployment_spec : Option DeploymentSpec

pub record JsonFragmentType : Type 0 where
  pub type : Text
  pub internal_type : Option Text

pub record JsonFragment : Type 0 where
  pub is_constructor : Bool
  pub inputs : Option (List JsonFragmentType)

pub record LinkReference : Type 0 where
  pub length : ℕ
  pub start : ℕ

pub record ContractBinding : Type 0 where
  pub name : String
  pub contract_name : String
  pub args : List Value
  pub events_deps : EventsDepRef
  pub deploy_meta_data : Deployed
  pub module_name : String
  pub sub_module_name_depth : List String
  pub bytecode : Text
  pub abi : Option (List JsonFragment)
  pub library : Bool
  pub libraries : Option (Dict (List LinkReference))
  pub tx_data : Option TransactionData
  pub contract_tx_progress : Option ℕ
  pub force_flag : Bool
  pub wired : Bool

pub record ContractBindingMetaData : Type 0 where
  pub name : String
  pub contract_name : String
  pub args : List Value
  pub bytecode : Text
  pub abi : Option (List JsonFragment)
  pub libraries : Option (Dict (List LinkReference))
  pub tx_data : Option TransactionData
  pub deploy_meta_data : Deployed
  pub library : Bool

-- The elements of a module state, and of a module state file.
pub data Element : Type 0 where
  contract : ContractBinding → Element
  event : StatefulEvent → Element

pub data FileElement : Type 0 where
  contract : ContractBindingMetaData → FileElement
  event : StatefulEvent → FileElement

abbrev pub ModuleState : Type 0
ModuleState = Dict Element

abbrev pub ModuleStateFile : Type 0
ModuleStateFile = Dict FileElement

abbrev pub Bindings : Type 0
Bindings = Dict ContractBinding

abbrev pub Events : Type 0
Events = Dict StatefulEvent

-- The errors that the modelled code throws. `type_error` is the one of the language, for a property
-- of `undefined` or an iteration over it; `user_error` is one that a function of the user threw, and
-- `network_error` one of the node; `exited` is `cli.exit`.
pub data Error : Type 0 where
  type_error stack_overflow : Error
  exited : (code : ℕ) → Error
  cli_error : Error
  contract_not_compiled usage_event_not_found : Error
  module_state_mismatch element_mismatch element_name_mismatch event_type_mismatch : Error
  event_dependency_not_deployed event_usage_is_not_deployed : (event dep : String) → Error
  no_contract_binding_data : (binding arg : String) → Error
  bindings_conflict template_not_found : Error
  event_name_exists event_doesnt_exist : (name : String) → Error
  module_is_already_initialized should_redeploy_already_defined : Error
  missing_contract_metadata : (name : String) → Error
  abi_mismatch : (name : String) → Error
  contract_type_mismatch contract_type_unsupported contract_parameter_is_missing : Error
  missing_abi contract_not_deployed argument_length_invalid : Error
  invalid_big_number : Error
  gas_price_backoff : (max_gas_price gas_price : ℕ) → Error
  transaction_failed : Error
  event_execution_error : (name : String) → Error
  user_error network_error denied_confirmation : Error

-- What a function returns, unless it throws.
pub data Result {ℓ} (Value : Type ℓ) : Type ℓ where
  ok : Value → Result Value
  err : (thrown : Error) → Result Value

-- A check throws or passes.
abbrev pub Check : Type 0
Check = Result (Unit {0})

abbrev pub passes : Check
passes = ok tt

-- What follows a call; nothing does when it throws.
infixl 5 ◌>>=◌
abbrev pub ◌>>=◌ {κ μ} :
    {Before : Type κ} {After : Type μ} → Result Before → (Before → Result After) → Result After
err thrown >>= next = err thrown
ok value >>= next = next value

-- The contract that a value refers to: only ContractBinding and ContractBindingMetaData objects have a
-- `bytecode`.
abbrev pub contract_ref : Value → Option String
contract_ref (binding n) = some n
contract_ref (meta_data n) = some n
contract_ref _ = none

-- The names of the contracts among the arguments.
abbrev pub contract_refs : List Value → List String
contract_refs [] = []
contract_refs (binding n ∷ vs) = n ∷ contract_refs vs
contract_refs (meta_data n ∷ vs) = n ∷ contract_refs vs
contract_refs (_ ∷ vs) = contract_refs vs

-- The value, or an error in its absence.
abbrev pub or_fail {ℓ} : {A : Type ℓ} → Option A → Error → Result A
or_fail none e = err e
or_fail (some a) e = ok a

module _ {κ μ} {Before : Type κ} {After : Type μ} where
  pub >>=-eq-ok :
      (call : Result Before) (next : Before → Result After) {after : After}
      → (call >>= next) ≡ ok after
      → (value : Before) × (call ≡ ok value) × (next value ≡ ok after)
  >>=-eq-ok (err thrown) next e = cc
  >>=-eq-ok (ok value) next e = (value, refl, e)

pub or_fail-eq-ok {ℓ} :
    {A : Type ℓ} (o : Option A) (e : Error) {a : A} → or_fail o e ≡ ok a → o ≡ some a
or_fail-eq-ok none e h = cc
or_fail-eq-ok (some a) e h = cc

pub Result-cases {ℓ} :
    {A : Type ℓ} (r : Result A) → ((a : A) × (r ≡ ok a)) ⊎ ((e : Error) × (r ≡ err e))
Result-cases (ok a) = inl (a, refl)
Result-cases (err e) = inr (e, refl)

pub ok-injective {ℓ} : {A : Type ℓ} {a b : A} → ok a ≡ ok b → a ≡ b
ok-injective h = cc
