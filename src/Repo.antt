-- ===== src/Repo.antt =====
-- services/modules/states/repo/state-repo.ts over services/modules/states/module/memory.ts: the stored states.
--
-- A stored state is a copy through JSON (copyValue of services/utils/util.ts): functions are lost, a BigNumber
-- becomes an object with its digits, `hex`, and `undefined` in a list becomes `null`. A binding among
-- arguments has been replaced by its metadata before. The reading functions answer a copy as well.
mod Convert
pub mod Copies
pub mod Reads
pub mod Events
pub mod Finish
mod Tests
unfoldable pub use Convert.*
use hardhat_ignition.Prelude.{
  ℕ, String, Bool, true, false, Option, none, some, List, [], ◌∷◌, ◌++◌, ℤ, Dict, lookup, insert,
  or_else, name_dec, dec_test, not, if◌then◌else◌,
}
use hardhat_ignition.Types.{
  Text, EventType, Event, event_name, event_type_of, deps_of, event_deps_of, usage_of,
  event_usage_of, meta_data_event, StatefulEvent, new_stateful_event, Value, Values, ContractInput,
  EventTransactionData, Receipt, DeploymentSpec, Deployed, ContractBinding, ContractBindingMetaData,
  Element, FileElement, ModuleState, ModuleStateFile, Error, cli_error, type_error, user_error,
}
use hardhat_ignition.Effects.{Eff, return, throw, get, put, run, need, throw_if, ◌>>=◌, ◌>>◌}

-- The store of MemoryModuleState, and the fields of ModuleStateRepo that change.
pub record Repo : Type 0 where
  pub network_name : String
  pub state : Dict (Dict ModuleStateFile)
  pub current_module_name : String
  pub current_event_name : String
  pub test : Bool

-- MemoryModuleState.clear, behind the guard of ModuleStateRepo.clear.
unfoldable pub clear : Eff Repo (Unit {0})
clear = do
  test ← get (λ r. r.test)
  throw_if (not test) cli_error
  put (λ r. record r { state = [] })

-- The modules of the network, none as yet if it is not known.
abbrev pub modules_of : Repo → Dict ModuleStateFile
modules_of r = or_else (lookup r.network_name r.state) []

abbrev pub put_modules : Dict ModuleStateFile → Repo → Repo
put_modules modules r = record r { state = insert r.network_name modules r.state }

-- finishCurrentEvent, up to the two writes: the event of the stored state, which is then `executed`.
-- A contract of that name, which the program would cast to an event, counts as absent.
unfoldable pub finished_event : String → ModuleStateFile → Option StatefulEvent
finished_event name file = elim (lookup name file) [
  | some (FileElement.event e) ↦ some (record e { executed = true })
  | _ ↦ none
]

abbrev pub is_closing : EventType → Bool
is_closing EventType.on_fail = true
is_closing EventType.on_success = true
is_closing EventType.on_completion = true
is_closing _ = false

abbrev pub bare_event : String → EventType → Event
bare_event name type = meta_data_event (record {
  name = name;
  event_type = type;
  deps = none;
  event_deps = none;
  usage = none;
  event_usage = none;
})

abbrev pub no_transactions : EventTransactionData
no_transactions = record { contract_input = []; contract_output = [] }

-- The event under a name in a stored state, and its transactions with a binding.
abbrev pub event_in : String → ModuleStateFile → Option StatefulEvent
event_in name file = elim (lookup name file) [ some (FileElement.event e) ↦ some e | _ ↦ none ]

abbrev pub transactions_in : Option StatefulEvent → String → EventTransactionData
transactions_in none binding = no_transactions
transactions_in (some e) binding = or_else (lookup binding e.tx_data) no_transactions

abbrev pub option_list : {A : Type 0} → Option A → List A
option_list none = []
option_list (some a) = a ∷ []

module _ (hex : ℤ → Text) where
  -- copyValue on a value in a list, and on a list.
  unfoldable mutual
    pub copy_value : Value → Value
    copy_value Value.undefined = Value.null
    copy_value Value.null = Value.null
    copy_value (Value.bool b) = Value.bool b
    copy_value (Value.number n) = Value.number n
    copy_value (Value.big_number n) = Value.big_number_json (hex n)
    copy_value (Value.big_number_json digits) = Value.big_number_json digits
    copy_value (Value.string t) = Value.string t
    copy_value (Value.array vs) = Value.array (copy_items vs)
    copy_value (Value.binding name) = Value.binding name
    copy_value (Value.meta_data name) = Value.meta_data name

    pub copy_items : Values → Values
    copy_items Values.end = Values.end
    copy_items (Values.item v vs) = Values.item (copy_value v) (copy_items vs)

  abbrev pub copy_list : List Value → List Value
  copy_list [] = []
  copy_list (v ∷ vs) = copy_value v ∷ copy_list vs

  abbrev pub copy_input : ContractInput → ContractInput
  copy_input (ContractInput.call name inputs) = ContractInput.call name (copy_list inputs)
  copy_input (ContractInput.sent response) = ContractInput.sent response

  abbrev pub copy_inputs : List ContractInput → List ContractInput
  copy_inputs [] = []
  copy_inputs (i ∷ is) = copy_input i ∷ copy_inputs is

  abbrev pub copy_tx_data : Dict EventTransactionData → Dict EventTransactionData
  copy_tx_data [] = []
  copy_tx_data ((name, d) ∷ rest) =
      (name, record d { contract_input = copy_inputs d.contract_input }) ∷ copy_tx_data rest

  -- Functions are lost.
  abbrev pub copy_spec : Option DeploymentSpec → Option DeploymentSpec
  copy_spec none = none
  copy_spec (some spec) = some (record spec { deploy_fn = false })

  abbrev pub copy_deployed : Deployed → Deployed
  copy_deployed d = record d {
    should_redeploy = false;
    deployment_spec = copy_spec d.deployment_spec;
  }

  unfoldable pub copy_element : FileElement → FileElement
  copy_element (FileElement.contract b) =
      FileElement.contract
        (record b { args = copy_list b.args; deploy_meta_data = copy_deployed b.deploy_meta_data })
  copy_element (FileElement.event e) =
      FileElement.event (record e { tx_data = copy_tx_data e.tx_data })

  unfoldable pub copy_file : ModuleStateFile → ModuleStateFile
  copy_file [] = []
  copy_file ((name, e) ∷ rest) = (name, copy_element e) ∷ copy_file rest

  -- getModuleState: an unknown network or module is entered, empty.
  unfoldable pub get_module_state : String → Repo → ModuleStateFile × Repo
  get_module_state name r = elim (lookup r.network_name r.state) [
    | none ↦ ([], put_modules [] r)
    | some modules ↦ elim (lookup name modules) [
      | none ↦ ([], put_modules (insert name [] modules) r)
      | some file ↦ (copy_file file, r)
    ]
  ]

  -- storeStates, given the conversion of what is stored.
  unfoldable pub store_file : String → ModuleStateFile → Repo → Repo
  store_file name file r = put_modules (insert name (copy_file file) (modules_of r)) r

  -- getStateIfExist
  unfoldable pub get_state_if_exist : String → Eff Repo ModuleStateFile
  get_state_if_exist name = run (get_module_state name)

  -- storeNewState of a live module state, and of one that was read.
  unfoldable pub store_new_state : String → ModuleState → Eff Repo (Unit {0})
  store_new_state name state = put (store_file name (convert_state state))

  unfoldable pub store_read_state : String → ModuleStateFile → Eff Repo (Unit {0})
  store_read_state name file = put (store_file name (convert_file file))

  -- storeSingleBinding
  unfoldable pub store_single_binding : ContractBinding → Eff Repo (Unit {0})
  store_single_binding b = do
    name ← get (λ r. r.current_module_name)
    throw_if (dec_test (name_dec name "")) cli_error
    file ← get_state_if_exist name
    store_read_state name
        (insert b.name (FileElement.contract (convert_binding_to_meta_data b)) file)

  -- finishCurrentEvent: the event is put into the live module state, which is stored under the current
  -- module's name. It answers the live state.
  unfoldable pub finish_current_event :
      (module_name : String) → ModuleState → (event_name : String) → Eff Repo ModuleState
  finish_current_event module_name state name = do
    file ← get_state_if_exist module_name
    e ← need (finished_event name file) cli_error
    current ← get (λ r. r.current_module_name)
    let state' = insert name (Element.event e) state
    store_new_state current state'
    put (λ r. record r { current_event_name = "" })
    return (touch_state state')

  -- finishCurrentModuleEvent
  unfoldable pub finish_current_module_event :
      (module_name : String)
      → ModuleState
      → EventType
      → (event_name : String) → Eff Repo ModuleState
  finish_current_module_event module_name state type name = do
    file ← get_state_if_exist module_name
    e ←
        need
          (if is_closing type
            then some (new_stateful_event (bare_event name type) true [])
            else finished_event name file)
          cli_error
    current ← get (λ r. r.current_module_name)
    let state' = insert name (Element.event e) state
    store_new_state current state'
    put (λ r. record r { current_event_name = "" })
    return (touch_state state')

  -- getEventTransactionData, of a given event.
  unfoldable pub get_event_transaction_data :
      (binding event_name : String) → Eff Repo EventTransactionData
  get_event_transaction_data binding name = do
    current ← get (λ r. r.current_module_name)
    throw_if (dec_test (name_dec current "")) cli_error
    file ← get_state_if_exist current
    return (transactions_in (event_in name file) binding)

  -- storeEventTransactionData, of a given event; an event that is not there is a deployment of its own.
  -- A contract of that name counts as absent, as above.
  unfoldable pub store_event_transaction_data :
      (binding : String)
      → Option ContractInput
      → Option Receipt
      → (event_name : String) → Eff Repo (Unit {0})
  store_event_transaction_data binding input output name = do
    current ← get (λ r. r.current_module_name)
    throw_if (dec_test (name_dec current "")) cli_error
    file ← get_state_if_exist current
    let e =
        or_else (event_in name file)
          (new_stateful_event (bare_event name EventType.deploy) false [])
    let old = or_else (lookup binding e.tx_data) no_transactions
    let grown : EventTransactionData = record {
      contract_input = old.contract_input ++ option_list input;
      contract_output = old.contract_output ++ option_list output;
    }
    store_read_state current (
        insert name (FileElement.event (record e { tx_data = insert binding grown e.tx_data }))
          file)
