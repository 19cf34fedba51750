-- ===== src/Execution/Tests.antt =====
-- Execution: a token that is deployed, and an exchange that takes its address.
use hardhat_ignition.Prelude.{
  ◌≡◌, refl, ℤ, String, true, none, some, [], ◌∷◌, All, length, take, lookup, insert, name_dec,
  names_differ,
}
use hardhat_ignition.Types.{
  Text, missing_abi, JsonFragmentType, Value, contract_refs, Response, TxInput, TransactionData,
  StatefulEvent, ContractBinding, Element, ModuleState, Result, ok, err, network_error,
  invalid_big_number,
}
use hardhat_ignition.Effects.{return}
use hardhat_ignition.Samples.{exchange, token, set_up, pending}
use hardhat_ignition.Checker.{address_text, same_text, starts_with}
use hardhat_ignition.Repo.{
  convert_event, convert_file, copy_value, copy_items, copy_element, copy_file, get_module_state,
  store_file, get_state_if_exist, store_read_state, store_single_binding, store_new_state,
  touch_state,
}
use hardhat_ignition.Handler.{World, store_dependency}
use hardhat_ignition.Handler.Runs.{HasAddress}
use hardhat_ignition.Execution.{
  Outside, plain, dependency_address, constructor_value, constructor_values, replaced,
  send_and_wait, send_transaction, record_response, record_receipt, await_transaction,
  execute_contract, execute_element, execute_sync, execute_single_binding, execute,
}
use hardhat_ignition.Execution.Failure.{
  fail_event, on_fail_start, after_hook, execute_or_fail, execute_or_fail-runs,
}
use hardhat_ignition.Execution.Values.{constructor_values-deployed}
use hardhat_ignition.Execution.Stored.{IsRecorded}
use hardhat_ignition.Execution.Sending.{send_and_wait-IsRecorded}
use hardhat_ignition.Execution.Settled.{address_in, IsSettled, execute_sync-IsSettled}

program : Unit {0}
unfolding lookup insert name_dec HasAddress dependency_address constructor_value constructor_values
    replaced execute_contract execute_element execute_sync IsSettled
program = tt

abbrev hex : ℤ → Text
hex n = []

abbrev code : String → Text
code name = address_text

abbrev no_number : Text → Result ℤ
no_number t = err invalid_big_number

abbrev fresh : TransactionData
fresh = record { input = some (TxInput.tx_data "0x9" none); output = none }

abbrev deployed_token : ContractBinding
deployed_token = record token {
  tx_data = some fresh;
  deploy_meta_data = record token.deploy_meta_data { contract_address = some "0x1" };
}

abbrev fresh_exchange : ContractBinding
fresh_exchange = record exchange { tx_data = some fresh }

abbrev live : ModuleState
live =
    ("Token", Element.contract deployed_token) ∷ ("Exchange", Element.contract fresh_exchange) ∷ []

abbrev address_input : JsonFragmentType
address_input = record { type = address_text; internal_type = none }

constructor_values-deployed_example :
    (1 ≡ length (address_input ∷ []))
    × All
        (λ n. HasAddress (lookup n live))
        (contract_refs (take (length (address_input ∷ [])) exchange.args))
unfolding program same_text starts_with
constructor_values-deployed_example =
    constructor_values-deployed no_number hex code live (address_input ∷ []) exchange.args
      (plain (Value.string address_text) ∷ []) (Value.string address_text ∷ []) refl

abbrev response : Response
response = record { hash = "0x5"; gas_price = 7 }

-- A node that accepts everything and confirms nothing.
abbrev outside : Outside
outside = record {
  hex = hex;
  parse = no_number;
  print = hex;
  read = code;
  encode = λ types values. ok [];
  backoff = none;
  prices = λ i. 7;
  address = "0x9";
  estimate = λ call. ok 100;
  signer = λ name. none;
  count = λ sent name. 0;
  sign = λ request. [];
  send = λ sent signed. ok response;
  wait = λ r n. err network_error;
  hook = λ name. return tt;
  deploy_fn = λ name. return none;
  confirmations = 3;
  skip_confirmation = true;
  answer_continue = λ key sent. "";
  answer_execute = λ key sent. "";
  config = none;
}

abbrev world : ModuleState → World
world state = record {
  repo = record {
    network_name = "local";
    state = [];
    current_module_name = "Shop";
    current_event_name = "";
    test = true;
  };
  live = state;
  nonces = [];
  sent = [];
}

send_and_wait-IsRecorded_example :
    ((send_and_wait outside "Exchange" (1 ∷ []) (world live)).1.sent ≡ (1 ∷ []) ∷ [])
    × IsRecorded response (
        lookup "Exchange"
          (get_module_state hex "Shop"
            (send_and_wait outside "Exchange" (1 ∷ []) (world live)).1.repo).0)
unfolding program
send_and_wait-IsRecorded_example =
    send_and_wait-IsRecorded outside "Exchange" (1 ∷ []) response fresh_exchange fresh (world live)
      (names_differ "Shop" "" refl) refl refl refl

-- The wait throws there.
send_and_wait-throws :
    (send_and_wait outside "Exchange" (1 ∷ []) (world live)).0 ≡ err network_error
unfolding lookup insert name_dec convert_event convert_file copy_value copy_items copy_element
    copy_file get_module_state store_file get_state_if_exist store_read_state store_single_binding
    store_dependency send_and_wait send_transaction record_response record_receipt await_transaction
send_and_wait-throws = refl

abbrev done_event : StatefulEvent
done_event = record (pending set_up) { executed = true }

abbrev settled : ModuleState
settled = ("Token", Element.contract deployed_token) ∷ ("setUp", Element.event done_event) ∷ []

execute_sync-IsSettled_example :
    ((execute_sync outside "Shop" settled (world settled)).1.sent ≡ [])
    × ((key address : String)
        → address_in (lookup key settled) ≡ some address
        → address_in (lookup key (execute_sync outside "Shop" settled (world settled)).1.live)
          ≡ some address)
    × All (IsSettled (execute_sync outside "Shop" settled (world settled)).1) settled
unfolding program
execute_sync-IsSettled_example =
    execute_sync-IsSettled outside "Shop" settled (world settled)
      ((deployed_token, refl, "0x1", refl), ((refl, (done_event, refl, refl)), tt))

-- An exchange that was never compiled.
abbrev failing : ModuleState
failing = ("Exchange", Element.contract (record fresh_exchange { abi = none })) ∷ []

execute_or_fail-runs_example :
    execute_or_fail outside "Shop" (("stop", fail_event "stop") ∷ []) (world failing)
    ≡ after_hook outside "Shop" missing_abi "stop"
        (ok tt, on_fail_start "stop" (execute outside "Shop" (world failing)).1)
unfolding program execute execute_single_binding convert_event convert_file copy_value copy_items
    copy_element copy_file get_module_state store_file get_state_if_exist store_read_state
    store_single_binding store_new_state touch_state
execute_or_fail-runs_example =
    execute_or_fail-runs outside "Shop" "stop" (world failing)
      (execute outside "Shop" (world failing)).1 missing_abi refl refl
