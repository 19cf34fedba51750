-- ===== src/Instance/Tests.antt =====
-- Instance: a hook with two calls of a token, of which the first was sent in an earlier run.
use hardhat_ignition.Prelude.{
  some, ◌≡◌, refl, ℕ, ℤ, String, true, none, List, [], ◌∷◌, lookup, insert, name_dec, arith,
}
use hardhat_ignition.Types.{
  ContractBinding, Text, Value, Response, Receipt, Element, FileElement, Result, ok, err,
  invalid_big_number,
}
use hardhat_ignition.Effects.{return}
use hardhat_ignition.Samples.{token, set_up, pending}
use hardhat_ignition.Repo.{
  convert_event, convert_file, copy_value, copy_items, copy_element, copy_file, get_module_state,
  store_file, get_state_if_exist, store_read_state, get_event_transaction_data,
  store_event_transaction_data,
}
use hardhat_ignition.Handler.{World}
use hardhat_ignition.Execution.{prompted, Outside}
use hardhat_ignition.Transactions.{
  fetch_tx_data, get_and_increment, known_nonce, first_nonce, fetch_backoff_gas_price,
}
use hardhat_ignition.Instance.{
  format_args, earlier_receipt, wrapped_function, receipt_of, call_function, send_call, send_new,
}
use hardhat_ignition.Prelude.{All, length}
use hardhat_ignition.Instance.Level.{Accepts, IsFitting, IsLevel, call_each-sends_every}
use hardhat_ignition.Instance.Ahead.{IsAhead, call_each, call_each-sends_nothing}

program : Unit {0}
unfolding lookup insert name_dec convert_event convert_file copy_value copy_items copy_element
    copy_file get_module_state store_file get_state_if_exist store_read_state
    get_event_transaction_data store_event_transaction_data format_args earlier_receipt
    wrapped_function receipt_of call_function send_call send_new IsAhead fetch_tx_data
    get_and_increment known_nonce first_nonce fetch_backoff_gas_price
program = tt

abbrev hex : ℤ → Text
hex n = []

abbrev no_number : Text → Result ℤ
no_number t = err invalid_big_number

abbrev response : Response
response = record { hash = "0x5"; gas_price = 7 }

abbrev receipt : Receipt
receipt = record { transaction_hash = "0x5"; contract_address = none; gas_used = 21 }

abbrev outside : Outside
outside = record {
  hex = hex;
  parse = no_number;
  print = hex;
  read = λ name. [];
  encode = λ types values. ok [];
  backoff = none;
  prices = λ i. 7;
  address = "0x9";
  estimate = λ call. ok 100;
  signer = λ name. none;
  count = λ sent name. 0;
  sign = λ request. [];
  send = λ sent signed. ok response;
  wait = λ r n. ok receipt;
  hook = λ name. return tt;
  deploy_fn = λ name. return none;
  confirmations = 3;
  skip_confirmation = true;
  answer_continue = λ key sent. "";
  answer_execute = λ key sent. "";
  config = none;
}

abbrev data_of : String → String → List Value → ℕ → ℕ → Text
data_of binding name args gas_price nonce = nonce ∷ []

-- A contract with an address, which a call takes.
abbrev coin : ContractBinding
coin = record token {
  name = "Coin";
  deploy_meta_data = record token.deploy_meta_data { contract_address = some "0x1" };
}

abbrev world : List Receipt → World
world receipts = record {
  repo = record {
    network_name = "local";
    state =
        (
          "local",
          (
            "Shop",
            (
              "setUp",
              FileElement.event (record (pending set_up) {
                tx_data =
                    ("Token", record { contract_input = []; contract_output = receipts }) ∷ [];
              }),
            )
                ∷ [],
          )
              ∷ [],
        )
        ∷ [];
    current_module_name = "Shop";
    current_event_name = "setUp";
    test = true;
  };
  live = ("Token", Element.contract token) ∷ ("Coin", Element.contract coin) ∷ [];
  nonces = [];
  sent = [];
}

abbrev two_calls : List (String × ℕ × List Value)
two_calls = ("mint", 1, Value.binding "Coin" ∷ []) ∷ ("open", 0, []) ∷ []

-- In a first run, both calls are sent.
first_run :
    (call_each outside data_of "setUp" "Token" two_calls (world [])).1.sent
    ≡ (0 ∷ []) ∷ (1 ∷ []) ∷ []
unfolding program prompted
first_run = refl

-- In a run after the first call, the second is not sent, and the hook goes on.
second_run : (call_each outside data_of "setUp" "Token" two_calls (world (receipt ∷ []))).0 ≡ ok tt
unfolding program
second_run = refl

call_each-sends_nothing_example :
    ((call_each outside data_of "setUp" "Token" two_calls (world (receipt ∷ []))).1.sent ≡ [])
    × IsAhead outside data_of "setUp" "Token"
        (call_each outside data_of "setUp" "Token" two_calls (world (receipt ∷ []))).1
unfolding program
call_each-sends_nothing_example =
    call_each-sends_nothing outside data_of "setUp" "Token" two_calls (world (receipt ∷ [])) (
      token,
      record { contract_input = []; contract_output = receipt ∷ [] },
      refl,
      refl,
      omega arith,
    )

accepting : Accepts outside data_of "setUp" "Token"
unfolding program Accepts prompted
accepting = (refl, (λ sent. refl), (λ sent t. (response, refl)), λ r n. (receipt, refl))

fitting : All (IsFitting outside data_of "setUp" "Token" (world []).live) two_calls
unfolding program IsFitting
fitting = ((refl, (_, refl)), ((refl, (_, refl)), tt))

call_each-sends_every_example :
    ((call_each outside data_of "setUp" "Token" two_calls (world [])).0 ≡ ok tt)
    × (length (call_each outside data_of "setUp" "Token" two_calls (world [])).1.sent ≡ 2)
    × IsLevel outside data_of "setUp" "Token"
        (call_each outside data_of "setUp" "Token" two_calls (world [])).1
unfolding program IsLevel
call_each-sends_every_example =
    call_each-sends_every outside data_of "setUp" "Token" two_calls (world []) accepting fitting
      (token, record { contract_input = []; contract_output = [] }, refl, refl, refl)
