-- ===== src/Execution.antt =====
-- services/ethereum/transactions/executor.ts: _executeSync with the deployment of a single contract, and the
-- sending of its transaction (_executeSingleBinding, _sendTransaction and _sendTransactionAndWait).
--
-- Arguments are what the program takes from elsewhere: the hooks, the functions of custom deployments, the node
-- (`send` and `wait`), the encoder of constructor arguments, the signature, what the user types at a prompt, and what the generator asks for.
-- A contract is changed where the live module state holds it, under its key. Log output is left out.
mod Constructor
pub mod Values
pub mod Stored
pub mod Sending
pub mod Settled
pub mod Failure
mod Tests
unfoldable pub use Constructor.*
use Prim.Native.String.{◌++◌ as append_name}
use hardhat_ignition.Prelude.{
  ℕ, zero, suc, ◌-◌, String, Bool, true, false, not, ◌||◌, Option, none, some, List, [], ◌∷◌, ◌++◌,
  ℤ, drop, Dict, lookup, insert, or_else, if◌then◌else◌, ite, name_dec,
}
use hardhat_ignition.Types.{
  Text, JsonFragment, JsonFragmentType, Value, Response, Receipt, TxInput, TransactionData,
  StatefulEvent, ContractBinding, Deployed, Element, ModuleState, Result, ok, err, Error, or_fail,
  type_error, missing_abi, denied_confirmation, Check, passes, contract_type_unsupported,
  contract_type_mismatch, transaction_failed,
}
use hardhat_ignition.Effects.{Eff, return, get, put, lift, need, each, ◌>>=◌, ◌>>◌}
use hardhat_ignition.Checker.{same_text, bytes_text, address_text, contract_text}
use hardhat_ignition.Transactions.{
  NonceMap, TransactionRequest, GasPriceBackoff, generate_signed_tx, has_deploy_fn,
  add_library_addresses,
}
use hardhat_ignition.Repo.{Repo, convert_state, touch_state, touch_binding, store_new_state}
use hardhat_ignition.Handler.{
  World, on_repo, set_live, finish_event, store_dependency, execute_event,
}

-- What the program takes from elsewhere. `signer` is the address of a binding's own signer; `count` is what
-- the node answers for the transactions of an address; `config` is moduleConfig with its `contract`.
pub record Outside : Type 0 where
  pub hex : ℤ → Text
  pub parse : Text → Result ℤ
  pub print : ℤ → Text
  pub read : String → Text
  pub encode : List Text → List AbiValue → Result Text
  pub backoff : Option GasPriceBackoff
  pub prices : ℕ → ℕ
  pub address : String
  pub estimate : Text → Result ℕ
  pub signer : String → Option String
  pub count : (sent : List Text) → String → ℕ
  pub sign : TransactionRequest × String → Text
  pub send : (sent : List Text) → Text → Result Response
  pub wait : Response → (confirmations : ℕ) → Result Receipt
  pub hook : String → Eff World (Unit {0})
  pub deploy_fn : String → Eff World (Option String)
  pub confirmations : ℕ
  pub skip_confirmation : Bool
  pub answer_continue : (key : String) → (sent : List Text) → String
  pub answer_execute : (key : String) → (sent : List Text) → String
  pub config : Option (Option (Dict Bool))

abbrev pub contract_in : Option Element → Option ContractBinding
contract_in (some (Element.contract b)) = some b
contract_in _ = none

-- The contract that the live module state holds under a key.
abbrev pub current : String → Eff World ContractBinding
current key = do e ← get (λ w. lookup key w.live); need (contract_in e) type_error

abbrev pub update : String → (ContractBinding → ContractBinding) → Eff World (Unit {0})
update key change = do b ← current key; put (set_live key (Element.contract (change b)))

abbrev pub set_args : List Value → ContractBinding → ContractBinding
set_args args b = record b { args = args }

-- `txData.input = …` and `txData.output = …`
abbrev pub set_input : Response → TransactionData → ContractBinding → ContractBinding
set_input response t b = record b {
  tx_data = some (record t { input = some (TxInput.response response) });
}

abbrev pub set_output : Receipt → TransactionData → ContractBinding → ContractBinding
set_output receipt t b = record b { tx_data = some (record t { output = some receipt }) }

-- `if (!checkIfExist(lastEventName)) logicallyDeployed = true`
abbrev pub set_logically : Deployed → Deployed
set_logically d = elim d.last_event_name [
  | none ↦ record d { logically_deployed = some true }
  | some _ ↦ d
]

abbrev pub set_address : Option String → ContractBinding → ContractBinding
set_address address b = record b {
  deploy_meta_data = set_logically (record b.deploy_meta_data { contract_address = address });
}

-- `if (txData?.output?.contractAddress !== undefined) contractAddress = …`
abbrev pub receipt_address : Option TransactionData → Option String → Option String
receipt_address none old = old
receipt_address (some t) old = elim t.output [
  | none ↦ old
  | some receipt ↦ elim receipt.contract_address [ none ↦ old | some address ↦ some address ]
]

abbrev pub take_address : ContractBinding → ContractBinding
take_address b = set_address (receipt_address b.tx_data b.deploy_meta_data.contract_address) b

-- Whether the module configuration keeps a contract from being deployed.
abbrev pub is_excluded : Option (Option (Dict Bool)) → String → Bool
is_excluded none name = false
is_excluded (some none) name = false
is_excluded (some (some contracts)) name = elim (lookup name contracts) [
  | none ↦ false
  | some deploy ↦ not deploy
]

abbrev pub types_of : List JsonFragmentType → List Text
types_of [] = []
types_of (input ∷ inputs) = input.type ∷ types_of inputs

-- promptContinueDeployment and promptExecuteTx of StreamlinedLogger, for what the user has typed.
unfoldable pub prompted : (skip_confirmation : Bool) → (typed : String) → Check
prompted skip_confirmation typed =
    if skip_confirmation then passes else ite (name_dec typed "n") (err denied_confirmation) passes

module _ (o : Outside) where
  abbrev pub prompt_continue : (key : String) → Eff World (Unit {0})
  prompt_continue key w = (prompted o.skip_confirmation (o.answer_continue key w.sent), w)

  abbrev pub prompt_execute : (key : String) → Eff World (Unit {0})
  prompt_execute key w = (prompted o.skip_confirmation (o.answer_execute key w.sent), w)

  -- storeSingleBinding of the contract under a key.
  abbrev pub store : String → Eff World (Unit {0})
  store key = store_dependency o.hex key

  -- _sendTransaction: what the node accepts is sent. An error of the node is one with `error.message`; with
  -- another, the promise is never settled.
  unfoldable pub send_transaction : Text → Eff World Response
  send_transaction signed w = elim (o.send w.sent signed) [
    | ok response ↦ (ok response, record w { sent = w.sent ++ signed ∷ [] })
    | err e ↦ (err transaction_failed, w)
  ]

  abbrev pub tx_of : String → Eff World TransactionData
  tx_of key = do b ← current key; need b.tx_data type_error

  -- `txData.input = response`, and the same for `output`, each stored.
  unfoldable pub record_response : String → Response → Eff World (Unit {0})
  record_response key response = do t ← tx_of key; update key (set_input response t); store key

  unfoldable pub record_receipt : String → Receipt → Eff World (Unit {0})
  record_receipt key receipt = do t ← tx_of key; update key (set_output receipt t); store key

  -- The loop over the confirmations, as of the i-th, with the number of its rounds.
  unfoldable pub confirm : Response → (i rounds : ℕ) → Eff World (Unit {0})
  confirm response i zero = return tt
  confirm response i (suc rounds) = do lift (o.wait response i); confirm response (suc i) rounds

  -- _sendTransactionAndWait, behind the sending.
  unfoldable pub await_transaction : String → Response → Eff World Receipt
  await_transaction key response = do
    first ← lift (o.wait response 1)
    record_receipt key first
    confirm response 2 (o.confirmations - 2)
    receipt ← lift (o.wait response o.confirmations)
    record_receipt key receipt
    return receipt

  unfoldable pub send_and_wait : String → Text → Eff World Receipt
  send_and_wait key signed = do
    response ← send_transaction signed
    record_response key response
    await_transaction key response

  -- generateSingedTx with the nonces of the world.
  unfoldable pub generate : (call_data : Text) → (signer : Option String) → Eff World Text
  generate call_data signer w =
      elim (generate_signed_tx o.backoff o.prices o.address (o.estimate call_data) 0 call_data
        signer (o.count w.sent (or_else signer o.address)) w.nonces) [
          | ok (request, nonces) ↦ (ok (o.sign request), record w { nonces = nonces })
          | err e ↦ (err e, w)
        ]

  -- The custom deployment of _executeSingleBinding.
  unfoldable pub deploy_custom : (module_name key : String) → Eff World (Unit {0})
  deploy_custom module_name key = do
    b ← current key
    let event = append_name "Deploy" b.name
    put (λ w. record w { repo = record w.repo { current_event_name = event } })
    address ← o.deploy_fn b.name
    finish_event o.hex module_name event
    update key (set_address address)

  -- The other branch.
  unfoldable pub deploy_plain : (key : String) → List JsonFragment → Eff World (Unit {0})
  deploy_plain key abi = do
    b ← current key
    state ← get (λ w. w.live)
    let inputs = first_constructor abi
    let (result, args) = constructor_values o.parse o.print o.read state inputs b.args
    update key (set_args args)
    values ← lift result
    encoded ← lift (o.encode (types_of inputs) values)
    linked ← lift (add_library_addresses o.read (b.bytecode ++ drop 2 encoded) b.libraries state)
    signed ← generate linked (o.signer b.name)
    prompt_execute key
    receipt ← send_and_wait key signed
    t ← tx_of key
    update key (set_output receipt t)

  -- _executeSingleBinding
  unfoldable pub execute_single_binding : (module_name key : String) → Eff World (Unit {0})
  execute_single_binding module_name key = do
    b ← current key
    abi ← need b.abi missing_abi
    if has_deploy_fn b then deploy_custom module_name key else deploy_plain key abi

  -- The body of _executeSync for a contract.
  unfoldable pub execute_contract : (module_name key : String) → Eff World (Unit {0})
  execute_contract module_name key = do
    b ← current key
    elim b.deploy_meta_data.contract_address [
      | some _ ↦ prompt_continue key
      | none ↦
          if is_excluded o.config b.name
          then return tt
          else do execute_single_binding module_name key; update key take_address; store key
    ]

  unfoldable pub execute_element : (module_name : String) → String × Element → Eff World (Unit {0})
  execute_element module_name (key, Element.contract b) = execute_contract module_name key
  execute_element module_name (key, Element.event e) = execute_event o.hex o.hook module_name e

  -- _executeSync
  unfoldable pub execute_sync : (module_name : String) → ModuleState → Eff World (Unit {0})
  execute_sync module_name entries = each (execute_element module_name) entries

  -- `execute` without parallelization: everything is stored first.
  unfoldable pub execute : (module_name : String) → Eff World (Unit {0})
  execute module_name = do
    state ← get (λ w. w.live)
    on_repo (store_new_state o.hex module_name state)
    put (λ w. record w { live = touch_state state })
    execute_sync module_name (touch_state state)
