-- ===== src/Instance.antt =====
-- ContractInstance of interfaces/hardhat-ignition.ts, and services/ethereum/transactions/event-executor.ts: the call
-- of a contract's function within a hook.
--
-- Calls run one at a time, so that `_rootEvents` has no other entry and the sender's mutex is free. A receipt that is
-- read from the stored state has its `confirmations`. The contract stands under its key in the live module state.
-- Log output and what is done with the overrides of a call, but for their position, are left out.
pub mod Ahead
pub mod Level
mod Tests
use hardhat_ignition.Prelude.{
  ℕ, suc, ◌+◌, ltb, ◌==◌, String, Bool, true, false, ◌&&◌, ◌||◌, Option, none, some, List, [], ◌∷◌,
  ◌++◌, length, take, get_elem?, lookup, or_else, if◌then◌else◌,
}
use hardhat_ignition.Types.{
  Text, Value, Response, Receipt, ContractInput, EventTransactionData, ContractBinding, Element,
  ModuleState, Result, ok, err, contract_not_deployed, argument_length_invalid,
}
use hardhat_ignition.Effects.{Eff, return, get, put, lift, throw_if, ◌>>=◌, ◌>>◌}
use hardhat_ignition.Repo.{get_event_transaction_data, store_event_transaction_data}
use hardhat_ignition.Compare.{check_if_same_inputs}
use hardhat_ignition.Transactions.{fetch_tx_data}
use hardhat_ignition.Handler.{World, on_repo}
use hardhat_ignition.Execution.{Outside, current, update, prompt_execute}

-- What a call of the wrapped function answers: a receipt of an earlier run, or a response of the node.
pub data Answer : Type 0 where
  recorded : Receipt → Answer
  answered : Response → Answer

-- The address of a contract among the arguments; it is none of these without.
abbrev pub format_contract : (read : String → Text) → Option Element → Value → Result Value
format_contract read (some (Element.contract b)) v = elim b.deploy_meta_data.contract_address [
  | none ↦ err contract_not_deployed
  | some address ↦ ok (Value.string (read address))
]
format_contract read _ v = ok v

abbrev pub format_arg : (read : String → Text) → ModuleState → Value → Result Value
format_arg read state (Value.binding name) =
    format_contract read (lookup name state) (Value.binding name)
format_arg read state (Value.meta_data name) =
    format_contract read (lookup name state) (Value.meta_data name)
format_arg read state v = ok v

abbrev pub cons_result : Result Value → Result (List Value) → Result (List Value)
cons_result (err e) rest = err e
cons_result (ok v) (err e) = err e
cons_result (ok v) (ok vs) = ok (v ∷ vs)

-- _formatArgs
unfoldable pub format_args : (read : String → Text) → ModuleState → List Value → Result (List Value)
format_args read state [] = ok []
format_args read state (v ∷ vs) = cons_result (format_arg read state v) (format_args read state vs)

-- `checkIfSameInputs(currentInputs, …)`, for an input that exists. A response has no function name.
abbrev pub is_same_input : Option ContractInput → (name : String) → List Value → Bool
is_same_input (some (ContractInput.call function_name inputs)) name args =
    check_if_same_inputs function_name inputs name args
is_same_input _ name args = false

abbrev pub progress_of : ContractBinding → ℕ
progress_of b = or_else b.contract_tx_progress 0

-- `contractTxProgress = …`
abbrev pub set_progress : ℕ → ContractBinding → ContractBinding
set_progress n b = record b { contract_tx_progress = some n }

-- A receipt that stands for the call: one under the iterator, or one with the same inputs.
unfoldable pub earlier_receipt :
    EventTransactionData → ℕ → (name : String) → List Value → Option Receipt
earlier_receipt d i name args =
    if ltb i (length d.contract_output) || is_same_input (get_elem? d.contract_input i) name args
    then get_elem? d.contract_output i
    else none

-- `overrides = funcArgs.pop()`
abbrev pub without_overrides : (inputs : ℕ) → List Value → List Value
without_overrides inputs args = if length args == inputs + 1 then take inputs args else args

module _ (o : Outside)
    (data_of : (binding name : String) → List Value → (gas_price nonce : ℕ) → Text)
    (event key : String) where
  -- The call of the ethers contract, whose data is an argument; what the node accepts is sent.
  unfoldable pub send_call : String → List Value → ContractBinding → Eff World Response
  send_call name args b w =
      let who = or_else (o.signer b.name) o.address in
      elim (fetch_tx_data o.backoff o.prices who (o.count w.sent who) w.nonces) [
        | err e ↦ (err e, w)
        | ok ((gas_price, nonce), nonces) ↦
            let call = data_of b.name name args gas_price nonce in
            elim (o.send w.sent call) [
              | err e ↦ (err e, record w { nonces = nonces })
              | ok response ↦
                  (ok response, record w { nonces = nonces; sent = w.sent ++ call ∷ [] })
            ]
      ]

  -- A call that is not known yet.
  unfoldable pub send_new : String → List Value → ContractBinding → Eff World Answer
  send_new name args b = do
    prompt_execute o key
    response ← send_call name args b
    on_repo
        (store_event_transaction_data o.hex b.name (some (ContractInput.sent response)) none event)
    update key (set_progress (suc (progress_of b)))
    return (answered response)

  -- An earlier receipt is answered, and counts as a call.
  abbrev pub answer_call : Option Receipt → String → List Value → ContractBinding → Eff World Answer
  answer_call none name args b = send_new name args b
  answer_call (some receipt) name args b =
      update key (set_progress (suc (progress_of b))) >> return (recorded receipt)

  -- The inner function of _buildDefaultWrapper.
  unfoldable pub wrapped_function : (name : String) → (inputs : ℕ) → List Value → Eff World Answer
  wrapped_function name inputs given = do
    throw_if (ltb (inputs + 1) (length given) || ltb (length given) inputs) argument_length_invalid
    state ← get (λ w. w.live)
    args ← lift (format_args o.read state (without_overrides inputs given))
    b ← current key
    d ← on_repo (get_event_transaction_data o.hex b.name event)
    answer_call (earlier_receipt d (progress_of b) name args) name args b

  -- The waits of _executeSenderContractFunctions, without parallelization.
  unfoldable pub receipt_of : Answer → Eff World Receipt
  receipt_of (recorded receipt) = return receipt
  receipt_of (answered response) = do
    lift (o.wait response 1)
    lift (o.wait response o.confirmations)

  -- The call of a contract's function: EventTxExecutor.executeSingle of the wrapped function.
  unfoldable pub call_function : (name : String) → (inputs : ℕ) → List Value → Eff World Receipt
  call_function name inputs given = do
    answer ← wrapped_function name inputs given
    receipt ← receipt_of answer
    b ← current key
    on_repo (store_event_transaction_data o.hex b.name none (some receipt) event)
    return receipt
