-- ===== src/Transactions.antt =====
-- services/ethereum/transactions/manager.ts and generator.ts: nonces, gas prices, the transactions of
-- deployments and the linking of libraries.
--
-- What the node answers (transaction counts, gas prices, gas estimates) and the addresses of signers are
-- arguments. The successive gas prices are a function of the number of the request. Log output and waiting
-- are left out.
pub mod Nonces
pub mod Backoff
pub mod Linking
mod Tests
use hardhat_ignition.Prelude.{
  ℕ, zero, suc, ◌+◌, ◌*◌, ltb, String, Bool, true, false, Option, none, some, List, [], ◌∷◌, ◌++◌,
  if◌then◌else◌, Dict, lookup, insert, take, drop, ite, name_dec, or_else,
}
use hardhat_ignition.Types.{
  Text, Element, ModuleState, ContractBinding, DeploymentSpec, Deployed, TransactionData, TxInput,
  LinkReference, Result, ok, err, Error, type_error, gas_price_backoff, cli_error, or_fail, ◌>>=◌,
}

-- `_nonceMap`
abbrev pub NonceMap : Type 0
NonceMap = Dict ℕ

-- getAndIncrementTransactionCount up to its `await`: the nonce, if the address is known.
unfoldable pub known_nonce : String → NonceMap → Option (ℕ × NonceMap)
known_nonce address m = elim (lookup address m) [
  | none ↦ none
  | some n ↦ some (n, insert address (suc n) m)
]

-- The same behind its `await`, with the count that the node answered.
unfoldable pub first_nonce : String → (count : ℕ) → NonceMap → ℕ × NonceMap
first_nonce address count m = (count, insert address (suc count) m)

-- getAndIncrementTransactionCount when nothing else runs in between.
unfoldable pub get_and_increment : String → (count : ℕ) → NonceMap → ℕ × NonceMap
get_and_increment address count m = elim (known_nonce address m) [
  | none ↦ first_nonce address count m
  | some r ↦ r
]

-- getCurrentTransactionCount: `undefined` for an address that is not known.
unfoldable pub get_current : String → (count : ℕ) → NonceMap → Option ℕ × NonceMap
get_current address count m = elim (lookup address m) [
  | none ↦ (none, m)
  | some _ ↦ (some count, insert address count m)
]

-- A sequence of requests, each an address with what the node would answer; the nonces for one address.
unfoldable pub nonces_for : String → List (String × ℕ) → NonceMap → List ℕ
nonces_for a [] m = []
nonces_for a ((b, count) ∷ rest) m =
    let (n, m') = get_and_increment b count m in
    let later = nonces_for a rest m' in ite (name_dec b a) (n ∷ later) later

pub record GasPriceBackoff : Type 0 where
  pub max_gas_price : ℕ
  pub number_of_retries : ℕ

-- fetchBackoffGasPrice, as of the i-th request for the gas price.
unfoldable pub fetch_backoff_gas_price :
    Option GasPriceBackoff → (prices : ℕ → ℕ) → (i retries : ℕ) → Result ℕ
fetch_backoff_gas_price none prices i retries = ok (prices i)
fetch_backoff_gas_price (some backoff) prices i zero =
    err (gas_price_backoff backoff.max_gas_price (prices i))
fetch_backoff_gas_price (some backoff) prices i (suc retries) =
    let rest = fetch_backoff_gas_price (some backoff) prices (suc i) retries in
    if ltb backoff.max_gas_price (prices i) then rest else ok (prices i)

-- TransactionGenerator.fetchTxData: the price is asked for once before the backoff asks again.
unfoldable pub fetch_tx_data :
    Option GasPriceBackoff
    → (prices : ℕ → ℕ) → String
    → (count : ℕ) → NonceMap
    → Result ((ℕ × ℕ) × NonceMap)
fetch_tx_data backoff prices address count m = do
  gas_price ← elim backoff [
    | none ↦ ok (prices 0)
    | some b ↦ fetch_backoff_gas_price (some b) prices 1 b.number_of_retries
  ]
  let (nonce, m') = get_and_increment address count m
  ok ((gas_price, nonce), m')

pub record TransactionRequest : Type 0 where
  pub from : String
  pub value : ℕ
  pub gas_price : ℕ
  pub gas_limit : ℕ
  pub call_data : Text
  pub nonce : ℕ

-- TransactionManager.generateSingedTx: the request that is signed, and the address of who signs it. The
-- gas estimate may throw; `signer` is the address of a signer of the caller's.
unfoldable pub generate_signed_tx :
    Option GasPriceBackoff
    → (prices : ℕ → ℕ) → (address : String) → (estimate : Result ℕ) → (value : ℕ)
    → (call_data : Text) → (signer : Option String) → (count : ℕ) → NonceMap
    → Result ((TransactionRequest × String) × NonceMap)
generate_signed_tx backoff prices address estimate value call_data signer count m = do
  gas ← estimate
  gas_price ← elim backoff [
    | none ↦ ok (prices 0)
    | some b ↦ fetch_backoff_gas_price (some b) prices 1 b.number_of_retries
  ]
  let who = or_else signer address
  let (nonce, m') = get_and_increment who count m
  ok (
    (
      record {
        from = address;
        value = value;
        gas_price = gas_price;
        gas_limit = gas;
        call_data = call_data;
        nonce = nonce;
      },
      who,
    ),
    m',
  )

-- `deploymentSpec?.deployFn`
abbrev pub has_deploy_fn : ContractBinding → Bool
has_deploy_fn b = elim b.deploy_meta_data.deployment_spec [
  | none ↦ false
  | some spec ↦ spec.deploy_fn
]

-- initTx, for one element and for the module state.
unfoldable pub init_element : String → Element → Element
init_element from (Element.event e) = Element.event e
init_element from (Element.contract b) = elim b.tx_data [
  | some _ ↦ Element.contract b
  | none ↦
      if has_deploy_fn b
      then Element.contract b
      else Element.contract (record b {
        tx_data =
            some (record { input = some (TxInput.tx_data from (some b.bytecode)); output = none });
      })
]

unfoldable pub init_tx : String → ModuleState → ModuleState
init_tx from [] = []
init_tx from ((n, e) ∷ rest) = (n, init_element from e) ∷ init_tx from rest

-- One occurrence of a library, at which its address is written without the leading `0x`.
unfoldable pub link_at : (address : Text) → LinkReference → Text → Text
link_at address occurrence bytecode =
    let start = (occurrence.start + 1) * 2 in
    let length = occurrence.length * 2 in
    take start bytecode ++ (drop 2 address ++ drop (start + length) bytecode)

unfoldable pub link_all : (address : Text) → List LinkReference → Text → Text
link_all address [] bytecode = bytecode
link_all address (o ∷ os) bytecode = link_all address os (link_at address o bytecode)

-- addLibraryAddresses; `read` gives the code units of an address.
unfoldable pub add_libraries :
    (read : String → Text) → Dict (List LinkReference) → ModuleState → Text → Result Text
add_libraries read [] state bytecode = ok bytecode
add_libraries read ((name, occurrences) ∷ rest) state bytecode = do
  e ← or_fail (lookup name state) type_error
  address ← elim e [
    | Element.contract b ↦ or_fail b.deploy_meta_data.contract_address cli_error
    | Element.event _ ↦ err cli_error
  ]
  add_libraries read rest state (link_all (read address) occurrences bytecode)

unfoldable pub add_library_addresses :
    (read : String → Text) → Text → Option (Dict (List LinkReference)) → ModuleState → Result Text
add_library_addresses read bytecode none state = ok bytecode
add_library_addresses read bytecode (some libraries) state =
    add_libraries read libraries state bytecode
