-- ===== src/Repo/Tests.antt =====
-- Repo: a store with a token, an exchange and a hook.
use hardhat_ignition.Prelude.{
  ◌≡◌, refl, ℤ, true, none, some, [], ◌∷◌, lookup, insert, name_dec, names_differ,
}
use hardhat_ignition.Types.{Text, Value, ContractInput, ok}
use hardhat_ignition.Effects.{◌>>=◌, ◌>>◌}
use hardhat_ignition.Samples.{shop}
use hardhat_ignition.Repo.{
  Repo, convert_event, convert_state, convert_file, touch_state, modules_of, copy_file, copy_value,
  copy_items, copy_element, get_module_state, store_file, get_state_if_exist, store_new_state,
  store_read_state, finished_event, finish_current_event, get_event_transaction_data,
  store_event_transaction_data,
}
use hardhat_ignition.Repo.Copies.{get_module_state-store_file, store_new_state-stable}
use hardhat_ignition.Repo.Events.{get_event_transaction_data-store_event_transaction_data}

program : Unit {0}
unfolding lookup insert name_dec convert_event convert_state convert_file touch_state copy_value
    copy_items copy_element copy_file get_module_state store_file get_state_if_exist store_new_state
    store_read_state finished_event finish_current_event get_event_transaction_data
    store_event_transaction_data
program = tt

abbrev hex : ℤ → Text
hex n = []

abbrev empty : Repo
empty = record {
  network_name = "local";
  state = [];
  current_module_name = "Shop";
  current_event_name = "";
  test = true;
}

abbrev stored : Repo
stored = store_file hex "Shop" (convert_state shop) empty

get_module_state-store_file_example :
    (get_module_state hex "Shop" stored ≡ (copy_file hex (convert_state shop), stored))
    × (lookup "Market" (modules_of stored) ≡ lookup "Market" (modules_of empty))
    × (lookup "kovan" stored.state ≡ lookup "kovan" empty.state)
unfolding program
get_module_state-store_file_example =
    get_module_state-store_file hex "Shop" "Market" "kovan" (convert_state shop) empty
      (names_differ "Shop" "Market" refl) (names_differ "local" "kovan" refl)

store_new_state-stable_example :
    ((store_new_state hex "Shop" shop
        >> (get_state_if_exist hex "Shop"
            >>= (λ file. store_read_state hex "Shop" file >> get_state_if_exist hex "Shop")))
      empty).0
    ≡ ok (copy_file hex (convert_state shop))
store_new_state-stable_example = store_new_state-stable hex "Shop" shop empty

abbrev transfer : ContractInput
transfer = ContractInput.call "transfer" (Value.number (ℤ.pos 5) ∷ [])

get_event_transaction_data-store_event_transaction_data_example :
    ((store_event_transaction_data hex "Token" (some transfer) none "setUp"
        >> get_event_transaction_data hex "Token" "setUp")
      stored).0
    ≡ ok (record { contract_input = transfer ∷ []; contract_output = [] })
unfolding program
get_event_transaction_data-store_event_transaction_data_example =
    get_event_transaction_data-store_event_transaction_data hex "Token" (some transfer) none "setUp"
      stored (record { contract_input = []; contract_output = [] }) refl
