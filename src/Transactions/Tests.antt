-- ===== src/Transactions/Tests.antt =====
-- Transactions: small requests, prices and bytecode.
use hardhat_ignition.Prelude.{
  ℕ, zero, suc, ◌+◌, ◌*◌, ◌<◌, ◌≤◌, ◌≡◌, ◌⊎◌, refl, String, true, keys, some, List, [], ◌∷◌, lookup,
  insert, name_dec, take, drop, length, or_else, arith,
}
use hardhat_ignition.Types.{
  Text, Element, ContractBinding, TransactionData, LinkReference, ok, err, gas_price_backoff,
}
use hardhat_ignition.Transactions.{
  known_nonce, first_nonce, get_and_increment, nonces_for, GasPriceBackoff, fetch_backoff_gas_price,
  TransactionRequest, generate_signed_tx, link_at, has_deploy_fn, init_tx,
}
use hardhat_ignition.Transactions.Nonces.{consecutive, first_count, nonces_consecutive}
use hardhat_ignition.Transactions.Backoff.{
  IsFirstLow, fetch_backoff_gas_price_cases, generate_signed_tx-fields,
}
use hardhat_ignition.Transactions.Linking.{link_at_lem, init_tx-prepares}
use hardhat_ignition.Samples.{shop}

program : Unit {0}
unfolding lookup insert name_dec known_nonce first_nonce get_and_increment nonces_for
    fetch_backoff_gas_price generate_signed_tx link_at init_tx
program = tt

abbrev requests : List (String × ℕ)
requests = ("alice", 7) ∷ ("bob", 2) ∷ ("alice", 9) ∷ ("alice", 1) ∷ []

nonces_of_alice : nonces_for "alice" requests [] ≡ 7 ∷ 8 ∷ 9 ∷ []
unfolding program
nonces_of_alice = refl

nonces_consecutive_example :
    nonces_for "alice" requests []
    ≡ consecutive
        (or_else (lookup "alice" []) (first_count "alice" requests))
        (length (nonces_for "alice" requests []))
nonces_consecutive_example = nonces_consecutive "alice" requests []

-- Two first requests that both found the address unknown are given the same nonce.
collision :
    ((first_nonce "alice" 7 []).0 ≡ 7)
    × ((first_nonce "alice" 7 (first_nonce "alice" 7 []).1).0 ≡ 7)
unfolding program
collision = (refl, refl)

abbrev backoff : GasPriceBackoff
backoff = record { max_gas_price = 10; number_of_retries = 2 }

-- The price falls from 12 by 1 at each request.
abbrev falling : ℕ → ℕ
falling zero = 12
falling (suc zero) = 11
falling _ = 10

-- After the last retry a price within the limit is refused.
too_late : fetch_backoff_gas_price (some backoff) falling 0 2 ≡ err (gas_price_backoff 10 10)
unfolding program
too_late = refl

fetch_backoff_gas_price_cases_example :
    ((k : ℕ) × (k < 3)
      × IsFirstLow 10 falling 0 k
      × (fetch_backoff_gas_price (some backoff) falling 0 3 ≡ ok (falling (0 + k))))
    ⊎ (((j : ℕ) → j < 3 → 10 < falling (0 + j))
        × (fetch_backoff_gas_price (some backoff) falling 0 3
            ≡ err (gas_price_backoff 10 (falling (0 + 3)))))
fetch_backoff_gas_price_cases_example = fetch_backoff_gas_price_cases backoff falling 0 3

abbrev signed : TransactionRequest
signed = record {
  from = "alice";
  value = 0;
  gas_price = 10;
  gas_limit = 21;
  call_data = [];
  nonce = 4;
}

generate_signed_tx-fields_example :
    (signed.from ≡ "alice")
    × (◌≡◌ {A = String} "bob" (or_else (some "bob") "alice"))
    × (signed.gas_price ≤ 10)
    × ((signed.nonce, insert "bob" 5 []) ≡ get_and_increment "bob" 4 [])
unfolding program
generate_signed_tx-fields_example =
    generate_signed_tx-fields backoff falling "alice" (ok 21) 0 [] (some "bob") 4 []
      (insert "bob" 5 []) signed "bob" refl

abbrev code : Text
code = 1 ∷ 2 ∷ 3 ∷ 4 ∷ 5 ∷ 6 ∷ 7 ∷ []

abbrev occurrence : LinkReference
occurrence = record { length = 1; start = 1 }

link_at_lem_example :
    (length (link_at (0 ∷ 9 ∷ 8 ∷ 8 ∷ []) occurrence code) ≡ length code)
    × (take ((1 + 1) * 2) (link_at (0 ∷ 9 ∷ 8 ∷ 8 ∷ []) occurrence code) ≡ take ((1 + 1) * 2) code)
    × (take (1 * 2) (drop ((1 + 1) * 2) (link_at (0 ∷ 9 ∷ 8 ∷ 8 ∷ []) occurrence code))
        ≡ drop 2 (0 ∷ 9 ∷ 8 ∷ 8 ∷ []))
    × (drop ((1 + 1) * 2 + 1 * 2) (link_at (0 ∷ 9 ∷ 8 ∷ 8 ∷ []) occurrence code)
        ≡ drop ((1 + 1) * 2 + 1 * 2) code)
link_at_lem_example =
    link_at_lem (0 ∷ 9 ∷ 8 ∷ 8 ∷ []) occurrence code (omega arith, omega arith, refl)

prepared :
    (keys (init_tx "alice" shop) ≡ keys shop)
    × ((n : String) (b : ContractBinding)
        → lookup n (init_tx "alice" shop) ≡ some (Element.contract b)
        → (has_deploy_fn b ≡ true) ⊎ ((t : TransactionData) × (b.tx_data ≡ some t)))
prepared = init_tx-prepares "alice" shop
