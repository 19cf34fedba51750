-- ===== src/Transactions/Backoff.antt =====
-- Transactions: the wait for a lower gas price, and what is signed in the end.
use hardhat_ignition.Prelude.{
  ℕ, zero, suc, ◌+◌, ◌<◌, ◌≤◌, ◌≡◌, ◌⊎◌, ◌∙◌, inl, inr, refl, subst, ap, ltb, String, Option, some,
  or_else, arith, Bool-cases,
}
use hardhat_ignition.Types.{Text, Result, ok, err, gas_price_backoff, ◌>>=◌, >>=-eq-ok}
use hardhat_ignition.Transactions.{
  GasPriceBackoff, fetch_backoff_gas_price, NonceMap, get_and_increment, TransactionRequest,
  generate_signed_tx,
}

-- The k-th price from the i-th on is the first that the limit admits.
abbrev pub IsFirstLow : ℕ → (ℕ → ℕ) → (i k : ℕ) → Type 0
IsFirstLow limit prices i k = ((j : ℕ) → j < k → limit < prices (i + j)) × (prices (i + k) ≤ limit)

-- With a backoff, either one of as many prices as there are retries is within the limit, and the first such
-- price is the answer, or all of them exceed it, and the error tells the limit and the next price, be it
-- within the limit or not.
pub fetch_backoff_gas_price_cases :
    (backoff : GasPriceBackoff) (prices : ℕ → ℕ) (i retries : ℕ)
    → ((k : ℕ) × (k < retries)
        × IsFirstLow backoff.max_gas_price prices i k
        × (fetch_backoff_gas_price (some backoff) prices i retries ≡ ok (prices (i + k))))
      ⊎ (((j : ℕ) → j < retries → backoff.max_gas_price < prices (i + j))
          × (fetch_backoff_gas_price (some backoff) prices i retries
              ≡ err (gas_price_backoff backoff.max_gas_price (prices (i + retries)))))
unfolding fetch_backoff_gas_price
fetch_backoff_gas_price_cases backoff prices i zero = inr (
  (λ j h. absurd (omega arith)),
  ap (λ n. err (gas_price_backoff backoff.max_gas_price (prices n))) (omega arith),
)
fetch_backoff_gas_price_cases backoff prices i (suc retries) =
    elim (Bool-cases (ltb backoff.max_gas_price (prices i))) [
      | inl t ↦
          let high : backoff.max_gas_price < prices i = ground arith in
          elim (fetch_backoff_gas_price_cases backoff prices (suc i) retries) [
            | inl (k, h, (before_k, low), e) ↦ inl (
              suc k,
              omega arith,
              (
                earlier high k before_k,
                subst (λ n. prices n ≤ backoff.max_gas_price) (shift k) low,
              ),
              rw t (e ∙ ap (λ n. ok (prices n)) (shift k)),
            )
            | inr (all, e) ↦ inr (
              earlier high retries all,
              rw t (
                  e
                  ∙ ap (λ n. err (gas_price_backoff backoff.max_gas_price (prices n)))
                      (shift retries)),
            )
          ]
      | inr f ↦
          let now : i ≡ i + 0 = omega arith in
          let low : prices i ≤ backoff.max_gas_price = ground arith in
          inl (
            0,
            omega arith,
            ((λ j h. absurd (omega arith)), subst (λ n. prices n ≤ backoff.max_gas_price) now low),
            rw f (ap (λ n. ok (prices n)) now),
          )
    ]
  where
    shift : (k : ℕ) → suc i + k ≡ i + suc k
    shift k = omega arith

    earlier :
        backoff.max_gas_price < prices i
        → (k : ℕ) → ((j : ℕ) → j < k → backoff.max_gas_price < prices (suc i + j))
        → (j : ℕ) → j < suc k
        → backoff.max_gas_price < prices (i + j)
    earlier high k f zero h =
        subst (λ n. backoff.max_gas_price < prices n) (let e : i ≡ i + 0 = omega arith in e) high
    earlier high k f (suc j) h =
        subst (λ n. backoff.max_gas_price < prices n) (shift j) (f j (omega arith))

low_price :
    (backoff : GasPriceBackoff) (prices : ℕ → ℕ) (i retries p : ℕ)
    → fetch_backoff_gas_price (some backoff) prices i retries ≡ ok p
    → p ≤ backoff.max_gas_price
low_price backoff prices i retries p e =
    elim (fetch_backoff_gas_price_cases backoff prices i retries) [
      | inl (k, h, (f, low), q) ↦
          subst (λ n. n ≤ backoff.max_gas_price) (let r : prices (i + k) ≡ p = cc in r) low
      | inr (f, q) ↦ absurd (cc)
    ]

-- A transaction that is signed under a backoff says that it is from the manager's own signer, at a gas price
-- within the limit; its nonce is that of who signs, also if that is another signer.
pub generate_signed_tx-fields :
    (backoff : GasPriceBackoff) (prices : ℕ → ℕ) (address : String) (estimate : Result ℕ)
    (value : ℕ) (call_data : Text) (signer : Option String) (count : ℕ) (m m' : NonceMap)
    (tx : TransactionRequest) (who : String)
    → generate_signed_tx (some backoff) prices address estimate value call_data signer count m
      ≡ ok ((tx, who), m')
    → (tx.from ≡ address)
      × (who ≡ or_else signer address)
      × (tx.gas_price ≤ backoff.max_gas_price)
      × ((tx.nonce, m') ≡ get_and_increment who count m)
unfolding generate_signed_tx
generate_signed_tx-fields backoff prices address estimate value call_data signer count m m' tx who
      h =
    let (gas, e₁, e₂) = >>=-eq-ok estimate with_gas h in
    let (p, e₃, e₄) =
      >>=-eq-ok (fetch_backoff_gas_price (some backoff) prices 1 backoff.number_of_retries)
        (λ p. ok (signed gas p)) e₂ in
    subst Fields e₄ (refl, refl, low_price backoff prices 1 backoff.number_of_retries p e₃, refl)
  where
    Fields : Result ((TransactionRequest × String) × NonceMap) → Type 0
    Fields (err e) = Unit
    Fields (ok ((tx, who), m')) =
        (tx.from ≡ address)
        × (who ≡ or_else signer address)
        × (tx.gas_price ≤ backoff.max_gas_price)
        × ((tx.nonce, m') ≡ get_and_increment who count m)

    signed : ℕ → ℕ → (TransactionRequest × String) × NonceMap
    signed gas p =
        let r = get_and_increment (or_else signer address) count m in
        (
          (
            record {
              from = address;
              value = value;
              gas_price = p;
              gas_limit = gas;
              call_data = call_data;
              nonce = r.0;
            },
            or_else signer address,
          ),
          r.1,
        )

    with_gas : ℕ → Result ((TransactionRequest × String) × NonceMap)
    with_gas gas =
        fetch_backoff_gas_price (some backoff) prices 1 backoff.number_of_retries >>= λ p.
        ok (signed gas p)
