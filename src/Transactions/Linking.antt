-- ===== src/Transactions/Linking.antt =====
-- Transactions: which transactions are prepared, and what linking does to bytecode.
use hardhat_ignition.Prelude.{
  ℕ, zero, suc, ◌+◌, ◌*◌, ◌≤◌, ◌≡◌, ◌⊎◌, ◌∙◌, inl, inr, refl, subst, ap, String, true, none, some,
  List, [], ◌∷◌, ◌++◌, take, drop, length, length-append, All, All-lookup, lookup, keys, arith,
  Bool-cases, Option-cases,
}
use hardhat_ignition.Types.{
  Text, Element, ModuleState, ContractBinding, TransactionData, TxInput, LinkReference,
}
use hardhat_ignition.Transactions.{link_at, init_tx, init_element, has_deploy_fn}

module _ {A : Type 0} where
  length-take : (n : ℕ) (xs : List A) → n ≤ length xs → length (take n xs) ≡ n
  length-take zero xs h = refl
  length-take (suc n) [] h = absurd (omega arith)
  length-take (suc n) (x ∷ xs) h = omega (arith, length-take n xs (omega arith))

  length-drop : (n : ℕ) (xs : List A) → n ≤ length xs → n + length (drop n xs) ≡ length xs
  length-drop zero xs h = omega arith
  length-drop (suc n) [] h = absurd (omega arith)
  length-drop (suc n) (x ∷ xs) h = omega (arith, length-drop n xs (omega arith))

  take-append : (xs ys : List A) → take (length xs) (xs ++ ys) ≡ xs
  take-append [] ys = refl
  take-append (x ∷ xs) ys = ap (λ zs. x ∷ zs) (take-append xs ys)

  drop-append : (xs ys : List A) → drop (length xs) (xs ++ ys) ≡ ys
  drop-append [] ys = refl
  drop-append (x ∷ xs) ys = drop-append xs ys

  take-append_at : (n : ℕ) (xs ys : List A) → length xs ≡ n → take n (xs ++ ys) ≡ xs
  take-append_at n xs ys e = subst (λ k. take k (xs ++ ys) ≡ xs) e (take-append xs ys)

  drop-append_at : (n : ℕ) (xs ys : List A) → length xs ≡ n → drop n (xs ++ ys) ≡ ys
  drop-append_at n xs ys e = subst (λ k. drop k (xs ++ ys) ≡ ys) e (drop-append xs ys)

  drop-drop : (n m : ℕ) (xs : List A) → drop (n + m) xs ≡ drop m (drop n xs)
  drop-drop zero m xs = ap (λ k. drop k xs) (let e : 0 + m ≡ m = omega arith in e)
  drop-drop (suc n) zero [] = ap (λ k. drop k []) (let e : suc n + 0 ≡ suc n = omega arith in e)
  drop-drop (suc n) (suc m) [] =
      ap (λ k. drop k []) (let e : suc n + suc m ≡ suc (n + suc m) = omega arith in e)
  drop-drop (suc n) m (x ∷ xs) =
      ap (λ k. drop k (x ∷ xs)) (let e : suc n + m ≡ suc (n + m) = omega arith in e)
      ∙ drop-drop n m xs

-- The place of an occurrence lies in the bytecode, and the address fills it.
abbrev pub Fills : Text → LinkReference → Text → Type 0
Fills address o bytecode =
    ((o.start + 1) * 2 + o.length * 2 ≤ length bytecode)
    × (2 ≤ length address)
    × (length address ≡ 2 + o.length * 2)

link_at-length :
    (address : Text) (o : LinkReference) (bytecode : Text)
    → Fills address o bytecode
    → length (link_at address o bytecode) ≡ length bytecode
unfolding link_at
link_at-length address o bytecode (h, h₂, q) =
    let a = length-take ((o.start + 1) * 2) bytecode (omega arith) in
    let b = length-drop ((o.start + 1) * 2 + o.length * 2) bytecode h in
    let c = length-drop 2 address h₂ in
    let d =
      length-append (take ((o.start + 1) * 2) bytecode)
        (drop 2 address ++ drop ((o.start + 1) * 2 + o.length * 2) bytecode) in
    let e = length-append (drop 2 address) (drop ((o.start + 1) * 2 + o.length * 2) bytecode) in
    omega arith

-- Linking an occurrence that lies in the bytecode and is as long as the address writes the digits of the
-- address at its place, after the leading 0x of the bytecode, and keeps all before it and behind it.
pub link_at_lem :
    (address : Text) (o : LinkReference) (bytecode : Text)
    → Fills address o bytecode
    → let start = (o.start + 1) * 2 in
      let linked = link_at address o bytecode in
      (length linked ≡ length bytecode)
      × (take start linked ≡ take start bytecode)
      × (take (o.length * 2) (drop start linked) ≡ drop 2 address)
      × (drop (start + o.length * 2) linked ≡ drop (start + o.length * 2) bytecode)
unfolding link_at
link_at_lem address o bytecode (h, h₂, q) = (
  link_at-length address o bytecode (h, h₂, q),
  take-append_at start front (digits ++ back) front-length,
  ap (take (o.length * 2)) behind ∙ take-append_at (o.length * 2) digits back digits-length,
  drop-drop start (o.length * 2) (link_at address o bytecode)
      ∙ ap (drop (o.length * 2)) behind
      ∙ drop-append_at (o.length * 2) digits back digits-length,
)
  where
    start : ℕ
    start = (o.start + 1) * 2

    front : Text
    front = take start bytecode

    digits : Text
    digits = drop 2 address

    back : Text
    back = drop (start + o.length * 2) bytecode

    front-length : length front ≡ start
    front-length = length-take start bytecode (omega arith)

    digits-length : length digits ≡ o.length * 2
    digits-length = let c = length-drop 2 address h₂ in omega arith

    behind : drop start (link_at address o bytecode) ≡ digits ++ back
    behind = drop-append_at start front (digits ++ back) front-length

-- Preparing the transactions keeps the elements of a module state in their order, and each contract has its
-- transaction data behind it unless the contract has a deploy function of its own.
pub init_tx-prepares :
    (from : String) (state : ModuleState)
    → (keys (init_tx from state) ≡ keys state)
      × ((n : String) (b : ContractBinding)
          → lookup n (init_tx from state) ≡ some (Element.contract b)
          → (has_deploy_fn b ≡ true) ⊎ ((t : TransactionData) × (b.tx_data ≡ some t)))
unfolding init_tx init_element
init_tx-prepares from state = (
  names state,
  λ n b. All-lookup (λ _ e. Ready e) n (Element.contract b) (init_tx from state) (all state),
)
  where
    Ready : Element → Type 0
    Ready (Element.contract b) =
        (has_deploy_fn b ≡ true) ⊎ ((t : TransactionData) × (b.tx_data ≡ some t))
    Ready (Element.event e) = Unit

    names : (state : ModuleState) → keys (init_tx from state) ≡ keys state
    names [] = refl
    names ((n, e) ∷ rest) = ap (λ ns. n ∷ ns) (names rest)

    one : (e : Element) → Ready (init_element from e)
    one (Element.event e) = tt
    one (Element.contract c) = elim (Option-cases c.tx_data) [
      | inr (t, q) ↦
          subst Ready
            (let r : Element.contract c ≡ init_element from (Element.contract c) = ground arith in
              r)
            (inr (t, q))
      | inl q ↦ elim (Bool-cases (has_deploy_fn c)) [
        | inl t ↦
            subst Ready
              (let r : Element.contract c ≡ init_element from (Element.contract c) = ground arith in
                r)
              (inl t)
        | inr f ↦
            subst Ready
              (let r : Element.contract (fresh c) ≡ init_element from (Element.contract c) =
                  ground arith in
                r)
              (inr (_, refl))
      ]
    ]
      where
        fresh : ContractBinding → ContractBinding
        fresh b = record b {
          tx_data =
              some
                (record { input = some (TxInput.tx_data from (some b.bytecode)); output = none });
        }

    all : (state : ModuleState) → All (λ entry. Ready entry.1) (init_tx from state)
    all [] = tt
    all ((n, e) ∷ rest) = (one e, all rest)
