-- ===== src/Execution/Values.antt =====
-- Execution: the values that a constructor is called with.
use hardhat_ignition.Prelude.{
  ◌≡◌, inl, inr, refl, subst, ap, suc, String, Option, none, some, List, [], ◌∷◌, ℤ, All, length,
  take, lookup, Option-cases, Bool-cases,
}
use hardhat_ignition.Types.{
  Text, JsonFragmentType, Value, TransactionData, contract_type_unsupported, or_fail-eq-ok,
  Result-cases, contract_refs, Element, ModuleState, Result, ok, err, type_error,
  contract_type_mismatch,
}
use hardhat_ignition.Handler.Runs.{HasAddress}
use hardhat_ignition.Execution.{
  AbiValue, known_address, element_address, fits, contract_value, dependency_address,
  constructor_value, constructor_values,
}

known_address-ok :
    (t : Option TransactionData) (a : Option String) (address : String)
    → known_address t a ≡ ok address
    → a ≡ some address
known_address-ok none a address h = cc
known_address-ok (some t) a address h = elim (Option-cases t.input) [
  | inl e ↦
      absurd (let q : err contract_type_mismatch ≡ ok address = rw (e, known_address) at h in cc)
  | inr (i, e) ↦ or_fail-eq-ok a contract_type_mismatch (rw (e, known_address) at h)
]

element_address-HasAddress :
    (o : Option Element) (address : String) → element_address o ≡ ok address → HasAddress o
unfolding HasAddress
element_address-HasAddress none address h = cc
element_address-HasAddress (some (Element.event v)) address h =
    absurd (elim (Option-cases (lookup "input" v.tx_data)) [
      | inl e ↦ let q : err contract_type_mismatch ≡ ok address = rw (e, element_address) at h in cc
      | inr (i, e) ↦ let q : err type_error ≡ ok address = rw (e, element_address) at h in cc
    ])
element_address-HasAddress (some (Element.contract b)) address h =
    (b, refl, address, known_address-ok b.tx_data b.deploy_meta_data.contract_address address h)

module _ (parse : Text → Result ℤ) (print : ℤ → Text) (read : String → Text) where
  contract_value-HasAddress :
      (state : ModuleState) (name : String) (input : JsonFragmentType) (x : AbiValue)
      → contract_value parse print read state name input ≡ ok x
      → HasAddress (lookup name state)
  unfolding dependency_address
  contract_value-HasAddress state name input x h =
      elim (Bool-cases (fits parse print read name input)) [
        | inl t ↦ elim (Result-cases (element_address (lookup name state))) [
          | inl (a, e) ↦ element_address-HasAddress (lookup name state) a e
          | inr (y, e) ↦ absurd (let q : err y ≡ ok x = rw (t, e) at h in cc)
        ]
        | inr f ↦ absurd (let q : err contract_type_mismatch ≡ ok x = rw f at h in cc)
      ]

  constructor_value-HasAddress :
      (state : ModuleState) (v : Value) (input : JsonFragmentType) (x : AbiValue)
      → constructor_value parse print read state v input ≡ ok x
      → (vs : List Value) → All (λ n. HasAddress (lookup n state)) (contract_refs vs)
      → All (λ n. HasAddress (lookup n state)) (contract_refs (v ∷ vs))
  unfolding constructor_value
  constructor_value-HasAddress state (Value.binding name) input x h vs p =
      (contract_value-HasAddress state name input x h, p)
  constructor_value-HasAddress state (Value.meta_data name) input x h vs p =
      (contract_value-HasAddress state name input x h, p)
  constructor_value-HasAddress state Value.undefined input x h vs p = p
  constructor_value-HasAddress state Value.null input x h vs p = p
  constructor_value-HasAddress state (Value.bool b) input x h vs p = p
  constructor_value-HasAddress state (Value.number b) input x h vs p = p
  constructor_value-HasAddress state (Value.big_number b) input x h vs p = p
  constructor_value-HasAddress state (Value.big_number_json b) input x h vs p = p
  constructor_value-HasAddress state (Value.string b) input x h vs p = p
  constructor_value-HasAddress state (Value.array b) input x h vs p = p

  -- Where the values for a constructor are found, there is one for each of its inputs, and every contract among
  -- the arguments that they stand for was deployed: the module state has it with its address.
  pub constructor_values-deployed :
      (state : ModuleState) (inputs : List JsonFragmentType) (args : List Value)
      (xs : List AbiValue) (args' : List Value)
      → constructor_values parse print read state inputs args ≡ (ok xs, args')
      → (length xs ≡ length inputs)
        × All (λ n. HasAddress (lookup n state)) (contract_refs (take (length inputs) args))
  unfolding constructor_values
  constructor_values-deployed state [] args xs args' h = (
    subst (λ r. length r ≡ 0) (let q : ok [] ≡ ok xs = ap (λ p. p.0) h in let r : [] ≡ xs = cc in r)
        refl,
    tt,
  )
  constructor_values-deployed state (input ∷ inputs) [] xs args' h =
      absurd (let q : err contract_type_unsupported ≡ ok xs = ap (λ p. p.0) h in cc)
  constructor_values-deployed state (input ∷ inputs) (v ∷ vs) xs args' h =
      elim (Result-cases (constructor_value parse print read state v input)) [
        | inr (y, e) ↦
            absurd (let q : err y ≡ ok xs = ap (λ p. p.0) (rw (e, constructor_values) at h) in cc)
        | inl (x, e) ↦ elim (Result-cases (constructor_values parse print read state inputs vs).0) [
          | inr (y, e2) ↦
              absurd
                (let q : err y ≡ ok xs = ap (λ p. p.0) (rw (e, e2, constructor_values) at h) in cc)
          | inl (ys, e2) ↦
              let q : ok (x ∷ ys) ≡ ok xs = ap (λ p. p.0) (rw (e, e2, constructor_values) at h) in
              let r : x ∷ ys ≡ xs = cc in
              let (l, p) =
                constructor_values-deployed state inputs vs ys
                  (constructor_values parse print read state inputs vs).1
                  (λ i. (e2 i, (constructor_values parse print read state inputs vs).1)) in
              (
                subst (λ zs. length zs ≡ suc (length inputs)) r (ap suc l),
                constructor_value-HasAddress state v input x e (take (length inputs) vs) p,
              )
        ]
      ]
