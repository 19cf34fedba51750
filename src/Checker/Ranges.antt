-- ===== src/Checker/Ranges.antt =====
-- Checker: which integers pass, and what a validated module has.
use hardhat_ignition.Prelude.{
  ℕ, suc, ◌*◌, ◌^◌, ◌<◌, ◌≡◌, ◌↔◌, ◌⊎◌, inl, inr, ◌==◌, leb, refl, subst, sym, String, Bool, true,
  false, not, ◌&&◌, Bool-cases, some, List, [], ◌∷◌, if◌then◌else◌, length, ℤ, pos, negsuc, abs,
  Dict, lookup, All, arith,
}
use hardhat_ignition.Types.{
  Text, Value, JsonFragment, JsonFragmentType, Bindings, ContractBinding, Check, passes, Result, ok,
  err, contract_type_mismatch, missing_contract_metadata, abi_mismatch, or_fail, >>=-eq-ok,
  or_fail-eq-ok,
}
use hardhat_ignition.Checker.{
  includes_text, uint_text, is_negative, range_end, bits_of, handle_int, handle_types,
  constructor_inputs, validate_args, validate_binding, validate_all,
}
use hardhat_ignition.Transactions.{has_deploy_fn}
use native.Mathlib.Numerals.{unary_clauses}

power_suc : (w : ℕ) → 2 ^ suc w ≡ 2 * 2 ^ w
power_suc w = simp unary_clauses (omega arith)

-- The values of an integer type of w + 1 bits that pass: for an unsigned type all its values, for a signed
-- one those whose magnitude is below 2 ^ w, which leaves out its least value.
abbrev pub IsBelowEnd : (unsigned : Bool) → (w : ℕ) → ℤ → Type 0
IsBelowEnd true w (pos n) = n < 2 ^ suc w
IsBelowEnd true w (negsuc n) = ⊥
IsBelowEnd false w value = abs value < 2 ^ w

range_end-signed : (w : ℕ) → range_end false (suc w) ≡ 2 ^ w
range_end-signed w = let e = power_suc w in omega arith

range_end-unsigned : (w : ℕ) → range_end true (suc w) ≡ 2 ^ suc w
range_end-unsigned w = let e = power_suc w in omega arith

-- The two tests of handleInt, when the bits are known.
abbrev tested : (unsigned : Bool) → ℕ → ℤ → Check
tested unsigned w value =
    if is_negative value && unsigned
    then err contract_type_mismatch
    else (if leb (range_end unsigned (suc w)) (abs value)
        then err contract_type_mismatch
        else passes)

mismatch_fails : {P : Type 0} → err contract_type_mismatch ≡ passes → P
mismatch_fails e = absurd (cc)

limit_iff :
    (n r : ℕ) → ((if leb r n then err contract_type_mismatch else passes) ≡ passes) ↔ (n < r)
limit_iff n r = elim (Bool-cases (leb r n)) [
  | inl t ↦ rw t ((λ e. mismatch_fails e), λ h. absurd (ground arith))
  | inr f ↦ rw f ((λ e. ground arith), λ h. refl)
]

tested_iff :
    (unsigned : Bool) (w : ℕ) (value : ℤ)
    → (tested unsigned w value ≡ passes) ↔ IsBelowEnd unsigned w value
tested_iff true w (pos n) =
    subst
      (λ r. ((if leb r n then err contract_type_mismatch else passes) ≡ passes) ↔ (n < 2 ^ suc w))
      (sym (range_end-unsigned w)) (limit_iff n (2 ^ suc w))
tested_iff true w (negsuc n) = ((λ e. mismatch_fails e), λ h. elim h [ ])
tested_iff false w (pos n) =
    subst (λ r. ((if leb r n then err contract_type_mismatch else passes) ≡ passes) ↔ (n < 2 ^ w))
      (sym (range_end-signed w)) (limit_iff n (2 ^ w))
tested_iff false w (negsuc n) =
    subst
      (λ r.
        ((if leb r (suc n) then err contract_type_mismatch else passes) ≡ passes) ↔ (suc n < 2 ^ w))
      (sym (range_end-signed w)) (limit_iff (suc n) (2 ^ w))

module _ (parse : Text → Result ℤ) (print : ℤ → Text) (is_address : Text → Bool)
    (read : String → Text) where
  -- For an integer type whose bits are a number w + 1, handleInt admits of an unsigned type exactly the values from 0
  -- to 2 ^ (w + 1) - 1, and of a signed type exactly those of a magnitude below 2 ^ w. So it refuses
  -- - 2 ^ w, which the signed type has.
  pub handle_int_iff :
      (value : ℤ) (type : Text) (w : ℕ)
      → bits_of parse print is_address read type ≡ ok (suc w)
      → (handle_int parse print is_address read value type ≡ passes)
        ↔ IsBelowEnd (includes_text uint_text type) w value
  unfolding handle_int
  handle_int_iff value type w e = rw e (tested_iff (includes_text uint_text type) w value)

  -- The arguments of a call, one by one against the inputs.
  abbrev pub ArgsPass : List Value → List JsonFragmentType → Type 0
  ArgsPass [] inputs = Unit
  ArgsPass (v ∷ vs) [] = ⊥
  ArgsPass (v ∷ vs) (input ∷ inputs) =
      (handle_types parse print is_address read v input.type input.internal_type ≡ passes)
      × ArgsPass vs inputs

  validate_args-ArgsPass :
      (vs : List Value) (inputs : List JsonFragmentType)
      → validate_args parse print is_address read vs inputs ≡ passes
      → ArgsPass vs inputs
  unfolding validate_args
  validate_args-ArgsPass [] inputs e = tt
  validate_args-ArgsPass (v ∷ vs) [] e = absurd (cc)
  validate_args-ArgsPass (v ∷ vs) (input ∷ inputs) e =
      let (u, e₁, e₂) =
        >>=-eq-ok (handle_types parse print is_address read v input.type input.internal_type)
          (λ _. validate_args parse print is_address read vs inputs) e in
      (e₁, validate_args-ArgsPass vs inputs e₂)

  -- A binding whose contract is known, with as many arguments as its constructor has inputs or a deploy
  -- function of its own, and whose arguments pass.
  abbrev pub IsValid : Dict (List JsonFragment) → ContractBinding → Type 0
  IsValid abis b =
      (fragments : List JsonFragment) × (lookup b.contract_name abis ≡ some fragments)
      × ((length b.args ≡ length (constructor_inputs fragments [])) ⊎ (has_deploy_fn b ≡ true))
      × ArgsPass b.args (constructor_inputs fragments [])

  validate_binding-IsValid :
      (abis : Dict (List JsonFragment)) (name : String) (b : ContractBinding)
      → validate_binding parse print is_address read abis name b ≡ passes
      → IsValid abis b
  unfolding validate_binding
  validate_binding-IsValid abis name b e =
      let (fragments, e₁, e₂) =
        >>=-eq-ok (or_fail (lookup b.contract_name abis) (missing_contract_metadata name)) next e in
      let found = or_fail-eq-ok (lookup b.contract_name abis) (missing_contract_metadata name) e₁ in
      elim (Bool-cases (length b.args == length (constructor_inputs fragments []))) [
        | inl t ↦
            (fragments, found, inl (ground arith), validate_args-ArgsPass b.args _ (rw t at e₂))
        | inr f ↦ elim (Bool-cases (has_deploy_fn b)) [
          | inl t ↦ (fragments, found, inr t, validate_args-ArgsPass b.args _ (rw (f, t) at e₂))
          | inr g ↦ absurd (let q : err (abi_mismatch name) ≡ passes = rw (f, g) at e₂ in cc)
        ]
      ]
    where
      next : List JsonFragment → Check
      next fragments =
          if not (length b.args == length (constructor_inputs fragments []))
            && not (has_deploy_fn b)
          then err (abi_mismatch name)
          else validate_args parse print is_address read b.args (constructor_inputs fragments [])

  -- When the validation of a module passes, each of its contracts has metadata, as many arguments as its
  -- constructor has inputs unless it has a deploy function, and arguments that each pass the check against
  -- the type of their input.
  pub validate_all-IsValid :
      (abis : Dict (List JsonFragment)) (bindings : Bindings)
      → validate_all parse print is_address read abis bindings ≡ passes
      → All (λ entry. IsValid abis entry.1) bindings
  unfolding validate_all
  validate_all-IsValid abis [] e = tt
  validate_all-IsValid abis ((name, b) ∷ rest) e =
      let (u, e₁, e₂) =
        >>=-eq-ok (validate_binding parse print is_address read abis name b)
          (λ _. validate_all parse print is_address read abis rest) e in
      (validate_binding-IsValid abis name b e₁, validate_all-IsValid abis rest e₂)
