-- ===== src/Builder/Compile.antt =====
-- handleModule of interfaces/hardhat-ignition.ts: what the compiler knows of each contract is entered in
-- its binding. What the extractor answers (bytecodes, interfaces, libraries) and the validator are arguments.
use hardhat_ignition.Prelude.{
  ◌≡◌, ◌∙◌, ap, refl, sym, subst, String, Bool, Option, none, some, List, [], ◌∷◌, if◌then◌else◌,
  Dict, lookup, keys, name_dec, if_pos, inl, inr, arith, Option-cases,
}
use hardhat_ignition.Types.{
  Text, JsonFragment, LinkReference, ContractBinding, Bindings, Result, Check, passes, ok,
  missing_contract_metadata, or_fail, ◌>>=◌, >>=-eq-ok, or_fail-eq-ok,
}

-- The answers of the extractor, each a dictionary from contract names.
pub record Extracted : Type 0 where
  pub bytecodes : Dict Text
  pub abi : Option (Dict (List JsonFragment))
  pub libraries : Option (Dict (Dict (List LinkReference)))

-- The body of the loop: the guard, then the three assignments.
unfoldable pub compiled : Extracted → ContractBinding → Result ContractBinding
compiled x b = do
  bytecode ←
      or_fail (lookup b.contract_name x.bytecodes) (missing_contract_metadata b.contract_name)
  libraries ← elim x.libraries [
    | none ↦ ok b.libraries
    | some ls ↦ do
      l ← or_fail (lookup b.contract_name ls) (missing_contract_metadata b.contract_name)
      ok (some l)
  ]
  ok (record b {
    bytecode = bytecode;
    libraries = libraries;
    abi = elim x.abi [ none ↦ b.abi | some interfaces ↦ lookup b.contract_name interfaces ];
  })

unfoldable pub compile_all : Extracted → Bindings → Result Bindings
compile_all x [] = ok []
compile_all x ((n, b) ∷ rest) = do
  b' ← compiled x b
  rest' ← compile_all x rest
  ok ((n, b') ∷ rest')

unfoldable pub handle_module :
    (Bindings → Option (Dict (List JsonFragment)) → Check)
    → Extracted
    → (is_usage : Bool) → Bindings
    → Result Bindings
handle_module validate x is_usage bindings = do
  _ ← if is_usage then passes else validate bindings x.abi
  compile_all x bindings

-- What a dictionary of the extractor has for a contract, or what was there where it has no such dictionary.
abbrev pub entered : {V : Type 0} → Option (Dict V) → (name : String) → (old : Option V) → Option V
entered none name old = old
entered (some answers) name old = lookup name answers

-- What the compilation of a binding makes of it: only these fields change.
abbrev pub Compiles : Extracted → ContractBinding → ContractBinding → Type 0
Compiles x b b' =
    (b'.events_deps ≡ b.events_deps)
    × ((ls : Dict (Dict (List LinkReference)))
        → x.libraries ≡ some ls
        → (l : Dict (List LinkReference)) × (b'.libraries ≡ some l))
    × (lookup b.contract_name x.bytecodes ≡ some b'.bytecode)
    × (b' ≡ record b {
      bytecode = b'.bytecode;
      libraries = entered x.libraries b.contract_name b.libraries;
      abi = entered x.abi b.contract_name b.abi;
    })

entered-eq :
    {V : Type 0} (answers : Option (Dict V)) (name : String) (old : Option V)
    → (elim answers [ none ↦ old | some known ↦ lookup name known ]) ≡ entered answers name old
entered-eq none name old = refl
entered-eq (some answers) name old = refl

compiled-eq-ok : (x : Extracted) (b b' : ContractBinding) → compiled x b ≡ ok b' → Compiles x b b'
unfolding compiled
compiled-eq-ok x b b' e =
    let (code, e₁, e₂) =
      >>=-eq-ok
        (or_fail (lookup b.contract_name x.bytecodes) (missing_contract_metadata b.contract_name))
        next e in
    elim (Option-cases x.libraries) [
      | inl q ↦
          let r : result code b.libraries ≡ b' = ground arith in
          subst (Compiles x b) r (
            refl,
            (λ ls p. absurd (ground arith)),
            or_fail-eq-ok _ _ e₁,
            same code b.libraries (ap (λ o. entered o b.contract_name b.libraries) (sym q)),
          )
      | inr (ls, q) ↦ elim (Option-cases (lookup b.contract_name ls)) [
        | inl p ↦ absurd (ground arith)
        | inr (l, p) ↦
            let r : result code (some l) ≡ b' = ground arith in
            subst (Compiles x b) r (
              refl,
              (λ _ _. (l, refl)),
              or_fail-eq-ok _ _ e₁,
              same code (some l) (sym p ∙ ap (λ o. entered o b.contract_name b.libraries) (sym q)),
            )
      ]
    ]
  where
    result : Text → Option (Dict (List LinkReference)) → ContractBinding
    result code libraries = record b {
      bytecode = code;
      libraries = libraries;
      abi = elim x.abi [ none ↦ b.abi | some interfaces ↦ lookup b.contract_name interfaces ];
    }

    same :
        (code : Text) (libraries : Option (Dict (List LinkReference)))
        → libraries ≡ entered x.libraries b.contract_name b.libraries
        → result code libraries ≡ record b {
          bytecode = code;
          libraries = entered x.libraries b.contract_name b.libraries;
          abi = entered x.abi b.contract_name b.abi;
        }
    same code libraries e = λ i. record b {
      bytecode = code;
      libraries = e i;
      abi = entered-eq x.abi b.contract_name b.abi i;
    }

    next : Text → Result ContractBinding
    next code = do
      libraries ← elim x.libraries [
        | none ↦ ok b.libraries
        | some ls ↦ do
          l ← or_fail (lookup b.contract_name ls) (missing_contract_metadata b.contract_name)
          ok (some l)
      ]
      ok (result code libraries)

-- The bindings behind the compilation are those before it, one by one.
compile_all-lookup :
    (x : Extracted) (bindings bindings' : Bindings) (n : String) (b' : ContractBinding)
    → compile_all x bindings ≡ ok bindings'
    → lookup n bindings' ≡ some b'
    → (b : ContractBinding) × (lookup n bindings ≡ some b) × Compiles x b b'
unfolding compile_all lookup
compile_all-lookup x [] bindings' n b' e found = absurd (
    let q : [] ≡ bindings' = cc in
    let r : lookup n [] ≡ some b' = subst (λ m. lookup n m ≡ some b') (sym q) found in cc)
compile_all-lookup x ((k, b) ∷ rest) bindings' n b' e found =
    let (c, e₁, e₂) =
      >>=-eq-ok (compiled x b) (λ c. compile_all x rest >>= λ rest'. ok ((k, c) ∷ rest')) e in
    let (rest', e₃, e₄) = >>=-eq-ok (compile_all x rest) (λ rest'. ok ((k, c) ∷ rest')) e₂ in
    let q : (k, c) ∷ rest' ≡ bindings' = cc in
    let found' : lookup n ((k, c) ∷ rest') ≡ some b' =
      subst (λ m. lookup n m ≡ some b') (sym q) found in
    elim (name_dec k n) [
      | yes p ↦ (
        b,
        rw (if_pos _ p),
        subst (Compiles x b) (let r : c ≡ b' = ground arith in r) (compiled-eq-ok x b c e₁),
      )
      | no p ↦
          let (d, r, s) = compile_all-lookup x rest rest' n b' e₃ (ground arith) in
          (d, ground arith, s)
    ]

-- The names stay.
compile_all-keys :
    (x : Extracted) (bindings bindings' : Bindings)
    → compile_all x bindings ≡ ok bindings'
    → keys bindings' ≡ keys bindings
unfolding compile_all
compile_all-keys x [] bindings' e = let q : [] ≡ bindings' = cc in subst (λ m. keys m ≡ []) q refl
compile_all-keys x ((k, b) ∷ rest) bindings' e =
    let (c, e₁, e₂) =
      >>=-eq-ok (compiled x b) (λ c. compile_all x rest >>= λ rest'. ok ((k, c) ∷ rest')) e in
    let (rest', e₃, e₄) = >>=-eq-ok (compile_all x rest) (λ rest'. ok ((k, c) ∷ rest')) e₂ in
    let q : (k, c) ∷ rest' ≡ bindings' = cc in
    subst (λ m. keys m ≡ k ∷ keys rest) q
      (let r : keys rest' ≡ keys rest = compile_all-keys x rest rest' e₃ in cc)

-- What a module that compiles is left with: its contracts under the same names in the same order. Each has
-- the bytecode that the extractor knows under its contract name, what the extractor's interfaces and libraries have
-- under that name where it has them, and else what it had, and is otherwise unchanged; its libraries
-- are known where the extractor has libraries.
pub handle_module-Compiles :
    (validate : Bindings → Option (Dict (List JsonFragment)) → Check) (x : Extracted)
    (is_usage : Bool) (bindings bindings' : Bindings)
    → handle_module validate x is_usage bindings ≡ ok bindings'
    → (keys bindings' ≡ keys bindings)
      × ((n : String) (b' : ContractBinding)
          → lookup n bindings' ≡ some b'
          → (b : ContractBinding) × (lookup n bindings ≡ some b) × Compiles x b b')
unfolding handle_module
handle_module-Compiles validate x is_usage bindings bindings' e =
    let (u, e₁, e₂) =
      >>=-eq-ok (if is_usage then passes else validate bindings x.abi) (λ _. compile_all x bindings)
        e in
    (
      compile_all-keys x bindings bindings' e₂,
      λ n b'. compile_all-lookup x bindings bindings' n b' e₂,
    )
