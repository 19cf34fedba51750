-- ===== src/Reconcile/Kept.antt =====
-- Reconcile: what is so of a contract that is taken over from the state file.
use hardhat_ignition.Prelude.{
  ◌≡◌, ◌∙◌, refl, sym, subst, inl, inr, ap, ℕ, Bool, true, false, not, ◌||◌, Option, none, some,
  String, lookup, lookup-insert_self, if◌then◌else◌, Bool-cases,
}
use hardhat_ignition.Types.{
  ContractBinding, ContractBindingMetaData, Element, FileElement, Result, err, ok, ok-injective,
  ◌>>=◌, >>=-eq-ok,
}
use hardhat_ignition.Compare.{is_same_bytecode}
use hardhat_ignition.Reconcile.{
  Reconciliation, Source, Answers, in_file, add_resolved, set_element, is_true, probe, must_deploy,
  take_over, known_contract, reconcile_element, invalidate_dependant,
}
use hardhat_ignition.Reconcile.Invalidation.{Only, invalidate_dependant-Only}

kept_address :
    (asked : Result Bool) (address : Option String)
    → (elim asked [
      | err e ↦ err e
      | ok true ↦ ok true
      | ok false ↦ elim address [ none ↦ ok true | some _ ↦ ok false ]
    ])
      ≡ ok false
    → (asked ≡ ok false) × ((a : String) × (address ≡ some a))
kept_address (err e) address h = absurd (cc)
kept_address (ok true) address h = absurd (let p : true ≡ false = ok-injective h in cc)
kept_address (ok false) none h = absurd (let p : true ≡ false = ok-injective h in cc)
kept_address (ok false) (some a) h = (refl, (a, refl))

-- What a contract that is taken over has: an address, unchanged bytecode, and nothing that asks for its
-- deployment.
abbrev pub IsKept : Answers → Option Bool → ContractBindingMetaData → ContractBinding → Type 0
IsKept answers always old b =
    (is_true always ≡ false)
    × (b.force_flag ≡ false)
    × (is_same_bytecode old.bytecode b.bytecode ≡ true)
    × ((if b.deploy_meta_data.should_redeploy
          then answers.should_redeploy b.name old b
          else ok false)
        ≡ ok false)
    × ((a : String) × (old.deploy_meta_data.contract_address ≡ some a))

not_yet :
    (always force same : Bool) (rest : Result Bool)
    → (if always || (force || not same) then ok true else rest) ≡ ok false
    → (always ≡ false) × (force ≡ false) × (same ≡ true) × (rest ≡ ok false)
not_yet true force same rest h = absurd (let p : true ≡ false = ok-injective h in cc)
not_yet false true same rest h = absurd (let p : true ≡ false = ok-injective h in cc)
not_yet false false false rest h = absurd (let p : true ≡ false = ok-injective h in cc)
not_yet false false true rest h = (refl, refl, refl, h)

must_deploy-IsKept :
    (answers : Answers) (always : Option Bool) (old : ContractBindingMetaData) (b : ContractBinding)
    → must_deploy answers always old b ≡ ok false
    → IsKept answers always old b
unfolding must_deploy
must_deploy-IsKept answers always old b h =
    let (f, g, s, rest) =
      not_yet (is_true always) b.force_flag (is_same_bytecode old.bytecode b.bytecode) _ h in
    let (r, a) = kept_address _ _ rest in (f, g, s, r, a)

-- Where the comparison of a contract that the state file has succeeds and the stored contract is taken over,
-- the user has not decided to go on with a network that lacks contracts, the module does not force the
-- deployment, the bytecode is the same up to its metadata, `shouldRedeploy` is absent or has answered no, and the
-- file has an address of the contract.
pub reconcile_element-IsKept :
    (depth : ℕ) (answers : Answers) (name : String) (old : ContractBindingMetaData)
    (b : ContractBinding) (st st' : Reconciliation)
    → in_file st name ≡ some (FileElement.contract old)
    → reconcile_element depth answers name (Element.contract b) st ≡ ok st'
    → lookup name st'.resolved ≡ some Source.taken
    → IsKept answers st'.always old b
unfolding reconcile_element known_contract Only
reconcile_element-IsKept depth answers name old b st st' h k taken =
    let wired : ContractBinding = record b { wired = true } in
    let (t, p, q) =
      >>=-eq-ok (probe answers old st)
        (λ s. must_deploy answers s.always old b >>= (λ deploy.
          if deploy
          then invalidate_dependant depth wired
              (add_resolved name Source.own (set_element name (Element.contract wired) s))
          else ok (
              add_resolved name Source.taken
                (set_element name (Element.contract (take_over old b)) s))))
        (rw (h, reconcile_element) at k) in
    let (deploy, m, r) =
      >>=-eq-ok (must_deploy answers t.always old b)
        (λ deploy.
          if deploy
          then invalidate_dependant depth wired
              (add_resolved name Source.own (set_element name (Element.contract wired) t))
          else ok (
              add_resolved name Source.taken
                (set_element name (Element.contract (take_over old b)) t)))
        q in
    elim (Bool-cases deploy) [
      | inl y ↦ absurd (
          let start = add_resolved name Source.own (set_element name (Element.contract wired) t) in
          let d : invalidate_dependant depth wired start ≡ ok st' = rw y at r in
          let (o, e) = invalidate_dependant-Only depth wired start st' d in
          let l : lookup name st'.resolved ≡ some Source.own =
            ap (λ z. lookup name z.resolved) e ∙ lookup-insert_self name Source.own t.resolved in
          let z : some Source.own ≡ some Source.taken = sym l ∙ taken in cc)
      | inr n ↦
          let e : ok (
                add_resolved name Source.taken
                  (set_element name (Element.contract (take_over old b)) t))
              ≡ ok st' =
            rw n at r in
          let same : t.always ≡ st'.always = ap (λ z. z.always) (ok-injective e) in
          subst (λ always. IsKept answers always old b) same
            (must_deploy-IsKept answers t.always old b (m ∙ ap ok n))
    ]
