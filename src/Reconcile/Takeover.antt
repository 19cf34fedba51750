-- ===== src/Reconcile/Takeover.antt =====
-- Reconcile: a contract that has not changed keeps its address, and one that has is deployed again.
use hardhat_ignition.Prelude.{
  ◌≡◌, ◌∙◌, inl, inr, ap, ℕ, Bool, true, false, Option, none, some, String, All, lookup,
  lookup-insert_self, if◌then◌else◌, Bool-cases,
}
use hardhat_ignition.Types.{
  Text, ContractBinding, ContractBindingMetaData, Element, FileElement, ok, ◌>>=◌, >>=-eq-ok,
}
use hardhat_ignition.Compare.{is_same_bytecode}
use hardhat_ignition.Reconcile.{
  Reconciliation, Source, Answers, in_file, add_resolved, set_element, address_of, file_address,
  events_in_order, is_missing, is_true, ask_network, probe, must_deploy, take_over, known_contract,
  reconcile_element, invalidate_dependant,
}
use hardhat_ignition.Reconcile.Invalidation.{
  Only, IsPending, invalidate_dependant-Only, invalidate_dependant-resets,
}

probe-found :
    (answers : Answers) (old : ContractBindingMetaData) (a : String) (code : Option Text)
    (st : Reconciliation)
    → st.always ≡ none
    → old.deploy_meta_data.contract_address ≡ some a
    → answers.get_code a ≡ ok code
    → is_missing code ≡ false
    → probe answers old st ≡ ok st
unfolding probe ask_network
probe-found answers old a code st n h c m =
    rw (n, h, c, m, probe, ask_network) (λ i. ok (record st { always = n i }))

must_deploy-unchanged :
    (answers : Answers) (always : Option Bool) (old : ContractBindingMetaData) (b : ContractBinding)
    (a : String)
    → always ≡ none
    → old.deploy_meta_data.contract_address ≡ some a
    → b.force_flag ≡ false
    → b.deploy_meta_data.should_redeploy ≡ false
    → is_same_bytecode old.bytecode b.bytecode ≡ true
    → must_deploy answers always old b ≡ ok false
unfolding must_deploy
must_deploy-unchanged answers always old b a n h f r s = rw (n, f, s, r, h)

file_lookup :
    (st : Reconciliation) (name : String) (e : FileElement)
    → in_file st name ≡ some e
    → lookup name st.objects ≡ some e
file_lookup st name e h = elim (Bool-cases st.emptied) [
  | inl t ↦ absurd (let q : none ≡ some e = rw t at h in cc)
  | inr f ↦ rw f at h
]

-- A contract that the state file has with an address, where the network has code, and with the same bytecode up to its
-- metadata, is taken over with that address, unless the module forces its deployment or decides
-- on it by `shouldRedeploy`.
pub reconcile_element-unchanged :
    (depth : ℕ) (answers : Answers) (name : String) (old : ContractBindingMetaData)
    (b : ContractBinding) (a : String) (code : Option Text) (st : Reconciliation)
    → in_file st name ≡ some (FileElement.contract old)
    → st.always ≡ none
    → old.deploy_meta_data.contract_address ≡ some a
    → answers.get_code a ≡ ok code
    → is_missing code ≡ false
    → is_same_bytecode old.bytecode b.bytecode ≡ true
    → b.force_flag ≡ false
    → b.deploy_meta_data.should_redeploy ≡ false
    → (st' : Reconciliation) × (reconcile_element depth answers name (Element.contract b) st
        ≡ ok st')
      × (lookup name st'.resolved ≡ some Source.taken)
      × (address_of st' name ≡ some a)
unfolding reconcile_element known_contract
reconcile_element-unchanged depth answers name old b a code st h n ha c m s f r =
    let st' =
      add_resolved name Source.taken (set_element name (Element.contract (take_over old b)) st) in
    let l = lookup-insert_self name Source.taken st.resolved in
    (
      st',
      rw (
        h,
        probe-found answers old a code st n ha c m,
        must_deploy-unchanged answers st.always old b a n ha f r s,
        reconcile_element,
        known_contract,
      ),
      l,
      rw (l, file_lookup st name (FileElement.contract old) h, address_of, file_address, ha),
    )

must_deploy-changed :
    (answers : Answers) (always : Option Bool) (old : ContractBindingMetaData) (b : ContractBinding)
    → is_same_bytecode old.bytecode b.bytecode ≡ false
    → must_deploy answers always old b ≡ ok true
unfolding must_deploy
must_deploy-changed answers always old b s = elim (Bool-cases (is_true always)) [
  | inl t ↦ rw t
  | inr f ↦ elim (Bool-cases b.force_flag) [ inl t ↦ rw (f, t) | inr g ↦ rw (f, g, s) ]
]

-- Where the comparison of a contract that the state file has with another bytecode succeeds, the result has the module's
-- contract with the address that the module gave it, which is none for one that is to be
-- deployed, and no event that depends on the contract is executed in the file any more.
pub reconcile_element-changed :
    (depth : ℕ) (answers : Answers) (name : String) (old : ContractBindingMetaData)
    (b : ContractBinding) (st st' : Reconciliation)
    → in_file st name ≡ some (FileElement.contract old)
    → is_same_bytecode old.bytecode b.bytecode ≡ false
    → reconcile_element depth answers name (Element.contract b) st ≡ ok st'
    → (lookup name st'.resolved ≡ some Source.own)
      × (address_of st' name ≡ b.deploy_meta_data.contract_address)
      × All (λ ev. IsPending (in_file st' ev)) (events_in_order b.events_deps)
unfolding reconcile_element known_contract Only
reconcile_element-changed depth answers name old b st st' h s k =
    let wired : ContractBinding = record b { wired = true } in
    let (t, p, q) =
      >>=-eq-ok (probe answers old st)
        (λ s. must_deploy answers s.always old b >>= (λ deploy.
          if deploy
          then invalidate_dependant depth wired
              (add_resolved name Source.own (set_element name (Element.contract wired) s))
          else ok (
              add_resolved name Source.taken
                (set_element name (Element.contract (take_over old b)) s))))
        (rw (h, reconcile_element) at k) in
    let start = add_resolved name Source.own (set_element name (Element.contract wired) t) in
    let d : invalidate_dependant depth wired start ≡ ok st' =
      rw (must_deploy-changed answers t.always old b s) at q in
    let (o, e) = invalidate_dependant-Only depth wired start st' d in
    let l : lookup name st'.resolved ≡ some Source.own =
      ap (λ z. lookup name z.resolved) e ∙ lookup-insert_self name Source.own t.resolved in
    let v : lookup name st'.live ≡ some (Element.contract wired) =
      ap (λ z. lookup name z.live) e ∙ lookup-insert_self name (Element.contract wired) t.live in
    (l, rw (l, v, address_of), invalidate_dependant-resets depth wired start st' d)
