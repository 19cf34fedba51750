-- ===== src/Execution/Stored.antt =====
-- Execution: what a contract is stored as, and what is read of it.
use hardhat_ignition.Prelude.{
  ◌≡◌, ◌≢◌, ◌∙◌, refl, ap, String, Option, some, ℤ, lookup, insert, lookup-insert_self,
}
use hardhat_ignition.Types.{
  Text, TxInput, TransactionData, Response, ContractBinding, ContractBindingMetaData, Element,
  FileElement, ok,
}
use hardhat_ignition.Repo.{
  Repo, touch_binding, convert_binding_to_meta_data, convert_meta_data, convert_file, copy_element,
  get_module_state, store_file, get_state_if_exist, store_read_state, store_single_binding,
}
use hardhat_ignition.Repo.Copies.{read-stored}
use hardhat_ignition.Repo.Reads.{name_test, lookup-copy_file, lookup-convert_file-contract}
use hardhat_ignition.Handler.{World, set_live, store_dependency}

-- What is read of the stored state has a contract with this response.
unfoldable pub IsRecorded : Response → Option FileElement → Type 0
IsRecorded response e =
    (m : ContractBindingMetaData) × (t : TransactionData) × (e ≡ some (FileElement.contract m))
    × (m.tx_data ≡ some t)
    × (t.input ≡ some (TxInput.response response))

module _ (hex : ℤ → Text) (M : String) where
  abbrev pub stored_binding : ContractBinding → Repo → Repo
  stored_binding b r =
      store_file hex M
        (convert_file (
          insert b.name (FileElement.contract (convert_binding_to_meta_data b))
            (get_module_state hex M r).0))
        (get_module_state hex M r).1

  pub store_single_binding-eq :
      (b : ContractBinding) (r : Repo)
      → r.current_module_name ≡ M
      → M ≢ ""
      → store_single_binding hex b r ≡ (ok tt, stored_binding b r)
  unfolding store_single_binding get_state_if_exist store_read_state
  store_single_binding-eq b r c n = rw (c, name_test hex M n)

  pub store_dependency-eq :
      (key : String) (b : ContractBinding) (w : World)
      → lookup key w.live ≡ some (Element.contract b)
      → w.repo.current_module_name ≡ M
      → M ≢ ""
      → store_dependency hex key w ≡ (
        ok tt,
        set_live key
            (Element.contract (touch_binding b))
            (record w { repo = stored_binding b w.repo }),
      )
  unfolding store_dependency
  store_dependency-eq key b w h c n = rw (h, store_single_binding-eq b w.repo c n)

  copy_contract-tx_data :
      (b : ContractBinding)
      → (m : ContractBindingMetaData) × (copy_element hex
            (FileElement.contract (convert_meta_data (convert_binding_to_meta_data b)))
          ≡ FileElement.contract m)
        × (m.tx_data ≡ b.tx_data)
  unfolding copy_element
  copy_contract-tx_data b = (_, refl, refl)

  pub stored_binding-IsRecorded :
      (b : ContractBinding) (r : Repo) (t : TransactionData) (response : Response)
      → b.tx_data ≡ some t
      → t.input ≡ some (TxInput.response response)
      → IsRecorded response (lookup b.name (get_module_state hex M (stored_binding b r)).0)
  unfolding IsRecorded
  stored_binding-IsRecorded b r t response h i =
      let file =
        insert b.name (FileElement.contract (convert_binding_to_meta_data b))
          (get_module_state hex M r).0 in
      let (m, e, f) = copy_contract-tx_data b in
      let q = lookup-copy_file hex b.name _ (convert_file file) (
        lookup-convert_file-contract hex b.name _ file (
          lookup-insert_self b.name (FileElement.contract (convert_binding_to_meta_data b))
            (get_module_state hex M r).0)) in
      (
        m,
        t,
        ap (λ x. lookup b.name x.0)
              (read-stored hex M (convert_file file) (get_module_state hex M r).1)
            ∙ (q ∙ ap some e),
        f ∙ h,
        i,
      )
