-- ===== src/Repo/Reads.antt =====
-- Repo: what is read of an element that was stored.
use hardhat_ignition.Prelude.{
  ◌≡◌, ◌≢◌, ◌∙◌, inl, inr, refl, sym, subst, ap, String, false, none, some, List, [], ◌∷◌, ◌++◌, ℤ,
  Dict, lookup, insert, lookup-insert_self, or_else, name_dec, dec_test, arith, Option-cases,
}
use hardhat_ignition.Types.{
  Text, ContractBindingMetaData, StatefulEvent, ContractInput, EventTransactionData, FileElement,
  ModuleStateFile,
}
use hardhat_ignition.Repo.{
  Repo, convert_meta_data, convert_event, convert_file, copy_input, copy_inputs, copy_tx_data,
  copy_element, copy_file, get_module_state, event_in, transactions_in, no_transactions,
}
use hardhat_ignition.Repo.Copies.{copy_file-copy_file}

module _ (hex : ℤ → Text) where
  abbrev pub copy_data : EventTransactionData → EventTransactionData
  copy_data d = record d { contract_input = copy_inputs hex d.contract_input }

  pub lookup-copy_tx_data :
      (k : String) (d : EventTransactionData) (m : Dict EventTransactionData)
      → lookup k m ≡ some d
      → lookup k (copy_tx_data hex m) ≡ some (copy_data d)
  unfolding lookup
  lookup-copy_tx_data k d [] h = ground arith
  lookup-copy_tx_data k d ((j, e) ∷ m) h = ground (arith, lookup-copy_tx_data k d m)

  pub lookup-copy_file :
      (k : String) (e : FileElement) (f : ModuleStateFile)
      → lookup k f ≡ some e
      → lookup k (copy_file hex f) ≡ some (copy_element hex e)
  unfolding lookup copy_file
  lookup-copy_file k d [] h = ground arith
  lookup-copy_file k d ((j, e) ∷ m) h = ground (arith, lookup-copy_file k d m)

  pub lookup-convert_file_event :
      (k : String) (e : StatefulEvent) (f : ModuleStateFile)
      → lookup k f ≡ some (FileElement.event e)
      → lookup k (convert_file f) ≡ some (FileElement.event (convert_event e))
  unfolding lookup convert_file
  lookup-convert_file_event k d [] h = ground arith
  lookup-convert_file_event k d ((j, FileElement.event e) ∷ m) h =
      ground (arith, lookup-convert_file_event k d m)
  lookup-convert_file_event k d ((j, FileElement.contract b) ∷ m) h =
      ground (arith, lookup-convert_file_event k d m)

  pub lookup-convert_file-contract :
      (k : String) (b : ContractBindingMetaData) (f : ModuleStateFile)
      → lookup k f ≡ some (FileElement.contract b)
      → lookup k (convert_file f) ≡ some (FileElement.contract (convert_meta_data b))
  unfolding lookup convert_file
  lookup-convert_file-contract k d [] h = ground arith
  lookup-convert_file-contract k d ((j, FileElement.event e) ∷ m) h =
      ground (arith, lookup-convert_file-contract k d m)
  lookup-convert_file-contract k d ((j, FileElement.contract b) ∷ m) h =
      ground (arith, lookup-convert_file-contract k d m)

  pub copy_inputs-append :
      (is js : List ContractInput)
      → copy_inputs hex (is ++ js) ≡ copy_inputs hex is ++ copy_inputs hex js
  copy_inputs-append [] js = refl
  copy_inputs-append (i ∷ is) js = ap (λ ks. copy_input hex i ∷ ks) (copy_inputs-append is js)

  pub copy_element-event :
      (e : StatefulEvent)
      → copy_element hex (FileElement.event (convert_event e))
        ≡ FileElement.event (record (convert_event e) { tx_data = copy_tx_data hex e.tx_data })
  unfolding copy_element convert_event
  copy_element-event e = refl

  pub transactions_in-stored :
      (name binding : String) (e : StatefulEvent) (g : EventTransactionData)
      (file : ModuleStateFile)
      → transactions_in
          (event_in name (
            copy_file hex (
              convert_file (
                insert name
                  (FileElement.event (record e { tx_data = insert binding g e.tx_data }))
                  file))))
          binding
        ≡ copy_data g
  transactions_in-stored name binding e g file =
      let e' : StatefulEvent = record e { tx_data = insert binding g e.tx_data } in
      let q =
        lookup-copy_file name (FileElement.event (convert_event e'))
          (convert_file (insert name (FileElement.event e') file))
          (lookup-convert_file_event name e' (insert name (FileElement.event e') file)
            (lookup-insert_self name (FileElement.event e') file)) in
      rw (
        q,
        copy_element-event e',
        lookup-copy_tx_data binding g (insert binding g e.tx_data)
            (lookup-insert_self binding g e.tx_data),
        event_in,
        transactions_in,
      )

  pub tx_data_of : FileElement → Dict EventTransactionData
  tx_data_of (FileElement.event e) = e.tx_data
  tx_data_of (FileElement.contract b) = []

  pub tx_data-copied :
      (d : StatefulEvent)
      → some (copy_element hex (FileElement.event d)) ≡ some (FileElement.event d)
      → copy_tx_data hex d.tx_data ≡ d.tx_data
  unfolding copy_element tx_data_of
  tx_data-copied d q = ap (λ o. elim o [ none ↦ [] | some x ↦ tx_data_of x ]) q

  pub copied-lookup :
      (binding : String) (m : Dict EventTransactionData)
      → copy_tx_data hex m ≡ m
      → copy_data (or_else (lookup binding m) no_transactions)
        ≡ or_else (lookup binding m) no_transactions
  copied-lookup binding m h = elim (Option-cases (lookup binding m)) [
    | inl e ↦ rw e
    | inr (d, e) ↦
        let q : d ≡ copy_data d =
          let p = lookup-copy_tx_data binding d m e in
          let p2 : lookup binding m ≡ some (copy_data d) =
            subst (λ n. lookup binding n ≡ some (copy_data d)) h p in
          cc in
        rw (e, sym q)
  ]

  pub copied-transactions :
      (name binding : String) (file : ModuleStateFile)
      → copy_file hex file ≡ file
      → copy_data (transactions_in (event_in name file) binding)
        ≡ transactions_in (event_in name file) binding
  unfolding copy_element
  copied-transactions name binding file h = elim (Option-cases (lookup name file)) [
    | inl e ↦ rw (e, event_in, transactions_in)
    | inr (FileElement.contract b, e) ↦ rw (e, event_in, transactions_in)
    | inr (FileElement.event d, e) ↦
        let p : lookup name file ≡ some (copy_element hex (FileElement.event d)) =
          subst (λ n. lookup name n ≡ some (copy_element hex (FileElement.event d))) h
            (lookup-copy_file name (FileElement.event d) file e) in
        let q : some (copy_element hex (FileElement.event d)) ≡ some (FileElement.event d) =
          sym p ∙ e in
        rw (e, event_in, transactions_in) (copied-lookup binding d.tx_data (tx_data-copied d q))
  ]

  pub copy_file-get_module_state :
      (name : String) (r : Repo)
      → copy_file hex (get_module_state hex name r).0 ≡ (get_module_state hex name r).0
  unfolding get_module_state copy_file
  copy_file-get_module_state name r = elim (Option-cases (lookup r.network_name r.state)) [
    | inl e ↦ rw (e, get_module_state, copy_file)
    | inr (ms, e) ↦ elim (Option-cases (lookup name ms)) [
      | inl e2 ↦ rw (e, e2, get_module_state, copy_file)
      | inr (f, e2) ↦ rw (e, e2, copy_file-copy_file hex f, get_module_state, copy_file)
    ]
  ]

  pub get_module_state-current :
      (name : String) (r : Repo)
      → (get_module_state hex name r).1.current_module_name ≡ r.current_module_name
  unfolding get_module_state
  get_module_state-current name r = elim (Option-cases (lookup r.network_name r.state)) [
    | inl e ↦ rw (e, get_module_state)
    | inr (ms, e) ↦ elim (Option-cases (lookup name ms)) [
      | inl e2 ↦ rw (e, e2, get_module_state)
      | inr (f, e2) ↦ rw (e, e2, get_module_state)
    ]
  ]

  pub name_test : (a : String) → a ≢ "" → dec_test (name_dec a "") ≡ false
  name_test a h = ground arith
