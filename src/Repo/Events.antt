-- ===== src/Repo/Events.antt =====
-- Repo: the transactions of an event, and the end of an event.
use hardhat_ignition.Prelude.{lookup-insert_self}
use hardhat_ignition.Prelude.{sym, ◌∙◌, ◌⊎◌, inl, inr, none, some, Dict}
use hardhat_ignition.Repo.{put_modules}
use hardhat_ignition.Prelude.{
  ◌≡◌, ◌≢◌, inl, inr, refl, subst, ap, String, true, false, Option, [], ◌++◌, ℤ, lookup, insert,
  or_else, name_dec, dec_test, arith, Option-cases,
}
use hardhat_ignition.Types.{
  Text, EventType, StatefulEvent, new_stateful_event, ContractInput, EventTransactionData, Receipt,
  FileElement, ModuleStateFile, ok, err, cli_error,
}
use hardhat_ignition.Effects.{◌>>◌}
use hardhat_ignition.Repo.{
  Repo, convert_file, copy_inputs, copy_file, get_module_state, store_file, get_state_if_exist,
  store_read_state, event_in, transactions_in, no_transactions, bare_event, option_list,
  get_event_transaction_data, store_event_transaction_data,
}
use hardhat_ignition.Repo.Copies.{read-stored}
use hardhat_ignition.Repo.Reads.{
  copy_data, copy_inputs-append, transactions_in-stored, copied-transactions,
  copy_file-get_module_state, get_module_state-current, name_test,
}

module _ (hex : ℤ → Text) where
  unfoldable stored_event :
      String → String → Option ContractInput → Option Receipt → ModuleStateFile → StatefulEvent
  stored_event binding name input output file =
      let e =
        or_else (event_in name file)
          (new_stateful_event (bare_event name EventType.deploy) false []) in
      let old = or_else (lookup binding e.tx_data) no_transactions in
      record e {
        tx_data =
            insert binding
              (record {
                contract_input = old.contract_input ++ option_list input;
                contract_output = old.contract_output ++ option_list output;
              })
              e.tx_data;
      }

  unfoldable stored_file :
      String → String → Option ContractInput → Option Receipt → ModuleStateFile → ModuleStateFile
  stored_file binding name input output file =
      convert_file
        (insert name (FileElement.event (stored_event binding name input output file)) file)

  store-eq :
      (binding : String) (input : Option ContractInput) (output : Option Receipt) (name : String)
      (r : Repo)
      → r.current_module_name ≢ ""
      → store_event_transaction_data hex binding input output name r ≡ (
        ok tt,
        store_file hex r.current_module_name
            (stored_file binding name input output (get_module_state hex r.current_module_name r).0)
            (get_module_state hex r.current_module_name r).1,
      )
  unfolding store_event_transaction_data get_state_if_exist store_read_state stored_file
      stored_event
  store-eq binding input output name r h = rw (name_test hex r.current_module_name h)

  get-eq :
      (binding name : String) (r : Repo)
      → r.current_module_name ≢ ""
      → get_event_transaction_data hex binding name r ≡ (
        ok (
            transactions_in
              (event_in name (get_module_state hex r.current_module_name r).0)
              binding),
        (get_module_state hex r.current_module_name r).1,
      )
  unfolding get_event_transaction_data get_state_if_exist
  get-eq binding name r h = rw (name_test hex r.current_module_name h)

  stored-grown :
      (binding name : String) (input : Option ContractInput) (output : Option Receipt)
      (file : ModuleStateFile)
      → transactions_in
          (event_in name (copy_file hex (stored_file binding name input output file)))
          binding
        ≡ copy_data hex (record {
          contract_input =
              (transactions_in (event_in name file) binding).contract_input ++ option_list input;
          contract_output =
              (transactions_in (event_in name file) binding).contract_output ++ option_list output;
        })
  unfolding stored_file stored_event lookup
  stored-grown binding name input output file = elim (Option-cases (event_in name file)) [
    | inl e ↦
        rw (e, transactions_in)
          (transactions_in-stored hex name binding
            (new_stateful_event (bare_event name EventType.deploy) false [])
            (record { contract_input = option_list input; contract_output = option_list output })
            file)
    | inr (d, e) ↦
        rw (e, transactions_in)
          (transactions_in-stored hex name binding d
            (record {
              contract_input =
                  (or_else (lookup binding d.tx_data) no_transactions).contract_input
                  ++ option_list input;
              contract_output =
                  (or_else (lookup binding d.tx_data) no_transactions).contract_output
                  ++ option_list output;
            })
            file)
  ]

  get-throws :
      (binding name : String) (r : Repo)
      → r.current_module_name ≡ ""
      → get_event_transaction_data hex binding name r ≡ (err cli_error, r)
  unfolding get_event_transaction_data
  get-throws binding name r h = rw (if_pos' r.current_module_name h)
    where
      if_pos' : (a : String) → a ≡ "" → dec_test (name_dec a "") ≡ true
      if_pos' a q = ground arith

  stored_current :
      (file : ModuleStateFile) (r : Repo) (name : String)
      → (store_file hex name file r).current_module_name ≡ r.current_module_name
  unfolding store_file
  stored_current file r name = refl

  get-after :
      (c binding name : String) (F : ModuleStateFile) (s : Repo)
      → s.current_module_name ≡ c
      → c ≢ ""
      → (get_event_transaction_data hex binding name (store_file hex c F s)).0
        ≡ ok (transactions_in (event_in name (copy_file hex F)) binding)
  unfolding store_file
  get-after c binding name F s e =
      subst
        (λ d.
          d ≢ ""
          → (get_event_transaction_data hex binding name (store_file hex d F s)).0
            ≡ ok (transactions_in (event_in name (copy_file hex F)) binding))
        e
        (λ n. rw (
          get-eq binding name (store_file hex s.current_module_name F s) n,
          read-stored hex s.current_module_name F s,
        ))

  grown-copied :
      (t : EventTransactionData) (input : Option ContractInput) (output : Option Receipt)
      → copy_data hex t ≡ t
      → copy_data hex (record {
        contract_input = t.contract_input ++ option_list input;
        contract_output = t.contract_output ++ option_list output;
      })
        ≡ record {
          contract_input = t.contract_input ++ copy_inputs hex (option_list input);
          contract_output = t.contract_output ++ option_list output;
        }
  grown-copied t input output h =
      rw (copy_inputs-append hex t.contract_input (option_list input), ap (λ d. d.contract_input) h)

  -- Where reading the transactions of a binding in an event answers a list, storing an input, an output or both
  -- succeeds, and reading them again answers the old lists with the new ones at their ends, the arguments of the
  -- new input copied.
  pub get_event_transaction_data-store_event_transaction_data :
      (binding : String) (input : Option ContractInput) (output : Option Receipt) (name : String)
      (r : Repo) (old : EventTransactionData)
      → (get_event_transaction_data hex binding name r).0 ≡ ok old
      → ((store_event_transaction_data hex binding input output name
            >> get_event_transaction_data hex binding name)
          r).0
        ≡ ok (record {
          contract_input = old.contract_input ++ copy_inputs hex (option_list input);
          contract_output = old.contract_output ++ option_list output;
        })
  get_event_transaction_data-store_event_transaction_data binding input output name r old h =
      elim (name_dec r.current_module_name "") [
        | yes e ↦ absurd (
            let q : (get_event_transaction_data hex binding name r).0 ≡ err cli_error =
              ap (λ x. x.0) (get-throws binding name r e) in
            cc)
        | no n ↦
            let file = (get_module_state hex r.current_module_name r).0 in
            let q : transactions_in (event_in name file) binding ≡ old =
              let e = get-eq binding name r n in cc in
            let c : copy_data hex old ≡ old =
              subst (λ d. copy_data hex d ≡ d) q
                (copied-transactions hex name binding file
                  (copy_file-get_module_state hex r.current_module_name r)) in
            rw (
              store-eq binding input output name r n,
              get-after r.current_module_name binding name
                  (stored_file binding name input output file)
                  (get_module_state hex r.current_module_name r).1
                  (get_module_state-current hex r.current_module_name r) n,
              stored-grown binding name input output file,
              q,
              grown-copied old input output c,
            )
      ]

  read_nothing :
      (M : String) (modules : Dict ModuleStateFile) (r : Repo)
      → (lookup M modules ≡ none) ⊎ (lookup M modules ≡ some [])
      → (get_module_state hex M (put_modules modules r)).0 ≡ []
  unfolding get_module_state copy_file
  read_nothing M modules r (inl h) =
      rw (lookup-insert_self r.network_name modules r.state, h, get_module_state)
  read_nothing M modules r (inr h) =
      rw (lookup-insert_self r.network_name modules r.state, h, get_module_state)

  read-again :
      (M : String) (r : Repo)
      → (get_module_state hex M (get_module_state hex M r).1).0 ≡ (get_module_state hex M r).0
  unfolding get_module_state copy_file lookup
  read-again M r = elim (Option-cases (lookup r.network_name r.state)) [
    | inl e ↦
        let q : get_module_state hex M r ≡ ([], put_modules [] r) = rw (e, get_module_state) in
        subst (λ x. (get_module_state hex M x.1).0 ≡ x.0) (sym q) (read_nothing M [] r (inl refl))
    | inr (ms, e) ↦ elim (Option-cases (lookup M ms)) [
      | inl e2 ↦
          let q : get_module_state hex M r ≡ ([], put_modules (insert M [] ms) r) =
            rw (e, e2, get_module_state) in
          subst (λ x. (get_module_state hex M x.1).0 ≡ x.0) (sym q)
            (read_nothing M (insert M [] ms) r (inr (lookup-insert_self M [] ms)))
      | inr (f, e2) ↦
          let q : get_module_state hex M r ≡ (copy_file hex f, r) = rw (e, e2, get_module_state) in
          subst (λ x. (get_module_state hex M x.1).0 ≡ x.0) (sym q) (ap (λ x. x.0) q)
    ]
  ]

  -- Reading the transactions of an event again answers the same.
  pub get_event-again :
      (binding name : String) (r : Repo) (d : EventTransactionData)
      → (get_event_transaction_data hex binding name r).0 ≡ ok d
      → (get_event_transaction_data hex binding name
          (get_event_transaction_data hex binding name r).1).0
        ≡ ok d
  get_event-again binding name r d h = elim (name_dec r.current_module_name "") [
    | yes e ↦ absurd (
        let q : (get_event_transaction_data hex binding name r).0 ≡ err cli_error =
          ap (λ x. x.0) (get-throws binding name r e) in
        cc)
    | no n ↦
        let r1 = (get_module_state hex r.current_module_name r).1 in
        let c = get_module_state-current hex r.current_module_name r in
        let m : r1.current_module_name ≢ "" = subst (λ z. z ≢ "") (sym c) n in
        rw
          (get-eq binding name r n, get-eq binding name r1 m, c, read-again r.current_module_name r)
          (sym (ap (λ x. x.0) (get-eq binding name r n)) ∙ h)
  ]
