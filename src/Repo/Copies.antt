-- ===== src/Repo/Copies.antt =====
-- Repo: what is stored is read again as it was stored.
use hardhat_ignition.Prelude.{
  ◌≡◌, ◌≢◌, inl, inr, refl, ap, String, false, Option, none, some, List, [], ◌∷◌, ℤ, Dict, lookup,
  insert, lookup-insert_self, lookup-insert_ne, Option-cases,
}
use hardhat_ignition.Types.{
  Text, StatefulEvent, Value, Values, ContractInput, EventTransactionData, DeploymentSpec, Deployed,
  Element, FileElement, ModuleState, ModuleStateFile, ok, deps_of, event_deps_of, usage_of,
  event_usage_of,
}
use hardhat_ignition.Repo.{
  Repo, convert_args, convert_deploy_meta_data, convert_binding_to_meta_data, unless_empty,
  convert_event, convert_state, convert_file, modules_of, copy_value, copy_items, copy_list,
  copy_inputs, copy_tx_data, copy_spec, copy_deployed, copy_element, copy_file, get_module_state,
  store_file, store_new_state, get_state_if_exist, store_read_state,
}
use hardhat_ignition.Effects.{◌>>=◌, ◌>>◌}

module _ (hex : ℤ → Text) where
  mutual
    unfolding copy_value copy_items

    copy_value-copy_value : (v : Value) → copy_value hex (copy_value hex v) ≡ copy_value hex v
    copy_value-copy_value Value.undefined = refl
    copy_value-copy_value Value.null = refl
    copy_value-copy_value (Value.bool b) = refl
    copy_value-copy_value (Value.number n) = refl
    copy_value-copy_value (Value.big_number n) = refl
    copy_value-copy_value (Value.big_number_json t) = refl
    copy_value-copy_value (Value.string t) = refl
    copy_value-copy_value (Value.array vs) = ap Value.array (copy_items-copy_items vs)
    copy_value-copy_value (Value.binding n) = refl
    copy_value-copy_value (Value.meta_data n) = refl

    copy_items-copy_items : (vs : Values) → copy_items hex (copy_items hex vs) ≡ copy_items hex vs
    copy_items-copy_items Values.end = refl
    copy_items-copy_items (Values.item v vs) =
        λ i. Values.item (copy_value-copy_value v i) (copy_items-copy_items vs i)

  copy_list-copy_list : (vs : List Value) → copy_list hex (copy_list hex vs) ≡ copy_list hex vs
  copy_list-copy_list [] = refl
  copy_list-copy_list (v ∷ vs) = λ i. copy_value-copy_value v i ∷ copy_list-copy_list vs i

  pub copy_inputs-copy_inputs :
      (is : List ContractInput) → copy_inputs hex (copy_inputs hex is) ≡ copy_inputs hex is
  copy_inputs-copy_inputs [] = refl
  copy_inputs-copy_inputs (ContractInput.call n vs ∷ is) =
      λ i. ContractInput.call n (copy_list-copy_list vs i) ∷ copy_inputs-copy_inputs is i
  copy_inputs-copy_inputs (ContractInput.sent r ∷ is) =
      ap (λ js. ContractInput.sent r ∷ js) (copy_inputs-copy_inputs is)

  pub copy_tx_data-copy_tx_data :
      (ds : Dict EventTransactionData)
      → copy_tx_data hex (copy_tx_data hex ds) ≡ copy_tx_data hex ds
  copy_tx_data-copy_tx_data [] = refl
  copy_tx_data-copy_tx_data ((n, d) ∷ ds) = λ i.
      (n, record d { contract_input = copy_inputs-copy_inputs d.contract_input i })
      ∷ copy_tx_data-copy_tx_data ds i

  copy_spec-copy_spec :
      (o : Option DeploymentSpec) → copy_spec hex (copy_spec hex o) ≡ copy_spec hex o
  copy_spec-copy_spec none = refl
  copy_spec-copy_spec (some s) = refl

  pub copy_element-copy_element :
      (e : FileElement) → copy_element hex (copy_element hex e) ≡ copy_element hex e
  unfolding copy_element
  copy_element-copy_element (FileElement.event e) =
      λ i. FileElement.event (record e { tx_data = copy_tx_data-copy_tx_data e.tx_data i })
  copy_element-copy_element (FileElement.contract b) = λ i. FileElement.contract (record b {
    args = copy_list-copy_list b.args i;
    deploy_meta_data = record b.deploy_meta_data {
      should_redeploy = false;
      deployment_spec = copy_spec-copy_spec b.deploy_meta_data.deployment_spec i;
    };
  })

  pub copy_file-copy_file :
      (f : ModuleStateFile) → copy_file hex (copy_file hex f) ≡ copy_file hex f
  unfolding copy_file
  copy_file-copy_file [] = refl
  copy_file-copy_file ((n, e) ∷ f) =
      λ i. (n, copy_element-copy_element e i) ∷ copy_file-copy_file f i

  pub read-stored :
      (name : String) (f : ModuleStateFile) (r : Repo)
      → get_module_state hex name (store_file hex name f r)
        ≡ (copy_file hex f, store_file hex name f r)
  unfolding get_module_state store_file
  read-stored name f r = rw (
    lookup-insert_self r.network_name (insert name (copy_file hex f) (modules_of r)) r.state,
    lookup-insert_self name (copy_file hex f) (modules_of r),
    copy_file-copy_file f,
    get_module_state,
  )

  -- What is stored under a name is read again under that name, as the copy that was stored; any other module of
  -- the network, and any other network, is as before.
  pub get_module_state-store_file :
      (name other network : String) (f : ModuleStateFile) (r : Repo)
      → name ≢ other
      → r.network_name ≢ network
      → (get_module_state hex name (store_file hex name f r)
          ≡ (copy_file hex f, store_file hex name f r))
        × (lookup other (modules_of (store_file hex name f r)) ≡ lookup other (modules_of r))
        × (lookup network (store_file hex name f r).state ≡ lookup network r.state)
  unfolding store_file
  get_module_state-store_file name other network f r h k = (
    read-stored name f r,
    (rw (
      lookup-insert_self r.network_name (insert name (copy_file hex f) (modules_of r)) r.state,
      lookup-insert_ne name other (copy_file hex f) (modules_of r) h,
    )),
    lookup-insert_ne r.network_name network (insert name (copy_file hex f) (modules_of r)) r.state
        k,
  )

  convert_args-copy_list :
      (vs : List Value)
      → convert_args (copy_list hex (convert_args vs)) ≡ copy_list hex (convert_args vs)
  unfolding copy_value
  convert_args-copy_list [] = refl
  convert_args-copy_list (Value.undefined ∷ vs) =
      ap (λ ws. Value.null ∷ ws) (convert_args-copy_list vs)
  convert_args-copy_list (Value.null ∷ vs) = ap (λ ws. Value.null ∷ ws) (convert_args-copy_list vs)
  convert_args-copy_list (Value.bool b ∷ vs) =
      ap (λ ws. Value.bool b ∷ ws) (convert_args-copy_list vs)
  convert_args-copy_list (Value.number n ∷ vs) =
      ap (λ ws. Value.number n ∷ ws) (convert_args-copy_list vs)
  convert_args-copy_list (Value.big_number n ∷ vs) =
      ap (λ ws. Value.big_number_json (hex n) ∷ ws) (convert_args-copy_list vs)
  convert_args-copy_list (Value.big_number_json t ∷ vs) =
      ap (λ ws. Value.big_number_json t ∷ ws) (convert_args-copy_list vs)
  convert_args-copy_list (Value.string t ∷ vs) =
      ap (λ ws. Value.string t ∷ ws) (convert_args-copy_list vs)
  convert_args-copy_list (Value.array us ∷ vs) =
      ap (λ ws. Value.array (copy_items hex us) ∷ ws) (convert_args-copy_list vs)
  convert_args-copy_list (Value.binding n ∷ vs) =
      ap (λ ws. Value.meta_data n ∷ ws) (convert_args-copy_list vs)
  convert_args-copy_list (Value.meta_data n ∷ vs) =
      ap (λ ws. Value.meta_data n ∷ ws) (convert_args-copy_list vs)

  -- convert after copying a spec
  convert_deploy-copy_deployed :
      (d : Deployed)
      → convert_deploy_meta_data (copy_deployed hex (convert_deploy_meta_data d))
        ≡ copy_deployed hex (convert_deploy_meta_data d)
  convert_deploy-copy_deployed d = elim (Option-cases d.deployment_spec) [
    | inl e ↦ rw e
    | inr (spec, e) ↦ rw e
  ]

  unless_empty-unless_empty :
      (o : Option (List String)) → unless_empty (unless_empty o) ≡ unless_empty o
  unless_empty-unless_empty none = refl
  unless_empty-unless_empty (some []) = refl
  unless_empty-unless_empty (some (x ∷ xs)) = refl

  convert_event-convert_event :
      (e : StatefulEvent) → convert_event (convert_event e) ≡ convert_event e
  unfolding convert_event
  convert_event-convert_event e = rw (
    unless_empty-unless_empty (deps_of e.event),
    unless_empty-unless_empty (event_deps_of e.event),
    unless_empty-unless_empty (usage_of e.event),
    unless_empty-unless_empty (event_usage_of e.event),
  )

  pub convert_file-copy_convert :
      (f : ModuleStateFile)
      → convert_file (copy_file hex (convert_file f)) ≡ copy_file hex (convert_file f)
  unfolding convert_file copy_file copy_element convert_event
  convert_file-copy_convert [] = refl
  convert_file-copy_convert ((n, FileElement.contract b) ∷ f) = λ i.
      (
        n,
        FileElement.contract (record b {
          args = convert_args-copy_list b.args i;
          deploy_meta_data = convert_deploy-copy_deployed b.deploy_meta_data i;
        }),
      )
      ∷ convert_file-copy_convert f i
  convert_file-copy_convert ((n, FileElement.event e) ∷ f) = λ i.
      (
        n,
        FileElement.event
            (convert_event-convert_event (record e { tx_data = copy_tx_data hex e.tx_data }) i),
      )
      ∷ convert_file-copy_convert f i

  convert_file-copy_state :
      (st : ModuleState)
      → convert_file (copy_file hex (convert_state st)) ≡ copy_file hex (convert_state st)
  unfolding convert_file copy_file copy_element convert_state convert_event
  convert_file-copy_state [] = refl
  convert_file-copy_state ((n, Element.contract b) ∷ f) = λ i.
      (
        n,
        FileElement.contract (record (convert_binding_to_meta_data b) {
          args = convert_args-copy_list b.args i;
          deploy_meta_data = convert_deploy-copy_deployed b.deploy_meta_data i;
        }),
      )
      ∷ convert_file-copy_state f i
  convert_file-copy_state ((n, Element.event e) ∷ f) = λ i.
      (
        n,
        FileElement.event
            (convert_event-convert_event (record e { tx_data = copy_tx_data hex e.tx_data }) i),
      )
      ∷ convert_file-copy_state f i

  -- A live module state that is stored, read, and stored again as it was read, is read the second time as it was
  -- stored at first: converted to metadata and copied, once. No step of this throws.
  pub store_new_state-stable :
      (name : String) (state : ModuleState) (r : Repo)
      → ((store_new_state hex name state
            >> (get_state_if_exist hex name
                >>= (λ file. store_read_state hex name file >> get_state_if_exist hex name)))
          r).0
        ≡ ok (copy_file hex (convert_state state))
  unfolding store_new_state get_state_if_exist store_read_state
  store_new_state-stable name state r = rw (
    read-stored name (convert_state state) r,
    convert_file-copy_state state,
    read-stored name (copy_file hex (convert_state state))
        (store_file hex name (convert_state state) r),
    copy_file-copy_file (convert_state state),
  )
