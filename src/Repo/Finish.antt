-- ===== src/Repo/Finish.antt =====
-- Repo: the end of an event, in the live module state and in the stored one.
use hardhat_ignition.Prelude.{
  ◌≡◌, ◌∙◌, inl, inr, sym, subst, ap, String, true, none, some, [], ◌∷◌, ℤ, lookup, insert,
  lookup-insert_self, arith, Option-cases,
}
use hardhat_ignition.Types.{
  Text, StatefulEvent, FileElement, Element, ModuleState, ModuleStateFile, ok, err, cli_error,
}
use hardhat_ignition.Repo.{
  Repo, convert_event, convert_state, touch_state, copy_tx_data, copy_element, get_module_state,
  store_file, get_state_if_exist, store_new_state, event_in, finished_event, finish_current_event,
}
use hardhat_ignition.Repo.Copies.{read-stored}
use hardhat_ignition.Repo.Reads.{
  lookup-copy_file, copy_element-event, tx_data-copied, get_module_state-current,
  copy_file-get_module_state,
}

lookup-touch_state :
    (name : String) (e : StatefulEvent) (state : ModuleState)
    → lookup name state ≡ some (Element.event e)
    → lookup name (touch_state state) ≡ some (Element.event e)
unfolding lookup touch_state
lookup-touch_state name e [] h = h
lookup-touch_state name e ((j, Element.contract b) ∷ m) h =
    ground (arith, lookup-touch_state name e m)
lookup-touch_state name e ((j, Element.event d) ∷ m) h = ground (arith, lookup-touch_state name e m)

lookup-convert_state :
    (name : String) (e : StatefulEvent) (state : ModuleState)
    → lookup name state ≡ some (Element.event e)
    → lookup name (convert_state state) ≡ some (FileElement.event (convert_event e))
unfolding lookup convert_state
lookup-convert_state name e [] h = ground arith
lookup-convert_state name e ((j, Element.contract b) ∷ m) h =
    ground (arith, lookup-convert_state name e m)
lookup-convert_state name e ((j, Element.event d) ∷ m) h =
    ground (arith, lookup-convert_state name e m)

event_in-lookup :
    (name : String) (file : ModuleStateFile) (e : StatefulEvent)
    → event_in name file ≡ some e
    → lookup name file ≡ some (FileElement.event e)
event_in-lookup name file e h = elim (Option-cases (lookup name file)) [
  | inl q ↦ absurd (let p : event_in name file ≡ none = rw (q, event_in) in cc)
  | inr (FileElement.contract b, q) ↦
      absurd (let p : event_in name file ≡ none = rw (q, event_in) in cc)
  | inr (FileElement.event d, q) ↦ let p : event_in name file ≡ some d = rw (q, event_in) in cc
]

module _ (hex : ℤ → Text) where
  -- An event in a state that was read
  read_event-copied :
      (name M : String) (r : Repo) (e : StatefulEvent)
      → lookup name (get_module_state hex M r).0 ≡ some (FileElement.event e)
      → copy_tx_data hex e.tx_data ≡ e.tx_data
  read_event-copied name M r e h = tx_data-copied hex e (
      let q = lookup-copy_file hex name (FileElement.event e) (get_module_state hex M r).0 h in
      let p : lookup name (get_module_state hex M r).0
          ≡ some (copy_element hex (FileElement.event e)) =
        subst (λ f. lookup name f ≡ some (copy_element hex (FileElement.event e)))
          (copy_file-get_module_state hex M r) q in
      sym p ∙ h)

  pub finish-eq :
      (M : String) (state : ModuleState) (name : String) (r : Repo) (e : StatefulEvent)
      → lookup name (get_module_state hex M r).0 ≡ some (FileElement.event e)
      → r.current_module_name ≡ M
      → finish_current_event hex M state name r ≡ (
          let state' = insert name (Element.event (record e { executed = true })) state in
          (
            ok (touch_state state'),
            record (store_file hex M (convert_state state') (get_module_state hex M r).1) {
              current_event_name = "";
            },
          ))
  unfolding finish_current_event get_state_if_exist store_new_state finished_event touch_state
      store_file
  finish-eq M state name r e h c = rw (h, finished_event, get_module_state-current hex M r, c)

  pub finish-throws :
      (M : String) (state : ModuleState) (name : String) (r : Repo)
      → event_in name (get_module_state hex M r).0 ≡ none
      → finish_current_event hex M state name r ≡ (err cli_error, (get_module_state hex M r).1)
  unfolding finish_current_event get_state_if_exist finished_event
  finish-throws M state name r h = elim (Option-cases (lookup name (get_module_state hex M r).0)) [
    | inl e ↦ rw (e, finished_event)
    | inr (FileElement.contract b, e) ↦ rw (e, finished_event)
    | inr (FileElement.event d, e) ↦
        absurd
          (let q : event_in name (get_module_state hex M r).0 ≡ some d = rw (e, event_in) in cc)
  ]

  read-clear_event :
      (M : String) (r : Repo)
      → (get_module_state hex M (record r { current_event_name = "" })).0
        ≡ (get_module_state hex M r).0
  unfolding get_module_state
  read-clear_event M r = elim (Option-cases (lookup r.network_name r.state)) [
    | inl e ↦ rw (e, get_module_state)
    | inr (ms, e) ↦ elim (Option-cases (lookup M ms)) [
      | inl e2 ↦ rw (e, e2, get_module_state)
      | inr (f, e2) ↦ rw (e, e2, get_module_state)
    ]
  ]

  same_tx_data :
      (e : StatefulEvent)
      → copy_tx_data hex e.tx_data ≡ e.tx_data
      → some (record (convert_event e) { tx_data = copy_tx_data hex e.tx_data })
        ≡ some (convert_event e)
  unfolding convert_event
  same_tx_data e c = rw c

  finished_read :
      (M : String) (state : ModuleState) (name : String) (e : StatefulEvent) (r : Repo)
      → lookup name state ≡ some (Element.event e)
      → copy_tx_data hex e.tx_data ≡ e.tx_data
      → event_in name
          (get_module_state hex M
            (record (store_file hex M (convert_state state) r) { current_event_name = "" })).0
        ≡ some (convert_event e)
  finished_read M state name e r h c =
      let p =
        lookup-copy_file hex name (FileElement.event (convert_event e)) (convert_state state)
          (lookup-convert_state name e state h) in
      rw
        (
          read-clear_event M (store_file hex M (convert_state state) r),
          read-stored hex M (convert_state state) r,
          p,
          copy_element-event hex e,
          event_in,
        )
        (same_tx_data e c)

  -- Where the current module is the one given and what is read of its stored state has an event under the name,
  -- finishCurrentEvent succeeds, and the event is marked as executed both in the live module state and in what is
  -- read of the stored one afterwards, with the transactions that were stored with it.
  pub finish_current_event-executed :
      (M : String) (state : ModuleState) (name : String) (r : Repo) (e : StatefulEvent)
      → r.current_module_name ≡ M
      → event_in name (get_module_state hex M r).0 ≡ some e
      → (st : ModuleState) × ((finish_current_event hex M state name r).0 ≡ ok st)
        × (lookup name st ≡ some (Element.event (record e { executed = true })))
        × (event_in name (get_module_state hex M (finish_current_event hex M state name r).1).0
            ≡ some (record (convert_event e) { executed = true }))
  unfolding convert_event
  finish_current_event-executed M state name r e c h =
      let e' : StatefulEvent = record e { executed = true } in
      let k = event_in-lookup name (get_module_state hex M r).0 e h in
      let l = lookup-insert_self name (Element.event e') state in
      let q = finish-eq M state name r e k c in
      (
        touch_state (insert name (Element.event e') state),
        ap (λ x. x.0) q,
        lookup-touch_state name e' (insert name (Element.event e') state) l,
        rw q (
            finished_read M (insert name (Element.event e') state) name e'
              (get_module_state hex M r).1 l (read_event-copied name M r e k)),
      )
