-- ===== src/Reconcile/Invalidate.antt =====
-- Reconcile: the objects that the result shares with the state file, and their invalidation
-- (_invalidateStateElementDependant and _invalidateBindingEventsDependant).
use hardhat_ignition.Prelude.{
  ℕ, zero, suc, Bool, false, Option, none, some, List, [], ◌∷◌, ◌++◌, String, Dict, lookup, insert,
  if◌then◌else◌,
}
use hardhat_ignition.Types.{
  StatefulEvent, Value, EventsDepRef, ContractBinding, Element, FileElement, ModuleState,
  ModuleStateFile, Result, ok, err, ◌>>=◌, type_error, stack_overflow,
}

pub data Source : Type 0 where
  own taken : Source
  stored_event new_event : Source

pub record Reconciliation : Type 0 where
  pub objects : ModuleStateFile
  pub emptied : Bool
  pub always : Option Bool
  pub live : ModuleState
  pub resolved : Dict Source

-- `moduleStateFile[name]`
abbrev pub in_file : Reconciliation → String → Option FileElement
in_file st name = if st.emptied then none else lookup name st.objects

abbrev pub set_object : String → FileElement → Reconciliation → Reconciliation
set_object name e st = record st { objects = insert name e st.objects }

abbrev pub add_resolved : String → Source → Reconciliation → Reconciliation
add_resolved name source st = record st { resolved = insert name source st.resolved }

-- The address in a binding's `deployMetaData`, which is the file's object once the contract is taken over.
abbrev pub file_address : Option FileElement → Option String
file_address (some (FileElement.contract m)) = m.deploy_meta_data.contract_address
file_address _ = none

abbrev pub live_address : Option Element → Option String
live_address (some (Element.contract b)) = b.deploy_meta_data.contract_address
live_address _ = none

abbrev pub address_of : Reconciliation → String → Option String
address_of st name = elim (lookup name st.resolved) [
  | some Source.taken ↦ file_address (lookup name st.objects)
  | _ ↦ live_address (lookup name st.live)
]

-- invalidateSingleEvent
abbrev pub reset_event : StatefulEvent → StatefulEvent
reset_event e = if e.executed then record e { executed = false; tx_data = [] } else e

unfoldable pub invalidate_event : String → Reconciliation → Reconciliation
invalidate_event name st = elim (in_file st name) [
  | some (FileElement.event e) ↦ set_object name (FileElement.event (reset_event e)) st
  | _ ↦ st
]

unfoldable pub invalidate_events : List String → Reconciliation → Reconciliation
invalidate_events [] st = st
invalidate_events (name ∷ names) st = invalidate_events names (invalidate_event name st)

-- _invalidateBindingEventsDependant
abbrev pub events_in_order : EventsDepRef → List String
events_in_order d =
    d.on_change ++ (d.before_compile ++ (d.after_compile ++ (d.before_deploy ++ d.after_deploy)))

-- `moduleStateFile[name].deployMetaData.contractAddress = undefined`
unfoldable pub forget_address : String → Reconciliation → Result Reconciliation
forget_address name st = elim (in_file st name) [
  | some (FileElement.contract m) ↦ ok (
      set_object name
        (FileElement.contract
          (record m { deploy_meta_data = record m.deploy_meta_data { contract_address = none } }))
        st)
  | _ ↦ err type_error
]

-- `resolvedModule[name] as ContractBinding`, of which the arguments are read.
abbrev pub binding_of : Option Element → Result ContractBinding
binding_of (some (Element.contract b)) = ok b
binding_of _ = err type_error

module _ (invalidate : ContractBinding → Reconciliation → Result Reconciliation) where
  -- The body of the loop over the arguments.
  unfoldable pub invalidate_named : String → Reconciliation → Result Reconciliation
  invalidate_named name st = elim (address_of st name) [
    | none ↦ ok st
    | some _ ↦ do
      st' ← forget_address name st
      b ← binding_of (lookup name st'.live)
      invalidate b st'
  ]

  unfoldable pub invalidate_arg : Value → Reconciliation → Result Reconciliation
  invalidate_arg Value.undefined st = err type_error
  invalidate_arg Value.null st = err type_error
  invalidate_arg (Value.binding name) st = invalidate_named name st
  invalidate_arg (Value.meta_data name) st = invalidate_named name st
  invalidate_arg _ st = ok st

  unfoldable pub invalidate_args : List Value → Reconciliation → Result Reconciliation
  invalidate_args [] st = ok st
  invalidate_args (v ∷ vs) st = do st' ← invalidate_arg v st; invalidate_args vs st'

-- _invalidateStateElementDependant, with the depth of calls that the engine allows.
unfoldable pub invalidate_dependant : ℕ → ContractBinding → Reconciliation → Result Reconciliation
invalidate_dependant zero b st = err stack_overflow
invalidate_dependant (suc depth) b st = do
  st' ← invalidate_args (invalidate_dependant depth) b.args st
  ok (invalidate_events (events_in_order b.events_deps) st')
