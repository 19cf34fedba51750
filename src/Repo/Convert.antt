-- ===== src/Repo/Convert.antt =====
-- Repo: the conversion of module states to what is stored.
use hardhat_ignition.Prelude.{String, false, Option, none, some, List, [], ◌∷◌, or_else}
use hardhat_ignition.Types.{
  event_name, event_type_of, deps_of, event_deps_of, usage_of, event_usage_of, meta_data_event,
  StatefulEvent, new_stateful_event, Value, Deployed, ContractBinding, ContractBindingMetaData,
  Element, FileElement, ModuleState, ModuleStateFile,
}

-- convertBindingToMetaData, on the arguments: a binding is replaced by its metadata, also in the live list.
abbrev pub convert_arg : Value → Value
convert_arg (Value.binding name) = Value.meta_data name
convert_arg value = value

abbrev pub convert_args : List Value → List Value
convert_args [] = []
convert_args (v ∷ vs) = convert_arg v ∷ convert_args vs

-- convertDeployMetaData: the same object, with a deployment specification from now on.
abbrev pub convert_deploy_meta_data : Deployed → Deployed
convert_deploy_meta_data d = record d {
  deployment_spec = some (or_else d.deployment_spec (record { deploy_fn = false; deps = [] }));
}

-- What the conversion does to the live binding.
abbrev pub touch_binding : ContractBinding → ContractBinding
touch_binding b = record b {
  args = convert_args b.args;
  deploy_meta_data = convert_deploy_meta_data b.deploy_meta_data;
}

abbrev pub convert_binding_to_meta_data : ContractBinding → ContractBindingMetaData
convert_binding_to_meta_data b = record {
  name = b.name;
  contract_name = b.contract_name;
  args = convert_args b.args;
  bytecode = b.bytecode;
  abi = b.abi;
  libraries = b.libraries;
  tx_data = b.tx_data;
  deploy_meta_data = convert_deploy_meta_data b.deploy_meta_data;
  library = b.library;
}

-- The same for what is metadata already.
abbrev pub convert_meta_data : ContractBindingMetaData → ContractBindingMetaData
convert_meta_data b = record b {
  args = convert_args b.args;
  deploy_meta_data = convert_deploy_meta_data b.deploy_meta_data;
}

-- `if (checkIfExist(list) && list.length > 0)`
abbrev pub unless_empty : Option (List String) → Option (List String)
unless_empty (some (x ∷ xs)) = some (x ∷ xs)
unless_empty _ = none

unfoldable pub convert_event : StatefulEvent → StatefulEvent
convert_event e =
    new_stateful_event
      (meta_data_event (record {
        name = event_name e.event;
        event_type = event_type_of e.event;
        deps = unless_empty (deps_of e.event);
        event_deps = unless_empty (event_deps_of e.event);
        usage = unless_empty (usage_of e.event);
        event_usage = unless_empty (event_usage_of e.event);
      }))
      e.executed e.tx_data

-- convertStatesToMetaData, on a module state and on what was read before.
unfoldable pub convert_state : ModuleState → ModuleStateFile
convert_state [] = []
convert_state ((name, Element.contract b) ∷ rest) =
    (name, FileElement.contract (convert_binding_to_meta_data b)) ∷ convert_state rest
convert_state ((name, Element.event e) ∷ rest) =
    (name, FileElement.event (convert_event e)) ∷ convert_state rest

unfoldable pub convert_file : ModuleStateFile → ModuleStateFile
convert_file [] = []
convert_file ((name, FileElement.contract b) ∷ rest) =
    (name, FileElement.contract (convert_meta_data b)) ∷ convert_file rest
convert_file ((name, FileElement.event e) ∷ rest) =
    (name, FileElement.event (convert_event e)) ∷ convert_file rest

-- What the conversion does to the live module state.
unfoldable pub touch_state : ModuleState → ModuleState
touch_state [] = []
touch_state ((name, Element.contract b) ∷ rest) =
    (name, Element.contract (touch_binding b)) ∷ touch_state rest
touch_state ((name, Element.event e) ∷ rest) = (name, Element.event e) ∷ touch_state rest
