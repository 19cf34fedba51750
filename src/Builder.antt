-- ===== src/Builder.antt =====
-- interfaces/hardhat-ignition.ts: how a module is put together (ModuleBuilder, and the methods of
-- ContractBinding and GroupedDependencies that a module function calls).
--
-- A module function is a sequence of calls; `Builder/Calls` runs it. A binding is named by its place in the module.
-- Parameters, actions, signers and the fields `this[name]` that make names available to the module
-- function are left out.
pub mod Calls
pub mod Hooks
pub mod Register
pub mod Complete
pub mod Compile
pub mod Resolve
mod Tests
use hardhat_ignition.Prelude.{
  String, Bool, true, false, Option, none, some, List, [], ◌∷◌, ◌++◌, if◌then◌else◌, includes, Dict,
  lookup, insert,
}
use hardhat_ignition.Types.{
  EventType, BaseEvent, ModuleEvent, Event, contract_event, new_stateful_event, Value, EventsDepRef,
  Deployed, DeploymentSpec, ContractBinding, Bindings, Events, Result, ok, err, Error, exited,
  type_error, bindings_conflict, template_not_found, event_name_exists, event_doesnt_exist,
  should_redeploy_already_defined, or_fail, ◌>>=◌,
}
use hardhat_ignition.Resolver.{ModuleEvents}

pub record ModuleBuilder : Type 0 where
  pub bindings : Bindings
  pub contract_events : Events
  pub module_events : ModuleEvents
  pub templates : Dict String
  pub module_name : String
  pub sub_module_name_depth : List String

-- What an event depends on or uses.
pub data Dependency : Type 0 where
  binding event : String → Dependency

-- The hooks of a contract, one for each method that registers an event.
pub data Hook : Type 0 where
  before_compile after_compile before_deploy after_deploy on_change : Hook

abbrev pub type_of : Hook → EventType
type_of before_compile = EventType.before_compile_event
type_of after_compile = EventType.after_compile_event
type_of before_deploy = EventType.before_deploy_event
type_of after_deploy = EventType.after_deploy_event
type_of on_change = EventType.on_change_event

-- The list in `eventsDeps` that belongs to a hook.
abbrev pub hooks : Hook → EventsDepRef → List String
hooks before_compile r = r.before_compile
hooks after_compile r = r.after_compile
hooks before_deploy r = r.before_deploy
hooks after_deploy r = r.after_deploy
hooks on_change r = r.on_change

-- `this.eventsDeps.<hook>.push(eventName)`
abbrev pub push_hook : Hook → String → EventsDepRef → EventsDepRef
push_hook before_compile x r = record r { before_compile = r.before_compile ++ x ∷ [] }
push_hook after_compile x r = record r { after_compile = r.after_compile ++ x ∷ [] }
push_hook before_deploy x r = record r { before_deploy = r.before_deploy ++ x ∷ [] }
push_hook after_deploy x r = record r { after_deploy = r.after_deploy ++ x ∷ [] }
push_hook on_change x r = record r { on_change = r.on_change ++ x ∷ [] }

-- The loops of generateBaseEvent, which part the contracts from the events.
abbrev pub binding_names : List Dependency → List String
binding_names [] = []
binding_names (binding n ∷ ds) = n ∷ binding_names ds
binding_names (event n ∷ ds) = binding_names ds

abbrev pub event_names : List Dependency → List String
event_names [] = []
event_names (binding n ∷ ds) = event_names ds
event_names (event n ∷ ds) = n ∷ event_names ds

unfoldable pub generate_base_event :
    String → EventType → (dependencies usages : List Dependency) → ModuleBuilder → BaseEvent
generate_base_event event_name type dependencies usages m = record {
  name = event_name;
  event_type = type;
  deps = binding_names dependencies;
  event_deps = event_names dependencies;
  usage = binding_names usages;
  event_usage = event_names usages;
  module_name = m.module_name;
  sub_module_name_depth = m.sub_module_name_depth;
}

-- The defaults that the constructor of ContractBinding gives.
abbrev pub new_deploy_meta_data : Deployed
new_deploy_meta_data = record {
  last_event_name = none;
  logically_deployed = none;
  contract_address = none;
  should_redeploy = false;
  deployment_spec = some (record { deploy_fn = false; deps = [] });
}

abbrev pub no_hooks : EventsDepRef
no_hooks = record {
  before_compile = [];
  after_compile = [];
  before_deploy = [];
  after_deploy = [];
  on_change = [];
}

unfoldable pub new_contract_binding :
    (name contract_name : String) → List Value → ModuleBuilder → ContractBinding
new_contract_binding name contract_name args m = record {
  name = name;
  contract_name = contract_name;
  args = args;
  events_deps = no_hooks;
  deploy_meta_data = new_deploy_meta_data;
  module_name = m.module_name;
  sub_module_name_depth = m.sub_module_name_depth;
  bytecode = [];
  abi = none;
  library = false;
  libraries = none;
  tx_data = none;
  contract_tx_progress = some 0;
  force_flag = false;
  wired = false;
}

abbrev pub set_binding : String → ContractBinding → ModuleBuilder → ModuleBuilder
set_binding name b m = record m { bindings = insert name b m.bindings }

-- ModuleBuilder.contract
unfoldable pub contract : String → List Value → ModuleBuilder → Result ModuleBuilder
contract name args m = elim (lookup name m.bindings) [
  | some _ ↦ err (exited 0)
  | none ↦ ok (set_binding name (new_contract_binding name name args m) m)
]

abbrev pub with_library : ContractBinding → ContractBinding
with_library b = record b { library = true }

abbrev pub with_force : ContractBinding → ContractBinding
with_force b = record b { force_flag = true }

abbrev pub with_should_redeploy : ContractBinding → ContractBinding
with_should_redeploy b = record b {
  deploy_meta_data = record b.deploy_meta_data { should_redeploy = true };
}

abbrev pub with_deploy_fn : List String → ContractBinding → ContractBinding
with_deploy_fn deps b = record b {
  deploy_meta_data = record b.deploy_meta_data {
    deployment_spec = some (record { deploy_fn = true; deps = deps });
  };
}

abbrev pub with_hook : Hook → String → ContractBinding → ContractBinding
with_hook h event_name b = record b { events_deps = push_hook h event_name b.events_deps }

-- A method of a binding that changes the binding: setLibrary, force, shouldRedeploy, deployFn.
unfoldable pub update_binding :
    (ContractBinding → ContractBinding) → String → ModuleBuilder → Result ModuleBuilder
update_binding f owner m = do
  b ← or_fail (lookup owner m.bindings) type_error
  ok (set_binding owner (f b) m)

-- ModuleBuilder.library
unfoldable pub library : String → List Value → ModuleBuilder → Result ModuleBuilder
library name args m = do m' ← contract name args m; update_binding with_library name m'

-- ModuleBuilder.contractTemplate
unfoldable pub contract_template : String → ModuleBuilder → Result ModuleBuilder
contract_template name m = ok (record m { templates = insert name name m.templates })

-- ModuleBuilder.bindTemplate
unfoldable pub bind_template :
    (name template_name : String) → List Value → ModuleBuilder → Result ModuleBuilder
bind_template name template_name args m = elim (lookup name m.bindings) [
  | some _ ↦ err bindings_conflict
  | none ↦ do
    contract_name ← or_fail (lookup template_name m.templates) template_not_found
    ok (set_binding name (new_contract_binding name contract_name args m) m)
]

-- ModuleBuilder.addEvent
unfoldable pub add_event : String → Event → ModuleBuilder → Result ModuleBuilder
add_event event_name e m = elim (lookup event_name m.contract_events) [
  | some _ ↦ err (event_name_exists event_name)
  | none ↦ ok (record m {
    contract_events = insert event_name (new_stateful_event e false []) m.contract_events;
  })
]

-- ContractBinding.beforeDeploy, afterDeploy, beforeCompile, afterCompile, onChange.
unfoldable pub binding_hook :
    Hook → (owner event_name : String) → List Dependency → ModuleBuilder → Result ModuleBuilder
binding_hook h owner event_name usages m = do
  b ← or_fail (lookup owner m.bindings) type_error
  if includes (hooks h b.events_deps) event_name
      then err (event_name_exists event_name)
      else add_event event_name
          (contract_event
            (generate_base_event event_name (type_of h) (binding owner ∷ []) usages m))
          (set_binding owner (with_hook h event_name b) m)

-- The loop of a grouped hook over its dependencies.
unfoldable pub push_hooks : Hook → String → List Dependency → ModuleBuilder → Result ModuleBuilder
push_hooks h event_name [] m = ok m
push_hooks h event_name (event n ∷ ds) m = push_hooks h event_name ds m
push_hooks h event_name (binding n ∷ ds) m = do
  b ← or_fail (lookup n m.bindings) type_error
  push_hooks h event_name ds (
      if includes (hooks h b.events_deps) event_name
      then m
      else set_binding n (with_hook h event_name b) m)

-- GroupedDependencies.beforeDeploy, afterDeploy, beforeCompile, afterCompile, onChange.
unfoldable pub group_hook :
    Hook → List Dependency → String → List Dependency → ModuleBuilder → Result ModuleBuilder
group_hook h dependencies event_name usages m = do
  m' ← push_hooks h event_name dependencies m
  add_event event_name
      (contract_event (generate_base_event event_name (type_of h) dependencies usages m)) m'

-- GroupedDependencies.shouldRedeploy
unfoldable pub group_should_redeploy : List Dependency → ModuleBuilder → Result ModuleBuilder
group_should_redeploy [] m = ok m
group_should_redeploy (event n ∷ ds) m = group_should_redeploy ds m
group_should_redeploy (binding n ∷ ds) m = do
  b ← or_fail (lookup n m.bindings) type_error
  if b.deploy_meta_data.should_redeploy
      then err should_redeploy_already_defined
      else group_should_redeploy ds (set_binding n (with_should_redeploy b) m)

-- The constructor of ModuleBuilder, in the session of a module.
abbrev pub new_module_builder : String → ModuleBuilder
new_module_builder name = record {
  bindings = [];
  contract_events = [];
  module_events = record { on_start = []; on_success = []; on_completion = []; on_fail = [] };
  templates = [];
  module_name = name;
  sub_module_name_depth = [];
}
