-- ===== src/Builder/Calls.antt =====
-- Builder: a module function as a sequence of its calls, with the module events among them.
use hardhat_ignition.Prelude.{String, List, [], ◌∷◌, Dict, insert}
use hardhat_ignition.Types.{EventType, ModuleEvent, Value, Result, ok, ◌>>=◌}
use hardhat_ignition.Builder.{
  ModuleBuilder, Dependency, Hook, contract, with_library, with_force, with_should_redeploy,
  with_deploy_fn, update_binding, library, contract_template, bind_template, binding_hook,
  group_hook, group_should_redeploy, binding_hook, update_binding, bind_template, group_hook,
}

-- ModuleBuilder.onStart, onCompletion, onSuccess, onFail: an assignment under the name.
abbrev pub module_event_at : String → EventType → Dict ModuleEvent → Dict ModuleEvent
module_event_at name type = insert name (record { name = name; event_type = type })

unfoldable pub on_start : String → ModuleBuilder → ModuleBuilder
on_start name m = record m {
  module_events = record m.module_events {
    on_start = module_event_at name EventType.on_start m.module_events.on_start;
  };
}

unfoldable pub on_completion : String → ModuleBuilder → ModuleBuilder
on_completion name m = record m {
  module_events = record m.module_events {
    on_completion = module_event_at name EventType.on_completion m.module_events.on_completion;
  };
}

unfoldable pub on_success : String → ModuleBuilder → ModuleBuilder
on_success name m = record m {
  module_events = record m.module_events {
    on_success = module_event_at name EventType.on_success m.module_events.on_success;
  };
}

unfoldable pub on_fail : String → ModuleBuilder → ModuleBuilder
on_fail name m = record m {
  module_events = record m.module_events {
    on_fail = module_event_at name EventType.on_fail m.module_events.on_fail;
  };
}

-- A call of a module function.
pub data Call : Type 0 where
  call_contract call_library : String → List Value → Call
  call_template : String → Call
  call_bind_template : (name template_name : String) → List Value → Call
  call_hook : Hook → (owner event_name : String) → List Dependency → Call
  call_group_hook : Hook → List Dependency → String → List Dependency → Call
  call_set_library call_force call_should_redeploy : String → Call
  call_deploy_fn : String → List String → Call
  call_group_should_redeploy : List Dependency → Call
  call_on_start call_on_completion call_on_success call_on_fail : String → Call

unfoldable pub perform : Call → ModuleBuilder → Result ModuleBuilder
perform (call_contract n args) m = contract n args m
perform (call_library n args) m = library n args m
perform (call_template n) m = contract_template n m
perform (call_bind_template n t args) m = bind_template n t args m
perform (call_hook h owner x usages) m = binding_hook h owner x usages m
perform (call_group_hook h ds x usages) m = group_hook h ds x usages m
perform (call_set_library n) m = update_binding with_library n m
perform (call_force n) m = update_binding with_force n m
perform (call_should_redeploy n) m = update_binding with_should_redeploy n m
perform (call_deploy_fn n deps) m = update_binding (with_deploy_fn deps) n m
perform (call_group_should_redeploy ds) m = group_should_redeploy ds m
perform (call_on_start n) m = ok (on_start n m)
perform (call_on_completion n) m = ok (on_completion n m)
perform (call_on_success n) m = ok (on_success n m)
perform (call_on_fail n) m = ok (on_fail n m)

-- A module function, run to its end.
unfoldable pub build : List Call → ModuleBuilder → Result ModuleBuilder
build [] m = ok m
build (c ∷ cs) m = do m' ← perform c m; build cs m'
