-- ===== src/Samples.antt =====
-- Small bindings and events for the tests.
use hardhat_ignition.Prelude.{String, true, false, none, some, List, [], ◌∷◌}
use hardhat_ignition.Types.{
  Value, EventType, BaseEvent, Event, StatefulEvent, EventsDepRef, Deployed, ContractBinding,
  Element, ModuleState,
}

abbrev pub no_events : EventsDepRef
no_events = record {
  before_compile = [];
  after_compile = [];
  before_deploy = [];
  after_deploy = [];
  on_change = [];
}

abbrev pub not_deployed : Deployed
not_deployed = record {
  last_event_name = none;
  logically_deployed = none;
  contract_address = none;
  should_redeploy = false;
  deployment_spec = some (record { deploy_fn = false; deps = [] });
}

abbrev pub plain : String → List Value → ContractBinding
plain name args = record {
  name = name;
  contract_name = name;
  args = args;
  events_deps = no_events;
  deploy_meta_data = not_deployed;
  module_name = "Module";
  sub_module_name_depth = [];
  bytecode = [];
  abi = some [];
  library = false;
  libraries = some [];
  tx_data = none;
  contract_tx_progress = some 0;
  force_flag = false;
  wired = true;
}

abbrev pub hook : String → EventType → (deps usage : List String) → BaseEvent
hook name type deps usage = record {
  name = name;
  event_type = type;
  deps = deps;
  event_deps = [];
  usage = usage;
  event_usage = [];
  module_name = "Module";
  sub_module_name_depth = [];
}

abbrev pub pending : BaseEvent → StatefulEvent
pending e = record { event = Event.contract_event e; executed = false; tx_data = [] }

-- A token, an exchange that takes it, and a hook that runs after both.
abbrev pub token : ContractBinding
token = plain "Token" []

abbrev pub exchange : ContractBinding
exchange = plain "Exchange" (Value.binding "Token" ∷ [])

abbrev pub set_up : BaseEvent
set_up = hook "setUp" EventType.after_deploy_event ("Exchange" ∷ []) ("Token" ∷ [])

abbrev pub shop : ModuleState
shop =
    ("Token", Element.contract token)
    ∷ ("Exchange", Element.contract exchange)
    ∷ ("setUp", Element.event (pending set_up))
    ∷ []
