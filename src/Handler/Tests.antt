-- ===== src/Handler/Tests.antt =====
-- Handler: a hook that runs after an exchange was deployed.
use hardhat_ignition.Prelude.{
  none, ◌≡◌, refl, inl, ℤ, String, true, some, [], ◌∷◌, All, lookup, insert, name_dec,
}
use hardhat_ignition.Types.{
  ok, Text, StatefulEvent, ContractBinding, Element, ModuleState, err, event_execution_error,
  user_error,
}
use hardhat_ignition.Effects.{Eff, return, throw}
use hardhat_ignition.Samples.{exchange, set_up, pending}
use hardhat_ignition.Repo.{
  convert_event, convert_state, convert_file, touch_state, copy_value, copy_items, copy_element,
  copy_file, get_module_state, store_file, get_state_if_exist, store_new_state, store_read_state,
  store_single_binding, event_in, finished_event, finish_current_event,
}
use hardhat_ignition.Handler.{
  World, is_deployed, check_dependency, execute_hook, finish_event, handle_event, dispatch,
  store_dependency, store_dependencies, execute_event,
}
use hardhat_ignition.Handler.Runs.{HasAddress, execute_event-once, execute_event-deployed}
use hardhat_ignition.Handler.Marks.{
  IsExecuted, event_of, handle_event-marks, handle_event-again, handle_event-throws,
}

program : Unit {0}
unfolding lookup insert name_dec convert_event convert_state convert_file touch_state copy_value
    copy_items copy_element copy_file get_module_state store_file get_state_if_exist store_new_state
    store_read_state store_single_binding finished_event finish_current_event check_dependency
    execute_hook finish_event handle_event dispatch store_dependency execute_event
program = tt

abbrev hex : ℤ → Text
hex n = []

abbrev quiet : String → Eff World (Unit {0})
quiet name = return tt

abbrev broken : String → Eff World (Unit {0})
broken name = throw user_error

abbrev deployed_exchange : ContractBinding
deployed_exchange = record exchange {
  deploy_meta_data = record exchange.deploy_meta_data { contract_address = some "0x1" };
}

abbrev live : ModuleState
live =
    ("Exchange", Element.contract deployed_exchange)
    ∷ ("setUp", Element.event (pending set_up))
    ∷ []

abbrev world : ModuleState → World
world state = record {
  repo = record {
    network_name = "local";
    state = ("local", ("Shop", convert_state live) ∷ []) ∷ [];
    current_module_name = "Shop";
    current_event_name = "";
    test = true;
  };
  live = state;
  nonces = [];
  sent = [];
}

abbrev before : World
before = world live

abbrev done_event : StatefulEvent
done_event = record (pending set_up) { executed = true }

abbrev done_world : World
done_world =
    world
      (("Exchange", Element.contract deployed_exchange) ∷ ("setUp", Element.event done_event) ∷ [])

-- The hook that would throw is not called.
not_called :
    execute_event hex broken "Shop" done_event done_world
    ≡ store_dependencies hex done_event.event done_world
unfolding program
not_called = execute_event-once hex broken "Shop" done_event done_event done_world refl refl refl

execute_event-deployed_example : All (λ d. HasAddress (lookup d before.live)) ("Exchange" ∷ [])
unfolding program
execute_event-deployed_example =
    execute_event-deployed hex quiet "Shop" (pending set_up) (pending set_up) ("Exchange" ∷ [])
      before (execute_event hex quiet "Shop" (pending set_up) before).1 (inl refl) refl refl refl
      refl

handle_event-marks_example :
    IsExecuted (
      event_of (
        lookup "setUp"
          (handle_event hex quiet is_deployed "Shop" "setUp"
            (some ("Exchange" ∷ []))
            before).1.live))
    × IsExecuted (
        event_in "setUp"
          (get_module_state hex "Shop"
            (handle_event hex quiet is_deployed "Shop" "setUp"
              (some ("Exchange" ∷ []))
              before).1.repo).0)
unfolding program
handle_event-marks_example =
    handle_event-marks hex quiet "Shop" is_deployed "setUp" ("Exchange" ∷ []) (pending set_up)
      before (handle_event hex quiet is_deployed "Shop" "setUp" (some ("Exchange" ∷ [])) before).1
      (λ x. refl) refl refl refl refl

handle_event-again_example :
    handle_event hex broken is_deployed "Shop" "setUp" none
      (handle_event hex quiet is_deployed "Shop" "setUp" (some ("Exchange" ∷ [])) before).1
    ≡ (ok tt, (handle_event hex quiet is_deployed "Shop" "setUp" (some ("Exchange" ∷ [])) before).1)
unfolding program
handle_event-again_example =
    handle_event-again hex quiet "Shop" broken is_deployed is_deployed "setUp" ("Exchange" ∷ [])
      none (pending set_up) before
      (handle_event hex quiet is_deployed "Shop" "setUp" (some ("Exchange" ∷ [])) before).1
      (λ x. refl) refl refl refl refl

broken-throws :
    handle_event hex broken is_deployed "Shop" "setUp" (some ("Exchange" ∷ [])) before ≡ (
      err (event_execution_error "setUp"),
      record before { repo = record before.repo { current_event_name = "setUp" } },
    )
unfolding program
broken-throws =
    handle_event-throws hex broken "Shop" is_deployed "setUp" ("Exchange" ∷ []) (pending set_up)
      before before (record before { repo = record before.repo { current_event_name = "setUp" } })
      user_error refl refl refl refl
