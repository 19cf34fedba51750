-- ===== src/Handler.antt =====
-- services/modules/events/handler.ts and _executeEvent of services/ethereum/transactions/executor.ts: the execution of hooks.
--
-- A hook's function is an argument, `hook`, that may change everything and may throw. The live module state
-- stands in the world beside the repository. Log output is left out, but for what it throws.
pub mod Runs
pub mod Marks
mod Tests
use hardhat_ignition.Prelude.{
  ℕ, String, Bool, true, false, Option, none, some, List, [], ◌∷◌, ℤ, Dict, lookup, insert,
  name_dec, dec_test, if◌then◌else◌, ite,
}
use hardhat_ignition.Types.{
  Text, EventType, Event, event_name, event_type_of, deps_of, StatefulEvent, ContractBinding,
  Element, ModuleState, Result, ok, err, Check, passes, Error, type_error, stack_overflow, exited,
  invalid_big_number, user_error, network_error, cli_error, event_execution_error,
}
use hardhat_ignition.Effects.{
  Eff, return, throw, get, put, lift, catching, need, throw_if, each, ◌>>=◌, ◌>>◌,
}
use hardhat_ignition.Repo.{
  Repo, touch_binding, get_state_if_exist, store_single_binding, finish_current_event,
  finish_current_module_event,
}
use hardhat_ignition.Transactions.{NonceMap}

-- The repository, the live module state, the nonces and the transactions that were sent.
pub record World : Type 0 where
  pub repo : Repo
  pub live : ModuleState
  pub nonces : NonceMap
  pub sent : List Text

abbrev pub in_world : {A : Type 0} → World → Result A × Repo → Result A × World
in_world w (result, r) = (result, record w { repo = r })

abbrev pub on_repo : {A : Type 0} → Eff Repo A → Eff World A
on_repo call w = in_world w (call w.repo)

abbrev pub set_live : String → Element → World → World
set_live name e w = record w { live = insert name e w.live }

-- `e._isUserError || e._isCliError`: every error of services/types/errors.ts, and no other.
abbrev pub is_own_error : Error → Bool
is_own_error type_error = false
is_own_error stack_overflow = false
is_own_error (exited code) = false
is_own_error invalid_big_number = false
is_own_error user_error = false
is_own_error network_error = false
is_own_error _ = true

-- `eventElement.executed`, for what the live module state has under the name of an event.
abbrev pub executed_of : Option Element → Result Bool
executed_of none = err type_error
executed_of (some (Element.contract b)) = ok false
executed_of (some (Element.event e)) = ok e.executed

-- `eventElement.event.eventType`, as it is logged.
abbrev pub logged_type : Option Element → Check
logged_type (some (Element.event e)) = passes
logged_type _ = err type_error

-- The tests of a dependency: before a compilation, after it, and after a deployment. Where the dependency is
-- missing, the last two read a field of `undefined`.
abbrev pub is_named : Option Element → Check
is_named (some (Element.contract b)) = passes
is_named _ = err cli_error

abbrev pub is_compiled : Option Element → Check
is_compiled none = err type_error
is_compiled (some (Element.event e)) = err cli_error
is_compiled (some (Element.contract b)) = elim b.abi [ none ↦ err cli_error | some _ ↦ passes ]

abbrev pub is_deployed : Option Element → Check
is_deployed none = err type_error
is_deployed (some (Element.event e)) = err cli_error
is_deployed (some (Element.contract b)) = elim b.deploy_meta_data.contract_address [
  | none ↦ err cli_error
  | some _ ↦ passes
]

-- `lastEventName === eventName`, and `logicallyDeployed = true` where it holds.
abbrev pub mark_deployed : (event : String) → ContractBinding → ContractBinding
mark_deployed event b = elim b.deploy_meta_data.last_event_name [
  | none ↦ b
  | some last ↦
      ite (name_dec last event)
        (record b {
          deploy_meta_data = record b.deploy_meta_data { logically_deployed = some true };
        })
        b
]

abbrev pub mark_dependency : (event dep : String) → World → World
mark_dependency event dep w = elim (lookup dep w.live) [
  | some (Element.contract b) ↦ set_live dep (Element.contract (mark_deployed event b)) w
  | _ ↦ w
]

-- The body of the loops over the dependencies.
unfoldable pub check_dependency :
    (Option Element → Check) → (event dep : String) → Eff World (Unit {0})
check_dependency test event dep = do
  e ← get (λ w. lookup dep w.live)
  lift (test e)
  put (mark_dependency event dep)

-- The event types that the executor runs nothing for.
abbrev pub is_unknown : EventType → Bool
is_unknown EventType.deploy = true
is_unknown _ = false

-- EventHandler._executeEvent
unfoldable pub execute_hook : (hook : String → Eff World (Unit {0})) → String → Eff World (Unit {0})
execute_hook hook name = do
  put (λ w. record w { repo = record w.repo { current_event_name = name } })
  catching (λ e. if is_own_error e then e else event_execution_error name) (hook name)

module _ (hex : ℤ → Text) where
  -- finishCurrentEvent and finishCurrentModuleEvent with the live module state.
  unfoldable pub finish_event : (module_name name : String) → Eff World (Unit {0})
  finish_event module_name name = do
    live ← get (λ w. w.live)
    live' ← on_repo (finish_current_event hex module_name live name)
    put (λ w. record w { live = live' })

  unfoldable pub finish_module_event :
      (module_name : String) → EventType → (name : String) → Eff World (Unit {0})
  finish_module_event module_name type name = do
    live ← get (λ w. w.live)
    live' ← on_repo (finish_current_module_event hex module_name live type name)
    put (λ w. record w { live = live' })

  -- storeSingleBinding of what the live module state has under a name; without a contract it throws after
  -- it has read the stored state.
  unfoldable pub store_dependency : String → Eff World (Unit {0})
  store_dependency dep = do
    e ← get (λ w. lookup dep w.live)
    elim e [
      | some (Element.contract b) ↦ do
        on_repo (store_single_binding hex b)
        put (set_live dep (Element.contract (touch_binding b)))
      | _ ↦ do
        name ← get (λ w. w.repo.current_module_name)
        throw_if (dec_test (name_dec name "")) cli_error
        on_repo (get_state_if_exist hex name)
        throw type_error
    ]

  abbrev pub store_dependencies : Event → Eff World (Unit {0})
  store_dependencies e = elim (deps_of e) [
    | none ↦ return tt
    | some deps ↦ each store_dependency deps
  ]

module _ (hex : ℤ → Text) (hook : String → Eff World (Unit {0})) where
  -- executeBeforeCompileEventHook, _handleCompiledBindingsEvents and _handleDeployedBindingsEvents, which
  -- differ in the test of a dependency.
  unfoldable pub handle_event :
      (Option Element → Check)
      → (module_name name : String) → (deps : Option (List String)) → Eff World (Unit {0})
  handle_event test module_name name deps = do
    e ← get (λ w. lookup name w.live)
    executed ← lift (executed_of e)
    if executed then return tt else do
      names ← need deps type_error
      each (check_dependency test name) names
      execute_hook hook name
      finish_event hex module_name name
      lift (logged_type e)

  -- _handleModuleEventHooks
  unfoldable pub handle_module_event :
      (module_name name : String) → EventType → Eff World (Unit {0})
  handle_module_event module_name name type = do
    e ← get (λ w. lookup name w.live)
    executed ← lift (executed_of e)
    if executed
        then return tt
        else do execute_hook hook name; finish_module_event hex module_name type name

  -- The `switch` of the executor's _executeEvent, through the functions of EventHandler.
  unfoldable pub dispatch : (module_name : String) → Event → EventType → Eff World (Unit {0})
  dispatch module_name e EventType.before_deploy_event =
      handle_event is_compiled module_name (event_name e) (deps_of e)
  dispatch module_name e EventType.after_deploy_event =
      handle_event is_deployed module_name (event_name e) (deps_of e)
  dispatch module_name e EventType.before_compile_event =
      handle_event is_named module_name (event_name e) (deps_of e)
  dispatch module_name e EventType.after_compile_event =
      handle_event is_compiled module_name (event_name e) (deps_of e)
  dispatch module_name e EventType.on_change_event =
      handle_event is_deployed module_name (event_name e) (deps_of e)
  dispatch module_name e EventType.on_start =
      handle_module_event module_name (event_name e) EventType.on_start
  dispatch module_name e EventType.on_completion =
      handle_module_event module_name (event_name e) EventType.on_completion
  dispatch module_name e EventType.on_success =
      handle_module_event module_name (event_name e) EventType.on_success
  dispatch module_name e EventType.on_fail =
      handle_module_event module_name (event_name e) EventType.on_fail
  dispatch module_name e EventType.deploy = throw cli_error

  -- The executor's _executeEvent. An event of another type is rejected, and its dependencies are stored
  -- all the same.
  abbrev rejected : {A : Type 0} → Error → Eff World A → Eff World A
  rejected e call w = (err e, (call w).1)

  unfoldable pub execute_event : (module_name : String) → StatefulEvent → Eff World (Unit {0})
  execute_event module_name e =
      if is_unknown (event_type_of e.event)
      then rejected cli_error (store_dependencies hex e.event)
      else (dispatch module_name e.event (event_type_of e.event) >> store_dependencies hex e.event)
