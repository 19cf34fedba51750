-- ===== src/Execution/Failure.antt =====
-- services/ethereum/transactions/executor.ts, executeModuleEvents, with handleModuleEvents of
-- services/modules/module-resolver.ts on the live module state, and the `try` of index.ts around `execute`.
use hardhat_ignition.Prelude.{
  ◌≡◌, inl, inr, refl, String, false, none, some, [], ◌∷◌, Dict, lookup, insert, lookup-insert_self,
  keys, if◌then◌else◌,
}
use hardhat_ignition.Types.{
  ModuleEvent, module_event, new_stateful_event, Element, ModuleState, Result, Result-cases, ok,
  err, Error, type_error, EventType, event_execution_error,
}
use hardhat_ignition.Effects.{Eff, throw, get, put, each, ◌>>=◌, ◌>>◌}
use hardhat_ignition.Handler.{
  World, is_own_error, execute_event, execute_hook, dispatch, handle_module_event,
  finish_module_event,
}
use hardhat_ignition.Repo.{finish_current_module_event, get_state_if_exist, store_new_state}
use hardhat_ignition.Execution.{Outside, execute}

-- The body of handleModuleEvents: an event that is executed stays.
unfoldable pub add_module_event : String × ModuleEvent → ModuleState → ModuleState
add_module_event (name, e) state =
    let added = insert name (Element.event (new_stateful_event (module_event e) false [])) state in
    elim (lookup name state) [
      | none ↦ added
      | some (Element.contract b) ↦ added
      | some (Element.event old) ↦ if old.executed then state else added
    ]

-- handleModuleEvents
unfoldable pub add_module_events : Dict ModuleEvent → ModuleState → ModuleState
add_module_events [] state = state
add_module_events (x ∷ rest) state = add_module_events rest (add_module_event x state)

-- `try { call } catch (error) { handler(error) }`
abbrev pub rescued :
    (Error → Eff World (Unit {0})) → Result (Unit {0}) × World → Result (Unit {0}) × World
rescued handler (ok u, w) = (ok u, w)
rescued handler (err e, w) = handler e w

module _ (o : Outside) (M : String) where
  -- `_executeEvent(moduleName, moduleState[eventName], moduleState)`
  unfoldable pub execute_named : String → Eff World (Unit {0})
  execute_named name = do
    found ← get (λ w. lookup name w.live)
    elim found [
      | none ↦ throw type_error
      | some (Element.contract b) ↦ throw type_error
      | some (Element.event e) ↦ execute_event o.hex o.hook M e
    ]

  -- executeModuleEvents
  unfoldable pub execute_module_events : Dict ModuleEvent → Eff World (Unit {0})
  execute_module_events events = do
    put (λ w. record w { live = add_module_events events w.live })
    each execute_named (keys events)

  -- `execute`, where a failure runs the `onFail` hooks and is thrown again.
  unfoldable pub execute_or_fail : (on_fail : Dict ModuleEvent) → Eff World (Unit {0})
  execute_or_fail on_fail w =
      rescued (λ error. execute_module_events on_fail >> throw error) (execute o M w)

abbrev pub fail_event : String → ModuleEvent
fail_event name = record { name = name; event_type = EventType.on_fail }

-- What the hook of an onFail event starts with: the event is in the live module state.
abbrev pub on_fail_start : String → World → World
on_fail_start name w = record w {
  repo = record w.repo { current_event_name = name };
  live =
      insert name (Element.event (new_stateful_event (module_event (fail_event name)) false []))
        w.live;
}

added-eq :
    (e : ModuleEvent) (state : ModuleState)
    → lookup e.name state ≡ none
    → add_module_events ((e.name, e) ∷ []) state
      ≡ insert e.name (Element.event (new_stateful_event (module_event e) false [])) state
unfolding add_module_events add_module_event
added-eq e state free = rw (add_module_event, free) refl

module _ (o : Outside) (M : String) where
  -- What the deployment ends with, for what the hook has ended with: the error of the execution behind a hook
  -- that returns and is then marked, or else the error of the hook.
  abbrev pub after_hook :
      (x : Error) (name : String) → Result (Unit {0}) × World → Result (Unit {0}) × World
  after_hook x name (ok u, w) = (err x, (finish_module_event o.hex M EventType.on_fail name w).1)
  after_hook x name (err y, w) = (err (if is_own_error y then y else event_execution_error name), w)

  finish-ok :
      (name : String) (w : World) → (finish_module_event o.hex M EventType.on_fail name w).0 ≡ ok tt
  unfolding finish_module_event finish_current_module_event get_state_if_exist store_new_state
  finish-ok name w = refl

  -- Where the execution of a module throws, its one onFail hook is run, under its name, on what the execution
  -- has left, if nothing stands under that name. The deployment then throws: the error of the execution, once the
  -- event is finished, where the hook returns; and where the hook throws, its error instead, under
  -- the event's name unless it is one of the program's own.
  pub execute_or_fail-runs :
      (name : String) (w v : World) (x : Error)
      → execute o M w ≡ (err x, v)
      → lookup name v.live ≡ none
      → execute_or_fail o M ((name, fail_event name) ∷ []) w
        ≡ after_hook x name (o.hook name (on_fail_start name v))
  unfolding execute_or_fail execute_module_events execute_named execute_event dispatch
      handle_module_event execute_hook
  execute_or_fail-runs name w v x h free =
      let added = added-eq (fail_event name) v.live free in
      let self =
        lookup-insert_self name
          (Element.event (new_stateful_event (module_event (fail_event name)) false [])) v.live in
      elim (Result-cases (o.hook name (on_fail_start name v)).0) [
        | inl (u, q) ↦
            rw (h, added, self, self, q, finish-ok name (o.hook name (on_fail_start name v)).1) refl
        | inr (y, q) ↦ rw (h, added, self, self, q) refl
      ]
