-- ===== src/Resolver.antt =====
-- services/modules/module-resolver.ts: the order in which the elements of a module are deployed
-- (ModuleResolver.resolveSingleEvent to ModuleResolver._addEvent, and the first part of `resolve`).
--
-- The two recursive functions take the depth of calls that the engine allows; past it a call throws
-- (`stack_overflow`). A binding or an event is passed by its name, under which it is held in `bindings`
-- or `events`. During the resolution the program changes nothing of a binding but its `lastEventName`
-- and `logicallyDeployed = false`; `marks` holds these changes, and `bindings` stays as it is. A module
-- state entry of a contract is the object in `bindings`, hence `Slot.contract` alone.
pub mod Steps
pub mod Invariant
pub mod Loops
pub mod Hooks
pub mod Entries
pub mod Order
pub mod Acyclic
use hardhat_ignition.Prelude.{
  ℕ, zero, suc, String, Bool, true, false, Option, none, some, List, [], ◌∷◌, ◌++◌, if◌then◌else◌,
  Dict, lookup, insert, keys, or_else,
}
use hardhat_ignition.Types.{
  Event, ModuleEvent, module_event, StatefulEvent, new_stateful_event, deps_of, event_deps_of,
  usage_of, event_usage_of, Value, contract_refs, ContractBinding, DeploymentSpec, Bindings, Events,
  Result, ok, err, Error, type_error, stack_overflow, cli_error, contract_not_compiled,
  usage_event_not_found, or_fail, ◌>>=◌,
}

pub data Slot : Type 0 where
  contract : Slot
  event : StatefulEvent → Slot

pub record Resolution : Type 0 where
  pub module_state : Dict Slot
  pub marks : Dict String

-- `checkIfExist(moduleState[name])`
abbrev pub is_resolved : Resolution → String → Bool
is_resolved st name = elim (lookup name st.module_state) [ none ↦ false | some _ ↦ true ]

abbrev pub add_slot : String → Slot → Resolution → Resolution
add_slot name slot st = record st { module_state = insert name slot st.module_state }

-- `lastEventName = event; logicallyDeployed = false` on a binding.
abbrev pub mark : String → String → Resolution → Resolution
mark binding ev st = record st { marks = (binding, ev) ∷ st.marks }

abbrev pub Step : Type 0
Step = Resolution → Result Resolution

-- A loop over names.
unfoldable pub for_each : (String → Step) → List String → Step
for_each step [] st = ok st
for_each step (x ∷ xs) st = do st' ← step x st; for_each step xs st'

-- `if (checkIfExist(moduleState[name])) continue;`
unfoldable pub unless_resolved : (String → Step) → String → Step
unless_resolved step x st = if is_resolved st x then ok st else step x st

-- `binding?.deployMetaData?.deploymentSpec?.deps ?? []`
abbrev pub spec_deps : Option DeploymentSpec → List String
spec_deps none = []
spec_deps (some spec) = spec.deps

module _ (bindings : Bindings) (events : Events) where
  -- `(events[name].event as ContractEvent)`
  abbrev pub event_at : String → Result Event
  event_at name = do e ← or_fail (lookup name events) type_error; ok e.event

  -- `moduleState[name] = events[name]`
  abbrev pub add_event_slot : String → Step
  add_event_slot name st = do
    e ← or_fail (lookup name events) type_error
    ok (add_slot name (Slot.event e) st)

  -- `if (!checkIfExist(bindings[name])) continue;`
  unfoldable pub if_bound : (String → Step) → String → Step
  if_bound step name st = elim (lookup name bindings) [ none ↦ ok st | some _ ↦ step name st ]

  module _ (resolve_contract : String → Step) (resolve_event : String → String → Step) where
    -- The body of resolveSingleEvent behind its guard; `owner` is the binding whose event it is.
    unfoldable pub single_event_body : String → String → Step
    single_event_body owner name st = do
      ev ← event_at name
      deps ← or_fail (deps_of ev) type_error
      st₁ ←
          for_each
            (unless_resolved (λ dep s. do s' ← resolve_contract dep s; ok (mark owner name s')))
            deps st
      event_deps ← or_fail (event_deps_of ev) type_error
      st₂ ← for_each (resolve_event owner) event_deps st₁
      usage ← or_fail (usage_of ev) type_error
      st₃ ← for_each (unless_resolved resolve_contract) usage st₂
      event_usage ← or_fail (event_usage_of ev) type_error
      st₄ ← for_each (resolve_event owner) event_usage st₃
      add_event_slot name st₄

    -- The loops of `addEvent` in _resolveBeforeDeployEvents.
    unfoldable pub before_event_dep : String → String → Step
    before_event_dep name event_dep st = do
      ev ← event_at event_dep
      elim (event_deps_of ev) [
        | none ↦ ok st
        | some _ ↦ do
          deps ← or_fail (deps_of ev) type_error
          for_each (unless_resolved (λ b s. do s' ← resolve_contract b s; ok (mark b name s'))) deps
              st
      ]

    unfoldable pub require_resolved : String → Step
    require_resolved name st = if is_resolved st name then ok st else err usage_event_not_found

    unfoldable pub before_event_usage : String → Step
    before_event_usage event_usage st = do
      ev ← event_at event_usage
      elim (event_deps_of ev) [
        | none ↦ ok st
        | some _ ↦ do deps ← or_fail (deps_of ev) type_error; for_each require_resolved deps st
      ]

    -- `addEvent` in _resolveBeforeDeployEvents.
    unfoldable pub add_before_event : String → Step
    add_before_event name st = if is_resolved st name then ok st else (do
      ev ← event_at name
      event_deps ← or_fail (event_deps_of ev) type_error
      st₁ ← for_each (before_event_dep name) event_deps st
      event_usage ← or_fail (event_usage_of ev) type_error
      st₂ ← for_each before_event_usage event_usage st₁
      add_event_slot name st₂)

    unfoldable pub resolve_before_deploy_events : ContractBinding → Step
    resolve_before_deploy_events b st = do
      st₁ ← for_each add_before_event b.events_deps.before_compile st
      st₂ ← for_each add_before_event b.events_deps.after_compile st₁
      for_each add_before_event b.events_deps.before_deploy st₂

    unfoldable pub add_event_dep : String → String → Step
    add_event_dep owner event_dep st = do
      _ ← event_at event_dep
      st' ← resolve_event owner event_dep st
      if is_resolved st' event_dep then ok st' else err cli_error

    -- `bindings[b].name` is read before the test.
    unfoldable pub require_bound : String → Step
    require_bound name st = do
      _ ← or_fail (lookup name bindings) type_error
      require_resolved name st

    unfoldable pub add_event_usage : String → Step
    add_event_usage event_usage st = do
      ev ← event_at event_usage
      deps ← or_fail (deps_of ev) type_error
      for_each require_bound deps st

    -- _addEvent
    unfoldable pub add_event : String → String → Step
    add_event owner name st = do
      ev ← event_at name
      deps ← or_fail (deps_of ev) type_error
      st₁ ← for_each (unless_resolved resolve_contract) deps st
      event_deps ← or_fail (event_deps_of ev) type_error
      st₂ ← for_each (add_event_dep owner) event_deps st₁
      usage ← or_fail (usage_of ev) type_error
      st₃ ← for_each (unless_resolved resolve_contract) usage st₂
      event_usage ← or_fail (event_usage_of ev) type_error
      st₄ ← for_each add_event_usage event_usage st₃
      add_event_slot name st₄

    unfoldable pub resolve_after_deploy_events : ContractBinding → Step
    resolve_after_deploy_events b st = do
      st₁ ← for_each (add_event b.name) b.events_deps.after_deploy st
      for_each (add_event b.name) b.events_deps.on_change st₁

    -- _resolveContractsAndEvents behind its guard.
    unfoldable pub contract_body : String → ContractBinding → Step
    contract_body name b st = do
      st₁ ← for_each (if_bound resolve_contract) (contract_refs b.args) st
      libraries ← or_fail b.libraries contract_not_compiled
      st₂ ← for_each (if_bound resolve_contract) (keys libraries) st₁
      st₃ ← for_each (if_bound resolve_contract) (spec_deps b.deploy_meta_data.deployment_spec) st₂
      st₄ ← resolve_before_deploy_events b st₃
      resolve_after_deploy_events b (add_slot name Slot.contract st₄)

  unfoldable mutual
    -- _resolveContractsAndEvents
    pub resolve_contract : ℕ → String → Step
    resolve_contract zero name st = err stack_overflow
    resolve_contract (suc depth) name st = do
      b ← or_fail (lookup name bindings) type_error
      if is_resolved st name
          then ok st
          else contract_body (resolve_contract depth) (resolve_single_event depth) name b st

    -- resolveSingleEvent
    pub resolve_single_event : ℕ → String → String → Step
    resolve_single_event zero owner name st = err stack_overflow
    resolve_single_event (suc depth) owner name st = do
      _ ← event_at name
      if is_resolved st name
          then ok st
          else single_event_body (resolve_contract depth) (resolve_single_event depth) owner name st

-- handleModuleEvents
unfoldable pub handle_module_events : Dict ModuleEvent → Resolution → Resolution
handle_module_events [] st = st
handle_module_events ((name, e) ∷ rest) st =
    let add = add_slot name (Slot.event (new_stateful_event (module_event e) false [])) st in
    handle_module_events rest (elim (lookup name st.module_state) [
      | some (Slot.event old) ↦ if old.executed then st else add
      | _ ↦ add
    ])

pub record ModuleEvents : Type 0 where
  pub on_start : Dict ModuleEvent
  pub on_success : Dict ModuleEvent
  pub on_completion : Dict ModuleEvent
  pub on_fail : Dict ModuleEvent

abbrev pub nothing_resolved : Resolution
nothing_resolved = record { module_state = []; marks = [] }

-- The first part of `resolve`: all elements of the module, in the order of their deployment.
unfoldable pub resolve_elements : ℕ → Bindings → Events → ModuleEvents → Result Resolution
resolve_elements depth bindings events module_events = do
  let start = handle_module_events module_events.on_start nothing_resolved
  st ← for_each (unless_resolved (resolve_contract bindings events depth)) (keys bindings) start
  ok (
      handle_module_events module_events.on_completion
        (handle_module_events module_events.on_success st))
