-- ===== src/Batcher.antt =====
-- services/modules/events/batcher.ts: the batch in which an event runs in a parallel deployment.
--
-- `batches` is the JavaScript array of that name; an index that was passed over is a hole, `none`.
-- `numbers` is `elementsBatches`. A number there may be NaN (`nan`): transactions/executor.ts reads an
-- entry that is absent and adds one. Comparisons with NaN are false, and what is pushed to
-- `batches[NaN]` (`stray`) lies under a property that no loop over the array meets.
pub mod Levels
pub mod Placement
pub mod Order
mod Tests
use hardhat_ignition.Prelude.{
  ℕ, zero, suc, ◌+◌, ◌-◌, String, Option, none, some, List, [], ◌∷◌, ◌++◌, ltb, if◌then◌else◌,
  or_else, Dict, lookup, insert, length,
}
use hardhat_ignition.Types.{
  EventType, Event, contract_event, module_event, meta_data_event, event_name, event_type_of,
  deps_of, event_deps_of, usage_of, event_usage_of, StatefulEvent, Element, Result, ok, err,
  type_error, cli_error, event_dependency_not_deployed, event_usage_is_not_deployed, Error, or_fail,
  ◌>>=◌,
}

pub data BatchNumber : Type 0 where
  at : ℕ → BatchNumber
  nan : BatchNumber

abbrev pub Batches : Type 0
Batches = List (Option (List Element))

pub record Plan : Type 0 where
  pub batches : Batches
  pub stray : List Element
  pub numbers : Dict BatchNumber

-- `if (!checkIfExist(batches[n])) batches[n] = []; batches[n].push(element)`
unfoldable pub push_at : ℕ → Element → Batches → Batches
push_at zero el [] = some (el ∷ []) ∷ []
push_at zero el (b ∷ bs) = some (or_else b [] ++ el ∷ []) ∷ bs
push_at (suc n) el [] = none ∷ push_at n el []
push_at (suc n) el (b ∷ bs) = b ∷ push_at n el bs

unfoldable pub place : BatchNumber → Element → String → Plan → Plan
place (at n) el name p = record p {
  batches = push_at n el p.batches;
  numbers = insert name (at n) p.numbers;
}
place nan el name p = record p { stray = p.stray ++ el ∷ []; numbers = insert name nan p.numbers }

-- `if (elementsBatches[x] > deepest) deepest = elementsBatches[x]`
abbrev pub climb : BatchNumber → ℕ → ℕ
climb (at n) d = if ltb d n then n else d
climb nan d = d

-- `if (elementsBatches[x] < shallowest) shallowest = elementsBatches[x]`
abbrev pub sink : BatchNumber → ℕ → ℕ
sink (at n) s = if ltb n s then n else s
sink nan s = s

-- A loop that throws where a name has no batch.
unfoldable pub climb_required : (String → Error) → Dict BatchNumber → List String → ℕ → Result ℕ
climb_required missing numbers [] d = ok d
climb_required missing numbers (x ∷ xs) d = elim (lookup x numbers) [
  | none ↦ err (missing x)
  | some b ↦ climb_required missing numbers xs (climb b d)
]

-- The loops that pass over such names.
unfoldable pub climb_present : Dict BatchNumber → List String → ℕ → ℕ
climb_present numbers [] d = d
climb_present numbers (x ∷ xs) d = elim (lookup x numbers) [
  | none ↦ climb_present numbers xs d
  | some b ↦ climb_present numbers xs (climb b d)
]

unfoldable pub sink_present : Dict BatchNumber → List String → ℕ → ℕ
sink_present numbers [] s = s
sink_present numbers (x ∷ xs) s = elim (lookup x numbers) [
  | none ↦ sink_present numbers xs s
  | some b ↦ sink_present numbers xs (sink b s)
]

-- The four loops of _handleAfterDeployEvents.
unfoldable pub deepest_dep : Event → Dict BatchNumber → Result ℕ
deepest_dep event numbers = do
  usage ← or_fail (usage_of event) type_error
  d₁ ← climb_required (event_usage_is_not_deployed (event_name event)) numbers usage 0
  deps ← or_fail (deps_of event) type_error
  d₂ ← climb_required (event_dependency_not_deployed (event_name event)) numbers deps d₁
  event_deps ← or_fail (event_deps_of event) type_error
  d₃ ← climb_required (event_dependency_not_deployed (event_name event)) numbers event_deps d₂
  event_usage ← or_fail (event_usage_of event) type_error
  climb_required (event_usage_is_not_deployed (event_name event)) numbers event_usage d₃

-- _handleAfterDeployEvents
unfoldable pub handle_after_deploy_events : Event → StatefulEvent → Plan → Result Plan
handle_after_deploy_events event element p = do
  deepest ← deepest_dep event p.numbers
  ok (place (at (deepest + 1)) (Element.event element) (event_name event) p)

-- `if (shallowest > 0) shallowest--; deepest++;` and the lesser of the two.
abbrev pub batch_before : (deepest shallowest : ℕ) → ℕ
batch_before deepest shallowest =
    let s = if ltb 0 shallowest then shallowest - 1 else shallowest in
    if ltb (deepest + 1) s then deepest + 1 else s

-- The four loops of _handleBeforeDeployEvents: the deepest usage and the shallowest dependency.
unfoldable pub usage_and_dep : Event → Plan → Result (ℕ × ℕ)
usage_and_dep event p = do
  usage ← or_fail (usage_of event) type_error
  let d₁ = climb_present p.numbers usage 0
  deps ← or_fail (deps_of event) type_error
  let s₁ = sink_present p.numbers deps (length p.batches)
  event_deps ← or_fail (event_deps_of event) type_error
  let s₂ = sink_present p.numbers event_deps s₁
  event_usage ← or_fail (event_usage_of event) type_error
  ok (climb_present p.numbers event_usage d₁, s₂)

-- _handleBeforeDeployEvents
unfoldable pub handle_before_deploy_events : Event → StatefulEvent → Plan → Result Plan
handle_before_deploy_events event element p = do
  (deepest, shallowest) ← usage_and_dep event p
  if ltb shallowest deepest
      then err cli_error
      else ok (
          place (at (batch_before deepest shallowest)) (Element.event element) (event_name event) p)

-- _moduleEventHandling: the first batch, and no entry among the numbers.
unfoldable pub module_event_handling : StatefulEvent → Plan → Plan
module_event_handling element p = record p { batches = push_at 0 (Element.event element) p.batches }

-- _baseEventHandling
unfoldable pub base_event_handling : Event → StatefulEvent → Plan → Result Plan
base_event_handling event element p = elim (event_type_of event) [
  | EventType.before_compile_event ↦ handle_before_deploy_events event element p
  | EventType.after_compile_event ↦ handle_before_deploy_events event element p
  | EventType.before_deploy_event ↦ handle_before_deploy_events event element p
  | EventType.on_change_event ↦ handle_after_deploy_events event element p
  | EventType.after_deploy_event ↦ handle_after_deploy_events event element p
  | _ ↦ err cli_error
]

-- TxExecutor._handleEvent, with the five handlers of the Batcher that it calls.
unfoldable pub handle_event : Event → StatefulEvent → Plan → Result Plan
handle_event event element p = elim (event_type_of event) [
  | EventType.after_deploy_event ↦ base_event_handling event element p
  | EventType.on_change_event ↦ base_event_handling event element p
  | EventType.before_compile_event ↦ base_event_handling event element p
  | EventType.before_deploy_event ↦ base_event_handling event element p
  | EventType.after_compile_event ↦ base_event_handling event element p
  | EventType.on_start ↦ ok (module_event_handling element p)
  | EventType.on_completion ↦ ok (module_event_handling element p)
  | EventType.on_fail ↦ ok (module_event_handling element p)
  | EventType.on_success ↦ ok (module_event_handling element p)
  | EventType.deploy ↦ err cli_error
]
