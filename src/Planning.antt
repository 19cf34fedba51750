-- ===== src/Planning.antt =====
-- services/ethereum/transactions/executor.ts: _executeParallel up to the execution, and _handleElement,
-- which put every element of a module state into a batch.
--
-- _handleElement calls itself for an argument that has no batch yet. `depth` is the depth of calls that
-- the engine allows; past it the call throws (`stack_overflow`). The argument objects are held by name,
-- and `elementsBatches[element.name] + 1` of an element without a batch is NaN.
pub mod Single
pub mod Ordered
pub mod Events
pub mod Whole
mod Tests
use hardhat_ignition.Prelude.{
  ℕ, zero, suc, ◌+◌, String, Bool, true, false, Option, none, some, List, [], ◌∷◌, ltb,
  if◌then◌else◌, lookup,
}
use hardhat_ignition.Types.{
  Value, contract_ref, ContractBinding, StatefulEvent, Element, ModuleState, Result, ok, err,
  stack_overflow, no_contract_binding_data, ◌>>=◌,
}
use hardhat_ignition.Batcher.{BatchNumber, at, nan, Plan, place, handle_event}

-- `currentBatch < elementsBatches[arg.name] + 1 ? elementsBatches[arg.name] + 1 : currentBatch`
abbrev pub later : BatchNumber → BatchNumber → BatchNumber
later (at c) (at b) = at (if ltb c (b + 1) then b + 1 else c)
later (at c) nan = at c
later nan b = nan

-- `elementsBatches[element.name] + 1`
abbrev pub next_batch : Option BatchNumber → BatchNumber
next_batch (some (at n)) = at (n + 1)
next_batch (some nan) = nan
next_batch none = nan

-- The loop over the arguments of the binding `name`; `again` is the recursive call.
unfoldable pub handle_args :
    (again : BatchNumber → Element → Plan → Result Plan)
    → ModuleState
    → String
    → List Value
    → BatchNumber
    → Plan
    → Result (BatchNumber × Plan)
handle_args again state name [] current p = ok (current, p)
handle_args again state name (arg ∷ args) current p = elim (contract_ref arg) [
  | none ↦ handle_args again state name args current p
  | some n ↦ elim (lookup n state) [
    | none ↦ err (no_contract_binding_data name n)
    | some el ↦ elim (lookup n p.numbers) [
      | some b ↦ handle_args again state name args (later current b) p
      | none ↦ do
        p' ← again current el p
        handle_args again state name args (next_batch (lookup name p'.numbers)) p'
    ]
  ]
]

-- _handleElement for a contract.
unfoldable pub handle_contract :
    (again : BatchNumber → Element → Plan → Result Plan)
    → ModuleState
    → BatchNumber
    → ContractBinding
    → Plan
    → Result Plan
handle_contract again state current b p = elim (lookup b.name p.numbers) [
  | some _ ↦ ok p
  | none ↦ do
    (last, p') ← handle_args again state b.name b.args current p
    ok (place last (Element.contract b) b.name p')
]

-- _handleElement
unfoldable pub handle_element : ℕ → ModuleState → BatchNumber → Element → Plan → Result Plan
handle_element zero state current el p = err stack_overflow
handle_element (suc depth) state current (Element.contract b) p =
    handle_contract (handle_element depth state) state current b p
handle_element (suc depth) state current (Element.event e) p = handle_event e.event e p

-- The first loop of _executeParallel: the libraries, and whether there are any.
unfoldable pub plan_libraries : ℕ → ModuleState → ModuleState → Plan × Bool → Result (Plan × Bool)
plan_libraries depth state [] (p, has_libraries) = ok (p, has_libraries)
plan_libraries depth state ((_, Element.event e) ∷ rest) (p, has_libraries) =
    plan_libraries depth state rest (p, has_libraries)
plan_libraries depth state ((_, Element.contract b) ∷ rest) (p, has_libraries) =
    if b.library
    then (do
      p' ← handle_element depth state (at 0) (Element.contract b) p
      plan_libraries depth state rest (p', true))
    else plan_libraries depth state rest (p, has_libraries)

-- The second loop.
unfoldable pub plan_elements : ℕ → ModuleState → BatchNumber → ModuleState → Plan → Result Plan
plan_elements depth state current [] p = ok p
plan_elements depth state current ((_, el) ∷ rest) p = do
  p' ← handle_element depth state current el p
  plan_elements depth state current rest p'

abbrev pub empty_plan : Plan
empty_plan = record { batches = []; stray = []; numbers = [] }

-- The batches of _executeParallel.
unfoldable pub plan_parallel : ℕ → ModuleState → Result Plan
plan_parallel depth state = do
  (p, has_libraries) ← plan_libraries depth state state (empty_plan, false)
  plan_elements depth state (if has_libraries then at 1 else at 0) state p
