-- ===== src/State.antt =====
-- services/modules/states/state-resolver.ts: the merge of state files.
pub mod Merge
mod Tests
use hardhat_ignition.Prelude.{none, some, [], ◌∷◌, Option, Dict, lookup, insert}
use hardhat_ignition.Types.{FileElement, ModuleStateFile, Result, ok, err, Error, bindings_conflict}

-- mergeStates: the elements of the new file are entered into the main one, in their order.
unfoldable pub merge_states : (main new : ModuleStateFile) → Result ModuleStateFile
merge_states main [] = ok main
merge_states main ((name, element) ∷ rest) = elim (lookup name main) [
  | some _ ↦ err bindings_conflict
  | none ↦ merge_states (insert name element main) rest
]
