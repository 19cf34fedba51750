-- ===== src/State/Tests.antt =====
-- State: two files with an event each.
use hardhat_ignition.Prelude.{
  ◌≡◌, refl, String, none, [], ◌∷◌, ◌++◌, All, lookup, insert, keys, name_dec,
}
use hardhat_ignition.Types.{FileElement, ModuleStateFile}
use hardhat_ignition.State.{merge_states}
use hardhat_ignition.State.Merge.{first_of, merge_states-Merged}
use hardhat_ignition.Samples.{set_up, pending}

program : Unit {0}
unfolding merge_states lookup insert name_dec
program = tt

abbrev main : ModuleStateFile
main = ("setUp", FileElement.event (pending set_up)) ∷ []

abbrev new : ModuleStateFile
new = ("other", FileElement.event (pending set_up)) ∷ []

merge_states-Merged_example :
    (keys (main ++ new) ≡ keys main ++ keys new)
    × ((x : String) → lookup x (main ++ new) ≡ first_of (lookup x main) (lookup x new))
    × All (λ x. lookup x main ≡ none) (keys new)
unfolding program
merge_states-Merged_example = merge_states-Merged main new (main ++ new) refl
