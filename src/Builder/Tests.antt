-- ===== src/Builder/Tests.antt =====
-- Builder and Resolver: a small module, built, compiled and resolved.
use hardhat_ignition.Prelude.{
  ◌≡◌, ℕ, refl, String, false, Option, some, List, [], ◌∷◌, Dict, lookup, keys, insert, includes,
  name_dec, ite, All-lookup, All, arith,
}
use hardhat_ignition.Types.{
  Value, JsonFragment, ContractBinding, Bindings, Result, Check, passes, ok, err, stack_overflow,
}
use hardhat_ignition.Resolver.{
  Resolution, nothing_resolved, resolve_contract, resolve_single_event, add_event_dep,
  add_before_event, resolve_elements, handle_module_events, for_each, unless_resolved, if_bound,
  contract_body, single_event_body, add_event as enter_event, add_event_usage,
  resolve_before_deploy_events, resolve_after_deploy_events, require_bound, require_resolved,
}
use hardhat_ignition.Resolver.Invariant.{IsResolved, IsSorted, NothingSeen}
use hardhat_ignition.Resolver.Order.{resolve_elements_ordered}
use hardhat_ignition.Resolver.Acyclic.{
  Returns, HasRank, resolve_elements_total, own_argument_overflows,
}
use hardhat_ignition.Builder.{
  ModuleBuilder, Dependency, Hook, contract, add_event, binding_hook, generate_base_event,
  new_contract_binding, new_module_builder,
}
use hardhat_ignition.Builder.Calls.{Call, on_success, perform, build}
use hardhat_ignition.Builder.Hooks.{IsHooked}
use hardhat_ignition.Builder.Complete.{build_hooks_complete}
use hardhat_ignition.Builder.Compile.{
  Extracted, Compiles, compiled, compile_all, handle_module, handle_module-Compiles,
}
use hardhat_ignition.Builder.Resolve.{HaveOwnNames-keys, IsHooked-IsWellFormed}
use hardhat_ignition.Samples.{plain}

program : Unit {0}
unfolding lookup insert name_dec includes build perform contract add_event binding_hook
    generate_base_event new_contract_binding on_success handle_module compiled compile_all for_each
    unless_resolved if_bound handle_module_events resolve_elements resolve_contract
    resolve_single_event contract_body single_event_body enter_event add_event_dep add_before_event
    add_event_usage resolve_before_deploy_events resolve_after_deploy_events require_bound
    require_resolved
program = tt

abbrev calls : List Call
calls =
    Call.call_contract "Token" []
    ∷ Call.call_contract "Exchange" (Value.binding "Token" ∷ [])
    ∷ Call.call_hook Hook.after_deploy "Exchange" "setUp" (Dependency.binding "Token" ∷ [])
    ∷ Call.call_on_success "done"
    ∷ []

abbrev or_empty : Result ModuleBuilder → ModuleBuilder
or_empty (ok m) = m
or_empty (err e) = new_module_builder "Shop"

abbrev built : ModuleBuilder
built = or_empty (build calls (new_module_builder "Shop"))

abbrev extracted : Extracted
extracted = record {
  bytecodes = ("Token", 96 ∷ []) ∷ ("Exchange", 97 ∷ []) ∷ [];
  abi = some [];
  libraries = some (("Token", []) ∷ ("Exchange", []) ∷ []);
}

abbrev valid : Bindings → Option (Dict (List JsonFragment)) → Check
valid bindings abi = passes

abbrev or_none : Result Bindings → Bindings
or_none (ok bs) = bs
or_none (err e) = []

abbrev compiled_bindings : Bindings
compiled_bindings = or_none (handle_module valid extracted false built.bindings)

abbrev or_nothing : Result Resolution → Resolution
or_nothing (ok st) = st
or_nothing (err e) = nothing_resolved

abbrev resolved : Resolution
resolved =
    or_nothing (resolve_elements 3 compiled_bindings built.contract_events built.module_events)

resolution_order : keys resolved.module_state ≡ "Token" ∷ "Exchange" ∷ "setUp" ∷ "done" ∷ []
unfolding program
resolution_order = refl

build_hooks_complete_example : IsHooked built.bindings built.contract_events
unfolding program
build_hooks_complete_example = build_hooks_complete calls "Shop" built refl

handle_module-Compiles_example :
    (keys compiled_bindings ≡ keys built.bindings)
    × ((n : String) (b' : ContractBinding)
        → lookup n compiled_bindings ≡ some b'
        → (b : ContractBinding) × (lookup n built.bindings ≡ some b) × Compiles extracted b b')
unfolding program
handle_module-Compiles_example =
    handle_module-Compiles valid extracted false built.bindings compiled_bindings refl

resolve_elements_ordered_example :
    IsSorted compiled_bindings built.contract_events NothingSeen resolved.module_state
    × All (IsResolved resolved) (keys compiled_bindings)
unfolding program
resolve_elements_ordered_example =
    resolve_elements_ordered 3 compiled_bindings built.contract_events built.module_events resolved
      (IsHooked-IsWellFormed built.bindings compiled_bindings built.contract_events
        (build_hooks_complete calls "Shop" built refl)
        (HaveOwnNames-keys compiled_bindings built.contract_events (refl, tt))
        (λ n b' q.
          let (b, found, (same, _, _, _)) =
            (handle_module-Compiles valid extracted false built.bindings compiled_bindings refl).1 n
              b' q in
          (b, found, same)))
      tt ((refl, refl), tt) tt refl

-- Two contracts without hooks.
abbrev pair : Bindings
pair =
    ("Exchange", plain "Exchange" (Value.binding "Token" ∷ [])) ∷ ("Token", plain "Token" []) ∷ []

abbrev pair_rank : String → ℕ
pair_rank x = ite (name_dec x "Exchange") 1 0

resolve_elements_total_example : Returns (resolve_elements 2 pair [] built.module_events)
unfolding program
resolve_elements_total_example =
    resolve_elements_total pair [] built.module_events pair_rank 2
      (λ n b. All-lookup (HasRank pair [] pair_rank) n b pair (
        (refl, refl, refl, refl, refl, ([], refl), ((λ _. omega arith), tt)),
        ((refl, refl, refl, refl, refl, ([], refl), tt), tt),
      ))
      (((_, refl), omega arith), (((_, refl), omega arith), tt))

own_argument_overflows_example :
    resolve_contract
      (("Loop", plain "Loop" (Value.binding "Loop" ∷ [])) ∷ [])
      []
      4
      "Loop"
      nothing_resolved
    ≡ err stack_overflow
unfolding program
own_argument_overflows_example =
    own_argument_overflows (("Loop", plain "Loop" (Value.binding "Loop" ∷ [])) ∷ []) [] 4 "Loop"
      (plain "Loop" (Value.binding "Loop" ∷ [])) [] nothing_resolved refl refl refl
