-- ===== src/Planning/Tests.antt =====
-- Planning: small module states.
use hardhat_ignition.Prelude.{
  includes, includes-eq-false, ℕ, ◌≤◌, ◌≡◌, inl, inr, refl, some, [], ◌∷◌, All, lookup, insert,
  name_dec, arith, true,
}
use hardhat_ignition.Types.{Value, Element, ContractBinding, ok, ModuleState}
use hardhat_ignition.Batcher.{
  at, nan, Plan, push_at, place, climb_required, climb_present, sink_present, deepest_dep,
  usage_and_dep, handle_after_deploy_events, handle_before_deploy_events, handle_event,
  base_event_handling,
}
use hardhat_ignition.Batcher.Levels.{IsBefore}
use hardhat_ignition.Batcher.Placement.{IsPlaced, batch_at}
use hardhat_ignition.Planning.{
  handle_element, handle_contract, handle_args, plan_libraries, plan_elements, plan_parallel,
  empty_plan,
}
use hardhat_ignition.Planning.Single.{handle_contract_batch, handle_element-IsPlaced}
use hardhat_ignition.Planning.Ordered.{IsOrdered}
use hardhat_ignition.Planning.Whole.{Stands, plan_parallel_ordered, library_argument_is_lost}
use hardhat_ignition.Samples.{token, exchange, set_up, pending, shop, plain}

program : Unit {0}
unfolding push_at place climb_required climb_present sink_present deepest_dep usage_and_dep
    handle_after_deploy_events handle_before_deploy_events handle_event base_event_handling lookup
    insert name_dec handle_element handle_contract handle_args plan_libraries plan_elements
    plan_parallel
program = tt

shop_plan :
    plan_parallel 1 shop
    ≡ ok (record {
      batches =
          some (Element.contract token ∷ [])
          ∷ some (Element.contract exchange ∷ [])
          ∷ some (Element.event (pending set_up) ∷ [])
          ∷ [];
      stray = [];
      numbers = ("Token", at 0) ∷ ("Exchange", at 1) ∷ ("setUp", at 2) ∷ [];
    })
unfolding program
shop_plan = refl

shop-IsOrdered : IsOrdered shop [] [] shop
unfolding lookup name_dec includes
shop-IsOrdered = (
  includes-eq-false [] "Token" refl,
  tt,
  (
    includes-eq-false ("Token" ∷ []) "Exchange" refl,
    ((inl refl, (Element.contract token, refl)), tt),
    (
      includes-eq-false ("Exchange" ∷ "Token" ∷ []) "setUp" refl,
      (inr (inl refl), (inl refl, tt)),
      tt,
    ),
  ),
)

plan_parallel_ordered_example :
    (p : Plan) × (plan_parallel 1 shop ≡ ok p) × All (λ entry. Stands p entry.1) shop
plan_parallel_ordered_example = plan_parallel_ordered 0 shop (refl, (refl, (tt, tt))) shop-IsOrdered

-- The exchange alone, when its token has its batch.
abbrev half : Plan
half = record {
  batches = some (Element.contract token ∷ []) ∷ [];
  stray = [];
  numbers = ("Token", at 0) ∷ [];
}

abbrev whole : Plan
whole = record {
  batches = some (Element.contract token ∷ []) ∷ some (Element.contract exchange ∷ []) ∷ [];
  stray = [];
  numbers = ("Token", at 0) ∷ ("Exchange", at 1) ∷ [];
}

exchange_second :
    (n : ℕ) × (handle_element 1 shop (at 0) (Element.contract exchange) half
      ≡ ok (place (at n) (Element.contract exchange) "Exchange" half))
    × (0 ≤ n)
    × All (IsBefore half.numbers n) ("Token" ∷ [])
unfolding lookup name_dec
exchange_second =
    handle_contract_batch 0 shop 0 exchange half refl
      (((Element.contract token, refl), (0, refl)), tt)

half-IsPlaced : IsPlaced half
unfolding lookup batch_at
half-IsPlaced x n e = elim (name_dec "Token" x) [
  | yes q ↦ let z : n ≡ 0 = ground arith in rw z (Element.contract token, inl refl, q)
  | no q ↦ absurd (ground arith)
]

whole-IsPlaced : IsPlaced whole
unfolding program
whole-IsPlaced =
    handle_element-IsPlaced shop 1 (at 0) (Element.contract exchange) half whole half-IsPlaced refl

-- A library that takes a contract in its constructor.
abbrev maths : ContractBinding
maths = record (plain "Maths" (Value.binding "Token" ∷ [])) { library = true }

abbrev linked : ModuleState
linked = ("Token", Element.contract token) ∷ ("Maths", Element.contract maths) ∷ []

library_argument_is_lost_example :
    (p' : Plan) × (handle_element 2 linked (at 0) (Element.contract maths) empty_plan ≡ ok p')
    × (lookup "Maths" p'.numbers ≡ some nan)
    × (p'.batches ≡ push_at 0 (Element.contract token) [])
unfolding lookup name_dec includes
library_argument_is_lost_example =
    library_argument_is_lost 0 linked maths token empty_plan refl refl
      (λ e. includes-eq-false ("Token" ∷ []) "Maths" refl (inl e)) refl refl refl

-- The planning of `linked` succeeds, and the library is in none of the batches.
linked_plan :
    plan_parallel 2 linked
    ≡ ok (record {
      batches = some (Element.contract token ∷ []) ∷ [];
      stray = Element.contract maths ∷ [];
      numbers = ("Token", at 0) ∷ ("Maths", nan) ∷ [];
    })
unfolding program
linked_plan = refl
