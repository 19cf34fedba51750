-- ===== src/Batcher/Tests.antt =====
-- Batcher: small plans.
use hardhat_ignition.Prelude.{
  ℕ, ◌+◌, ◌≤◌, ◌≡◌, ◌⊎◌, inl, refl, String, some, [], ◌∷◌, length, All, In, lookup, insert,
  name_dec, arith,
}
use hardhat_ignition.Types.{
  Element, BaseEvent, EventType, contract_event, ok, err, event_usage_is_not_deployed,
}
use hardhat_ignition.Batcher.{
  at, Plan, push_at, place, climb_required, climb_present, sink_present, deepest_dep, usage_and_dep,
  handle_after_deploy_events, handle_before_deploy_events, handle_event, base_event_handling,
}
use hardhat_ignition.Batcher.Levels.{IsBefore, HasNoNan, IsPresent}
use hardhat_ignition.Batcher.Placement.{IsPlaced, batch_at, handle_event-IsPlaced}
use hardhat_ignition.Batcher.Order.{
  requirements, StandsIn, IsBehind, after_deploy_batch, after_deploy_total, before_deploy_batch,
  before_deploy_precedes_usage,
}
use hardhat_ignition.Samples.{hook, pending, token, exchange, set_up}

-- The token in batch 0, and the exchange in batch 1.
abbrev planned : Plan
planned = record {
  batches = some (Element.contract token ∷ []) ∷ some (Element.contract exchange ∷ []) ∷ [];
  stray = [];
  numbers = ("Token", at 0) ∷ ("Exchange", at 1) ∷ [];
}

program : Unit {0}
unfolding push_at place climb_required climb_present sink_present deepest_dep usage_and_dep
    handle_after_deploy_events handle_before_deploy_events handle_event base_event_handling lookup
    insert name_dec
program = tt

abbrev after_set_up : Plan
after_set_up = record {
  batches =
      some (Element.contract token ∷ [])
      ∷ some (Element.contract exchange ∷ [])
      ∷ some (Element.event (pending set_up) ∷ [])
      ∷ [];
  stray = [];
  numbers = ("Token", at 0) ∷ ("Exchange", at 1) ∷ ("setUp", at 2) ∷ [];
}

set_up_runs :
    handle_after_deploy_events (contract_event set_up) (pending set_up) planned ≡ ok after_set_up
unfolding program
set_up_runs = refl

set_up_handled : handle_event (contract_event set_up) (pending set_up) planned ≡ ok after_set_up
unfolding program
set_up_handled = refl

planned_clean : HasNoNan planned.numbers
unfolding lookup
planned_clean x e = ground arith

planned-IsPlaced : IsPlaced planned
unfolding lookup batch_at
planned-IsPlaced x n e = elim (name_dec "Token" x) [
  | yes q ↦ let z : n ≡ 0 = ground arith in rw z (Element.contract token, inl refl, q)
  | no q ↦ elim (name_dec "Exchange" x) [
    | yes r ↦ let z : n ≡ 1 = ground arith in rw z (Element.contract exchange, inl refl, r)
    | no r ↦ absurd (ground arith)
  ]
]

after_deploy_batch_example :
    (n : ℕ) × StandsIn set_up (n + 1) after_set_up
    × All (IsBefore planned.numbers (n + 1)) (requirements set_up)
    × ((n ≡ 0)
        ⊎ ((x : String) × In x (requirements set_up) × (lookup x planned.numbers ≡ some (at n))))
after_deploy_batch_example =
    after_deploy_batch set_up (pending set_up) planned planned_clean set_up_runs

set_up-IsPresent : All (IsPresent planned.numbers) (requirements set_up)
unfolding lookup name_dec
set_up-IsPresent = ((at 0, refl), ((at 1, refl), tt))

after_deploy_total_example :
    (p' : Plan) × (handle_after_deploy_events (contract_event set_up) (pending set_up) planned
      ≡ ok p')
after_deploy_total_example = after_deploy_total set_up (pending set_up) planned set_up-IsPresent

handle_event-IsPlaced_example : IsPlaced after_set_up
handle_event-IsPlaced_example =
    handle_event-IsPlaced (pending set_up) planned planned-IsPlaced after_set_up set_up_handled

-- A hook before the deployment of the exchange.
abbrev prepare : BaseEvent
prepare = hook "prepare" EventType.before_deploy_event ("Exchange" ∷ []) ("Token" ∷ [])

abbrev after_prepare : Plan
after_prepare = record {
  batches =
      some (Element.contract token ∷ Element.event (pending prepare) ∷ [])
      ∷ some (Element.contract exchange ∷ [])
      ∷ [];
  stray = [];
  numbers = ("Token", at 0) ∷ ("Exchange", at 1) ∷ ("prepare", at 0) ∷ [];
}

prepare_runs :
    handle_before_deploy_events (contract_event prepare) (pending prepare) planned
    ≡ ok after_prepare
unfolding program
prepare_runs = refl

before_deploy_batch_example :
    (n : ℕ) × StandsIn prepare n after_prepare
    × (n ≤ length planned.batches)
    × All (IsBehind planned.numbers n) prepare.deps
    × All (IsBehind planned.numbers n) prepare.event_deps
before_deploy_batch_example = before_deploy_batch prepare (pending prepare) planned prepare_runs

-- A hook that uses the exchange, and depends on another contract of its batch.
abbrev wide : Plan
wide = record {
  batches = some (Element.contract token ∷ []) ∷ some (Element.contract exchange ∷ []) ∷ [];
  stray = [];
  numbers = ("Exchange", at 1) ∷ ("Vault", at 1) ∷ [];
}

abbrev check : BaseEvent
check = hook "check" EventType.before_deploy_event ("Vault" ∷ []) ("Exchange" ∷ [])

wide_numbers :
    (lookup "Exchange" wide.numbers ≡ some (at 1)) × (lookup "Vault" wide.numbers ≡ some (at 1))
unfolding lookup name_dec
wide_numbers = (refl, refl)

before_deploy_precedes_usage_example :
    (p' : Plan) × (handle_before_deploy_events (contract_event check) (pending check) wide ≡ ok p')
    × (lookup "check" p'.numbers ≡ some (at 0))
before_deploy_precedes_usage_example =
    before_deploy_precedes_usage check (pending check) wide "Exchange" "Vault" 0 refl refl refl refl
      wide_numbers.0 wide_numbers.1 (omega arith)

-- A usage that is not planned stops the planning of a later event.
late :
    handle_after_deploy_events
      (contract_event (hook "late" EventType.after_deploy_event [] ("Bank" ∷ [])))
      (pending set_up)
      planned
    ≡ err (event_usage_is_not_deployed "late" "Bank")
unfolding program
late = refl
