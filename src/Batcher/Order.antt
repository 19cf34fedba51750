-- ===== src/Batcher/Order.antt =====
-- Batcher: where the batch of an event lies beside the batches of what it depends on.
use native.Mathlib.Nat.{le_refl}
use hardhat_ignition.Prelude.{
  All-split, ℕ, suc, ◌+◌, ◌≤◌, ◌<◌, ◌≡◌, ◌⊎◌, String, some, List, [], ◌∷◌, ◌++◌, length, Dict,
  lookup, In, All, All-map, lookup-insert_self, arith,
}
use hardhat_ignition.Types.{
  Element, StatefulEvent, BaseEvent, contract_event, ok, >>=-eq-ok, event_dependency_not_deployed,
  event_usage_is_not_deployed,
}
use hardhat_ignition.Batcher.{
  deepest_dep, usage_and_dep, BatchNumber, at, Plan, place, climb_required, climb_present,
  sink_present, handle_after_deploy_events, handle_before_deploy_events, batch_before,
}
use hardhat_ignition.Batcher.Levels.{
  IsBefore, HasNoNan, IsPresent, IsAtLeast, Reaches, Reaches-append, climb_required-Reaches,
  climb_required_total, sink_present-IsAtLeast,
}

-- All that an event names, in the order in which _handleAfterDeployEvents reads it.
abbrev pub requirements : BaseEvent → List String
requirements e = e.usage ++ (e.deps ++ (e.event_deps ++ e.event_usage))

-- The event stands in batch `n` of the new plan.
abbrev pub StandsIn : BaseEvent → ℕ → Plan → Type 0
StandsIn e n p = lookup e.name p.numbers ≡ some (at n)

pub deepest_dep-Reaches :
    (e : BaseEvent) (numbers : Dict BatchNumber) {d : ℕ}
    → HasNoNan numbers
    → deepest_dep (contract_event e) numbers ≡ ok d
    → Reaches numbers (requirements e) 0 d
unfolding deepest_dep
deepest_dep-Reaches e numbers {d} clean h =
    let used = event_usage_is_not_deployed e.name in
    let needed = event_dependency_not_deployed e.name in
    let (d₁, q₁, h₁) = >>=-eq-ok (climb_required used numbers e.usage 0) _ h in
    let (d₂, q₂, h₂) = >>=-eq-ok (climb_required needed numbers e.deps d₁) _ h₁ in
    let (d₃, q₃, h₃) = >>=-eq-ok (climb_required needed numbers e.event_deps d₂) _ h₂ in
    Reaches-append numbers e.usage _ 0 d₁ d (climb_required-Reaches used numbers clean e.usage 0 q₁)
      (Reaches-append numbers e.deps _ d₁ d₂ d
        (climb_required-Reaches needed numbers clean e.deps d₁ q₂)
        (Reaches-append numbers e.event_deps e.event_usage d₂ d₃ d
          (climb_required-Reaches needed numbers clean e.event_deps d₂ q₃)
          (climb_required-Reaches used numbers clean e.event_usage d₃ h₃)))

-- Where no element has the batch NaN, an event that runs after deployment, or on a change, is put in a batch behind those of all that it
-- depends on or uses, and in the first such batch: the one before it holds one of these, or is the
-- batch with number 0.
pub after_deploy_batch :
    (e : BaseEvent) (element : StatefulEvent) (p : Plan) {p' : Plan}
    → HasNoNan p.numbers
    → handle_after_deploy_events (contract_event e) element p ≡ ok p'
    → (n : ℕ) × StandsIn e (n + 1) p'
      × All (IsBefore p.numbers (n + 1)) (requirements e)
      × ((n ≡ 0) ⊎ ((x : String) × In x (requirements e) × (lookup x p.numbers ≡ some (at n))))
unfolding handle_after_deploy_events place
after_deploy_batch e element p {p'} clean h =
    let (d, q, r) = >>=-eq-ok (deepest_dep (contract_event e) p.numbers) _ h in
    let (_, before, attained) = deepest_dep-Reaches e p.numbers clean q in
    (d, stands d r, before, attained)
  where
    stands :
        (d : ℕ)
        → ok (place (at (d + 1)) (Element.event element) e.name p) ≡ ok p'
        → StandsIn e (d + 1) p'
    stands d r = ground (arith, lookup-insert_self e.name (at (d + 1)) p.numbers)

pub deepest_dep_total :
    (e : BaseEvent) (numbers : Dict BatchNumber)
    → All (IsPresent numbers) (requirements e)
    → (d : ℕ) × (deepest_dep (contract_event e) numbers ≡ ok d)
unfolding deepest_dep
deepest_dep_total e numbers h =
    let used = event_usage_is_not_deployed e.name in
    let needed = event_dependency_not_deployed e.name in
    let (us, h₁) = All-split (IsPresent numbers) e.usage _ h in
    let (ds, h₂) = All-split (IsPresent numbers) e.deps _ h₁ in
    let (eds, eus) = All-split (IsPresent numbers) e.event_deps e.event_usage h₂ in
    let (d₁, q₁) = climb_required_total used numbers e.usage 0 us in
    let (d₂, q₂) = climb_required_total needed numbers e.deps d₁ ds in
    let (d₃, q₃) = climb_required_total needed numbers e.event_deps d₂ eds in
    let (d₄, q₄) = climb_required_total used numbers e.event_usage d₃ eus in
    (d₄, rw (q₁, q₂, q₃, q₄))

-- An event that runs after deployment is planned, without an error, whenever all that it depends on or uses
-- has a batch.
pub after_deploy_total :
    (e : BaseEvent) (element : StatefulEvent) (p : Plan)
    → All (IsPresent p.numbers) (requirements e)
    → (p' : Plan) × (handle_after_deploy_events (contract_event e) element p ≡ ok p')
unfolding handle_after_deploy_events
after_deploy_total e element p h =
    let (d, q) = deepest_dep_total e p.numbers h in
    (place (at (d + 1)) (Element.event element) e.name p, rw q)

-- `x`, if it has a batch, has one behind batch `n`, unless `n` is the first.
abbrev pub IsBehind : Dict BatchNumber → ℕ → String → Type 0
IsBehind numbers n x = (m : ℕ) → lookup x numbers ≡ some (at m) → (n < m) ⊎ (n ≡ 0)

batch_before_bounds :
    (d s : ℕ)
    → (batch_before d s ≤ s)
      × ((batch_before d s < s) ⊎ (batch_before d s ≡ 0))
      × (batch_before d s ≤ d + 1)
batch_before_bounds d s = ground arith

-- An event that runs before deployment is put in a batch of the array or right behind its end, and,
-- unless that is the first batch, before the batch of each of its dependencies that has one.
pub before_deploy_batch :
    (e : BaseEvent) (element : StatefulEvent) (p : Plan) {p' : Plan}
    → handle_before_deploy_events (contract_event e) element p ≡ ok p'
    → (n : ℕ) × StandsIn e n p'
      × (n ≤ length p.batches)
      × All (IsBehind p.numbers n) e.deps
      × All (IsBehind p.numbers n) e.event_deps
unfolding handle_before_deploy_events place usage_and_dep
before_deploy_batch e element p {p'} h =
    (n, stands, omega (arith, bounds, outer.0), weaken e.deps outer.1, weaken e.event_deps inner.1)
  where
    d : ℕ
    d = climb_present p.numbers e.event_usage (climb_present p.numbers e.usage 0)

    s₁ : ℕ
    s₁ = sink_present p.numbers e.deps (length p.batches)

    s : ℕ
    s = sink_present p.numbers e.event_deps s₁

    n : ℕ
    n = batch_before d s

    bounds : (n ≤ s) × ((n < s) ⊎ (n ≡ 0)) × (n ≤ d + 1)
    bounds = batch_before_bounds d s

    inner : (s ≤ s₁) × All (IsAtLeast p.numbers s) e.event_deps
    inner = sink_present-IsAtLeast p.numbers e.event_deps s₁ s (le_refl s)

    outer : (s ≤ length p.batches) × All (IsAtLeast p.numbers s) e.deps
    outer = sink_present-IsAtLeast p.numbers e.deps (length p.batches) s inner.0

    weaken : (xs : List String) → All (IsAtLeast p.numbers s) xs → All (IsBehind p.numbers n) xs
    weaken xs =
        All-map (IsAtLeast p.numbers s) (IsBehind p.numbers n) xs
          (λ x l m q. ground (arith, l m q, bounds))

    stands : StandsIn e n p'
    stands = ground (arith, lookup-insert_self e.name (at n) p.numbers)

-- The guard of _handleBeforeDeployEvents lets a usage and a dependency share a batch. An event with
-- one usage and one dependency, both in a batch other than the first, is then planned before the
-- batch of what it uses.
pub before_deploy_precedes_usage :
    (e : BaseEvent) (element : StatefulEvent) (p : Plan) (x y : String) (m : ℕ)
    → e.usage ≡ x ∷ []
    → e.deps ≡ y ∷ []
    → e.event_deps ≡ []
    → e.event_usage ≡ []
    → lookup x p.numbers ≡ some (at (suc m))
    → lookup y p.numbers ≡ some (at (suc m))
    → suc m < length p.batches
    → (p' : Plan) × (handle_before_deploy_events (contract_event e) element p ≡ ok p')
      × (lookup e.name p'.numbers ≡ some (at m))
unfolding handle_before_deploy_events place usage_and_dep climb_present sink_present
before_deploy_precedes_usage e element p x y m us ds eds eus hx hy fits = (
  place (at m) (Element.event element) e.name p,
  planned,
  lookup-insert_self e.name (at m) p.numbers,
)
  where
    numbers :
        (climb_present p.numbers e.event_usage (climb_present p.numbers e.usage 0) ≡ suc m)
        × (sink_present p.numbers e.event_deps (sink_present p.numbers e.deps (length p.batches))
            ≡ suc m)
    numbers = (
      rw (us, eus, hx, climb_present) (ground arith),
      rw (ds, eds, hy, sink_present) (ground arith),
    )

    planned :
        handle_before_deploy_events (contract_event e) element p
        ≡ ok (place (at m) (Element.event element) e.name p)
    planned = rw (numbers.0, numbers.1) (ground arith)
