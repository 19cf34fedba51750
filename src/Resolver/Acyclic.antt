-- ===== src/Resolver/Acyclic.antt =====
-- Resolver: when the resolution ends. Contracts that need one another in a circle exhaust the calls that the
-- engine allows, and those that do not are resolved if it allows as many as the longest chain of needs.
use hardhat_ignition.Prelude.{
  ℕ, zero, suc, ◌≡◌, ◌<◌, ◌∙◌, inl, inr, refl, String, false, some, List, [], ◌∷◌, Dict, lookup,
  keys, or_else, All, All-map, All-split, arith, Option-cases,
}
use hardhat_ignition.Types.{
  contract_refs, ContractBinding, LinkReference, Bindings, Events, stack_overflow, Result, ok, err,
  ◌>>=◌,
}
use hardhat_ignition.Resolver.{
  Slot.contract, Resolution, Step, ModuleEvents, add_slot, is_resolved, for_each, unless_resolved,
  if_bound, resolve_before_deploy_events, resolve_after_deploy_events, spec_deps, contract_body,
  resolve_contract, resolve_single_event, handle_module_events, resolve_elements, nothing_resolved,
}
use hardhat_ignition.Resolver.Invariant.{IsBound, contract_needs}
use hardhat_ignition.Resolver.Steps.{IsResolved-cases}

-- The step ends without an error.
abbrev pub Returns : Result Resolution → Type 0
Returns r = (st : Resolution) × (r ≡ ok st)

Returns-bind :
    (r : Result Resolution) (k : Step)
    → Returns r
    → ((st : Resolution) → Returns (k st))
    → Returns (r >>= k)
Returns-bind r k (st, e) f = rw e (f st)

for_each-Returns :
    (step : String → Step) (xs : List String) (st : Resolution)
    → All (λ x. (s : Resolution) → Returns (step x s)) xs
    → Returns (for_each step xs st)
unfolding for_each
for_each-Returns step [] st h = (st, refl)
for_each-Returns step (x ∷ xs) st (p, h) =
    Returns-bind (step x st) (for_each step xs) (p st) (λ s. for_each-Returns step xs s h)

module _ (bindings : Bindings) (events : Events) where
  if_bound-Returns :
      (step : String → Step) (x : String) (st : Resolution)
      → (IsBound bindings events x → Returns (step x st))
      → Returns (if_bound bindings events step x st)
  unfolding if_bound
  if_bound-Returns step x st f = elim (Option-cases (lookup x bindings)) [
    | inl e ↦ (st, rw (e, if_bound))
    | inr (b, e) ↦ let (s, q) = f (b, e) in (s, same b e ∙ q)
  ]
    where
      same :
          (b : ContractBinding)
          → lookup x bindings ≡ some b
          → if_bound bindings events step x st ≡ step x st
      same b e = rw (e, if_bound)

  -- A contract without hooks, compiled, whose rank is above those of all that it needs.
  abbrev pub HasRank : (String → ℕ) → String → ContractBinding → Type 0
  HasRank rank n b =
      (b.events_deps.before_compile ≡ [])
      × (b.events_deps.after_compile ≡ [])
      × (b.events_deps.before_deploy ≡ [])
      × (b.events_deps.after_deploy ≡ [])
      × (b.events_deps.on_change ≡ [])
      × ((l : Dict (List LinkReference)) × (b.libraries ≡ some l))
      × All (λ x. IsBound bindings events x → rank x < rank n) (contract_needs b)

  abbrev pub IsRanked : (String → ℕ) → Type 0
  IsRanked rank = (n : String) (b : ContractBinding) → lookup n bindings ≡ some b → HasRank rank n b

  no_hooks_run :
      (resolve : String → Step) (resolve_event : String → String → Step) (b : ContractBinding)
      (st : Resolution)
      → b.events_deps.before_compile ≡ []
      → b.events_deps.after_compile ≡ []
      → b.events_deps.before_deploy ≡ []
      → b.events_deps.after_deploy ≡ []
      → b.events_deps.on_change ≡ []
      → (resolve_before_deploy_events bindings events resolve resolve_event b st ≡ ok st)
        × (resolve_after_deploy_events bindings events resolve resolve_event b st ≡ ok st)
  unfolding resolve_before_deploy_events resolve_after_deploy_events for_each
  no_hooks_run resolve resolve_event b st p₁ p₂ p₃ p₄ p₅ = (rw (p₁, p₂, p₃) refl, rw (p₄, p₅) refl)

  contract_body-Returns :
      (rank : String → ℕ) (resolve : String → Step) (resolve_event : String → String → Step)
      (n : String) (b : ContractBinding) (st : Resolution)
      → IsRanked rank
      → lookup n bindings ≡ some b
      → ((x : String) (s : Resolution)
          → IsBound bindings events x
          → rank x < rank n
          → Returns (resolve x s))
      → Returns (contract_body bindings events resolve resolve_event n b st)
  unfolding contract_body resolve_before_deploy_events resolve_after_deploy_events
  contract_body-Returns rank resolve resolve_event n b st ranked found lower =
      let (p₁, p₂, p₃, p₄, p₅, (l, q), low) = ranked n b found in
      let (low₁, low₂) =
        All-split (λ x. IsBound bindings events x → rank x < rank n) (contract_refs b.args) _ low in
      let (low₃, low₄) =
        All-split (λ x. IsBound bindings events x → rank x < rank n) (keys (or_else b.libraries []))
          _ low₂ in
      Returns-bind (for_each (if_bound bindings events resolve) (contract_refs b.args) st) _
        (loop (contract_refs b.args) st low₁)
        λ st₁. rw q (
          Returns-bind (for_each (if_bound bindings events resolve) (keys l) st₁) _
            (loop (keys l) st₁ (rw q at low₃))
            λ st₂.
              Returns-bind
                (for_each (if_bound bindings events resolve)
                  (spec_deps b.deploy_meta_data.deployment_spec) st₂)
                _ (loop (spec_deps b.deploy_meta_data.deployment_spec) st₂ low₄)
                λ st₃.
                  let before = (no_hooks_run resolve resolve_event b st₃ p₁ p₂ p₃ p₄ p₅).0 in
                  let after =
                    (no_hooks_run resolve resolve_event b (add_slot n contract st₃) p₁ p₂ p₃ p₄
                      p₅).1 in
                  rw before (add_slot n contract st₃, after))
    where
      loop :
          (xs : List String) (s : Resolution)
          → All (λ x. IsBound bindings events x → rank x < rank n) xs
          → Returns (for_each (if_bound bindings events resolve) xs s)
      loop xs s low = for_each-Returns (if_bound bindings events resolve) xs s (
          All-map (λ x. IsBound bindings events x → rank x < rank n)
            (λ x. (s : Resolution) → Returns (if_bound bindings events resolve x s)) xs
            (λ x g s. if_bound-Returns resolve x s (λ i. lower x s i (g i))) low)

  resolve_contract-Returns :
      (rank : String → ℕ) (depth : ℕ) (n : String) (st : Resolution)
      → IsRanked rank
      → IsBound bindings events n
      → rank n < depth
      → Returns (resolve_contract bindings events depth n st)
  unfolding resolve_contract
  resolve_contract-Returns rank zero n st ranked bound h = absurd (omega arith)
  resolve_contract-Returns rank (suc depth) n st ranked (b, found) h =
      rw found (elim (IsResolved-cases st n) [
        | inl (t, _) ↦ rw t (st, refl)
        | inr f ↦ rw f (
            contract_body-Returns rank (resolve_contract bindings events depth)
              (resolve_single_event bindings events depth) n b st ranked found
              (λ x s i less. resolve_contract-Returns rank depth x s ranked i (omega arith)))
      ])

-- A module whose contracts have no hooks, know their libraries, as compiled contracts do, and need one another in no circle, by
-- ranks that fall from each contract to those that it needs, is resolved to the end without an error,
-- when the engine allows calls deeper than every rank.
pub resolve_elements_total :
    (bindings : Bindings) (events : Events) (module_events : ModuleEvents) (rank : String → ℕ)
    (depth : ℕ)
    → IsRanked bindings events rank
    → All (λ n. IsBound bindings events n × rank n < depth) (keys bindings)
    → Returns (resolve_elements depth bindings events module_events)
unfolding resolve_elements unless_resolved
resolve_elements_total bindings events m rank depth ranked low =
    Returns-bind
      (for_each (unless_resolved (resolve_contract bindings events depth)) (keys bindings) start) _
      (for_each-Returns (unless_resolved (resolve_contract bindings events depth)) (keys bindings)
        start
        (All-map _
          (λ n.
            (s : Resolution)
            → Returns (unless_resolved (resolve_contract bindings events depth) n s))
          (keys bindings) once low))
      (λ st. (_, refl))
  where
    start : Resolution
    start = handle_module_events m.on_start nothing_resolved

    once :
        (n : String)
        → (IsBound bindings events n × rank n < depth)
        → (s : Resolution) → Returns (unless_resolved (resolve_contract bindings events depth) n s)
    once n (bound, h) s = elim (IsResolved-cases s n) [
      | inl (t, _) ↦ rw t (s, refl)
      | inr f ↦ rw f (resolve_contract-Returns bindings events rank depth n s ranked bound h)
    ]

first_fails :
    (bindings : Bindings) (events : Events) (n : String) (resolve : String → Step)
    (b : ContractBinding) (rest : List String) (st : Resolution)
    → lookup n bindings ≡ some b
    → contract_refs b.args ≡ n ∷ rest
    → resolve n st ≡ err stack_overflow
    → for_each (if_bound bindings events resolve) (contract_refs b.args) st ≡ err stack_overflow
unfolding for_each if_bound
first_fails bindings events n resolve b rest st found own fails = rw own (rw step refl)
  where
    step : if_bound bindings events resolve n st ≡ err stack_overflow
    step =
        let same : if_bound bindings events resolve n st ≡ resolve n st = rw (found, if_bound) in
        same ∙ fails

-- A contract that is the first contract among its own arguments exhausts any depth of calls.
pub own_argument_overflows :
    (bindings : Bindings) (events : Events) (depth : ℕ) (n : String) (b : ContractBinding)
    (rest : List String) (st : Resolution)
    → lookup n bindings ≡ some b
    → contract_refs b.args ≡ n ∷ rest
    → is_resolved st n ≡ false
    → resolve_contract bindings events depth n st ≡ err stack_overflow
unfolding resolve_contract contract_body
own_argument_overflows bindings events zero n b rest st found own open_ = refl
own_argument_overflows bindings events (suc depth) n b rest st found own open_ =
    let stops : for_each (if_bound bindings events (resolve_contract bindings events depth))
          (contract_refs b.args) st
        ≡ err stack_overflow =
      first_fails bindings events n (resolve_contract bindings events depth) b rest st found own
        (own_argument_overflows bindings events depth n b rest st found own open_) in
    rw (found, open_, stops) refl
