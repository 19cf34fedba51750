-- ===== src/Resolver/Order.antt =====
-- Resolver: the resolution orders the elements of a module, at any depth of calls.
use hardhat_ignition.Prelude.{
  ℕ, zero, suc, ◌≡◌, inl, inr, refl, String, false, Option, none, some, List, [], ◌∷◌,
  if◌then◌else◌, Dict, lookup, keys, or_else, All, All-map, All-append, Bool-cases,
}
use hardhat_ignition.Types.{
  ModuleEvent, module_event, new_stateful_event, contract_refs, ContractBinding, Bindings, Events,
  type_error, contract_not_compiled, Result, ok, err, ◌>>=◌,
}
use hardhat_ignition.Resolver.{
  Slot, Slot.contract, Slot.event, Resolution, Step, ModuleEvents, add_slot, for_each,
  unless_resolved, if_bound, add_event, resolve_before_deploy_events, resolve_after_deploy_events,
  spec_deps, contract_body, resolve_contract, resolve_single_event, handle_module_events,
  resolve_elements, nothing_resolved,
}
use hardhat_ignition.Resolver.Invariant.{
  AreFresh, IsSorted, IsResolved, IsGood, IsBound, NothingSeen, add_contract-IsGood,
  add_module_event-IsGood,
}
use hardhat_ignition.Resolver.Steps.{
  Ensures, Ensures-bind, Ensures-or_fail, Ensures-eq, Grows, Grows-trans, add_slot-Grows,
  add_slot-IsResolved, IsResolved-cases, Becomes, IsSafe, then_step, for_each-IsSafe, Resolves,
  IsResolved-IsStable, unless_resolved-IsSafe, if_bound-IsSafe, Ensures-event_at,
}
use hardhat_ignition.Resolver.Loops.{IsWellFormed, scan_then, forget}
use hardhat_ignition.Resolver.Entries.{single_event_body-IsSafe, add_event-IsSafe}
use hardhat_ignition.Resolver.Hooks.{resolve_before_deploy_events-IsSafe}

module _ (bindings : Bindings) (events : Events) (wf : IsWellFormed bindings events) where
  module _ (resolve : String → Step) (resolve_event : String → String → Step)
      (safe : (x : String) → Resolves bindings events resolve x)
      (safe_event : (owner x : String) → Resolves bindings events (resolve_event owner) x) where
    abbrev Binds : String → Resolution → Type 0
    Binds x st = IsBound bindings events x → IsResolved st x

    bound_then :
        (Q : Resolution → Type 0) (xs : List String) (st : Resolution) (k : Step)
        → IsGood bindings events st
        → ((st₁ : Resolution)
            → IsGood bindings events st₁
            → Grows st st₁
            → All (λ x. Binds x st₁) xs
            → Ensures (Becomes bindings events st₁ Q) (k st₁))
        → Ensures
            (Becomes bindings events st Q)
            (for_each (if_bound bindings events resolve) xs st >>= k)
    bound_then Q xs st k good f =
        then_step bindings events (λ st'. All (λ x. Binds x st') xs) Q st
          (for_each (if_bound bindings events resolve) xs) k good
          (for_each-IsSafe bindings events (if_bound bindings events resolve) Binds xs
            (λ x st₁ st₂ g p b. g x (p b))
            (λ x _. if_bound-IsSafe bindings events resolve x (safe x)))
          f

    Binds-Grows :
        (xs : List String) (st st' : Resolution)
        → Grows st st'
        → All (λ x. Binds x st) xs
        → All (λ x. Binds x st') xs
    Binds-Grows xs st st' g = All-map (λ x. Binds x st) (λ x. Binds x st') xs (λ x p b. g x (p b))

    resolve_after_deploy_events-IsSafe :
        (b : ContractBinding)
        → IsSafe bindings events
            (resolve_after_deploy_events bindings events resolve resolve_event b)
            (λ _. Unit)
    unfolding resolve_after_deploy_events
    resolve_after_deploy_events-IsSafe b st good =
        scan_then bindings events wf resolve resolve_event safe safe_event (λ _. Unit) add
          b.events_deps.after_deploy st _ good (λ x _. any x)
          λ st₁ good₁ _.
            forget bindings events wf resolve resolve_event safe safe_event
              (λ _. All (λ _. Unit {0}) b.events_deps.on_change) st₁
              (for_each add b.events_deps.on_change st₁)
              (for_each-IsSafe bindings events add (λ _ _. Unit) b.events_deps.on_change
                (λ _ _ _ _ u. u) (λ x _. any x) st₁ good₁)
      where
        add : String → Step
        add = add_event bindings events resolve resolve_event b.name

        any : (x : String) → IsSafe bindings events (add x) (λ _. Unit)
        any x st' good' =
            forget bindings events wf resolve resolve_event safe safe_event (λ s. IsResolved s x)
              st' (add x st')
              (add_event-IsSafe bindings events wf resolve resolve_event safe safe_event b.name x
                st' good')

    contract_body-IsSafe :
        (name : String) (b : ContractBinding)
        → lookup name bindings ≡ some b
        → IsSafe bindings events
            (contract_body bindings events resolve resolve_event name b)
            (λ st. IsResolved st name)
    unfolding contract_body
    contract_body-IsSafe name b found st good =
        bound_then Done (contract_refs b.args) st _ good λ st₁ good₁ g₁ a₁.
          Ensures-or_fail (Becomes bindings events st₁ Done) b.libraries contract_not_compiled _
            λ libs q. bound_then Done (keys libs) st₁ _ good₁ λ st₂ good₂ g₂ a₂.
              bound_then Done (spec_deps b.deploy_meta_data.deployment_spec) st₂ _ good₂
                λ st₃ good₃ g₃ a₃.
                  then_step bindings events (λ _. Unit) Done st₃
                    (resolve_before_deploy_events bindings events resolve resolve_event b) _ good₃
                    (resolve_before_deploy_events-IsSafe bindings events wf resolve resolve_event
                      safe safe_event name b found)
                    λ st₄ good₄ g₄ _.
                      let needs =
                        All-append (λ x. Binds x st₄) (contract_refs b.args) _
                          (Binds-Grows (contract_refs b.args) st₁ st₄
                            (Grows-trans st₁ st₂ st₄ g₂ (Grows-trans st₂ st₃ st₄ g₃ g₄)) a₁)
                          (All-append (λ x. Binds x st₄) (keys (or_else b.libraries [])) _
                            (rw q
                              (Binds-Grows (keys libs) st₂ st₄ (Grows-trans st₂ st₃ st₄ g₃ g₄) a₂))
                            (Binds-Grows (spec_deps b.deploy_meta_data.deployment_spec) st₃ st₄ g₄
                              a₃)) in
                      finish st₄ (add_contract-IsGood bindings events name b st₄ found needs good₄)
      where
        Done : Resolution → Type 0
        Done st' = IsResolved st' name

        finish :
            (st₄ : Resolution)
            → IsGood bindings events (add_slot name contract st₄)
            → Ensures (Becomes bindings events st₄ Done) (
                resolve_after_deploy_events bindings events resolve resolve_event b
                  (add_slot name contract st₄))
        finish st₄ good₄ =
            widen
              (resolve_after_deploy_events bindings events resolve resolve_event b
                (add_slot name contract st₄))
              (resolve_after_deploy_events-IsSafe b (add_slot name contract st₄) good₄)
          where
            widen :
                (r : Result Resolution)
                → Ensures (Becomes bindings events (add_slot name contract st₄) (λ _. Unit)) r
                → Ensures (Becomes bindings events st₄ Done) r
            widen (ok st₅) (g, grows, _) = (
              g,
              (λ x i. grows x (add_slot-Grows name contract st₄ x i)),
              grows name (add_slot-IsResolved name contract st₄),
            )
            widen (err e) h = tt

  mutual
    unfolding resolve_contract resolve_single_event

    resolve_contract-IsSafe :
        (depth : ℕ) (name : String)
        → Resolves bindings events (resolve_contract bindings events depth) name
    resolve_contract-IsSafe zero name st good = tt
    resolve_contract-IsSafe (suc depth) name st good =
        Ensures-or_fail (Becomes bindings events st (λ st'. IsResolved st' name))
          (lookup name bindings) type_error _
          λ b found. elim (IsResolved-cases st name) [
            | inl (t, r) ↦ rw t (good, (λ y s. s), r)
            | inr f ↦ rw f (
                contract_body-IsSafe (resolve_contract bindings events depth)
                  (resolve_single_event bindings events depth) (resolve_contract-IsSafe depth)
                  (resolve_single_event-IsSafe depth) name b found st good)
          ]

    resolve_single_event-IsSafe :
        (depth : ℕ) (owner name : String)
        → Resolves bindings events (resolve_single_event bindings events depth owner) name
    resolve_single_event-IsSafe zero owner name st good = tt
    resolve_single_event-IsSafe (suc depth) owner name st good =
        Ensures-event_at bindings events (Becomes bindings events st (λ st'. IsResolved st' name))
          name _
          λ e found. elim (IsResolved-cases st name) [
            | inl (t, r) ↦ rw t (good, (λ y s. s), r)
            | inr f ↦ rw f (
                single_event_body-IsSafe bindings events wf (resolve_contract bindings events depth)
                  (resolve_single_event bindings events depth) (resolve_contract-IsSafe depth)
                  (resolve_single_event-IsSafe depth) owner name st good)
          ]

  handle_module_events-IsGood :
      (module_events : Dict ModuleEvent) (st : Resolution)
      → AreFresh bindings events module_events
      → IsGood bindings events st
      → IsGood bindings events (handle_module_events module_events st)
        × Grows st (handle_module_events module_events st)
  unfolding handle_module_events
  handle_module_events-IsGood [] st fresh good = (good, λ x r. r)
  handle_module_events-IsGood ((name, e) ∷ rest) st ((f, g), fresh) good =
      let (a, b) =
        handle_module_events-IsGood rest next fresh (next-IsGood (lookup name st.module_state)) in
      (
        a,
        Grows-trans st next (handle_module_events rest next)
            (next-Grows (lookup name st.module_state)) b,
      )
    where
      add : Resolution
      add = add_slot name (event (new_stateful_event (module_event e) false [])) st

      choose : Option Slot → Resolution
      choose o = elim o [ some (Slot.event old) ↦ if old.executed then st else add | _ ↦ add ]

      next : Resolution
      next = choose (lookup name st.module_state)

      added : IsGood bindings events add
      added =
          add_module_event-IsGood bindings events name
            (new_stateful_event (module_event e) false []) st f g refl refl refl good

      added-Grows : Grows st add
      added-Grows = add_slot-Grows name (event (new_stateful_event (module_event e) false [])) st

      next-IsGood : (o : Option Slot) → IsGood bindings events (choose o)
      next-IsGood none = added
      next-IsGood (some contract) = added
      next-IsGood (some (event old)) = elim (Bool-cases old.executed) [
        | inl t ↦ rw t good
        | inr t ↦ rw t added
      ]

      next-Grows : (o : Option Slot) → Grows st (choose o)
      next-Grows none = added-Grows
      next-Grows (some contract) = added-Grows
      next-Grows (some (event old)) = elim (Bool-cases old.executed) [
        | inl t ↦ rw t (λ x r. r)
        | inr t ↦ rw t added-Grows
      ]

-- When the resolution of a module ends without an error, at whatever depth of calls, every contract of the
-- module has an entry in the module state, and each entry stands behind all that its element needs: a
-- contract behind the bound contracts among its arguments, its libraries and the dependencies of its
-- deploy function, an event that runs after deployment behind its dependencies, event dependencies and
-- usages. The module is one whose events have names of their own and whose hooks are of their types.
pub resolve_elements_ordered :
    (depth : ℕ) (bindings : Bindings) (events : Events) (module_events : ModuleEvents)
    (st : Resolution)
    → IsWellFormed bindings events
    → AreFresh bindings events module_events.on_start
    → AreFresh bindings events module_events.on_success
    → AreFresh bindings events module_events.on_completion
    → resolve_elements depth bindings events module_events ≡ ok st
    → IsSorted bindings events NothingSeen st.module_state × All (IsResolved st) (keys bindings)
unfolding resolve_elements
resolve_elements_ordered depth bindings events m st wf f₁ f₂ f₃ e =
    Ensures-eq Q (resolve_elements depth bindings events m) st e (
      Ensures-bind (Becomes bindings events start (λ s. All (IsResolved s) (keys bindings))) Q
        (for_each step (keys bindings) start) _
        (for_each-IsSafe bindings events step (λ x s. IsResolved s x) (keys bindings)
          (IsResolved-IsStable bindings events)
          (λ x _.
            unless_resolved-IsSafe bindings events (resolve_contract bindings events depth) x
              (resolve_contract-IsSafe bindings events wf depth x))
          start
          (handle_module_events-IsGood bindings events wf m.on_start nothing_resolved f₁ tt).0)
        λ s (good, _, all).
          let (a, b) = handle_module_events-IsGood bindings events wf m.on_success s f₂ good in
          let (c, d) = handle_module_events-IsGood bindings events wf m.on_completion _ f₃ a in
          (c, All-map (IsResolved s) _ (keys bindings) (λ x r. d x (b x r)) all))
  where
    start : Resolution
    start = handle_module_events m.on_start nothing_resolved

    step : String → Step
    step = unless_resolved (resolve_contract bindings events depth)

    Q : Resolution → Type 0
    Q s = IsSorted bindings events NothingSeen s.module_state × All (IsResolved s) (keys bindings)
